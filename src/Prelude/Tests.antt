-- ===== src/Prelude/Tests.antt =====
-- Boolean tests on native numbers and texts, and case splits on computed values.
use Prim.Native.Nat.{ℕ, zero, suc, compare, Ordering}
use Prim.Native.String.{String, String as Text}
use mathlib.Core.Path.{◌≡◌, refl}
use mathlib.Core.Logic.{◌⊎◌, inl, inr}
use mathlib.Core.Bool.{Bool, true, false}
use mathlib.Core.Option.{Option, none, some}
use native.Mathlib.Omega.{arith}
use text.Mathlib.Text.{◌==◌ as str_eq}
use text.Mathlib.TextEquality.{eq_iff}

abbrev pub ltb : ℕ → ℕ → Bool
ltb a b = elim (compare a b) [ Ordering.lt ↦ true | _ ↦ false ]

abbrev pub leb : ℕ → ℕ → Bool
leb a b = elim (compare a b) [ Ordering.gt ↦ false | _ ↦ true ]

infix 50 ◌==◌
abbrev pub ◌==◌ : ℕ → ℕ → Bool
a == b = elim (compare a b) [ Ordering.eq ↦ true | _ ↦ false ]

infix 1 if◌then◌else◌
abbrev pub if◌then◌else◌ {ℓ} : {A : Type ℓ} → Bool → A → A → A
if true then x else y = x
if false then x else y = y

pub Bool-cases : (b : Bool) → (b ≡ true) ⊎ (b ≡ false)
Bool-cases true = inl refl
Bool-cases false = inr refl

pub Option-cases {ℓ} : {A : Type ℓ} (o : Option A) → (o ≡ none) ⊎ ((a : A) × (o ≡ some a))
Option-cases none = inl refl
Option-cases (some a) = inr (a, refl)

-- Python's truth value of an optional text: `None` and `""` are false.
abbrev pub truthy : Option String → Bool
truthy none = false
truthy (some t) = elim (str_eq t "") [ true ↦ false | false ↦ true ]

-- `x or None` on an optional text.
abbrev pub or_none : Option String → Option String
or_none o = if truthy o then o else none

-- `column = ?` of SQL on a nullable text: `NULL` equals nothing.
abbrev pub sql_eq : Option String → String → Bool
sql_eq none t = false
sql_eq (some s) t = str_eq s t

abbrev pub is_some {ℓ} : {A : Type ℓ} → Option A → Bool
is_some none = false
is_some (some _) = true

pub sql_eq-some : (o : Option String) (t : String) → sql_eq o t ≡ true → o ≡ some t
sql_eq-some none t h = cc
sql_eq-some (some s) t h = cc ((eq_iff s t).0 h)

pub ==→eq : (a b : ℕ) → (a == b) ≡ true → a ≡ b
==→eq a b h = ground arith

-- `text[:n]`
abbrev pub clip : ℕ → String → String
clip zero s = ""
clip (suc n) Text.[] = ""
clip (suc n) (Text.◌∷◌ c s) = Text.◌∷◌ c (clip n s)

-- `len(text)`, in characters.
abbrev pub characters : String → ℕ
characters Text.[] = 0
characters (Text.◌∷◌ c s) = suc (characters s)
