-- ===== src/Prelude/Lists.antt =====
-- Lists measured by native numbers, and predicates over lists by recursion.
use Prim.Native.Nat.{ℕ, zero, suc, ◌+◌, min}
use mathlib.Core.Path.{◌≡◌, refl, ap, sym, subst}
use mathlib.Core.Logic.{◌⊎◌, inl, inr}
use mathlib.Core.Bool.{Bool, true, false}
use mathlib.Core.List.{List, [], ◌∷◌, ◌++◌, map}
use native.Mathlib.Omega.{arith}

module _ {ℓ} {A : Type ℓ} where
  abbrev pub length : List A → ℕ
  length [] = 0
  length (x ∷ xs) = suc (length xs)

  abbrev pub take : ℕ → List A → List A
  take zero xs = []
  take (suc n) [] = []
  take (suc n) (x ∷ xs) = x ∷ take n xs

  -- How many items pass the test.
  abbrev pub count_if : (A → Bool) → List A → ℕ
  count_if p [] = 0
  count_if p (x ∷ xs) = elim (p x) [ true ↦ suc (count_if p xs) | false ↦ count_if p xs ]

  -- The items that pass the test, in order.
  abbrev pub keep_if : (A → Bool) → List A → List A
  keep_if p [] = []
  keep_if p (x ∷ xs) = let rest = keep_if p xs in elim (p x) [ true ↦ x ∷ rest | false ↦ rest ]

  abbrev pub any_of : (A → Bool) → List A → Bool
  any_of p [] = false
  any_of p (x ∷ xs) = let rest = any_of p xs in elim (p x) [ true ↦ true | false ↦ rest ]

  abbrev pub all_of : (A → Bool) → List A → Bool
  all_of p [] = true
  all_of p (x ∷ xs) = let rest = all_of p xs in elim (p x) [ true ↦ rest | false ↦ false ]

  abbrev pub All {κ} : (A → Type κ) → List A → Type κ
  All P [] = Unit
  All P (x ∷ xs) = P x × All P xs

  -- Every item is related to every later one.
  abbrev pub Pairwise {κ} : (A → A → Type κ) → List A → Type κ
  Pairwise R [] = Unit
  Pairwise R (x ∷ xs) = All (R x) xs × Pairwise R xs

-- The item stands in the list.
abbrev pub Member : {A : Type 0} → A → List A → Type 0
Member a [] = ⊥
Member a (x ∷ xs) = (a ≡ x) ⊎ Member a xs

module _ {ℓ κ} {A : Type ℓ} where
  pub All-snoc : (P : A → Type κ) (xs : List A) (y : A) → All P xs → P y → All P (xs ++ y ∷ [])
  All-snoc P [] y h p = (p, tt)
  All-snoc P (x ∷ xs) y h p = (h.0, All-snoc P xs y h.1 p)

  pub All-imp {μ} :
      (P : A → Type κ) (Q : A → Type μ) (xs : List A) → ((a : A) → P a → Q a) → All P xs → All Q xs
  All-imp P Q [] f h = tt
  All-imp P Q (x ∷ xs) f h = (f x h.0, All-imp P Q xs f h.1)

  -- A fact about every item, kept by a function that is applied to every item.
  pub All-map :
      {B : Type ℓ} (P : A → Type κ) (Q : B → Type κ) (g : A → B) (xs : List A)
      → ((a : A) → P a → Q (g a))
      → All P xs
      → All Q (map g xs)
  All-map P Q g [] f h = tt
  All-map P Q g (x ∷ xs) f h = (f x h.0, All-map P Q g xs f h.1)

  pub Pairwise-snoc :
      (R : A → A → Type κ) (xs : List A) (y : A)
      → Pairwise R xs
      → All (λ a. R a y) xs
      → Pairwise R (xs ++ y ∷ [])
  Pairwise-snoc R [] y h p = (tt, tt)
  Pairwise-snoc R (x ∷ xs) y h p = (All-snoc (R x) xs y h.0 p.0, Pairwise-snoc R xs y h.1 p.1)

  -- A relation between items, kept by a function on items that satisfy `P`.
  pub Pairwise-map :
      (P : A → Type κ) (R : A → A → Type κ) (g : A → A) (xs : List A)
      → ((a b : A) → P a → P b → R a b → R (g a) (g b))
      → All P xs
      → Pairwise R xs
      → Pairwise R (map g xs)
  Pairwise-map P R g [] f hp h = tt
  Pairwise-map P R g (x ∷ xs) f hp h = (
    All-map (λ b. P b × R x b) (R (g x)) g xs (λ b t. f x b hp.0 t.0 t.1) (both xs hp.1 h.0),
    Pairwise-map P R g xs f hp.1 h.1,
  )
    where
      both : (ys : List A) → All P ys → All (R x) ys → All (λ b. P b × R x b) ys
      both [] _ _ = tt
      both (y ∷ ys) p r = ((p.0, r.0), both ys p.1 r.1)

pub All-member : {A : Type 0} (P : A → Type 0) (a : A) (xs : List A) → All P xs → Member a xs → P a
All-member P a [] h m = absurd m
All-member P a (x ∷ xs) h (inl e) = subst P (sym e) h.0
All-member P a (x ∷ xs) h (inr m) = All-member P a xs h.1 m

-- What holds of each member holds of all.
pub All-of_Member :
    {A : Type 0} (P : A → Type 0) (xs : List A) → ((a : A) → Member a xs → P a) → All P xs
All-of_Member P [] f = tt
All-of_Member P (x ∷ xs) f = (f x (inl refl), All-of_Member P xs (λ a m. f a (inr m)))

pub Member-snoc_old : {A : Type 0} (a y : A) (xs : List A) → Member a xs → Member a (xs ++ y ∷ [])
Member-snoc_old a y [] m = absurd m
Member-snoc_old a y (x ∷ xs) (inl e) = inl e
Member-snoc_old a y (x ∷ xs) (inr m) = inr (Member-snoc_old a y xs m)

pub Member-snoc_new : {A : Type 0} (y : A) (xs : List A) → Member y (xs ++ y ∷ [])
Member-snoc_new y [] = inl refl
Member-snoc_new y (x ∷ xs) = inr (Member-snoc_new y xs)

pub Member-map :
    {A B : Type 0} (g : A → B) (a : A) (xs : List A) → Member a xs → Member (g a) (map g xs)
Member-map g a [] m = absurd m
Member-map g a (x ∷ xs) (inl e) = inl (ap g e)
Member-map g a (x ∷ xs) (inr m) = inr (Member-map g a xs m)

module _ {ℓ} {A : Type ℓ} where
  pub length-append : (xs ys : List A) → length (xs ++ ys) ≡ length xs + length ys
  length-append [] ys = omega arith
  length-append (x ∷ xs) ys = omega (arith, length-append xs ys)

  pub length-map {κ} : {B : Type κ} (xs : List A) (f : A → B) → length (map f xs) ≡ length xs
  length-map [] f = refl
  length-map (x ∷ xs) f = ap suc (length-map xs f)

  pub length-take : (n : ℕ) (xs : List A) → length (take n xs) ≡ min n (length xs)
  length-take zero xs = omega arith
  length-take (suc n) [] = omega arith
  length-take (suc n) (x ∷ xs) = omega (arith, length-take n xs)
