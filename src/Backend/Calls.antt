-- ===== src/Backend/Calls.antt =====
-- A service call of backend/app/services.py: it runs on the tables and answers or raises; a raised error
-- rolls the transaction back (`get_session` of backend/app/api.py), so that it carries no tables.
pub mod Ensuring
use vision_qc.Prelude.{
  String, Option, none, some, Bool, true, false, List, [], ◌∷◌, if◌then◌else◌, ◌≡◌, refl, ap, ◌⊎◌,
  inl, inr,
}

-- The subclasses of `ServiceError`, with their message, and any other exception.
pub data ServiceError : Type 0 where
  not_found conflict forbidden invalid_input dependency_unavailable : String → ServiceError
  crash : ServiceError

pub data Result (A : Type 0) : Type 0 where
  ok : A → Result A
  err : ServiceError → Result A

pub Result-cases :
    {A : Type 0} (r : Result A) → ((a : A) × (r ≡ ok a)) ⊎ ((e : ServiceError) × (r ≡ err e))
Result-cases (ok a) = inl (a, refl)
Result-cases (err e) = inr (e, refl)

abbrev pub Call : Type 0 → Type 0 → Type 0
Call S A = S → Result (A × S)

module _ {S A : Type 0} where
  unfoldable pub pure : A → Call S A
  pure a s = ok (a, s)

  unfoldable pub raise : ServiceError → Call S A
  raise e s = err e

  -- A call that reads no table.
  unfoldable pub lift : Result A → Call S A
  lift (ok a) s = ok (a, s)
  lift (err e) s = err e

  unfoldable pub gets : (S → A) → Call S A
  gets f s = ok (f s, s)

  unfoldable pub or_raise : Option A → ServiceError → Call S A
  or_raise none e s = err e
  or_raise (some a) e s = ok (a, s)

  -- `if test: m` else `k`, as actions.
  unfoldable pub branch : Bool → Call S A → Call S A → Call S A
  branch true m k = m
  branch false m k = k

infixl 5 ◌>>=◌ ◌>>◌
unfoldable pub ◌>>=◌ : {S A B : Type 0} → Call S A → (A → Call S B) → Call S B
◌>>=◌ m f s = elim (m s) [ ok (a, s') ↦ f a s' | err e ↦ err e ]

unfoldable pub ◌>>◌ : {S A B : Type 0} → Call S A → Call S B → Call S B
unfolding ◌>>=◌
m >> k = m >>= λ _. k

module _ {S A B : Type 0} (m : Call S A) (s : S) where
  pub bind_ok : (f : A → Call S B) {a : A} {s' : S} → m s ≡ ok (a, s') → (m >>= f) s ≡ f a s'
  unfolding ◌>>=◌
  bind_ok f e = ap (λ r. elim r as (λ _. Result (B × S)) [ ok (a, s') ↦ f a s' | err x ↦ err x ]) e

  pub bind_err : (f : A → Call S B) {x : ServiceError} → m s ≡ err x → (m >>= f) s ≡ err x
  unfolding ◌>>=◌
  bind_err f e = ap (λ r. elim r as (λ _. Result (B × S)) [ ok (a, s') ↦ f a s' | err x ↦ err x ]) e

  pub then_ok : (n : Call S B) {a : A} {s' : S} → m s ≡ ok (a, s') → (m >> n) s ≡ n s'
  unfolding ◌>>◌
  then_ok n e = bind_ok (λ _. n) e

  pub then_err : (n : Call S B) {x : ServiceError} → m s ≡ err x → (m >> n) s ≡ err x
  unfolding ◌>>◌
  then_err n e = bind_err (λ _. n) e

pub or_raise-some :
    {S A : Type 0} {o : Option A} {a : A} (e : ServiceError) (s : S)
    → o ≡ some a
    → or_raise o e s ≡ ok (a, s)
unfolding or_raise
or_raise-some e s h = ap (λ o. or_raise o e s) h

pub or_raise-none :
    {S A : Type 0} {o : Option A} (e : ServiceError) (s : S) → o ≡ none → or_raise o e s ≡ err e
unfolding or_raise
or_raise-none e s h = ap (λ o. or_raise o e s) h

pub gets_lem : {S A : Type 0} (f : S → A) (s : S) → gets f s ≡ ok (f s, s)
unfolding gets
gets_lem f s = refl

-- Two ways on from an optional value.
unfoldable pub on_option : {S A B : Type 0} → Option A → Call S B → (A → Call S B) → Call S B
on_option none m f = m
on_option (some a) m f = f a

unfoldable pub guard : {S : Type 0} → Bool → ServiceError → Call S (Unit {0})
guard true e s = ok (tt, s)
guard false e s = err e

pub guarded :
    {S A : Type 0} (b : Bool) (e : ServiceError) (a : A) (s : S)
    → (guard b e >> pure a) s ≡ (if b then ok (a, s) else err e)
unfolding guard pure ◌>>=◌ ◌>>◌
guarded true e a s = refl
guarded false e a s = refl

unfoldable pub for_each : {S A : Type 0} → List A → (A → Call S (Unit {0})) → Call S (Unit {0})
unfolding pure ◌>>◌
for_each [] f = pure tt
for_each (a ∷ l) f = f a >> for_each l f
