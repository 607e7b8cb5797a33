-- ===== src/Backend/Calls/Ensuring.antt =====
-- What holds where a call answers: a postcondition, built along the call.
pub mod Reading
use vision_qc.Prelude.{Option, none, some, Bool, true, false, ◌≡◌, refl, subst}
use vision_qc.Backend.Calls.{
  Call, Result, ok, err, ServiceError, pure, raise, lift, gets, or_raise, branch, guard, ◌>>=◌,
  ◌>>◌,
}

abbrev pub Holds : {S A : Type 0} → (A → S → Type 0) → Result (A × S) → Type 0
Holds Q (ok (a, s)) = Q a s
Holds Q (err _) = Unit {0}

pub data Ensures {S A : Type 0} (s : S) (m : Call S A) (Q : A → S → Type 0) : Type 0 where
  ensures : Holds Q (m s) → Ensures s m Q

pub Ensures-Holds :
    {S A : Type 0} {s : S} {m : Call S A} {Q : A → S → Type 0} → Ensures s m Q → Holds Q (m s)
Ensures-Holds (ensures h) = h

pub Ensures-ok :
    {S A : Type 0} {s : S} {m : Call S A} {Q : A → S → Type 0}
    → Ensures s m Q
    → {a : A} {s' : S} → m s ≡ ok (a, s')
    → Q a s'
Ensures-ok {Q = Q} (ensures h) e = subst (Holds Q) e h

module _ {S A : Type 0} {s : S} {Q : A → S → Type 0} where
  pub Ensures-pure : (a : A) → Q a s → Ensures s (pure a) Q
  unfolding pure
  Ensures-pure a q = ensures q

  pub Ensures-raise : (e : ServiceError) → Ensures s (raise e) Q
  unfolding raise
  Ensures-raise e = ensures tt

  pub Ensures-gets : (f : S → A) → Q (f s) s → Ensures s (gets f) Q
  unfolding gets
  Ensures-gets f q = ensures q

  pub Ensures-lift : (r : Result A) → ((a : A) → r ≡ ok a → Q a s) → Ensures s (lift r) Q
  unfolding lift
  Ensures-lift (ok a) k = ensures (k a refl)
  Ensures-lift (err e) k = ensures tt

  pub Ensures-or_raise :
      (o : Option A) (e : ServiceError)
      → ((a : A) → o ≡ some a → Q a s)
      → Ensures s (or_raise o e) Q
  unfolding or_raise
  Ensures-or_raise none e k = ensures tt
  Ensures-or_raise (some a) e k = ensures (k a refl)

  pub Ensures-branch :
      (b : Bool) {m k : Call S A}
      → (b ≡ true → Ensures s m Q)
      → (b ≡ false → Ensures s k Q)
      → Ensures s (branch b m k) Q
  unfolding branch
  Ensures-branch true m k = m refl
  Ensures-branch false m k = k refl

pub Ensures-guard :
    {S : Type 0} {s : S} {Q : Unit {0} → S → Type 0} (b : Bool) (e : ServiceError)
    → (b ≡ true → Q tt s)
    → Ensures s (guard b e) Q
unfolding guard
Ensures-guard true e k = ensures (k refl)
Ensures-guard false e k = ensures tt

Holds-bind :
    {S A B : Type 0} (Q : B → S → Type 0) (r : Result (A × S)) (f : A → Call S B)
    → Holds (λ a s. Ensures s (f a) Q) r
    → Holds Q (elim r as (λ _. Result (B × S)) [ ok (a, s) ↦ f a s | err e ↦ err e ])
Holds-bind Q (ok (a, s)) f h = Ensures-Holds h
Holds-bind Q (err e) f h = tt

module _ {S A B : Type 0} {s : S} {m : Call S A} {Q : B → S → Type 0} where
  pub Ensures-bind :
      {f : A → Call S B} → Ensures s m (λ a s'. Ensures s' (f a) Q) → Ensures s (m >>= f) Q
  unfolding ◌>>=◌
  Ensures-bind {f} (ensures h) = ensures (Holds-bind Q (m s) f h)

  pub Ensures-then : {n : Call S B} → Ensures s m (λ _ s'. Ensures s' n Q) → Ensures s (m >> n) Q
  unfolding ◌>>◌
  Ensures-then h = Ensures-bind h

-- A weaker postcondition.
pub Ensures-imp :
    {S A : Type 0} {s : S} {m : Call S A} {P Q : A → S → Type 0}
    → Ensures s m P
    → ((a : A) (s' : S) → P a s' → Q a s')
    → Ensures s m Q
Ensures-imp {S = S} {A} {s} {m} {P} {Q} (ensures h) k = ensures (weaken (m s) h)
  where
    weaken : (r : Result (A × S)) → Holds P r → Holds Q r
    weaken (ok (a, s')) h = k a s' h
    weaken (err e) h = tt
