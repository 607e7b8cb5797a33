-- ===== src/Backend/Calls/Ensuring/Reading.antt =====
-- Calls that only read: they leave the tables as they are.
use vision_qc.Prelude.{
  Option, none, some, Bool, true, false, ◌≡◌, refl, sym, ap, ◌∙◌, subst, inl, inr,
}
use vision_qc.Backend.Calls.{
  Call, Result-cases, ok, ServiceError, pure, raise, gets, or_raise, branch, on_option, guard,
  ◌>>=◌, ◌>>◌,
}
use vision_qc.Backend.Calls.Ensuring.{
  Ensures, ensures, Ensures-ok, Ensures-bind, Ensures-then, Ensures-imp,
}

pub data Still {S A : Type 0} (m : Call S A) : Type 0 where
  still : ((s : S) → Ensures s m (λ _ s'. s' ≡ s)) → Still m

pub Still-Ensures : {S A : Type 0} {m : Call S A} → Still m → (s : S) → Ensures s m (λ _ s'. s' ≡ s)
Still-Ensures (still k) s = k s

module _ {S A : Type 0} where
  pub Still-pure : (a : A) → Still {S = S} (pure a)
  unfolding pure
  Still-pure a = still λ s. ensures refl

  pub Still-raise : (e : ServiceError) → Still {S = S} {A = A} (raise e)
  unfolding raise
  Still-raise e = still λ s. ensures tt

  pub Still-gets : (f : S → A) → Still (gets f)
  unfolding gets
  Still-gets f = still λ s. ensures refl

  pub Still-or_raise : (o : Option A) (e : ServiceError) → Still {S = S} (or_raise o e)
  unfolding or_raise
  Still-or_raise none e = still λ s. ensures tt
  Still-or_raise (some a) e = still λ s. ensures refl

  pub Still-branch : (b : Bool) {m k : Call S A} → Still m → Still k → Still (branch b m k)
  unfolding branch
  Still-branch true m k = m
  Still-branch false m k = k

pub Still-guard : {S : Type 0} (b : Bool) (e : ServiceError) → Still {S = S} (guard b e)
unfolding guard
Still-guard true e = still λ s. ensures refl
Still-guard false e = still λ s. ensures tt

module _ {S A B : Type 0} where
  pub Still-bind :
      {m : Call S A} {f : A → Call S B} → Still m → ((a : A) → Still (f a)) → Still (m >>= f)
  Still-bind (still k) l = still λ s.
      Ensures-bind
        (Ensures-imp (k s) λ a s' e. Ensures-imp (Still-Ensures (l a) s') (λ b t d. d ∙ e))

  pub Still-then : {m : Call S A} {n : Call S B} → Still m → Still n → Still (m >> n)
  unfolding ◌>>◌
  Still-then k l = Still-bind k (λ _. l)

  pub Still-on_option :
      (o : Option A) {m : Call S B} {f : A → Call S B}
      → Still m
      → ((a : A) → Still (f a))
      → Still (on_option o m f)
  unfolding on_option
  Still-on_option none k l = k
  Still-on_option (some a) k l = l a

pub ruleset reading = (
  Still-pure, Still-raise, Still-gets, Still-or_raise, Still-branch, Still-guard, Still-bind,
  Still-then, Still-on_option,
)

-- A read, and what follows on the same tables.
module _ {S A B : Type 0} {s : S} {m : Call S A} {Q : B → S → Type 0} where
  pub Ensures-read :
      (P : A → Type 0) {f : A → Call S B}
      → Ensures s m (λ a s'. (s' ≡ s) × P a)
      → ((a : A) → P a → Ensures s (f a) Q)
      → Ensures s (m >>= f) Q
  Ensures-read P {f} r k =
      Ensures-bind (Ensures-imp r λ a s' h. subst (λ t. Ensures t (f a) Q) (sym h.0) (k a h.1))

  pub Ensures-still :
      {f : A → Call S B} → Still m → ((a : A) → Ensures s (f a) Q) → Ensures s (m >>= f) Q
  Ensures-still {f} r k =
      Ensures-bind
        (Ensures-imp (Still-Ensures r s) λ a s' e. subst (λ t. Ensures t (f a) Q) (sym e) (k a))

  pub Ensures-skip : {n : Call S B} → Still m → Ensures s n Q → Ensures s (m >> n) Q
  unfolding ◌>>◌
  Ensures-skip r k = Ensures-still r (λ _. k)

  pub Ensures-read_then :
      (P : A → Type 0) {n : Call S B}
      → Ensures s m (λ a s'. (s' ≡ s) × P a)
      → ((a : A) → P a → Ensures s n Q)
      → Ensures s (m >> n) Q
  unfolding ◌>>◌
  Ensures-read_then P r k = Ensures-read P r k

  -- A write that is known, and what follows on the tables that it leaves.
  pub Ensures-write :
      (t : S) {n : Call S B} → Ensures s m (λ _ s'. s' ≡ t) → Ensures t n Q → Ensures s (m >> n) Q
  Ensures-write t {n} w k =
      Ensures-then (Ensures-imp w λ a s' e. subst (λ u. Ensures u n Q) (sym e) k)

-- A call that only reads is known by its answer.
pub Still-answer :
    {S A : Type 0} {m : Call S A} (s : S)
    → Still m
    → Ensures s m (λ a s'. (s' ≡ s) × (m s ≡ ok (a, s)))
Still-answer {S} {A} {m} s r = elim (Result-cases (m s)) [
  | inr (e, h) ↦ ensures (rw h tt)
  | inl ((a, s'), h) ↦
      let same : s' ≡ s = Ensures-ok (Still-Ensures r s) h in
      ensures (rw h (same, ap (λ t. ok (a, t)) same))
]
