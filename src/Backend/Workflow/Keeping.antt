-- ===== src/Backend/Workflow/Keeping.antt =====
-- What the actions of `Session` keep: every predicate of the tables that is closed under the three
-- writes to the inspections and under any write to the other tables.
use vision_qc.Prelude.{
  ℕ, String, Option, none, some, Bool, true, false, List, [], ◌∷◌, ◌++◌, ◌≡◌, sym, subst,
  find_first, update_where, Option-cases, find_first-some, ==→eq, inl, inr,
}
use vision_qc.Backend.Domain.{InspectionStatus, received, text_of, assert_inspection_transition}
use vision_qc.Backend.Domain.Trails.{IsMove, assert_inspection_transition_lem}
use vision_qc.Backend.Workflow.Tables.{Inspection, Rest, Db}
use vision_qc.Backend.Calls.{
  Result, ok, err, ServiceError, crash, pure, raise, lift, gets, or_raise, branch, on_option, guard,
  for_each, ◌>>=◌, ◌>>◌,
}
use vision_qc.Backend.Workflow.Session.{
  Action, modify, new_id, record_audit, transition, note_failure, insert_inspection, inspection_row,
  is_inspection, moved_db, with_failure,
}

pub record IsClosed (P : Db → Type 0) : Type 0 where
  pub rest : {db : Db} → P db → (r : Rest) → P (record db { rest = r })
  pub note :
      {db : Db}
      → P db
      → (i : ℕ) (reason : String)
      → P (record db {
        inspections = update_where (is_inspection i) (with_failure reason) db.inspections;
      })
  pub move :
      {db : Db}
      → P db
      → (x : Inspection) (target : InspectionStatus) (actor reason correlation : String)
      → find_first (is_inspection x.id) db.inspections ≡ some x
      → IsMove x.status target
      → P (moved_db x target actor reason correlation db)
  pub insert :
      {db : Db}
      → P db
      → (x : Inspection) → find_first (is_inspection x.id) db.inspections ≡ none
      → x.status ≡ received
      → P (record db { inspections = db.inspections ++ x ∷ [] })

-- The predicate, where the action answers.
abbrev pub Holds : {A : Type 0} → (Db → Type 0) → Result (A × Db) → Type 0
Holds P (ok (_, db)) = P db
Holds P (err _) = Unit {0}

-- An action that keeps the predicate.
pub data Keeps {A : Type 0} (P : Db → Type 0) (m : Action A) : Type 0 where
  keeps : ((db : Db) → P db → Holds P (m db)) → Keeps P m

module _ {P : Db → Type 0} where
  pub Keeps-ok :
      {A : Type 0} {m : Action A}
      → Keeps P m
      → {db db' : Db} {a : A} → P db
      → m db ≡ ok (a, db')
      → P db'
  Keeps-ok {m = m} (keeps k) {db} {db'} t e = subst (Holds P) e (k db t)

  Holds-bind :
      {A B : Type 0} (r : Result (A × Db)) (f : A → Action B)
      → Holds P r
      → ((a : A) → Keeps P (f a))
      → Holds P (elim r as (λ _. Result (B × Db)) [ ok (a, db) ↦ f a db | err e ↦ err e ])
  Holds-bind {B = B} (ok (a, db)) f h k = run (k a) h
    where
      run : {m : Action B} → Keeps P m → P db → Holds P (m db)
      run (keeps l) h = l db h
  Holds-bind (err e) f h k = tt

  module _ {A : Type 0} where
    pub Keeps-pure : (a : A) → Keeps P (pure a)
    unfolding pure
    Keeps-pure a = keeps λ db t. t

    pub Keeps-raise : (e : ServiceError) → Keeps P (raise {A = A} e)
    unfolding raise
    Keeps-raise e = keeps λ db t. tt

    pub Keeps-lift : (r : Result A) → Keeps P (lift r)
    unfolding lift
    Keeps-lift (ok a) = keeps λ db t. t
    Keeps-lift (err e) = keeps λ db t. tt

    pub Keeps-gets : (f : Db → A) → Keeps P (gets f)
    unfolding gets
    Keeps-gets f = keeps λ db t. t

    pub Keeps-or_raise : (o : Option A) (e : ServiceError) → Keeps P (or_raise o e)
    unfolding or_raise
    Keeps-or_raise none e = keeps λ db t. tt
    Keeps-or_raise (some a) e = keeps λ db t. t

    pub Keeps-branch : (b : Bool) {m k : Action A} → Keeps P m → Keeps P k → Keeps P (branch b m k)
    unfolding branch
    Keeps-branch true m k = m
    Keeps-branch false m k = k

  pub Keeps-bind :
      {A B : Type 0} {m : Action A} {f : A → Action B}
      → Keeps P m
      → ((a : A) → Keeps P (f a))
      → Keeps P (m >>= f)
  unfolding ◌>>=◌
  Keeps-bind {m = m} {f} (keeps k) l = keeps λ db t. Holds-bind (m db) f (k db t) l

  pub Keeps-then :
      {A B : Type 0} {m : Action A} {n : Action B} → Keeps P m → Keeps P n → Keeps P (m >> n)
  unfolding ◌>>◌
  Keeps-then k l = Keeps-bind k (λ _. l)

  pub Keeps-on_option :
      {A B : Type 0} (o : Option A) {m : Action B} {f : A → Action B}
      → Keeps P m
      → ((a : A) → Keeps P (f a))
      → Keeps P (on_option o m f)
  unfolding on_option
  Keeps-on_option none k l = k
  Keeps-on_option (some a) k l = l a

  pub Keeps-guard : (b : Bool) (e : ServiceError) → Keeps P (guard b e)
  unfolding guard
  Keeps-guard true e = keeps λ db t. t
  Keeps-guard false e = keeps λ db t. tt

module _ {P : Db → Type 0} (c : IsClosed P) where
  pub Keeps-modify : (f : Rest → Rest) → Keeps P (modify f)
  unfolding modify
  Keeps-modify f = keeps λ db t. c.rest t (f db.rest)

  pub Keeps-for_each :
      {A : Type 0} (l : List A) {f : A → Action (Unit {0})}
      → ((a : A) → Keeps P (f a))
      → Keeps P (for_each l f)
  unfolding for_each
  Keeps-for_each [] k = Keeps-pure tt
  Keeps-for_each (a ∷ l) k = Keeps-then (k a) (Keeps-for_each l k)

  pub Keeps-new_id : Keeps P new_id
  unfolding new_id
  Keeps-new_id = keeps λ db t. c.rest t _

  pub Keeps-record_audit :
      (tenant actor action target_type : String) (target : ℕ) (correlation : String)
      → Keeps P (record_audit tenant actor action target_type target correlation)
  unfolding record_audit
  Keeps-record_audit tenant actor action target_type target correlation = Keeps-modify _

  pub Keeps-inspection_row : (i : ℕ) → Keeps P (inspection_row i)
  unfolding inspection_row
  Keeps-inspection_row i = keeps λ db t.
      elim (find_first (is_inspection i) db.inspections)
        as (λ o.
          Holds P (elim o as (λ _. Result (Inspection × Db)) [
            | none ↦ err crash
            | some x ↦ ok (x, db)
          ])) [ none ↦ tt | some x ↦ t ]

  Holds-transition :
      (i : ℕ) (target : InspectionStatus) (actor reason : String) (correlation : Option String)
      (db : Db)
      → P db
      → Holds P (transition i target actor reason correlation db)
  unfolding transition record_audit modify
  Holds-transition i target actor reason correlation db t =
      elim (Option-cases (find_first (is_inspection i) db.inspections)) [
        | inl n ↦ rw (n, Holds) tt
        | inr (x, n) ↦
            elim (Option-cases (assert_inspection_transition (text_of x.status) (text_of target))) [
              | inl a ↦
                  let sx : x.id ≡ i =
                    ==→eq _ _ (find_first-some (is_inspection i) db.inspections n).1 in
                  let found : find_first (is_inspection x.id) db.inspections ≡ some x =
                    subst (λ j. find_first (is_inspection j) db.inspections ≡ some x) (sym sx) n in
                  let m = (assert_inspection_transition_lem.0 x.status target).0 a in
                  rw (n, a, Holds) (c.rest (c.move t x target actor reason _ found m) _)
              | inr (e, a) ↦ rw (n, a, Holds) tt
            ]
      ]

  pub Keeps-transition :
      (i : ℕ) (target : InspectionStatus) (actor reason : String) (correlation : Option String)
      → Keeps P (transition i target actor reason correlation)
  Keeps-transition i target actor reason correlation =
      keeps (Holds-transition i target actor reason correlation)

  pub Keeps-note_failure : (i : ℕ) (reason : String) → Keeps P (note_failure i reason)
  unfolding note_failure
  Keeps-note_failure i reason = keeps λ db t. c.note t i reason

  pub Keeps-insert_inspection :
      (x : Inspection) → x.status ≡ received → Keeps P (insert_inspection x)
  unfolding insert_inspection
  Keeps-insert_inspection x s = keeps λ db t.
      elim (Option-cases (find_first (is_inspection x.id) db.inspections)) [
        | inl n ↦ rw (n, Holds) (c.insert t x n s)
        | inr (y, n) ↦ rw (n, Holds) tt
      ]
