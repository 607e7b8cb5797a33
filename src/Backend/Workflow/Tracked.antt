-- ===== src/Backend/Workflow/Tracked.antt =====
-- The log of transitions tells the whole life of each inspection.
use vision_qc.Prelude.{
  ℕ, String, Option, none, some, Bool, true, false, List, [], ◌∷◌, ◌++◌, ◌≡◌, refl, sym, subst,
  ◌==◌, if◌then◌else◌, find_first, update_where, Option-cases, Bool-cases, inl, inr, Member, ◌⊎◌,
  ==→eq, arith,
}
use vision_qc.Backend.Domain.{
  InspectionStatus, received, nonconformance_confirmed, closed, review_required, batch_held,
}
use vision_qc.Backend.Domain.Trails.{
  Trail, here, move, IsMove, closed_confirmed, release_reviewed, unreviewed,
}
use vision_qc.Backend.Workflow.Tables.{Inspection, with_status, StateTransition, Db}
use vision_qc.Backend.Workflow.Session.{is_inspection, moved_db, log_entry, with_failure}
use vision_qc.Backend.Workflow.Environment.{Env}
use vision_qc.Backend.Workflow.Keeping.{IsClosed}
use vision_qc.Backend.Workflow.Steps.{Reach, Reach-keeps}

-- The states that the log says an inspection entered, in order.
abbrev pub entered : ℕ → List StateTransition → List InspectionStatus
entered i [] = []
entered i (t ∷ log) =
    let rest = entered i log in if t.entity_id == i then t.to_state ∷ rest else rest

entered-snoc :
    (i : ℕ) (log : List StateTransition) (t : StateTransition)
    → entered i (log ++ t ∷ [])
      ≡ entered i log ++ (if t.entity_id == i then t.to_state ∷ [] else [])
entered-snoc i [] t = ground arith
entered-snoc i (u ∷ log) t = ground (arith, entered-snoc i log t)

entered-hit :
    (i : ℕ) (log : List StateTransition) (t : StateTransition)
    → t.entity_id ≡ i
    → entered i (log ++ t ∷ []) ≡ entered i log ++ t.to_state ∷ []
entered-hit i log t e = ground (arith, entered-snoc i log t)

entered-miss :
    (i : ℕ) (log : List StateTransition) (t : StateTransition)
    → t.entity_id == i ≡ false
    → entered i (log ++ t ∷ []) ≡ entered i log
entered-miss i [] t e = ground arith
entered-miss i (u ∷ log) t e = ground (arith, entered-miss i log t e)

Trail-snoc :
    {s t u : InspectionStatus} {l : List InspectionStatus}
    → Trail s l t
    → IsMove t u
    → Trail s (l ++ u ∷ []) u
Trail-snoc here m = move m here
Trail-snoc (move n rest) m = move n (Trail-snoc rest m)

-- The row under an id, after the rows under another id are changed.
pub find_first-other :
    (i j : ℕ) (f : Inspection → Inspection) (l : List Inspection)
    → ((x : Inspection) → (f x).id ≡ x.id)
    → j == i ≡ false
    → find_first (is_inspection i) (update_where (is_inspection j) f l)
      ≡ find_first (is_inspection i) l
find_first-other i j f [] k e = refl
find_first-other i j f (x ∷ l) k e =
    let ih = find_first-other i j f l k e in
    elim (Bool-cases (x.id == j)) [
      | inl s ↦ ground (arith, k x, s, e, ih)
      | inr s ↦ elim (Bool-cases (x.id == i)) [
        | inl r ↦ ground (arith, s, r)
        | inr r ↦ ground (arith, s, r, ih)
      ]
    ]

-- The row under an id, after the rows under it are changed.
pub find_first-same :
    (j : ℕ) (f : Inspection → Inspection) (l : List Inspection) {x : Inspection}
    → ((x : Inspection) → (f x).id ≡ x.id)
    → find_first (is_inspection j) l ≡ some x
    → find_first (is_inspection j) (update_where (is_inspection j) f l) ≡ some (f x)
find_first-same j f [] k e = cc
find_first-same j f (y ∷ l) {x} k e = elim (Bool-cases (y.id == j)) [
  | inl s ↦ ground (arith, k y, s, e)
  | inr s ↦ ground (arith, s, e, find_first-same j f l {x = x} k)
]

pub find_first-append :
    {A : Type 0} (p : A → Bool) (l : List A) (x : A)
    → find_first p (l ++ x ∷ [])
      ≡ elim (find_first p l) [ none ↦ if p x then some x else none | some y ↦ some y ]
find_first-append p [] x = ground arith
find_first-append p (y ∷ l) x = ground (arith, find_first-append p l x)

-- No row and no entry in the log, or a run of the transition table from `received` to the row's status.
abbrev pub Fits : Option Inspection → List InspectionStatus → Type 0
Fits none l = l ≡ []
Fits (some x) l = Trail received l x.status

abbrev pub IsTracked : ℕ → Db → Type 0
IsTracked i db = Fits (find_first (is_inspection i) db.inspections) (entered i db.transitions)

find_first-absent :
    (j : ℕ) (f : Inspection → Inspection) (l : List Inspection)
    → ((x : Inspection) → (f x).id ≡ x.id)
    → find_first (is_inspection j) l ≡ none
    → find_first (is_inspection j) (update_where (is_inspection j) f l) ≡ none
find_first-absent j f [] k e = refl
find_first-absent j f (y ∷ l) k e = elim (Bool-cases (y.id == j)) [
  | inl s ↦ ground (arith, s, e)
  | inr s ↦ ground (arith, s, e, find_first-absent j f l k)
]

Fits-noted_same :
    (j : ℕ) (reason : String) (l : List Inspection) (log : List InspectionStatus)
    → Fits (find_first (is_inspection j) l) log
    → Fits
        (find_first (is_inspection j) (update_where (is_inspection j) (with_failure reason) l))
        log
Fits-noted_same j reason l log t =
    let f = with_failure reason in
    elim (Option-cases (find_first (is_inspection j) l)) [
      | inl n ↦
          subst (λ o. Fits o log) (sym (find_first-absent j f l (λ x. refl) n))
            (subst (λ o. Fits o log) n t)
      | inr (x, n) ↦
          subst (λ o. Fits o log) (sym (find_first-same j f l {x = x} (λ x. refl) n))
            (subst (λ o. Fits o log) n t)
    ]

Fits-noted :
    (i j : ℕ) (reason : String) (l : List Inspection) (log : List InspectionStatus)
    → Fits (find_first (is_inspection i) l) log
    → Fits
        (find_first (is_inspection i) (update_where (is_inspection j) (with_failure reason) l))
        log
Fits-noted i j reason l log t = elim (Bool-cases (j == i)) [
  | inr e ↦
      subst (λ o. Fits o log) (sym (find_first-other i j (with_failure reason) l (λ x. refl) e)) t
  | inl e ↦
      subst
        (λ k.
          Fits
            (find_first (is_inspection i) (update_where (is_inspection k) (with_failure reason) l))
            log)
        (sym (==→eq _ _ e)) (Fits-noted_same i reason l log t)
]

Fits-moved_same :
    (x : Inspection) (target : InspectionStatus) (actor reason correlation : String) (db : Db)
    → IsTracked x.id db
    → find_first (is_inspection x.id) db.inspections ≡ some x
    → IsMove x.status target
    → IsTracked x.id (moved_db x target actor reason correlation db)
Fits-moved_same x target actor reason correlation db t f m =
    let added = log_entry x target actor reason correlation in
    let g = with_status target in
    let run : Trail received (entered x.id db.transitions) x.status =
      subst (λ o. Fits o (entered x.id db.transitions)) f t in
    rw
      (
        entered-hit x.id db.transitions added refl,
        find_first-same x.id g db.inspections {x = x} (λ x. refl) f,
      )
      (Trail-snoc run m)

Fits-moved :
    (i : ℕ) (x : Inspection) (target : InspectionStatus) (actor reason correlation : String)
    (db : Db)
    → IsTracked i db
    → find_first (is_inspection x.id) db.inspections ≡ some x
    → IsMove x.status target
    → IsTracked i (moved_db x target actor reason correlation db)
Fits-moved i x target actor reason correlation db t f m =
    let added = log_entry x target actor reason correlation in
    elim (Bool-cases (x.id == i)) [
      | inr e ↦
          rw
            (
              entered-miss i db.transitions added e,
              find_first-other i x.id (with_status target) db.inspections (λ x. refl) e,
            )
            t
      | inl e ↦
          let same : x.id ≡ i = ==→eq _ _ e in
          subst (λ k. IsTracked k (moved_db x target actor reason correlation db)) same
            (Fits-moved_same x target actor reason correlation db
              (subst (λ k. IsTracked k db) (sym same) t) f m)
    ]

Fits-inserted :
    (i : ℕ) (x : Inspection) (l : List Inspection) (log : List InspectionStatus)
    → Fits (find_first (is_inspection i) l) log
    → x.status ≡ received
    → Fits (find_first (is_inspection i) (l ++ x ∷ [])) log
Fits-inserted i x l log t s =
    rw (find_first-append (is_inspection i) l x) (go (find_first (is_inspection i) l) t)
  where
    added : Bool → Option Inspection → Option Inspection
    added b o = elim o [ none ↦ if b then some x else none | some y ↦ some y ]

    start : (b : Bool) → log ≡ [] → Fits (added b none) log
    start true e = rw (e, s) here
    start false e = e

    go : (o : Option Inspection) → Fits o log → Fits (added (is_inspection i x) o) log
    go none e = start (is_inspection i x) e
    go (some y) t = t

IsTracked-closed : (i : ℕ) → IsClosed (IsTracked i)
IsTracked-closed i = record {
  rest = λ t r. t;
  note = λ {db} t j reason. Fits-noted i j reason db.inspections (entered i db.transitions) t;
  move = λ {db} t x target actor reason correlation f m.
      Fits-moved i x target actor reason correlation db t f m;
  insert = λ {db} t x n s. Fits-inserted i x db.inspections (entered i db.transitions) t s;
}

-- In every run of the workflow from tables without inspections, whatever the model, the connectors and
-- the users do, the states that the log of transitions gives for an inspection are a run of the
-- transition table from `received` to the inspection's status.
pub Reach-IsTracked :
    {env : Env} {a b : Db}
    → a.inspections ≡ []
    → a.transitions ≡ []
    → Reach env a b
    → (i : ℕ) (x : Inspection) → find_first (is_inspection i) b.inspections ≡ some x
    → Trail received (entered i b.transitions) x.status
Reach-IsTracked {a = a} {b} none_yet no_log run i x found =
    let start : IsTracked i a = rw (none_yet, no_log) refl in
    subst (λ o. Fits o (entered i b.transitions)) found (Reach-keeps (IsTracked-closed i) run start)

-- In every run of the workflow from tables without inspections, an inspection that is closed has in its
-- log that a nonconformance was confirmed, and one that a person released, or that is anywhere past its
-- review, has in its log a review or a batch hold.
pub past_review :
    {env : Env} {a b : Db}
    → a.inspections ≡ []
    → a.transitions ≡ []
    → Reach env a b
    → (i : ℕ) (x : Inspection) → find_first (is_inspection i) b.inspections ≡ some x
    → (x.status ≡ closed → Member nonconformance_confirmed (entered i b.transitions))
      × (unreviewed x.status ≡ false
          → Member review_required (entered i b.transitions)
            ⊎ Member batch_held (entered i b.transitions))
past_review {b = b} none_yet no_log run i x found =
    let trail = Reach-IsTracked none_yet no_log run i x found in
    (
      λ e. closed_confirmed (subst (Trail received (entered i b.transitions)) e trail),
      λ e. release_reviewed e trail,
    )
