-- ===== src/Backend/Workflow/History.antt =====
-- What no operation of the workflow undoes: the log is only extended, and a final state stays.
use vision_qc.Prelude.{
  ℕ, String, some, List, [], ◌∷◌, ◌++◌, ◌≡◌, refl, ap, sym, ◌∙◌, subst, ◌==◌, find_first,
  update_where, Bool-cases, inl, inr, Member, ==→eq,
}
use vision_qc.Backend.Domain.{InspectionStatus, transitions}
use vision_qc.Backend.Workflow.Tables.{Inspection, with_status, StateTransition, Db}
use vision_qc.Backend.Workflow.Session.{is_inspection, log_entry, with_failure}
use vision_qc.Backend.Workflow.Environment.{Env}
use vision_qc.Backend.Workflow.Keeping.{IsClosed}
use vision_qc.Backend.Workflow.Steps.{Reach, Reach-keeps}
use vision_qc.Backend.Workflow.Tracked.{find_first-other, find_first-same, find_first-append}

append-nil : (l : List StateTransition) → l ≡ l ++ []
append-nil [] = refl
append-nil (x ∷ l) = ap (λ r. x ∷ r) (append-nil l)

append_assoc : (k l m : List StateTransition) → (k ++ l) ++ m ≡ k ++ (l ++ m)
append_assoc [] l m = refl
append_assoc (x ∷ k) l m = ap (λ r. x ∷ r) (append_assoc k l m)

abbrev Extends : List StateTransition → Db → Type 0
Extends log db = (later : List StateTransition) × (db.transitions ≡ log ++ later)

Extends-closed : (log : List StateTransition) → IsClosed (Extends log)
Extends-closed log = record {
  rest = λ t r. t;
  note = λ t i reason. t;
  move = λ {db} (later, e) x target actor reason correlation f m.
      (later ++ log_entry x target actor reason correlation ∷ [], rw e (append_assoc log later _));
  insert = λ t x n s. t;
}

-- The row under the id has the state.
abbrev pub Has : ℕ → InspectionStatus → Db → Type 0
Has i s db =
    (x : Inspection) × (find_first (is_inspection i) db.inspections ≡ some x) × (x.status ≡ s)

pub Has-noted :
    (i j : ℕ) (s : InspectionStatus) (reason : String) (db : Db)
    → Has i s db
    → Has i s (record db {
      inspections = update_where (is_inspection j) (with_failure reason) db.inspections;
    })
Has-noted i j s reason db (x, f, e) = elim (Bool-cases (j == i)) [
  | inr k ↦ (x, find_first-other i j (with_failure reason) db.inspections (λ y. refl) k ∙ f, e)
  | inl k ↦
      let same : i ≡ j = sym (==→eq _ _ k) in
      (
        with_failure reason x,
        subst
            (λ j.
              find_first (is_inspection i)
                (update_where (is_inspection j) (with_failure reason) db.inspections)
              ≡ some (with_failure reason x))
            same (find_first-same i (with_failure reason) db.inspections {x = x} (λ y. refl) f),
        e,
      )
]

Has-closed : (i : ℕ) (s : InspectionStatus) → transitions s ≡ [] → IsClosed (Has i s)
Has-closed i s final = record {
  rest = λ t r. t;
  note = λ {db} t j reason. Has-noted i j s reason db t;
  move = λ {db} (y, g, e) x target actor reason correlation f m. elim (Bool-cases (x.id == i)) [
    | inr k ↦ (y, find_first-other i x.id (with_status target) db.inspections (λ y. refl) k ∙ g, e)
    | inl k ↦
        let same : x ≡ y = cc (
          f,
          subst (λ j. find_first (is_inspection j) db.inspections ≡ some y) (sym (==→eq _ _ k)) g,
        ) in
        absurd
          (subst (Member target) (ap (λ z. transitions z.status) same ∙ ap transitions e ∙ final) m)
  ];
  insert = λ {db} (y, g, e) x n r.
      (y, rw (find_first-append (is_inspection i) db.inspections x, g) refl, e);
}

-- No operation and no turn of the worker drops or changes an entry of the log of transitions: after any
-- run the log is the old one with the new entries behind it.
pub log_append_only :
    {env : Env} {a b : Db}
    → Reach env a b
    → (later : List StateTransition) × (b.transitions ≡ a.transitions ++ later)
log_append_only {a = a} run =
    Reach-keeps (Extends-closed a.transitions) run ([], append-nil a.transitions)

-- An inspection in a state that the transition table leaves no way out of (released automatically or by
-- a person, closed, refused at the input) has this state after every further run.
pub final_status_stays :
    {env : Env} {a b : Db}
    → Reach env a b
    → (i : ℕ) (x : Inspection) → find_first (is_inspection i) a.inspections ≡ some x
    → transitions x.status ≡ []
    → (y : Inspection) × (find_first (is_inspection i) b.inspections ≡ some y)
      × (y.status ≡ x.status)
final_status_stays run i x found final =
    Reach-keeps (Has-closed i x.status final) run (x, found, refl)
