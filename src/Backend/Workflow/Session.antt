-- ===== src/Backend/Workflow/Session.antt =====
-- The calls of the workflow, on its tables.
use vision_qc.Prelude.{
  ℕ, suc, String, Option, none, some, Bool, [], ◌∷◌, ◌++◌, ◌==◌, if◌then◌else◌, find_first,
  update_where, truthy,
}
use vision_qc.Backend.Domain.{InspectionStatus, text_of, assert_inspection_transition}
use vision_qc.Backend.Calls.{Call, conflict, crash, ok, err}
use vision_qc.Backend.Workflow.Tables.{
  Inspection, with_status, StateTransition, AuditEvent, Rest, Db,
}

abbrev pub Action : Type 0 → Type 0
Action = Call Db

-- A write to the tables other than those of the inspections and of their transitions.
unfoldable pub modify : (Rest → Rest) → Action (Unit {0})
modify f db = ok (tt, record db { rest = f db.rest })

unfoldable pub new_id : Action ℕ
new_id db = ok (db.next_id, record db { rest = next db.rest })
  where
    next : Rest → Rest
    next r = record r { next_id = suc r.next_id }

-- `record_audit` of backend/app/audit.py, but for the payload.
unfoldable pub record_audit : String → String → String → String → ℕ → String → Action (Unit {0})
unfolding modify
record_audit tenant actor action target_type target correlation =
    modify λ r. record r { audit = r.audit ++ event ∷ [] }
  where
    event : AuditEvent
    event = record {
      tenant_id = tenant;
      actor = actor;
      action = action;
      target_type = target_type;
      target_id = target;
      correlation_id = correlation;
    }

abbrev pub is_inspection : ℕ → Inspection → Bool
is_inspection i x = x.id == i

-- `correlation_id or inspection.correlation_id`
abbrev pub or_text : Option String → String → String
or_text none t = t
or_text (some s) t = if truthy (some s) then s else t

abbrev pub log_entry : Inspection → InspectionStatus → String → String → String → StateTransition
log_entry x target actor reason correlation = record {
  tenant_id = x.tenant_id;
  entity_id = x.id;
  from_state = x.status;
  to_state = target;
  actor = actor;
  reason = reason;
  correlation_id = correlation;
}

-- The writes of `_transition_inspection` once the transition is accepted.
abbrev pub moved_db : Inspection → InspectionStatus → String → String → String → Db → Db
moved_db x target actor reason correlation db = record db {
  inspections = update_where (is_inspection x.id) (with_status target) db.inspections;
  transitions = db.transitions ++ log_entry x target actor reason correlation ∷ [];
}

-- `_transition_inspection`. The object of a row is its primary key: its columns are read when they
-- are needed.
unfoldable pub transition :
    ℕ → InspectionStatus → String → String → Option String → Action (Unit {0})
unfolding record_audit
transition i target actor reason correlation db =
    elim (find_first (is_inspection i) db.inspections) [
      | none ↦ err crash
      | some x ↦ elim (assert_inspection_transition (text_of x.status) (text_of target)) [
        | some e ↦ err (conflict "illegal inspection state transition")
        | none ↦
            let c = or_text correlation x.correlation_id in
            record_audit x.tenant_id actor "inspection.state_changed" "inspection" x.id c
              (moved_db x target actor reason c db)
      ]
    ]

abbrev pub with_failure : String → Inspection → Inspection
with_failure reason x = record x { failure_reason = some reason }

-- `inspection.failure_reason = …`
unfoldable pub note_failure : ℕ → String → Action (Unit {0})
note_failure i reason db = ok (
  tt,
  record db { inspections = update_where (is_inspection i) (with_failure reason) db.inspections },
)

-- `session.add(inspection)` and the flush, which checks the primary key; the conflict is the answer to
-- an `IntegrityError` that leaves no row with the idempotency key.
unfoldable pub insert_inspection : Inspection → Action (Unit {0})
insert_inspection x db = elim (find_first (is_inspection x.id) db.inspections) [
  | none ↦ ok (tt, record db { inspections = db.inspections ++ x ∷ [] })
  | some _ ↦ err (conflict "idempotency key was concurrently used with a different request")
]

-- The row of an object that the session holds.
unfoldable pub inspection_row : ℕ → Action Inspection
inspection_row i db = elim (find_first (is_inspection i) db.inspections) [
  | none ↦ err crash
  | some x ↦ ok (x, db)
]
