-- ===== src/Backend/Workflow/Outbox.antt =====
-- `process_one_outbox` of backend/app/services.py and the turn of backend/app/worker.py around it.
use vision_qc.Prelude.{
  ℕ, ◌+◌, String, none, some, Bool, true, false, ◌&&◌, str_eq, leb, ltb, if◌then◌else◌, find_first,
  find_least, update_where, clip,
}
use vision_qc.Backend.Domain.{pending}
use vision_qc.Backend.Workflow.Tables.{OutboxEvent, EventStatus, processed, Rest, Db}
use vision_qc.Backend.Calls.{ok, err, ServiceError, pure, gets, branch, on_option, ◌>>=◌, ◌>>◌}
use vision_qc.Backend.Workflow.Session.{Action, modify}
use vision_qc.Backend.Workflow.Environment.{Env}
use vision_qc.Backend.Workflow.Inference.{event_waits, has_event_id, process_inference}
use vision_qc.Backend.Workflow.Actions.{action_eq, is_action, execute_external_action}

-- How `process_one_outbox` ends, with the tables as its session has them.
pub data Attempt : Type 0 where
  returned : Bool → Db → Attempt
  raised : ServiceError → Db → Attempt

abbrev pub set_event : ℕ → (OutboxEvent → OutboxEvent) → Rest → Rest
set_event i f r = record r { outbox = update_where (has_event_id i) f r.outbox }

abbrev pub is_ready : ℕ → OutboxEvent → Bool
is_ready now e = event_waits e.status && leb e.available_at now

-- `ORDER BY created_at`
abbrev pub before_event : OutboxEvent → OutboxEvent → Bool
before_event a b = ltb a.created_at b.created_at

abbrev pub tried : OutboxEvent → OutboxEvent
tried e = record e { attempts = e.attempts + 1 }

abbrev pub unknown_topic : OutboxEvent → OutboxEvent
unknown_topic e = record e { status = EventStatus.failed; last_error = some "unknown outbox topic" }

abbrev pub finish_event : OutboxEvent → OutboxEvent
finish_event e = if event_waits e.status then record e { status = processed } else e

-- The writes of the `except` clause.
abbrev pub failed_event : String → OutboxEvent → OutboxEvent
failed_event text e = record e {
  last_error = some (clip 1000 text);
  status = if leb 3 e.attempts then EventStatus.failed else e.status;
}

-- The body of the `try` block.
unfoldable pub handle_event : Env → OutboxEvent → Action (Unit {0})
handle_event env e = do
  branch (str_eq e.topic "inspection.inference_requested")
      (process_inference env e.aggregate_id (some e.tenant_id))
      (branch (str_eq e.topic "external_action.requested")
        (do
          found ← gets (λ db. find_first (is_action e.aggregate_id e.tenant_id) db.actions)
          on_option found (pure tt) (λ a.
              branch (action_eq a.status pending) (execute_external_action env a.id) (pure tt)))
        (modify (set_event e.id unknown_topic)))
  modify (set_event e.id finish_event)

abbrev pub with_event : ℕ → (OutboxEvent → OutboxEvent) → Db → Db
with_event i f db = record db { rest = set_event i f db.rest }

-- `process_one_outbox`; `text` gives an exception's text. What the handler wrote before it raised is
-- left out of the session, since the caller rolls it back.
unfoldable pub process_one_outbox : Env → (ServiceError → String) → ℕ → Db → Attempt
process_one_outbox env text now db = elim (find_least before_event (is_ready now) db.outbox) [
  | none ↦ returned false db
  | some e ↦
      let begun = with_event e.id tried db in
      elim (handle_event env e begun) [
        | ok (_, done) ↦ returned true done
        | err x ↦ raised x (with_event e.id (failed_event (text x)) begun)
      ]
]

-- One round of `run_forever`: commit, or roll the session back.
unfoldable pub worker_turn : Env → (ServiceError → String) → ℕ → Db → Db
unfolding process_one_outbox
worker_turn env text now db = elim (process_one_outbox env text now db) [
  | returned _ done ↦ done
  | raised _ _ ↦ db
]
