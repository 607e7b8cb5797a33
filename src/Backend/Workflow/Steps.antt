-- ===== src/Backend/Workflow/Steps.antt =====
-- The runs of the workflow: the calls of the API, each one committed where it answers, and the turns of
-- the worker.
use vision_qc.Prelude.{
  ℕ, String, Option, none, some, Bool, ◌≡◌, sym, subst, Option-cases, inl, inr, find_least,
}
use vision_qc.Backend.Workflow.Tables.{Principal, OutboxEvent, ReviewTask, Db}
use vision_qc.Backend.Calls.{ok, err, ServiceError, Result-cases}
use vision_qc.Backend.Workflow.Environment.{Env}
use vision_qc.Backend.Workflow.Intake.{Site, Submission, create_inspection}
use vision_qc.Backend.Workflow.Inference.{process_inference}
use vision_qc.Backend.Workflow.Actions.{process_pending, replay_external_action}
use vision_qc.Backend.Workflow.Incidents.{
  ActionRequest, request_incident_action, CloseRequest, close_incident,
}
use vision_qc.Backend.Workflow.Reviews.{claim_review, DecisionRequest, decide_review}
use vision_qc.Backend.Workflow.Outbox.{
  handle_event, is_ready, before_event, tried, with_event, process_one_outbox, worker_turn,
}
use vision_qc.Backend.Workflow.Keeping.{IsClosed, Keeps-ok}
use vision_qc.Backend.Workflow.Operations.{
  create_inspection-Keeps, process_inference-Keeps, claim_review-Keeps, decide_review-Keeps,
  process_pending-Keeps, request_incident_action-Keeps, replay_external_action-Keeps,
  close_incident-Keeps, handle_event-Keeps,
}

-- One committed call, or one turn of the worker.
pub data Step (env : Env) : Db → Db → Type 0 where
  create :
      {db db' : Db} (site : Site) (p : Principal) (s : Submission) (key correlation : String)
      {a : ℕ × Bool}
      → create_inspection env site p s key correlation db ≡ ok (a, db')
      → Step env db db'
  infer :
      {db db' : Db} (i : ℕ) (tenant : Option String) {a : Unit {0}}
      → process_inference env i tenant db ≡ ok (a, db')
      → Step env db db'
  claim :
      {db db' : Db} (p : Principal) (i version : ℕ) (correlation : String) {a : ReviewTask}
      → claim_review p i version correlation db ≡ ok (a, db')
      → Step env db db'
  decide :
      {db db' : Db} (p : Principal) (i : ℕ) (r : DecisionRequest) (correlation : String)
      {a : Option ℕ × ℕ}
      → decide_review env p i r correlation db ≡ ok (a, db')
      → Step env db db'
  request :
      {db db' : Db} (p : Principal) (i : ℕ) (r : ActionRequest) (key correlation : String) {a : ℕ}
      → request_incident_action env p i r key correlation db ≡ ok (a, db')
      → Step env db db'
  pend :
      {db db' : Db} (i : ℕ) (tenant : String) {a : Unit {0}}
      → process_pending env i tenant db ≡ ok (a, db')
      → Step env db db'
  replay :
      {db db' : Db} (p : Principal) (i : ℕ) (reason correlation : String) {a : ℕ}
      → replay_external_action env p i reason correlation db ≡ ok (a, db')
      → Step env db db'
  close :
      {db db' : Db} (p : Principal) (i : ℕ) (r : CloseRequest) (correlation : String) {a : Unit {0}}
      → close_incident env p i r correlation db ≡ ok (a, db')
      → Step env db db'
  work :
      {db : Db} (text : ServiceError → String) (now : ℕ) → Step env db (worker_turn env text now db)

pub data Reach (env : Env) : Db → Db → Type 0 where
  here : {db : Db} → Reach env db db
  next : {a b d : Db} → Step env a b → Reach env b d → Reach env a d

module _ (env : Env) (text : ServiceError → String) (now : ℕ) (db : Db) where
  pub turn_idle :
      find_least before_event (is_ready now) db.outbox ≡ none → worker_turn env text now db ≡ db
  unfolding worker_turn process_one_outbox
  turn_idle n = rw (worker_turn, process_one_outbox, n)

  pub turn_done :
      {e : OutboxEvent} {u : Unit {0}} {done : Db}
      → find_least before_event (is_ready now) db.outbox ≡ some e
      → handle_event env e (with_event e.id tried db) ≡ ok (u, done)
      → worker_turn env text now db ≡ done
  unfolding worker_turn process_one_outbox
  turn_done n h = rw (worker_turn, process_one_outbox, n, h)

  pub turn_raised :
      {e : OutboxEvent} {x : ServiceError}
      → find_least before_event (is_ready now) db.outbox ≡ some e
      → handle_event env e (with_event e.id tried db) ≡ err x
      → worker_turn env text now db ≡ db
  unfolding worker_turn process_one_outbox
  turn_raised n h = rw (worker_turn, process_one_outbox, n, h)

module _ {P : Db → Type 0} (c : IsClosed P) where
  worker_turn-keeps :
      (env : Env) (text : ServiceError → String) (now : ℕ) (db : Db)
      → P db
      → P (worker_turn env text now db)
  worker_turn-keeps env text now db t =
      elim (Option-cases (find_least before_event (is_ready now) db.outbox)) [
        | inl n ↦ subst P (sym (turn_idle env text now db n)) t
        | inr (e, n) ↦ elim (Result-cases (handle_event env e (with_event e.id tried db))) [
          | inl ((u, done), h) ↦
              subst P (sym (turn_done env text now db n h))
                (Keeps-ok (handle_event-Keeps c env e) (c.rest t _) h)
          | inr (x, h) ↦ subst P (sym (turn_raised env text now db n h)) t
        ]
      ]

  Step-keeps : {env : Env} {a b : Db} → Step env a b → P a → P b
  Step-keeps (create site p s key correlation e) t =
      Keeps-ok (create_inspection-Keeps c _ site p s key correlation) t e
  Step-keeps (infer i tenant e) t = Keeps-ok (process_inference-Keeps c _ i tenant) t e
  Step-keeps (claim p i version correlation e) t =
      Keeps-ok (claim_review-Keeps c p i version correlation) t e
  Step-keeps (decide p i r correlation e) t =
      Keeps-ok (decide_review-Keeps c _ p i r correlation) t e
  Step-keeps (request p i r key correlation e) t =
      Keeps-ok (request_incident_action-Keeps c _ p i r key correlation) t e
  Step-keeps (pend i tenant e) t = Keeps-ok (process_pending-Keeps c _ i tenant) t e
  Step-keeps (replay p i reason correlation e) t =
      Keeps-ok (replay_external_action-Keeps c _ p i reason correlation) t e
  Step-keeps (close p i r correlation e) t =
      Keeps-ok (close_incident-Keeps c _ p i r correlation) t e
  Step-keeps (work text now) t = worker_turn-keeps _ text now _ t

  pub Reach-keeps : {env : Env} {a b : Db} → Reach env a b → P a → P b
  Reach-keeps here t = t
  Reach-keeps (next s rest) t = Reach-keeps rest (Step-keeps s t)
