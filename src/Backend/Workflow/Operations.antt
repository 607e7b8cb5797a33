-- ===== src/Backend/Workflow/Operations.antt =====
-- Every operation of the workflow keeps what the actions of `Session` keep.
use vision_qc.Prelude.{ℕ, String, Option, Bool}
use vision_qc.Backend.Domain.{ReviewChoice}
use vision_qc.Backend.Policy.{Score, PolicyConfig}
use vision_qc.Backend.Workflow.Tables.{
  Principal, Inspection, Incident, ExternalAction, OutboxEvent, Db,
}
use vision_qc.Backend.Workflow.Session.{Action}
use vision_qc.Backend.Workflow.Environment.{Env, Inferred, raised, output}
use vision_qc.Backend.Workflow.Inference.{
  process_event, mark_inference_processed, ensure_review_task, fail_safe, route_score, on_inferred,
  process_inference,
}
use vision_qc.Backend.Workflow.Actions.{
  new_external_action, call_connector, settle, execute_external_action, process_pending,
  process_inline, replay_external_action,
}
use vision_qc.Backend.Workflow.Incidents.{
  create_incident, ActionRequest, request_incident_action, CloseRequest, close_incident,
}
use vision_qc.Backend.Workflow.Reviews.{claim_review, DecisionRequest, decide_review}
use vision_qc.Backend.Workflow.Intake.{Site, Submission, admit_inspection, create_inspection}
use vision_qc.Backend.Workflow.Outbox.{handle_event}
use vision_qc.Backend.Workflow.Keeping.{
  IsClosed, Keeps, Keeps-pure, Keeps-raise, Keeps-gets, Keeps-or_raise, Keeps-branch, Keeps-bind,
  Keeps-then, Keeps-on_option, Keeps-guard, Keeps-modify, Keeps-for_each, Keeps-new_id,
  Keeps-record_audit, Keeps-inspection_row, Keeps-note_failure, Keeps-insert_inspection, Keeps-lift,
  Keeps-transition,
}

ruleset keeping = (
  Keeps-pure, Keeps-raise, Keeps-gets, Keeps-or_raise, Keeps-branch, Keeps-bind, Keeps-then,
  Keeps-on_option, Keeps-guard, Keeps-modify, Keeps-for_each, Keeps-new_id, Keeps-record_audit,
  Keeps-inspection_row, Keeps-note_failure, Keeps-insert_inspection, Keeps-lift, Keeps-transition,
)

on_inferred-Keeps :
    {P : Db → Type 0} {B : Type 0} (o : Inferred) {f : String → Action B}
    {g : Score → PolicyConfig → Action B}
    → ((name : String) → Keeps P (f name))
    → ((s : Score) (p : PolicyConfig) → Keeps P (g s p))
    → Keeps P (on_inferred o f g)
unfolding on_inferred
on_inferred-Keeps (raised name) k l = k name
on_inferred-Keeps (output s p) k l = l s p

module _ {P : Db → Type 0} (c : IsClosed P) where
  pub process_event-Keeps : (p : OutboxEvent → Bool) → Keeps P (process_event p)
  unfolding process_event
  process_event-Keeps p = search keeping depth 30

  pub mark_inference_processed-Keeps :
      (i : ℕ) (tenant : String) → Keeps P (mark_inference_processed i tenant)
  unfolding mark_inference_processed
  mark_inference_processed-Keeps i tenant = process_event-Keeps _

  pub ensure_review_task-Keeps : (x : Inspection) → Keeps P (ensure_review_task x)
  unfolding ensure_review_task
  ensure_review_task-Keeps x = search keeping depth 30

  pub fail_safe-Keeps : (x : Inspection) (reason : String) → Keeps P (fail_safe x reason)
  unfolding fail_safe
  fail_safe-Keeps x reason =
      search (keeping, ensure_review_task-Keeps, mark_inference_processed-Keeps) depth 30

  pub route_score-Keeps :
      (env : Env) (x : Inspection) (s : Score) (p : PolicyConfig) → Keeps P (route_score env x s p)
  unfolding route_score
  route_score-Keeps env x s p =
      search (keeping, ensure_review_task-Keeps, mark_inference_processed-Keeps) depth 40

  pub process_inference-Keeps :
      (env : Env) (i : ℕ) (tenant : Option String) → Keeps P (process_inference env i tenant)
  unfolding process_inference
  process_inference-Keeps env i tenant =
      search (keeping, on_inferred-Keeps, fail_safe-Keeps, route_score-Keeps) depth 30

  pub new_external_action-Keeps :
      (n : Incident) (connector operation key correlation : String)
      → Keeps P (new_external_action n connector operation key correlation)
  unfolding new_external_action
  new_external_action-Keeps n connector operation key correlation = search keeping depth 30

  pub call_connector-Keeps : (env : Env) (a : ExternalAction) → Keeps P (call_connector env a)
  unfolding call_connector
  call_connector-Keeps env a = search keeping depth 30

  pub settle-Keeps : (n : Incident) (tenant : String) (i : ℕ) → Keeps P (settle n tenant i)
  unfolding settle
  settle-Keeps n tenant i = search keeping depth 30

  pub execute_external_action-Keeps : (env : Env) (i : ℕ) → Keeps P (execute_external_action env i)
  unfolding execute_external_action
  execute_external_action-Keeps env i =
      search (keeping, call_connector-Keeps, process_event-Keeps, settle-Keeps) depth 40 fits 3000

  pub process_pending-Keeps :
      (env : Env) (i : ℕ) (tenant : String) → Keeps P (process_pending env i tenant)
  unfolding process_pending
  process_pending-Keeps env i tenant = search (keeping, execute_external_action-Keeps) depth 30

  pub process_inline-Keeps :
      (env : Env) (i : ℕ) (tenant : String) → Keeps P (process_inline env i tenant)
  unfolding process_inline
  process_inline-Keeps env i tenant = search (keeping, process_pending-Keeps) depth 30

  pub replay_external_action-Keeps :
      (env : Env) (p : Principal) (i : ℕ) (reason correlation : String)
      → Keeps P (replay_external_action env p i reason correlation)
  unfolding replay_external_action
  replay_external_action-Keeps env p i reason correlation =
      search (keeping, process_inline-Keeps) depth 40 fits 3000

  pub create_incident-Keeps :
      (env : Env) (x : Inspection) (d : ReviewChoice) (actor reason correlation : String)
      → Keeps P (create_incident env x d actor reason correlation)
  unfolding create_incident
  create_incident-Keeps env x d actor reason correlation =
      search (keeping, process_inline-Keeps, new_external_action-Keeps) depth 40 fits 3000

  pub request_incident_action-Keeps :
      (env : Env) (p : Principal) (i : ℕ) (r : ActionRequest) (key correlation : String)
      → Keeps P (request_incident_action env p i r key correlation)
  unfolding request_incident_action
  request_incident_action-Keeps env p i r key correlation =
      search (keeping, process_inline-Keeps, new_external_action-Keeps) depth 40 fits 3000

  pub close_incident-Keeps :
      (env : Env) (p : Principal) (i : ℕ) (r : CloseRequest) (correlation : String)
      → Keeps P (close_incident env p i r correlation)
  unfolding close_incident
  close_incident-Keeps env p i r correlation = search keeping depth 40 fits 3000

  pub claim_review-Keeps :
      (p : Principal) (i version : ℕ) (correlation : String)
      → Keeps P (claim_review p i version correlation)
  unfolding claim_review
  claim_review-Keeps p i version correlation = search keeping depth 30

  pub decide_review-Keeps :
      (env : Env) (p : Principal) (i : ℕ) (r : DecisionRequest) (correlation : String)
      → Keeps P (decide_review env p i r correlation)
  unfolding decide_review
  decide_review-Keeps env p i r correlation =
      search (keeping, create_incident-Keeps) depth 40 fits 3000

  pub handle_event-Keeps : (env : Env) (e : OutboxEvent) → Keeps P (handle_event env e)
  unfolding handle_event
  handle_event-Keeps env e =
      search (keeping, process_inference-Keeps, execute_external_action-Keeps) depth 40 fits 3000

  pub admit_inspection-Keeps :
      (env : Env) (site : Site) (p : Principal) (s : Submission)
      (key fingerprint correlation : String)
      → Keeps P (admit_inspection env site p s key fingerprint correlation)
  unfolding admit_inspection
  admit_inspection-Keeps env site p s key fingerprint correlation =
      search (keeping, process_inference-Keeps) depth 40 fits 3000

  pub create_inspection-Keeps :
      (env : Env) (site : Site) (p : Principal) (s : Submission) (key correlation : String)
      → Keeps P (create_inspection env site p s key correlation)
  unfolding create_inspection
  create_inspection-Keeps env site p s key correlation =
      search (keeping, admit_inspection-Keeps) depth 30
