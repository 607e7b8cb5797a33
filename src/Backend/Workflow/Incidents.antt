-- ===== src/Backend/Workflow/Incidents.antt =====
-- Quality incidents: `_create_incident`, `request_incident_action` and `close_incident` of
-- backend/app/services.py.
use vision_qc.Prelude.{
  ℕ, String, none, some, Bool, true, false, ◌&&◌, not, List, [], ◌∷◌, ◌++◌, str_eq, ◌==◌,
  find_first, keep_if, all_of,
}
use vision_qc.Backend.Domain.{
  action_pending, action_completed, verifying, closed, state_eq, ReviewChoice, succeeded,
}
use vision_qc.Backend.Workflow.Tables.{
  Principal, Inspection, Incident, IncidentStatus, shut, ExternalAction,
}
use vision_qc.Backend.Calls.{
  not_found, conflict, invalid_input, pure, gets, or_raise, on_option, guard, ◌>>=◌, ◌>>◌,
}
use vision_qc.Backend.Workflow.Session.{Action, modify, new_id, record_audit, transition}
use vision_qc.Backend.Workflow.Environment.{Env}
use vision_qc.Backend.Workflow.Actions.{
  action_eq, is_incident, is_action_of, own_inspection, set_incident, has_key, new_external_action,
  process_inline,
}

abbrev pub is_incident_of : Inspection → Incident → Bool
is_incident_of x n = n.inspection_id == x.id && str_eq n.tenant_id x.tenant_id

abbrev pub new_incident : ℕ → Inspection → ReviewChoice → Incident
new_incident i x disposition = record {
  id = i;
  tenant_id = x.tenant_id;
  inspection_id = x.id;
  status = IncidentStatus.waiting;
  disposition = disposition;
  owner = none;
  outcome = none;
  verification_record = none;
}

-- `_create_incident`; the answer is the incident's id.
unfoldable pub create_incident :
    Env → Inspection → ReviewChoice → String → String → String → Action ℕ
create_incident env x disposition actor reason correlation = do
  old ← gets (λ db. find_first (is_incident_of x) db.incidents)
  on_option old
      (do
        i ← new_id
        let n = new_incident i x disposition
        modify (λ r. record r { incidents = r.incidents ++ n ∷ [] })
        transition x.id action_pending actor "quality incident created; external actions pending"
            (some correlation)
        record_audit x.tenant_id actor "quality_incident.created" "quality_incident" i correlation
        new_external_action n "MES" "HOLD_BATCH" (env.label i "mes:hold") correlation
        new_external_action n "QMS" "CREATE_TICKET" (env.label i "qms:create") correlation
        process_inline env i x.tenant_id
        pure i)
      (λ n. pure n.id)

-- `IncidentActionRequest`, but for the payload.
pub record ActionRequest : Type 0 where
  pub confirmed : Bool
  pub connector : String
  pub operation : String

-- `request_incident_action`; the answer is the action's id.
unfoldable pub request_incident_action :
    Env → Principal → ℕ → ActionRequest → String → String → Action ℕ
request_incident_action env p i request key correlation = do
  n ←
      or_raise (← gets (λ db. find_first (is_incident i p.tenant_id) db.incidents))
        (not_found "quality incident not found")
  guard request.confirmed (invalid_input "confirmed=true is required for external quality actions")
  old ← gets (λ db. find_first (has_key p.tenant_id key) db.actions)
  on_option old
      (do
        a ← new_external_action n request.connector request.operation key correlation
        record_audit p.tenant_id p.actor_id "external_action.requested" "external_action" a
            correlation
        process_inline env n.id n.tenant_id
        pure a)
      (λ a. pure a.id)

-- `CloseIncidentRequest`
pub record CloseRequest : Type 0 where
  pub owner : String
  pub outcome : String
  pub verification_record : String

abbrev pub verified : CloseRequest → Incident → Incident
verified request n = record n {
  owner = some request.owner;
  outcome = some request.outcome;
  verification_record = some request.verification_record;
}

abbrev pub is_empty : List ExternalAction → Bool
is_empty [] = true
is_empty _ = false

-- `close_incident`
unfoldable pub close_incident : Env → Principal → ℕ → CloseRequest → String → Action (Unit {0})
close_incident env p i request correlation = do
  n ←
      or_raise (← gets (λ db. find_first (is_incident i p.tenant_id) db.incidents))
        (not_found "quality incident not found")
  mine ← gets (λ db. keep_if (is_action_of n p.tenant_id) db.actions)
  guard (not (is_empty mine) && all_of (λ a. action_eq a.status succeeded) mine)
      (conflict "incident cannot close before all external actions succeed")
  modify (set_incident n.id (verified request))
  x ←
      or_raise
        (← gets (λ db. find_first (own_inspection n.inspection_id p.tenant_id) db.inspections))
        (not_found "inspection for quality incident not found")
  guard (state_eq x.status action_completed) (conflict "inspection is not ready for verification")
  transition x.id verifying p.actor_id
      "required disposition fields and verification record supplied" (some correlation)
  transition x.id closed p.actor_id "quality incident verified and closed" (some correlation)
  modify (set_incident n.id (λ m. record m { status = shut }))
  record_audit p.tenant_id p.actor_id "quality_incident.closed" "quality_incident" n.id correlation
