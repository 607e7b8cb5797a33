-- ===== src/Backend/Workflow/Actions.antt =====
-- External actions: `_new_external_action`, `process_pending_external_actions`,
-- `_execute_external_action` and `replay_external_action` of backend/app/services.py.
use Prim.Native.String as Text
use vision_qc.Prelude.{
  ℕ, ◌+◌, String, none, some, Bool, true, false, ◌&&◌, ◌||◌, [], ◌∷◌, ◌++◌, str_eq, ◌==◌,
  if◌then◌else◌, find_first, update_where, keep_if, all_of, any_of, clip,
}
use vision_qc.Backend.Domain.{
  action_pending, action_executing, action_completed, action_failed, state_eq, ActionStatus,
  pending, executing, succeeded, failed, manual,
}
use vision_qc.Backend.Connectors.{requires_manual_review, ExecutionOutcome}
use vision_qc.Backend.Workflow.Tables.{
  Principal, Inspection, Incident, IncidentStatus, waiting, running, finished, broken,
  ExternalAction, OutboxEvent, EventStatus, Rest,
}
use vision_qc.Backend.Calls.{
  not_found, conflict, dependency_unavailable, crash, pure, raise, gets, or_raise, branch,
  on_option, guard, for_each, ◌>>=◌, ◌>>◌,
}
use vision_qc.Backend.Workflow.Session.{
  Action, modify, new_id, record_audit, transition, inspection_row,
}
use vision_qc.Backend.Workflow.Environment.{Env}
use vision_qc.Backend.Workflow.Inference.{process_event, event_waits}

abbrev pub action_eq : ActionStatus → ActionStatus → Bool
action_eq pending pending = true
action_eq executing executing = true
action_eq succeeded succeeded = true
action_eq failed failed = true
action_eq manual manual = true
action_eq _ _ = false

abbrev pub is_incident : ℕ → String → Incident → Bool
is_incident i tenant x = x.id == i && str_eq x.tenant_id tenant

abbrev pub is_action : ℕ → String → ExternalAction → Bool
is_action i tenant a = a.id == i && str_eq a.tenant_id tenant

abbrev pub is_action_of : Incident → String → ExternalAction → Bool
is_action_of n tenant a = a.incident_id == n.id && str_eq a.tenant_id tenant

abbrev pub own_inspection : ℕ → String → Inspection → Bool
own_inspection i tenant x = x.id == i && str_eq x.tenant_id tenant

abbrev pub set_action : ℕ → (ExternalAction → ExternalAction) → Rest → Rest
set_action i f r = record r { actions = update_where (λ a. a.id == i) f r.actions }

abbrev pub set_incident : ℕ → (Incident → Incident) → Rest → Rest
set_incident i f r = record r { incidents = update_where (λ x. x.id == i) f r.incidents }

abbrev pub with_incident_status : IncidentStatus → Incident → Incident
with_incident_status s x = record x { status = s }

abbrev pub with_action_status : ActionStatus → ExternalAction → ExternalAction
with_action_status s a = record a { status = s }

abbrev pub new_action : ℕ → Incident → String → String → String → ExternalAction
new_action i n connector operation key = record {
  id = i;
  tenant_id = n.tenant_id;
  incident_id = n.id;
  connector = connector;
  operation = operation;
  idempotency_key = key;
  status = pending;
  attempts = 0;
  external_reference = none;
  last_error = none;
}

-- `OutboxEvent(…)` with its defaults; events are kept in the order of their creation.
abbrev pub new_event : ℕ → String → String → ℕ → String → OutboxEvent
new_event i tenant topic aggregate correlation = record {
  id = i;
  tenant_id = tenant;
  topic = topic;
  aggregate_id = aggregate;
  correlation_id = correlation;
  status = EventStatus.waiting;
  attempts = 0;
  last_error = none;
  available_at = 0;
  created_at = i;
}

abbrev pub add_event : OutboxEvent → Rest → Rest
add_event e r = record r { outbox = r.outbox ++ e ∷ [] }

-- The unique constraint on the tenant and the idempotency key, which the flush checks.
abbrev pub has_key : String → String → ExternalAction → Bool
has_key tenant key a = str_eq a.tenant_id tenant && str_eq a.idempotency_key key

-- `_new_external_action`; the answer is the new row's id.
unfoldable pub new_external_action : Incident → String → String → String → String → Action ℕ
new_external_action n connector operation key correlation = do
  i ← new_id
  clash ← gets (λ db. find_first (has_key n.tenant_id key) db.actions)
  on_option clash (pure tt) (λ _. raise crash)
  modify (λ r. record r { actions = r.actions ++ new_action i n connector operation key ∷ [] })
  e ← new_id
  modify (add_event (new_event e n.tenant_id "external_action.requested" i correlation))
  pure i

-- The columns of the action after the call of its connector.
abbrev pub after_call : Env → ExecutionOutcome → ExternalAction → ExternalAction
after_call env o a =
    let b = record a { attempts = a.attempts + o.attempts } in
    elim o.result [
      | some r ↦ record b {
        status = succeeded;
        external_reference = some r.external_reference;
        last_error = none;
      }
      | none ↦ elim o.error [
        | none ↦ record b { status = failed; last_error = some "None" }
        | some e ↦ record b {
          status = if requires_manual_review e then manual else failed;
          last_error = some (clip 1000 (env.error_text e));
        }
      ]
    ]

abbrev pub unconfigured : ExternalAction → ExternalAction
unconfigured a = record a { status = manual; last_error = some "connector is not configured" }

unfoldable pub call_connector : Env → ExternalAction → Action (Unit {0})
call_connector env a =
    branch (env.has_connector a.connector)
      (do o ← or_raise (env.call a) crash; modify (set_action a.id (after_call env o)))
      (modify (set_action a.id unconfigured))

abbrev pub is_broken : ExternalAction → Bool
is_broken a = action_eq a.status failed || action_eq a.status manual

-- The part of `_execute_external_action` that reads the statuses of all actions of the incident.
unfoldable pub settle : Incident → String → ℕ → Action (Unit {0})
settle n tenant inspection = do
  mine ← gets (λ db. keep_if (is_action_of n tenant) db.actions)
  x ← inspection_row inspection
  branch (all_of (λ a. action_eq a.status succeeded) mine)
      (do
        modify (set_incident n.id (with_incident_status finished))
        branch (state_eq x.status action_executing)
            (transition x.id action_completed "system:connector-worker"
              "all external actions completed idempotently" none)
            (pure tt))
      (branch (any_of is_broken mine)
        (do
          modify (set_incident n.id (with_incident_status broken))
          branch (state_eq x.status action_executing)
              (transition x.id action_failed "system:connector-worker"
                "external action failed; recovery or replay required" none)
              (pure tt))
        (pure tt))

-- `_execute_external_action`, on the row with the id.
unfoldable pub execute_external_action : Env → ℕ → Action (Unit {0})
execute_external_action env i = do
  a ← or_raise (← gets (λ db. find_first (λ a. a.id == i) db.actions)) crash
  n ←
      or_raise (← gets (λ db. find_first (is_incident a.incident_id a.tenant_id) db.incidents))
        (dependency_unavailable "external action incident boundary is invalid")
  x ←
      or_raise
        (← gets (λ db. find_first (own_inspection n.inspection_id a.tenant_id) db.inspections))
        (dependency_unavailable "external action inspection boundary is invalid")
  modify (set_action a.id (with_action_status executing))
  branch (state_eq x.status action_pending)
      (do
        transition x.id action_executing "system:connector-worker"
            "external action execution started" none
        modify (set_incident n.id (with_incident_status running)))
      (pure tt)
  call_connector env a
  process_event (λ e.
      e.aggregate_id == a.id && str_eq e.topic "external_action.requested" && event_waits e.status)
  settle n a.tenant_id x.id
  b ← or_raise (← gets (λ db. find_first (λ a. a.id == i) db.actions)) crash
  record_audit a.tenant_id "system:connector-worker"
      (if action_eq b.status succeeded
        then "external_action.completed"
        else "external_action.failed")
      "external_action" a.id x.correlation_id

-- `process_pending_external_actions` for one incident.
unfoldable pub process_pending : Env → ℕ → String → Action (Unit {0})
process_pending env incident tenant = do
  due ← gets (λ db.
      keep_if
        (λ a. action_eq a.status pending && a.incident_id == incident && str_eq a.tenant_id tenant)
        db.actions)
  for_each due (λ a. execute_external_action env a.id)

-- `if self.settings.process_inline`
unfoldable pub process_inline : Env → ℕ → String → Action (Unit {0})
process_inline env incident tenant =
    branch env.inline (process_pending env incident tenant) (pure tt)

-- `replay_external_action`
unfoldable pub replay_external_action : Env → Principal → ℕ → String → String → Action ℕ
replay_external_action env p i reason correlation = do
  a ←
      or_raise (← gets (λ db. find_first (is_action i p.tenant_id) db.actions))
        (not_found "external action not found")
  guard (is_broken a) (conflict "only failed or manual-review actions can be replayed")
  n ←
      or_raise (← gets (λ db. find_first (is_incident a.incident_id p.tenant_id) db.incidents))
        (not_found "quality incident for external action not found")
  x ←
      or_raise
        (← gets (λ db. find_first (own_inspection n.inspection_id p.tenant_id) db.inspections))
        (not_found "inspection for quality incident not found")
  modify (set_action a.id (λ b. record b { status = pending; last_error = none }))
  modify (set_incident n.id (with_incident_status waiting))
  branch (state_eq x.status action_failed)
      (transition x.id action_pending p.actor_id (Text.◌++◌ "authorized replay requested: " reason)
        (some correlation))
      (pure tt)
  e ← new_id
  modify (add_event (new_event e a.tenant_id "external_action.requested" a.id correlation))
  record_audit a.tenant_id p.actor_id "external_action.replay_requested" "external_action" a.id
      correlation
  process_inline env n.id n.tenant_id
  pure a.id
