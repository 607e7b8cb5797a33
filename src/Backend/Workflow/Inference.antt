-- ===== src/Backend/Workflow/Inference.antt =====
-- `process_inference`, `_ensure_review_task` and `_mark_inference_outbox_processed` of
-- backend/app/services.py.
use Prim.Native.String as Text
use vision_qc.Prelude.{
  ℕ, String, Option, none, some, Bool, true, false, ◌&&◌, [], ◌∷◌, ◌++◌, str_eq, ◌==◌, leb,
  find_first, update_where,
}
use vision_qc.Backend.Domain.{
  InspectionStatus, validated, inferencing, scored, auto_released, review_required, batch_held,
  inference_failed, state_eq, PolicyRoute, auto_release, manual_review, batch_hold_and_review,
}
use vision_qc.Backend.Policy.{Score, num, one, PolicyConfig, evaluate_policy}
use vision_qc.Backend.Workflow.Tables.{
  Inspection, ReviewTask, task_open, OutboxEvent, EventStatus, waiting, processed, Rest,
}
use vision_qc.Backend.Calls.{crash, pure, gets, or_raise, branch, on_option, guard, ◌>>=◌, ◌>>◌}
use vision_qc.Backend.Workflow.Session.{
  Action, modify, new_id, record_audit, transition, note_failure,
}
use vision_qc.Backend.Workflow.Environment.{Env, Inferred, raised, output}

abbrev pub event_waits : EventStatus → Bool
event_waits waiting = true
event_waits _ = false

abbrev pub done_event : OutboxEvent → OutboxEvent
done_event e = record e { status = processed }

abbrev pub has_event_id : ℕ → OutboxEvent → Bool
has_event_id i e = e.id == i

-- Marks the first event that the test takes, if there is one.
unfoldable pub process_event : (OutboxEvent → Bool) → Action (Unit {0})
unfolding modify
process_event p = modify λ r. elim (find_first p r.outbox) [
  | none ↦ r
  | some e ↦ record r { outbox = update_where (has_event_id e.id) done_event r.outbox }
]

-- `_mark_inference_outbox_processed`
unfoldable pub mark_inference_processed : ℕ → String → Action (Unit {0})
mark_inference_processed i tenant = process_event λ e.
    e.aggregate_id == i
    && str_eq e.tenant_id tenant
    && str_eq e.topic "inspection.inference_requested"
    && event_waits e.status

abbrev pub is_task_of : Inspection → ReviewTask → Bool
is_task_of x t = t.inspection_id == x.id && str_eq t.tenant_id x.tenant_id

abbrev pub new_task : ℕ → Inspection → ReviewTask
new_task i x = record {
  id = i;
  tenant_id = x.tenant_id;
  inspection_id = x.id;
  status = task_open;
  assignee = none;
  version = 1;
}

-- `_ensure_review_task`
unfoldable pub ensure_review_task : Inspection → Action (Unit {0})
ensure_review_task x = do
  task ← gets (λ db. find_first (is_task_of x) db.tasks)
  on_option task
      (do
        i ← new_id
        modify (λ r. record r { tasks = r.tasks ++ new_task i x ∷ [] })
        record_audit x.tenant_id "system:policy" "review.required" "review_task" i x.correlation_id)
      (λ _. pure tt)

-- The check constraint `score >= 0 AND score <= 1` of the table.
abbrev pub score_fits : Score → Bool
score_fits (num s) = leb s one
score_fits _ = false

abbrev pub target_of : PolicyRoute → InspectionStatus
target_of auto_release = auto_released
target_of batch_hold_and_review = batch_held
target_of manual_review = review_required

abbrev pub needs_review : InspectionStatus → Bool
needs_review review_required = true
needs_review batch_held = true
needs_review _ = false

abbrev pub save_score : Inspection → Score → Rest → Rest
save_score x s r = record r {
  scores = r.scores ++ record { tenant_id = x.tenant_id; inspection_id = x.id; score = s } ∷ [];
}

abbrev pub save_policy : Inspection → String → PolicyRoute → Rest → Rest
save_policy x version route r = record r {
  policies =
      r.policies
      ++ record {
        tenant_id = x.tenant_id;
        inspection_id = x.id;
        policy_version = version;
        decision = route;
      }
        ∷ [];
}

-- `f"model unavailable: {type(exc).__name__}"`
abbrev pub failure_text : String → String
failure_text name = Text.◌++◌ "model unavailable: " name

-- The body of the `except` clause.
unfoldable pub fail_safe : Inspection → String → Action (Unit {0})
fail_safe x name = do
  let reason = failure_text name
  note_failure x.id reason
  transition x.id inference_failed "system:model-worker" reason none
  transition x.id review_required "system:policy" "fail-safe routing; automatic release prohibited"
      none
  ensure_review_task x
  mark_inference_processed x.id x.tenant_id

-- What follows the `try` block where the model answered.
unfoldable pub route_score : Env → Inspection → Score → PolicyConfig → Action (Unit {0})
route_score env x s policy = do
  guard (env.heatmap_stored x) crash
  guard (score_fits s) crash
  modify (save_score x s)
  transition x.id scored "system:model-worker" "immutable model result saved" none
  e ← or_raise (evaluate_policy (some s) (some policy) x.product_code x.station_code) crash
  modify (save_policy x policy.version e.route)
  transition x.id (target_of e.route) "system:policy" (env.reason_text e.reason) none
  branch (needs_review (target_of e.route)) (ensure_review_task x) (pure tt)
  mark_inference_processed x.id x.tenant_id

unfoldable pub on_inferred :
    {B : Type 0} → Inferred → (String → Action B) → (Score → PolicyConfig → Action B) → Action B
on_inferred (raised name) f g = f name
on_inferred (output s policy) f g = g s policy

-- `inspection_query` with the tenant's filter, if one is given.
abbrev pub is_wanted : ℕ → Option String → Inspection → Bool
is_wanted i none x = x.id == i
is_wanted i (some tenant) x = x.id == i && str_eq x.tenant_id tenant

unfoldable pub process_inference : Env → ℕ → Option String → Action (Unit {0})
process_inference env i tenant = do
  found ← gets (λ db. find_first (is_wanted i tenant) db.inspections)
  on_option found (pure tt) λ x.
      branch (state_eq x.status validated)
        (do
          transition x.id inferencing "system:model-worker" "model invocation started" none
          on_inferred (env.infer x) (fail_safe x) (route_score env x))
        (pure tt)
