-- ===== src/Backend/Workflow/Tests.antt =====
-- A run of the workflow: an inspection that is held, scrapped and closed, and the theorems on it.
use vision_qc.Prelude.{
  String, none, some, Bool, true, false, List, [], ◌∷◌, ◌++◌, ◌≡◌, refl, ◌⊎◌, Member, find_first,
}
use vision_qc.Backend.Domain.{
  received, validated, closed, review_required, batch_held, nonconformance_confirmed, transitions,
  parse, assert_inspection_transition, scrap,
}
use vision_qc.Backend.Domain.Trails.{Trail, unreviewed}
use vision_qc.Backend.Policy.{
  PolicyEvaluation, by_rule, num, PolicyConfig, resolve, evaluate_policy,
}
use vision_qc.Backend.Connectors.{ExecutionOutcome}
use vision_qc.Backend.Workflow.Tables.{
  inspector, quality_manager, Principal, Inspection, ReviewTask, task_open, OutboxEvent,
  StateTransition, Db,
}
use vision_qc.Backend.Calls.{
  Result, ok, err, ServiceError, conflict, pure, lift, gets, or_raise, branch, on_option, guard,
  for_each, ◌>>=◌, ◌>>◌,
}
use vision_qc.Backend.Workflow.Session.{
  modify, new_id, record_audit, transition, insert_inspection, inspection_row, is_inspection,
}
use vision_qc.Backend.Workflow.Environment.{Env, raised, output}
use vision_qc.Backend.Workflow.Inference.{
  process_event, mark_inference_processed, ensure_review_task, route_score, on_inferred,
  process_inference, is_wanted,
}
use vision_qc.Backend.Workflow.Actions.{
  new_event, new_external_action, call_connector, settle, execute_external_action, process_pending,
  process_inline,
}
use vision_qc.Backend.Workflow.Incidents.{create_incident, CloseRequest, close_incident}
use vision_qc.Backend.Workflow.Intake.{Site, Submission, admit_inspection, create_inspection}
use vision_qc.Backend.Workflow.Reviews.{claim_review, DecisionRequest, decide_review}
use vision_qc.Backend.Workflow.Outbox.{worker_turn}
use vision_qc.Backend.Workflow.Steps.{Reach, here, next, create, claim, decide, close, work}
use vision_qc.Backend.Workflow.Tracked.{entered, Reach-IsTracked, past_review}
use vision_qc.Backend.Workflow.History.{log_append_only, final_status_stays}
use vision_qc.Backend.Workflow.Locking.{claim_review_once}
use vision_qc.Backend.Workflow.Safely.{IsInReview, model_failure_reviewed}

abbrev policy : PolicyConfig
policy = record {
  version = "7";
  default = record {
    product_code = none;
    station_code = none;
    review_threshold = 4598175219545276416;
    hold_threshold = 4602678819172646912;
  };
  overrides = [];
}

abbrev success : ExecutionOutcome
success = record {
  result = some (record { external_reference = "MES-1"; status = "OK"; summary = "" });
  attempts = 1;
  error = none;
}

-- The model answers 0.75, and the connectors succeed; heatmaps are stored or not.
abbrev env_with : Bool → Bool → Env
env_with now stored = record {
  inline = now;
  infer = λ x. output (num 4604930618986332160) policy;
  heatmap_stored = λ x. stored;
  has_connector = λ name. true;
  call = λ a. some success;
  reason_text = λ r. "";
  error_text = λ e. "";
  label = λ i s. s;
}

abbrev site : Site
site = record {
  gateway_bound = λ p. ok tt;
  tenant_active = λ t. true;
  deployment = λ t. ok (record { id = 1; has_product = λ c. true; has_station = λ c. true });
  stored = λ x. true;
}

abbrev lens : Submission
lens = record {
  product_code = "lens";
  station_code = "s1";
  batch_no = "b1";
  fingerprint = some "f1";
}

abbrev manager : Principal
manager = record { actor_id = "ann"; tenant_id = "plant"; roles = inspector ∷ quality_manager ∷ [] }

abbrev no_rows : Db
no_rows = record {
  inspections = [];
  transitions = [];
  rest = record {
    scores = [];
    policies = [];
    tasks = [];
    decisions = [];
    incidents = [];
    actions = [];
    audit = [];
    outbox = [];
    next_id = 1;
  };
}

abbrev after : {A : Type 0} → Result (A × Db) → Db
after (ok (a, db)) = db
after (err e) = no_rows

abbrev env : Env
env = env_with true true

abbrev held : Db
held = after (create_inspection env site manager lens "k1" "c" no_rows)

held_answer : create_inspection env site manager lens "k1" "c" no_rows ≡ ok ((1, false), held)
unfolding create_inspection admit_inspection process_inference on_inferred route_score
    ensure_review_task mark_inference_processed process_event transition record_audit pure lift gets
    or_raise branch on_option guard modify new_id insert_inspection ◌>>=◌ ◌>>◌
    assert_inspection_transition parse transitions evaluate_policy resolve
held_answer = refl

abbrev claimed : Db
claimed = after (claim_review manager 3 1 "c" held)

abbrev the_task : ReviewTask
the_task = record {
  id = 3;
  tenant_id = "plant";
  inspection_id = 1;
  status = task_open;
  assignee = some "ann";
  version = 2;
}

claimed_answer : claim_review manager 3 1 "c" held ≡ ok (the_task, claimed)
unfolding create_inspection admit_inspection process_inference on_inferred route_score
    ensure_review_task mark_inference_processed process_event transition record_audit pure lift gets
    or_raise branch on_option guard modify new_id insert_inspection ◌>>=◌ ◌>>◌
    assert_inspection_transition parse transitions evaluate_policy resolve claim_review
claimed_answer = refl

abbrev scrapping : DecisionRequest
scrapping = record { decision = scrap; reason = some "crack"; expected_version = 2 }

abbrev scrapped : Db
scrapped = after (decide_review env manager 3 scrapping "c" claimed)

scrapped_answer : decide_review env manager 3 scrapping "c" claimed ≡ ok ((some 4, 3), scrapped)
unfolding create_inspection admit_inspection process_inference on_inferred route_score
    ensure_review_task mark_inference_processed process_event transition record_audit pure lift gets
    or_raise branch on_option guard modify new_id insert_inspection ◌>>=◌ ◌>>◌
    assert_inspection_transition parse transitions evaluate_policy resolve claim_review
    decide_review create_incident new_external_action process_inline process_pending for_each
    execute_external_action call_connector settle inspection_row
scrapped_answer = refl

abbrev verification : CloseRequest
verification = record { owner = "ann"; outcome = "scrapped"; verification_record = "v1" }

abbrev ended : Db
ended = after (close_incident env manager 4 verification "c" scrapped)

ended_answer : close_incident env manager 4 verification "c" scrapped ≡ ok (tt, ended)
unfolding create_inspection admit_inspection process_inference on_inferred route_score
    ensure_review_task mark_inference_processed process_event transition record_audit pure lift gets
    or_raise branch on_option guard modify new_id insert_inspection ◌>>=◌ ◌>>◌
    assert_inspection_transition parse transitions evaluate_policy resolve claim_review
    decide_review create_incident new_external_action process_inline process_pending for_each
    execute_external_action call_connector settle inspection_row close_incident
ended_answer = refl

abbrev closed_row : Inspection
closed_row = record {
  id = 1;
  tenant_id = "plant";
  deployment_pack_id = 1;
  idempotency_key = "k1";
  request_fingerprint = "f1";
  correlation_id = "c";
  status = closed;
  product_code = "lens";
  station_code = "s1";
  batch_no = "b1";
  failure_reason = none;
}

closed_found : find_first (is_inspection 1) ended.inspections ≡ some closed_row
unfolding create_inspection admit_inspection process_inference on_inferred route_score
    ensure_review_task mark_inference_processed process_event transition record_audit pure lift gets
    or_raise branch on_option guard modify new_id insert_inspection ◌>>=◌ ◌>>◌
    assert_inspection_transition parse transitions evaluate_policy resolve claim_review
    decide_review create_incident new_external_action process_inline process_pending for_each
    execute_external_action call_connector settle inspection_row close_incident
closed_found = refl

whole_run : Reach env no_rows ended
whole_run = next (create site manager lens "k1" "c" {a = (1, false)} held_answer) (
    next (claim manager 3 1 "c" {a = the_task} claimed_answer) (
      next (decide manager 3 scrapping "c" {a = (some 4, 3)} scrapped_answer)
        (next (close manager 4 verification "c" {a = tt} ended_answer) here)))

run_from_held : Reach env held ended
run_from_held = next (claim manager 3 1 "c" {a = the_task} claimed_answer) (
    next (decide manager 3 scrapping "c" {a = (some 4, 3)} scrapped_answer)
      (next (close manager 4 verification "c" {a = tt} ended_answer) here))

Reach-IsTracked_example : Trail received (entered 1 ended.transitions) closed_row.status
Reach-IsTracked_example = Reach-IsTracked refl refl whole_run 1 closed_row closed_found

past_review_example :
    (closed_row.status ≡ closed → Member nonconformance_confirmed (entered 1 ended.transitions))
    × (unreviewed closed_row.status ≡ false
        → Member review_required (entered 1 ended.transitions)
          ⊎ Member batch_held (entered 1 ended.transitions))
past_review_example = past_review refl refl whole_run 1 closed_row closed_found

log_append_only_example :
    (later : List StateTransition) × (ended.transitions ≡ held.transitions ++ later)
log_append_only_example = log_append_only run_from_held

abbrev no_text : ServiceError → String
no_text e = ""

final_status_stays_example :
    (y : Inspection) × (find_first (is_inspection 1) (worker_turn env no_text 9 ended).inspections
      ≡ some y)
    × (y.status ≡ closed_row.status)
unfolding transitions
final_status_stays_example =
    final_status_stays (next (work {db = ended} no_text 9) here) 1 closed_row closed_found refl

claim_review_once_example :
    claim_review manager 3 1 "e" claimed
    ≡ err (conflict "review task version or assignment changed")
claim_review_once_example = claim_review_once manager manager 3 1 "c" "e" held refl claimed_answer

-- A worker whose storage does not take the heatmap.
abbrev no_storage : Env
no_storage = env_with false false

abbrev waiting_db : Db
waiting_db = after (create_inspection no_storage site manager lens "k1" "c" no_rows)

abbrev the_event : OutboxEvent
the_event = new_event 2 "plant" "inspection.inference_requested" 1 "c"

-- The model's storage is away: the call of the model raises.
abbrev broken_model : Env
broken_model = record no_storage { infer = λ x. raised "ModelUnavailable" }

abbrev waiting_row : Inspection
waiting_row = record closed_row { status = validated }

waiting_found : find_first (is_wanted 1 none) waiting_db.inspections ≡ some waiting_row
unfolding create_inspection admit_inspection transition record_audit pure lift gets or_raise branch
    on_option guard modify new_id insert_inspection ◌>>=◌ ◌>>◌ assert_inspection_transition parse
    transitions
waiting_found = refl

model_failure_reviewed_example :
    (db' : Db) × (process_inference broken_model 1 none waiting_db ≡ ok (tt, db'))
    × IsInReview waiting_row review_required db'
model_failure_reviewed_example =
    model_failure_reviewed broken_model 1 none "ModelUnavailable" waiting_db waiting_row
      waiting_found waiting_found refl refl

-- The same inspection, with a model that answers 0.75 and a storage that takes the heatmap.
abbrev answering_model : Env
answering_model = env_with false true

abbrev held_by_policy : PolicyEvaluation
held_by_policy = by_rule (num 4604930618986332160) policy.default
