-- ===== src/Backend/Workflow/Intake.antt =====
-- `create_inspection` of backend/app/services.py.
--
-- The checks of the image, of the tenant and of the active deployment pack are given by their answers.
-- What the call audits in a session of its own when it refuses an image is not kept.
use vision_qc.Prelude.{
  ℕ, String, Option, none, some, Bool, true, false, ◌&&◌, str_eq, find_first, any_of,
}
use vision_qc.Backend.Domain.{received, validated}
use vision_qc.Backend.Workflow.Tables.{edge_gateway, role_eq, Principal, Inspection}
use vision_qc.Backend.Calls.{
  Result, conflict, forbidden, invalid_input, crash, pure, lift, gets, or_raise, branch, on_option,
  guard, ◌>>=◌, ◌>>◌,
}
use vision_qc.Backend.Workflow.Session.{
  Action, modify, new_id, record_audit, transition, insert_inspection,
}
use vision_qc.Backend.Workflow.Environment.{Env}
use vision_qc.Backend.Workflow.Inference.{process_inference}
use vision_qc.Backend.Workflow.Actions.{new_event, add_event}

-- What `active_deployment` and `deployment_manifest` answer.
pub record Deployed : Type 0 where
  pub id : ℕ
  pub has_product : String → Bool
  pub has_station : String → Bool

pub record Site : Type 0 where
  -- `_assert_gateway_pack_binding` on the manifest of the active deployment
  pub gateway_bound : Principal → Result (Unit {0})
  pub tenant_active : String → Bool
  pub deployment : String → Result Deployed
  -- whether `storage.put_immutable` stores the original image
  pub stored : Inspection → Bool

-- The request: the context, and the fingerprint of image and context, unless `validate_image` refuses
-- the image.
pub record Submission : Type 0 where
  pub product_code : String
  pub station_code : String
  pub batch_no : String
  pub fingerprint : Option String

abbrev pub is_request : String → String → Inspection → Bool
is_request tenant key x = str_eq x.tenant_id tenant && str_eq x.idempotency_key key

abbrev pub new_inspection : ℕ → String → ℕ → String → String → String → Submission → Inspection
new_inspection i tenant deployment key fingerprint correlation s = record {
  id = i;
  tenant_id = tenant;
  deployment_pack_id = deployment;
  idempotency_key = key;
  request_fingerprint = fingerprint;
  correlation_id = correlation;
  status = received;
  product_code = s.product_code;
  station_code = s.station_code;
  batch_no = s.batch_no;
  failure_reason = none;
}

-- What follows the lookup of the idempotency key where no row has it.
unfoldable pub admit_inspection :
    Env → Site → Principal → Submission → String → String → String → Action (ℕ × Bool)
admit_inspection env site p s key fingerprint correlation = do
  guard (site.tenant_active p.tenant_id) (forbidden "tenant is not active")
  d ← lift (site.deployment p.tenant_id)
  guard (d.has_product s.product_code)
      (invalid_input "product is not enabled by the active deployment pack")
  guard (d.has_station s.station_code)
      (invalid_input "station is not enabled by the active deployment pack")
  i ← new_id
  let x = new_inspection i p.tenant_id d.id key fingerprint correlation s
  insert_inspection x
  guard (site.stored x) crash
  record_audit p.tenant_id p.actor_id "inspection.received" "inspection" i correlation
  transition i validated p.actor_id "input and tenant context validated" none
  e ← new_id
  modify (add_event (new_event e p.tenant_id "inspection.inference_requested" i correlation))
  branch env.inline (process_inference env i (some p.tenant_id)) (pure tt)
  pure (i, false)

-- `create_inspection`; the answer is the inspection's id, and whether this is a replay.
unfoldable pub create_inspection :
    Env → Site → Principal → Submission → String → String → Action (ℕ × Bool)
create_inspection env site p s key correlation = do
  branch (any_of (role_eq edge_gateway) p.roles) (lift (site.gateway_bound p)) (pure tt)
  fingerprint ← or_raise s.fingerprint (invalid_input "image refused")
  old ← gets (λ db. find_first (is_request p.tenant_id key) db.inspections)
  on_option old (admit_inspection env site p s key fingerprint correlation) λ x. do
    guard (str_eq x.request_fingerprint fingerprint)
        (conflict "idempotency key was already used with a different request")
    pure (x.id, true)
