-- ===== src/Backend/Release/Decisions.antt =====
-- The decisions on a registered qualification (backend/app/services.py): evaluation, approval,
-- activation, retirement and rollback.
use vision_qc.Prelude.{
  ℕ, String, Option, none, some, Bool, true, false, ◌&&◌, ◌||◌, not, ◌==◌, if◌then◌else◌, str_eq,
  any_of, all_of, find_first,
}
use vision_qc.Backend.Calls.{
  conflict, forbidden, invalid_input, crash, pure, gets, or_raise, on_option, branch, guard, ◌>>=◌,
  ◌>>◌,
}
use vision_qc.Backend.Policy.{opt_eq}
use vision_qc.Backend.Packs.{DeploymentManifest}
use vision_qc.Backend.Workflow.Tables.{Principal}
use vision_qc.Backend.Release.Tables.{
  Stage, draft, evaluated, approved, active, retired, stage_eq, Gates, ModelQualification, Deed,
  is_dataset, is_active_for, edit_qualification, audit,
}
use vision_qc.Backend.Release.Evidence.{Evidence, verified_evidence}
use vision_qc.Backend.Release.Qualifications.{
  Desk, active_deployment, deployment_manifest, find_qualification, is_consented, is_current,
  is_pilot, require_activation_dataset,
}

abbrev pub record_decision : Principal → String → ModelQualification → String → Deed (Unit {0})
record_decision p action q correlation =
    audit p.tenant_id p.actor_id action "model_qualification" q.id correlation

abbrev pub text_or : Option String → String → String
text_or none t = t
text_or (some s) t = if str_eq s "" then t else s

-- The stage after an evaluation.
abbrev pub stage_after : Evidence → Stage
stage_after e =
    if opt_eq e.gate_decision (some "GO") && opt_eq e.approval_status (some "PENDING_APPROVAL")
    then evaluated
    else draft

abbrev pub with_evaluation : String → Evidence → ModelQualification → ModelQualification
with_evaluation actor e q = record q {
  status = stage_after e;
  qualification_status = text_or e.decision "INSUFFICIENT_EVIDENCE";
  gates = e.gates;
  evaluated_by = some actor;
}

unfoldable pub evaluate_qualification : Desk → Principal → ℕ → String → Deed ModelQualification
unfolding find_qualification edit_qualification
evaluate_qualification desk p i correlation = do
  q ← find_qualification i p.tenant_id
  guard (stage_eq q.status draft) (conflict "only DRAFT qualifications can be evaluated")
  e ← verified_evidence desk.digest desk.package_at q false
  edit_qualification q.id (with_evaluation p.actor_id e)
  record_decision p "model_qualification.evaluated" q correlation
  pure (with_evaluation p.actor_id e q)

abbrev pub gates_pass : Gates → Bool
gates_pass g = opt_eq g.decision (some "GO") && all_of (λ c. opt_eq c (some "PASS")) g.checks

abbrev pub with_approval : String → ModelQualification → ModelQualification
with_approval actor q = record q { status = approved; approved_by = some actor }

unfoldable pub approve_qualification : Desk → Principal → ℕ → String → Deed ModelQualification
unfolding find_qualification edit_qualification
approve_qualification desk p i correlation = do
  q ← find_qualification i p.tenant_id
  guard (stage_eq q.status evaluated) (conflict "only EVALUATED qualifications can be approved")
  guard (not (opt_eq q.evaluated_by (some p.actor_id)))
      (forbidden "the evaluator cannot approve the same qualification")
  guard (gates_pass q.gates && is_pilot q.dataset_source_type)
      (invalid_input "all mandatory gates and CUSTOMER_PILOT provenance must pass before approval")
  k ←
      or_raise q.dataset_registration_id (
        invalid_input "all mandatory gates and CUSTOMER_PILOT provenance must pass before approval")
  found ← gets (λ s. find_first (is_dataset k p.tenant_id) s.datasets)
  d ←
      or_raise found (
        invalid_input
          "customer dataset registration is missing, revoked, or fingerprint-mismatched")
  guard (is_current q d)
      (invalid_input "customer dataset registration is missing, revoked, or fingerprint-mismatched")
  guard (is_consented p.tenant_id d) (invalid_input "customer data provenance gate is incomplete")
  verified_evidence desk.digest desk.package_at q true
  edit_qualification q.id (with_approval p.actor_id)
  record_decision p "model_qualification.approved" q correlation
  pure (with_approval p.actor_id q)

abbrev pub with_stage : Stage → ModelQualification → ModelQualification
with_stage stage q = record q { status = stage }

abbrev pub with_activation : String → ModelQualification → ModelQualification
with_activation actor q = record q { status = active; activated_by = some actor }

-- `current.status = "RETIRED"`, `item.status = "ACTIVE"` and the flush. Where the second UPDATE is
-- issued first, the partial unique index refuses it, and the `IntegrityError` is not handled.
unfoldable pub swap_active : Desk → Principal → ModelQualification → Deed (Unit {0})
swap_active desk p q = do
  current ← gets (λ s. find_first (is_active_for p.tenant_id q.product_code) s.qualifications)
  on_option current (pure tt) λ c.
      branch (c.id == q.id) (pure tt) (
        guard (desk.updates_before c.id q.id) crash >> edit_qualification c.id (with_stage retired))
  edit_qualification q.id (with_activation p.actor_id)

abbrev pub is_distinct : Principal → ModelQualification → Bool
is_distinct p q =
    not (opt_eq q.evaluated_by (some p.actor_id) || opt_eq q.approved_by (some p.actor_id))

abbrev pub same_package : DeploymentManifest → ModelQualification → Bool
same_package m q = opt_eq m.model.package_sha256 (some q.package_sha256)

unfoldable pub activate_qualification : Desk → Principal → ℕ → String → Deed ModelQualification
unfolding find_qualification active_deployment deployment_manifest require_activation_dataset
    swap_active
activate_qualification desk p i correlation = do
  q ← find_qualification i p.tenant_id
  guard (stage_eq q.status approved) (conflict "only APPROVED qualifications can be activated")
  guard (is_distinct p q) (forbidden "evaluation, approval, and activation require distinct actors")
  pack ← active_deployment p.tenant_id
  m ← deployment_manifest pack
  guard
      (str_eq m.pack_key q.deployment_pack_key
        && any_of (λ product. str_eq product.code q.product_code) m.products)
      (forbidden "qualification deployment pack or product does not match the active tenant pack")
  guard (str_eq m.model.id q.model_id && str_eq m.model.version q.model_version && same_package m q)
      (forbidden
        "active Deployment Pack model identity or package digest does not match qualification evidence")
  require_activation_dataset p q
  verified_evidence desk.digest desk.package_at q true
  swap_active desk p q
  record_decision p "model_qualification.activated" q correlation
  pure (with_activation p.actor_id q)

unfoldable pub retire_qualification : Principal → ℕ → String → Deed ModelQualification
unfolding find_qualification edit_qualification
retire_qualification p i correlation = do
  q ← find_qualification i p.tenant_id
  guard (stage_eq q.status approved || stage_eq q.status active)
      (conflict "only APPROVED or ACTIVE qualifications can be retired")
  edit_qualification q.id (with_stage retired)
  record_decision p "model_qualification.retired" q correlation
  pure (with_stage retired q)

unfoldable pub rollback_qualification : Desk → Principal → ℕ → String → Deed ModelQualification
unfolding find_qualification active_deployment deployment_manifest require_activation_dataset
    swap_active
rollback_qualification desk p i correlation = do
  q ← find_qualification i p.tenant_id
  guard (stage_eq q.status retired) (conflict "rollback target must be RETIRED")
  guard (is_distinct p q)
      (forbidden "rollback requires an operator distinct from evaluation and approval")
  pack ← active_deployment p.tenant_id
  m ← deployment_manifest pack
  guard (str_eq m.pack_key q.deployment_pack_key && same_package m q)
      (forbidden "rollback package is not bound to the active Deployment Pack")
  require_activation_dataset p q
  verified_evidence desk.digest desk.package_at q true
  swap_active desk p q
  record_decision p "model_qualification.rollback" q correlation
  pure (with_activation p.actor_id q)
