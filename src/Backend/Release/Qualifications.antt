-- ===== src/Backend/Release/Qualifications.antt =====
-- The registration of a model qualification (backend/app/services.py), and what the decisions on one
-- ask: the active pack, its manifest, and the dataset behind the qualification.
use vision_qc.Prelude.{
  ℕ, suc, String, Option, none, some, Bool, true, false, ◌&&◌, ◌||◌, not, List, [], ◌∷◌, ◌++◌,
  if◌then◌else◌, str_eq, truthy, any_of, find_first,
}
use vision_qc.Backend.Calls.{
  ok, err, not_found, conflict, forbidden, invalid_input, dependency_unavailable, pure, raise, gets,
  or_raise, on_option, guard, ◌>>=◌, ◌>>◌,
}
use vision_qc.Backend.Policy.{opt_eq}
use vision_qc.Backend.Packs.{DeploymentManifest, validate_manifest, legacy_manifest, is_rejected}
use vision_qc.Backend.Workflow.Tables.{Principal}
use vision_qc.Backend.Release.Tables.{
  SourceType, demo_synthetic, customer_pilot, source_eq, validated, revoked, dataset_status_eq,
  Dataset, draft, ModelQualification, canonical, misfit, legacy, DeploymentPack, Tenant, Deed,
  is_tenant, is_dataset, is_qualification, is_active_pack, audit,
}
use vision_qc.Backend.Release.Evidence.{FileEntry, Package}

-- What the operations are given: the evidence packages as they stand at their paths, SHA-256, and in
-- which order a flush issues the UPDATEs of two rows of one table.
pub record Desk : Type 0 where
  pub digest : List FileEntry → String
  pub package_at : String → Package
  pub updates_before : ℕ → ℕ → Bool

unfoldable pub require_tenant : Principal → Deed Tenant
unfolding gets or_raise guard pure ◌>>=◌ ◌>>◌
require_tenant p = do
  tenant ← gets (λ s. find_first (is_tenant p.tenant_id) s.tenants)
  t ← or_raise tenant (forbidden "tenant is not active")
  guard t.is_active (forbidden "tenant is not active")
  pure t

-- `active_deployment`
unfoldable pub active_deployment : String → Deed DeploymentPack
active_deployment tenant = do
  pack ← gets (λ s. find_first (is_active_pack tenant) s.packs)
  or_raise pack (dependency_unavailable "no active deployment pack is configured for this tenant")

-- `tenant.name if tenant else deployment.tenant_id`
abbrev pub name_of : Option Tenant → String → String
name_of none t = t
name_of (some x) t = x.name

abbrev pub validated_manifest : DeploymentManifest → Deed DeploymentManifest
validated_manifest m =
    guard (not (is_rejected (validate_manifest m)))
      (dependency_unavailable "active deployment pack manifest is invalid")
    >> pure m

-- `deployment_manifest`
unfoldable pub deployment_manifest : DeploymentPack → Deed DeploymentManifest
deployment_manifest p = elim p.manifest [
  | canonical m ↦ validated_manifest m
  | misfit ↦ raise (dependency_unavailable "active deployment pack manifest is invalid")
  | legacy model policy ↦ gets (λ s. find_first (is_tenant p.tenant_id) s.tenants) >>= λ tenant.
      validated_manifest
        (legacy_manifest p.tenant_id (name_of tenant p.tenant_id) p.version model policy)
]

-- `QualificationCreateRequest`
pub record QualificationRequest : Type 0 where
  pub product_code : String
  pub model_id : String
  pub model_version : String
  pub package_sha256 : String
  pub evidence_path : String
  pub evidence_sha256 : String
  pub deployment_pack_key : String
  pub dataset_registration_id : Option ℕ
  pub dataset_source_type : Option SourceType
  pub dataset_fingerprint : Option String

abbrev pub source_agrees : Option SourceType → SourceType → Bool
source_agrees none t = true
source_agrees (some k) t = source_eq k t

abbrev pub is_demo : Option SourceType → Bool
is_demo none = true
is_demo (some k) = source_eq k demo_synthetic

-- The registered dataset that a request binds, if it binds one.
unfoldable pub bound_dataset : Principal → QualificationRequest → Deed (Option Dataset)
bound_dataset p r =
    on_option r.dataset_registration_id
      (guard (is_demo r.dataset_source_type)
          (invalid_input "non-demo qualification evidence must bind a dataset registration")
        >> pure none)
      λ i. do
        found ← gets (λ s. find_first (is_dataset i p.tenant_id) s.datasets)
        d ← or_raise found (not_found "dataset registration not found")
        guard (not (dataset_status_eq d.status revoked))
            (invalid_input "revoked dataset registrations cannot bind new evidence")
        guard (source_agrees r.dataset_source_type d.source_type)
            (invalid_input "dataset source type does not match the registered dataset")
        guard
            (not (truthy r.dataset_fingerprint)
              || opt_eq r.dataset_fingerprint (some d.dataset_fingerprint))
            (invalid_input "dataset fingerprint does not match the registered dataset")
        pure (some d)

abbrev pub id_of : Option Dataset → Option ℕ
id_of none = none
id_of (some d) = some d.id

abbrev pub source_type_of : Option Dataset → Option SourceType → Option SourceType
source_type_of none k = k
source_type_of (some d) k = some d.source_type

abbrev pub fingerprint_of : Option Dataset → Option String → Option String
fingerprint_of none t = t
fingerprint_of (some d) t = some d.dataset_fingerprint

abbrev pub new_qualification :
    ℕ → String → QualificationRequest → Option Dataset → ModelQualification
new_qualification i tenant r d = record {
  id = i;
  tenant_id = tenant;
  product_code = r.product_code;
  model_id = r.model_id;
  model_version = r.model_version;
  package_sha256 = r.package_sha256;
  evidence_path = r.evidence_path;
  evidence_sha256 = r.evidence_sha256;
  deployment_pack_key = r.deployment_pack_key;
  status = draft;
  qualification_status = "INSUFFICIENT_EVIDENCE";
  gates = record { decision = none; checks = [] };
  dataset_registration_id = id_of d;
  dataset_source_type = source_type_of d r.dataset_source_type;
  dataset_fingerprint = fingerprint_of d r.dataset_fingerprint;
  evaluated_by = none;
  approved_by = none;
  activated_by = none;
}

-- `uq_model_qualification_identity`
abbrev pub same_identity : ModelQualification → ModelQualification → Bool
same_identity a b =
    str_eq a.tenant_id b.tenant_id
    && str_eq a.product_code b.product_code
    && str_eq a.model_id b.model_id
    && str_eq a.model_version b.model_version

-- `session.add(item)` with a fresh id, and the flush, which checks the unique constraint.
unfoldable pub insert_qualification : (ℕ → ModelQualification) → Deed ModelQualification
insert_qualification make s =
    let q = make s.next_id in
    if any_of (same_identity q) s.qualifications
    then err (conflict "model qualification identity already exists for tenant/product")
    else ok (q, record s { qualifications = s.qualifications ++ q ∷ []; next_id = suc s.next_id })

unfoldable pub create_qualification :
    Principal → QualificationRequest → String → Deed ModelQualification
unfolding require_tenant bound_dataset insert_qualification
create_qualification p r correlation = do
  require_tenant p
  d ← bound_dataset p r
  q ← insert_qualification (λ i. new_qualification i p.tenant_id r d)
  audit p.tenant_id p.actor_id "model_qualification.created" "model_qualification" q.id correlation
  pure q

-- `_qualification`
unfoldable pub find_qualification : ℕ → String → Deed ModelQualification
find_qualification i tenant = do
  found ← gets (λ s. find_first (is_qualification i tenant) s.qualifications)
  or_raise found (not_found "model qualification not found")

-- The provenance of a customer's dataset names the tenant, and consents.
abbrev pub is_consented : String → Dataset → Bool
is_consented tenant d = opt_eq d.provenance_tenant (some tenant) && d.consent

abbrev pub is_current : ModelQualification → Dataset → Bool
is_current q d =
    dataset_status_eq d.status validated
    && opt_eq (some d.dataset_fingerprint) q.dataset_fingerprint

abbrev pub is_pilot : Option SourceType → Bool
is_pilot none = false
is_pilot (some k) = source_eq k customer_pilot

-- `_require_activation_dataset`
unfoldable pub require_activation_dataset : Principal → ModelQualification → Deed Dataset
require_activation_dataset p q = do
  guard (is_pilot q.dataset_source_type)
      (forbidden "only CUSTOMER_PILOT evidence with provenance can be activated")
  i ←
      or_raise q.dataset_registration_id
        (forbidden "only CUSTOMER_PILOT evidence with provenance can be activated")
  found ← gets (λ s. find_first (is_dataset i p.tenant_id) s.datasets)
  d ←
      or_raise found
        (forbidden "customer dataset registration is missing, revoked, or fingerprint-mismatched")
  guard (source_eq d.source_type customer_pilot && is_current q d)
      (forbidden "customer dataset registration is missing, revoked, or fingerprint-mismatched")
  guard (is_consented p.tenant_id d) (forbidden "customer data provenance consent is not complete")
  pure d
