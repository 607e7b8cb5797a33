-- ===== src/Backend/Release/Deployments.antt =====
-- The Deployment Packs of a tenant (backend/app/services.py): `create_deployment` and
-- `activate_deployment`; and `revoke_dataset_registration`.
use vision_qc.Prelude.{
  ℕ, suc, String, none, some, Bool, true, false, ◌&&◌, ◌||◌, not, [], ◌∷◌, ◌++◌, ◌==◌,
  if◌then◌else◌, str_eq, any_of, all_of, find_first, update_where,
}
use vision_qc.Backend.Calls.{
  ok, err, not_found, conflict, forbidden, invalid_input, dependency_unavailable, crash, pure, gets,
  or_raise, on_option, branch, guard, ◌>>=◌, ◌>>◌,
}
use vision_qc.Backend.Policy.{opt_eq, PolicyConfig, Resolution, rule, ambiguous, resolve}
use vision_qc.Backend.Packs.{
  ProductDefinition, DeploymentManifest, LegacyModel, legacy_manifest, validate_manifest,
  is_rejected,
}
use vision_qc.Backend.Workflow.Tables.{Principal}
use vision_qc.Backend.Release.Tables.{
  Dataset, revoked, dataset_status_eq, active, stage_eq, ModelQualification, PackStatus, pack_draft,
  pack_active, pack_retired, canonical, DeploymentPack, Tenant, Registry, Deed, is_dataset, is_pack,
  is_active_pack, edit_pack, audit,
}
use vision_qc.Backend.Release.Qualifications.{require_tenant, deployment_manifest}

-- `DeploymentCreateRequest`: a manifest, or the fields from before the manifest.
pub data DeploymentRequest : Type 0 where
  with_manifest : DeploymentManifest → DeploymentRequest
  with_snapshots : (version : String) → LegacyModel → PolicyConfig → DeploymentRequest

-- The manifest that is stored. What `legacy_manifest` refuses is a `ValidationError`, which nothing
-- handles.
unfoldable pub requested_manifest : Principal → Tenant → DeploymentRequest → Deed DeploymentManifest
requested_manifest p t (with_manifest m) = do
  guard (str_eq m.tenant.id p.tenant_id)
      (forbidden "deployment manifest tenant does not match authenticated tenant")
  guard (str_eq m.tenant.name t.name)
      (invalid_input "deployment manifest tenant name does not match tenant registry")
  pure m
requested_manifest p t (with_snapshots version model policy) = do
  let m = legacy_manifest p.tenant_id t.name version model policy
  guard (not (is_rejected (validate_manifest m))) crash
  pure m

abbrev pub new_pack : ℕ → String → DeploymentManifest → DeploymentPack
new_pack i tenant m = record {
  id = i;
  tenant_id = tenant;
  version = m.version;
  status = pack_draft;
  manifest = canonical m;
  approved_by = none;
}

-- `uq_deployment_tenant_version`
abbrev pub same_version : DeploymentPack → DeploymentPack → Bool
same_version a b = str_eq a.tenant_id b.tenant_id && str_eq a.version b.version

unfoldable pub insert_pack : (ℕ → DeploymentPack) → Deed DeploymentPack
insert_pack make s =
    let x = make s.next_id in
    if any_of (same_version x) s.packs
    then err (conflict "deployment version already exists for tenant")
    else ok (x, record s { packs = s.packs ++ x ∷ []; next_id = suc s.next_id })

-- `create_deployment`; `redact` leaves the parts of a manifest that are kept here as they are.
unfoldable pub create_deployment : Principal → DeploymentRequest → String → Deed DeploymentPack
unfolding requested_manifest insert_pack
create_deployment p r correlation = do
  t ← require_tenant p
  m ← requested_manifest p t r
  x ← insert_pack (λ i. new_pack i p.tenant_id m)
  audit p.tenant_id p.actor_id "deployment.created" "deployment_pack" x.id correlation
  pure x

-- `get_deployment`
unfoldable pub get_deployment : String → ℕ → Deed DeploymentPack
get_deployment tenant i = do
  found ← gets (λ s. find_first (is_pack i tenant) s.packs)
  or_raise found (not_found "deployment pack not found")

abbrev pub is_resolved : Resolution → Bool
is_resolved (rule r) = true
is_resolved ambiguous = false

-- Every product at every station has a rule.
abbrev pub policy_resolves : DeploymentManifest → Bool
policy_resolves m =
    all_of (λ p. all_of (λ station. is_resolved (resolve p.code station.code m.policy)) m.stations)
      m.products

-- The `SELECT` of an active qualification of exactly the manifest's model.
abbrev pub qualifies : String → DeploymentManifest → ProductDefinition → ModelQualification → Bool
qualifies tenant m product q =
    str_eq q.tenant_id tenant
    && str_eq q.product_code product.code
    && str_eq q.model_id m.model.id
    && str_eq q.model_version m.model.version
    && opt_eq m.model.package_sha256 (some q.package_sha256)
    && str_eq q.deployment_pack_key m.pack_key
    && stage_eq q.status active
    && str_eq q.qualification_status "GO"

abbrev pub all_qualified : String → DeploymentManifest → Registry → Bool
all_qualified tenant m s =
    all_of (λ product. any_of (qualifies tenant m product) s.qualifications) m.products

-- The settings, and whether storage, model and connectors are all healthy.
pub record Plant : Type 0 where
  pub production : Bool
  pub healthy : Bool

abbrev pub with_pack_status : PackStatus → DeploymentPack → DeploymentPack
with_pack_status status x = record x { status = status }

abbrev pub activated_pack : String → DeploymentPack → DeploymentPack
activated_pack actor x = record x { status = pack_active; approved_by = some actor }

-- The switch of the active pack, with a flush between its two writes.
unfoldable pub swap_pack : Principal → DeploymentPack → Deed (Unit {0})
unfolding edit_pack
swap_pack p x = do
  current ← gets (λ s. find_first (is_active_pack p.tenant_id) s.packs)
  on_option current (pure tt)
      λ c. branch (c.id == x.id) (pure tt) (edit_pack c.id (with_pack_status pack_retired))
  edit_pack x.id (activated_pack p.actor_id)

unfoldable pub activate_deployment : Plant → Principal → ℕ → String → Deed DeploymentPack
unfolding get_deployment swap_pack
activate_deployment plant p i correlation = do
  x ← get_deployment p.tenant_id i
  m ← deployment_manifest x
  guard (str_eq m.tenant.id p.tenant_id) (forbidden "deployment pack tenant boundary is invalid")
  guard (policy_resolves m) (invalid_input "deployment policy schema or overrides are invalid")
  qualified ← gets (all_qualified p.tenant_id m)
  guard (not plant.production || qualified)
      (invalid_input "production Deployment Pack requires a matching ACTIVE model qualification")
  guard plant.healthy
      (dependency_unavailable "deployment preflight failed; active deployment was not changed")
  swap_pack p x
  audit p.tenant_id p.actor_id "deployment.activated" "deployment_pack" x.id correlation
  pure (activated_pack p.actor_id x)

abbrev pub revoked_dataset : String → Dataset → Dataset
revoked_dataset actor d = record d { status = revoked; revoked_by = some actor }

unfoldable pub edit_dataset : ℕ → (Dataset → Dataset) → Deed (Unit {0})
edit_dataset i f s = ok (tt, record s { datasets = update_where (λ d. d.id == i) f s.datasets })

-- `revoke_dataset_registration`
unfoldable pub revoke_dataset_registration : Principal → ℕ → String → Deed Dataset
unfolding edit_dataset
revoke_dataset_registration p i correlation = do
  found ← gets (λ s. find_first (is_dataset i p.tenant_id) s.datasets)
  d ← or_raise found (not_found "dataset registration not found")
  guard (not (dataset_status_eq d.status revoked))
      (conflict "dataset registration is already revoked")
  edit_dataset d.id (revoked_dataset p.actor_id)
  audit p.tenant_id p.actor_id "dataset_registration.revoked" "dataset_registration" d.id
      correlation
  pure (revoked_dataset p.actor_id d)
