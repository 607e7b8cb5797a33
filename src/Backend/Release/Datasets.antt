-- ===== src/Backend/Release/Datasets.antt =====
-- The registration of datasets (backend/app/services.py): `register_dataset`. What
-- backend/app/dataset_sources.py makes of the bytes, and the store, are given; of the provenance, the
-- entries are kept that are read again.
pub mod Runs
pub mod Revoked
mod Tests
use vision_qc.Prelude.{
  ℕ, String, Option, none, some, Bool, true, false, ◌&&◌, ◌||◌, not, List, [], ◌∷◌, ◌++◌, ◌==◌,
  if◌then◌else◌, str_eq, truthy, any_of, is_some,
}
use vision_qc.Backend.Calls.{
  ok, err, conflict, forbidden, invalid_input, pure, or_raise, branch, guard, ◌>>=◌, ◌>>◌,
}
use vision_qc.Backend.Policy.{opt_eq}
use vision_qc.Backend.Workflow.Tables.{Principal}
use vision_qc.Backend.Release.Tables.{
  SourceType, demo_synthetic, customer_pilot, official_benchmark, source_eq, DatasetStatus,
  unchecked, validated, Dataset, Deed, audit,
}
use vision_qc.Backend.Release.Qualifications.{require_tenant}

-- `CustomerDataProvenance`
pub record CustomerDataProvenance : Type 0 where
  pub tenant : String
  pub consent : Bool

-- `DatasetRegistrationRequest`; `metadata_provenance` is what the client's own metadata have under
-- `customer_provenance`.
pub record DatasetRequest : Type 0 where
  pub source_type : SourceType
  pub category : String
  pub source_path : Option String
  pub expected_sha256 : Option String
  pub license_acknowledged : Bool
  pub customer_provenance : Option CustomerDataProvenance
  pub metadata_provenance : Option CustomerDataProvenance

-- What `inspect_dataset_source` answers.
pub record Inspected : Type 0 where
  pub source_sha256 : Option String
  pub manifest_sha256 : String
  pub dataset_fingerprint : String

-- The settings and the outside: import roots, the inspection of a source and its storage (each of
-- them may fail), and the id that SHA-256 derives from a tenant and a digest.
pub record Depot : Type 0 where
  pub production : Bool
  pub has_roots : Bool
  pub is_inside : String → Bool
  pub inspect : String → SourceType → String → Option Inspected
  pub is_stored : String → SourceType → String → Inspected → Bool
  pub registration_id : String → String → ℕ

-- `validate_source_contract`, which the API applies to a request.
abbrev pub validate_source_contract : DatasetRequest → Bool
validate_source_contract r =
    not (source_eq r.source_type official_benchmark && not r.license_acknowledged)

-- The uploaded file, or the path of the request.
abbrev pub path_of : Option String → Option String → Option String
path_of (some staged) path = some staged
path_of none path = if truthy path then path else none

-- A mounted source lies under the configured roots.
unfoldable pub check_roots : Depot → Option String → String → Deed (Unit {0})
check_roots depot upload path = branch (is_some upload) (pure tt) (
    guard (not (depot.production && not depot.has_roots))
      (invalid_input "mounted dataset imports require VQC_DATASET_IMPORT_ROOTS in production")
    >> guard (not depot.has_roots || depot.is_inside path)
        (invalid_input "dataset source is outside the configured import roots"))

abbrev pub is_own : String → Option CustomerDataProvenance → Bool
is_own tenant none = true
is_own tenant (some c) = str_eq c.tenant tenant

-- `inspection["source_sha256"] or inspection["manifest_sha256"]`
abbrev pub digest_of : Inspected → String
digest_of x = digest x.source_sha256
  where
    digest : Option String → String
    digest none = x.manifest_sha256
    digest (some d) = if str_eq d "" then x.manifest_sha256 else d

abbrev pub has_consent : Option CustomerDataProvenance → Bool
has_consent none = false
has_consent (some c) = c.consent

abbrev pub status_of : DatasetRequest → DatasetStatus
status_of r =
    if source_eq r.source_type customer_pilot && not (has_consent r.customer_provenance)
    then unchecked
    else validated

-- The entry `customer_provenance` of the stored metadata.
abbrev pub kept_provenance : DatasetRequest → Option CustomerDataProvenance
kept_provenance r = elim r.customer_provenance [ some c ↦ some c | none ↦ r.metadata_provenance ]

abbrev pub tenant_of : Option CustomerDataProvenance → Option String
tenant_of none = none
tenant_of (some c) = some c.tenant

abbrev pub new_dataset : Depot → String → DatasetRequest → Inspected → Dataset
new_dataset depot tenant r x = record {
  id = depot.registration_id tenant (digest_of x);
  tenant_id = tenant;
  source_type = r.source_type;
  status = status_of r;
  dataset_fingerprint = x.dataset_fingerprint;
  provenance_tenant = tenant_of (kept_provenance r);
  consent = has_consent (kept_provenance r);
  revoked_by = none;
}

-- The primary key and `uq_dataset_tenant_fingerprint`.
abbrev pub clash : Dataset → Dataset → Bool
clash a b =
    a.id == b.id
    || (str_eq a.tenant_id b.tenant_id && str_eq a.dataset_fingerprint b.dataset_fingerprint)

unfoldable pub insert_dataset : Dataset → Deed Dataset
insert_dataset d s =
    if any_of (clash d) s.datasets
    then err (conflict "dataset fingerprint is already registered for this tenant")
    else ok (d, record s { datasets = s.datasets ++ d ∷ [] })

-- What follows the inspection of the source.
unfoldable pub store_dataset :
    Depot → Principal → DatasetRequest → String → String → Inspected → Deed Dataset
unfolding insert_dataset
store_dataset depot p r path correlation x = do
  guard (not (truthy r.expected_sha256) || opt_eq r.expected_sha256 (some (digest_of x)))
      (invalid_input "dataset source SHA-256 does not match the declared digest")
  guard (depot.is_stored path r.source_type r.category x)
      (invalid_input "dataset source storage failed")
  d ← insert_dataset (new_dataset depot p.tenant_id r x)
  audit p.tenant_id p.actor_id "dataset_registration.created" "dataset_registration" d.id
      correlation
  pure d

-- `register_dataset`; `upload` is the staged file of the upload endpoint.
unfoldable pub register_dataset :
    Depot → Principal → DatasetRequest → Option String → String → Deed Dataset
unfolding require_tenant check_roots store_dataset
register_dataset depot p r upload correlation = do
  require_tenant p
  guard (not (source_eq r.source_type demo_synthetic)) (
      invalid_input
        "DEMO_SYNTHETIC is built into the application and does not accept imported bytes")
  path ← or_raise (path_of upload r.source_path) (
      invalid_input "a mounted source_path or upload is required for optional dataset registration")
  check_roots depot upload path
  guard (is_own p.tenant_id r.customer_provenance)
      (forbidden "customer dataset provenance tenant does not match the authenticated tenant")
  x ←
      or_raise (depot.inspect path r.source_type r.category)
        (invalid_input "dataset source validation failed")
  store_dataset depot p r path correlation x
