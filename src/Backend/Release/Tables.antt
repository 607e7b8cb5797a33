-- ===== src/Backend/Release/Tables.antt =====
-- The tables that the release of models and packs reads and writes (backend/app/models.py). Metrics,
-- texts of reasons, times and audit payloads are not kept; ids are drawn from one counter.
use vision_qc.Prelude.{
  ℕ, String, Option, Bool, true, false, ◌&&◌, List, [], ◌∷◌, ◌++◌, ◌==◌, str_eq, update_where,
}
use vision_qc.Backend.Calls.{Call, ok}
use vision_qc.Backend.Policy.{PolicyConfig}
use vision_qc.Backend.Packs.{DeploymentManifest, LegacyModel}
use vision_qc.Backend.Workflow.Tables.{AuditEvent}

-- `DatasetSourceType` of backend/app/schemas.py
pub data SourceType : Type 0 where
  demo_synthetic official_benchmark customer_pilot : SourceType

abbrev pub source_eq : SourceType → SourceType → Bool
source_eq demo_synthetic demo_synthetic = true
source_eq official_benchmark official_benchmark = true
source_eq customer_pilot customer_pilot = true
source_eq _ _ = false

-- `DatasetRegistrationStatus`
pub data DatasetStatus : Type 0 where
  unchecked validated revoked : DatasetStatus

abbrev pub dataset_status_eq : DatasetStatus → DatasetStatus → Bool
dataset_status_eq unchecked unchecked = true
dataset_status_eq validated validated = true
dataset_status_eq revoked revoked = true
dataset_status_eq _ _ = false

-- `DatasetRegistrationRecord`, with the two entries of its customer provenance that are read.
pub record Dataset : Type 0 where
  pub id : ℕ
  pub tenant_id : String
  pub source_type : SourceType
  pub status : DatasetStatus
  pub dataset_fingerprint : String
  pub provenance_tenant : Option String
  pub consent : Bool
  pub revoked_by : Option String

-- The texts of `ModelQualification.status`.
pub data Stage : Type 0 where
  draft evaluated approved active retired : Stage

abbrev pub stage_eq : Stage → Stage → Bool
stage_eq draft draft = true
stage_eq evaluated evaluated = true
stage_eq approved approved = true
stage_eq active active = true
stage_eq retired retired = true
stage_eq _ _ = false

-- The gates of an evaluation: the decision, and the status of each check.
pub record Gates : Type 0 where
  pub decision : Option String
  pub checks : List (Option String)

pub record ModelQualification : Type 0 where
  pub id : ℕ
  pub tenant_id : String
  pub product_code : String
  pub model_id : String
  pub model_version : String
  pub package_sha256 : String
  pub evidence_path : String
  pub evidence_sha256 : String
  pub deployment_pack_key : String
  pub status : Stage
  pub qualification_status : String
  pub gates : Gates
  pub dataset_registration_id : Option ℕ
  pub dataset_source_type : Option SourceType
  pub dataset_fingerprint : Option String
  pub evaluated_by : Option String
  pub approved_by : Option String
  pub activated_by : Option String

-- The texts of `DeploymentPack.status`.
pub data PackStatus : Type 0 where
  pack_draft pack_active pack_retired : PackStatus

abbrev pub is_active_status : PackStatus → Bool
is_active_status pack_active = true
is_active_status _ = false

-- The `manifest` column: a manifest, JSON that does not fit the schema, or nothing, with the snapshots
-- of a record from before the manifest.
pub data Stored : Type 0 where
  canonical : DeploymentManifest → Stored
  misfit : Stored
  legacy : LegacyModel → PolicyConfig → Stored

pub record DeploymentPack : Type 0 where
  pub id : ℕ
  pub tenant_id : String
  pub version : String
  pub status : PackStatus
  pub manifest : Stored
  pub approved_by : Option String

pub record Tenant : Type 0 where
  pub id : String
  pub name : String
  pub is_active : Bool

pub record Registry : Type 0 where
  pub tenants : List Tenant
  pub datasets : List Dataset
  pub qualifications : List ModelQualification
  pub packs : List DeploymentPack
  pub audit : List AuditEvent
  pub next_id : ℕ

abbrev pub Deed : Type 0 → Type 0
Deed = Call Registry

abbrev pub is_tenant : String → Tenant → Bool
is_tenant t x = str_eq x.id t

abbrev pub is_dataset : ℕ → String → Dataset → Bool
is_dataset i tenant d = d.id == i && str_eq d.tenant_id tenant

abbrev pub has_id : ℕ → ModelQualification → Bool
has_id i q = q.id == i

abbrev pub is_qualification : ℕ → String → ModelQualification → Bool
is_qualification i tenant q = q.id == i && str_eq q.tenant_id tenant

abbrev pub is_active_for : String → String → ModelQualification → Bool
is_active_for tenant product q =
    str_eq q.tenant_id tenant && str_eq q.product_code product && stage_eq q.status active

abbrev pub pack_has_id : ℕ → DeploymentPack → Bool
pack_has_id i p = p.id == i

abbrev pub is_pack : ℕ → String → DeploymentPack → Bool
is_pack i tenant p = p.id == i && str_eq p.tenant_id tenant

abbrev pub is_active_pack : String → DeploymentPack → Bool
is_active_pack tenant p = str_eq p.tenant_id tenant && is_active_status p.status

-- Writes to a row that the session holds.
unfoldable pub edit_qualification : ℕ → (ModelQualification → ModelQualification) → Deed (Unit {0})
edit_qualification i f s =
    ok (tt, record s { qualifications = update_where (has_id i) f s.qualifications })

unfoldable pub edit_pack : ℕ → (DeploymentPack → DeploymentPack) → Deed (Unit {0})
edit_pack i f s = ok (tt, record s { packs = update_where (pack_has_id i) f s.packs })

unfoldable pub audit : String → String → String → String → ℕ → String → Deed (Unit {0})
audit tenant actor action target_type target correlation s =
    ok (tt, record s { audit = s.audit ++ event ∷ [] })
  where
    event : AuditEvent
    event = record {
      tenant_id = tenant;
      actor = actor;
      action = action;
      target_type = target_type;
      target_id = target;
      correlation_id = correlation;
    }
