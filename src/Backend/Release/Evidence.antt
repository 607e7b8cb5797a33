-- ===== src/Backend/Release/Evidence.antt =====
-- `verify_evidence_package` of backend/app/qualification.py, and the checks of
-- `_verified_qualification_evidence` of backend/app/services.py on its answer.
--
-- The directory is given as its listing and its parsed documents, and SHA-256 as a function. A
-- `ValueError` or `OSError` of the verification is the `InvalidInput` that its only caller makes of it.
use vision_qc.Prelude.{
  ℕ, String, Option, none, some, Bool, true, false, ◌&&◌, ◌||◌, not, List, [], ◌∷◌, map, ◌==◌,
  if◌then◌else◌, str_eq, is_some, truthy, any_of, all_of, find_first, keep_if,
}
use vision_qc.Backend.Calls.{
  Call, ServiceError, invalid_input, crash, pure, raise, or_raise, guard, ◌>>=◌, ◌>>◌,
}
use vision_qc.Backend.Policy.{opt_eq}
use vision_qc.Backend.Release.Tables.{
  SourceType, demo_synthetic, official_benchmark, customer_pilot, source_eq, Gates,
  ModelQualification,
}

-- A member of a JSON object.
pub data JsonMember : Type 0 where
  absent null : JsonMember
  value : String → JsonMember

-- `d.get(key)`
abbrev pub read : JsonMember → Option String
read absent = none
read null = none
read (value t) = some t

-- `d.get(key, default)`
abbrev pub read_or : JsonMember → Option String → Option String
read_or absent d = d
read_or null d = none
read_or (value t) d = some t

pub record FileEntry : Type 0 where
  pub name : String
  pub sha256 : String
  pub size_bytes : ℕ

-- An entry of the declared inventory.
pub record Declared : Type 0 where
  pub relative : String
  pub sha256 : Option String
  pub size_bytes : Option ℕ

pub record Inventory : Type 0 where
  pub schema_version : Option String
  -- `none` is that `files` is no object
  pub files : Option (List Declared)

-- `provenance["customer_provenance"]`: its keys, and whether its consent is true.
pub record CustomerProvenance : Type 0 where
  pub keys : List String
  pub consent : Bool

pub record Provenance : Type 0 where
  pub model_package_sha256 : Option String
  pub source_type : JsonMember
  pub data_status : JsonMember
  pub dataset_fingerprint : Option String
  pub customer_provenance : Option CustomerProvenance

pub record ReleaseDecision : Type 0 where
  pub evidence_package_sha256 : Option String
  pub decision : Option String
  pub model_package_sha256 : Option String
  pub source_type : JsonMember
  pub dataset_fingerprint : Option String
  pub gate_decision : JsonMember
  pub approval_status : Option String
  pub gates : Option Gates

pub record MetricsReport : Type 0 where
  pub gates : Option Gates
  pub report_status : Option String

pub record QualificationSummary : Type 0 where
  pub qualification_status : Option String
  pub source_type : JsonMember

-- A document: it is missing or no JSON, or it is JSON of another shape, or it is read.
pub data Document (A : Type 0) : Type 0 where
  unreadable misshapen : Document A
  document : A → Document A

-- The directory of an evidence package; `files` are the files that stand in it.
pub record Package : Type 0 where
  pub is_dir : Bool
  pub files : List FileEntry
  pub inventory : Document Inventory
  pub provenance : Document Provenance
  pub release : Document ReleaseDecision
  pub metrics : Document MetricsReport
  pub summary : Document QualificationSummary

pub record Evidence : Type 0 where
  pub evidence_package_sha256 : String
  pub decision : Option String
  pub gate_decision : Option String
  pub source_type : SourceType
  pub dataset_fingerprint : Option String
  pub approval_status : Option String
  pub gates : Gates

abbrev pub required_evidence_files : List String
required_evidence_files =
    "qualification-summary.json" ∷ "model-card.md" ∷ "evaluation-report.md" ∷ "metrics.json"
    ∷ "confidence-intervals.json" ∷ "split-manifest.json" ∷ "provenance.json"
    ∷ "release-decision.json" ∷ "error-cases.json" ∷ "source-evidence.json"
    ∷ "evidence-manifest.json" ∷ []

abbrev pub required_provenance : List String
required_provenance =
    "tenant" ∷ "site" ∷ "line" ∷ "camera" ∷ "product" ∷ "capture_window_start"
    ∷ "capture_window_end" ∷ "label_source" ∷ "approver" ∷ "consent" ∷ "retention_policy" ∷ []

abbrev pub subset : List String → List String → Bool
subset xs ys = all_of (λ x. any_of (str_eq x) ys) xs

abbrev pub other_than : List String → FileEntry → Bool
other_than names f = not (any_of (str_eq f.name) names)

abbrev pub nat_eq : Option ℕ → ℕ → Bool
nat_eq none n = false
nat_eq (some m) n = m == n

-- A declared file is there, with the digest and the size.
abbrev pub declared_ok : List FileEntry → Declared → Bool
declared_ok files d = elim (find_first (λ f. str_eq f.name d.relative) files) [
  | none ↦ false
  | some f ↦ opt_eq d.sha256 (some f.sha256) && nat_eq d.size_bytes f.size_bytes
]

abbrev pub bad : ServiceError
bad = invalid_input "qualification evidence verification failed"

unfoldable pub parsed : {S A : Type 0} → Document A → Call S A
unfolding raise pure
parsed unreadable = raise bad
parsed misshapen = raise crash
parsed (document a) = pure a

abbrev pub decision_of : Option Gates → Option String
decision_of none = none
decision_of (some g) = g.decision

abbrev pub source_of : Option String → Option SourceType
source_of none = none
source_of (some t) =
    if str_eq t "DEMO_SYNTHETIC"
    then some demo_synthetic
    else if str_eq t "OFFICIAL_BENCHMARK"
    then some official_benchmark
    else if str_eq t "CUSTOMER_PILOT"
    then some customer_pilot
    else none

abbrev pub customer_ok : Option CustomerProvenance → Bool
customer_ok none = false
customer_ok (some c) = subset required_provenance c.keys && c.consent

abbrev pub gates_of : Option Gates → Option Gates → Gates
gates_of (some g) h = g
gates_of none (some h) = h
gates_of none none = record { decision = none; checks = [] }

-- `verify_evidence_package`. The declared names are those of the directory's entries once the
-- inventories agree, so that none of them is an unsafe path. `digest` is the SHA-256 of the core files' canonical JSON.
unfoldable pub verify_evidence_package :
    {S : Type 0} → (List FileEntry → String) → Package → String → Call S Evidence
unfolding parsed
verify_evidence_package digest p expected = do
  guard (p.is_dir && subset required_evidence_files (map (λ f. f.name) p.files)) bad
  inventory ← parsed p.inventory
  guard (opt_eq inventory.schema_version (some "visionqc.evidence-manifest.v1")) bad
  let present = keep_if (other_than ("evidence-manifest.json" ∷ [])) p.files
  declared ← or_raise inventory.files bad
  let names = map (λ (d : Declared). d.relative) declared
  guard (subset names (map (λ f. f.name) present) && subset (map (λ f. f.name) present) names) bad
  guard (all_of (declared_ok present) declared) bad
  provenance ← parsed p.provenance
  guard (opt_eq provenance.model_package_sha256 (some expected)) bad
  release ← parsed p.release
  let core =
      digest
        (keep_if (other_than ("release-decision.json" ∷ "evidence-manifest.json" ∷ [])) p.files)
  guard (opt_eq release.evidence_package_sha256 (some core)) bad
  metrics ← parsed p.metrics
  summary ← parsed p.summary
  guard (opt_eq release.decision summary.qualification_status) bad
  guard
      (opt_eq release.decision (decision_of metrics.gates)
        || opt_eq release.decision metrics.report_status)
      bad
  guard (opt_eq release.model_package_sha256 provenance.model_package_sha256) bad
  let source = read_or provenance.source_type (read_or provenance.data_status (some ""))
  kind ← or_raise (source_of source) bad
  guard (opt_eq (read_or summary.source_type source) source) bad
  guard (opt_eq (read_or release.source_type source) source) bad
  guard (opt_eq release.dataset_fingerprint provenance.dataset_fingerprint) bad
  guard (not (source_eq kind customer_pilot) || customer_ok provenance.customer_provenance) bad
  pure (record {
    evidence_package_sha256 = core;
    decision = release.decision;
    gate_decision = read_or release.gate_decision (decision_of metrics.gates);
    source_type = kind;
    dataset_fingerprint = provenance.dataset_fingerprint;
    approval_status = release.approval_status;
    gates = gates_of metrics.gates release.gates;
  })

-- What `_verified_qualification_evidence` asks of evidence that is to be approved.
abbrev pub is_approvable : Evidence → Bool
is_approvable e =
    opt_eq e.gate_decision (some "GO")
    && opt_eq e.approval_status (some "PENDING_APPROVAL")
    && source_eq e.source_type customer_pilot

abbrev pub same_source : SourceType → Option SourceType → Bool
same_source k none = true
same_source k (some t) = source_eq k t

-- A registered text that is not empty is the evidence's text.
abbrev pub same_fingerprint : Option String → Option String → Bool
same_fingerprint found registered = not (truthy registered) || opt_eq found registered

-- `_verified_qualification_evidence`, of the package that stands at the item's path.
unfoldable pub verified_evidence :
    {S : Type 0}
    → (List FileEntry → String)
    → (String → Package)
    → ModelQualification
    → Bool
    → Call S Evidence
unfolding verify_evidence_package
verified_evidence digest package_at q require_approval = do
  e ← verify_evidence_package digest (package_at q.evidence_path) q.package_sha256
  guard (str_eq e.evidence_package_sha256 q.evidence_sha256)
      (invalid_input "qualification evidence digest does not match registered digest")
  guard (same_source e.source_type q.dataset_source_type)
      (invalid_input "qualification evidence source type does not match the registered dataset")
  guard (same_fingerprint e.dataset_fingerprint q.dataset_fingerprint)
      (invalid_input "qualification evidence dataset fingerprint does not match the registration")
  guard (source_eq e.source_type demo_synthetic || is_some q.dataset_registration_id)
      (invalid_input "benchmark/customer evidence must bind a dataset registration")
  guard (not require_approval || is_approvable e)
      (invalid_input "qualification evidence is not eligible for customer approval")
  pure e
