-- ===== src/Backend/Release/Runs.antt =====
-- The runs of the release process: the calls of the API that answer, in any order and by anyone, each
-- committed. Here the tables of datasets and of tenants may change in any way between two calls, by
-- registration among others (`Datasets.Runs`).
pub mod Stalls
pub mod Vouching
use vision_qc.Prelude.{
  ℕ, String, Option, none, some, Bool, true, false, ◌&&◌, ◌||◌, not, List, [], ◌∷◌, ◌≡◌, ◌≢◌, refl,
  sym, ap, ◌∙◌, subst, All, All-of_Member, All-member, Member, any_of, all_of, str_eq, eq_iff,
  Bool-cases, inl, inr, arith,
}
use vision_qc.Backend.Calls.{Result, ok}
use vision_qc.Backend.Calls.Ensuring.{Ensures, Ensures-ok}
use vision_qc.Backend.Packs.{ProductDefinition, DeploymentManifest}
use vision_qc.Backend.Workflow.Tables.{Principal}
use vision_qc.Backend.Release.Tables.{
  active, ModelQualification, DeploymentPack, Dataset, Tenant, Registry, stage_eq,
}
use vision_qc.Backend.Release.Qualifications.{Desk, QualificationRequest, create_qualification}
use vision_qc.Backend.Release.Decisions.{
  evaluate_qualification, approve_qualification, activate_qualification, retire_qualification,
  rollback_qualification,
}
use vision_qc.Backend.Release.Deployments.{
  DeploymentRequest, create_deployment, Plant, activate_deployment, all_qualified, qualifies,
  revoke_dataset_registration,
}
use vision_qc.Backend.Release.Lifecycle.{Change, file, IsReleased, Vouched, Reviewed, is_live}
use vision_qc.Backend.Release.Lifecycle.Keeps.{Change-IsReleased}
use vision_qc.Backend.Release.Refines.{
  evaluate_qualification-Change, approve_qualification-Change, retire_qualification-Change,
}
use vision_qc.Backend.Release.Refines.Activations.{
  activate_qualification-Change, rollback_qualification-Change,
}
use vision_qc.Backend.Release.Refines.Filings.{
  create_qualification-Change, create_deployment-Change, revoke_dataset_registration-Change,
}
use vision_qc.Backend.Release.Refines.Deploys.{activate_deployment-Change}

-- One call that answers; `production` is the environment of the settings.
pub data Step (production : Bool) (s s' : Registry) : Type 0 where
  create :
      (p : Principal) (r : QualificationRequest) (c : String) {q : ModelQualification}
      → create_qualification p r c s ≡ ok (q, s')
      → Step production s s'
  evaluate :
      (desk : Desk) (p : Principal) (i : ℕ) (c : String) {q : ModelQualification}
      → evaluate_qualification desk p i c s ≡ ok (q, s')
      → Step production s s'
  approve :
      (desk : Desk) (p : Principal) (i : ℕ) (c : String) {q : ModelQualification}
      → approve_qualification desk p i c s ≡ ok (q, s')
      → Step production s s'
  activate :
      (desk : Desk) (p : Principal) (i : ℕ) (c : String) {q : ModelQualification}
      → activate_qualification desk p i c s ≡ ok (q, s')
      → Step production s s'
  retire :
      (p : Principal) (i : ℕ) (c : String) {q : ModelQualification}
      → retire_qualification p i c s ≡ ok (q, s')
      → Step production s s'
  roll_back :
      (desk : Desk) (p : Principal) (i : ℕ) (c : String) {q : ModelQualification}
      → rollback_qualification desk p i c s ≡ ok (q, s')
      → Step production s s'
  create_pack :
      (p : Principal) (r : DeploymentRequest) (c : String) {x : DeploymentPack}
      → create_deployment p r c s ≡ ok (x, s')
      → Step production s s'
  activate_pack :
      (healthy : Bool) (p : Principal) (i : ℕ) (c : String) {x : DeploymentPack}
      → activate_deployment (record { production = production; healthy = healthy }) p i c s
        ≡ ok (x, s')
      → Step production s s'
  revoke :
      (p : Principal) (i : ℕ) (c : String) {d : Dataset}
      → revoke_dataset_registration p i c s ≡ ok (d, s')
      → Step production s s'
  elsewhere :
      (ts : List Tenant) (ds : List Dataset)
      → s' ≡ record s { tenants = ts; datasets = ds }
      → Step production s s'

pub Step-Change :
    {production : Bool} {s s' : Registry} → Step production s s' → Change production s s'
Step-Change {production} {s} (create p r c e) =
    Ensures-ok (create_qualification-Change production p r c s) e
Step-Change {production} {s} (evaluate desk p i c e) =
    Ensures-ok (evaluate_qualification-Change production desk p i c s) e
Step-Change {production} {s} (approve desk p i c e) =
    Ensures-ok (approve_qualification-Change production desk p i c s) e
Step-Change {production} {s} (activate desk p i c e) =
    Ensures-ok (activate_qualification-Change production desk p i c s) e
Step-Change {production} {s} (retire p i c e) =
    Ensures-ok (retire_qualification-Change production p i c s) e
Step-Change {production} {s} (roll_back desk p i c e) =
    Ensures-ok (rollback_qualification-Change production desk p i c s) e
Step-Change {production} {s} (create_pack p r c e) =
    Ensures-ok (create_deployment-Change production p r c s) e
Step-Change {production} {s} (activate_pack healthy p i c e) =
    Ensures-ok
      (activate_deployment-Change (record { production = production; healthy = healthy }) p i c s) e
Step-Change {production} {s} (revoke p i c e) =
    Ensures-ok (revoke_dataset_registration-Change production p i c s) e
Step-Change (elsewhere ts ds e) =
    file (ap (λ (t : Registry). t.qualifications) e) (ap (λ (t : Registry). t.packs) e)
      (ap (λ (t : Registry). t.next_id) e)

pub data Reach (production : Bool) (s : Registry) : Registry → Type 0 where
  here : Reach production s s
  next : {t u : Registry} → Reach production s t → Step production t u → Reach production s u

pub Reach-keeps :
    {production : Bool} {s t : Registry} → IsReleased s → Reach production s t → IsReleased t
Reach-keeps v here = v
Reach-keeps v (next r step) = Change-IsReleased (Step-Change step) (Reach-keeps v r)

-- The registry of a fresh installation.
abbrev pub fresh : List Tenant → Registry
fresh ts = record {
  tenants = ts;
  datasets = [];
  qualifications = [];
  packs = [];
  audit = [];
  next_id = 1;
}

-- Whatever calls run on a fresh registry, in any order and by anyone: a tenant has at most one active
-- qualification for a product and at most one active pack; an evaluated qualification names its
-- evaluator; an approved, active or retired one is of a customer's pilot, and its evaluator and its
-- approver are different people; and who activated an active one is neither of them.
pub Reach-IsReleased :
    {production : Bool} {ts : List Tenant} {s : Registry}
    → Reach production (fresh ts) s
    → IsReleased s
Reach-IsReleased r = Reach-keeps start r
  where
    start : {ts : List Tenant} → IsReleased (fresh ts)
    start = record {
      ascending = tt;
      below = tt;
      vouched = tt;
      one_active = λ a b m _ _ _ _. absurd m;
      packs_ascending = tt;
      packs_below = tt;
      one_pack = λ a b m _ _ _ _. absurd m;
    }
