-- ===== src/Backend/Release/Lifecycle.antt =====
-- The release process as an abstract machine on the two tables: what may happen to a qualification and
-- to a pack, and the invariant of every registry that the machine reaches.
pub mod Updates
pub mod Keeps
use vision_qc.Prelude.{
  ℕ, suc, ◌≤◌, ◌<◌, String, Option, none, some, Bool, true, false, ◌&&◌, List, [], ◌∷◌, ◌++◌,
  str_eq, eq_iff, ◌≡◌, ◌≢◌, refl, sym, ap, ◌∙◌, subst, ◌⊎◌, inl, inr, All, All-imp, All-map,
  All-member, All-snoc, Member, update_where, if◌then◌else◌, Bool-cases, arith,
}
use vision_qc.Backend.Policy.{opt_eq}
use vision_qc.Backend.Packs.{DeploymentManifest}
use vision_qc.Backend.Release.Tables.{
  validated, Dataset, SourceType, Stage, draft, evaluated, approved, active, retired, stage_eq,
  ModelQualification, pack_draft, pack_active, pack_retired, is_active_status, DeploymentPack,
  Registry, is_active_for, is_active_pack,
}
use vision_qc.Backend.Release.Evidence.{Evidence}
use vision_qc.Backend.Release.Qualifications.{is_pilot, is_consented}
use vision_qc.Backend.Release.Decisions.{
  with_evaluation, with_approval, with_stage, with_activation, stage_after,
}
use vision_qc.Backend.Release.Deployments.{with_pack_status, activated_pack, all_qualified}
use vision_qc.Backend.Release.Rows.{Ascending, Below, at_id, OneActive}
use vision_qc.Backend.Release.Switching.{retire_current, switched}

abbrev pub key_of : ModelQualification → String × String
key_of q = (q.tenant_id, q.product_code)

abbrev pub is_live : ModelQualification → Bool
is_live q = stage_eq q.status active

abbrev pub pack_is_live : DeploymentPack → Bool
pack_is_live x = is_active_status x.status

-- A decision that changes one qualification.
pub data Move (q : ModelQualification) : (ModelQualification → ModelQualification) → Type 0 where
  evaluation : (actor : String) (e : Evidence) → q.status ≡ draft → Move q (with_evaluation actor e)
  approval :
      (actor : String)
      → q.status ≡ evaluated
      → q.evaluated_by ≢ some actor
      → is_pilot q.dataset_source_type ≡ true
      → Move q (with_approval actor)
  retirement : (q.status ≡ approved) ⊎ (q.status ≡ active) → Move q (with_stage retired)

-- What allows `actor` to make the qualification the active one: the stage, two other people before, the
-- tenant's active pack, and a validated dataset of the tenant's consenting customer.
pub record Promotion (s : Registry) (actor : String) (q : ModelQualification) : Type 0 where
  pub stage : (q.status ≡ approved) ⊎ (q.status ≡ retired)
  pub evaluator : q.evaluated_by ≢ some actor
  pub approver : q.approved_by ≢ some actor
  pub pilot : is_pilot q.dataset_source_type ≡ true
  pub pack : DeploymentPack
  pub pack_stands : Member pack s.packs
  pub pack_active : is_active_pack q.tenant_id pack ≡ true
  pub dataset : Dataset
  pub dataset_stands : Member dataset s.datasets
  pub dataset_valid : dataset.status ≡ validated
  pub consented : is_consented q.tenant_id dataset ≡ true

abbrev pub promoted_rows :
    String → ModelQualification → List ModelQualification → List ModelQualification
promoted_rows actor q rows = update_where (at_id (λ r. r.id) q.id) (with_activation actor) (
    retire_current (λ r. r.id) (is_active_for q.tenant_id q.product_code) (with_stage retired) q.id
      rows)

abbrev pub switched_packs : String → DeploymentPack → List DeploymentPack → List DeploymentPack
switched_packs actor x rows = update_where (at_id (λ r. r.id) x.id) (activated_pack actor) (
    retire_current (λ r. r.id) (is_active_pack x.tenant_id) (with_pack_status pack_retired) x.id
      rows)

-- One step of the machine; in production a pack is switched to only with qualified models.
pub data Change (production : Bool) (s s' : Registry) : Type 0 where
  file :
      s'.qualifications ≡ s.qualifications
      → s'.packs ≡ s.packs
      → s'.next_id ≡ s.next_id
      → Change production s s'
  register :
      (q : ModelQualification)
      → q.status ≡ draft
      → q.id ≡ s.next_id
      → s'.qualifications ≡ s.qualifications ++ q ∷ []
      → s'.packs ≡ s.packs
      → s'.next_id ≡ suc s.next_id
      → Change production s s'
  decide :
      (q : ModelQualification) (f : ModelQualification → ModelQualification)
      → Member q s.qualifications
      → Move q f
      → s'.qualifications ≡ update_where (at_id (λ r. r.id) q.id) f s.qualifications
      → s'.packs ≡ s.packs
      → s'.next_id ≡ s.next_id
      → Change production s s'
  promote :
      (q : ModelQualification) (actor : String)
      → Member q s.qualifications
      → Promotion s actor q
      → s'.qualifications ≡ promoted_rows actor q s.qualifications
      → s'.packs ≡ s.packs
      → s'.next_id ≡ s.next_id
      → Change production s s'
  propose :
      (x : DeploymentPack)
      → x.status ≡ pack_draft
      → x.id ≡ s.next_id
      → s'.qualifications ≡ s.qualifications
      → s'.packs ≡ s.packs ++ x ∷ []
      → s'.next_id ≡ suc s.next_id
      → Change production s s'
  deploy :
      (x : DeploymentPack) (m : DeploymentManifest) (actor : String)
      → Member x s.packs
      → m.products ≢ []
      → (production ≡ true → all_qualified x.tenant_id m s ≡ true)
      → s'.qualifications ≡ s.qualifications
      → s'.packs ≡ switched_packs actor x s.packs
      → s'.next_id ≡ s.next_id
      → Change production s s'

-- Two different people evaluated and approved the evidence of a customer's pilot.
pub record IsReviewed (evaluated_by approved_by : Option String) (source : Option SourceType)
    : Type 0 where
  pub evaluator : String
  pub approver : String
  pub evaluated : evaluated_by ≡ some evaluator
  pub approved : approved_by ≡ some approver
  pub differ : evaluator ≢ approver
  pub pilot : is_pilot source ≡ true

abbrev pub Reviewed : ModelQualification → Type 0
Reviewed q = IsReviewed q.evaluated_by q.approved_by q.dataset_source_type

-- What a stage says of the people behind it.
abbrev pub Vouched : Stage → ModelQualification → Type 0
Vouched draft q = Unit
Vouched evaluated q = (e : String) × (q.evaluated_by ≡ some e)
Vouched approved q = Reviewed q
Vouched retired q = Reviewed q
Vouched active q =
    Reviewed q
    × ((c : String) × (q.activated_by ≡ some c)
        × (q.evaluated_by ≢ some c)
        × (q.approved_by ≢ some c))

-- The invariant: ids ascend; a tenant has one active qualification for a product at most, and one active
-- pack at most; and the people behind each qualification's stage are named and differ.
pub record IsReleased (s : Registry) : Type 0 where
  pub ascending : Ascending (λ q. q.id) s.qualifications
  pub below : Below (λ q. q.id) s.next_id s.qualifications
  pub vouched : All (λ q. Vouched q.status q) s.qualifications
  pub one_active : OneActive (λ q. q.id) is_live (λ a b. key_of a ≡ key_of b) s.qualifications
  pub packs_ascending : Ascending (λ x. x.id) s.packs
  pub packs_below : Below (λ x. x.id) s.next_id s.packs
  pub one_pack : OneActive (λ x. x.id) pack_is_live (λ a b. a.tenant_id ≡ b.tenant_id) s.packs

-- A decision keeps what the stage says.
pub Move-Vouched :
    {q : ModelQualification} {f : ModelQualification → ModelQualification}
    → Move q f
    → Vouched q.status q
    → Vouched (f q).status (f q)
Move-Vouched {q} (evaluation actor e s) v =
    elim (Bool-cases
      (opt_eq e.gate_decision (some "GO") && opt_eq e.approval_status (some "PENDING_APPROVAL"))) [
        | inl go ↦ rw (go, Vouched) (actor, refl)
        | inr hold ↦ rw (hold, Vouched) tt
      ]
Move-Vouched {q} (approval actor s d pilot) v =
    let (e, by) = subst (λ x. Vouched x q) s v in
    record {
      evaluator = e;
      approver = actor;
      evaluated = by;
      approved = refl;
      differ = λ same. d (by ∙ ap some same);
      pilot = pilot;
    }
Move-Vouched {q} (retirement (inl s)) v = subst (λ x. Vouched x q) s v
Move-Vouched {q} (retirement (inr s)) v = (subst (λ x. Vouched x q) s v).0
