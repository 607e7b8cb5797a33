-- ===== src/Backend/Release/Refines/Filings.antt =====
-- Registration of a qualification, creation of a pack and revocation of a dataset are steps of the
-- release machine.
use vision_qc.Prelude.{ℕ, String, Bool, ◌≡◌, refl, inl, inr, any_of, Bool-cases}
use vision_qc.Backend.Calls.{pure, ◌>>=◌, ◌>>◌}
use vision_qc.Backend.Calls.Ensuring.{
  Ensures, ensures, Ensures-gets, Ensures-or_raise, Ensures-guard, Ensures-bind, Ensures-then,
}
use vision_qc.Backend.Calls.Ensuring.Reading.{reading, Still, Ensures-still, Ensures-skip}
use vision_qc.Backend.Workflow.Tables.{Principal}
use vision_qc.Backend.Release.Tables.{
  audit, draft, pack_draft, ModelQualification, Tenant, DeploymentPack, Registry,
}
use vision_qc.Backend.Release.Qualifications.{
  QualificationRequest, require_tenant, bound_dataset, same_identity, insert_qualification,
  create_qualification,
}
use vision_qc.Backend.Release.Deployments.{
  DeploymentRequest, with_manifest, with_snapshots, requested_manifest, same_version, insert_pack,
  create_deployment, edit_dataset, revoke_dataset_registration,
}
use vision_qc.Backend.Release.Lifecycle.{Change, file, register, propose}
use vision_qc.Backend.Release.Refines.{Steps, audit-Change}

pub tenant-Still : (p : Principal) → Still (require_tenant p)
unfolding require_tenant
tenant-Still p = search reading depth 20

dataset-Still : (p : Principal) (r : QualificationRequest) → Still (bound_dataset p r)
unfolding bound_dataset
dataset-Still p r = search reading depth 30

requested-Still :
    (p : Principal) (t : Tenant) (r : DeploymentRequest) → Still (requested_manifest p t r)
unfolding requested_manifest
requested-Still p t (with_manifest m) = search reading depth 20
requested-Still p t (with_snapshots version model policy) = search reading depth 20

insert_qualification-Change :
    {production : Bool} {s : Registry} (make : ℕ → ModelQualification)
    (tenant actor action kind correlation : String)
    → ((i : ℕ) → (make i).status ≡ draft)
    → ((i : ℕ) → (make i).id ≡ i)
    → Ensures s
        (insert_qualification make >>= λ q.
          audit tenant actor action kind q.id correlation >> pure q)
        (λ _ s'. Change production s s')
unfolding insert_qualification
insert_qualification-Change {production} {s} make tenant actor action kind correlation d i =
    Ensures-bind (elim (Bool-cases (any_of (same_identity (make s.next_id)) s.qualifications)) [
      | inl e ↦ ensures (rw e tt)
      | inr e ↦ ensures (
          rw e (
            audit-Change _ _ _ _ _ _ _
              (register (make s.next_id) (d s.next_id) (i s.next_id) refl refl refl)))
    ])

pub create_qualification-Change :
    (production : Bool) (p : Principal) (r : QualificationRequest) (correlation : String)
    → Steps production (create_qualification p r correlation)
unfolding create_qualification
create_qualification-Change production p r correlation s = Ensures-skip (tenant-Still p) (
    Ensures-still (dataset-Still p r)
      λ d. insert_qualification-Change _ _ _ _ _ _ (λ i. refl) (λ i. refl))

insert_pack-Change :
    {production : Bool} {s : Registry} (make : ℕ → DeploymentPack)
    (tenant actor action kind correlation : String)
    → ((i : ℕ) → (make i).status ≡ pack_draft)
    → ((i : ℕ) → (make i).id ≡ i)
    → Ensures s
        (insert_pack make >>= λ x. audit tenant actor action kind x.id correlation >> pure x)
        (λ _ s'. Change production s s')
unfolding insert_pack
insert_pack-Change {production} {s} make tenant actor action kind correlation d i =
    Ensures-bind (elim (Bool-cases (any_of (same_version (make s.next_id)) s.packs)) [
      | inl e ↦ ensures (rw e tt)
      | inr e ↦ ensures (
          rw e (
            audit-Change _ _ _ _ _ _ _
              (propose (make s.next_id) (d s.next_id) (i s.next_id) refl refl refl)))
    ])

pub create_deployment-Change :
    (production : Bool) (p : Principal) (r : DeploymentRequest) (correlation : String)
    → Steps production (create_deployment p r correlation)
unfolding create_deployment
create_deployment-Change production p r correlation s = Ensures-still (tenant-Still p) λ t.
    Ensures-still (requested-Still p t r)
      λ m. insert_pack-Change _ _ _ _ _ _ (λ i. refl) (λ i. refl)

pub revoke_dataset_registration-Change :
    (production : Bool) (p : Principal) (i : ℕ) (correlation : String)
    → Steps production (revoke_dataset_registration p i correlation)
unfolding revoke_dataset_registration edit_dataset
revoke_dataset_registration-Change production p i correlation s = Ensures-bind (
    Ensures-gets _ (
      Ensures-bind (
        Ensures-or_raise _ _ λ d found. Ensures-then (
          Ensures-guard _ _
            λ _. Ensures-then (ensures (audit-Change _ _ _ _ _ _ _ (file refl refl refl)))))))
