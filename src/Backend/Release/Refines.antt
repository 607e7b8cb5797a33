-- ===== src/Backend/Release/Refines.antt =====
-- The operations of the release process are steps of its abstract machine.
pub mod Activations
pub mod Filings
pub mod Deploys
use vision_qc.Prelude.{
  ℕ, suc, String, Option, none, some, Bool, true, false, ◌&&◌, ◌||◌, not, List, [], ◌∷◌, ◌++◌, ◌==◌,
  ◌≡◌, ◌≢◌, refl, sym, ap, ◌∙◌, subst, ◌⊎◌, inl, inr, Member, str_eq, eq_iff, eq_refl, find_first,
  find_first-some, update_where, if◌then◌else◌, Bool-cases, Option-cases, arith, any_of,
}
use vision_qc.Backend.Packs.{DeploymentManifest, legacy_manifest}
use vision_qc.Backend.Calls.{
  raise, dependency_unavailable, pure, gets, or_raise, on_option, branch, guard, ◌>>=◌, ◌>>◌,
}
use vision_qc.Backend.Calls.Ensuring.{
  Ensures, ensures, Ensures-pure, Ensures-gets, Ensures-or_raise, Ensures-guard, Ensures-bind,
  Ensures-then, Ensures-imp, Ensures-branch,
}
use vision_qc.Backend.Calls.Ensuring.Reading.{
  reading, Still, Ensures-read, Ensures-still, Ensures-skip,
}
use vision_qc.Backend.Policy.{opt_eq}
use vision_qc.Backend.Workflow.Tables.{Principal, AuditEvent}
use vision_qc.Backend.Release.Tables.{
  Stage, draft, evaluated, approved, active, retired, stage_eq, ModelQualification, DeploymentPack,
  Registry, Deed, is_qualification, is_active_for, is_active_pack, is_dataset, is_tenant, Stored,
  canonical, misfit, legacy, validated, dataset_status_eq, Dataset, edit_qualification, edit_pack,
  audit,
}
use vision_qc.Backend.Release.Evidence.{
  FileEntry, Package, Document, unreadable, misshapen, document, parsed, verify_evidence_package,
  verified_evidence,
}
use vision_qc.Backend.Release.Qualifications.{
  Desk, QualificationRequest, require_tenant, bound_dataset, insert_qualification,
  create_qualification, active_deployment, deployment_manifest, find_qualification,
  validated_manifest, name_of, is_consented, require_activation_dataset, is_pilot,
}
use vision_qc.Backend.Release.Decisions.{
  evaluate_qualification, approve_qualification, activate_qualification, retire_qualification,
  rollback_qualification, swap_active, with_evaluation, with_approval, with_activation, with_stage,
  is_distinct, record_decision,
}
use vision_qc.Backend.Release.Lifecycle.{
  Move, evaluation, approval, retirement, Promotion, promoted_rows, Change, file, register, decide,
  promote, propose, deploy,
}

-- An operation that answers takes a step of the machine.
abbrev pub Steps : {A : Type 0} → Bool → Deed A → Type 0
Steps production m = (s : Registry) → Ensures s m (λ _ s'. Change production s s')

parsed-Still : {S A : Type 0} (d : Document A) → Still {S = S} (parsed d)
unfolding parsed
parsed-Still unreadable = search reading depth 10
parsed-Still misshapen = search reading depth 10
parsed-Still (document a) = search reading depth 10

verify-Still :
    {S : Type 0} (digest : List FileEntry → String) (p : Package) (expected : String)
    → Still {S = S} (verify_evidence_package digest p expected)
unfolding verify_evidence_package
verify-Still digest p expected = search (reading, parsed-Still) depth 60 fits 3000

pub evidence-Still :
    {S : Type 0} (digest : List FileEntry → String) (at : String → Package) (q : ModelQualification)
    (strict : Bool)
    → Still {S = S} (verified_evidence digest at q strict)
unfolding verified_evidence
evidence-Still digest at q strict = search (reading, verify-Still) depth 40 fits 3000

pub find-reads :
    (i : ℕ) (tenant : String) (s : Registry)
    → Ensures s
        (find_qualification i tenant)
        (λ q s'. (s' ≡ s) × (Member q s.qualifications × (q.tenant_id ≡ tenant)))
unfolding find_qualification
find-reads i tenant s = Ensures-bind (
    Ensures-gets _ (
      Ensures-or_raise _ _ λ q found.
        let (m, e) = find_first-some (is_qualification i tenant) s.qualifications found in
        (refl, (m, ground (arith, e, eq_iff q.tenant_id tenant)))))

Change-audit :
    {production : Bool} {s t : Registry} (log : List AuditEvent)
    → Change production s t
    → Change production s (record t { audit = log })
Change-audit log (file a b c) = file a b c
Change-audit log (register q a b c d e) = register q a b c d e
Change-audit log (decide q f a b c d e) = decide q f a b c d e
Change-audit log (promote q actor a b c d e) = promote q actor a b c d e
Change-audit log (propose x a b c d e) = propose x a b c d e
Change-audit log (deploy x m actor a b c d e f) = deploy x m actor a b c d e f

-- Writing the audit event, once the tables are as they should be.
pub audit-Change :
    {A : Type 0} {production : Bool} {s t : Registry} (tenant actor action kind : String) (i : ℕ)
    (correlation : String) (a : A)
    → Change production s t
    → Ensures t
        (audit tenant actor action kind i correlation >> pure a)
        (λ _ s'. Change production s s')
unfolding audit
audit-Change tenant actor action kind i correlation a c =
    Ensures-then (ensures (Ensures-pure a (Change-audit _ c)))

-- A decision on one row.
edit-Change :
    {A : Type 0} {production : Bool} {s : Registry} (q : ModelQualification)
    (f : ModelQualification → ModelQualification) (p : Principal) (action correlation : String)
    (a : A)
    → Member q s.qualifications
    → Move q f
    → Ensures s
        (edit_qualification q.id f >> (record_decision p action q correlation >> pure a))
        (λ _ s'. Change production s s')
unfolding edit_qualification
edit-Change q f p action correlation a m mv =
    Ensures-then (ensures (audit-Change _ _ _ _ _ _ a (decide q f m mv refl refl refl)))

pub stage_lem : (x y : Stage) → stage_eq x y ≡ true → x ≡ y
stage_lem x y h = ground arith

pub evaluate_qualification-Change :
    (production : Bool) (desk : Desk) (p : Principal) (i : ℕ) (correlation : String)
    → Steps production (evaluate_qualification desk p i correlation)
unfolding evaluate_qualification
evaluate_qualification-Change production desk p i correlation s =
    Ensures-read _ (find-reads i p.tenant_id s) λ q (m, _). Ensures-then (
      Ensures-guard _ _ λ d. Ensures-still (evidence-Still desk.digest desk.package_at q false) λ e.
        edit-Change q (with_evaluation p.actor_id e) p "model_qualification.evaluated" correlation _
          m (evaluation p.actor_id e (stage_lem _ _ d)))

pub retire_qualification-Change :
    (production : Bool) (p : Principal) (i : ℕ) (correlation : String)
    → Steps production (retire_qualification p i correlation)
unfolding retire_qualification
retire_qualification-Change production p i correlation s =
    Ensures-read _ (find-reads i p.tenant_id s) λ q (m, _). Ensures-then (
      Ensures-guard _ _ λ d.
        edit-Change q (with_stage retired) p "model_qualification.retired" correlation _ m
          (retirement (either q d)))
  where
    either :
        (q : ModelQualification)
        → (stage_eq q.status approved || stage_eq q.status active) ≡ true
        → (q.status ≡ approved) ⊎ (q.status ≡ active)
    either q h = ground arith

pub opt_differs : (o : Option String) (t : String) → opt_eq o (some t) ≡ false → o ≢ some t
opt_differs o t h e = ground (arith, h, e, eq_refl t)

and_right : (a b : Bool) → (a && b) ≡ true → b ≡ true
and_right a b h = ground arith

and_left : (a b : Bool) → (a && b) ≡ true → a ≡ true
and_left a b h = ground arith

pub negated : (b : Bool) → not b ≡ true → b ≡ false
negated b h = ground arith

pub approve_qualification-Change :
    (production : Bool) (desk : Desk) (p : Principal) (i : ℕ) (correlation : String)
    → Steps production (approve_qualification desk p i correlation)
unfolding approve_qualification
approve_qualification-Change production desk p i correlation s =
    Ensures-read _ (find-reads i p.tenant_id s) λ q (m, _). Ensures-then (
      Ensures-guard _ _ λ d. Ensures-then (
        Ensures-guard _ _ λ other. Ensures-then (
          Ensures-guard _ _ λ pilot. Ensures-bind (
            Ensures-or_raise _ _ λ k _. Ensures-bind (
              Ensures-gets _ (
                Ensures-bind (
                  Ensures-or_raise _ _ λ set _. Ensures-then (
                    Ensures-guard _ _ λ _. Ensures-then (
                      Ensures-guard _ _ λ _.
                        Ensures-skip (evidence-Still desk.digest desk.package_at q true) (
                          edit-Change q (with_approval p.actor_id) p "model_qualification.approved"
                            correlation _ m
                            (approval p.actor_id (stage_lem _ _ d)
                              (opt_differs _ _ (negated _ other)) (and_right _ _ pilot))))))))))))

pub active-reads :
    (tenant : String) (s : Registry)
    → Ensures s
        (active_deployment tenant)
        (λ x s'. (s' ≡ s) × (Member x s.packs × (is_active_pack tenant x ≡ true)))
unfolding active_deployment
active-reads tenant s = Ensures-bind (
    Ensures-gets _ (
      Ensures-or_raise _ _
        λ x found. (refl, find_first-some (is_active_pack tenant) s.packs found)))

pub manifest-Still : (x : DeploymentPack) → Still (deployment_manifest x)
unfolding deployment_manifest
manifest-Still x = by_kind x.manifest
  where
    by_kind :
        (k : Stored)
        → Still (elim k as (λ _. Deed DeploymentManifest) [
          | canonical m ↦ validated_manifest m
          | misfit ↦ raise (dependency_unavailable "active deployment pack manifest is invalid")
          | legacy model policy ↦
              gets (λ s. find_first (is_tenant x.tenant_id) s.tenants) >>= λ tenant.
              validated_manifest
                (legacy_manifest x.tenant_id (name_of tenant x.tenant_id) x.version model policy)
        ])
    by_kind (canonical m) = search reading depth 10
    by_kind misfit = search reading depth 10
    by_kind (legacy model policy) = search reading depth 10

-- What `_require_activation_dataset` has found where it answers.
abbrev pub DatasetFound : Registry → Principal → ModelQualification → Dataset → Type 0
DatasetFound s p q d =
    Member d s.datasets
    × (d.status ≡ validated)
    × (is_consented p.tenant_id d ≡ true)
    × (is_pilot q.dataset_source_type ≡ true)

pub dataset-reads :
    (p : Principal) (q : ModelQualification) (s : Registry)
    → Ensures s (require_activation_dataset p q) (λ d s'. (s' ≡ s) × DatasetFound s p q d)
unfolding require_activation_dataset
dataset-reads p q s = Ensures-then (
    Ensures-guard _ _ λ pilot. Ensures-bind (
      Ensures-or_raise _ _ λ k _. Ensures-bind (
        Ensures-gets _ (
          Ensures-bind (
            Ensures-or_raise _ _ λ d found. Ensures-then (
              Ensures-guard _ _ λ current. Ensures-then (
                Ensures-guard _ _ λ consented. Ensures-pure d (
                  refl,
                  (
                    (find_first-some (is_dataset k p.tenant_id) s.datasets found).0,
                    valid d (and_left _ _ (and_right _ _ current)),
                    consented,
                    pilot,
                  ),
                ))))))))
  where
    valid : (d : Dataset) → dataset_status_eq d.status validated ≡ true → d.status ≡ validated
    valid d h = ground arith
