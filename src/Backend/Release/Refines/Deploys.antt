-- ===== src/Backend/Release/Refines/Deploys.antt =====
-- The activation of a pack is a step of the release machine.
use vision_qc.Prelude.{
  ℕ, String, Option, none, some, Bool, true, false, ◌||◌, not, List, [], ◌==◌, ◌≡◌, ◌≢◌, refl, sym,
  ap, ◌∙◌, subst, Member, find_first, find_first-some, eq_iff, arith, update_where,
}
use vision_qc.Backend.Calls.{raise, dependency_unavailable, pure, gets, on_option, branch, ◌>>=◌}
use vision_qc.Backend.Calls.Ensuring.{
  Ensures, ensures, Ensures-pure, Ensures-raise, Ensures-gets, Ensures-or_raise, Ensures-guard,
  Ensures-bind, Ensures-then, Ensures-imp, Ensures-branch,
}
use vision_qc.Backend.Calls.Ensuring.Reading.{Ensures-read, Ensures-write}
use vision_qc.Backend.Packs.{
  DeploymentManifest, legacy_manifest, validate_manifest, is_rejected, manifest_sized,
}
use vision_qc.Backend.Packs.Catalog.{accepted}
use vision_qc.Backend.Workflow.Tables.{Principal}
use vision_qc.Backend.Release.Tables.{
  pack_retired, Stored, canonical, misfit, legacy, DeploymentPack, Registry, Deed, is_pack,
  is_active_pack, is_tenant, edit_pack,
}
use vision_qc.Backend.Release.Qualifications.{deployment_manifest, validated_manifest, name_of}
use vision_qc.Backend.Release.Deployments.{
  get_deployment, Plant, all_qualified, with_pack_status, activated_pack, swap_pack,
  activate_deployment,
}
use vision_qc.Backend.Release.Rows.{at_id}
use vision_qc.Backend.Release.Switching.{retire_current, retire_none, retire_self, retire_other}
use vision_qc.Backend.Release.Lifecycle.{switched_packs, deploy}
use vision_qc.Backend.Release.Refines.{Steps, audit-Change, negated}

-- A manifest that is read is accepted by the validators.
abbrev pub IsAccepted : DeploymentManifest → Type 0
IsAccepted m = validate_manifest m ≡ none

validated-reads :
    (m : DeploymentManifest) (s : Registry)
    → Ensures s (validated_manifest m) (λ n s'. (s' ≡ s) × IsAccepted n)
validated-reads m s =
    Ensures-then (Ensures-guard _ _ λ e. Ensures-pure m (refl, not_rejected _ (negated _ e)))
  where
    not_rejected : {A : Type 0} (o : Option A) → is_rejected o ≡ false → o ≡ none
    not_rejected none h = refl
    not_rejected (some a) h = cc

manifest-reads :
    (x : DeploymentPack) (s : Registry)
    → Ensures s (deployment_manifest x) (λ m s'. (s' ≡ s) × IsAccepted m)
unfolding deployment_manifest
manifest-reads x s = by_kind x.manifest
  where
    by_kind :
        (k : Stored)
        → Ensures s
            (elim k as (λ _. Deed DeploymentManifest) [
              | canonical m ↦ validated_manifest m
              | misfit ↦ raise (dependency_unavailable "active deployment pack manifest is invalid")
              | legacy model policy ↦
                  gets (λ s. find_first (is_tenant x.tenant_id) s.tenants) >>= λ tenant.
                  validated_manifest (
                    legacy_manifest x.tenant_id (name_of tenant x.tenant_id) x.version model policy)
            ])
            (λ m s'. (s' ≡ s) × IsAccepted m)
    by_kind (canonical m) = validated-reads m s
    by_kind misfit = Ensures-raise _
    by_kind (legacy model policy) = Ensures-bind (Ensures-gets _ (validated-reads _ s))

has_products : (m : DeploymentManifest) → IsAccepted m → m.products ≢ []
has_products m v e =
    let sized : manifest_sized m ≡ true = negated_not _ (accepted m v).0 in ground (arith, sized, e)
  where
    negated_not : (b : Bool) → not b ≡ false → b ≡ true
    negated_not b h = ground arith

pub pack-reads :
    (tenant : String) (i : ℕ) (s : Registry)
    → Ensures s
        (get_deployment tenant i)
        (λ x s'. (s' ≡ s) × (Member x s.packs × (x.tenant_id ≡ tenant)))
unfolding get_deployment
pack-reads tenant i s = Ensures-bind (
    Ensures-gets _ (
      Ensures-or_raise _ _ λ x found.
        let (m, e) = find_first-some (is_pack i tenant) s.packs found in
        (refl, (m, ground (arith, e, eq_iff x.tenant_id tenant)))))

with_packs : Registry → List DeploymentPack → Registry
with_packs s rows = record s { packs = rows }

module _ (p : Principal) (x : DeploymentPack) (s : Registry) where
  retired_packs : String → List DeploymentPack
  retired_packs tenant =
      retire_current (λ r. r.id) (is_active_pack tenant) (with_pack_status pack_retired) x.id
        s.packs

  retirement_writes :
      (o : Option DeploymentPack)
      → find_first (is_active_pack p.tenant_id) s.packs ≡ o
      → Ensures s
          (on_option o
            (pure tt)
            λ c. branch (c.id == x.id) (pure tt) (edit_pack c.id (with_pack_status pack_retired)))
          (λ _ s'. s' ≡ with_packs s (retired_packs p.tenant_id))
  unfolding on_option retired_packs with_packs edit_pack
  retirement_writes none e = Ensures-pure tt (
      ap (with_packs s) (
        sym (
          retire_none (λ r. r.id) (is_active_pack p.tenant_id) (with_pack_status pack_retired) x.id
            s.packs e)))
  retirement_writes (some c) e =
      Ensures-branch (c.id == x.id)
        (λ same. Ensures-pure tt (
          ap (with_packs s) (
            sym (
              retire_self (λ r. r.id) (is_active_pack p.tenant_id) (with_pack_status pack_retired)
                x.id s.packs e same))))
        (λ other. ensures (
          ap (with_packs s) (
            sym (
              retire_other (λ r. r.id) (is_active_pack p.tenant_id) (with_pack_status pack_retired)
                x.id s.packs e other))))

  activated : List DeploymentPack → List DeploymentPack
  activated = update_where (at_id (λ r. r.id) x.id) (activated_pack p.actor_id)

  swap_writes :
      x.tenant_id ≡ p.tenant_id
      → Ensures s (swap_pack p x) (λ _ s'. s' ≡ with_packs s (switched_packs p.actor_id x s.packs))
  unfolding swap_pack edit_pack retired_packs with_packs activated
  swap_writes e = Ensures-bind (
      Ensures-gets _ (
        Ensures-then (
          Ensures-imp (retirement_writes _ refl) λ _ s' h. ensures (
            ap (λ (t : Registry). with_packs t (activated t.packs)) h
            ∙ ap (with_packs s) (ap (λ t. activated (retired_packs t)) (sym e))))))

pub implied : (a b : Bool) → (not a || b) ≡ true → a ≡ true → b ≡ true
implied a b h e = ground arith

pub activate_deployment-Change :
    (plant : Plant) (p : Principal) (i : ℕ) (correlation : String)
    → Steps plant.production (activate_deployment plant p i correlation)
unfolding activate_deployment with_packs
activate_deployment-Change plant p i correlation s =
    Ensures-read _ (pack-reads p.tenant_id i s) λ x (m, home).
      Ensures-read _ (manifest-reads x s) λ mf v. Ensures-then (
        Ensures-guard _ _ λ _. Ensures-then (
          Ensures-guard _ _ λ _. Ensures-bind (
            Ensures-gets _ (
              Ensures-then (
                Ensures-guard _ _ λ q. Ensures-then (
                  Ensures-guard _ _ λ _. Ensures-write _ (swap_writes p x s home) (
                    audit-Change _ _ _ _ _ _ (activated_pack p.actor_id x) (
                      deploy x mf p.actor_id m (has_products mf v)
                        (λ prod.
                          subst (λ t. all_qualified t mf s ≡ true) (sym home) (implied _ _ q prod))
                        refl refl refl))))))))
