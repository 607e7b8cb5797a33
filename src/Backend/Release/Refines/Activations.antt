-- ===== src/Backend/Release/Refines/Activations.antt =====
-- Activation and rollback of a qualification are steps of the release machine.
use vision_qc.Prelude.{
  ℕ, String, Option, none, some, Bool, true, false, ◌||◌, not, List, ◌==◌, ◌≡◌, ◌≢◌, refl, sym, ap,
  ◌∙◌, subst, ◌⊎◌, inl, inr, Member, find_first, update_where, arith,
}
use vision_qc.Backend.Calls.{crash, pure, on_option, branch, guard, ◌>>◌}
use vision_qc.Backend.Calls.Ensuring.{
  Ensures, ensures, Ensures-pure, Ensures-gets, Ensures-guard, Ensures-bind, Ensures-then,
  Ensures-imp, Ensures-branch,
}
use vision_qc.Backend.Calls.Ensuring.Reading.{
  Ensures-read, Ensures-read_then, Ensures-write, Ensures-still, Ensures-skip,
}
use vision_qc.Backend.Workflow.Tables.{Principal}
use vision_qc.Backend.Release.Tables.{
  approved, retired, ModelQualification, DeploymentPack, Registry, Dataset, is_active_for,
  is_active_pack, edit_qualification,
}
use vision_qc.Backend.Release.Qualifications.{Desk, is_consented}
use vision_qc.Backend.Release.Decisions.{
  activate_qualification, rollback_qualification, record_decision, swap_active, with_activation,
  with_stage, is_distinct,
}
use vision_qc.Backend.Release.Rows.{at_id}
use vision_qc.Backend.Release.Switching.{retire_current, retire_none, retire_self, retire_other}
use vision_qc.Backend.Release.Lifecycle.{promoted_rows, Change, promote}
use vision_qc.Backend.Release.Refines.{
  Steps, find-reads, active-reads, manifest-Still, dataset-reads, audit-Change, evidence-Still,
  stage_lem, opt_differs, DatasetFound,
}

with_rows : Registry → List ModelQualification → Registry
with_rows s rows = record s { qualifications = rows }

module _ (desk : Desk) (p : Principal) (q : ModelQualification) (s : Registry) where
  live : ModelQualification → Bool
  live = is_active_for p.tenant_id q.product_code

  left : List ModelQualification
  left = retire_current (λ r. r.id) live (with_stage retired) q.id s.qualifications

  retirement_writes :
      (o : Option ModelQualification)
      → find_first live s.qualifications ≡ o
      → Ensures s
          (on_option o (pure tt) λ c. branch (c.id == q.id) (pure tt) (
            guard (desk.updates_before c.id q.id) crash
            >> edit_qualification c.id (with_stage retired)))
          (λ _ s'. s' ≡ with_rows s left)
  unfolding on_option left live with_rows edit_qualification
  retirement_writes none e = Ensures-pure tt (
      ap (with_rows s)
        (sym (retire_none (λ r. r.id) live (with_stage retired) q.id s.qualifications e)))
  retirement_writes (some c) e =
      Ensures-branch (c.id == q.id)
        (λ same. Ensures-pure tt (
          ap (with_rows s)
            (sym (retire_self (λ r. r.id) live (with_stage retired) q.id s.qualifications e same))))
        (λ other. Ensures-then (
          Ensures-guard _ _ λ _. ensures (
            ap (with_rows s) (
              sym (
                retire_other (λ r. r.id) live (with_stage retired) q.id s.qualifications e
                  other)))))

  activated : List ModelQualification → List ModelQualification
  activated = update_where (at_id (λ r. r.id) q.id) (with_activation p.actor_id)

  retired_rows : String → List ModelQualification
  retired_rows tenant =
      retire_current (λ r. r.id) (is_active_for tenant q.product_code) (with_stage retired) q.id
        s.qualifications

  swap_writes :
      q.tenant_id ≡ p.tenant_id
      → Ensures s
          (swap_active desk p q)
          (λ _ s'. s' ≡ with_rows s (promoted_rows p.actor_id q s.qualifications))
  unfolding swap_active edit_qualification left live with_rows activated retired_rows
  swap_writes e = Ensures-bind (
      Ensures-gets _ (
        Ensures-then (
          Ensures-imp (retirement_writes _ refl) λ _ s' h. ensures (
            ap (λ (t : Registry). with_rows t (activated t.qualifications)) h
            ∙ ap (with_rows s) (ap (λ t. activated (retired_rows t)) (sym e))))))

distinct :
    (p : Principal) (q : ModelQualification)
    → is_distinct p q ≡ true
    → (q.evaluated_by ≢ some p.actor_id) × (q.approved_by ≢ some p.actor_id)
distinct p q h = (opt_differs _ _ (neither _ _ h).0, opt_differs _ _ (neither _ _ h).1)
  where
    neither : (a b : Bool) → not (a || b) ≡ true → (a ≡ false) × (b ≡ false)
    neither a b h = (ground arith, ground arith)

-- The end of an activation, once everything is checked.
promote-Change :
    {production : Bool} (desk : Desk) (p : Principal) (q : ModelQualification)
    (action correlation : String) (s : Registry) (x : DeploymentPack) (d : Dataset)
    → Member q s.qualifications
    → q.tenant_id ≡ p.tenant_id
    → (q.status ≡ approved) ⊎ (q.status ≡ retired)
    → is_distinct p q ≡ true
    → Member x s.packs
    → is_active_pack p.tenant_id x ≡ true
    → DatasetFound s p q d
    → Ensures s
        (swap_active desk p q
          >> (record_decision p action q correlation >> pure (with_activation p.actor_id q)))
        (λ _ s'. Change production s s')
unfolding with_rows
promote-Change {production} desk p q action correlation s x d m home stage who mx ax
      (md, vd, cd, pilot) =
    Ensures-write _ (swap_writes desk p q s home) (
      audit-Change _ _ _ _ _ _ _ (
        promote q p.actor_id m
          (record {
            stage = stage;
            evaluator = (distinct p q who).0;
            approver = (distinct p q who).1;
            pilot = pilot;
            pack = x;
            pack_stands = mx;
            pack_active = subst (λ t. is_active_pack t x ≡ true) (sym home) ax;
            dataset = d;
            dataset_stands = md;
            dataset_valid = vd;
            consented = subst (λ t. is_consented t d ≡ true) (sym home) cd;
          })
          refl refl refl))

pub activate_qualification-Change :
    (production : Bool) (desk : Desk) (p : Principal) (i : ℕ) (correlation : String)
    → Steps production (activate_qualification desk p i correlation)
unfolding activate_qualification
activate_qualification-Change production desk p i correlation s =
    Ensures-read _ (find-reads i p.tenant_id s) λ q (m, home). Ensures-then (
      Ensures-guard _ _ λ stage. Ensures-then (
        Ensures-guard _ _ λ who. Ensures-read _ (active-reads p.tenant_id s) λ x (mx, ax).
          Ensures-still (manifest-Still x) λ mf. Ensures-then (
            Ensures-guard _ _ λ _. Ensures-then (
              Ensures-guard _ _ λ _. Ensures-read_then _ (dataset-reads p q s) λ d found.
                Ensures-skip (evidence-Still desk.digest desk.package_at q true) (
                  promote-Change desk p q "model_qualification.activated" correlation s x d m home
                    (inl (stage_lem _ _ stage)) who mx ax found)))))

pub rollback_qualification-Change :
    (production : Bool) (desk : Desk) (p : Principal) (i : ℕ) (correlation : String)
    → Steps production (rollback_qualification desk p i correlation)
unfolding rollback_qualification
rollback_qualification-Change production desk p i correlation s =
    Ensures-read _ (find-reads i p.tenant_id s) λ q (m, home). Ensures-then (
      Ensures-guard _ _ λ stage. Ensures-then (
        Ensures-guard _ _ λ who. Ensures-read _ (active-reads p.tenant_id s) λ x (mx, ax).
          Ensures-still (manifest-Still x) λ mf. Ensures-then (
            Ensures-guard _ _ λ _. Ensures-read_then _ (dataset-reads p q s) λ d found.
              Ensures-skip (evidence-Still desk.digest desk.package_at q true) (
                promote-Change desk p q "model_qualification.rollback" correlation s x d m home
                  (inr (stage_lem _ _ stage)) who mx ax found))))
