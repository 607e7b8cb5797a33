-- ===== src/Backend/Release/Datasets/Revoked.antt =====
-- What the revocation of a dataset does to the qualifications that rest on it.
use vision_qc.Prelude.{
  ℕ, String, Bool, true, some, ◌&&◌, ◌==◌, ◌≡◌, ◌≢◌, ◌⊎◌, sym, ap, ◌∙◌, Member, find_first-some,
  ==→eq, refl, inl, inr, arith,
}
use vision_qc.Backend.Calls.{Call, Result-cases, ok, pure, ◌>>◌}
use vision_qc.Backend.Calls.Ensuring.{
  Ensures, ensures, Ensures-ok, Ensures-gets, Ensures-or_raise, Ensures-guard, Ensures-bind,
  Ensures-then, Ensures-pure,
}
use vision_qc.Backend.Calls.Ensuring.Reading.{
  Ensures-read, Ensures-read_then, Ensures-still, Ensures-skip, Still-guard,
}
use vision_qc.Backend.Workflow.Tables.{Principal}
use vision_qc.Backend.Release.Tables.{
  validated, revoked, dataset_status_eq, Dataset, ModelQualification, Registry, is_dataset,
}
use vision_qc.Backend.Release.Qualifications.{Desk, require_activation_dataset}
use vision_qc.Backend.Release.Decisions.{
  activate_qualification, rollback_qualification, swap_active, record_decision, with_activation,
}
use vision_qc.Backend.Release.Datasets.Runs.{
  IsLicensed, Reach, Reach-IsLicensed, Reach-Follows, kept, stopped, same_row,
}
use vision_qc.Backend.Release.Refines.{find-reads, active-reads, manifest-Still, evidence-Still}

-- The dataset that a qualification names, in force.
abbrev InForce : Registry → ModelQualification → Dataset → Type 0
InForce s q d =
    Member d s.datasets
    × (dataset_status_eq d.status validated ≡ true)
    × (q.dataset_registration_id ≡ some d.id)

force-reads :
    (p : Principal) (q : ModelQualification) (s : Registry)
    → Ensures s (require_activation_dataset p q) (λ d s'. (s' ≡ s) × InForce s q d)
unfolding require_activation_dataset
force-reads p q s = Ensures-then (
    Ensures-guard _ _ λ _. Ensures-bind (
      Ensures-or_raise _ _ λ k named. Ensures-bind (
        Ensures-gets _ (
          Ensures-bind (
            Ensures-or_raise _ _ λ d found. Ensures-then (
              Ensures-guard _ _ λ current. Ensures-then (
                Ensures-guard _ _ λ _.
                  let (m, is) = find_first-some (is_dataset k p.tenant_id) s.datasets found in
                  Ensures-pure d (
                    refl,
                    (m, middle _ _ _ current, named ∙ ap some (sym (==→eq d.id k (left _ _ is)))),
                  ))))))))
  where
    left : (a b : Bool) → a && b ≡ true → a ≡ true
    left a b h = ground arith

    middle : (a b c : Bool) → a && (b && c) ≡ true → b ≡ true
    middle a b c h = ground arith

-- What holds of the answer on any tables holds after any call.
after :
    {A B : Type 0} {s : Registry} {n : Call Registry B} {Q : B → Registry → Type 0}
    (m : Call Registry A)
    → ((s' : Registry) → Ensures s' n Q)
    → Ensures s (m >> n) Q
after {s = s} m k = Ensures-then (elim (Result-cases (m s)) [
  | inl ((a, s'), h) ↦ ensures (rw h (k s'))
  | inr (e, h) ↦ ensures (rw h tt)
])

abbrev Rests : Registry → ModelQualification → Type 0
Rests s q = (d : Dataset) × InForce s q d

activated :
    (desk : Desk) (p : Principal) (q : ModelQualification) (action c : String) (s : Registry)
    → Rests s q
    → Ensures s
        (swap_active desk p q
          >> (record_decision p action q c >> pure (with_activation p.actor_id q)))
        (λ q' _. Rests s q')
activated desk p q action c s h =
    after (swap_active desk p q) λ t. after (record_decision p action q c) λ u. Ensures-pure _ h

out_of_force :
    {s t : Registry} (q : ModelQualification) (d : Dataset)
    → IsLicensed s.datasets
    → Member d s.datasets
    → dataset_status_eq d.status revoked ≡ true
    → Reach s t
    → Rests t q
    → q.dataset_registration_id ≢ some d.id
out_of_force {t = t} q d v m is r (a, (ma, valid, named)) e =
    let (b, mb, follows) = Reach-Follows v r d m in
    let same : a.id ≡ d.id = cc (named, e) in
    elim follows [
      | stopped actor h k ↦ cc (is, h)
      | kept k ↦
          let one =
            same_row t.datasets (Reach-IsLicensed v r).distinct a b ma mb
              (same_id a.id b.id (same ∙ ap (λ (x : Dataset). x.id) (sym k))) in
          revoked_invalid a
            (ap (λ (x : Dataset). dataset_status_eq x.status revoked) (one ∙ k) ∙ is) valid
    ]
  where
    same_id : (i j : ℕ) → i ≡ j → (i == j) ≡ true
    same_id i j h = ground (arith, h)

    revoked_invalid :
        (x : Dataset)
        → dataset_status_eq x.status revoked ≡ true
        → dataset_status_eq x.status validated ≢ true
    revoked_invalid x h k = ground (arith, h, k)

activate-Rests :
    (desk : Desk) (p : Principal) (i : ℕ) (c : String) (s : Registry)
    → Ensures s (activate_qualification desk p i c) (λ q _. Rests s q)
unfolding activate_qualification
activate-Rests desk p i c s = Ensures-read _ (find-reads i p.tenant_id s) λ q _.
    Ensures-skip (Still-guard _ _) (
      Ensures-skip (Still-guard _ _) (
        Ensures-read _ (active-reads p.tenant_id s) λ x _. Ensures-still (manifest-Still x) λ mf.
          Ensures-skip (Still-guard _ _) (
            Ensures-skip (Still-guard _ _) (
              Ensures-read_then _ (force-reads p q s) λ d found.
                Ensures-skip (evidence-Still desk.digest desk.package_at q true)
                  (activated desk p q "model_qualification.activated" c s (d, found))))))

rollback-Rests :
    (desk : Desk) (p : Principal) (i : ℕ) (c : String) (s : Registry)
    → Ensures s (rollback_qualification desk p i c) (λ q _. Rests s q)
unfolding rollback_qualification
rollback-Rests desk p i c s = Ensures-read _ (find-reads i p.tenant_id s) λ q _.
    Ensures-skip (Still-guard _ _) (
      Ensures-skip (Still-guard _ _) (
        Ensures-read _ (active-reads p.tenant_id s) λ x _. Ensures-still (manifest-Still x) λ mf.
          Ensures-skip (Still-guard _ _) (
            Ensures-read_then _ (force-reads p q s) λ d found.
              Ensures-skip (evidence-Still desk.digest desk.package_at q true)
                (activated desk p q "model_qualification.rollback" c s (d, found)))))

-- Once a dataset is revoked, whatever is registered and revoked after it: no activation and no rollback
-- answers with a qualification that names the dataset.
pub revoked_never_active :
    {s t u : Registry} (d : Dataset)
    → IsLicensed s.datasets
    → Member d s.datasets
    → dataset_status_eq d.status revoked ≡ true
    → Reach s t
    → (desk : Desk) (p : Principal) (i : ℕ) (c : String) (q : ModelQualification)
    → (activate_qualification desk p i c t ≡ ok (q, u))
      ⊎ (rollback_qualification desk p i c t ≡ ok (q, u))
    → q.dataset_registration_id ≢ some d.id
revoked_never_active {s} {t} d v m is r desk p i c q (inl e) named =
    out_of_force q d v m is r (Ensures-ok (activate-Rests desk p i c t) e) named
revoked_never_active {s} {t} d v m is r desk p i c q (inr e) named =
    out_of_force q d v m is r (Ensures-ok (rollback-Rests desk p i c t) e) named
