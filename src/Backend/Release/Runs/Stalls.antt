-- ===== src/Backend/Release/Runs/Stalls.antt =====
-- What production asks before a pack is activated: qualified models, and so an active pack before the
-- first one.
use vision_qc.Prelude.{
  String, Bool, true, false, ◌&&◌, List, [], ◌∷◌, ◌≡◌, ◌≢◌, refl, sym, subst, All, All-snoc,
  All-member, Member, any_of, all_of, str_eq, eq_iff, Bool-cases, inl, inr, arith,
}
use vision_qc.Backend.Packs.{ProductDefinition, DeploymentManifest}
use vision_qc.Backend.Release.Tables.{ModelQualification, DeploymentPack, Registry, is_active_pack}
use vision_qc.Backend.Release.Deployments.{all_qualified, qualifies}
use vision_qc.Backend.Release.Lifecycle.{
  Change, file, register, decide, promote, propose, deploy, IsReleased, is_live,
}
use vision_qc.Backend.Release.Lifecycle.Updates.{
  All-update_at, promoted-All, switched-All, Move-not_live,
}
use vision_qc.Backend.Release.Runs.{Step-Change, Reach, here, next, Reach-keeps}

pub any_of-Member :
    {A : Type 0} (p : A → Bool) (xs : List A)
    → any_of p xs ≡ true
    → (a : A) × Member a xs × (p a ≡ true)
any_of-Member p [] h = cc
any_of-Member p (x ∷ xs) h = elim (Bool-cases (p x)) [
  | inl e ↦ (x, inl refl, e)
  | inr e ↦ let (a, m, k) = any_of-Member p xs (ground (arith, e, h)) in (a, inr m, k)
]

-- The tenant has no active pack and no active qualification.
pub record IsIdle (tenant : String) (s : Registry) : Type 0 where
  pub packs : All (λ x. is_active_pack tenant x ≡ false) s.packs
  pub qualifications : All (λ q. (str_eq q.tenant_id tenant && is_live q) ≡ false) s.qualifications

idle :
    {tenant : String} {s : Registry} {qs : List ModelQualification} {ps : List DeploymentPack}
    → s.qualifications ≡ qs
    → s.packs ≡ ps
    → All (λ x. is_active_pack tenant x ≡ false) ps
    → All (λ q. (str_eq q.tenant_id tenant && is_live q) ≡ false) qs
    → IsIdle tenant s
idle {tenant} eq ep hp hq = record {
  packs = subst (All (λ x. is_active_pack tenant x ≡ false)) (sym ep) hp;
  qualifications = subst (All (λ q. (str_eq q.tenant_id tenant && is_live q) ≡ false)) (sym eq) hq;
}

-- An active pack, or a qualification that qualifies a product, is of another tenant.
not_idle :
    (tenant : String) (s : Registry) (m : DeploymentManifest)
    → IsIdle tenant s
    → m.products ≢ []
    → all_qualified tenant m s ≡ true
    → ⊥
not_idle tenant s m i ne q = first m.products ne q
  where
    first :
        (ps : List ProductDefinition)
        → ps ≢ []
        → all_of (λ product. any_of (qualifies tenant m product) s.qualifications) ps ≡ true
        → ⊥
    first [] n h = n refl
    first (p ∷ ps) n h =
        let (a, k, e) = any_of-Member (qualifies tenant m p) s.qualifications (ground (arith, h)) in
        ground (arith, e, All-member _ a s.qualifications i.qualifications k)

Change-IsIdle :
    {tenant : String} {s s' : Registry}
    → IsReleased s
    → Change true s s'
    → IsIdle tenant s
    → IsIdle tenant s'
Change-IsIdle v (file eq ep en) i = idle eq ep i.packs i.qualifications
Change-IsIdle {s = s} v (register q d _ eq ep en) i =
    idle eq ep i.packs (All-snoc _ s.qualifications q i.qualifications (ground (arith, d)))
Change-IsIdle {s = s} v (decide q f m mv eq ep en) i = idle eq ep i.packs (
    All-update_at (λ q. q.id) _ f q s.qualifications v.ascending m
      (λ _. ground (arith, Move-not_live mv q)) i.qualifications)
Change-IsIdle {tenant} {s = s} v (promote q actor m p eq ep en) i = idle eq ep i.packs (
    promoted-All actor q s.qualifications v.ascending m
      (λ a. (str_eq a.tenant_id tenant && is_live a) ≡ false) (λ a _ _. ground arith)
      (λ _. elim (Bool-cases (str_eq q.tenant_id tenant)) [
        | inr e ↦ ground (arith, e)
        | inl e ↦ absurd (
            ground (
              arith,
              All-member _ p.pack s.packs i.packs p.pack_stands,
              p.pack_active,
              (eq_iff q.tenant_id tenant).0 e,
            ))
      ])
      i.qualifications)
Change-IsIdle {s = s} v (propose x d _ eq ep en) i =
    idle eq ep (All-snoc _ s.packs x i.packs (ground (arith, d))) i.qualifications
Change-IsIdle {tenant} {s = s} v (deploy x m actor k ne q eq ep en) i =
    idle eq ep
      (switched-All actor x s.packs v.packs_ascending k (λ a. is_active_pack tenant a ≡ false)
        (λ a _. ground arith)
        (λ _. elim (Bool-cases (str_eq x.tenant_id tenant)) [
          | inr e ↦ ground (arith, e)
          | inl e ↦ absurd (
              not_idle tenant s m i ne (
                subst (λ t. all_qualified t m s ≡ true) ((eq_iff x.tenant_id tenant).0 e) (q refl)))
        ])
        i.packs)
      i.qualifications

IsIdle-stays :
    {tenant : String} {s t : Registry}
    → IsReleased s
    → IsIdle tenant s
    → Reach true s t
    → IsIdle tenant t
IsIdle-stays v i here = i
IsIdle-stays v i (next r step) =
    Change-IsIdle (Reach-keeps v r) (Step-Change step) (IsIdle-stays v i r)

-- In production a tenant without an active pack and without an active qualification never gets either,
-- whatever calls run and whoever makes them: a pack waits for an active qualification of its model, and
-- the activation of a qualification waits for an active pack with that model.
pub no_first_pack :
    {tenant : String} {s t : Registry}
    → IsReleased s
    → IsIdle tenant s
    → Reach true s t
    → All (λ x. is_active_pack tenant x ≡ false) t.packs
      × All (λ q. (str_eq q.tenant_id tenant && is_live q) ≡ false) t.qualifications
no_first_pack v i r = let j = IsIdle-stays v i r in (j.packs, j.qualifications)
