-- ===== src/Backend/Release/Lifecycle/Keeps.antt =====
-- Every step of the release machine keeps its invariant.
use vision_qc.Prelude.{ℕ, suc, ◌<◌, String, Bool, List, ◌≡◌, refl, sym, subst, All, All-snoc, arith}
use vision_qc.Backend.Release.Tables.{active, ModelQualification, DeploymentPack, Registry}
use vision_qc.Backend.Release.Decisions.{with_activation}
use vision_qc.Backend.Release.Rows.{
  Ascending, Below, OneActive, Ascending-update_where, Below-update_where, Ascending-snoc,
  Below-imp, OneActive-update_where, OneActive-snoc,
}
use vision_qc.Backend.Release.Lifecycle.{
  key_of, is_live, pack_is_live, Promotion, Change, file, register, decide, promote, propose,
  deploy, Vouched, IsReleased, Move-Vouched,
}
use vision_qc.Backend.Release.Lifecycle.Updates.{
  All-update_at, Move-id, Move-not_live, live_iff, live-active, reviewed, live, promoted-Ascending,
  promoted-OneActive, promoted-All, packs-Ascending, packs-OneActive, switched-All,
}

-- The invariant, of the columns that it is about.
IsReleasedOf : List ModelQualification → List DeploymentPack → ℕ → Type 0
IsReleasedOf qs ps n =
    Ascending (λ q. q.id) qs
    × Below (λ q. q.id) n qs
    × All (λ q. Vouched q.status q) qs
    × OneActive (λ q. q.id) is_live (λ a b. key_of a ≡ key_of b) qs
    × Ascending (λ x. x.id) ps
    × Below (λ x. x.id) n ps
    × OneActive (λ x. x.id) pack_is_live (λ a b. a.tenant_id ≡ b.tenant_id) ps

released :
    {s : Registry} {qs : List ModelQualification} {ps : List DeploymentPack} {n : ℕ}
    → s.qualifications ≡ qs
    → s.packs ≡ ps
    → s.next_id ≡ n
    → IsReleasedOf qs ps n
    → IsReleased s
unfolding IsReleasedOf
released {s} {qs} {ps} {n} eq ep en h =
    let t : IsReleasedOf s.qualifications s.packs s.next_id =
      subst (λ z. IsReleasedOf z s.packs s.next_id) (sym eq)
        (subst (λ z. IsReleasedOf qs z s.next_id) (sym ep)
          (subst (λ z. IsReleasedOf qs ps z) (sym en) h)) in
    let (a, b, c, d, e, f, g) = t in
    record {
      ascending = a;
      below = b;
      vouched = c;
      one_active = d;
      packs_ascending = e;
      packs_below = f;
      one_pack = g;
    }

promoted_vouch :
    {s : Registry} {actor : String} {q : ModelQualification}
    → Promotion s actor q
    → Vouched q.status q
    → Vouched active (with_activation actor q)
promoted_vouch {actor = actor} {q} p v =
    (reviewed q p.stage v, (actor, refl, p.evaluator, p.approver))

-- A step of the machine keeps the invariant.
pub Change-IsReleased :
    {production : Bool} {s s' : Registry} → Change production s s' → IsReleased s → IsReleased s'
unfolding IsReleasedOf live
Change-IsReleased (file eq ep en) v =
    released eq ep en
      (v.ascending, v.below, v.vouched, v.one_active, v.packs_ascending, v.packs_below, v.one_pack)
Change-IsReleased {s = s} (register q d i eq ep en) v = released eq ep en (
  Ascending-snoc (λ q. q.id) s.qualifications q v.ascending
      (subst (λ n. Below (λ q. q.id) n s.qualifications) (sym i) v.below),
  All-snoc _ (s.qualifications) q
      (Below-imp (λ q. q.id) s.next_id (suc s.next_id) s.qualifications (omega arith) v.below)
      (omega (arith, i)),
  All-snoc _ s.qualifications q v.vouched (subst (λ x. Vouched x q) (sym d) tt),
  OneActive-snoc (λ q. q.id) is_live _ s.qualifications q (rw d refl) v.one_active,
  v.packs_ascending,
  Below-imp (λ x. x.id) s.next_id (suc s.next_id) s.packs (omega arith) v.packs_below,
  v.one_pack,
)
Change-IsReleased {s = s} (decide q f m mv eq ep en) v = released eq ep en (
  Ascending-update_where (λ q. q.id) _ f (Move-id mv) s.qualifications v.ascending,
  Below-update_where (λ q. q.id) _ f (Move-id mv) s.next_id s.qualifications v.below,
  All-update_at (λ q. q.id) _ f q s.qualifications v.ascending m (Move-Vouched mv) v.vouched,
  OneActive-update_where (λ q. q.id) is_live _ q.id f s.qualifications (Move-not_live mv)
      v.one_active,
  v.packs_ascending,
  v.packs_below,
  v.one_pack,
)
Change-IsReleased {s = s} (promote q actor m p eq ep en) v = released eq ep en (
  promoted-Ascending actor q s.qualifications v.ascending m,
  promoted-All actor q s.qualifications v.ascending m (λ a. a.id < s.next_id) (λ a _ l. l) (λ l. l)
      v.below,
  promoted-All actor q s.qualifications v.ascending m (λ a. Vouched a.status a)
      (λ a l w. (subst (λ x. Vouched x a) (live-active a (live_iff q a l).1) w).0)
      (promoted_vouch p) v.vouched,
  promoted-OneActive actor q s.qualifications v.ascending m v.one_active,
  v.packs_ascending,
  v.packs_below,
  v.one_pack,
)
Change-IsReleased {s = s} (propose x d i eq ep en) v = released eq ep en (
  v.ascending,
  Below-imp (λ q. q.id) s.next_id (suc s.next_id) s.qualifications (omega arith) v.below,
  v.vouched,
  v.one_active,
  Ascending-snoc (λ x. x.id) s.packs x v.packs_ascending
      (subst (λ n. Below (λ x. x.id) n s.packs) (sym i) v.packs_below),
  All-snoc _ s.packs x
      (Below-imp (λ x. x.id) s.next_id (suc s.next_id) s.packs (omega arith) v.packs_below)
      (omega (arith, i)),
  OneActive-snoc (λ x. x.id) pack_is_live _ s.packs x (rw d refl) v.one_pack,
)
Change-IsReleased {s = s} (deploy x mf actor m ne g eq ep en) v = released eq ep en (
  v.ascending,
  v.below,
  v.vouched,
  v.one_active,
  packs-Ascending actor x s.packs v.packs_ascending m,
  switched-All actor x s.packs v.packs_ascending m (λ a. a.id < s.next_id) (λ a l. l) (λ l. l)
      v.packs_below,
  packs-OneActive actor x s.packs v.packs_ascending m v.one_pack,
)
