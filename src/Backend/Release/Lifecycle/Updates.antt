-- ===== src/Backend/Release/Lifecycle/Updates.antt =====
-- What the updates of the release machine keep, of the rows of its tables.
use vision_qc.Prelude.{
  ℕ, String, Bool, true, false, List, eq_iff, ◌≡◌, refl, sym, ap, ◌∙◌, subst, ◌⊎◌, inl, inr, All,
  All-member, All-of_Member, Member, update_where, Bool-cases, Option-cases, find_first,
  find_first-some, ==→eq, ◌==◌, Member-update_where_kept, arith,
}
use vision_qc.Backend.Release.Tables.{
  approved, active, retired, ModelQualification, pack_retired, DeploymentPack, is_active_for,
  is_active_pack,
}
use vision_qc.Backend.Release.Decisions.{with_stage, with_activation}
use vision_qc.Backend.Release.Deployments.{with_pack_status, activated_pack}
use vision_qc.Backend.Release.Rows.{Ascending, at_id, OneActive, Member-update_where, unique}
use vision_qc.Backend.Release.Switching.{
  retire_current, retire_none, retire_self, retire_other, switched-Ascending, retired-Ascending,
  switched-OneActive,
}
use vision_qc.Backend.Release.Lifecycle.{
  key_of, is_live, pack_is_live, Move, evaluation, approval, retirement, promoted_rows,
  switched_packs, Vouched, Reviewed,
}

-- An UPDATE of a row keeps what holds of all rows where it keeps it of that row.
pub All-update_at :
    {A : Type 0} (id : A → ℕ) (P : A → Type 0) (f : A → A) (q : A) (rows : List A)
    → Ascending id rows
    → Member q rows
    → (P q → P (f q))
    → All P rows
    → All P (update_where (at_id id (id q)) f rows)
All-update_at id P f q rows asc mq k h = All-of_Member P _ λ s m.
    let (r, mr, from) = Member-update_where (at_id id (id q)) f s rows m in
    elim from [
      | inl (hit, e) ↦
          let home : r ≡ q = unique id rows r q asc mr mq (==→eq (id r) (id q) hit) in
          subst P (sym (e ∙ ap f home)) (k (All-member P q rows h mq))
      | inr (_, e) ↦ subst P (sym e) (All-member P r rows h mr)
    ]

pub Move-id :
    {q : ModelQualification} {f : ModelQualification → ModelQualification}
    → Move q f
    → (a : ModelQualification) → (f a).id ≡ a.id
Move-id (evaluation actor e s) a = refl
Move-id (approval actor s d p) a = refl
Move-id (retirement s) a = refl

pub Move-not_live :
    {q : ModelQualification} {f : ModelQualification → ModelQualification}
    → Move q f
    → (a : ModelQualification) → is_live (f a) ≡ false
Move-not_live (evaluation actor e s) a = ground arith
Move-not_live (approval actor s d p) a = refl
Move-not_live (retirement s) a = refl

pub live_iff :
    (q a : ModelQualification)
    → is_active_for q.tenant_id q.product_code a ≡ true
    → (key_of a ≡ key_of q) × (is_live a ≡ true)
live_iff q a h = (
  ap2 (ground (arith, h, eq_iff a.tenant_id q.tenant_id))
      (ground (arith, h, eq_iff a.product_code q.product_code)),
  ground (arith, h),
)
  where
    ap2 : {s t u v : String} → s ≡ t → u ≡ v → Path (String × String) (s, u) (t, v)
    ap2 e e' = cc (e, e')

pub live_if :
    (q a : ModelQualification)
    → key_of a ≡ key_of q
    → is_live a ≡ true
    → is_active_for q.tenant_id q.product_code a ≡ true
live_if q a k l =
    let e : a.tenant_id ≡ q.tenant_id = ap (λ (p : String × String). p.0) k in
    let e' : a.product_code ≡ q.product_code = ap (λ (p : String × String). p.1) k in
    ground
      (arith, l, (eq_iff a.tenant_id q.tenant_id).1 e, (eq_iff a.product_code q.product_code).1 e')

-- The retirement of the current row keeps what holds of all rows.
pub All-retired :
    {A : Type 0} (id : A → ℕ) (P : A → Type 0) (live : A → Bool) (retire : A → A) (i : ℕ)
    (rows : List A)
    → Ascending id rows
    → ((a : A) → live a ≡ true → P a → P (retire a))
    → All P rows
    → All P (retire_current id live retire i rows)
All-retired id P live retire i rows asc k h = elim (Option-cases (find_first live rows)) [
  | inl n ↦ subst (All P) (sym (retire_none id live retire i rows n)) h
  | inr (c, n) ↦
      let (mc, lc) = find_first-some live rows n in
      elim (Bool-cases (id c == i)) [
        | inl e ↦ subst (All P) (sym (retire_self id live retire i rows n e)) h
        | inr e ↦
            subst (All P) (sym (retire_other id live retire i rows n e))
              (All-update_at id P retire c rows asc mc (k c lc) h)
      ]
]

-- It leaves the row that is switched to.
pub Member-retired :
    {A : Type 0} (id : A → ℕ) (live : A → Bool) (retire : A → A) (q : A) (rows : List A)
    → Member q rows
    → Member q (retire_current id live retire (id q) rows)
Member-retired id live retire q rows m = elim (Option-cases (find_first live rows)) [
  | inl n ↦ subst (Member q) (sym (retire_none id live retire (id q) rows n)) m
  | inr (c, n) ↦ elim (Bool-cases (id c == id q)) [
    | inl e ↦ subst (Member q) (sym (retire_self id live retire (id q) rows n e)) m
    | inr e ↦
        subst (Member q) (sym (retire_other id live retire (id q) rows n e))
          (Member-update_where_kept (at_id id (id c)) retire q rows (ground (arith, e)) m)
  ]
]

pub live-active : (a : ModelQualification) → is_live a ≡ true → a.status ≡ active
live-active a h = ground (arith, h)

pub reviewed :
    (q : ModelQualification)
    → (q.status ≡ approved) ⊎ (q.status ≡ retired)
    → Vouched q.status q
    → Reviewed q
reviewed q (inl s) v = subst (λ x. Vouched x q) s v
reviewed q (inr s) v = subst (λ x. Vouched x q) s v

module _ (actor : String) (q : ModelQualification) (rows : List ModelQualification)
    (asc : Ascending (λ a. a.id) rows) (m : Member q rows) where
  unfoldable pub live : ModelQualification → Bool
  live = is_active_for q.tenant_id q.product_code

  pub promoted-Ascending : Ascending (λ a. a.id) (promoted_rows actor q rows)
  unfolding live
  promoted-Ascending =
      switched-Ascending (λ a. a.id) is_live key_of live (with_stage retired)
        (with_activation actor) q (live_iff q) (live_if q) (λ a. refl) (λ a. refl) (λ a. refl)
        (λ a. refl) (λ a. refl) rows asc

  pub promoted-OneActive :
      OneActive (λ a. a.id) is_live (λ a b. key_of a ≡ key_of b) rows
      → OneActive (λ a. a.id) is_live (λ a b. key_of a ≡ key_of b) (promoted_rows actor q rows)
  unfolding live
  promoted-OneActive one =
      switched-OneActive (λ a. a.id) is_live key_of live (with_stage retired)
        (with_activation actor) q (live_iff q) (live_if q) (λ a. refl) (λ a. refl) (λ a. refl)
        (λ a. refl) (λ a. refl) rows asc one m

  pub promoted-All :
      (P : ModelQualification → Type 0)
      → ((a : ModelQualification) → live a ≡ true → P a → P (with_stage retired a))
      → (P q → P (with_activation actor q))
      → All P rows
      → All P (promoted_rows actor q rows)
  unfolding live
  promoted-All P k l h =
      All-update_at (λ a. a.id) P (with_activation actor) q _
        (retired-Ascending (λ a. a.id) is_live key_of live (with_stage retired)
          (with_activation actor) q (live_iff q) (live_if q) (λ a. refl) (λ a. refl) (λ a. refl)
          (λ a. refl) (λ a. refl) rows asc)
        (Member-retired (λ a. a.id) live (with_stage retired) q rows m) l
        (All-retired (λ a. a.id) P live (with_stage retired) q.id rows asc k h)

pub pack_live_iff :
    (x a : DeploymentPack)
    → is_active_pack x.tenant_id a ≡ true
    → (a.tenant_id ≡ x.tenant_id) × (pack_is_live a ≡ true)
pack_live_iff x a h = (ground (arith, h, eq_iff a.tenant_id x.tenant_id), ground (arith, h))

pub pack_live_if :
    (x a : DeploymentPack)
    → a.tenant_id ≡ x.tenant_id
    → pack_is_live a ≡ true
    → is_active_pack x.tenant_id a ≡ true
pack_live_if x a e l = ground (arith, l, (eq_iff a.tenant_id x.tenant_id).1 e)

module _ (actor : String) (x : DeploymentPack) (rows : List DeploymentPack)
    (asc : Ascending (λ a. a.id) rows) (m : Member x rows) where
  pub packs-Ascending : Ascending (λ a. a.id) (switched_packs actor x rows)
  packs-Ascending =
      switched-Ascending (λ a. a.id) pack_is_live (λ a. a.tenant_id) (is_active_pack x.tenant_id)
        (with_pack_status pack_retired) (activated_pack actor) x (pack_live_iff x) (pack_live_if x)
        (λ a. refl) (λ a. refl) (λ a. refl) (λ a. refl) (λ a. refl) rows asc

  pub packs-OneActive :
      OneActive (λ a. a.id) pack_is_live (λ a b. a.tenant_id ≡ b.tenant_id) rows
      → OneActive
          (λ a. a.id)
          pack_is_live
          (λ a b. a.tenant_id ≡ b.tenant_id)
          (switched_packs actor x rows)
  packs-OneActive one =
      switched-OneActive (λ a. a.id) pack_is_live (λ a. a.tenant_id) (is_active_pack x.tenant_id)
        (with_pack_status pack_retired) (activated_pack actor) x (pack_live_iff x) (pack_live_if x)
        (λ a. refl) (λ a. refl) (λ a. refl) (λ a. refl) (λ a. refl) rows asc one m

  pub switched-All :
      (P : DeploymentPack → Type 0)
      → ((a : DeploymentPack) → P a → P (with_pack_status pack_retired a))
      → (P x → P (activated_pack actor x))
      → All P rows
      → All P (switched_packs actor x rows)
  switched-All P k l h =
      All-update_at (λ a. a.id) P (activated_pack actor) x _
        (retired-Ascending (λ a. a.id) pack_is_live (λ a. a.tenant_id) (is_active_pack x.tenant_id)
          (with_pack_status pack_retired) (activated_pack actor) x (pack_live_iff x)
          (pack_live_if x) (λ a. refl) (λ a. refl) (λ a. refl) (λ a. refl) (λ a. refl) rows asc)
        (Member-retired (λ a. a.id) (is_active_pack x.tenant_id) (with_pack_status pack_retired) x
          rows m)
        l
        (All-retired (λ a. a.id) P (is_active_pack x.tenant_id) (with_pack_status pack_retired) x.id
          rows asc (λ a _ h. k a h) h)
