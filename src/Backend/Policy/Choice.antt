-- ===== src/Backend/Policy/Choice.antt =====
-- Which override `PolicyConfig.resolve` chooses.
use vision_qc.Prelude.{
  ◌≤◌, String, Option, none, some, true, false, List, [], ◌∷◌, ◌≡◌, refl, sym, subst, ◌∙◌, ◌⊎◌, inl,
  inr, All, All-imp, All-member, All-of_Member, All-sort_by, All-keep_if, Member, Member-sort_by,
  Member-keep_if, Pairwise, Pairwise-keep_if, Pairwise-sort_by, IsOrder, IsSorted-sort_by, keep_if,
  sort_by, Bool-cases, eq_iff, eq_refl, ==→eq, ◌==◌, is_some, arith,
}
use vision_qc.Backend.Policy.{
  ThresholdRule, PolicyConfig, specificity, selects, applies, rule, more_specific, pick, resolve,
}
use vision_qc.Backend.Policy.Rules.{IsOrdered, SameSelector, IsAccepted}

more_specific-IsOrder : IsOrder more_specific
more_specific-IsOrder = record {
  irrefl = λ a. ground arith;
  asym = λ a b h. ground arith;
  trans = λ a b c h k. ground arith;
}

-- The overrides that apply, the most specific first.
abbrev ranked : String → String → PolicyConfig → List ThresholdRule
ranked p s c = sort_by more_specific (keep_if (applies p s) c.overrides)

module _ (p s : String) (c : PolicyConfig) where
  ranked-applies : All (λ r. Member r c.overrides × (applies p s r ≡ true)) (ranked p s c)
  ranked-applies = All-sort_by more_specific _ _ (All-keep_if (applies p s) c.overrides)

  ranked-Member :
      (r : ThresholdRule) → Member r c.overrides → applies p s r ≡ true → Member r (ranked p s c)
  ranked-Member r m h = Member-sort_by more_specific r _ (Member-keep_if (applies p s) r _ h m)

  ranked_sorted : Pairwise (λ a b. specificity b ≤ specificity a) (ranked p s c)
  ranked_sorted =
      weaken _
        (IsSorted-sort_by more_specific more_specific-IsOrder (keep_if (applies p s) c.overrides))
    where
      weaken :
          (l : List ThresholdRule)
          → Pairwise (λ a b. more_specific b a ≡ false) l
          → Pairwise (λ a b. specificity b ≤ specificity a) l
      weaken [] h = tt
      weaken (x ∷ l) h = (All-imp _ _ l (λ b k. ground (arith, k)) h.0, weaken l h.1)

  ranked_distinct :
      Pairwise (λ a b. ¬ SameSelector a b) c.overrides
      → Pairwise (λ a b. ¬ SameSelector a b) (ranked p s c)
  ranked_distinct h =
      Pairwise-sort_by more_specific _ (λ a b k same. k (sym same.0, sym same.1)) _
        (Pairwise-keep_if _ (applies p s) c.overrides h)

pick_rule :
    (d : ThresholdRule) (l : List ThresholdRule) {r : ThresholdRule}
    → Pairwise (λ a b. specificity b ≤ specificity a) l
    → pick d l ≡ rule r
    → ((l ≡ []) × (r ≡ d)) ⊎ (Member r l × All (λ b. specificity b ≤ specificity r) l)
pick_rule d [] h e = inl (refl, ground (arith, e))
pick_rule d (a ∷ []) {r} h e =
    let same : a ≡ r = ground (arith, e) in inr (inl (sym same), (ground (arith, same), tt))
pick_rule d (a ∷ b ∷ l) {r} h e =
    let same : a ≡ r = ground (arith, e) in
    inr (
      inl (sym same),
      subst (λ x. All (λ b. specificity b ≤ specificity x) (a ∷ b ∷ l)) same (omega arith, h.0),
    )

-- The rule that an accepted policy resolves to has ordered thresholds. It is an override that applies
-- to the product and the station, and no override that applies is more specific; or no override
-- applies, and it is the default.
pub resolve_lem :
    (p s : String) (c : PolicyConfig) {r : ThresholdRule}
    → IsAccepted c
    → resolve p s c ≡ rule r
    → IsOrdered r
      × ((Member r c.overrides
            × (applies p s r ≡ true)
            × All (λ b. applies p s b ≡ true → specificity b ≤ specificity r) c.overrides)
          ⊎ ((r ≡ c.default) × All (λ b. applies p s b ≡ false) c.overrides))
unfolding resolve
resolve_lem p s c {r} v e = elim (pick_rule c.default (ranked p s c) (ranked_sorted p s c) e) [
  | inl (nil, same) ↦ (
    subst IsOrdered (sym same) v.default_ordered,
    inr (
      same,
      All-of_Member _ c.overrides (λ b m. elim (Bool-cases (applies p s b)) [
        | inr h ↦ h
        | inl h ↦ absurd (subst (Member b) nil (ranked-Member p s c b m h))
      ]),
    ),
  )
  | inr (m, top) ↦
      let (old, hit) = All-member _ r (ranked p s c) (ranked-applies p s c) m in
      (
        All-member _ r c.overrides v.ordered old,
        inl (
          old,
          hit,
          All-of_Member _ c.overrides
              (λ b k h. All-member _ b (ranked p s c) top (ranked-Member p s c b k h)),
        ),
      )
]

selected : (o : Option String) (v : String) → selects o v ≡ true → is_some o ≡ true → o ≡ some v
selected none v h k = cc
selected (some w) v h k = ground (arith, h, eq_iff w v)

-- A rule that names both the product and the station names those that it applies to.
full_selects :
    (p s : String) (a : ThresholdRule)
    → applies p s a ≡ true
    → 2 ≤ specificity a
    → (a.product_code ≡ some p) × (a.station_code ≡ some s)
full_selects p s a h k = (
  selected a.product_code p (ground (arith, h)) (ground (arith, k)),
  selected a.station_code s (ground (arith, h)) (ground (arith, k)),
)

full_same :
    (p s : String) (a b : ThresholdRule)
    → applies p s a ≡ true
    → applies p s b ≡ true
    → 2 ≤ specificity a
    → 2 ≤ specificity b
    → SameSelector a b
full_same p s a b ha hb ka kb =
    let (pa, sa) = full_selects p s a ha ka in
    let (pb, sb) = full_selects p s b hb kb in (pa ∙ sym pb, sa ∙ sym sb)

module _ (p s : String) (d r : ThresholdRule) where
  pick_full :
      (l : List ThresholdRule)
      → All (λ a. applies p s a ≡ true) l
      → Pairwise (λ a b. specificity b ≤ specificity a) l
      → Pairwise (λ a b. ¬ SameSelector a b) l
      → 2 ≤ specificity r
      → Member r l
      → pick d l ≡ rule r
  pick_full [] h o u k m = absurd m
  pick_full (a ∷ []) h o u k (inl e) = rw e
  pick_full (a ∷ []) h o u k (inr m) = absurd m
  pick_full (a ∷ b ∷ l) h o u k m =
      let top : specificity r ≤ specificity a = head_top m in
      let apart : (specificity a == specificity b) ≡ false =
        elim (Bool-cases (specificity a == specificity b)) [
          | inr e ↦ e
          | inl e ↦
              let tie : specificity a ≡ specificity b = ==→eq _ _ e in
              absurd (u.0.0 (full_same p s a b h.0 h.1.0 (omega arith) (omega arith)))
        ] in
      elim m [
        | inl e ↦ ground (arith, apart, e)
        | inr t ↦ absurd (
            All-member _ r (b ∷ l) u.0 t
              (full_same p s a r h.0 (All-member _ r (b ∷ l) h.1 t) (omega arith) k))
      ]
    where
      head_top : Member r (a ∷ b ∷ l) → specificity r ≤ specificity a
      head_top (inl e) = ground (arith, e)
      head_top (inr t) = All-member _ r (b ∷ l) o.0 t

-- In an accepted policy an override that names exactly this product and this station decides, and no
-- ambiguity is reported.
pub exact_rule_wins :
    (p s : String) (c : PolicyConfig) (r : ThresholdRule)
    → IsAccepted c
    → Member r c.overrides
    → r.product_code ≡ some p
    → r.station_code ≡ some s
    → resolve p s c ≡ rule r
unfolding resolve
exact_rule_wins p s c r v m ep es =
    pick_full p s c.default r (ranked p s c)
      (All-imp _ _ (ranked p s c) (λ a h. h.1) (ranked-applies p s c)) (ranked_sorted p s c)
      (ranked_distinct p s c v.distinct) (ground (arith, ep, es))
      (ranked-Member p s c r m (ground (arith, ep, es, eq_refl p, eq_refl s)))
