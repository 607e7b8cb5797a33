-- ===== src/Backend/Policy/Rules.antt =====
-- Which rule of an accepted policy decides for a product at a station.
use vision_qc.Prelude.{
  ◌≤◌, ◌<◌, String, Option, none, some, true, false, List, [], ◌∷◌, ◌≡◌, sym, All, All-imp,
  Pairwise, not, any_of, eq_refl, arith,
}
use vision_qc.Backend.Policy.{
  ThresholdRule, PolicyConfig, one, opt_eq, rule_ok, specificity, same_selector, check_overrides,
  validate_config,
}

-- What validation leaves of a rule.
pub record IsOrdered (r : ThresholdRule) : Type 0 where
  pub ordered : r.review_threshold < r.hold_threshold
  pub within : r.hold_threshold ≤ one

abbrev pub SameSelector : ThresholdRule → ThresholdRule → Type 0
SameSelector a b = (a.product_code ≡ b.product_code) × (a.station_code ≡ b.station_code)

pub record IsAccepted (c : PolicyConfig) : Type 0 where
  pub default_ordered : IsOrdered c.default
  pub ordered : All IsOrdered c.overrides
  pub default_plain : specificity c.default ≡ 0
  pub selective : All (λ r. 1 ≤ specificity r) c.overrides
  pub distinct : Pairwise (λ a b. ¬ SameSelector a b) c.overrides

opt_eq_iff : (a b : Option String) → a ≡ b → opt_eq a b ≡ true
opt_eq_iff none b e = ground (arith, e)
opt_eq_iff (some a) b e = ground (arith, e, eq_refl a)

same_selector_of : (a b : ThresholdRule) → SameSelector a b → same_selector a b ≡ true
same_selector_of a b (e, f) =
    ground (
      arith,
      opt_eq_iff a.product_code b.product_code e,
      opt_eq_iff a.station_code b.station_code f,
    )

none_same :
    (r : ThresholdRule) (seen : List ThresholdRule)
    → any_of (same_selector r) seen ≡ false
    → All (λ s. ¬ SameSelector r s) seen
none_same r [] h = tt
none_same r (s ∷ seen) h =
    (λ same. ground (arith, h, same_selector_of r s same), none_same r seen (ground (arith, h)))

check_sound :
    (seen rest : List ThresholdRule)
    → check_overrides seen rest ≡ none
    → All (λ r. 1 ≤ specificity r) rest
      × Pairwise (λ a b. ¬ SameSelector a b) rest
      × All (λ r. All (λ s. ¬ SameSelector r s) seen) rest
unfolding check_overrides
check_sound seen [] h = (tt, tt, tt)
check_sound seen (r ∷ rest) h =
    let ih = check_sound (r ∷ seen) rest (ground (arith, h)) in
    (
      (ground (arith, h), ih.0),
      (All-imp _ _ rest (λ b k same. k.0 (sym same.0, sym same.1)) ih.2, ih.1),
      (none_same r seen (ground (arith, h)), All-imp _ _ rest (λ b k. k.1) ih.2),
    )

rules-IsOrdered :
    (rules : List ThresholdRule) → any_of (λ r. not (rule_ok r)) rules ≡ false → All IsOrdered rules
unfolding rule_ok
rules-IsOrdered [] h = tt
rules-IsOrdered (r ∷ rules) h = (ground (arith, h), rules-IsOrdered rules (ground (arith, h)))

-- A policy that validation accepts has ordered thresholds within [0, 1] in every rule, a default that
-- selects nothing, and overrides that each select something and never twice the same.
pub validate_config-IsAccepted : (c : PolicyConfig) → validate_config c ≡ none → IsAccepted c
unfolding validate_config
validate_config-IsAccepted c h =
    let checked = check_sound [] c.overrides (ground (arith, h)) in
    record {
      default_ordered = ground (arith, h);
      ordered = rules-IsOrdered c.overrides (ground (arith, h));
      default_plain = ground (arith, h);
      selective = checked.0;
      distinct = checked.1;
    }
