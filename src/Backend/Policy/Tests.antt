-- ===== src/Backend/Policy/Tests.antt =====
-- A policy with overrides, and the theorems about policies on it.
use vision_qc.Prelude.{
  ℕ, ◌≤◌, String, Option, none, some, true, false, [], ◌∷◌, ◌≡◌, ◌≢◌, refl, ◌⊎◌, inl, inr, All,
  Member, arith,
}
use vision_qc.Backend.Policy.{
  Score, nan, num, lt_score, ThresholdRule, specificity, PolicyConfig, validate_config,
  check_overrides, rule_ok, applies, rule, resolve, by_rule, evaluate_policy,
}
use vision_qc.Backend.Policy.Rules.{IsOrdered, IsAccepted, validate_config-IsAccepted}
use vision_qc.Backend.Policy.Choice.{resolve_lem, exact_rule_wins}
use vision_qc.Backend.Policy.Routes.{auto_release_lem, care, evaluate_policy_mono}

abbrev threshold_rule : Option String → Option String → ℕ → ℕ → ThresholdRule
threshold_rule p s review hold = record {
  product_code = p;
  station_code = s;
  review_threshold = review;
  hold_threshold = hold;
}

-- 0.25 and 0.5, 0.5 and 0.75, 0.125 and 0.25
abbrev by_default : ThresholdRule
by_default = threshold_rule none none 4598175219545276416 4602678819172646912

abbrev for_lens : ThresholdRule
for_lens = threshold_rule (some "lens") none 4602678819172646912 4604930618986332160

abbrev for_lens_at_s1 : ThresholdRule
for_lens_at_s1 = threshold_rule (some "lens") (some "s1") 4593671619917905920 4598175219545276416

abbrev config : PolicyConfig
config = record { version = "7"; default = by_default; overrides = for_lens ∷ for_lens_at_s1 ∷ [] }

accepted : validate_config config ≡ none
unfolding validate_config check_overrides rule_ok
accepted = refl

validate_config-IsAccepted_example : IsAccepted config
validate_config-IsAccepted_example = validate_config-IsAccepted config accepted

resolved : resolve "lens" "s2" config ≡ rule for_lens
unfolding resolve
resolved = refl

resolve_lem_example :
    IsOrdered for_lens
    × ((Member for_lens config.overrides
          × (applies "lens" "s2" for_lens ≡ true)
          × All
              (λ b. applies "lens" "s2" b ≡ true → specificity b ≤ specificity for_lens)
              config.overrides)
        ⊎ ((for_lens ≡ config.default) × All (λ b. applies "lens" "s2" b ≡ false) config.overrides))
resolve_lem_example =
    resolve_lem "lens" "s2" config (validate_config-IsAccepted config accepted) resolved

exact_rule_wins_example : resolve "lens" "s1" config ≡ rule for_lens_at_s1
exact_rule_wins_example =
    exact_rule_wins "lens" "s1" config for_lens_at_s1 (validate_config-IsAccepted config accepted)
      (inr (inl refl)) refl refl

-- 0.0625, and 0.25
abbrev low : Score
low = num 4589168020290535424

abbrev middle : Score
middle = num 4598175219545276416

low_released :
    evaluate_policy (some low) (some config) "lens" "s1" ≡ some (by_rule low for_lens_at_s1)
unfolding evaluate_policy resolve
low_released = refl

middle_held :
    evaluate_policy (some middle) (some config) "lens" "s1" ≡ some (by_rule middle for_lens_at_s1)
unfolding evaluate_policy resolve
middle_held = refl

auto_release_lem_example :
    (s : Score) × (c : PolicyConfig) × (r : ThresholdRule) × (some low ≡ some s)
    × (some config ≡ some c)
    × (resolve "lens" "s1" c ≡ rule r)
    × (lt_score s r.review_threshold ≡ true)
    × (s ≢ nan)
auto_release_lem_example = auto_release_lem (some low) (some config) "lens" "s1" low_released refl

evaluate_policy_mono_example :
    care (by_rule low for_lens_at_s1).route ≤ care (by_rule middle for_lens_at_s1).route
evaluate_policy_mono_example =
    evaluate_policy_mono low middle config "lens" "s1" {e = by_rule low for_lens_at_s1}
      {f = by_rule middle for_lens_at_s1} (validate_config-IsAccepted config accepted) not_higher
      low_released middle_held
  where
    not_higher : 4589168020290535424 ≤ 4598175219545276416
    not_higher = omega arith
