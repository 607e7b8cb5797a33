-- ===== src/Backend/Policy.antt =====
-- backend/app/policy.py: the two-threshold policy with overrides by product and station.
--
-- A non-negative double is its bit pattern, which is ordered as the number is; thresholds are
-- compared and never computed with.
pub mod Rules
pub mod Choice
pub mod Routes
mod Tests
use vision_qc.Prelude.{
  ℕ, zero, suc, ◌+◌, String, Option, none, some, Bool, true, false, ◌&&◌, ◌||◌, not, List, [], ◌∷◌,
  ltb, leb, ◌==◌, if◌then◌else◌, is_some, str_eq, characters, any_of, keep_if, sort_by,
}
use vision_qc.Backend.Domain.{PolicyRoute, auto_release, manual_review, batch_hold_and_review}

-- A double as a score: `nan` compares false with everything.
pub data Score : Type 0 where
  nan negative : Score
  num : ℕ → Score

-- The bit pattern of 1.0.
abbrev pub one : ℕ
one = 4607182418800017408

abbrev pub lt_score : Score → ℕ → Bool
lt_score nan t = false
lt_score negative t = true
lt_score (num s) t = ltb s t

pub record ThresholdRule : Type 0 where
  pub product_code : Option String
  pub station_code : Option String
  pub review_threshold : ℕ
  pub hold_threshold : ℕ

abbrev pub opt_eq : Option String → Option String → Bool
opt_eq none none = true
opt_eq (some a) (some b) = str_eq a b
opt_eq _ _ = false

-- The field bounds and `validate_threshold_order`.
unfoldable pub rule_ok : ThresholdRule → Bool
rule_ok r =
    leb r.review_threshold one
    && leb r.hold_threshold one
    && ltb r.review_threshold r.hold_threshold

abbrev pub specificity : ThresholdRule → ℕ
specificity r =
    (if is_some r.product_code then 1 else 0) + (if is_some r.station_code then 1 else 0)

abbrev pub same_selector : ThresholdRule → ThresholdRule → Bool
same_selector a b = opt_eq a.product_code b.product_code && opt_eq a.station_code b.station_code

pub record PolicyConfig : Type 0 where
  pub version : String
  pub default : ThresholdRule
  pub overrides : List ThresholdRule

pub data ConfigError : Type 0 where
  bad_version bad_rule default_selects override_selects_nothing duplicate_override : ConfigError

-- The loop of `validate_rules`, over the overrides with those before them.
unfoldable pub check_overrides : List ThresholdRule → List ThresholdRule → Option ConfigError
check_overrides seen [] = none
check_overrides seen (r ∷ rest) =
    let later = check_overrides (r ∷ seen) rest in
    if specificity r == 0
    then some override_selects_nothing
    else if any_of (same_selector r) seen
    then some duplicate_override
    else later

-- The validation of a `PolicyConfig`; `none` is that it is accepted.
unfoldable pub validate_config : PolicyConfig → Option ConfigError
unfolding check_overrides rule_ok
validate_config c =
    if not (leb 1 (characters c.version) && leb (characters c.version) 64)
    then some bad_version
    else if not (rule_ok c.default) || any_of (λ r. not (rule_ok r)) c.overrides
    then some bad_rule
    else if not (specificity c.default == 0)
    then some default_selects
    else check_overrides [] c.overrides

abbrev pub selects : Option String → String → Bool
selects none value = true
selects (some code) value = str_eq code value

abbrev pub applies : String → String → ThresholdRule → Bool
applies product station r = selects r.product_code product && selects r.station_code station

pub data Resolution : Type 0 where
  rule : ThresholdRule → Resolution
  ambiguous : Resolution

-- `matches.sort(key=specificity, reverse=True)`, which is stable.
abbrev pub more_specific : ThresholdRule → ThresholdRule → Bool
more_specific a b = ltb (specificity b) (specificity a)

abbrev pub pick : ThresholdRule → List ThresholdRule → Resolution
pick default [] = rule default
pick default (a ∷ []) = rule a
pick default (a ∷ b ∷ rest) = if specificity a == specificity b then ambiguous else rule a

-- `PolicyConfig.resolve`; `ambiguous` is its ValueError.
unfoldable pub resolve : String → String → PolicyConfig → Resolution
resolve product station c =
    pick c.default (sort_by more_specific (keep_if (applies product station) c.overrides))

-- The texts that `evaluate_policy` formats.
pub data Reason : Type 0 where
  unavailable : Reason
  below_review : Score → ℕ → Reason
  between : ℕ → Score → ℕ → Reason
  at_hold : Score → ℕ → Reason

pub record PolicyEvaluation : Type 0 where
  pub route : PolicyRoute
  pub reason : Reason
  pub review_threshold : ℕ
  pub hold_threshold : ℕ

abbrev pub by_rule : Score → ThresholdRule → PolicyEvaluation
by_rule s r =
    if lt_score s r.review_threshold
    then record {
      route = auto_release;
      reason = below_review s r.review_threshold;
      review_threshold = r.review_threshold;
      hold_threshold = r.hold_threshold;
    }
    else if lt_score s r.hold_threshold
    then record {
      route = manual_review;
      reason = between r.review_threshold s r.hold_threshold;
      review_threshold = r.review_threshold;
      hold_threshold = r.hold_threshold;
    }
    else record {
      route = batch_hold_and_review;
      reason = at_hold s r.hold_threshold;
      review_threshold = r.review_threshold;
      hold_threshold = r.hold_threshold;
    }

abbrev pub fallback : PolicyEvaluation
fallback = record {
  route = manual_review;
  reason = unavailable;
  review_threshold = 0;
  hold_threshold = one;
}

-- `evaluate_policy`; `none` is the ValueError of `resolve`.
unfoldable pub evaluate_policy :
    Option Score → Option PolicyConfig → String → String → Option PolicyEvaluation
evaluate_policy none policy product station = some fallback
evaluate_policy (some s) none product station = some fallback
evaluate_policy (some s) (some policy) product station = elim (resolve product station policy) [
  | rule r ↦ some (by_rule s r)
  | ambiguous ↦ none
]
