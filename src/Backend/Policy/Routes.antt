-- ===== src/Backend/Policy/Routes.antt =====
-- Where `evaluate_policy` sends a score.
use vision_qc.Prelude.{ℕ, ◌≤◌, ◌<◌, String, Option, none, some, true, ◌≡◌, refl, ◌≢◌, arith}
use vision_qc.Backend.Domain.{PolicyRoute, auto_release, manual_review, batch_hold_and_review}
use vision_qc.Backend.Policy.{
  Score, nan, negative, num, lt_score, ThresholdRule, PolicyConfig, Resolution, rule, ambiguous,
  resolve, PolicyEvaluation, by_rule, evaluate_policy,
}
use vision_qc.Backend.Policy.Rules.{IsAccepted}
use vision_qc.Backend.Policy.Choice.{resolve_lem}

-- An automatic release needs a score and a policy, and the score is below the review threshold of
-- the rule that the policy resolves to. So a missing model result, a missing policy and a score that
-- is no number are never released automatically.
pub auto_release_lem :
    (score : Option Score) (policy : Option PolicyConfig) (p st : String) {e : PolicyEvaluation}
    → evaluate_policy score policy p st ≡ some e
    → e.route ≡ auto_release
    → (s : Score) × (c : PolicyConfig) × (r : ThresholdRule) × (score ≡ some s)
      × (policy ≡ some c)
      × (resolve p st c ≡ rule r)
      × (lt_score s r.review_threshold ≡ true)
      × (s ≢ nan)
unfolding evaluate_policy
auto_release_lem none policy p st h auto = ground arith
auto_release_lem (some s) none p st h auto = ground arith
auto_release_lem (some s) (some c) p st {e} h auto = go (resolve p st c) refl
  where
    go :
        (o : Resolution)
        → resolve p st c ≡ o
        → (s' : Score) × (c' : PolicyConfig) × (r : ThresholdRule) × (some s ≡ some s')
          × (some c ≡ some c')
          × (resolve p st c' ≡ rule r)
          × (lt_score s' r.review_threshold ≡ true)
          × (s' ≢ nan)
    go ambiguous k = ground (arith, k, h)
    go (rule r) k =
        let low : lt_score s r.review_threshold ≡ true = ground (arith, k, h, auto) in
        (s, c, r, refl, refl, k, low, λ e. ground (arith, low, e))

-- How careful a route is.
abbrev pub care : PolicyRoute → ℕ
care auto_release = 0
care manual_review = 1
care batch_hold_and_review = 2

-- The score ranks no higher: a number below or equal, or anything under what is no number.
abbrev pub NoWorse : Score → Score → Type 0
NoWorse s nan = Unit
NoWorse nan (num t) = ⊥
NoWorse nan negative = ⊥
NoWorse negative t = Unit
NoWorse (num s) (num t) = s ≤ t
NoWorse (num s) negative = ⊥

-- Under an accepted policy a higher score is never treated with less care.
pub evaluate_policy_mono :
    (s t : Score) (c : PolicyConfig) (p st : String) {e f : PolicyEvaluation}
    → IsAccepted c
    → NoWorse s t
    → evaluate_policy (some s) (some c) p st ≡ some e
    → evaluate_policy (some t) (some c) p st ≡ some f
    → care e.route ≤ care f.route
unfolding evaluate_policy
evaluate_policy_mono s t c p st {e} {f} v w he hf = go (resolve p st c) refl
  where
    routes :
        (a b : Score) (r : ThresholdRule)
        → r.review_threshold < r.hold_threshold
        → NoWorse a b
        → care (by_rule a r).route ≤ care (by_rule b r).route
    routes (num a) (num b) r o k = ground arith
    routes (num a) nan r o k = ground arith
    routes (num a) negative r o k = absurd k
    routes nan nan r o k = ground arith
    routes nan (num b) r o k = absurd k
    routes nan negative r o k = absurd k
    routes negative b r o k = ground arith

    go : (o : Resolution) → resolve p st c ≡ o → care e.route ≤ care f.route
    go ambiguous k = ground (arith, k, he)
    go (rule r) k =
        let ordered = (resolve_lem p st c v k).0 in
        ground (arith, k, he, hf, routes s t r ordered.ordered w)
