-- ===== src/RateLimit/Rules/Accepted.antt =====
-- The rules that packages/auth/src/rate-limit/rules.ts accepts.
use aoothjs.Base.{◌<◌, ◌≡◌, Option, none, some, arith, text_eq}
use aoothjs.RateLimit.Rules.{RateLimitRule, RateLimitRuleInput, text, normalized, spelled}
use aoothjs.RateLimit.Rules.Duration.{parse_duration_ms}
use aoothjs.RateLimit.Rules.Parse.{parse_rule_string, assert_valid_rule, parse_rate_limit_rule}

assert_valid_rule_iff :
    (rule r : RateLimitRule)
    → assert_valid_rule rule ≡ some r
    → (rule ≡ r) × (0 < r.limit) × (0 < r.window)
unfolding assert_valid_rule
assert_valid_rule_iff rule r h = ground (arith, h)

valid-again : (r : RateLimitRule) → 0 < r.limit → 0 < r.window → assert_valid_rule r ≡ some r
unfolding assert_valid_rule
valid-again r h k = ground (arith, h, k)

valid_rule :
    (rule r : RateLimitRule)
    → assert_valid_rule rule ≡ some r
    → (0 < r.limit) × (0 < r.window) × (assert_valid_rule r ≡ some r)
valid_rule rule r h =
    let (_, limit, window) = assert_valid_rule_iff rule r h in
    (limit, window, valid-again r limit window)

-- the check of what was read, if anything was
checked :
    {A : Type 0} (rule_from : A → RateLimitRule) (read : Option A) (r : RateLimitRule)
    → (elim read [ none ↦ none | some a ↦ assert_valid_rule (rule_from a) ]) ≡ some r
    → (0 < r.limit) × (0 < r.window) × (assert_valid_rule r ≡ some r)
checked rule_from none r h = absurd (cc)
checked rule_from (some a) r h = valid_rule (rule_from a) r h

-- A rule that is accepted, in whatever form it was written, has a positive limit and a positive
-- window, and is accepted unchanged when it is given again.
pub parse_rate_limit_rule-valid :
    (input : RateLimitRuleInput) (r : RateLimitRule)
    → parse_rate_limit_rule input ≡ some r
    → (0 < r.limit) × (0 < r.window) × (parse_rate_limit_rule (normalized r) ≡ some r)
unfolding parse_rate_limit_rule
parse_rate_limit_rule-valid (normalized rule) r h = valid_rule rule r h
parse_rate_limit_rule-valid (text input) r h = checked (λ rule. rule) (parse_rule_string input) r h
parse_rate_limit_rule-valid (spelled limit window message) r h =
    checked (λ ms. record { limit = limit; window = ms; message = message })
      (parse_duration_ms window) r h
