-- ===== src/RateLimit/Limiter/Tests.antt =====
-- Runs of the limiter of packages/auth/src/rate-limit/rate-limiter.ts, and the theorems at those
-- runs.
use aoothjs.Base.{ℕ, ◌≡◌, refl, Bool, true, false, Option, none, some, List, [], ◌∷◌, text_eq}
use aoothjs.Base.Assoc.{get, put, delete}
use aoothjs.RateLimit.Store.{
  Store, empty, make_room, start_counter, hit, count_of, evict_one, evict_while, evict_to_fit,
  victim_from, sweep, sweep_from, sweep_if_due,
}
use aoothjs.RateLimit.Rules.{RateLimitRule, RateLimitRuleInput, normalized}
use aoothjs.RateLimit.Rules.Parse.{assert_valid_rule, parse_rate_limit_rule}
use aoothjs.RateLimit.Limiter.{
  Key, key_eq, RateLimitDecision, reduce_from, pick_governing, window_start, key_of, evaluated,
  parse_rules, decision_by, decide, evaluate_rules, evaluate, check, peek,
}
use aoothjs.RateLimit.Limiter.Memory.{memory}

limiter : Unit {0}
unfolding get put delete make_room start_counter hit count_of evict_one evict_while evict_to_fit
    victim_from sweep sweep_from sweep_if_due assert_valid_rule parse_rate_limit_rule reduce_from
    pick_governing window_start key_of evaluated parse_rules decision_by decide evaluate_rules
    evaluate check peek
limiter = tt

abbrev two_per_second : RateLimitRule
two_per_second = record { limit = 2; window = 1000; message = some (72 ∷ []) }

abbrev rule_inputs : List RateLimitRuleInput
rule_inputs = normalized two_per_second ∷ []

abbrev checked : ℕ → Store Key → Option (RateLimitDecision × Store Key)
checked now s = check memory (97 ∷ []) (98 ∷ []) none now rule_inputs s

-- whether each of the checks at the given times passes
abbrev passes : List ℕ → Store Key → List Bool
passes [] s = []
passes (now ∷ times) s = elim (checked now s) [
  | none ↦ []
  | some (d, after) ↦ d.allowed ∷ passes times after
]

check_tests :
    passes (10 ∷ 20 ∷ 30 ∷ 999 ∷ 1000 ∷ []) empty ≡ true ∷ true ∷ false ∷ false ∷ true ∷ []
unfolding limiter
check_tests = refl
