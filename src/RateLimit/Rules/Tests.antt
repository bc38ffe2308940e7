-- ===== src/RateLimit/Rules/Tests.antt =====
-- Runs of packages/auth/src/rate-limit/rules.ts, and the theorems at those runs.
use aoothjs.Base.{◌≡◌, refl, none, some, [], ◌∷◌, All, text_eq, units}
use aoothjs.Base.Assoc.{get}
use aoothjs.RateLimit.Rules.{RateLimitRule, text, spelled}
use aoothjs.RateLimit.Rules.Numbers.{
  is_digit, is_space, span, trim, trim_end, number_from, print, print_from,
}
use aoothjs.RateLimit.Rules.Duration.{
  duration_units, duration_of, parse_duration_ms, part_text, join_parts, name_of, parts_from,
  total_seconds, duration_parts, format_duration_ms,
}
use aoothjs.RateLimit.Rules.Parse.{
  split_at_pipe, is_window, after_per, after_separator, rule_of, message_of, parse_rule_string,
  assert_valid_rule, parse_rate_limit_rule,
}
use aoothjs.RateLimit.Rules.Render.{
  default_rate_limit_message, rate_limit_params, seconds, replacement, replace_from, replace_all,
  render_rate_limit_message,
}
use aoothjs.RateLimit.Rules.Messages.{short}
use aoothjs.RateLimit.Rules.Grammar.{per, IsRead, parse_rule_string-print}

rules : Unit {0}
unfolding get units is_digit is_space span trim trim_end number_from print print_from duration_of
    parse_duration_ms part_text join_parts name_of parts_from total_seconds duration_parts
    format_duration_ms split_at_pipe is_window after_per after_separator rule_of message_of
    parse_rule_string assert_valid_rule parse_rate_limit_rule default_rate_limit_message
    rate_limit_params seconds replacement replace_from replace_all render_rate_limit_message
rules = tt

abbrev six_per_5m : RateLimitRule
six_per_5m = record { limit = 6; window = 300000; message = none }

rule_tests :
    (parse_rate_limit_rule (text (units "6/5m")) ≡ some six_per_5m)
    × (parse_rate_limit_rule (text (units " 6 PER  5m | Wait {{delta}} "))
        ≡ some (record six_per_5m { message = some (units "Wait {{delta}}") }))
    × (parse_rate_limit_rule (text (units "6/5M")) ≡ none)
    × (parse_rate_limit_rule (text (units "0/5m")) ≡ none)
    × (parse_rate_limit_rule (spelled 6 (units "5m") none) ≡ some six_per_5m)
unfolding rules
rule_tests = (refl, refl, refl, refl, refl)

text_tests :
    (format_duration_ms 272000 ≡ units "4 minutes 32 seconds")
    × (format_duration_ms 0 ≡ units "1 second")
    × (render_rate_limit_message default_rate_limit_message six_per_5m 1500
        ≡ units "Too many requests. Retry after 2 s.")
    × (render_rate_limit_message
          (units "{{max}} per {{window}} ({window})")
          (record six_per_5m { window = 2500 })
          0
        ≡ units "6 per 3 seconds (2.5)")
unfolding rules
text_tests = (refl, refl, refl, refl)

parse_rule_string-print_example :
    All
      (λ unit.
        IsRead 6 5 unit.1
          (32 ∷ 112 ∷ 101 ∷ 114 ∷ 32 ∷ [])
          unit.0
          (32 ∷ 87 ∷ 32 ∷ [])
          (some (87 ∷ [])))
      duration_units
unfolding is_space
parse_rule_string-print_example =
    parse_rule_string-print 6 5 (32 ∷ 112 ∷ 101 ∷ 114 ∷ 32 ∷ []) (32 ∷ []) (87 ∷ []) (32 ∷ [])
      (some (87 ∷ [])) per refl refl (short 87 refl)
