-- ===== src/RateLimit/Rules/Parse.antt =====
-- packages/auth/src/rate-limit/rules.ts: `parseRuleString`, `assertValidRule` and
-- `parseRateLimitRule`. An error thrown is `none`; the text of the error is not modelled.
use aoothjs.Base.{
  ℕ, ◌+◌, Bool, true, false, not, ◌&&◌, ◌||◌, Option, none, some, [], ◌∷◌, leb, nat_beq, Text,
  text_eq, ◌==◌, if◌then◌else◌,
}
use aoothjs.Base.Assoc.{get}
use aoothjs.RateLimit.Rules.{RateLimitRule, RateLimitRuleInput, text, normalized, spelled}
use aoothjs.RateLimit.Rules.Numbers.{is_digit, is_space, trim, span, number}
use aoothjs.RateLimit.Rules.Duration.{duration_units, is_empty, parse_duration_ms}

abbrev pub is_pipe : ℕ → Bool
is_pipe c = nat_beq c 124

-- the text before the first `|` and, if there is one, the text after it
unfoldable pub split_at_pipe : Text → Text × Option Text
split_at_pipe [] = ([], none)
split_at_pipe (c ∷ cs) =
    let (head, message) = split_at_pipe cs in
    if is_pipe c then ([], some cs) else (c ∷ head, message)

-- the case-insensitive match of a letter
abbrev pub fold_case : ℕ → ℕ
fold_case c = if leb 65 c && leb c 90 then c + 32 else c

abbrev pub fold_text : Text → Text
fold_text [] = []
fold_text (c ∷ cs) = fold_case c ∷ fold_text cs

-- `\d+(?:ms|s|m|h|d)` up to the end, in either case
unfoldable pub is_window : Text → Bool
unfolding span is_digit get
is_window t =
    let (digits, unit) = span is_digit t in
    not (is_empty digits)
    && (elim (get (fold_text unit) duration_units) [ none ↦ false | some _ ↦ true ])

-- `per\s+`, at the start and in either case: what follows
unfoldable pub after_per : Text → Option Text
unfolding span is_space
after_per (p ∷ e ∷ r ∷ space ∷ cs) =
    if (fold_text (p ∷ e ∷ r ∷ []) == (112 ∷ 101 ∷ 114 ∷ [])) && is_space space
    then some (span is_space cs).1
    else none
after_per _ = none

-- `\s*(?:\/|\s+per\s+)\s*` after the digits of the limit: what follows
unfoldable pub after_separator : Text → Option Text
unfolding span after_per is_space
after_separator t =
    let (spaces, rest) = span is_space t in
    elim rest [
      | [] ↦ none
      | c ∷ cs ↦
          if nat_beq c 47
          then some (span is_space cs).1
          else if is_empty spaces
          then none
          else after_per (c ∷ cs)
    ]

-- the rule that the expression's captures make
unfoldable pub rule_of : Text → Option Text → Option Text → Option RateLimitRule
unfolding is_window
rule_of limit window message = elim window [
  | none ↦ none
  | some w ↦ if is_empty limit || not (is_window w) then none else elim (parse_duration_ms w) [
    | none ↦ none
    | some ms ↦ some (record { limit = number limit; window = ms; message = message })
  ]
]

-- the message of a rule text; an empty one is left out
unfoldable pub message_of : Option Text → Option Text
unfolding trim
message_of none = none
message_of (some m) = let t = trim m in if is_empty t then none else some t

unfoldable pub parse_rule_string : Text → Option RateLimitRule
unfolding split_at_pipe after_separator rule_of message_of trim span is_digit
parse_rule_string input =
    let (head, message) = split_at_pipe input in
    let (limit, rest) = span is_digit (trim head) in
    rule_of limit (after_separator rest) (message_of message)

unfoldable pub assert_valid_rule : RateLimitRule → Option RateLimitRule
assert_valid_rule rule =
    if leb rule.limit 0 then none else if leb rule.window 0 then none else some rule

unfoldable pub parse_rate_limit_rule : RateLimitRuleInput → Option RateLimitRule
unfolding parse_rule_string assert_valid_rule
parse_rate_limit_rule (normalized rule) = assert_valid_rule rule
parse_rate_limit_rule (text input) = elim (parse_rule_string input) [
  | none ↦ none
  | some rule ↦ assert_valid_rule rule
]
parse_rate_limit_rule (spelled limit window message) = elim (parse_duration_ms window) [
  | none ↦ none
  | some ms ↦ assert_valid_rule (record { limit = limit; window = ms; message = message })
]
