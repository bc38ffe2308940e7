-- ===== src/RateLimit/Rules/Render.antt =====
-- packages/auth/src/rate-limit/rules.ts: the values of a rejection and its message. The window of
-- the values is kept in milliseconds, since it is a whole number there; `seconds` is its text in
-- seconds, which is what the message shows.
use aoothjs.Base.{
  ℕ, zero, suc, ◌+◌, ◌-◌, ◌/◌, ◌%◌, Bool, true, false, ◌&&◌, Option, none, some, [], ◌∷◌, ◌++◌,
  nat_beq, Text, text_eq, units, length, if◌then◌else◌,
}
use aoothjs.Base.Assoc.{Assoc}
use aoothjs.RateLimit.Rules.{RateLimitRule}
use aoothjs.RateLimit.Rules.Numbers.{print}
use aoothjs.RateLimit.Rules.Duration.{format_duration_ms}

-- `RATE_LIMIT_MESSAGES.RATE_LIMITED`
unfoldable pub default_rate_limit_message : Text
unfolding units
default_rate_limit_message = units "Too many requests. Retry after {retryAfter} s."

-- `RateLimitParams`, without the policy
pub record RateLimitParams : Type 0 where
  pub limit : ℕ
  pub window_ms : ℕ
  pub retry_after : ℕ

unfoldable pub rate_limit_params : RateLimitRule → ℕ → RateLimitParams
rate_limit_params rule retry_after_ms = record {
  limit = rule.limit;
  window_ms = rule.window;
  retry_after = (retry_after_ms + 999) / 1000;
}

-- `String(ms / 1000)`: at most three digits after the point, without zeros at the end
unfoldable pub seconds : ℕ → Text
unfolding print
seconds ms =
    let a = ms % 1000 / 100 in
    let b = ms % 100 / 10 in
    let c = ms % 10 in
    print (ms / 1000)
    ++ (if nat_beq (ms % 1000) 0
        then []
        else if nat_beq (ms % 100) 0
        then 46 ∷ (48 + a) ∷ []
        else if nat_beq c 0
        then 46 ∷ (48 + a) ∷ (48 + b) ∷ []
        else 46 ∷ (48 + a) ∷ (48 + b) ∷ (48 + c) ∷ [])

abbrev pub starts_with : Text → Text → Bool
starts_with [] t = true
starts_with (_ ∷ _) [] = false
starts_with (x ∷ xs) (y ∷ ys) = nat_beq x y && starts_with xs ys

-- the replacement of the first pattern that the text starts with, and the pattern's length
unfoldable pub replacement : Assoc Text Text → Text → Option (Text × ℕ)
replacement [] t = none
replacement ((pattern, by) ∷ table) t =
    if starts_with pattern t then some (by, length pattern) else replacement table t

-- every occurrence of a pattern of the table, from left to right; `skip` characters of the last
-- occurrence are still to be passed over
unfoldable pub replace_from : Assoc Text Text → ℕ → Text → Text
unfolding replacement
replace_from table skip [] = []
replace_from table (suc skip) (c ∷ cs) = replace_from table skip cs
replace_from table zero (c ∷ cs) = elim (replacement table (c ∷ cs)) [
  | none ↦ c ∷ replace_from table 0 cs
  | some (by, n) ↦ by ++ replace_from table (n - 1) cs
]

unfoldable pub replace_all : Text → Text → Text → Text
unfolding replace_from
replace_all pattern by t = replace_from ((pattern, by) ∷ []) 0 t

unfoldable pub render_rate_limit_message : Text → RateLimitRule → ℕ → Text
unfolding rate_limit_params replace_all replace_from format_duration_ms print units seconds
render_rate_limit_message template rule retry_after_ms =
    let params = rate_limit_params rule retry_after_ms in
    let limited = replace_all (units "{{limit}}") (print rule.limit) template in
    let bounded = replace_all (units "{{max}}") (print rule.limit) limited in
    let windowed = replace_all (units "{{window}}") (format_duration_ms rule.window) bounded in
    let delayed = replace_all (units "{{delta}}") (format_duration_ms retry_after_ms) windowed in
    replace_from
      ((units "{limit}", print params.limit)
        ∷ (units "{window}", seconds params.window_ms)
        ∷ (units "{retryAfter}", print params.retry_after)
        ∷ [])
      0 delayed
