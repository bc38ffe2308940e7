-- ===== src/RateLimit/Rules/Duration.antt =====
-- packages/auth/src/rate-limit/rules.ts: `parseDurationMs` and `formatDurationMs`. An error thrown
-- is `none`; the text of the error is not modelled.
use aoothjs.Base.{
  ℕ, suc, ◌+◌, ◌-◌, ◌*◌, ◌/◌, max, Bool, true, false, Option, none, some, List, [], ◌∷◌, ◌++◌,
  nat_beq, Text, text_eq, units, if◌then◌else◌,
}
use aoothjs.Base.Assoc.{Assoc, get}
use aoothjs.RateLimit.Rules.Numbers.{is_digit, trim, span, number, print}

-- `DURATION_UNITS`, by the code units of "ms", "s", "m", "h" and "d"
abbrev pub duration_units : Assoc Text ℕ
duration_units =
    (109 ∷ 115 ∷ [], 1)
    ∷ (115 ∷ [], 1000)
    ∷ (109 ∷ [], 60000)
    ∷ (104 ∷ [], 3600000)
    ∷ (100 ∷ [], 86400000)
    ∷ []

abbrev pub is_empty : Text → Bool
is_empty [] = true
is_empty (_ ∷ _) = false

-- the value of what the expression captures, where the rest after the digits is the unit
unfoldable pub duration_of : Text × Text → Option ℕ
duration_of (digits, unit) = elim (get unit duration_units) [
  | none ↦ none
  | some size ↦ if is_empty digits then none else some (number digits * size)
]

unfoldable pub parse_duration_ms : Text → Option ℕ
unfolding duration_of
parse_duration_ms input = duration_of (span is_digit (trim input))

-- the units of `formatDurationMs`, with their sizes in seconds
pub data Span : Type 0 where
  day hour minute second : Span

abbrev pub size_of : Span → ℕ
size_of day = 86400
size_of hour = 3600
size_of minute = 60
size_of second = 1

abbrev pub spans : List Span
spans = day ∷ hour ∷ minute ∷ second ∷ []

unfoldable pub name_of : Span → Text
unfolding units
name_of day = units "day"
name_of hour = units "hour"
name_of minute = units "minute"
name_of second = units "second"

-- the loop of `formatDurationMs`: `taken` is `parts.length`
unfoldable pub parts_from : ℕ → ℕ → List Span → List (ℕ × Span)
parts_from taken rest [] = []
parts_from taken rest (u ∷ us) =
    let n = rest / size_of u in
    let skipped = parts_from taken rest us in
    let shown = parts_from (suc taken) (rest - n * size_of u) us in
    if nat_beq taken 2 then [] else if nat_beq n 0 then skipped else (n, u) ∷ shown

-- `Math.max(1, Math.ceil(ms / 1000))`
unfoldable pub total_seconds : ℕ → ℕ
total_seconds ms = max 1 ((ms + 999) / 1000)

unfoldable pub duration_parts : ℕ → List (ℕ × Span)
unfolding parts_from total_seconds
duration_parts ms = parts_from 0 (total_seconds ms) spans

unfoldable pub part_text : ℕ × Span → Text
unfolding print name_of
part_text (n, u) = print n ++ (32 ∷ name_of u) ++ (if nat_beq n 1 then [] else 115 ∷ [])

-- `parts.join(" ")`
unfoldable pub join_parts : List (ℕ × Span) → Text
unfolding part_text
join_parts [] = []
join_parts (part ∷ []) = part_text part
join_parts (part ∷ next ∷ parts) = part_text part ++ (32 ∷ join_parts (next ∷ parts))

unfoldable pub format_duration_ms : ℕ → Text
unfolding join_parts duration_parts
format_duration_ms ms = join_parts (duration_parts ms)
