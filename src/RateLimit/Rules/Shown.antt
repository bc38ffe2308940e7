-- ===== src/RateLimit/Rules/Shown.antt =====
-- What the durations of packages/auth/src/rate-limit/rules.ts mean: the value of a text that is
-- read, and how close a humanized duration is.
use aoothjs.Base.{
  ℕ, ◌+◌, ◌-◌, ◌*◌, ◌/◌, ◌≤◌, ◌<◌, ◌≡◌, refl, true, false, not, some, List, [], ◌∷◌, ◌++◌, arith,
  nat_beq, length, all, all-append, All, Text, text_eq, Bool-cases, inl, inr,
}
use aoothjs.Base.Assoc.{get}
use aoothjs.RateLimit.Rules.Numbers.{
  is_digit, is_space, span, number, print, number-print, digits-print, length-print, heads_off,
  span-append, solid-digits, trim-solid,
}
use aoothjs.RateLimit.Rules.Duration.{
  duration_units, parse_duration_ms, duration_of, Span, day, hour, minute, second, size_of, spans,
  parts_from, total_seconds, duration_parts,
}

abbrev pub value : List (ℕ × Span) → ℕ
value [] = 0
value ((n, span) ∷ parts) = n * size_of span + value parts

-- the size of the last unit that is shown
abbrev pub last_size : List (ℕ × Span) → ℕ
last_size [] = 0
last_size ((n, span) ∷ []) = size_of span
last_size ((n, span) ∷ next ∷ parts) = last_size (next ∷ parts)

-- what one more unit shows of the rest of a duration
pub data OnePart (r : ℕ) (parts : List (ℕ × Span)) : Type 0 where
  nothing : parts ≡ [] → r ≡ 0 → OnePart r parts
  part :
      (n : ℕ) (span : Span)
      → parts ≡ (n, span) ∷ []
      → 1 ≤ n
      → n * size_of span ≤ r
      → r < n * size_of span + size_of span
      → OnePart r parts

quotient :
    (r : ℕ) (span : Span)
    → (r / size_of span * size_of span ≤ r) × (r < r / size_of span * size_of span + size_of span)
quotient r day = omega arith
quotient r hour = omega arith
quotient r minute = omega arith
quotient r second = omega arith

full : (r : ℕ) (us : List Span) → parts_from 2 r us ≡ []
unfolding parts_from
full r [] = refl
full r (u ∷ us) = refl

OnePart-cons :
    (r : ℕ) (u : Span) (us : List Span)
    → OnePart r (parts_from 1 r us)
    → OnePart r (parts_from 1 r (u ∷ us))
unfolding parts_from
OnePart-cons r u us h = elim (Bool-cases (nat_beq (r / size_of u) 0)) [
  | inl zero_n ↦ rw (zero_n, parts_from) h
  | inr some_n ↦
      let q = quotient r u in
      part (r / size_of u) u (rw (some_n, full (r - r / size_of u * size_of u) us, parts_from))
        (ground (arith, some_n)) q.0 q.1
]

OnePart-second : (r : ℕ) → OnePart r (parts_from 1 r (second ∷ []))
unfolding parts_from
OnePart-second r = elim (Bool-cases (nat_beq r 0)) [
  | inl zero_r ↦ nothing (ground (arith, zero_r)) (ground (arith, zero_r))
  | inr some_r ↦
      part r second (ground (arith, some_r)) (ground (arith, some_r)) (omega arith) (omega arith)
]

-- what the loop shows of a whole duration
record IsShown (r : ℕ) (parts : List (ℕ × Span)) : Type 0 where
  some_part : 1 ≤ length parts
  two_parts : length parts ≤ 2
  positive : All (λ part. 1 ≤ part.0) parts
  below : value parts ≤ r
  near : r < value parts + last_size parts

IsShown-cons :
    (r : ℕ) (u : Span) (us : List Span)
    → ((rest : ℕ) → OnePart rest (parts_from 1 rest us))
    → IsShown r (parts_from 0 r us)
    → IsShown r (parts_from 0 r (u ∷ us))
unfolding parts_from
IsShown-cons r u us rest h = elim (Bool-cases (nat_beq (r / size_of u) 0)) [
  | inl zero_n ↦ rw (zero_n, parts_from) h
  | inr some_n ↦
      rw (some_n, parts_from)
        (shown (r / size_of u) _ (quotient r u) (ground (arith, some_n))
          (rest (r - r / size_of u * size_of u)))
]
  where
    shown :
        (n : ℕ) (parts : List (ℕ × Span))
        → (n * size_of u ≤ r) × (r < n * size_of u + size_of u)
        → 1 ≤ n
        → OnePart (r - n * size_of u) parts
        → IsShown r ((n, u) ∷ parts)
    shown n parts q pos (nothing eq z) = rw eq (record {
      some_part = omega arith;
      two_parts = omega arith;
      positive = (pos, tt);
      below = omega (arith, q);
      near = omega (arith, q);
    })
    shown n parts q pos (part m v eq one low high) = rw eq (record {
      some_part = omega arith;
      two_parts = omega arith;
      positive = (pos, (one, tt));
      below = omega (arith, q, low);
      near = omega (arith, q, low, high);
    })

IsShown-second : (r : ℕ) → 1 ≤ r → IsShown r (parts_from 0 r (second ∷ []))
unfolding parts_from
IsShown-second r h =
    let some_r : nat_beq (r / size_of second) 0 ≡ false = ground (arith, h) in
    rw (some_r, parts_from)
      (record {
        some_part = omega arith;
        two_parts = omega arith;
        positive = (omega arith, tt);
        below = omega arith;
        near = omega arith;
      })

IsShown-spans : (r : ℕ) → 1 ≤ r → IsShown r (parts_from 0 r spans)
IsShown-spans r h =
    let second_part = OnePart-second in
    let minute_part : (rest : ℕ) → OnePart rest (parts_from 1 rest (minute ∷ second ∷ [])) =
      λ rest. OnePart-cons rest minute (second ∷ []) (second_part rest) in
    let hour_part : (rest : ℕ) → OnePart rest (parts_from 1 rest (hour ∷ minute ∷ second ∷ [])) =
      λ rest. OnePart-cons rest hour (minute ∷ second ∷ []) (minute_part rest) in
    IsShown-cons r day (hour ∷ minute ∷ second ∷ []) hour_part (
      IsShown-cons r hour (minute ∷ second ∷ []) minute_part
        (IsShown-cons r minute (second ∷ []) second_part (IsShown-second r h)))

-- A humanized duration shows one or two units, each at least once. Their value is at most the
-- duration rounded up to a second (and to one second at least), and misses it by less than the last
-- unit shown.
pub duration_parts-value :
    (ms : ℕ)
    → (1 ≤ length (duration_parts ms))
      × (length (duration_parts ms) ≤ 2)
      × All (λ part. 1 ≤ part.0) (duration_parts ms)
      × (value (duration_parts ms) ≤ total_seconds ms)
      × (total_seconds ms < value (duration_parts ms) + last_size (duration_parts ms))
      × (ms ≤ total_seconds ms * 1000)
unfolding duration_parts total_seconds
duration_parts-value ms =
    let h = IsShown-spans (total_seconds ms) (ground arith) in
    (h.some_part, h.two_parts, h.positive, h.below, h.near, ground arith)

duration_of-found :
    (n size : ℕ) (digits unit : Text)
    → get unit duration_units ≡ some size
    → 1 ≤ length digits
    → number digits ≡ n
    → duration_of (digits, unit) ≡ some (n * size)
unfolding duration_of
duration_of-found n size [] unit found h eq = absurd (omega (arith, h))
duration_of-found n size (c ∷ cs) unit found h eq = rw (found, eq, duration_of)

pub parse_duration_ms-unit :
    (n size : ℕ) (unit : Text)
    → all (λ c. not (is_space c)) unit ≡ true
    → heads_off is_digit unit ≡ true
    → get unit duration_units ≡ some size
    → parse_duration_ms (print n ++ unit) ≡ some (n * size)
unfolding parse_duration_ms
parse_duration_ms-unit n size unit solid off found =
    rw
      (trim-solid (print n ++ unit) (
        all-append (λ c. not (is_space c)) (print n) unit (solid-digits (print n) (digits-print n))
          solid))
      (rw (span-append is_digit (print n) unit (digits-print n) off)
        (duration_of-found n size (print n) unit found (length-print n) (number-print n)))

-- A number printed before a unit is read back as that many of the unit.
pub parse_duration_ms-print :
    (n : ℕ) → All (λ unit. parse_duration_ms (print n ++ unit.0) ≡ some (n * unit.1)) duration_units
unfolding get is_digit is_space
parse_duration_ms-print n = (
  parse_duration_ms-unit n _ _ refl refl refl,
  (
    parse_duration_ms-unit n _ _ refl refl refl,
    (
      parse_duration_ms-unit n _ _ refl refl refl,
      (
        parse_duration_ms-unit n _ _ refl refl refl,
        (parse_duration_ms-unit n _ _ refl refl refl, tt),
      ),
    ),
  ),
)
