-- ===== src/RateLimit/Rules/Grammar.antt =====
-- What the rule texts of packages/auth/src/rate-limit/rules.ts are read as.
use mathlib.Core.List.{append_assoc, append-nil}
use aoothjs.Base.{
  ap, ◌∙◌, sym, length-append, ℕ, ◌*◌, ◌≤◌, ◌≡◌, refl, Bool, true, false, not, ◌&&◌, Option, none,
  some, [], ◌∷◌, ◌++◌, arith, length, all, all-append, All, All-map, Text, text_eq,
}
use aoothjs.Base.Assoc.{get}
use aoothjs.RateLimit.Rules.{RateLimitRule}
use aoothjs.RateLimit.Rules.Numbers.{
  is_digit, is_space, trim, span, print, number-print, digits-print, length-print, span-append,
  solid-digits, heads_off, is_space-digit, trim_end, trim_end-append, trim_end-space,
  trim_end-solid, trim-head,
}
use aoothjs.RateLimit.Rules.Messages.{Message, message_of-Message}
use aoothjs.RateLimit.Rules.Duration.{duration_units, is_empty}
use aoothjs.RateLimit.Rules.Shown.{parse_duration_ms-unit}
use aoothjs.RateLimit.Rules.Parse.{
  is_pipe, fold_text, split_at_pipe, is_window, after_per, after_separator, rule_of, message_of,
  parse_rule_string,
}

split_at_pipe-append :
    (xs rest : Text)
    → all (λ c. not (is_pipe c)) xs ≡ true
    → split_at_pipe (xs ++ rest) ≡ (xs ++ (split_at_pipe rest).0, (split_at_pipe rest).1)
unfolding split_at_pipe
split_at_pipe-append [] rest h = refl
split_at_pipe-append (x ∷ xs) rest h =
    let (off, others) = both_true h in rw (off, split_at_pipe-append xs rest others, split_at_pipe)
  where
    both_true :
        (not (is_pipe x) && all (λ c. not (is_pipe c)) xs) ≡ true
        → (is_pipe x ≡ false) × (all (λ c. not (is_pipe c)) xs ≡ true)
    both_true e = ground (arith, e)

-- the forms of the separator that are written without need: "/" and " per "
pub data Separator : Text → Type 0 where
  slash : Separator (47 ∷ [])
  per : Separator (32 ∷ 112 ∷ 101 ∷ 114 ∷ 32 ∷ [])

-- a text that starts with a digit
abbrev starts_digit : Text → Bool
starts_digit [] = false
starts_digit (c ∷ _) = is_digit c

after_separator-Separator :
    (sep window : Text)
    → Separator sep
    → starts_digit window ≡ true
    → after_separator (sep ++ window) ≡ some window
unfolding after_separator after_per span is_space is_digit
after_separator-Separator _ [] s h = absurd (cc)
after_separator-Separator _ (c ∷ window) slash h = rw (is_space-digit c h)
after_separator-Separator _ (c ∷ window) per h = rw (is_space-digit c h)

starts-append :
    (xs ys : Text) → 1 ≤ length xs → all is_digit xs ≡ true → starts_digit (xs ++ ys) ≡ true
starts-append [] ys h k = absurd (omega (arith, h))
starts-append (x ∷ xs) ys h k = ground (arith, k)

is_empty-length : (xs : Text) → 1 ≤ length xs → is_empty xs ≡ false
is_empty-length [] h = absurd (omega (arith, h))
is_empty-length (x ∷ xs) h = refl

trim-digits :
    (xs rest : Text)
    → 1 ≤ length xs
    → all is_digit xs ≡ true
    → trim (xs ++ rest) ≡ trim_end (xs ++ rest)
trim-digits [] rest h k = absurd (omega (arith, h))
trim-digits (x ∷ xs) rest h k = trim-head x (xs ++ rest) (is_space-digit x (ground arith))

-- a rule as text: the limit, the separator, and the window
abbrev pub rule_text : ℕ → Text → ℕ → Text → Text
rule_text limit sep n unit = (print limit ++ sep) ++ (print n ++ unit)

Separator-heads_off : (sep rest : Text) → Separator sep → heads_off is_digit (sep ++ rest) ≡ true
unfolding is_digit
Separator-heads_off _ rest slash = refl
Separator-heads_off _ rest per = refl

-- what the proofs use of a unit
record IsUnit (unit : Text) (size : ℕ) : Type 0 where
  solid : all (λ c. not (is_space c)) unit ≡ true
  off : heads_off is_digit unit ≡ true
  found : get unit duration_units ≡ some size
  folded : get (fold_text unit) duration_units ≡ some size
  piped : all (λ c. not (is_pipe c)) unit ≡ true

is_window-print : (n size : ℕ) (unit : Text) → IsUnit unit size → is_window (print n ++ unit) ≡ true
unfolding is_window
is_window-print n size unit u =
    rw (span-append is_digit (print n) unit (digits-print n) u.off, u.folded)
      (ground (arith, is_empty-length (print n) (length-print n)))

rule_of-print :
    (limit n size : ℕ) (unit : Text) (message : Option Text)
    → IsUnit unit size
    → rule_of (print limit) (some (print n ++ unit)) message
      ≡ some (record { limit = limit; window = n * size; message = message })
unfolding rule_of
rule_of-print limit n size unit message u = rw (
  is_window-print n size unit u,
  parse_duration_ms-unit n size unit u.solid u.off u.found,
  number-print limit,
  is_empty-length (print limit) (length-print limit),
)

trim-rule_text :
    (limit n : ℕ) (sep unit pad : Text)
    → trim_end ((print n ++ unit) ++ pad) ≡ print n ++ unit
    → trim (rule_text limit sep n unit ++ pad) ≡ rule_text limit sep n unit
trim-rule_text limit n sep unit pad h =
    ap trim (
      append_assoc (print limit ++ sep) (print n ++ unit) pad
      ∙ append_assoc (print limit) sep ((print n ++ unit) ++ pad))
    ∙ trim-digits (print limit) (sep ++ ((print n ++ unit) ++ pad)) (length-print limit)
        (digits-print limit)
    ∙ ap trim_end (sym (append_assoc (print limit) sep ((print n ++ unit) ++ pad)))
    ∙ trim_end-append (print limit ++ sep) ((print n ++ unit) ++ pad) (print n ++ unit) h
        (omega (arith, length-append (print n) unit, length-print n))

pipeless-digits : (xs : Text) → all is_digit xs ≡ true → all (λ c. not (is_pipe c)) xs ≡ true
unfolding is_digit
pipeless-digits [] h = refl
pipeless-digits (x ∷ xs) h = ground (arith, pipeless-digits xs)

pipeless-Separator : (sep : Text) → Separator sep → all (λ c. not (is_pipe c)) sep ≡ true
pipeless-Separator _ slash = refl
pipeless-Separator _ per = refl

rule_text-pipeless :
    (limit n : ℕ) (sep unit : Text)
    → Separator sep
    → all (λ c. not (is_pipe c)) unit ≡ true
    → all (λ c. not (is_pipe c)) (rule_text limit sep n unit) ≡ true
rule_text-pipeless limit n sep unit s h =
    all-append (λ c. not (is_pipe c)) (print limit ++ sep) (print n ++ unit)
      (all-append (λ c. not (is_pipe c)) (print limit) sep
        (pipeless-digits (print limit) (digits-print limit)) (pipeless-Separator sep s))
      (all-append (λ c. not (is_pipe c)) (print n) unit (pipeless-digits (print n) (digits-print n))
        h)

-- how a rule text is read whose part before the first pipe is a rule and spaces
parse_rule_string-pad :
    (limit n size : ℕ) (sep unit pad rest : Text) (message : Option Text)
    → Separator sep
    → IsUnit unit size
    → trim_end ((print n ++ unit) ++ pad) ≡ print n ++ unit
    → split_at_pipe rest ≡ (pad, message)
    → parse_rule_string (rule_text limit sep n unit ++ rest)
      ≡ some (record { limit = limit; window = n * size; message = message_of message })
unfolding parse_rule_string
parse_rule_string-pad limit n size sep unit pad rest message s u h split =
    rw
      (
        split_at_pipe-append (rule_text limit sep n unit) rest
            (rule_text-pipeless limit n sep unit s u.piped),
        split,
      )
      (rw (trim-rule_text limit n sep unit pad h) (
        rw (append_assoc (print limit) sep (print n ++ unit)) (
          rw
            (span-append is_digit (print limit) (sep ++ (print n ++ unit)) (digits-print limit)
              (Separator-heads_off sep (print n ++ unit) s))
            (rw
              (after_separator-Separator sep (print n ++ unit) s
                (starts-append (print n) unit (length-print n) (digits-print n)))
              (rule_of-print limit n size unit (message_of message) u)))))

-- what a rule text is read as, alone and with a message between spaces after a pipe
abbrev pub IsRead : ℕ → ℕ → ℕ → Text → Text → Text → Option Text → Type 0
IsRead limit n size sep unit after_pipe message =
    (parse_rule_string (rule_text limit sep n unit)
      ≡ some (record { limit = limit; window = n * size; message = none }))
    × (parse_rule_string (rule_text limit sep n unit ++ (32 ∷ 124 ∷ after_pipe))
        ≡ some (record { limit = limit; window = n * size; message = message }))

IsRead-IsUnit :
    (limit n size : ℕ) (sep unit before core after : Text) (message : Option Text)
    → Separator sep
    → IsUnit unit size
    → all is_space before ≡ true
    → all is_space after ≡ true
    → Message core message
    → IsRead limit n size sep unit (before ++ (core ++ after)) message
unfolding split_at_pipe message_of
IsRead-IsUnit limit n size sep unit before core after message s u h k m =
    let after_pipe = before ++ (core ++ after) in
    let solid =
      all-append (λ c. not (is_space c)) (print n) unit (solid-digits (print n) (digits-print n))
        u.solid in
    (
      rw (← append-nil (rule_text limit sep n unit)) (
          parse_rule_string-pad limit n size sep unit [] [] none s u
            (rw (append-nil (print n ++ unit)) (trim_end-solid (print n ++ unit) solid)) refl),
      parse_rule_string-pad limit n size sep unit (32 ∷ []) (32 ∷ 124 ∷ after_pipe)
            (some after_pipe) s u (trim_end-space (print n ++ unit) solid) refl
          ∙ ap {B = Option RateLimitRule}
              (λ x. some (record { limit = limit; window = n * size; message = x }))
              (message_of-Message before core after message h k m),
    )

known_units : All (λ unit. IsUnit unit.0 unit.1) duration_units
unfolding get is_digit is_space
known_units = (
  record { solid = refl; off = refl; found = refl; folded = refl; piped = refl },
  (
    record { solid = refl; off = refl; found = refl; folded = refl; piped = refl },
    (
      record { solid = refl; off = refl; found = refl; folded = refl; piped = refl },
      (
        record { solid = refl; off = refl; found = refl; folded = refl; piped = refl },
        (record { solid = refl; off = refl; found = refl; folded = refl; piped = refl }, tt),
      ),
    ),
  ),
)

-- A rule written as a limit, `/` or ` per `, and a number of some unit is read as that limit and
-- that window, without a message. With ` |` and a text after it, it is read with that text as its
-- message, without the spaces around it; where the text is nothing but spaces, there is no message.
pub parse_rule_string-print :
    (limit n : ℕ) (sep before core after : Text) (message : Option Text)
    → Separator sep
    → all is_space before ≡ true
    → all is_space after ≡ true
    → Message core message
    → All
        (λ unit. IsRead limit n unit.1 sep unit.0 (before ++ (core ++ after)) message)
        duration_units
parse_rule_string-print limit n sep before core after message s h k m =
    All-map (λ unit u. IsRead-IsUnit limit n unit.1 sep unit.0 before core after message s u h k m)
      duration_units known_units
