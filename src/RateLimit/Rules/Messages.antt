-- ===== src/RateLimit/Rules/Messages.antt =====
-- The message of a rule text of packages/auth/src/rate-limit/rules.ts: what is between the spaces
-- after the pipe.
use mathlib.Core.List.{append_assoc, append-nil}
use aoothjs.Base.{
  if◌then◌else◌, ap, ◌∙◌, sym, ℕ, ◌≡◌, refl, Bool, true, false, not, ◌&&◌, Option, none, some, [],
  ◌∷◌, ◌++◌, arith, all, all-append, Text,
}
use aoothjs.RateLimit.Rules.Numbers.{
  is_space, trim, span-append, heads_off, trim_end, trim_end-append,
}
use aoothjs.RateLimit.Rules.Duration.{is_empty}
use aoothjs.RateLimit.Rules.Parse.{message_of}

-- a message without spaces at its ends: none, or one from a first character to a last one
pub data Message : Text → Option Text → Type 0 where
  blank : Message [] none
  short : (c : ℕ) → is_space c ≡ false → Message (c ∷ []) (some (c ∷ []))
  long :
      (c : ℕ) (middle : Text) (d : ℕ)
      → is_space c ≡ false
      → is_space d ≡ false
      → Message (c ∷ middle ++ d ∷ []) (some (c ∷ middle ++ d ∷ []))

both : (a b : Bool) → (a && b) ≡ true → (a ≡ true) × (b ≡ true)
both a b h = (ground (arith, h), ground (arith, h))

trim_end-blank : (xs : Text) → all is_space xs ≡ true → trim_end xs ≡ []
unfolding trim_end
trim_end-blank [] h = refl
trim_end-blank (x ∷ xs) h =
    let (space, rest) = both (is_space x) (all is_space xs) h in
    rw (trim_end-blank xs rest, space, trim_end) refl

trim_end-last :
    (d : ℕ) (xs : Text) → is_space d ≡ false → all is_space xs ≡ true → trim_end (d ∷ xs) ≡ d ∷ []
unfolding trim_end
trim_end-last d xs off h = rw (trim_end-blank xs h, off, trim_end) refl

trim-front :
    (before rest : Text)
    → all is_space before ≡ true
    → heads_off is_space rest ≡ true
    → trim (before ++ rest) ≡ trim_end rest
unfolding trim
trim-front before rest h k = rw (span-append is_space before rest h k) refl

message_by :
    (m t : Text) (message : Option Text)
    → trim m ≡ t
    → (if is_empty t then none else some t) ≡ message
    → message_of (some m) ≡ message
unfolding message_of
message_by m t message trimmed kept = ap (λ x. if is_empty x then none else some x) trimmed ∙ kept

-- the message is what is left without the spaces around it
pub message_of-Message :
    (before core after : Text) (message : Option Text)
    → all is_space before ≡ true
    → all is_space after ≡ true
    → Message core message
    → message_of (some (before ++ (core ++ after))) ≡ message
unfolding trim_end
message_of-Message before _ after _ h k blank =
    message_by (before ++ after) [] none
      (ap trim (sym (append-nil (before ++ after)))
        ∙ trim-front (before ++ after) [] (all-append is_space before after h k) refl)
      refl
message_of-Message before _ after _ h k (short c off) =
    message_by (before ++ c ∷ after) (c ∷ []) (some (c ∷ []))
      (trim-front before (c ∷ after) h (ap not off) ∙ trim_end-last c after off k) refl
message_of-Message before _ after _ h k (long c middle d off last) =
    let core : Text = c ∷ middle ++ d ∷ [] in
    message_by (before ++ (core ++ after)) core (some core)
      (trim-front before (core ++ after) h (ap not off)
        ∙ ap trim_end (append_assoc (c ∷ middle) (d ∷ []) after)
        ∙ trim_end-append (c ∷ middle) (d ∷ after) (d ∷ []) (trim_end-last d after last k)
            (omega arith))
      refl
