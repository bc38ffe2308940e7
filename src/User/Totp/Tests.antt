-- ===== src/User/Totp/Tests.antt =====
-- packages/user/src/mfa/totp.ts on concrete inputs: the example of RFC 4226, and a toy HMAC, which
-- appends the counter to the key.
use aoothjs.Base.{
  units, ℕ, ◌+◌, ◌≡◌, refl, none, some, List, [], ◌∷◌, ◌++◌, arith, Text, text_eq, nat_eq,
  string_eq,
}
use aoothjs.User.Totp.Utf8.{utf8}
use aoothjs.RateLimit.Rules.Numbers.{print}
use aoothjs.User.Totp.{
  TotpConfig, counter_bytes, byte_at, truncated, pad_start, code_text, hotp_code,
  generate_totp_code, step_code, scan, verify_totp_code, generate_mfa_code,
}
use aoothjs.User.Totp.Window.{IsCurrent}
use aoothjs.User.Totp.Accept.{verify_totp_code-IsCurrent, verify_totp_code-generate_totp_code}

abbrev rfc_digest : List ℕ
rfc_digest =
    0x1f ∷ 0x86 ∷ 0x98 ∷ 0x69 ∷ 0x0e ∷ 0x02 ∷ 0xca ∷ 0x16 ∷ 0x61 ∷ 0x85 ∷ 0x50 ∷ 0xef ∷ 0x7f ∷ 0x19
    ∷ 0xda ∷ 0x8e ∷ 0x94 ∷ 0x5b ∷ 0x55 ∷ 0x5a ∷ []

rfc_truncated : truncated rfc_digest ≡ 0x50ef7f19
unfolding truncated byte_at
rfc_truncated = refl

rfc_code : code_text 6 rfc_digest ≡ units "872921"
unfolding code_text pad_start print truncated byte_at units
rfc_code = refl

padded_code : pad_start 6 48 (units "42") ≡ units "000042"
unfolding pad_start units
padded_code = refl

wide_bytes :
    utf8 (0x41 ∷ 0xE9 ∷ 0x20AC ∷ 0xD83D ∷ 0xDE00 ∷ 0xD83D ∷ [])
    ≡ 0x41 ∷ 0xC3 ∷ 0xA9 ∷ 0xE2 ∷ 0x82 ∷ 0xAC ∷ 0xF0 ∷ 0x9F ∷ 0x98 ∷ 0x80 ∷ 0xEF ∷ 0xBF ∷ 0xBD ∷ []
unfolding utf8
wide_bytes = refl

too_late : counter_bytes 0x10000000000000000 ≡ none
unfolding counter_bytes
too_late = refl

drawn_code : generate_mfa_code (λ i. i + 3) 4 ≡ units "3456"
unfolding generate_mfa_code print units
drawn_code = refl

abbrev decoded : Text → List ℕ
decoded secret = secret

abbrev toy_hmac : List ℕ → List ℕ → List ℕ
toy_hmac key bytes = key ++ bytes

abbrev plain : TotpConfig
plain = record { period = none; digits = none; window = none }

abbrev secret : Text
secret = 1 ∷ 2 ∷ 3 ∷ 4 ∷ 5 ∷ 6 ∷ 7 ∷ 8 ∷ 9 ∷ 10 ∷ 11 ∷ 12 ∷ []

-- the code of the step at 60 seconds
abbrev sent_code : Text
sent_code = units "595078"

made_code : generate_totp_code decoded toy_hmac 60000 secret plain ≡ some sent_code
unfolding generate_totp_code hotp_code counter_bytes code_text pad_start print truncated byte_at
    units
made_code = refl

verify_totp_code-generate_totp_code_example :
    (c : ℕ) × (verify_totp_code decoded toy_hmac 95000 secret sent_code plain ≡ some (some c))
    × IsCurrent decoded toy_hmac (decoded secret) 6 1 3 sent_code c
verify_totp_code-generate_totp_code_example =
    verify_totp_code-generate_totp_code decoded toy_hmac 95000 60000 secret sent_code plain
      (omega arith) made_code (omega arith) (omega arith) (omega arith) (omega arith)

verified_code : verify_totp_code decoded toy_hmac 95000 secret sent_code plain ≡ some (some 2)
unfolding verify_totp_code scan step_code hotp_code counter_bytes code_text pad_start print
    truncated byte_at utf8 units
verified_code = refl

verify_totp_code-IsCurrent_example : IsCurrent decoded toy_hmac (decoded secret) 6 1 3 sent_code 2
verify_totp_code-IsCurrent_example =
    verify_totp_code-IsCurrent decoded toy_hmac 95000 secret sent_code plain 2 verified_code

-- the clock's first steps have no counter before them
first_steps : verify_totp_code decoded toy_hmac 5000 secret sent_code plain ≡ none
unfolding verify_totp_code scan step_code units
first_steps = refl
