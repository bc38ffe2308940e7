-- ===== src/User/Totp.antt =====
-- packages/user/src/mfa/totp.ts: `hotpCode`, `generateTotpCode`, `verifyTotpCode` and
-- `generateMfaCode`. The decoding of a secret (`base32.decode`) and HMAC-SHA1 are the arguments
-- `decode` and `hmac`; a `RangeError` that is thrown is `none`.
pub mod Utf8
pub mod Digits
pub mod Window
pub mod Accept
pub mod Tests
use aoothjs.Base.{
  or_default, ◌/◌, ◌*◌, ◌%◌, ◌^◌, all, ℕ, zero, suc, ◌+◌, ◌-◌, ◌≤◌, ◌<◌, ◌≡◌, refl, sym, ap, ◌∙◌,
  ◌≢◌, ◌↔◌, ◌⊎◌, inl, inr, String, Bool, true, false, not, ◌&&◌, ◌||◌, Option, none, some, List, [],
  ◌∷◌, ◌++◌, map, arith, ltb, leb, nat_beq, ltb→lt, lt→ltb, leb→le, le→leb, nat_beq_iff, Bool-cases,
  Option-cases, if◌then◌else◌, length, any, filter, or_else, length-append, length-filter-le, Text,
  text_eq, nat_eq, All-map, All-append, All_right, string_eq, ◌==◌, ==_refl, eq_of_==, All,
}
use aoothjs.RateLimit.Rules.Numbers.{print}
use aoothjs.User.Totp.Utf8.{utf8}

pub record TotpConfig : Type 0 where
  pub period : Option ℕ
  pub digits : Option ℕ
  pub window : Option ℕ

abbrev pub period_of : TotpConfig → ℕ
period_of config = or_default 30 config.period

abbrev pub digits_of : TotpConfig → ℕ
digits_of config = or_default 6 config.digits

abbrev pub window_of : TotpConfig → ℕ
window_of config = or_default 1 config.window

-- `Math.floor(now / 1000 / period)` of a positive period
abbrev pub counter_at : ℕ → TotpConfig → ℕ
counter_at now config = now / 1000 / period_of config

-- `writeUInt32BE`
abbrev pub uint32_be : ℕ → List ℕ
uint32_be n = n / 0x1000000 % 256 ∷ n / 0x10000 % 256 ∷ n / 0x100 % 256 ∷ n % 256 ∷ []

-- The eight bytes of a counter: `writeUInt32BE` throws when the upper half is out of range.
unfoldable pub counter_bytes : ℕ → Option (List ℕ)
counter_bytes counter =
    if ltb (counter / 0x100000000) 0x100000000
    then some (uint32_be (counter / 0x100000000) ++ uint32_be (counter % 0x100000000))
    else none

-- a byte of a buffer; `undefined`, which is read past its end, has no bit set
unfoldable pub byte_at : List ℕ → ℕ → ℕ
byte_at [] i = 0
byte_at (b ∷ bs) zero = b
byte_at (b ∷ bs) (suc i) = byte_at bs i

-- The dynamic truncation of a digest. The shifted bytes have no bit in common, so `|` adds them.
unfoldable pub truncated : List ℕ → ℕ
unfolding byte_at
truncated digest =
    let offset = byte_at digest (length digest - 1) % 16 in
    byte_at digest offset % 128 * 0x1000000
    + byte_at digest (offset + 1) % 256 * 0x10000
    + byte_at digest (offset + 2) % 256 * 0x100
    + byte_at digest (offset + 3) % 256

abbrev pub repeated : ℕ → ℕ → Text
repeated zero c = []
repeated (suc n) c = c ∷ repeated n c

-- `padStart` with one character
unfoldable pub pad_start : ℕ → ℕ → Text → Text
pad_start n c t = repeated (n - length t) c ++ t

unfoldable pub code_text : ℕ → List ℕ → Text
unfolding pad_start print truncated
code_text digits digest = pad_start digits 48 (print (truncated digest % 10 ^ digits))

abbrev pub with_digest : (List ℕ → Text) → Option (List ℕ) → Option Text
with_digest f none = none
with_digest f (some bytes) = some (f bytes)

module _ {Key : Type 0} (decode : Text → Key) (hmac : Key → List ℕ → List ℕ) where
  unfoldable pub hotp_code : Key → ℕ → ℕ → Option Text
  unfolding counter_bytes code_text
  hotp_code key counter digits =
      with_digest (λ bytes. code_text digits (hmac key bytes)) (counter_bytes counter)

  unfoldable pub generate_totp_code : ℕ → Text → TotpConfig → Option Text
  unfolding hotp_code
  generate_totp_code now secret config =
      hotp_code (decode secret) (counter_at now config) (digits_of config)

  -- the code of the step `counter + (k - window)`; a negative counter is out of range
  unfoldable pub step_code : Key → ℕ → ℕ → ℕ → ℕ → Option Text
  unfolding hotp_code
  step_code key digits window counter k =
      if leb window (counter + k) then hotp_code key (counter + k - window) digits else none

  -- The loop over the window, of which `left` steps are left: every step runs, the last match is
  -- kept.
  unfoldable pub scan : Key → ℕ → ℕ → ℕ → Text → ℕ → ℕ → Option ℕ → Option (Option ℕ)
  unfolding step_code utf8
  scan key digits window counter code zero k matched = some matched
  scan key digits window counter code (suc left) k matched =
      elim (step_code key digits window counter k) [
        | none ↦ none
        | some expected ↦
            scan key digits window counter code left (suc k)
              (if utf8 expected == utf8 code then some (counter + k - window) else matched)
      ]

  unfoldable pub verify_totp_code : ℕ → Text → Text → TotpConfig → Option (Option ℕ)
  unfolding scan
  verify_totp_code now secret code config =
      if nat_beq (length code) (digits_of config)
      then scan (decode secret) (digits_of config) (window_of config) (counter_at now config) code
          (2 * window_of config + 1) 0 none
      else some none

-- `generateMfaCode`: the digits that `randomInt(10)` answers, one after the other
unfoldable pub generate_mfa_code : (ℕ → ℕ) → ℕ → Text
unfolding print
generate_mfa_code random_int zero = []
generate_mfa_code random_int (suc length) =
    generate_mfa_code random_int length ++ print (random_int length)
