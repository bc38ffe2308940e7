-- ===== src/User/Totp/Accept.antt =====
-- packages/user/src/mfa/totp.ts: `verifyTotpCode` against `hotpCode` and `generateTotpCode`.
use aoothjs.Base.{
  ◌*◌, ℕ, ◌+◌, ◌-◌, ◌≤◌, ◌<◌, ◌≡◌, inl, inr, true, none, some, List, arith, leb, nat_beq, le→leb,
  nat_beq_iff, Bool-cases, length, Text, text_eq, nat_eq, string_eq,
}
use aoothjs.User.Totp.{
  TotpConfig, digits_of, window_of, counter_at, generate_totp_code, step_code, verify_totp_code,
}
use aoothjs.User.Totp.Window.{IsCurrent, AllCurrent, length-hotp_code, scan-IsCurrent, scan-finds}

module _ {Key : Type 0} (decode : Text → Key) (hmac : Key → List ℕ → List ℕ) where
  -- A code that is verified is the code of the counter that is answered, which lies within the
  -- window of the clock.
  pub verify_totp_code-IsCurrent :
      (now : ℕ) (secret code : Text) (config : TotpConfig) (c : ℕ)
      → verify_totp_code decode hmac now secret code config ≡ some (some c)
      → IsCurrent decode hmac
          (decode secret)
          (digits_of config)
          (window_of config)
          (counter_at now config)
          code
          c
  unfolding verify_totp_code AllCurrent
  verify_totp_code-IsCurrent now secret code config c h =
      elim (Bool-cases (nat_beq (length code) (digits_of config))) [
        | inl long ↦
            scan-IsCurrent decode hmac (decode secret) (digits_of config) (window_of config)
              (counter_at now config) code (2 * window_of config + 1) 0 none c (omega arith)
              (λ m e. absurd (ground (arith, e))) (simp long at h)
        | inr other ↦ absurd (ground (arith, simp other at h))
      ]

  -- A code that was generated from a secret is verified with it, where the counters of the two
  -- clocks lie within the window of each other, the codes have digits, and the window stays within
  -- the counters from zero to the last of eight bytes. The counter that is matched lies within the
  -- window of the clock, and the code is its code.
  pub verify_totp_code-generate_totp_code :
      (now sent : ℕ) (secret code : Text) (config : TotpConfig)
      → 1 ≤ digits_of config
      → generate_totp_code decode hmac sent secret config ≡ some code
      → window_of config ≤ counter_at now config
      → counter_at now config + window_of config < 0x10000000000000000
      → counter_at now config ≤ counter_at sent config + window_of config
      → counter_at sent config ≤ counter_at now config + window_of config
      → (c : ℕ) × (verify_totp_code decode hmac now secret code config ≡ some (some c))
        × IsCurrent decode hmac
            (decode secret)
            (digits_of config)
            (window_of config)
            (counter_at now config)
            code
            c
  unfolding verify_totp_code generate_totp_code step_code
  verify_totp_code-generate_totp_code now sent secret code config some_digits made early late recent
        soon =
      let counter = counter_at now config in
      let window = window_of config in
      let j = counter_at sent config + window - counter in
      let long : nat_beq (length code) (digits_of config) ≡ true =
        (nat_beq_iff (length code) (digits_of config)).1 (
          length-hotp_code decode hmac (decode secret) (counter_at sent config) (digits_of config)
            code some_digits made) in
      let reached : leb window (counter + j) ≡ true =
        le→leb window (counter + j) (omega (arith, recent)) in
      let there : counter + j - window ≡ counter_at sent config = omega (arith, recent) in
      let step : step_code decode hmac (decode secret) (digits_of config) window counter j
          ≡ some code =
        rw (reached, there) made in
      let (c, e) =
        scan-finds decode hmac (decode secret) (digits_of config) window counter code
          (2 * window + 1) 0 j none (early, late) (omega arith) (omega arith)
          (omega (arith, soon, recent)) step in
      let found : verify_totp_code decode hmac now secret code config ≡ some (some c) = rw long e in
      (c, found, verify_totp_code-IsCurrent now secret code config c found)
