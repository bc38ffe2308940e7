-- ===== src/User/Totp/Window.antt =====
-- packages/user/src/mfa/totp.ts: which codes `verifyTotpCode` matches, and to which counter.
use aoothjs.Base.{
  ◌*◌, ◌/◌, all, ℕ, zero, suc, ◌+◌, ◌-◌, ◌≤◌, ◌<◌, ◌≡◌, refl, sym, ap, ◌∙◌, ◌⊎◌, inl, inr, true,
  Option, none, some, List, arith, ltb, leb, lt→ltb, leb→le, le→leb, Bool-cases, Option-cases,
  if◌then◌else◌, length, Text, text_eq, nat_eq, string_eq, ◌==◌, ==_refl, eq_of_==,
}
use aoothjs.User.Totp.Utf8.{utf8, is_ascii, utf8-ascii_injective}
use aoothjs.User.Totp.Digits.{length-code_text, ascii-code_text}
use aoothjs.User.Totp.{counter_bytes, code_text, hotp_code, step_code, scan}

now_or_later : (k j : ℕ) → k ≤ j → (k ≡ j) ⊎ (k < j)
now_or_later k j h = omega (arith, h)

module _ {Key : Type 0} (decode : Text → Key) (hmac : Key → List ℕ → List ℕ) where
  hotp_code_inv :
      (key : Key) (counter digits : ℕ) (code : Text)
      → hotp_code decode hmac key counter digits ≡ some code
      → (bytes : List ℕ) × (code ≡ code_text digits (hmac key bytes))
  unfolding hotp_code
  hotp_code_inv key counter digits code h = elim (Option-cases (counter_bytes counter)) [
    | inl gone ↦ absurd (ground (arith, simp gone at h))
    | inr (bytes, there) ↦
        let e : some (code_text digits (hmac key bytes)) ≡ some code = simp there at h in
        (bytes, ground (arith, e))
  ]

  hotp_code-ascii :
      (key : Key) (counter digits : ℕ) (code : Text)
      → hotp_code decode hmac key counter digits ≡ some code
      → all is_ascii code ≡ true
  hotp_code-ascii key counter digits code h =
      let (bytes, e) = hotp_code_inv key counter digits code h in
      rw e (ascii-code_text digits (hmac key bytes))

  pub length-hotp_code :
      (key : Key) (counter digits : ℕ) (code : Text)
      → 1 ≤ digits
      → hotp_code decode hmac key counter digits ≡ some code
      → length code ≡ digits
  length-hotp_code key counter digits code some_digits h =
      let (bytes, e) = hotp_code_inv key counter digits code h in
      ap length e ∙ length-code_text digits (hmac key bytes) some_digits

  -- the code of a counter that the window around the current one holds
  abbrev pub IsCurrent : Key → ℕ → ℕ → ℕ → Text → ℕ → Type 0
  IsCurrent key digits window counter code c =
      (hotp_code decode hmac key c digits ≡ some code)
      × (counter ≤ c + window)
      × (c ≤ counter + window)

  module _ (key : Key) (digits window counter : ℕ) where
    step_code_inv :
        (k : ℕ) (expected : Text)
        → step_code decode hmac key digits window counter k ≡ some expected
        → (window ≤ counter + k)
          × (hotp_code decode hmac key (counter + k - window) digits ≡ some expected)
    unfolding step_code
    step_code_inv k expected h = elim (Bool-cases (leb window (counter + k))) [
      | inl low ↦ (leb→le window (counter + k) low, simp low at h)
      | inr high ↦ absurd (ground (arith, simp high at h))
    ]

    module _ (code : Text) where
      abbrev next_match : ℕ → Text → Option ℕ → Option ℕ
      next_match k expected matched =
          if utf8 expected == utf8 code then some (counter + k - window) else matched

      -- what one step of the loop does
      scan_step :
          (left k : ℕ) (matched : Option ℕ) (expected : Text)
          → step_code decode hmac key digits window counter k ≡ some expected
          → scan decode hmac key digits window counter code (suc left) k matched
            ≡ scan decode hmac key digits window counter code left
                (suc k)
                (next_match k expected matched)
      unfolding scan
      scan_step left k matched expected h = rw (h, scan) refl

      scan_throws :
          (left k : ℕ) (matched : Option ℕ)
          → step_code decode hmac key digits window counter k ≡ none
          → scan decode hmac key digits window counter code (suc left) k matched ≡ none
      unfolding scan
      scan_throws left k matched h = rw (h, scan) refl

      unfoldable pub AllCurrent : Option ℕ → Type 0
      AllCurrent matched = (c : ℕ) → matched ≡ some c → IsCurrent key digits window counter code c

      next_match-AllCurrent :
          (k : ℕ) (matched : Option ℕ) (expected : Text)
          → k ≤ 2 * window
          → step_code decode hmac key digits window counter k ≡ some expected
          → AllCurrent matched
          → AllCurrent (next_match k expected matched)
      unfolding AllCurrent
      next_match-AllCurrent k matched expected inside h current c e =
          elim (Bool-cases (utf8 expected == utf8 code)) [
            | inl same ↦
                let (low, hotp) = step_code_inv k expected h in
                let here : some (counter + k - window) ≡ some c = simp same at e in
                let eq : counter + k - window ≡ c = ground (arith, here) in
                let bytes : utf8 expected ≡ utf8 code = eq_of_== (utf8 expected) (utf8 code) same in
                let ascii = hotp_code-ascii key (counter + k - window) digits expected hotp in
                let text = utf8-ascii_injective expected code ascii bytes in
                (
                  sym (ap (λ x. hotp_code decode hmac key x digits) eq) ∙ hotp ∙ ap some text,
                  omega (arith, eq, low),
                  omega (arith, eq, low, inside),
                )
            | inr other ↦ current c (simp other at e)
          ]

      pub scan-IsCurrent :
          (left k : ℕ) (matched : Option ℕ) (c : ℕ)
          → k + left ≤ 2 * window + 1
          → AllCurrent matched
          → scan decode hmac key digits window counter code left k matched ≡ some (some c)
          → IsCurrent key digits window counter code c
      unfolding scan AllCurrent
      scan-IsCurrent zero k matched c inside current h = current c (ground (arith, h))
      scan-IsCurrent (suc left) k matched c inside current h =
          elim (Option-cases (step_code decode hmac key digits window counter k)) [
            | inl gone ↦
                let thrown = sym (scan_throws left k matched gone) ∙ h in
                absurd (ground (arith, thrown))
            | inr (expected, there) ↦
                scan-IsCurrent left (suc k) (next_match k expected matched) c
                  (omega (arith, inside))
                  (next_match-AllCurrent k matched expected (omega (arith, inside)) there current)
                  (sym (scan_step left k matched expected there) ∙ h)
          ]

      -- a clock past the first steps, and before the end of the eight bytes
      abbrev pub InRange : Type 0
      InRange = (window ≤ counter) × (counter + window < 0x10000000000000000)

      step_code-some :
          (k : ℕ)
          → InRange
          → k ≤ 2 * window
          → (expected : Text) × (step_code decode hmac key digits window counter k ≡ some expected)
      unfolding step_code hotp_code counter_bytes
      step_code-some k (low, high) inside =
          let reached : leb window (counter + k) ≡ true =
            le→leb window (counter + k) (omega (arith, low)) in
          let fits : ltb ((counter + k - window) / 0x100000000) 0x100000000 ≡ true =
            lt→ltb ((counter + k - window) / 0x100000000) 0x100000000
              (omega (arith, low, high, inside)) in
          rw (reached, fits) (_, refl)

      -- nothing that is matched is lost
      scan-keeps :
          (left k m : ℕ)
          → InRange
          → k + left ≤ 2 * window + 1
          → (c : ℕ) × (scan decode hmac key digits window counter code left k (some m)
              ≡ some (some c))
      unfolding scan
      scan-keeps zero k m range inside = (m, refl)
      scan-keeps (suc left) k m range inside =
          let (expected, there) = step_code-some k range (omega (arith, inside)) in
          let next = scan_step left k (some m) expected there in
          elim (Bool-cases (utf8 expected == utf8 code)) [
            | inl same ↦
                let (c, e) =
                  scan-keeps left (suc k) (counter + k - window) range (omega (arith, inside)) in
                (c, next ∙ rw same e)
            | inr other ↦
                let (c, e) = scan-keeps left (suc k) m range (omega (arith, inside)) in
                (c, next ∙ rw other e)
          ]

      pub scan-finds :
          (left k j : ℕ) (matched : Option ℕ)
          → InRange
          → k + left ≤ 2 * window + 1
          → k ≤ j
          → j < k + left
          → step_code decode hmac key digits window counter j ≡ some code
          → (c : ℕ) × (scan decode hmac key digits window counter code left k matched
              ≡ some (some c))
      scan-finds zero k j matched range inside low high h = absurd (omega (arith, low, high))
      scan-finds (suc left) k j matched range inside low high h = elim (now_or_later k j low) [
        | inl here ↦
            let now : step_code decode hmac key digits window counter k ≡ some code =
              ap (step_code decode hmac key digits window counter) here ∙ h in
            let (c, e) =
              scan-keeps left (suc k) (counter + k - window) range (omega (arith, inside)) in
            (c, scan_step left k matched code now ∙ rw (==_refl (utf8 code)) e)
        | inr later ↦
            let (expected, there) = step_code-some k range (omega (arith, inside)) in
            let (c, e) =
              scan-finds left (suc k) j (next_match k expected matched) range
                (omega (arith, inside)) (omega (arith, low, later)) (omega (arith, high)) h in
            (c, scan_step left k matched expected there ∙ e)
      ]
