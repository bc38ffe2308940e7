-- ===== src/User/Totp/Digits.antt =====
-- packages/user/src/mfa/totp.ts: the text of a code has as many digits as it is asked for.
use aoothjs.Base.{
  ◌/◌, ◌%◌, ◌^◌, all, all-append, ℕ, zero, suc, ◌+◌, ◌-◌, ◌≤◌, ◌<◌, ◌≡◌, refl, ap, ◌∙◌, inl, inr,
  true, List, [], ◌∷◌, arith, ltb, Bool-cases, length, length-append, Text, text_eq, nat_eq,
  string_eq,
}
use aoothjs.RateLimit.Rules.Numbers.{is_digit, print_from, print, digits-print}
use aoothjs.User.Totp.Utf8.{is_ascii}
use aoothjs.User.Totp.{repeated, pad_start, truncated, code_text}

length-print_from :
    (fuel n d : ℕ) (acc : Text)
    → n < fuel
    → n < 10 ^ suc d
    → length (print_from fuel n acc) ≤ suc d + length acc
unfolding print_from
length-print_from zero n d acc h k = elim h [ ]
length-print_from (suc fuel) n zero acc h k =
    let small : ltb n 10 ≡ true = ground (arith, k) in rw small (omega arith)
length-print_from (suc fuel) n (suc d) acc h k = elim (Bool-cases (ltb n 10)) [
  | inl small ↦ rw small (omega arith)
  | inr large ↦
      let fits : n / 10 < 10 ^ suc d = omega (arith, k) in
      let rest =
        length-print_from fuel (n / 10) d ((48 + n % 10) ∷ acc) (ground (arith, h, large)) fits in
      rw large (omega (arith, rest))
]

repeated-length : (n c : ℕ) → length (repeated n c) ≡ n
repeated-length zero c = refl
repeated-length (suc n) c = ap suc (repeated-length n c)

remainder : (m k : ℕ) → 1 ≤ k → m % k < k
remainder m k h = omega (arith, h)

ten_pow : (n : ℕ) → 1 ≤ 10 ^ n
ten_pow zero = omega arith
ten_pow (suc n) = omega (arith, ten_pow n)

length-pad_start : (n c : ℕ) (t : Text) → length t ≤ n → length (pad_start n c t) ≡ n
unfolding pad_start
length-pad_start n c t h =
    length-append (repeated (n - length t) c) t
    ∙ ap (λ k. k + length t) (repeated-length (n - length t) c)
    ∙ omega (arith, h)

-- a number below `10 ^ d` is printed with at most `d` digits, so the padding makes them `d`
pub length-code_text : (d : ℕ) (digest : List ℕ) → 1 ≤ d → length (code_text d digest) ≡ d
unfolding code_text print
length-code_text zero digest h = absurd (omega (arith, h))
length-code_text (suc d) digest h =
    let n = truncated digest % 10 ^ suc d in
    let small : n < 10 ^ suc d = remainder (truncated digest) (10 ^ suc d) (ten_pow (suc d)) in
    let short = length-print_from (suc n) n d [] (omega arith) small in
    length-pad_start (suc d) 48 (print_from (suc n) n []) (omega (arith, short))

repeated-digits : (n : ℕ) → all is_digit (repeated n 48) ≡ true
unfolding is_digit
repeated-digits zero = refl
repeated-digits (suc n) = repeated-digits n

ascii-digits : (t : Text) → all is_digit t ≡ true → all is_ascii t ≡ true
unfolding is_digit
ascii-digits [] h = refl
ascii-digits (c ∷ cs) h = ground (arith, h, ascii-digits cs)

pub ascii-code_text : (d : ℕ) (digest : List ℕ) → all is_ascii (code_text d digest) ≡ true
unfolding code_text pad_start
ascii-code_text d digest =
    let n = truncated digest % 10 ^ d in
    ascii-digits (pad_start d 48 (print n)) (
      all-append is_digit (repeated (d - length (print n)) 48) (print n)
        (repeated-digits (d - length (print n))) (digits-print n))
