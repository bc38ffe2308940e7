-- ===== src/RateLimit/Rules/Numbers.antt =====
-- The parts of JavaScript's standard library that packages/auth/src/rate-limit/rules.ts reads and
-- writes numbers with: `\d`, `\s`, `trim`, `Number` on digits and `String` on a number.
use aoothjs.Base.{
  Text, ℕ, zero, suc, ◌+◌, ◌-◌, ◌*◌, ◌/◌, ◌%◌, ◌≤◌, ◌<◌, ◌≡◌, refl, ap, ◌∙◌, Bool, true, false, not,
  ◌&&◌, ◌||◌, [], ◌∷◌, ◌++◌, arith, leb, ltb, nat_beq, length, all, Bool-cases, inl, inr,
  if◌then◌else◌,
}

unfoldable pub is_digit : ℕ → Bool
is_digit c = leb 48 c && leb c 57

-- `\s`, which is also what `trim` removes
unfoldable pub is_space : ℕ → Bool
is_space c =
    (leb 9 c && leb c 13)
    || nat_beq c 32
    || nat_beq c 0xa0
    || nat_beq c 0x1680
    || (leb 0x2000 c && leb c 0x200a)
    || nat_beq c 0x2028
    || nat_beq c 0x2029
    || nat_beq c 0x202f
    || nat_beq c 0x205f
    || nat_beq c 0x3000
    || nat_beq c 0xfeff

-- the longest prefix whose characters pass the test, and the rest
unfoldable pub span : (ℕ → Bool) → Text → Text × Text
span p [] = ([], [])
span p (c ∷ cs) = let (run, rest) = span p cs in if p c then (c ∷ run, rest) else ([], c ∷ cs)

unfoldable pub trim_end : Text → Text
unfolding is_space
trim_end [] = []
trim_end (c ∷ cs) = elim (trim_end cs) [
  | [] ↦ if is_space c then [] else c ∷ []
  | x ∷ xs ↦ c ∷ x ∷ xs
]

unfoldable pub trim : Text → Text
unfolding trim_end span is_space
trim t = trim_end (span is_space t).1

-- `Number` on a run of digits
unfoldable pub number_from : ℕ → Text → ℕ
number_from n [] = n
number_from n (c ∷ cs) = number_from (n * 10 + (c - 48)) cs

abbrev pub number : Text → ℕ
number = number_from 0

-- `String` on a number, by division; the fuel is the number itself
unfoldable pub print_from : ℕ → ℕ → Text → Text
print_from zero n acc = acc
print_from (suc fuel) n acc =
    let d = (48 + n % 10) ∷ acc in
    let rest = print_from fuel (n / 10) d in if ltb n 10 then d else rest

unfoldable pub print : ℕ → Text
unfolding print_from
print n = print_from (suc n) n []

-- the digits of a number stand for it
number_from-print_from :
    (fuel n : ℕ) (acc : Text) → n < fuel → number_from 0 (print_from fuel n acc) ≡ number_from n acc
unfolding number_from print_from
number_from-print_from zero n acc h = elim h [ ]
number_from-print_from (suc fuel) n acc h = elim (Bool-cases (ltb n 10)) [
  | inl small ↦ rw small (ap (λ k. number_from k acc) (ground arith))
  | inr large ↦ rw large (
      number_from-print_from fuel (n / 10) ((48 + n % 10) ∷ acc) (ground arith)
      ∙ ap (λ k. number_from k acc) (omega arith))
]

pub number-print : (n : ℕ) → number (print n) ≡ n
unfolding print number_from
number-print n = number_from-print_from (suc n) n [] (omega arith)

digits-print_from :
    (fuel n : ℕ) (acc : Text)
    → all is_digit acc ≡ true
    → all is_digit (print_from fuel n acc) ≡ true
unfolding print_from is_digit
digits-print_from zero n acc h = h
digits-print_from (suc fuel) n acc h =
    let digit : is_digit (48 + n % 10) ≡ true = ground arith in
    elim (Bool-cases (ltb n 10)) [
      | inl small ↦ rw small (ground (arith, digit, h))
      | inr large ↦
          rw large
            (digits-print_from fuel (n / 10) ((48 + n % 10) ∷ acc) (ground (arith, digit, h)))
    ]

pub digits-print : (n : ℕ) → all is_digit (print n) ≡ true
unfolding print
digits-print n = digits-print_from (suc n) n [] refl

longer : (fuel n : ℕ) (acc : Text) → length acc ≤ length (print_from fuel n acc)
unfolding print_from
longer zero n acc = omega arith
longer (suc fuel) n acc = ground (arith, longer fuel (n / 10) ((48 + n % 10) ∷ acc))

pub length-print : (n : ℕ) → 1 ≤ length (print n)
unfolding print print_from
length-print n = ground (arith, longer n (n / 10) ((48 + n % 10) ∷ []))

-- no character of the run passes the test
abbrev pub heads_off : (ℕ → Bool) → Text → Bool
heads_off p [] = true
heads_off p (c ∷ _) = not (p c)

pub span-append :
    (p : ℕ → Bool) (xs rest : Text)
    → all p xs ≡ true
    → heads_off p rest ≡ true
    → span p (xs ++ rest) ≡ (xs, rest)
unfolding span
span-append p [] [] h k = refl
span-append p [] (c ∷ rest) h k = ground arith
span-append p (x ∷ xs) rest h k = ground (arith, span-append p xs rest)

pub is_space-digit : (c : ℕ) → is_digit c ≡ true → is_space c ≡ false
unfolding is_digit is_space
is_space-digit c h = ground arith

pub solid-digits : (xs : Text) → all is_digit xs ≡ true → all (λ c. not (is_space c)) xs ≡ true
solid-digits [] h = refl
solid-digits (x ∷ xs) h = ground (arith, is_space-digit x, solid-digits xs)

pub trim_end-solid : (xs : Text) → all (λ c. not (is_space c)) xs ≡ true → trim_end xs ≡ xs
unfolding trim_end
trim_end-solid [] h = refl
trim_end-solid (x ∷ []) h = ground arith
trim_end-solid (x ∷ y ∷ ys) h = rw (trim_end-solid (y ∷ ys) (ground arith), trim_end)

-- a text without spaces is trimmed to itself
pub trim-solid : (xs : Text) → all (λ c. not (is_space c)) xs ≡ true → trim xs ≡ xs
unfolding trim
trim-solid [] h = refl
trim-solid (x ∷ xs) h =
    rw (span-append is_space [] (x ∷ xs) refl (ground arith)) (trim_end-solid (x ∷ xs) h)

cons_append :
    (c : ℕ) (xs ys : Text)
    → 1 ≤ length ys
    → (elim (xs ++ ys) [ [] ↦ if is_space c then [] else c ∷ [] | x ∷ zs ↦ c ∷ x ∷ zs ])
      ≡ c ∷ (xs ++ ys)
cons_append c [] [] h = absurd (omega (arith, h))
cons_append c [] (y ∷ ys) h = refl
cons_append c (x ∷ xs) ys h = refl

-- what comes before a text that is not all spaces is kept
pub trim_end-append :
    (xs ys zs : Text) → trim_end ys ≡ zs → 1 ≤ length zs → trim_end (xs ++ ys) ≡ xs ++ zs
unfolding trim_end
trim_end-append [] ys zs eq h = eq
trim_end-append (x ∷ xs) ys zs eq h =
    rw (trim_end-append xs ys zs eq h, trim_end) (cons_append x xs zs h)

pub trim_end-space :
    (xs : Text) → all (λ c. not (is_space c)) xs ≡ true → trim_end (xs ++ (32 ∷ [])) ≡ xs
unfolding trim_end is_space
trim_end-space [] h = refl
trim_end-space (x ∷ []) h = ground arith
trim_end-space (x ∷ y ∷ ys) h = rw (trim_end-space (y ∷ ys) (ground arith), trim_end)

-- a text that starts with no space is trimmed at its end only
pub trim-head : (c : ℕ) (cs : Text) → is_space c ≡ false → trim (c ∷ cs) ≡ trim_end (c ∷ cs)
unfolding trim span
trim-head c cs h = rw (h, span)
