-- ===== src/Arbac/Pattern/Accepts.antt =====
-- What a pattern of packages/arbac-core/src/utils.ts accepts, said of the pattern's own text.
use mathlib.Core.Path.{subst}
use aoothjs.Base.{
  ℕ, ◌≡◌, refl, sym, ◌↔◌, inl, inr, Bool, true, false, not, List, [], ◌∷◌, ◌++◌, arith, nat_beq,
  all, Bool-cases,
}
use aoothjs.Arbac.Pattern.{
  Part, lit, segment, anything, star_code, dot_code, placeholder, arbac_pattern_to_regex,
  is_line_end, test,
}
use aoothjs.Arbac.Pattern.Meaning.{
  Matches, done, char, run, line, test_sound, test_complete, is_plain,
}

abbrev pub starts_star : List ℕ → Bool
starts_star [] = false
starts_star (c ∷ cs) = nat_beq c star_code

-- A star that is not followed by another takes a run without a dot; two, read from the left, take
-- a run without a line end, and so does the character that the code puts in their place. Any other
-- character takes itself.
pub data Accepts : List ℕ → List ℕ → Type 0 where
  end : Accepts [] []
  same : (c : ℕ) {p xs : List ℕ} → is_plain c ≡ true → Accepts p xs → Accepts (c ∷ p) (c ∷ xs)
  star :
      (taken : List ℕ) {p rest xs : List ℕ}
      → starts_star p ≡ false
      → all (λ x. not (nat_beq x dot_code)) taken ≡ true
      → Accepts p rest
      → xs ≡ taken ++ rest
      → Accepts (star_code ∷ p) xs
  stars :
      (taken : List ℕ) {p rest xs : List ℕ}
      → all (λ x. not (is_line_end x)) taken ≡ true
      → Accepts p rest
      → xs ≡ taken ++ rest
      → Accepts (star_code ∷ star_code ∷ p) xs
  mark :
      (taken : List ℕ) {p rest xs : List ℕ}
      → all (λ x. not (is_line_end x)) taken ≡ true
      → Accepts p rest
      → xs ≡ taken ++ rest
      → Accepts (placeholder ∷ p) xs

abbrev regex : List ℕ → List Part
regex = arbac_pattern_to_regex

regex-same : (c : ℕ) (p : List ℕ) → is_plain c ≡ true → regex (c ∷ p) ≡ lit c ∷ regex p
unfolding arbac_pattern_to_regex
regex-same c p h = ground (arith, h)

regex-star : (p : List ℕ) → starts_star p ≡ false → regex (star_code ∷ p) ≡ segment ∷ regex p
unfolding arbac_pattern_to_regex
regex-star [] h = refl
regex-star (d ∷ p) h = rw h refl

regex-stars : (p : List ℕ) → regex (star_code ∷ star_code ∷ p) ≡ anything ∷ regex p
unfolding arbac_pattern_to_regex
regex-stars p = refl

regex-mark : (p : List ℕ) → regex (placeholder ∷ p) ≡ anything ∷ regex p
unfolding arbac_pattern_to_regex
regex-mark p = refl

Accepts-Matches : {p xs : List ℕ} → Accepts p xs → Matches (regex p) xs
unfolding arbac_pattern_to_regex
Accepts-Matches end = done
Accepts-Matches (same c {p} {xs} plain a) =
    subst (λ ps. Matches ps (c ∷ xs)) (sym (regex-same c p plain)) (char c (Accepts-Matches a))
Accepts-Matches (star taken {p} {rest} {xs} alone free a e) =
    subst (λ ps. Matches ps xs) (sym (regex-star p alone)) (run taken free (Accepts-Matches a) e)
Accepts-Matches (stars taken free a e) = line taken free (Accepts-Matches a) e
Accepts-Matches (mark taken free a e) = line taken free (Accepts-Matches a) e

-- what one part has taken
lit_taken :
    (c : ℕ) (ps : List Part) (xs : List ℕ)
    → Matches (lit c ∷ ps) xs
    → (rest : List ℕ) × (xs ≡ c ∷ rest) × Matches ps rest
lit_taken c ps _ (char _ {xs = xs} m) = (xs, refl, m)

run_taken :
    (ps : List Part) (xs : List ℕ)
    → Matches (segment ∷ ps) xs
    → (taken rest : List ℕ) × (all (λ x. not (nat_beq x dot_code)) taken ≡ true)
      × Matches ps rest
      × (xs ≡ taken ++ rest)
run_taken ps xs (run taken {rest = rest} free m e) = (taken, rest, free, m, e)

line_taken :
    (ps : List Part) (xs : List ℕ)
    → Matches (anything ∷ ps) xs
    → (taken rest : List ℕ) × (all (λ x. not (is_line_end x)) taken ≡ true)
      × Matches ps rest
      × (xs ≡ taken ++ rest)
line_taken ps xs (line taken {rest = rest} free m e) = (taken, rest, free, m, e)

nothing_left : (xs : List ℕ) → Matches [] xs → xs ≡ []
nothing_left _ done = refl

-- what is read of the rest of a pattern
abbrev Reads : List ℕ → Type 0
Reads p = (rest : List ℕ) → Matches (regex p) rest → Accepts p rest

Accepts-same :
    (c : ℕ) (p xs : List ℕ)
    → is_plain c ≡ true
    → Reads p
    → Matches (regex (c ∷ p)) xs
    → Accepts (c ∷ p) xs
Accepts-same c p xs plain reads m =
    let (rest, e, later) =
      lit_taken c (regex p) xs (subst (λ ps. Matches ps xs) (regex-same c p plain) m) in
    subst (Accepts (c ∷ p)) (sym e) (same c plain (reads rest later))

Accepts-star :
    (p xs : List ℕ)
    → starts_star p ≡ false
    → Reads p
    → Matches (regex (star_code ∷ p)) xs
    → Accepts (star_code ∷ p) xs
Accepts-star p xs alone reads m =
    let (taken, rest, free, later, e) =
      run_taken (regex p) xs (subst (λ ps. Matches ps xs) (regex-star p alone) m) in
    star taken alone free (reads rest later) e

Accepts-stars :
    (p xs : List ℕ)
    → Reads p
    → Matches (regex (star_code ∷ star_code ∷ p)) xs
    → Accepts (star_code ∷ star_code ∷ p) xs
Accepts-stars p xs reads m =
    let (taken, rest, free, later, e) =
      line_taken (regex p) xs (subst (λ ps. Matches ps xs) (regex-stars p) m) in
    stars taken free (reads rest later) e

Accepts-mark :
    (p xs : List ℕ) → Reads p → Matches (regex (placeholder ∷ p)) xs → Accepts (placeholder ∷ p) xs
Accepts-mark p xs reads m =
    let (taken, rest, free, later, e) =
      line_taken (regex p) xs (subst (λ ps. Matches ps xs) (regex-mark p) m) in
    mark taken free (reads rest later) e

-- a pattern that starts with no star
Accepts-other :
    (c : ℕ) (p xs : List ℕ)
    → nat_beq c star_code ≡ false
    → Reads p
    → Matches (regex (c ∷ p)) xs
    → Accepts (c ∷ p) xs
Accepts-other c p xs other reads m = elim (Bool-cases (nat_beq c placeholder)) [
  | inl marked ↦
      let is_mark : c ≡ placeholder = ground (arith, marked) in
      subst (λ x. Accepts (x ∷ p) xs) (sym is_mark)
        (Accepts-mark p xs reads (subst (λ x. Matches (regex (x ∷ p)) xs) is_mark m))
  | inr plain ↦ Accepts-same c p xs (ground (arith, other, plain)) reads m
]

-- a pattern that starts with one star
Accepts-alone :
    (c : ℕ) (p xs : List ℕ)
    → nat_beq c star_code ≡ true
    → starts_star p ≡ false
    → Reads p
    → Matches (regex (c ∷ p)) xs
    → Accepts (c ∷ p) xs
Accepts-alone c p xs one alone reads m =
    let is_star : c ≡ star_code = ground (arith, one) in
    subst (λ x. Accepts (x ∷ p) xs) (sym is_star)
      (Accepts-star p xs alone reads (subst (λ x. Matches (regex (x ∷ p)) xs) is_star m))

Accepts-pair :
    (c d : ℕ) (p xs : List ℕ)
    → nat_beq c star_code ≡ true
    → nat_beq d star_code ≡ true
    → Reads p
    → Matches (regex (c ∷ d ∷ p)) xs
    → Accepts (c ∷ d ∷ p) xs
Accepts-pair c d p xs one two reads m =
    let first : c ≡ star_code = ground (arith, one) in
    let second : d ≡ star_code = ground (arith, two) in
    subst (λ x. Accepts (x ∷ d ∷ p) xs) (sym first)
      (subst (λ y. Accepts (star_code ∷ y ∷ p) xs) (sym second)
        (Accepts-stars p xs reads (
          subst (λ y. Matches (regex (star_code ∷ y ∷ p)) xs) second
            (subst (λ x. Matches (regex (x ∷ d ∷ p)) xs) first m))))

Matches-Accepts : (p : List ℕ) → Reads p
unfolding arbac_pattern_to_regex
Matches-Accepts [] xs m = subst (Accepts []) (sym (nothing_left xs m)) end
Matches-Accepts (c ∷ []) xs m = elim (Bool-cases (nat_beq c star_code)) [
  | inl one ↦ Accepts-alone c [] xs one refl (Matches-Accepts []) m
  | inr other ↦ Accepts-other c [] xs other (Matches-Accepts []) m
]
Matches-Accepts (c ∷ d ∷ p) xs m = elim (Bool-cases (nat_beq c star_code)) [
  | inr other ↦ Accepts-other c (d ∷ p) xs other (Matches-Accepts (d ∷ p)) m
  | inl one ↦ elim (Bool-cases (nat_beq d star_code)) [
    | inl two ↦ Accepts-pair c d p xs one two (Matches-Accepts p) m
    | inr alone ↦ Accepts-alone c (d ∷ p) xs one alone (Matches-Accepts (d ∷ p)) m
  ]
]

-- The compiled pattern accepts a text exactly when the pattern, read from the left, does: two stars
-- take a run without a line end, and so does the character U+2051 that the code puts in their
-- place; a star that no other follows takes a run without a dot; any other character takes itself.
pub test_iff :
    (pattern text : List ℕ)
    → (test (arbac_pattern_to_regex pattern) text ≡ true) ↔ Accepts pattern text
test_iff pattern text = (
  λ h. Matches-Accepts pattern text (test_sound (arbac_pattern_to_regex pattern) text h),
  λ a. test_complete (Accepts-Matches a),
)
