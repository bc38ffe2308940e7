-- ===== src/Arbac/Pattern/Meaning.antt =====
-- What the parts of a RegExp of packages/arbac-core/src/utils.ts match, as a relation, and that
-- `test` decides it.
use aoothjs.Base.{
  ℕ, ◌≡◌, refl, ◌↔◌, inl, inr, Bool, true, not, ◌&&◌, List, [], ◌∷◌, ◌++◌, map, arith, nat_beq, all,
  Bool-cases,
}
use aoothjs.Arbac.Pattern.{
  Part, lit, segment, anything, star_code, dot_code, placeholder, arbac_pattern_to_regex,
  is_line_end, test,
}

-- `segment` takes any run without a dot, `anything` any run without a line end
pub data Matches : List Part → List ℕ → Type 0 where
  done : Matches [] []
  char : (c : ℕ) {ps : List Part} {xs : List ℕ} → Matches ps xs → Matches (lit c ∷ ps) (c ∷ xs)
  run :
      (taken : List ℕ) {ps : List Part} {rest xs : List ℕ}
      → all (λ x. not (nat_beq x dot_code)) taken ≡ true
      → Matches ps rest
      → xs ≡ taken ++ rest
      → Matches (segment ∷ ps) xs
  line :
      (taken : List ℕ) {ps : List Part} {rest xs : List ℕ}
      → all (λ x. not (is_line_end x)) taken ≡ true
      → Matches ps rest
      → xs ≡ taken ++ rest
      → Matches (anything ∷ ps) xs

Matches-segment-cons :
    {ps : List Part} {xs : List ℕ} (x : ℕ)
    → not (nat_beq x dot_code) ≡ true
    → Matches (segment ∷ ps) xs
    → Matches (segment ∷ ps) (x ∷ xs)
Matches-segment-cons x h (run taken q m e) = run (x ∷ taken) (ground arith) m (ground arith)

Matches-anything-cons :
    {ps : List Part} {xs : List ℕ} (x : ℕ)
    → not (is_line_end x) ≡ true
    → Matches (anything ∷ ps) xs
    → Matches (anything ∷ ps) (x ∷ xs)
Matches-anything-cons x h (line taken q m e) = line (x ∷ taken) (ground arith) m (ground arith)

pub test_sound : (ps : List Part) (xs : List ℕ) → test ps xs ≡ true → Matches ps xs
unfolding test
test_sound [] [] h = done
test_sound [] (x ∷ xs) h = absurd (ground arith)
test_sound (lit c ∷ ps) [] h = absurd (ground arith)
test_sound (lit c ∷ ps) (x ∷ xs) h =
    let same : x ≡ c = ground arith in rw same (char c (test_sound ps xs (ground arith)))
test_sound (segment ∷ ps) [] h = run [] refl (test_sound ps [] h) refl
test_sound (segment ∷ ps) (x ∷ xs) h = elim (Bool-cases (test ps (x ∷ xs))) [
  | inl now ↦ run [] refl (test_sound ps (x ∷ xs) now) refl
  | inr later ↦ Matches-segment-cons x (ground arith) (test_sound (segment ∷ ps) xs (ground arith))
]
test_sound (anything ∷ ps) [] h = line [] refl (test_sound ps [] h) refl
test_sound (anything ∷ ps) (x ∷ xs) h = elim (Bool-cases (test ps (x ∷ xs))) [
  | inl now ↦ line [] refl (test_sound ps (x ∷ xs) now) refl
  | inr later ↦
      Matches-anything-cons x (ground arith) (test_sound (anything ∷ ps) xs (ground arith))
]

test-segment-append :
    (ps : List Part) (taken rest : List ℕ)
    → all (λ x. not (nat_beq x dot_code)) taken ≡ true
    → test ps rest ≡ true
    → test (segment ∷ ps) (taken ++ rest) ≡ true
unfolding test
test-segment-append ps [] [] q h = h
test-segment-append ps [] (x ∷ rest) q h = ground arith
test-segment-append ps (x ∷ taken) rest q h = ground (arith, test-segment-append ps taken rest)

test-anything-append :
    (ps : List Part) (taken rest : List ℕ)
    → all (λ x. not (is_line_end x)) taken ≡ true
    → test ps rest ≡ true
    → test (anything ∷ ps) (taken ++ rest) ≡ true
unfolding test
test-anything-append ps [] [] q h = h
test-anything-append ps [] (x ∷ rest) q h = ground arith
test-anything-append ps (x ∷ taken) rest q h = ground (arith, test-anything-append ps taken rest)

pub test_complete : {ps : List Part} {xs : List ℕ} → Matches ps xs → test ps xs ≡ true
unfolding test
test_complete done = refl
test_complete (char c {ps} {xs} m) = ground (arith, test_complete m)
test_complete (run taken {ps} {rest} q m e) =
    rw e (test-segment-append ps taken rest q (test_complete m))
test_complete (line taken {ps} {rest} q m e) =
    rw e (test-anything-append ps taken rest q (test_complete m))

-- a character that stands for itself
abbrev pub is_plain : ℕ → Bool
is_plain c = not (nat_beq c star_code) && not (nat_beq c placeholder)

test-lits : (cs xs : List ℕ) → (test (map lit cs) xs ≡ true) ↔ (cs ≡ xs)
unfolding test
test-lits [] [] = (λ _. refl, λ _. refl)
test-lits [] (x ∷ xs) = ground arith
test-lits (c ∷ cs) [] = ground arith
test-lits (c ∷ cs) (x ∷ xs) = ground (arith, test-lits cs xs)

regex-plain : (cs : List ℕ) → all is_plain cs ≡ true → arbac_pattern_to_regex cs ≡ map lit cs
unfolding arbac_pattern_to_regex
regex-plain [] h = refl
regex-plain (c ∷ cs) h = ground (arith, regex-plain cs)

-- A pattern without wildcards accepts its own text and no other.
pub test-plain_iff :
    (pattern text : List ℕ)
    → all is_plain pattern ≡ true
    → (test (arbac_pattern_to_regex pattern) text ≡ true) ↔ (pattern ≡ text)
test-plain_iff pattern text h = rw (regex-plain pattern h) (test-lits pattern text)

regex-plain-append :
    (cs tail : List ℕ)
    → all is_plain cs ≡ true
    → arbac_pattern_to_regex (cs ++ tail) ≡ map lit cs ++ arbac_pattern_to_regex tail
unfolding arbac_pattern_to_regex
regex-plain-append [] tail h = refl
regex-plain-append (c ∷ cs) tail h = ground (arith, regex-plain-append cs tail)

test-lits-append :
    (cs : List ℕ) (ps : List Part) (text : List ℕ)
    → (test (map lit cs ++ ps) text ≡ true)
      ↔ ((rest : List ℕ) × (text ≡ cs ++ rest) × (test ps rest ≡ true))
unfolding test
test-lits-append [] ps text = (λ h. (text, refl, h), λ h. rw h.1 h.2)
test-lits-append (c ∷ cs) ps [] = (λ h. absurd (ground arith), λ h. absurd (ground arith))
test-lits-append (c ∷ cs) ps (x ∷ xs) = (
  λ h. let (rest, e, t) = (test-lits-append cs ps xs).0 (ground arith) in (rest, ground arith, t),
  λ h.
      let (rest, e, t) = h in
      let tails : xs ≡ cs ++ rest = ground arith in
      let found = (test-lits-append cs ps xs).1 (rest, tails, t) in ground arith,
)

test-anything_iff :
    (text : List ℕ)
    → (test (anything ∷ []) text ≡ true) ↔ (all (λ x. not (is_line_end x)) text ≡ true)
unfolding test
test-anything_iff [] = (λ _. refl, λ _. refl)
test-anything_iff (x ∷ xs) = ground (arith, test-anything_iff xs)

-- A pattern `prefix**`, whose prefix has no wildcards, accepts exactly the texts that begin with
-- the prefix and have no line end after it.
pub test-prefix_iff :
    (prefix text : List ℕ)
    → all is_plain prefix ≡ true
    → (test (arbac_pattern_to_regex (prefix ++ (star_code ∷ star_code ∷ []))) text ≡ true)
      ↔ ((rest : List ℕ) × (text ≡ prefix ++ rest) × (all (λ x. not (is_line_end x)) rest ≡ true))
test-prefix_iff prefix text h =
    let cut = test-lits-append prefix (anything ∷ []) text in
    rw (regex-plain-append prefix (star_code ∷ star_code ∷ []) h) (
      λ t.
          let (rest, e, m) = cut.0 (unfold arbac_pattern_to_regex in t) in
          (rest, e, (test-anything_iff rest).0 m),
      λ f.
          let (rest, e, m) = f in
          (unfold arbac_pattern_to_regex in cut.1 (rest, e, (test-anything_iff rest).1 m)),
    )
