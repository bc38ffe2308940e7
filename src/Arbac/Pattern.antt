-- ===== src/Arbac/Pattern.antt =====
-- packages/arbac-core/src/utils.ts: resource and action patterns.
-- A text is the list of its UTF-16 code units, which is what a RegExp without the `u` flag reads.
pub mod Meaning
pub mod Accepts
use aoothjs.Base.{ℕ, Bool, true, false, not, ◌&&◌, ◌||◌, List, [], ◌∷◌, map, nat_beq, if◌then◌else◌}

-- `*`, the separator `.`, and the placeholder that stands for `**` between two replacements
abbrev pub star_code : ℕ
star_code = 42

abbrev pub dot_code : ℕ
dot_code = 46

abbrev pub placeholder : ℕ
placeholder = 0x2051

-- the parts of the RegExp: an escaped character, `[^.]*` and `.*`
pub data Part : Type 0 where
  lit : ℕ → Part
  segment : Part
  anything : Part

-- `replace(/\*\*/gu, "⁑")`: `held` says that a `*` not yet paired stands before the text
unfoldable pub pair_stars : Bool → List ℕ → List ℕ
pair_stars held [] = if held then star_code ∷ [] else []
pair_stars held (c ∷ cs) =
    let paired = placeholder ∷ pair_stars false cs in
    let first = pair_stars true cs in
    let plain = c ∷ pair_stars false cs in
    if nat_beq c star_code
    then (if held then paired else first)
    else if held
    then star_code ∷ plain
    else plain

-- the other replacements: each character is escaped or stands for itself, `*` is `[^.]*`, and the
-- placeholder is `.*`
unfoldable pub part : ℕ → Part
part c = if nat_beq c star_code then segment else if nat_beq c placeholder then anything else lit c

unfoldable pub arbac_pattern_to_regex : List ℕ → List Part
unfolding pair_stars part
arbac_pattern_to_regex input = map part (pair_stars false input)

-- the characters that `.` does not match: \n, \r and the two Unicode line ends
unfoldable pub is_line_end : ℕ → Bool
is_line_end c = nat_beq c 10 || nat_beq c 13 || nat_beq c 0x2028 || nat_beq c 0x2029

-- `new RegExp("^…$").test(text)`: the search of a backtracking matcher, anchored at both ends
unfoldable pub test : List Part → List ℕ → Bool
unfolding is_line_end
test [] [] = true
test [] (x ∷ xs) = false
test (lit c ∷ ps) [] = false
test (lit c ∷ ps) (x ∷ xs) = nat_beq c x && test ps xs
test (segment ∷ ps) [] = test ps []
test (segment ∷ ps) (x ∷ xs) =
    test ps (x ∷ xs) || (not (nat_beq x dot_code) && test (segment ∷ ps) xs)
test (anything ∷ ps) [] = test ps []
test (anything ∷ ps) (x ∷ xs) = test ps (x ∷ xs) || (not (is_line_end x) && test (anything ∷ ps) xs)
