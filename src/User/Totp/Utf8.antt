-- ===== src/User/Totp/Utf8.antt =====
-- The bytes of a text, `Buffer.from(text, "utf8")`, which packages/user/src/mfa/totp.ts compares.
use aoothjs.Base.{
  ◌/◌, ◌*◌, ◌%◌, all, ℕ, ◌+◌, ◌-◌, ◌≤◌, ◌≡◌, refl, sym, ◌∙◌, inl, inr, Bool, true, false, ◌&&◌,
  ◌||◌, List, [], ◌∷◌, arith, ltb, leb, Bool-cases, if◌then◌else◌, Text, text_eq, nat_eq, string_eq,
}

abbrev pub is_high : ℕ → Bool
is_high c = leb 0xD800 c && ltb c 0xDC00

abbrev pub is_low : ℕ → Bool
is_low c = leb 0xDC00 c && ltb c 0xE000

-- a code unit of its own; half a surrogate pair becomes U+FFFD
unfoldable pub unit_bytes : ℕ → List ℕ → List ℕ
unit_bytes c rest =
    if ltb c 0x80
    then c ∷ rest
    else if ltb c 0x800
    then (192 + c / 64) ∷ (128 + c % 64) ∷ rest
    else if is_high c || is_low c
    then 239 ∷ 191 ∷ 189 ∷ rest
    else (224 + c / 4096) ∷ (128 + c / 64 % 64) ∷ (128 + c % 64) ∷ rest

unfoldable pub pair_bytes : ℕ → ℕ → List ℕ → List ℕ
pair_bytes c d rest =
    let x = 0x10000 + (c - 0xD800) * 0x400 + (d - 0xDC00) in
    (240 + x / 0x40000) ∷ (128 + x / 4096 % 64) ∷ (128 + x / 64 % 64) ∷ (128 + x % 64) ∷ rest

unfoldable pub utf8 : Text → List ℕ
unfolding unit_bytes pair_bytes
utf8 [] = []
utf8 (c ∷ []) = unit_bytes c []
utf8 (c ∷ d ∷ cs) =
    let alone = unit_bytes c (utf8 (d ∷ cs)) in
    let pair = pair_bytes c d (utf8 cs) in if is_high c && is_low d then pair else alone

abbrev pub is_ascii : ℕ → Bool
is_ascii c = ltb c 128

utf8-ascii : (c : ℕ) (cs : Text) → is_ascii c ≡ true → utf8 (c ∷ cs) ≡ c ∷ utf8 cs
unfolding utf8 unit_bytes
utf8-ascii c [] h = rw h refl
utf8-ascii c (d ∷ cs) h = let low : leb 0xD800 c ≡ false = ground (arith, h) in rw (low, h) refl

-- what starts with another code unit starts with a byte that is none of ASCII
abbrev IsWide : List ℕ → Type 0
IsWide bytes = (b : ℕ) × (rest : List ℕ) × (bytes ≡ b ∷ rest) × (192 ≤ b)

unit_bytes-IsWide : (c : ℕ) (rest : List ℕ) → is_ascii c ≡ false → IsWide (unit_bytes c rest)
unfolding unit_bytes
unit_bytes-IsWide c rest h = elim (Bool-cases (ltb c 0x800)) [
  | inl two ↦ rw (h, two) (_, _, refl, omega arith)
  | inr more ↦ elim (Bool-cases (is_high c || is_low c)) [
    | inl half ↦ rw (h, more, half) (_, _, refl, omega arith)
    | inr three ↦ rw (h, more, three) (_, _, refl, omega arith)
  ]
]

utf8-IsWide : (c : ℕ) (cs : Text) → is_ascii c ≡ false → IsWide (utf8 (c ∷ cs))
unfolding utf8 pair_bytes
utf8-IsWide c [] h = unit_bytes-IsWide c [] h
utf8-IsWide c (d ∷ cs) h = elim (Bool-cases (is_high c && is_low d)) [
  | inl pair ↦ rw pair (_, _, refl, omega arith)
  | inr alone ↦ rw alone (unit_bytes-IsWide c (utf8 (d ∷ cs)) h)
]

-- a text of ASCII is the only one that has its bytes
pub utf8-ascii_injective : (xs ys : Text) → all is_ascii xs ≡ true → utf8 xs ≡ utf8 ys → xs ≡ ys
unfolding utf8
utf8-ascii_injective [] [] h e = refl
utf8-ascii_injective [] (c ∷ cs) h e = elim (Bool-cases (is_ascii c)) [
  | inl thin ↦ absurd (ground (arith, utf8-ascii c cs thin, e))
  | inr wide ↦
      let (b, rest, starts, large) = utf8-IsWide c cs wide in absurd (ground (arith, starts, e))
]
utf8-ascii_injective (x ∷ xs) [] h e =
    absurd (ground (arith, utf8-ascii x xs (ground (arith, h)), e))
utf8-ascii_injective (x ∷ xs) (c ∷ cs) h e =
    let first = utf8-ascii x xs (ground (arith, h)) in
    elim (Bool-cases (is_ascii c)) [
      | inl thin ↦
          let second = utf8-ascii c cs thin in
          let both : x ∷ utf8 xs ≡ c ∷ utf8 cs = sym first ∙ e ∙ second in
          let heads : x ≡ c = ground (arith, both) in
          let tails : utf8 xs ≡ utf8 cs = ground (arith, both) in
          cc (heads, utf8-ascii_injective xs cs (ground (arith, h)) tails)
      | inr wide ↦
          let (b, rest, starts, large) = utf8-IsWide c cs wide in
          let both : x ∷ utf8 xs ≡ b ∷ rest = sym first ∙ e ∙ starts in
          let heads : x ≡ b = ground (arith, both) in absurd (ground (arith, heads, large, h))
    ]
