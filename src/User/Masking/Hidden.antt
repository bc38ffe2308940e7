-- ===== src/User/Masking/Hidden.antt =====
-- What the masks of packages/user/src/utils.ts hide.
use aoothjs.Base.{
  ℕ, zero, suc, ◌+◌, ◌-◌, ◌/◌, ◌≤◌, ◌<◌, ◌≡◌, refl, ap, ◌∙◌, max, true, not, some, [], ◌∷◌, ◌++◌,
  arith, nat_beq, length, all, Text, ◌⊎◌, inl, inr,
}
use aoothjs.User.Masking.{stars, take, drop, shown, mask, index_of_at, mask_email}

length-take : (n : ℕ) (s : Text) → n ≤ length s → length (take n s) ≡ n
length-take zero s h = refl
length-take (suc n) [] h = absurd (omega (arith, h))
length-take (suc n) (c ∷ s) h = ap suc (length-take n s (omega (arith, h)))

length-drop : (n : ℕ) (s : Text) → n ≤ length s → length (drop n s) + n ≡ length s
length-drop zero s h = omega arith
length-drop (suc n) [] h = absurd (omega (arith, h))
length-drop (suc n) (c ∷ s) h = omega (arith, length-drop n s (omega (arith, h)))

-- a mask of at least three characters shows some at each end, and hides at least one
abbrev pub IsHiding : Text → Type 0
IsHiding s =
    (first : Text) × (last : Text) × (mask s ≡ first ++ (stars ++ last))
    × (1 ≤ length first)
    × (length first ≡ length last)
    × (length first + length last < length s)
    × (length first ≤ max 1 (length s / 4))

shown-bounds :
    (s : Text)
    → 3 ≤ length s
    → (1 ≤ shown s) × (shown s + shown s < length s) × (shown s ≤ max 1 (length s / 4))
unfolding shown
shown-bounds s h = (omega arith, omega (arith, h), omega arith)

mask-long :
    (s : Text) → 3 ≤ length s → mask s ≡ take (shown s) s ++ (stars ++ drop (length s - shown s) s)
unfolding mask
mask-long [] h = absurd (omega (arith, h))
mask-long (c ∷ cs) h = ground (arith, h)

mask-short : (s : Text) → length s ≤ 2 → (mask s ≡ []) ⊎ (mask s ≡ stars)
unfolding mask
mask-short [] h = inl refl
mask-short (c ∷ cs) h = inr (ground (arith, h))

-- A text of three characters or more is masked by its two ends with stars between; the ends are
-- equally long, a quarter of the text at most or one character, and leave at least one out. A
-- shorter one shows nothing.
pub mask_lem :
    (s : Text) → (3 ≤ length s → IsHiding s) × (length s ≤ 2 → (mask s ≡ []) ⊎ (mask s ≡ stars))
mask_lem s = (
  λ long.
      let (one, half, quarter) = shown-bounds s long in
      let first = length-take (shown s) s (omega (arith, half)) in
      let last = length-drop (length s - shown s) s (omega arith) in
      (
        take (shown s) s,
        drop (length s - shown s) s,
        mask-long s long,
        omega (arith, first, one),
        omega (arith, first, last, half),
        omega (arith, first, last, half),
        omega (arith, first, quarter),
      ),
  mask-short s,
)

take-at : (local rest : Text) → take (length local) (local ++ rest) ≡ local
take-at [] rest = refl
take-at (c ∷ local) rest = ap (λ s. c ∷ s) (take-at local rest)

drop-at : (local rest : Text) → drop (length local) (local ++ rest) ≡ rest
drop-at [] rest = refl
drop-at (c ∷ local) rest = drop-at local rest

index_of_at-append :
    (local domain : Text)
    → all (λ c. not (nat_beq c 64)) local ≡ true
    → index_of_at (local ++ (64 ∷ domain)) ≡ some (length local)
unfolding index_of_at
index_of_at-append [] domain h = refl
index_of_at-append (c ∷ local) domain h = ground (arith, index_of_at-append local domain)

mask_email-at :
    (email : Text) (at : ℕ)
    → index_of_at email ≡ some at
    → mask_email email ≡ mask (take at email) ++ drop at email
unfolding mask_email index_of_at
mask_email-at [] at h = absurd (cc)
mask_email-at (c ∷ cs) at h = rw (h, mask_email)

-- An email is masked before its first `@` alone; from there on it is shown.
pub mask_email-append :
    (local domain : Text)
    → all (λ c. not (nat_beq c 64)) local ≡ true
    → mask_email (local ++ (64 ∷ domain)) ≡ mask local ++ (64 ∷ domain)
mask_email-append local domain h =
    mask_email-at (local ++ (64 ∷ domain)) (length local) (index_of_at-append local domain h)
    ∙ ap (λ t. mask t ++ drop (length local) (local ++ (64 ∷ domain))) (take-at local (64 ∷ domain))
    ∙ ap (λ t. mask local ++ t) (drop-at local (64 ∷ domain))
