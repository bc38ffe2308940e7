-- ===== src/RateLimit/Limiter/Governing.antt =====
-- Which item governs a decision of packages/auth/src/rate-limit/rate-limiter.ts.
use mathlib.Core.Path.{subst}
use aoothjs.Base.{
  ◌∙◌, sym, ℕ, ◌≤◌, ◌≡◌, refl, ◌⊎◌, inl, inr, Bool, true, false, some, List, [], ◌∷◌, arith, any,
  filter, All, Bool-cases,
}
use aoothjs.RateLimit.Limiter.{reduce_from, later, fewer, pick_governing}

module _ {A : Type 0} where
  -- the item that a reduction ends with: one of the items, and no item is better
  record IsChosen (worse : A → A → Type 0) (a : A) (items : List A) (g : A) : Type 1 where
    among : (P : A → Type 0) → P a → All P items → P g
    first : worse a g
    rest : All (λ x. worse x g) items

  module _ (worse : A → A → Type 0) (f : A → A → A) (worse_refl : (a : A) → worse a a)
      (worse_trans : (a b c : A) → worse a b → worse b c → worse a c)
      (picks : (a b : A) → ((f a b ≡ a) × worse b a) ⊎ ((f a b ≡ b) × worse a b)) where
    IsChosen-reduce_from : (a : A) (items : List A) → IsChosen worse a items (reduce_from f a items)
    unfolding reduce_from
    IsChosen-reduce_from a [] = record { among = λ P p _. p; first = worse_refl a; rest = tt }
    IsChosen-reduce_from a (b ∷ items) = elim (picks a b) [
      | inl (kept, w) ↦ rw kept (
          let h = IsChosen-reduce_from a items in
          record {
            among = λ P p q. h.among P p q.1;
            first = h.first;
            rest = (worse_trans b a _ w h.first, h.rest);
          })
      | inr (taken, w) ↦ rw taken (
          let h = IsChosen-reduce_from b items in
          record {
            among = λ P p q. h.among P q.0 q.1;
            first = worse_trans a b _ w h.first;
            rest = (h.first, h.rest);
          })
    ]

  All-filter :
      (p : A → Bool) (P : A → Type 0) (items : List A) → All P items → All P (filter p items)
  All-filter p P [] h = tt
  All-filter p P (x ∷ items) h = elim (Bool-cases (p x)) [
    | inl kept ↦ rw kept (h.0, All-filter p P items h.1)
    | inr dropped ↦ rw dropped (All-filter p P items h.1)
  ]

  filter-holds : (p : A → Bool) (items : List A) → All (λ x. p x ≡ true) (filter p items)
  filter-holds p [] = tt
  filter-holds p (x ∷ items) = elim (Bool-cases (p x)) [
    | inl kept ↦ rw kept (kept, filter-holds p items)
    | inr dropped ↦ rw dropped (filter-holds p items)
  ]

  filter-All :
      (p : A → Bool) (P : A → Type 0) (items : List A)
      → All P (filter p items)
      → All (λ x. p x ≡ true → P x) items
  filter-All p P [] h = tt
  filter-All p P (x ∷ items) h = elim (Bool-cases (p x)) [
    | inl kept ↦ let both = rw kept at h in (λ _. both.0, filter-All p P items both.1)
    | inr dropped ↦ (λ holds. absurd (cc), filter-All p P items (rw dropped at h))
  ]

  filter-empty :
      (p : A → Bool) (items : List A)
      → filter p items ≡ []
      → (any p items ≡ false) × All (λ x. p x ≡ false) items
  filter-empty p [] h = (refl, tt)
  filter-empty p (x ∷ items) h = ground (arith, filter-empty p items)

  any-filter :
      (p : A → Bool) (items : List A) (y : A) (ys : List A)
      → filter p items ≡ y ∷ ys
      → any p items ≡ true
  any-filter p [] y ys h = absurd (cc)
  any-filter p (x ∷ items) y ys h = ground (arith, any-filter p items y ys)

  -- the item that governs a list
  pub record IsGoverning (reset_at remaining : A → ℕ) (items : List A) (rejected : A → Bool) (g : A)
      : Type 1 where
    pub among : (P : A → Type 0) → All P items → P g
    pub rejects : rejected g ≡ any rejected items
    pub last :
        any rejected items ≡ true → All (λ x. rejected x ≡ true → reset_at x ≤ reset_at g) items
    pub least : any rejected items ≡ false → All (λ x. remaining g ≤ remaining x) items

  module _ (reset_at remaining : A → ℕ) where
    later_picks :
        (a b : A)
        → ((later reset_at remaining a b ≡ a) × (reset_at b ≤ reset_at a))
          ⊎ ((later reset_at remaining a b ≡ b) × (reset_at a ≤ reset_at b))
    later_picks a b = ground arith

    fewer_picks :
        (a b : A)
        → ((fewer reset_at remaining a b ≡ a) × (remaining a ≤ remaining b))
          ⊎ ((fewer reset_at remaining a b ≡ b) × (remaining b ≤ remaining a))
    fewer_picks a b = ground arith

    -- The governing item of a list that is not empty is one of its items. If some item is rejected,
    -- it is a rejected one and none of those resets later; otherwise none has less remaining.
    pub pick_governing-IsGoverning :
        (x : A) (xs : List A) (rejected : A → Bool)
        → (g : A) × (pick_governing reset_at remaining (x ∷ xs) rejected ≡ some g)
          × IsGoverning reset_at remaining (x ∷ xs) rejected g
    unfolding pick_governing
    pick_governing-IsGoverning x xs rejected = by_failing (filter rejected (x ∷ xs)) refl
      where
        by_failing :
            (failing : List A)
            → filter rejected (x ∷ xs) ≡ failing
            → (g : A) × (pick_governing reset_at remaining (x ∷ xs) rejected ≡ some g)
              × IsGoverning reset_at remaining (x ∷ xs) rejected g
        by_failing [] eq =
            let (none_rejected, all_pass) = filter-empty rejected (x ∷ xs) eq in
            let h =
              IsChosen-reduce_from (λ a b. remaining b ≤ remaining a) (fewer reset_at remaining)
                (λ a. omega arith) (λ a b c. omega arith) fewer_picks x xs in
            (
              reduce_from (fewer reset_at remaining) x xs,
              rw (eq, pick_governing),
              record {
                among = λ P p. h.among P p.0 p.1;
                rejects =
                    h.among (λ a. rejected a ≡ false) all_pass.0 all_pass.1 ∙ sym none_rejected;
                last = λ some_rejected. absurd (cc);
                least = λ _. (h.first, h.rest);
              },
            )
        by_failing (y ∷ ys) eq =
            let some_rejected = any-filter rejected (x ∷ xs) y ys eq in
            let g = reduce_from (later reset_at remaining) y ys in
            let h =
              IsChosen-reduce_from (λ a b. reset_at a ≤ reset_at b) (later reset_at remaining)
                (λ a. omega arith) (λ a b c. omega arith) later_picks y ys in
            let holds = subst (All (λ a. rejected a ≡ true)) eq (filter-holds rejected (x ∷ xs)) in
            (
              g,
              rw (eq, pick_governing),
              record {
                among = λ P p.
                    let q = subst (All P) eq (All-filter rejected P (x ∷ xs) p) in
                    h.among P q.0 q.1;
                rejects = h.among (λ a. rejected a ≡ true) holds.0 holds.1 ∙ sym some_rejected;
                last = λ _.
                    filter-All rejected (λ a. reset_at a ≤ reset_at g) (x ∷ xs)
                      (subst (All (λ a. reset_at a ≤ reset_at g)) (sym eq) (h.first, h.rest));
                least = λ none_rejected. absurd (cc);
              },
            )
