-- ===== src/Base/Sorting.antt =====
-- `Array.prototype.sort` and `toSorted` by a number of each element, which keep the order of equals;
-- and how many elements of a list pass a test.
use Prim.Native.Nat.{ℕ, suc, ◌+◌, ◌≤◌}
use mathlib.Core.Path.{◌≡◌, refl, ◌∙◌}
use mathlib.Core.Logic.{inl, inr}
use mathlib.Core.Bool.{Bool, ◌&&◌}
use mathlib.Core.List.{List, [], ◌∷◌, ◌++◌}
use native.Mathlib.Omega.{arith}
use aoothjs.Base.Tests.{leb, Bool-cases, if◌then◌else◌}
use aoothjs.Base.Lists.{length, filter, All, All-map}

module _ {ℓ} {A : Type ℓ} where
  -- how many elements pass a test
  abbrev pub passing : (A → Bool) → List A → ℕ
  passing q [] = 0
  passing q (x ∷ xs) = let n = passing q xs in if q x then suc n else n

  pub passing-append :
      (q : A → Bool) (xs ys : List A) → passing q (xs ++ ys) ≡ passing q xs + passing q ys
  passing-append q [] ys = omega arith
  passing-append q (x ∷ xs) ys = ground (arith, passing-append q xs ys)

  pub passing-filter :
      (q p : A → Bool) (xs : List A) → passing q (filter p xs) ≡ passing (λ x. p x && q x) xs
  passing-filter q p [] = refl
  passing-filter q p (x ∷ xs) = ground (arith, passing-filter q p xs)

  module _ (key : A → ℕ) where
    -- an element goes before those of its key or a greater one, which all come after it
    unfoldable pub insert_by : A → List A → List A
    insert_by x [] = x ∷ []
    insert_by x (y ∷ ys) =
        let rest = insert_by x ys in if leb (key x) (key y) then x ∷ y ∷ ys else y ∷ rest

    unfoldable pub sort_by : List A → List A
    unfolding insert_by
    sort_by [] = []
    sort_by (x ∷ xs) = insert_by x (sort_by xs)

    -- no element comes after one of a greater key
    abbrev pub IsSortedBy : List A → Type ℓ
    IsSortedBy [] = Unit
    IsSortedBy (x ∷ xs) = All (λ y. key x ≤ key y) xs × IsSortedBy xs

    All-insert_by {κ} :
        (P : A → Type κ) (x : A) (xs : List A) → P x → All P xs → All P (insert_by x xs)
    unfolding insert_by
    All-insert_by P x [] p h = (p, tt)
    All-insert_by P x (y ∷ ys) p h = elim (Bool-cases (leb (key x) (key y))) [
      | inl first ↦ rw first (p, h)
      | inr later ↦ rw later (h.0, All-insert_by P x ys p h.1)
    ]

    insert_by-IsSortedBy : (x : A) (xs : List A) → IsSortedBy xs → IsSortedBy (insert_by x xs)
    unfolding insert_by
    insert_by-IsSortedBy x [] h = (tt, tt)
    insert_by-IsSortedBy x (y ∷ ys) h = elim (Bool-cases (leb (key x) (key y))) [
      | inl first ↦
          let le : key x ≤ key y = ground (arith, first) in
          rw first ((le, All-map (λ z p. omega (arith, p, le)) ys h.0), h)
      | inr later ↦
          let le : key y ≤ key x = ground (arith, later) in
          rw later (All-insert_by (λ z. key y ≤ key z) x ys le h.0, insert_by-IsSortedBy x ys h.1)
    ]

    pub sort_by-IsSortedBy : (xs : List A) → IsSortedBy (sort_by xs)
    unfolding sort_by
    sort_by-IsSortedBy [] = tt
    sort_by-IsSortedBy (x ∷ xs) = insert_by-IsSortedBy x (sort_by xs) (sort_by-IsSortedBy xs)

    passing-insert_by :
        (q : A → Bool) (x : A) (xs : List A) → passing q (insert_by x xs) ≡ passing q (x ∷ xs)
    unfolding insert_by
    passing-insert_by q x [] = refl
    passing-insert_by q x (y ∷ ys) = ground (arith, passing-insert_by q x ys)

    pub passing-sort_by : (q : A → Bool) (xs : List A) → passing q (sort_by xs) ≡ passing q xs
    unfolding sort_by
    passing-sort_by q [] = refl
    passing-sort_by q (x ∷ xs) =
        passing-insert_by q x (sort_by xs) ∙ ground (arith, passing-sort_by q xs)

    length-insert_by : (x : A) (xs : List A) → length (insert_by x xs) ≡ suc (length xs)
    unfolding insert_by
    length-insert_by x [] = refl
    length-insert_by x (y ∷ ys) = ground (arith, length-insert_by x ys)

    pub length-sort_by : (xs : List A) → length (sort_by xs) ≡ length xs
    unfolding sort_by
    length-sort_by [] = refl
    length-sort_by (x ∷ xs) = omega (arith, length-insert_by x (sort_by xs), length-sort_by xs)
