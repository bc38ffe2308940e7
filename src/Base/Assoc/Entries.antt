-- ===== src/Base/Assoc/Entries.antt =====
-- What the tests on the entries of a map say of the value of a key, and values that no two keys may
-- share.
use mathlib.Core.Path.{◌≡◌, sym, ap, ◌∙◌}
use mathlib.Core.Logic.{inl, inr}
use mathlib.Core.Bool.{Bool, true, false}
use mathlib.Core.Option.{some}
use mathlib.Core.List.{List, [], ◌∷◌}
use native.Mathlib.Omega.{arith}
use aoothjs.Base.Tests.{Bool-cases}
use aoothjs.Base.Equality.{Eq, ◌==◌, eq_of_==}
use aoothjs.Base.Lists.{any}
use aoothjs.Base.Assoc.{Assoc, get, put, delete}
use aoothjs.Base.Assoc.Laws.{get-put, get-delete}

module _ {ℓ} {A : Type ℓ} ⦃e : Eq A⦄ (p : A → Bool) where
  -- a test that fails on a whole list fails on its members
  pub any_member :
      (x : A) (xs : List A) → any (λ y. y == x) xs ≡ true → any p xs ≡ false → p x ≡ false
  any_member x [] h n = absurd (ground arith)
  any_member x (y ∷ xs) h n = elim (Bool-cases (y == x)) [
    | inl here ↦ ap p (sym (eq_of_== y x here)) ∙ ground (arith, n)
    | inr there ↦ any_member x xs (ground (arith, h, there)) (ground (arith, n))
  ]

module _ {ℓ κ} {K : Type ℓ} {V : Type κ} ⦃e : Eq K⦄ where
  pub any_entry :
      (p : K × V → Bool) (k : K) (m : Assoc K V) {v : V}
      → any p m ≡ false
      → get k m ≡ some v
      → p (k, v) ≡ false
  unfolding get
  any_entry p k [] n g = absurd (ground arith)
  any_entry p k ((j, w) ∷ m) {v} n g = elim (Bool-cases (j == k)) [
    | inl here ↦
        let same : j ≡ k = eq_of_== j k here in
        let value : some w ≡ some v = ground (arith, g, here) in ground (arith, n, same, value)
    | inr there ↦ any_entry p k m (ground (arith, n)) (ground (arith, g, there))
  ]

  pub get-put_here :
      (k j : K) (v : V) (m : Assoc K V) → (k == j) ≡ true → get j (put k v m) ≡ some v
  get-put_here k j v m h = ground (arith, get-put k j v m)

  pub get-put_there :
      (k j : K) (v : V) (m : Assoc K V) → (k == j) ≡ false → get j (put k v m) ≡ get j m
  get-put_there k j v m h = ground (arith, get-put k j v m)

  put_value :
      (k j : K) (v w : V) (m : Assoc K V) → (k == j) ≡ true → get j (put k v m) ≡ some w → v ≡ w
  put_value k j v w m h g =
      let both : some v ≡ some w = sym (get-put_here k j v m h) ∙ g in ground arith

  -- no two keys have related values
  abbrev pub UniqueBy {μ} : (V → V → Type μ) → Assoc K V → Type (ℓ ⊔ κ ⊔ μ)
  UniqueBy R m = (j k : K) (u v : V) → get j m ≡ some u → get k m ≡ some v → R u v → j ≡ k

  module _ {μ} (R : V → V → Type μ) where
    pub UniqueBy-put :
        (k : K) (v : V) (m : Assoc K V)
        → UniqueBy R m
        → ((j : K) (u : V) → (k == j) ≡ false → get j m ≡ some u → (¬ (R u v)) × (¬ (R v u)))
        → UniqueBy R (put k v m)
    UniqueBy-put k v m h new i j a b g g' r = elim (Bool-cases (k == i)) [
      | inl left ↦ elim (Bool-cases (k == j)) [
        | inl right ↦ sym (eq_of_== k i left) ∙ eq_of_== k j right
        | inr right ↦
            let same : v ≡ a = put_value k i v a m left g in
            let found : get j m ≡ some b = sym (get-put_there k j v m right) ∙ g' in
            absurd ((new j b right found).1 (rw same r))
      ]
      | inr left ↦ elim (Bool-cases (k == j)) [
        | inl right ↦
            let same : v ≡ b = put_value k j v b m right g' in
            let found : get i m ≡ some a = sym (get-put_there k i v m left) ∙ g in
            absurd ((new i a left found).0 (rw same r))
        | inr right ↦
            h i j a b (sym (get-put_there k i v m left) ∙ g)
              (sym (get-put_there k j v m right) ∙ g') r
      ]
    ]

    pub UniqueBy-delete : (k : K) (m : Assoc K V) → UniqueBy R m → UniqueBy R (delete k m)
    UniqueBy-delete k m h i j a b g g' r =
        h i j a b (ground (arith, get-delete k i m, g)) (ground (arith, get-delete k j m, g')) r
