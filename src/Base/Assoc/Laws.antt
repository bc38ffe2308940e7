-- ===== src/Base/Assoc/Laws.antt =====
-- What `get` sees after `put` and `delete`, and how many entries they leave.
use aoothjs.Base.Tests.{if◌then◌else◌, Bool-cases}
use aoothjs.Base.Equality.{Eq, ◌==◌, eq_of_==}
use aoothjs.Base.Lists.{length, All}
use aoothjs.Base.Assoc.{Assoc, get, put, delete}
use Prim.Native.Nat.{suc, ◌≤◌, ◌<◌}
use mathlib.Core.Path.{◌≡◌, refl, ap}
use mathlib.Core.Logic.{inl, inr}
use mathlib.Core.Option.{none, some}
use mathlib.Core.List.{[], ◌∷◌, ◌++◌}
use native.Mathlib.Omega.{arith}

module _ {ℓ κ} {K : Type ℓ} {V : Type κ} ⦃e : Eq K⦄ where
  pub get-put :
      (k j : K) (v : V) (m : Assoc K V) → get j (put k v m) ≡ (if k == j then some v else get j m)
  unfolding get put
  get-put k j v [] = refl
  get-put k j v ((i, w) ∷ m) =
      ground (arith, e.equal_iff i k, e.equal_iff i j, e.equal_iff k j, get-put k j v m)

  pub get-delete :
      (k j : K) (m : Assoc K V) → get j (delete k m) ≡ (if k == j then none else get j m)
  unfolding get delete
  get-delete k j [] = ground arith
  get-delete k j ((i, w) ∷ m) =
      ground (arith, e.equal_iff i k, e.equal_iff i j, e.equal_iff k j, get-delete k j m)

  pub get-put_self : (k : K) (v : V) (m : Assoc K V) → get k (put k v m) ≡ some v
  get-put_self k v m = ground (arith, get-put k k v m, e.equal_iff k k)

  pub length-delete-le : (k : K) (m : Assoc K V) → length (delete k m) ≤ length m
  unfolding delete
  length-delete-le k [] = omega arith
  length-delete-le k ((i, w) ∷ m) = ground (arith, length-delete-le k m)

  pub length-delete-lt :
      (k : K) (m : Assoc K V) {v : V} → get k m ≡ some v → length (delete k m) < length m
  unfolding get delete
  length-delete-lt k [] h = ground arith
  length-delete-lt k ((i, w) ∷ m) {v} h =
      ground (arith, length-delete-le k m, length-delete-lt k m {v = v})

  pub delete_absent : (k : K) (m : Assoc K V) → get k m ≡ none → delete k m ≡ m
  unfolding get delete
  delete_absent k [] h = refl
  delete_absent k ((i, w) ∷ m) h = ground (arith, delete_absent k m)

  pub length-put-le : (k : K) (v : V) (m : Assoc K V) → length (put k v m) ≤ suc (length m)
  unfolding put
  length-put-le k v [] = omega arith
  length-put-le k v ((i, w) ∷ m) = ground (arith, length-put-le k v m)

  pub length-put_present :
      (k : K) (v : V) (m : Assoc K V) {w : V} → get k m ≡ some w → length (put k v m) ≡ length m
  unfolding get put
  length-put_present k v [] h = absurd (ground arith)
  length-put_present k v ((i, u) ∷ m) {w} h = ground (arith, length-put_present k v m {w = w})

  -- an absent key goes to the end
  pub put_absent : (k : K) (v : V) (m : Assoc K V) → get k m ≡ none → put k v m ≡ m ++ (k, v) ∷ []
  unfolding get put
  put_absent k v [] h = refl
  put_absent k v ((i, w) ∷ m) h = ground (arith, put_absent k v m)

  -- no key stands twice
  abbrev pub Distinct : Assoc K V → Type κ
  Distinct [] = Unit
  Distinct ((k, v) ∷ m) = (get k m ≡ none) × Distinct m

  pub Distinct-put : (k : K) (v : V) (m : Assoc K V) → Distinct m → Distinct (put k v m)
  unfolding get put
  Distinct-put k v [] h = (refl, tt)
  Distinct-put k v ((i, w) ∷ m) h = elim (Bool-cases (i == k)) [
    | inl here ↦ rw here h
    | inr there ↦
        rw there (
          ground (arith, get-put k i v m, e.equal_iff i k, e.equal_iff k i),
          Distinct-put k v m h.1,
        )
  ]

  pub Distinct-delete : (k : K) (m : Assoc K V) → Distinct m → Distinct (delete k m)
  unfolding delete
  Distinct-delete k [] h = tt
  Distinct-delete k ((i, w) ∷ m) h = elim (Bool-cases (i == k)) [
    | inl here ↦ rw here (Distinct-delete k m h.1)
    | inr there ↦ rw there (ground (arith, get-delete k i m), Distinct-delete k m h.1)
  ]

  pub length-delete_present :
      (k : K) (m : Assoc K V) {v : V}
      → Distinct m
      → get k m ≡ some v
      → suc (length (delete k m)) ≡ length m
  unfolding get delete
  length-delete_present k [] d h = absurd (ground arith)
  length-delete_present k ((i, w) ∷ m) {v} d h = elim (Bool-cases (i == k)) [
    | inl here ↦ rw here (ap suc (ap length (delete_absent k m (rw (eq_of_== i k here) at d.0))))
    | inr there ↦ rw there (ap suc (length-delete_present k m {v = v} d.1 (rw there at h)))
  ]

  module _ {μ} (P : K × V → Type μ) where
    pub All-delete : (k : K) (m : Assoc K V) → All P m → All P (delete k m)
    unfolding delete
    All-delete k [] h = tt
    All-delete k ((i, w) ∷ m) h = ground (arith, All-delete k m h.1)

    -- what holds of every entry holds of the value found
    pub All-get : (k : K) (m : Assoc K V) {v : V} → All P m → get k m ≡ some v → P (k, v)
    unfolding get
    All-get k [] h g = absurd (ground arith)
    All-get k ((i, w) ∷ m) {v} h g = elim (Bool-cases (i == k)) [
      | inl here ↦
          let same_key = eq_of_== i k here in
          let same_value : w ≡ v = ground arith in rw (← same_key, ← same_value) h.0
      | inr there ↦ All-get k m h.1 (ground arith)
    ]

    pub All-put : (k : K) (v : V) (m : Assoc K V) → All P m → P (k, v) → All P (put k v m)
    unfolding put
    All-put k v [] h p = (p, tt)
    All-put k v ((i, w) ∷ m) h p = elim (Bool-cases (i == k)) [
      | inl here ↦ rw here (rw (eq_of_== i k here) p, h.1)
      | inr there ↦ rw there (h.0, All-put k v m h.1 p)
    ]
