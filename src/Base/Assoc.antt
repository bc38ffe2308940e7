-- ===== src/Base/Assoc.antt =====
-- A JavaScript `Map`, or an object used as one, as the list of its entries in insertion order.
pub mod Laws
pub mod Deleted
pub mod Entries
use Prim.Native.Nat.{ℕ, suc}
use aoothjs.Base.Tests.{if◌then◌else◌}
use aoothjs.Base.Equality.{Eq, ◌==◌}
use mathlib.Core.Bool.{Bool}
use mathlib.Core.Option.{Option, none, some}
use mathlib.Core.List.{List, [], ◌∷◌}

abbrev pub Assoc {ℓ κ} : Type ℓ → Type κ → Type (ℓ ⊔ κ)
Assoc K V = List (K × V)

module _ {ℓ κ} {K : Type ℓ} {V : Type κ} ⦃e : Eq K⦄ where
  -- map.get(k)
  unfoldable pub get : K → Assoc K V → Option V
  get k [] = none
  get k ((j, v) ∷ m) = if j == k then some v else get k m

  -- map.set(k, v): an existing key keeps its place, a new one goes last
  unfoldable pub put : K → V → Assoc K V → Assoc K V
  put k v [] = (k, v) ∷ []
  put k v ((j, w) ∷ m) = let rest = put k v m in if j == k then (j, v) ∷ m else (j, w) ∷ rest

  -- map.delete(k)
  unfoldable pub delete : K → Assoc K V → Assoc K V
  delete k [] = []
  delete k ((j, w) ∷ m) = let rest = delete k m in if j == k then rest else (j, w) ∷ rest

module _ {ℓ κ} {K : Type ℓ} {V : Type κ} where
  -- a loop over the map that deletes and counts the entries whose value passes the test
  unfoldable pub delete_where : (V → Bool) → Assoc K V → ℕ × Assoc K V
  delete_where p [] = (0, [])
  delete_where p ((k, v) ∷ m) =
      let (removed, kept) = delete_where p m in
      if p v then (suc removed, kept) else (removed, (k, v) ∷ kept)
