-- ===== src/Base/Assoc/Deleted.antt =====
-- What a loop that deletes entries of a map leaves.
use Prim.Native.Nat.{◌+◌}
use mathlib.Core.Path.{◌≡◌, refl}
use mathlib.Core.Logic.{inl, inr}
use mathlib.Core.Bool.{Bool}
use mathlib.Core.Option.{Option, none, some}
use mathlib.Core.List.{[], ◌∷◌}
use native.Mathlib.Omega.{arith}
use aoothjs.Base.Tests.{Bool-cases, if◌then◌else◌}
use aoothjs.Base.Equality.{Eq}
use aoothjs.Base.Lists.{length}
use aoothjs.Base.Assoc.{Assoc, get, delete_where}
use aoothjs.Base.Assoc.Laws.{Distinct}

-- a value that does not pass the test
abbrev pub unless {κ} : {V : Type κ} → (V → Bool) → Option V → Option V
unless p none = none
unless p (some v) = if p v then none else some v

module _ {ℓ κ} {K : Type ℓ} {V : Type κ} ⦃e : Eq K⦄ (p : V → Bool) where
  absent-delete_where : (k : K) (m : Assoc K V) → get k m ≡ none → get k (delete_where p m).1 ≡ none
  unfolding get delete_where
  absent-delete_where k [] h = refl
  absent-delete_where k ((i, v) ∷ m) h = ground (arith, absent-delete_where k m)

  pub get-delete_where :
      (k : K) (m : Assoc K V) → Distinct m → get k (delete_where p m).1 ≡ unless p (get k m)
  unfolding get delete_where
  get-delete_where k [] d = refl
  get-delete_where k ((i, v) ∷ m) d =
      ground (arith, get-delete_where k m d.1, absent-delete_where i m d.0, e.equal_iff i k)

  pub Distinct-delete_where : (m : Assoc K V) → Distinct m → Distinct (delete_where p m).1
  unfolding delete_where
  Distinct-delete_where [] d = tt
  Distinct-delete_where ((i, v) ∷ m) d = elim (Bool-cases (p v)) [
    | inl gone ↦ rw gone (Distinct-delete_where m d.1)
    | inr kept ↦ rw kept (absent-delete_where i m d.0, Distinct-delete_where m d.1)
  ]

  pub length-delete_where :
      (m : Assoc K V) → (delete_where p m).0 + length (delete_where p m).1 ≡ length m
  unfolding delete_where
  length-delete_where [] = omega arith
  length-delete_where ((i, v) ∷ m) = ground (arith, length-delete_where m)
