-- ===== src/Base/Equality.antt =====
-- JavaScript's `===` on the key types of the program: strings and object identities.
use Prim.Native.Nat.{ℕ}
use Prim.Native.String.{String}
use mathlib.Core.Path.{◌≡◌, refl}
use mathlib.Core.Logic.{◌↔◌, ◌≢◌}
use mathlib.Core.Bool.{Bool, true, false}
use native.Mathlib.Omega.{arith}
use text.Mathlib.Text.{◌==◌ as str_beq}
use text.Mathlib.TextEquality.{eq_iff}
use aoothjs.Base.Tests.{nat_beq, nat_beq_iff}

-- a test that decides equality; the instances below are the types of the program's keys
pub record Eq {ℓ} (A : Type ℓ) : Type ℓ where
  pub equal : (a b : A) → Bool
  pub equal_iff : (a b : A) → ((equal a b) ≡ true) ↔ (a ≡ b)

instance abbrev pub string_eq : Eq String
string_eq = record { equal_iff = eq_iff; equal = str_beq }

instance abbrev pub nat_eq : Eq ℕ
nat_eq = record { equal_iff = nat_beq_iff; equal = nat_beq }

infix 50 ◌==◌
abbrev pub ◌==◌ {ℓ} : {A : Type ℓ} ⦃found : Eq A⦄ → A → A → Bool
◌==◌ ⦃found⦄ a b = found.equal a b

module _ {ℓ} {A : Type ℓ} ⦃e : Eq A⦄ where
  pub ==_refl : (a : A) → (a == a) ≡ true
  ==_refl a = (e.equal_iff a a).1 refl

  pub eq_of_== : (a b : A) → (a == b) ≡ true → a ≡ b
  eq_of_== a b = (e.equal_iff a b).0

  pub ==_of_ne : (a b : A) → a ≢ b → (a == b) ≡ false
  ==_of_ne a b h = ground (arith, e.equal_iff a b)
