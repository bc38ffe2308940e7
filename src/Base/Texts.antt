-- ===== src/Base/Texts.antt =====
-- Texts as JavaScript reads them: lists of UTF-16 code units.
use Prim.Native.Char.{code}
use Prim.Native.Nat.{ℕ, ◌+◌, ◌-◌, ◌/◌, ◌%◌}
use Prim.Native.String.{String}
use mathlib.Core.Path.{◌≡◌, refl}
use mathlib.Core.Logic.{◌↔◌}
use mathlib.Core.Bool.{Bool, true, false, ◌&&◌}
use mathlib.Core.List.{List, [], ◌∷◌}
use native.Mathlib.Omega.{arith}
use aoothjs.Base.Tests.{ltb, nat_beq, if◌then◌else◌}
use aoothjs.Base.Equality.{Eq}

abbrev pub Text : Type 0
Text = List ℕ

-- the UTF-16 code units of a text
unfoldable pub units : String → List ℕ
units String.[] = []
units (String.◌∷◌ c s) =
    let x = code c in
    let rest = units s in
    if ltb x 0x10000
    then x ∷ rest
    else (0xD800 + (x - 0x10000) / 0x400) ∷ (0xDC00 + (x - 0x10000) % 0x400) ∷ rest

abbrev pub text_beq : Text → Text → Bool
text_beq [] [] = true
text_beq [] (_ ∷ _) = false
text_beq (_ ∷ _) [] = false
text_beq (x ∷ xs) (y ∷ ys) = nat_beq x y && text_beq xs ys

pub text_beq_iff : (a b : Text) → (text_beq a b ≡ true) ↔ (a ≡ b)
text_beq_iff [] [] = (λ _. refl, λ _. refl)
text_beq_iff [] (y ∷ ys) = ground arith
text_beq_iff (x ∷ xs) [] = ground arith
text_beq_iff (x ∷ xs) (y ∷ ys) = ground (arith, text_beq_iff xs ys)

instance abbrev pub text_eq : Eq Text
text_eq = record { equal = text_beq; equal_iff = text_beq_iff }
