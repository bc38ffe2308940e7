-- ===== src/User/Masking.antt =====
-- packages/user/src/utils.ts: `maskEmail`, `maskPhone`, `maskMfaValue` and `mask`.
pub mod Hidden
mod Tests
use aoothjs.Base.{
  ℕ, zero, suc, ◌-◌, ◌/◌, max, String, Bool, true, false, Option, none, some, List, [], ◌∷◌, ◌++◌,
  leb, nat_beq, length, Text, ◌==◌, string_eq, if◌then◌else◌,
}
use aoothjs.User.Types.{MfaMethod}

abbrev pub stars : Text
stars = 42 ∷ 42 ∷ 42 ∷ []

-- `s.slice(0, n)`
abbrev pub take : ℕ → Text → Text
take zero s = []
take (suc n) [] = []
take (suc n) (c ∷ s) = c ∷ take n s

-- `s.slice(n)`
abbrev pub drop : ℕ → Text → Text
drop zero s = s
drop (suc n) [] = []
drop (suc n) (c ∷ s) = drop n s

-- `Math.max(1, Math.floor(s.length / 4))`
unfoldable pub shown : Text → ℕ
shown s = max 1 (length s / 4)

unfoldable pub mask : Text → Text
unfolding shown
mask [] = []
mask (c ∷ cs) =
    let s : Text = c ∷ cs in
    if leb (length s) 2 then stars else take (shown s) s ++ (stars ++ drop (length s - shown s) s)

-- `email.indexOf("@")`
unfoldable pub index_of_at : Text → Option ℕ
index_of_at [] = none
index_of_at (c ∷ cs) =
    let rest = index_of_at cs in
    if nat_beq c 64 then some 0 else elim rest [ none ↦ none | some n ↦ some (suc n) ]

unfoldable pub mask_email : Text → Text
unfolding index_of_at mask
mask_email [] = []
mask_email (c ∷ cs) =
    let email : Text = c ∷ cs in
    elim (index_of_at email) [ none ↦ mask email | some at ↦ mask (take at email) ++ drop at email ]

unfoldable pub mask_phone : Text → Text
unfolding mask
mask_phone phone = mask phone

unfoldable pub mask_mfa_value : MfaMethod → Text
unfolding mask_email mask_phone
mask_mfa_value method =
    if method.name == "email"
    then mask_email method.value
    else if method.name == "sms"
    then mask_phone method.value
    else []
