-- ===== src/User/Masking/Tests.antt =====
-- Runs of the masks of packages/user/src/utils.ts, and the theorems at those runs.
use aoothjs.Base.{String, true, none, ◌≡◌, refl, [], ◌∷◌, Text, units}
use aoothjs.User.Types.{MfaMethod}
use aoothjs.User.Masking.{shown, mask, index_of_at, mask_email, mask_phone, mask_mfa_value}

masks : Unit {0}
unfolding units shown mask index_of_at mask_email mask_phone mask_mfa_value
masks = tt

abbrev method : String → Text → MfaMethod
method name value = record { name = name; value = value; confirmed = true; last_used_window = none }

mask_tests :
    (mask_mfa_value (method "email" (units "ann.lee@x.org")) ≡ units "a***e@x.org")
    × (mask_mfa_value (method "sms" (units "+12025550123")) ≡ units "+12***123")
    × (mask_mfa_value (method "totp" (units "secret")) ≡ [])
unfolding masks
mask_tests = (refl, refl, refl)

abbrev word : Text
word = 97 ∷ 98 ∷ 99 ∷ 100 ∷ []
