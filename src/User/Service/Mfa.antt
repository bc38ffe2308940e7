-- ===== src/User/Service/Mfa.antt =====
-- packages/user/src/user-service.ts: the MFA methods of a user, `verifyMfa` and
-- `verifyTotpSetupCode`, and `getCorrespondenceEmail`. The check of a code against a secret
-- (`verifyTotpCode`) is the argument `matches`, which answers the matched counter.
pub mod Once
pub mod Replay
use aoothjs.Base.{
  or_else, ℕ, String, Bool, true, false, not, ◌&&◌, Option, none, some, List, [], ◌∷◌, ◌++◌, ltb,
  leb, any, filter, map, Text, ◌==◌, string_eq, if◌then◌else◌,
}
use aoothjs.Base.Assoc.{get}
use aoothjs.User.Types.{
  Column, text, scalar, MfaMethod, MfaData, UserCredentials, UserStoreUpdate, MfaPatch, UserPatch,
  mfa_not_configured, mfa_invalid, Result, ok, err,
}
use aoothjs.User.Patch.{no_account, no_mfa, no_patch}
use aoothjs.User.Store.{Action, Others, Mutator, update, with_cas, default_attempts}
use aoothjs.User.Masking.{mask_mfa_value}
use aoothjs.User.Service.{
  LockoutOverride, ResolvedConfig, pure, raise, or_raise, raise_unless, ◌>>=◌, ◌>>◌, setting,
  get_user, set_or_throw,
}
use aoothjs.User.Service.Accounts.{increment_and_maybe_lock, overridden, assert_can_sign_in}

abbrev pub set_methods : List MfaMethod → UserPatch
set_methods methods = record no_patch { mfa = record no_mfa { methods = some methods } }

unfoldable pub with_method : MfaMethod → List MfaMethod → List MfaMethod
with_method method methods = filter (λ m. not (m.name == method.name)) methods ++ method ∷ []

unfoldable pub add_mfa_method : Others → String → MfaMethod → Action Unit
unfolding with_cas with_method
add_mfa_method others id method =
    with_cas default_attempts others id
      λ user. ok (tt, some (setting (set_methods (with_method method user.mfa.methods))))

abbrev pub is_named : String → MfaMethod → Bool
is_named name method = method.name == name

unfoldable pub confirmed_methods : String → List MfaMethod → List MfaMethod
confirmed_methods name methods =
    map (λ m. if is_named name m then record m { confirmed = true } else m) methods

unfoldable pub confirm_mfa_method : Others → String → String → Action Unit
unfolding with_cas confirmed_methods
confirm_mfa_method others id name = with_cas default_attempts others id λ user.
    if any (is_named name) user.mfa.methods
    then ok (tt, some (setting (set_methods (confirmed_methods name user.mfa.methods))))
    else err mfa_not_configured

abbrev pub no_name : String
no_name = ""

unfoldable pub remove_mfa_method : String → String → Action Unit
unfolding update get_user
remove_mfa_method id name = do
  user ← get_user id
  let methods = filter (λ m. not (is_named name m)) user.mfa.methods
  update id (
      setting (record no_patch {
        mfa = record no_mfa {
          methods = some methods;
          default_method = if user.mfa.default_method == name then some no_name else none;
        };
      }))
  pure tt

unfoldable pub set_default_mfa_method : String → String → Action Unit
unfolding update get_user
set_default_mfa_method id name = do
  user ← get_user id
  raise_unless (not (not (name == no_name) && not (any (is_named name) user.mfa.methods)))
      mfa_not_configured
  update id (
      setting (record no_patch {
        mfa = record no_mfa { default_method = some name; auto_send = some false };
      }))
  pure tt

unfoldable pub set_mfa_auto_send : String → Bool → Action Unit
unfolding set_or_throw
set_mfa_auto_send id value =
    set_or_throw id (record no_patch { mfa = record no_mfa { auto_send = some value } })

pub record MfaMethodInfo : Type 0 where
  pub name : String
  pub is_default : Bool
  pub masked : Text

unfoldable pub get_available_mfa_methods : MfaData → List MfaMethodInfo
unfolding mask_mfa_value
get_available_mfa_methods mfa =
    map
      (λ m. record {
        name = m.name;
        is_default = mfa.default_method == m.name;
        masked = mask_mfa_value m;
      })
      (filter (λ m. m.confirmed) mfa.methods)

-- `list.find(test)`
abbrev pub find_first : {A : Type 0} → (A → Bool) → List A → Option A
find_first p [] = none
find_first p (x ∷ xs) = let rest = find_first p xs in if p x then some x else rest

abbrev pub totp_name : String
totp_name = "totp"

abbrev pub is_confirmed_totp : MfaMethod → Bool
is_confirmed_totp m = (m.name == totp_name) && m.confirmed

-- a counter that the last accepted one has reached
abbrev pub is_replay : Option ℕ → ℕ → Bool
is_replay none counter = false
is_replay (some last) counter = leb counter last

abbrev pub last_window : Option MfaMethod → Option ℕ
last_window none = none
last_window (some m) = m.last_used_window

-- `?.lastUsedWindow` of the confirmed TOTP method
unfoldable pub used_window : UserCredentials → Option ℕ
used_window user = last_window (find_first is_confirmed_totp user.mfa.methods)

unfoldable pub use_window : ℕ → List MfaMethod → List MfaMethod
use_window counter methods =
    map (λ m. if is_confirmed_totp m then record m { last_used_window = some counter } else m)
      methods

-- the patch of an accepted counter; the failed attempts start over
unfoldable pub accepting : ℕ → UserCredentials → UserPatch
unfolding use_window
accepting counter current = record no_patch {
  mfa = record no_mfa { methods = some (use_window counter current.mfa.methods) };
  account = record no_account {
    failed_login_attempts = if ltb 0 current.account.failed_login_attempts then some 0 else none;
  };
}

-- The counter is checked again on the row that is read; answers whether it was a replay.
unfoldable pub accept_counter : ℕ → Mutator Bool
unfolding used_window accepting
accept_counter counter current =
    if is_replay (used_window current) counter
    then ok (true, none)
    else ok (false, some (setting (accepting counter current)))

-- whether the counter is taken: not when nothing matched, nor when it is a replay
unfoldable pub take_counter : Others → String → Option ℕ → Option ℕ → Action Bool
unfolding with_cas accept_counter
take_counter others id last none = pure false
take_counter others id last (some counter) = if is_replay last counter then pure false else do
  replayed ← with_cas default_attempts others id (accept_counter counter)
  pure (not replayed)

module _ (config : ResolvedConfig) (matches : Text → Text → Option ℕ) where
  unfoldable pub verify_mfa : ℕ → Others → String → Text → LockoutOverride → Action Unit
  unfolding assert_can_sign_in take_counter increment_and_maybe_lock overridden
  verify_mfa now others id code override = do
    user ← assert_can_sign_in now id
    totp ← or_raise mfa_not_configured (find_first is_confirmed_totp user.mfa.methods)
    taken ← take_counter others id totp.last_used_window (matches totp.value code)
    if taken
        then pure tt
        else increment_and_maybe_lock now (overridden config.lockout override) id user.account
            mfa_invalid

  unfoldable pub verify_totp_setup_code : String → Text → Action Unit
  unfolding get_user
  verify_totp_setup_code id code = do
    user ← get_user id
    totp ←
        or_raise mfa_not_configured
          (find_first (λ m. (m.name == totp_name) && not m.confirmed) user.mfa.methods)
    or_raise (mfa_invalid none) (matches totp.value code)
    pure tt

abbrev pub email_name : String
email_name = "email"

abbrev pub is_blank : Text → Bool
is_blank [] = true
is_blank (c ∷ cs) = false

-- a text that is there and not empty
abbrev pub filled : Option Text → Option Text
filled none = none
filled (some t) = if is_blank t then none else some t

abbrev pub column_text : Option Column → Option Text
column_text none = none
column_text (some (text t)) = some t
column_text (some (scalar n)) = none

abbrev pub method_value : Option MfaMethod → Option Text
method_value none = none
method_value (some m) = some m.value

-- the user's email column, if one is configured
unfoldable pub email_column : Option String → UserCredentials → Option Text
unfolding get
email_column none user = none
email_column (some field) user = column_text (get field user.columns)

unfoldable pub get_correspondence_email : ResolvedConfig → UserCredentials → Option Text
unfolding email_column
get_correspondence_email config user =
    let is_mail : MfaMethod → Bool =
      λ m. (m.name == email_name) && (m.confirmed && not (is_blank m.value)) in
    or_else (filled user.account.verified_email) (
      or_else (method_value (find_first is_mail user.mfa.methods))
        (filled (email_column config.email_field user)))
