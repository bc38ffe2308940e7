-- ===== src/User/Service/Passwords.antt =====
-- packages/user/src/user-service.ts and password/policy.ts: the checks of a new password, and the
-- change of one. A policy's rule is an argument, its codes and parameters are left out.
pub mod Change
use aoothjs.Base.{
  ℕ, zero, suc, ◌-◌, String, Bool, true, false, not, ◌&&◌, Option, none, some, List, [], ◌∷◌, ltb,
  any, map, filter, Text, text_eq, ◌==◌, string_eq, if◌then◌else◌,
}
use aoothjs.User.Types.{
  PasswordData, UserCredentials, UserPatch, not_found, invalid_credentials, policy_violation,
  passwords_mismatch, password_in_history,
}
use aoothjs.User.Patch.{no_patch}
use aoothjs.User.Store.{Action, find_by_id, update}
use aoothjs.User.Service.{
  PasswordPolicy, ResolvedConfig, PasswordHasher, pure, raise, gets, or_raise, raise_unless, ◌>>=◌,
  ◌>>◌, setting, get_user,
}

pub record PolicyResult : Type 0 where
  pub description : String
  pub passed : Bool
  pub error_message : String

pub record PolicyCheckResult : Type 0 where
  pub passed : Bool
  pub policies : List PolicyResult
  pub errors : List String

-- what one policy adds to the result of those after it
abbrev pub add_result : PasswordPolicy → Bool → PolicyCheckResult → PolicyCheckResult
add_result policy passed rest = record {
  passed = passed && rest.passed;
  policies =
      record {
        description = policy.description;
        passed = passed;
        error_message = policy.error_message;
      }
      ∷ rest.policies;
  errors = if passed then rest.errors else policy.error_message ∷ rest.errors;
}

unfoldable pub check_policies : Text → PasswordData → List PasswordPolicy → PolicyCheckResult
check_policies password old [] = record { passed = true; policies = []; errors = [] }
check_policies password old (policy ∷ policies) =
    add_result policy (policy.rule password old) (check_policies password old policies)

abbrev pub is_transferable : PasswordPolicy → Bool
is_transferable policy = elim policy.serialized [ none ↦ false | some rule ↦ true ]

pub record TransferablePolicy : Type 0 where
  pub rule : Option String
  pub description : String
  pub error_message : String

unfoldable pub get_transferable_policies : ResolvedConfig → List TransferablePolicy
get_transferable_policies config =
    map
      (λ policy. record {
        rule = policy.serialized;
        description = policy.description;
        error_message = policy.error_message;
      })
      (filter is_transferable config.policies)

-- `list.slice(0, n)`
abbrev pub first : {A : Type 0} → ℕ → List A → List A
first zero xs = []
first (suc n) [] = []
first (suc n) (x ∷ xs) = x ∷ first n xs

abbrev pub no_hash : String
no_hash = ""

-- `[user.password.hash, ...user.password.history].filter(Boolean)`
unfoldable pub known_hashes : PasswordData → List String
known_hashes old = filter (λ hash. not (hash == no_hash)) (old.hash ∷ old.history)

-- the history after a change: the latest hashes, or none if none is kept
unfoldable pub new_history : ℕ → PasswordData → List String
unfolding known_hashes
new_history limit old = first limit (known_hashes old)

abbrev pub changing : ℕ → String → List String → UserPatch
changing now hash history = record no_patch {
  password = record {
    hash = some hash;
    history = some history;
    last_changed = some now;
    is_initial = some false;
  };
}

module _ (config : ResolvedConfig) (hasher : PasswordHasher) where
  unfoldable pub apply_password_change : ℕ → String → String → UserCredentials → Text → Action Unit
  unfolding check_policies known_hashes new_history update
  apply_password_change now salt id user password = do
    raise_unless (check_policies password user.password config.policies).passed policy_violation
    raise_unless (not (any (hasher.verify password) (known_hashes user.password)))
        password_in_history
    update id (
        setting (
          changing now (hasher.hash salt password)
            (new_history config.history_length user.password)))
    pure tt

  unfoldable pub verify_password : String → Text → Action Bool
  unfolding get_user
  verify_password id password = do
    user ← get_user id
    pure (hasher.verify password user.password.hash)

  abbrev pub is_repeated : Text → Option Text → Bool
  is_repeated password none = true
  is_repeated password (some again) = password == again

  unfoldable pub change_password : ℕ → String → String → Text → Text → Option Text → Action Unit
  unfolding apply_password_change get_user
  change_password now salt id current password again = do
    raise_unless (is_repeated password again) passwords_mismatch
    user ← get_user id
    raise_unless (hasher.verify current user.password.hash) (invalid_credentials none)
    apply_password_change now salt id user password

  unfoldable pub set_password : ℕ → String → String → Text → Action Unit
  unfolding apply_password_change get_user
  set_password now salt id password = do
    user ← get_user id
    apply_password_change now salt id user password

-- no limit, or no time of the last change, never expires
unfoldable pub is_password_expired : ResolvedConfig → UserCredentials → ℕ → Bool
is_password_expired config user now =
    let limit = config.max_age_ms in
    let changed = user.password.last_changed in
    ltb 0 limit && (ltb 0 changed && ltb limit (now - changed))
