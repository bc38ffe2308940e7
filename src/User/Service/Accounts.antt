-- ===== src/User/Service/Accounts.antt =====
-- packages/user/src/user-service.ts: creating and deleting users, `login` and the lockout, and the
-- state of an account. The hash that `burnPasswordHash` spends changes nothing.
pub mod Login
pub mod Guesses
use aoothjs.Base.{
  or_default, ℕ, zero, suc, ◌+◌, String, Bool, true, false, not, ◌&&◌, Option, none, some, List, [],
  ◌∷◌, ltb, leb, nat_beq, any, Text, ◌==◌, string_eq, if◌then◌else◌,
}
use aoothjs.Base.Assoc.{Assoc, get}
use aoothjs.User.Types.{
  Column, text, scalar, AccountData, MfaData, UserCredentials, UserStoreUpdate, CounterPath,
  failed_login_attempts, UserAuthError, not_found, inactive, locked, invalid_credentials,
}
use aoothjs.User.Patch.{no_account, no_patch}
use aoothjs.User.Store.{Action, find_by_handle, create, update, delete_user}
use aoothjs.User.Service.{
  LockoutConfig, LockoutOverride, ResolvedConfig, PasswordHasher, pure, raise, gets, or_raise,
  raise_unless, ◌>>=◌, ◌>>◌, setting, get_user, set_or_throw,
}

pub record LoginResult : Type 0 where
  pub user : UserCredentials
  pub mfa_required : Bool

pub record LockStatus : Type 0 where
  pub locked : Bool
  pub expired : Bool
  pub reason : String
  pub lock_ends : ℕ

abbrev pub no_reason : String
no_reason = ""

-- the row that `createUser` starts from, with the columns of `extras`
unfoldable pub new_user : ℕ → String → Text → String → Bool → Assoc String Column → UserCredentials
new_user now id username hash is_initial extras = record {
  id = id;
  username = username;
  version = none;
  password = record { hash = hash; history = []; last_changed = now; is_initial = is_initial };
  account = record {
    active = false;
    locked = false;
    lock_reason = no_reason;
    lock_ends = 0;
    failed_login_attempts = 0;
    last_login = 0;
    pending_invitation = none;
    invited_by = none;
    invite_nonce = none;
    verified_email = none;
  };
  mfa = record { methods = []; default_method = no_reason; auto_send = false };
  trusted_devices = none;
  seen_devices = none;
  columns = extras;
}

-- `password ?? generatePassword()`; a password that is empty is used, and is initial
abbrev pub chosen_password : Text → Option Text → Text
chosen_password generated none = generated
chosen_password generated (some password) = password

abbrev pub is_generated : Option Text → Bool
is_generated none = true
is_generated (some []) = true
is_generated (some (c ∷ cs)) = false

-- `createUser`, with the random id, salt and generated password
unfoldable pub create_user :
    PasswordHasher
    → ℕ
    → String
    → String
    → Text
    → Text
    → Option Text
    → Assoc String Column
    → Action UserCredentials
unfolding new_user create
create_user hasher now id salt generated username password extras =
    let hash = hasher.hash salt (chosen_password generated password) in
    let user = new_user now id username hash (is_generated password) extras in
    do create id user; pure user

-- `deleteUser`
unfoldable pub remove_user : String → Action Unit
unfolding delete_user
remove_user id = do
  removed ← (λ s. let (removed, s') = delete_user id none s in pure removed s')
  raise_unless removed not_found

unfoldable pub get_lock_status : ℕ → AccountData → LockStatus
get_lock_status now account =
    if account.locked
    then record {
      locked = true;
      expired = ltb 0 account.lock_ends && ltb account.lock_ends now;
      reason = account.lock_reason;
      lock_ends = account.lock_ends;
    }
    else record { locked = false; expired = false; reason = no_reason; lock_ends = 0 }

-- the account as `ensureNotLockedOrThrow` leaves it when it lifts a lock
abbrev pub lifted : AccountData → AccountData
lifted account = record account { locked = false; lock_reason = no_reason; lock_ends = 0 }

abbrev pub lifting : UserStoreUpdate
lifting = setting (record no_patch {
  account = record no_account {
    locked = some false;
    lock_reason = some no_reason;
    lock_ends = some 0;
  };
})

unfoldable pub lift_lock : String → AccountData → Action AccountData
unfolding update
lift_lock id account = do update id lifting; pure (lifted account)

-- An expired lock is lifted, in the store and in the account, which comes back.
unfoldable pub ensure_not_locked_or_throw : ℕ → String → AccountData → Action AccountData
unfolding get_lock_status lift_lock
ensure_not_locked_or_throw now id account =
    let status = get_lock_status now account in
    if not status.locked
    then pure account
    else if status.expired
    then lift_lock id account
    else raise (locked account.lock_reason account.lock_ends)

-- `{ ...this.config.lockout, ...lockoutOverride }`
unfoldable pub overridden : LockoutConfig → LockoutOverride → LockoutConfig
overridden lockout override = record {
  threshold = or_default lockout.threshold override.threshold;
  duration = or_default lockout.duration override.duration;
}

-- `duration ? clock() + duration : 0`
abbrev pub lock_end : ℕ → ℕ → ℕ
lock_end now zero = 0
lock_end now (suc n) = now + suc n

abbrev pub too_many : String
too_many = "Too many login attempts"

abbrev pub one_more : List (CounterPath × ℕ)
one_more = (failed_login_attempts, 1) ∷ []

abbrev pub locking : ℕ → UserStoreUpdate
locking ends = record {
  inc = one_more;
  set = some (record no_patch {
    account = record no_account {
      locked = some true;
      lock_reason = some too_many;
      lock_ends = some ends;
    };
  });
  expected_version = none;
}

abbrev pub counting : UserStoreUpdate
counting = record { inc = one_more; set = none; expected_version = none }

-- Throws the error that it is given, with the end of the lock if it has locked the account.
unfoldable pub increment_and_maybe_lock :
    {A : Type 0} → ℕ → LockoutConfig → String → AccountData → (Option ℕ → UserAuthError) → Action A
unfolding update
increment_and_maybe_lock now lockout id account error =
    let new_attempts = account.failed_login_attempts + 1 in
    let should_lock = ltb 0 lockout.threshold && leb lockout.threshold new_attempts in
    if should_lock
    then update id (locking (lock_end now lockout.duration))
      >> raise (error (some (lock_end now lockout.duration)))
    else update id counting >> raise (error none)

abbrev pub recording : ℕ → UserStoreUpdate
recording now = setting (record no_patch {
  account = record no_account { last_login = some now; failed_login_attempts = some 0 };
})

unfoldable pub record_login : ℕ → String → Action ℕ
unfolding update
record_login now id = do update id (recording now); pure now

abbrev pub has_confirmed_mfa_methods : MfaData → Bool
has_confirmed_mfa_methods mfa = any (λ method. method.confirmed) mfa.methods

-- the row that `login` gives, patched as the store's was
abbrev pub logged_in_user : ℕ → AccountData → UserCredentials → UserCredentials
logged_in_user now account user = record user {
  account = record account { last_login = now; failed_login_attempts = 0 };
}

-- the checks before the first factor
unfoldable pub check_account : ℕ → UserCredentials → Action AccountData
unfolding ensure_not_locked_or_throw
check_account now user =
    if not user.account.active
    then raise inactive
    else ensure_not_locked_or_throw now user.id user.account

-- a sign-in with the right password
unfoldable pub admit : ℕ → UserCredentials → AccountData → Action LoginResult
unfolding record_login
admit now user account = do
  at ← record_login now user.id
  pure (record {
    user = logged_in_user at account user;
    mfa_required = has_confirmed_mfa_methods user.mfa;
  })

unfoldable pub login :
    ResolvedConfig → PasswordHasher → ℕ → Text → Text → LockoutOverride → Action LoginResult
unfolding check_account admit increment_and_maybe_lock overridden find_by_handle
login config hasher now handle password override = do
  found ← gets (find_by_handle handle)
  user ← or_raise not_found found
  account ← check_account now user
  if hasher.verify password user.password.hash
      then admit now user account
      else increment_and_maybe_lock now (overridden config.lockout override) user.id account
          invalid_credentials

unfoldable pub assert_can_sign_in : ℕ → String → Action UserCredentials
unfolding get_user check_account
assert_can_sign_in now id = do
  user ← get_user id
  account ← check_account now user
  pure (record user { account = account })

unfoldable pub activate_account : String → Option Text → Action Unit
unfolding set_or_throw
activate_account id verified_email = set_or_throw id (record no_patch {
  account = record no_account { active = some true; verified_email = verified_email };
})

unfoldable pub deactivate_account : String → Action Unit
unfolding set_or_throw
deactivate_account id =
    set_or_throw id (record no_patch { account = record no_account { active = some false } })

-- no duration, or one of zero, locks for good
unfoldable pub lock_account : ℕ → String → String → ℕ → Action Unit
unfolding set_or_throw
lock_account now id reason duration = set_or_throw id (record no_patch {
  account = record no_account {
    locked = some true;
    lock_reason = some reason;
    lock_ends = some (lock_end now duration);
  };
})

unfoldable pub unlock_account : String → Action Unit
unfolding set_or_throw
unlock_account id = set_or_throw id (record no_patch {
  account = record no_account {
    locked = some false;
    lock_reason = some no_reason;
    lock_ends = some 0;
    failed_login_attempts = some 0;
  };
})

unfoldable pub set_verified_email : String → Text → Action Unit
unfolding set_or_throw
set_verified_email id email =
    set_or_throw id
      (record no_patch { account = record no_account { verified_email = some email } })
