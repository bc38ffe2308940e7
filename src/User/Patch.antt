-- ===== src/User/Patch.antt =====
-- packages/user/src/utils.ts: `deepMerge` and `incrementAtPath`, on the row of a user.
use aoothjs.Base.{ℕ, ◌+◌, String, Option, none, some, [], ◌∷◌, string_eq}
use aoothjs.Base.Assoc.{Assoc, put}
use aoothjs.User.Types.{
  PasswordData, AccountData, MfaData, Column, UserCredentials, PasswordPatch, AccountPatch,
  MfaPatch, UserPatch, CounterPath, failed_login_attempts, last_login, lock_ends, last_changed,
}

-- a field that the patch has replaces that of the target
abbrev pub merge_field {ℓ} : {A : Type ℓ} → A → Option A → A
merge_field old none = old
merge_field old (some new) = new

abbrev pub merge_optional {ℓ} : {A : Type ℓ} → Option A → Option A → Option A
merge_optional old none = old
merge_optional old (some new) = some new

unfoldable pub merge_password : PasswordData → PasswordPatch → PasswordData
merge_password t p = record {
  hash = merge_field t.hash p.hash;
  history = merge_field t.history p.history;
  last_changed = merge_field t.last_changed p.last_changed;
  is_initial = merge_field t.is_initial p.is_initial;
}

unfoldable pub merge_account : AccountData → AccountPatch → AccountData
merge_account t p = record {
  active = merge_field t.active p.active;
  locked = merge_field t.locked p.locked;
  lock_reason = merge_field t.lock_reason p.lock_reason;
  lock_ends = merge_field t.lock_ends p.lock_ends;
  failed_login_attempts = merge_field t.failed_login_attempts p.failed_login_attempts;
  last_login = merge_field t.last_login p.last_login;
  pending_invitation = merge_optional t.pending_invitation p.pending_invitation;
  invited_by = merge_optional t.invited_by p.invited_by;
  invite_nonce = merge_optional t.invite_nonce p.invite_nonce;
  verified_email = merge_optional t.verified_email p.verified_email;
}

unfoldable pub merge_mfa : MfaData → MfaPatch → MfaData
merge_mfa t p = record {
  methods = merge_field t.methods p.methods;
  default_method = merge_field t.default_method p.default_method;
  auto_send = merge_field t.auto_send p.auto_send;
}

unfoldable pub merge_columns : Assoc String Column → Assoc String Column → Assoc String Column
unfolding put
merge_columns target [] = target
merge_columns target ((key, value) ∷ source) = merge_columns (put key value target) source

-- `deepMerge(user, patch)`: objects are merged, all other values and arrays replaced
unfoldable pub deep_merge : UserCredentials → UserPatch → UserCredentials
unfolding merge_password merge_account merge_mfa merge_columns
deep_merge user patch = record user {
  username = merge_field user.username patch.username;
  password = merge_password user.password patch.password;
  account = merge_account user.account patch.account;
  mfa = merge_mfa user.mfa patch.mfa;
  trusted_devices = merge_optional user.trusted_devices patch.trusted_devices;
  seen_devices = merge_optional user.seen_devices patch.seen_devices;
  columns = merge_columns user.columns patch.columns;
}

unfoldable pub increment_account : CounterPath → ℕ → AccountData → AccountData
increment_account failed_login_attempts n a = record a {
  failed_login_attempts = a.failed_login_attempts + n;
}
increment_account last_login n a = record a { last_login = a.last_login + n }
increment_account lock_ends n a = record a { lock_ends = a.lock_ends + n }
increment_account last_changed n a = a

unfoldable pub increment_password : CounterPath → ℕ → PasswordData → PasswordData
increment_password last_changed n p = record p { last_changed = p.last_changed + n }
increment_password failed_login_attempts n p = p
increment_password last_login n p = p
increment_password lock_ends n p = p

-- `incrementAtPath(user, path, amount)`
unfoldable pub increment_at_path : UserCredentials → CounterPath → ℕ → UserCredentials
unfolding increment_account increment_password
increment_at_path user path amount = record user {
  account = increment_account path amount user.account;
  password = increment_password path amount user.password;
}

-- the patches that set nothing
abbrev pub no_password : PasswordPatch
no_password = record { hash = none; history = none; last_changed = none; is_initial = none }

abbrev pub no_account : AccountPatch
no_account = record {
  active = none;
  locked = none;
  lock_reason = none;
  lock_ends = none;
  failed_login_attempts = none;
  last_login = none;
  pending_invitation = none;
  invited_by = none;
  invite_nonce = none;
  verified_email = none;
}

abbrev pub no_mfa : MfaPatch
no_mfa = record { methods = none; default_method = none; auto_send = none }

abbrev pub no_patch : UserPatch
no_patch = record {
  username = none;
  password = no_password;
  account = no_account;
  mfa = no_mfa;
  trusted_devices = none;
  seen_devices = none;
  columns = [];
}
