-- ===== src/User/Types.antt =====
-- packages/user/src/types.ts: the row of a user, patches of it, and the errors. Texts that a person
-- types (handles, addresses, MFA values) are code units, ids and hashes are strings. The columns
-- that a deployment adds to the row (`T`) stand in `columns`; each is a text or a scalar. A patch
-- sets neither `id` nor `version`, which the store manages, and has no field that is `undefined`.
use aoothjs.Base.{ℕ, String, Bool, Option, List, Text}
use aoothjs.Base.Assoc.{Assoc}

pub record TrustedDeviceRecord : Type 0 where
  pub token : Text
  pub ip : Option String
  pub issued_at : ℕ
  pub expires_at : ℕ
  pub name : Option String

pub record PasswordData : Type 0 where
  pub hash : String
  pub history : List String
  pub last_changed : ℕ
  pub is_initial : Bool

pub record AccountData : Type 0 where
  pub active : Bool
  pub locked : Bool
  pub lock_reason : String
  pub lock_ends : ℕ
  pub failed_login_attempts : ℕ
  pub last_login : ℕ
  pub pending_invitation : Option Bool
  pub invited_by : Option String
  pub invite_nonce : Option String
  pub verified_email : Option Text

pub record MfaMethod : Type 0 where
  pub name : String
  pub confirmed : Bool
  pub value : Text
  pub last_used_window : Option ℕ

pub record MfaData : Type 0 where
  pub methods : List MfaMethod
  pub default_method : String
  pub auto_send : Bool

pub data Column : Type 0 where
  text : Text → Column
  scalar : ℕ → Column

pub record UserCredentials : Type 0 where
  pub id : String
  pub username : Text
  pub version : Option ℕ
  pub password : PasswordData
  pub account : AccountData
  pub mfa : MfaData
  pub trusted_devices : Option (List TrustedDeviceRecord)
  pub seen_devices : Option (List TrustedDeviceRecord)
  pub columns : Assoc String Column

-- `DeepPartial<UserCredentials>`: a part that is absent is one with no field
pub record PasswordPatch : Type 0 where
  pub hash : Option String
  pub history : Option (List String)
  pub last_changed : Option ℕ
  pub is_initial : Option Bool

pub record AccountPatch : Type 0 where
  pub active : Option Bool
  pub locked : Option Bool
  pub lock_reason : Option String
  pub lock_ends : Option ℕ
  pub failed_login_attempts : Option ℕ
  pub last_login : Option ℕ
  pub pending_invitation : Option Bool
  pub invited_by : Option String
  pub invite_nonce : Option String
  pub verified_email : Option Text

pub record MfaPatch : Type 0 where
  pub methods : Option (List MfaMethod)
  pub default_method : Option String
  pub auto_send : Option Bool

pub record UserPatch : Type 0 where
  pub username : Option Text
  pub password : PasswordPatch
  pub account : AccountPatch
  pub mfa : MfaPatch
  pub trusted_devices : Option (List TrustedDeviceRecord)
  pub seen_devices : Option (List TrustedDeviceRecord)
  pub columns : Assoc String Column

-- the dot-paths of the numbers in a row, besides the version
pub data CounterPath : Type 0 where
  failed_login_attempts last_login lock_ends last_changed : CounterPath

pub record UserStoreUpdate : Type 0 where
  pub set : Option UserPatch
  pub inc : List (CounterPath × ℕ)
  pub expected_version : Option ℕ

-- `UserAuthError`, with the details that the service gives it
pub data UserAuthError : Type 0 where
  not_found already_exists inactive policy_violation passwords_mismatch : UserAuthError
  password_in_history mfa_required mfa_not_configured cas_exhausted : UserAuthError
  locked : String → ℕ → UserAuthError
  invalid_credentials mfa_invalid : Option ℕ → UserAuthError

-- what a call that may throw gives
pub data Result (A : Type 0) : Type 0 where
  ok : A → Result A
  err : UserAuthError → Result A
