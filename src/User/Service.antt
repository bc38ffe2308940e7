-- ===== src/User/Service.antt =====
-- packages/user/src/user-service.ts: class `UserService`, over the store in memory. The children
-- have its methods: Accounts, Passwords, Mfa, Devices and Invitations. A method is an action on the
-- store that takes the time as `now`. A user's row is read and written without a wait in between,
-- but for `withCas` and for `revokeInvitation`, which take what others do while they wait. The
-- listeners of writes and the snapshots are in Service/Snapshots.
pub mod Accounts
pub mod Passwords
pub mod Mfa
pub mod Devices
pub mod Invitations
pub mod Snapshots
mod Tests
use aoothjs.Base.{
  arith, refl, ap, ◌≡◌, ℕ, String, Bool, true, false, Option, none, some, List, [], Text, string_eq,
}
use aoothjs.User.Types.{
  UserCredentials, PasswordData, UserPatch, UserStoreUpdate, UserAuthError, not_found, Result, ok,
  err,
}
use aoothjs.User.Store.{UserStore, Action, find_by_id, update}

pub record LockoutConfig : Type 0 where
  pub threshold : ℕ
  pub duration : ℕ

-- `Partial<LockoutConfig>`
pub record LockoutOverride : Type 0 where
  pub threshold : Option ℕ
  pub duration : Option ℕ

pub record PasswordPolicy : Type 0 where
  pub rule : Text → PasswordData → Bool
  pub serialized : Option String
  pub description : String
  pub error_message : String

-- `ResolvedConfig`: what the hasher reads of the password's part is in the hasher
pub record ResolvedConfig : Type 0 where
  pub history_length : ℕ
  pub max_age_ms : ℕ
  pub policies : List PasswordPolicy
  pub lockout : LockoutConfig
  pub secret : Option Text
  pub email_field : Option String

-- `PasswordHasher`: `hash` takes the random salt, `verify` the password and the hash
pub record PasswordHasher : Type 0 where
  pub hash : String → Text → String
  pub verify : Text → String → Bool

module _ {A : Type 0} where
  abbrev pub pure : A → Action A
  pure a s = (ok a, s)

  abbrev pub raise : UserAuthError → Action A
  raise e s = (err e, s)

  abbrev pub gets : (UserStore → A) → Action A
  gets f s = (ok (f s), s)

  abbrev pub or_raise : UserAuthError → Option A → Action A
  or_raise e none = raise e
  or_raise e (some a) = pure a

-- what comes after an await: nothing when it has thrown
abbrev pub continue : {A B : Type 0} → (A → Action B) → Result A × UserStore → Result B × UserStore
continue f (ok a, s) = f a s
continue f (err e, s) = (err e, s)

infixl 5 ◌>>=◌ ◌>>◌
abbrev pub ◌>>=◌ : {A B : Type 0} → Action A → (A → Action B) → Action B
◌>>=◌ m f s = continue f (m s)

abbrev pub ◌>>◌ : {A B : Type 0} → Action A → Action B → Action B
m >> k = m >>= λ _. k

pub >>=-ok :
    {A B : Type 0} (m : Action A) (f : A → Action B) (s : UserStore) {a : A} {s' : UserStore}
    → m s ≡ (ok a, s')
    → (m >>= f) s ≡ f a s'
>>=-ok m f s e = ap (continue f) e

pub >>=-err :
    {A B : Type 0} (m : Action A) (f : A → Action B) (s : UserStore) {e : UserAuthError}
    {s' : UserStore}
    → m s ≡ (err e, s')
    → (m >>= f) s ≡ (err e, s')
>>=-err m f s h = ap (continue f) h

-- what an action that has not thrown has gone through
pub continue_inv :
    {A B : Type 0} (f : A → Action B) (r : Result A × UserStore) {b : B} {after : UserStore}
    → continue f r ≡ (ok b, after)
    → (a : A) × (s : UserStore) × (r ≡ (ok a, s)) × (f a s ≡ (ok b, after))
continue_inv f (ok a, s) h = (a, s, refl, h)
continue_inv f (err e, s) h = absurd (ground arith)

pub or_raise_inv :
    {A : Type 0} (e : UserAuthError) (o : Option A) (s : UserStore) {a : A} {t : UserStore}
    → or_raise e o s ≡ (ok a, t)
    → (o ≡ some a) × (s ≡ t)
or_raise_inv e none s h = absurd (ground (arith, h))
or_raise_inv e (some b) s h = (ground (arith, h), ap (λ r. r.1) h)

-- `if (!test) throw`
abbrev pub raise_unless : Bool → UserAuthError → Action Unit
raise_unless true e = pure tt
raise_unless false e = raise e

abbrev pub setting : UserPatch → UserStoreUpdate
setting patch = record { set = some patch; inc = []; expected_version = none }

unfoldable pub get_user : String → Action UserCredentials
unfolding find_by_id
get_user id = do user ← gets (find_by_id id); or_raise not_found user

-- an update by a patch that throws when there is no such user
unfoldable pub set_or_throw : String → UserPatch → Action Unit
unfolding update
set_or_throw id patch = do found ← update id (setting patch); raise_unless found not_found

-- `update(id, patch)`
unfoldable pub update_user : String → UserPatch → Action UserCredentials
unfolding set_or_throw get_user
update_user id patch = do set_or_throw id patch; get_user id
