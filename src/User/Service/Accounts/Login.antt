-- ===== src/User/Service/Accounts/Login.antt =====
-- `login` of packages/user/src/user-service.ts as a step of the account alone.
use aoothjs.Base.{
  ℕ, ◌+◌, ◌≡◌, refl, sym, ap, ◌∙◌, inl, inr, String, Bool, true, false, not, ◌&&◌, Option, none,
  some, arith, ltb, leb, Bool-cases, if◌then◌else◌, Text, text_eq, nat_eq, string_eq, ◌==◌, ==_refl,
}
use aoothjs.Base.Assoc.{get}
use aoothjs.Base.Assoc.Entries.{get-put_here, get-put_there}
use aoothjs.User.Types.{
  AccountData, UserCredentials, UserStoreUpdate, UserAuthError, inactive, locked,
  invalid_credentials, Result, ok, err,
}
use aoothjs.User.Patch.{
  deep_merge, merge_account, merge_mfa, merge_password, merge_columns, increment_at_path,
  increment_account, increment_password,
}
use aoothjs.User.Store.{UserStore, Action, find_by_handle, updated, update, increment_all}
use aoothjs.User.Store.Valid.{IsValid, update-IsValid}
use aoothjs.User.Store.Handles.{found_stored}
use aoothjs.User.Store.Plain.{IsPlain, IsPlain-KeepsName, with_row, update_plain}
use aoothjs.User.Store.Keys.{handle_key, handle_key-with_row}
use aoothjs.User.Service.{LockoutConfig, LockoutOverride, ResolvedConfig, PasswordHasher, >>=-ok}
use aoothjs.User.Service.Accounts.{
  LoginResult, has_confirmed_mfa_methods, too_many, lifted, lift_lock, lock_end, locking, counting,
  lifting, recording, get_lock_status, ensure_not_locked_or_throw, overridden,
  increment_and_maybe_lock, record_login, logged_in_user, check_account, admit, login,
}

-- whether an account may not try now: its lock has not run out
unfoldable pub is_barred : ℕ → AccountData → Bool
is_barred now a = a.locked && not (ltb 0 a.lock_ends && ltb a.lock_ends now)

-- an account whose lock, if there was one, is off
abbrev pub opened : AccountData → AccountData
opened a = if a.locked then lifted a else a

unfoldable pub trips : LockoutConfig → AccountData → Bool
trips lockout a = ltb 0 lockout.threshold && leb lockout.threshold (a.failed_login_attempts + 1)

-- what a wrong password gives, when it causes a lock and when it does not
abbrev pub failed_by : Bool → ℕ → LockoutConfig → AccountData → Option UserAuthError × AccountData
failed_by true now lockout a = (
  some (invalid_credentials (some (lock_end now lockout.duration))),
  record a {
    failed_login_attempts = a.failed_login_attempts + 1;
    locked = true;
    lock_reason = too_many;
    lock_ends = lock_end now lockout.duration;
  },
)
failed_by false now lockout a = (
  some (invalid_credentials none),
  record a { failed_login_attempts = a.failed_login_attempts + 1 },
)

abbrev pub passed_account : ℕ → AccountData → AccountData
passed_account now a = record a { last_login = now; failed_login_attempts = 0 }

-- what a password says of an account that may try: the error, if any, and the account after it
abbrev pub finished : ℕ → LockoutConfig → Bool → AccountData → Option UserAuthError × AccountData
finished now lockout true a = (none, passed_account now a)
finished now lockout false a = failed_by (trips lockout a) now lockout a

unfoldable pub attempted :
    ℕ → LockoutConfig → Bool → AccountData → Option UserAuthError × AccountData
unfolding is_barred trips
attempted now lockout valid a =
    if not a.active
    then (some inactive, a)
    else if is_barred now a
    then (some (locked a.lock_reason a.lock_ends), a)
    else finished now lockout valid (opened a)

abbrev pub error_of : {A : Type 0} → Result A → Option UserAuthError
error_of (ok a) = none
error_of (err e) = some e

-- a row with another account, whatever its version
abbrev pub with_account : AccountData → UserCredentials → UserCredentials
with_account a u = record u { account = a; version = none }

abbrev pub HasAccount : UserCredentials → AccountData → UserCredentials → Type 0
HasAccount user a row = record row { version = none } ≡ with_account a user

-- what a call on a user's row has done: the account is this one, and no other row has changed
pub record IsWritten (id : String) (user : UserCredentials) (a : AccountData)
    (before after : UserStore) : Type 0 where
  pub row : UserCredentials
  pub found : get id after.rows ≡ some row
  pub same : HasAccount user a row
  pub others : (k : String) → (id == k) ≡ false → get k after.rows ≡ get k before.rows
  pub valid : IsValid after
  pub fields : after.handle_fields ≡ before.handle_fields
  pub keys : (h : Text) → handle_key h after ≡ handle_key h before

unwritten :
    (id : String) (user : UserCredentials) (s : UserStore)
    → IsValid s
    → get id s.rows ≡ some user
    → IsWritten id user user.account s s
unwritten id user s valid found = record {
  row = user;
  found = found;
  same = refl;
  others = λ k other. refl;
  valid = valid;
  fields = refl;
  keys = λ h. refl;
}

-- an update of a row that is one of its account
abbrev pub IsStep : UserStoreUpdate → (AccountData → AccountData) → Type 0
IsStep change f =
    (change.expected_version ≡ none)
    × IsPlain change.set
    × ((r : UserCredentials) → HasAccount r (f r.account) (updated change r))

-- an update of the account after what was done before
IsWritten-then :
    {id : String} {user : UserCredentials} {a : AccountData} {s s' : UserStore}
    → IsWritten id user a s s'
    → (change : UserStoreUpdate) (f : AccountData → AccountData) → IsStep change f
    → IsWritten id user (f a) s (update id change s').1
IsWritten-then {id} {user} {a} {s} {s'} w change f (any_version, plain, step) =
    let next = updated change w.row in
    let e = update_plain id change s' w.found any_version plain in
    let account : w.row.account ≡ a = ap (λ r. r.account) w.same in
    let one : HasAccount w.row (f a) next =
      step w.row ∙ ap (λ b. with_account (f b) w.row) account in
    let same : HasAccount user (f a) next = one ∙ ap (with_account (f a)) w.same in
    rw e (record {
      row = next;
      found = get-put_here id id next s'.rows (==_refl id);
      same = same;
      others = λ k other. get-put_there id k next s'.rows other ∙ w.others k other;
      valid =
          rw (← ap (λ r. r.1) e)
            (update-IsValid w.valid id change (IsPlain-KeepsName change.set plain));
      fields = w.fields;
      keys = λ h.
          handle_key-with_row h id s' next w.found (ap (λ r. r.username) one)
            (ap (λ r. r.columns) one)
          ∙ w.keys h;
    })

steps : Unit {0}
unfolding updated increment_all deep_merge merge_account merge_mfa merge_password merge_columns
    increment_at_path increment_account increment_password
steps = tt

counting-IsStep :
    IsStep counting (λ a. record a { failed_login_attempts = a.failed_login_attempts + 1 })
unfolding steps
counting-IsStep = (refl, tt, λ r. refl)

locking-IsStep :
    (ends : ℕ)
    → IsStep (locking ends) (λ a. record a {
      failed_login_attempts = a.failed_login_attempts + 1;
      locked = true;
      lock_reason = too_many;
      lock_ends = ends;
    })
unfolding steps
locking-IsStep ends = (refl, (refl, refl), λ r. refl)

lifting-IsStep : IsStep lifting lifted
unfolding steps
lifting-IsStep = (refl, (refl, refl), λ r. refl)

recording-IsStep : (now : ℕ) → IsStep (recording now) (passed_account now)
unfolding steps
recording-IsStep now = (refl, (refl, refl), λ r. refl)

-- what a check of the account and its password has done, by the account
module _ (config : ResolvedConfig) (hasher : PasswordHasher) (now : ℕ)
    (override : LockoutOverride) where
  abbrev lockout : LockoutConfig
  lockout = overridden config.lockout override

  -- the second part of `login`, on an account that may try
  abbrev finish : Text → UserCredentials → AccountData → Action LoginResult
  finish password user account =
      if hasher.verify password user.password.hash
      then admit now user account
      else increment_and_maybe_lock now lockout user.id account invalid_credentials

  admit_done :
      (user : UserCredentials) (a : AccountData) (s : UserStore) {s' : UserStore}
      → update user.id (recording now) s ≡ (ok true, s')
      → admit now user a s ≡ (
        ok (record {
          user = logged_in_user now a user;
          mfa_required = has_confirmed_mfa_methods user.mfa;
        }),
        s',
      )
  unfolding admit record_login
  admit_done user a s e =
      >>=-ok (record_login now user.id) _ s (>>=-ok (update user.id (recording now)) _ s e)

  increment_full :
      (user : UserCredentials) (a : AccountData) (s : UserStore) {s' : UserStore}
      → trips lockout a ≡ true
      → update user.id (locking (lock_end now lockout.duration)) s ≡ (ok true, s')
      → increment_and_maybe_lock {A = LoginResult} now lockout user.id a invalid_credentials s
        ≡ (err (invalid_credentials (some (lock_end now lockout.duration))), s')
  unfolding increment_and_maybe_lock trips
  increment_full user a s full e =
      rw full (>>=-ok (update user.id (locking (lock_end now lockout.duration))) _ s e)

  increment_more :
      (user : UserCredentials) (a : AccountData) (s : UserStore) {s' : UserStore}
      → trips lockout a ≡ false
      → update user.id counting s ≡ (ok true, s')
      → increment_and_maybe_lock {A = LoginResult} now lockout user.id a invalid_credentials s
        ≡ (err (invalid_credentials none), s')
  unfolding increment_and_maybe_lock trips
  increment_more user a s more e = rw more (>>=-ok (update user.id counting) _ s e)

  finish_lem :
      (password : Text) (user : UserCredentials) (a : AccountData) (s s' : UserStore)
      → IsWritten user.id user a s s'
      → let (result, after) = finish password user a s' in
        let (e, b) = finished now lockout (hasher.verify password user.password.hash) a in
        (error_of result ≡ e) × IsWritten user.id user b s after
  finish_lem password user a s s' w =
      elim (Bool-cases (hasher.verify password user.password.hash)) [
        | inl right ↦
            let e = update_plain user.id (recording now) s' w.found refl (refl, refl) in
            let done =
              IsWritten-then w (recording now) (passed_account now) (recording-IsStep now) in
            rw (right, admit_done user a s' e) (refl, rw (← ap (λ r. r.1) e) done)
        | inr wrong ↦ elim (Bool-cases (trips lockout a)) [
          | inl full ↦
              let ends = lock_end now lockout.duration in
              let e = update_plain user.id (locking ends) s' w.found refl (refl, refl) in
              rw (wrong, full, increment_full user a s' full e)
                (
                  refl,
                  rw (← ap (λ r. r.1) e) (IsWritten-then w (locking ends) _ (locking-IsStep ends)),
                )
          | inr more ↦
              let e = update_plain user.id counting s' w.found refl tt in
              rw (wrong, more, increment_more user a s' more e)
                (refl, rw (← ap (λ r. r.1) e) (IsWritten-then w counting _ counting-IsStep))
        ]
      ]

opened_locked : (a : AccountData) → a.locked ≡ true → opened a ≡ lifted a
opened_locked a h = ap {B = AccountData} (λ b. if b then lifted a else a) h

pub opened_unlocked : (a : AccountData) → a.locked ≡ false → opened a ≡ a
opened_unlocked a h = ap {B = AccountData} (λ b. if b then lifted a else a) h

check_lifts :
    (now : ℕ) (user : UserCredentials) (s : UserStore)
    → user.account.active ≡ true
    → user.account.locked ≡ true
    → (ltb 0 user.account.lock_ends && ltb user.account.lock_ends now) ≡ true
    → check_account now user s ≡ lift_lock user.id user.account s
unfolding check_account ensure_not_locked_or_throw get_lock_status
check_lifts now user s active shut expired = simp (active, shut, expired)

lifts :
    (user : UserCredentials) (s : UserStore) {s' : UserStore}
    → update user.id lifting s ≡ (ok true, s')
    → lift_lock user.id user.account s ≡ (ok (lifted user.account), s')
unfolding lift_lock
lifts user s e = >>=-ok (update user.id lifting) _ s e

-- the account of an active user that is not barred is opened
check_opens :
    (now : ℕ) (user : UserCredentials) (s : UserStore)
    → IsValid s
    → get user.id s.rows ≡ some user
    → user.account.active ≡ true
    → is_barred now user.account ≡ false
    → (s' : UserStore) × (check_account now user s ≡ (ok (opened user.account), s'))
      × IsWritten user.id user (opened user.account) s s'
unfolding check_account ensure_not_locked_or_throw lift_lock get_lock_status is_barred
check_opens now user s valid found active free = elim (Bool-cases user.account.locked) [
  | inl shut ↦
      let expired : (ltb 0 user.account.lock_ends && ltb user.account.lock_ends now) ≡ true =
        ground (arith, free, shut) in
      let e = update_plain user.id lifting s found refl (refl, refl) in
      let w = unwritten user.id user s valid found in
      (
        with_row user.id (updated lifting user) s,
        check_lifts now user s active shut expired
            ∙ lifts user s e
            ∙ ap (λ a. (ok a, with_row user.id (updated lifting user) s))
                (sym (opened_locked user.account shut)),
        rw (opened_locked user.account shut, ← ap (λ r. r.1) e)
            (IsWritten-then w lifting lifted lifting-IsStep),
      )
  | inr unlocked ↦ (
    s,
    simp (active, unlocked) refl,
    rw (opened_unlocked user.account unlocked) (unwritten user.id user s valid found),
  )
]

check_throws :
    (now : ℕ) (user : UserCredentials) (s : UserStore)
    → user.account.active ≡ true
    → is_barred now user.account ≡ true
    → check_account now user s ≡ (err (locked user.account.lock_reason user.account.lock_ends), s)
unfolding check_account ensure_not_locked_or_throw get_lock_status is_barred
check_throws now user s active barred = elim (Bool-cases user.account.locked) [
  | inl shut ↦
      let expired : (ltb 0 user.account.lock_ends && ltb user.account.lock_ends now) ≡ false =
        ground (arith, barred, shut) in
      rw (active, shut, expired) refl
  | inr unlocked ↦ absurd (ground (arith, barred, unlocked))
]

attempted_inactive :
    (now : ℕ) (lockout : LockoutConfig) (valid : Bool) (a : AccountData)
    → a.active ≡ false
    → attempted now lockout valid a ≡ (some inactive, a)
unfolding attempted
attempted_inactive now lockout valid a off = simp off

pub attempted_barred :
    (now : ℕ) (lockout : LockoutConfig) (valid : Bool) (a : AccountData)
    → a.active ≡ true
    → is_barred now a ≡ true
    → attempted now lockout valid a ≡ (some (locked a.lock_reason a.lock_ends), a)
unfolding attempted
attempted_barred now lockout valid a on barred = simp (on, barred)

pub attempted_free :
    (now : ℕ) (lockout : LockoutConfig) (valid : Bool) (a : AccountData)
    → a.active ≡ true
    → is_barred now a ≡ false
    → attempted now lockout valid a ≡ finished now lockout valid (opened a)
unfolding attempted
attempted_free now lockout valid a on free = simp (on, free)

check_inactive :
    (now : ℕ) (user : UserCredentials) (s : UserStore)
    → user.account.active ≡ false
    → check_account now user s ≡ (err inactive, s)
unfolding check_account
check_inactive now user s off = simp off

-- On a valid store, a login under a handle that stands for a user gives the error, or none, that
-- the account and the check of the password decide, and replaces that account by the one they
-- decide: failures are counted, the threshold locks, an expired lock is lifted, a success starts
-- the count over. Nothing else of the row changes but its version, no other row changes, and the
-- store stays valid.
pub login-IsAttempt :
    (config : ResolvedConfig) (hasher : PasswordHasher) (now : ℕ) (handle password : Text)
    (override : LockoutOverride) (s : UserStore) (user : UserCredentials)
    → IsValid s
    → find_by_handle handle s ≡ some user
    → let (result, after) = login config hasher now handle password override s in
      let (error, account) =
        attempted now
          (overridden config.lockout override)
          (hasher.verify password user.password.hash)
          user.account in
      (error_of result ≡ error) × IsWritten user.id user account s after
unfolding login
login-IsAttempt config hasher now handle password override s user valid e =
    let found = found_stored handle s valid e in
    let lockout = overridden config.lockout override in
    let right = hasher.verify password user.password.hash in
    let before = unwritten user.id user s valid found in
    elim (Bool-cases user.account.active) [
      | inr off ↦
          rw
            (
              e,
              check_inactive now user s off,
              attempted_inactive now lockout right user.account off,
            )
            (refl, before)
      | inl active ↦ elim (Bool-cases (is_barred now user.account)) [
        | inl barred ↦
            rw
              (
                e,
                check_throws now user s active barred,
                attempted_barred now lockout right user.account active barred,
              )
              (refl, before)
        | inr free ↦
            let (s', checked, w) = check_opens now user s valid found active free in
            rw (e, checked, attempted_free now lockout right user.account active free)
              (finish_lem config hasher now override password user (opened user.account) s s' w)
      ]
    ]
