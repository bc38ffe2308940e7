-- ===== src/User/Service/Accounts/Guesses.antt =====
-- The lockout of packages/user/src/user-service.ts against a sequence of guesses.
use aoothjs.Base.{
  ℕ, zero, suc, ◌+◌, ◌≤◌, ◌<◌, ◌≡◌, refl, sym, ap, ◌∙◌, ◌⊎◌, inl, inr, String, true, false, some,
  List, [], ◌∷◌, arith, Bool-cases, Option-cases, length, Text, text_eq, nat_eq, string_eq, All,
}
use aoothjs.Base.Assoc.{get}
use aoothjs.User.Types.{AccountData, UserCredentials, locked}
use aoothjs.User.Store.{UserStore, find_by_handle}
use aoothjs.User.Store.Valid.{IsValid}
use aoothjs.User.Store.Keys.{handle_key, lookup, find_by_handle_key}
use aoothjs.User.Service.{LockoutConfig, LockoutOverride, ResolvedConfig, PasswordHasher}
use aoothjs.User.Service.Accounts.{lock_end, overridden, login}
use aoothjs.User.Service.Accounts.Login.{
  is_barred, trips, attempted, attempted_barred, attempted_free, error_of, IsWritten,
  login-IsAttempt, opened_unlocked,
}

pub record Guess : Type 0 where
  pub time : ℕ
  pub password : Text

-- a time at which a lock that was set since `start` still holds: a lock without a duration always
-- does, another one for its duration
abbrev pub IsWithin : ℕ → LockoutConfig → ℕ → Type 0
IsWithin start lockout time =
    (lockout.duration ≡ 0) ⊎ ((start ≤ time) × (time ≤ start + lockout.duration))

-- locked beyond all those times
abbrev IsShut : ℕ → LockoutConfig → AccountData → Type 0
IsShut start lockout a =
    (a.locked ≡ true)
    × ((a.lock_ends ≡ 0) ⊎ ((¬ (lockout.duration ≡ 0)) × (start + lockout.duration ≤ a.lock_ends)))

-- after some wrong guesses: shut, or open with as many failures, below the threshold
abbrev IsGuarded : ℕ → LockoutConfig → ℕ → AccountData → Type 0
IsGuarded start lockout n a =
    (a.active ≡ true)
    × (IsShut start lockout a
        ⊎ ((a.locked ≡ false)
            × (n ≤ a.failed_login_attempts)
            × ((n ≡ 0) ⊎ (a.failed_login_attempts < lockout.threshold))))

shut_barred :
    (start time : ℕ) (lockout : LockoutConfig) (a : AccountData)
    → IsWithin start lockout time
    → IsShut start lockout a
    → is_barred time a ≡ true
unfolding is_barred
shut_barred start time lockout a (inl forever) (shut, inl no_end) = ground (arith, shut, no_end)
shut_barred start time lockout a (inl forever) (shut, inr (timed, long)) = absurd (timed forever)
shut_barred start time lockout a (inr (since, until)) (shut, inl no_end) =
    ground (arith, shut, no_end)
shut_barred start time lockout a (inr (since, until)) (shut, inr (timed, long)) =
    ground (arith, shut)

open_free : (time : ℕ) (a : AccountData) → a.locked ≡ false → is_barred time a ≡ false
unfolding is_barred
open_free time a h = ground (arith, h)

lock_end-zero : (time duration : ℕ) → duration ≡ 0 → lock_end time duration ≡ 0
lock_end-zero time zero h = refl
lock_end-zero time (suc d) h = absurd (omega arith)

lock_end-pos : (time duration : ℕ) → ¬ (duration ≡ 0) → lock_end time duration ≡ time + duration
lock_end-pos time zero h = absurd (h refl)
lock_end-pos time (suc d) h = refl

duration-cases : (d : ℕ) → (d ≡ 0) ⊎ (¬ (d ≡ 0))
duration-cases zero = inl refl
duration-cases (suc d) = inr (λ h. omega arith)

new_lock_shuts :
    (start time : ℕ) (lockout : LockoutConfig)
    → IsWithin start lockout time
    → (lock_end time lockout.duration ≡ 0)
      ⊎ ((¬ (lockout.duration ≡ 0)) × (start + lockout.duration ≤ lock_end time lockout.duration))
new_lock_shuts start time lockout (inl forever) = inl (lock_end-zero time lockout.duration forever)
new_lock_shuts start time lockout (inr (since, until)) = elim (duration-cases lockout.duration) [
  | inl forever ↦ inl (lock_end-zero time lockout.duration forever)
  | inr timed ↦ inr (timed, omega (arith, lock_end-pos time lockout.duration timed))
]

-- one more wrong guess
IsGuarded-step :
    (start time n : ℕ) (lockout : LockoutConfig) (a : AccountData)
    → IsWithin start lockout time
    → 0 < lockout.threshold
    → IsGuarded start lockout n a
    → IsGuarded start lockout (suc n) (attempted time lockout false a).1
unfolding trips
IsGuarded-step start time n lockout a within some_limit (active, inl shut) =
    rw (attempted_barred time lockout false a active (shut_barred start time lockout a within shut))
      (active, inl shut)
IsGuarded-step start time n lockout a within some_limit (active, inr (unlocked, counted, below)) =
    rw
      (
        attempted_free time lockout false a active (open_free time a unlocked),
        opened_unlocked a unlocked,
      )
      (elim (Bool-cases (trips lockout a)) [
        | inl full ↦ rw full (active, inl (refl, new_lock_shuts start time lockout within))
        | inr more ↦ rw more (active, inr (unlocked, omega arith, inr (ground (arith, more))))
      ])

-- as many wrong guesses as the threshold have shut the account
guarded-IsShut :
    (start n : ℕ) (lockout : LockoutConfig) (a : AccountData)
    → lockout.threshold ≤ n
    → 0 < lockout.threshold
    → IsGuarded start lockout n a
    → (a.active ≡ true) × IsShut start lockout a
guarded-IsShut start n lockout a enough some_limit (active, inl shut) = (active, shut)
guarded-IsShut start n lockout a enough some_limit (active, inr (unlocked, counted, inl none_yet)) =
    absurd (omega arith)
guarded-IsShut start n lockout a enough some_limit (active, inr (unlocked, counted, inr below)) =
    absurd (omega arith)

-- the row of a handle after what was done to it
found_after :
    (h : Text) {s after : UserStore} {user : UserCredentials} {a : AccountData}
    → IsValid s
    → find_by_handle h s ≡ some user
    → (w : IsWritten user.id user a s after) → find_by_handle h after ≡ some w.row
found_after h {s} {after} {user} valid e w =
    let looked : lookup s.rows (handle_key h s) ≡ some user =
      sym (find_by_handle_key h s valid.distinct) ∙ e in
    find_by_handle_key h after w.valid.distinct
    ∙ ap (lookup after.rows) (w.keys h)
    ∙ (elim (Option-cases (handle_key h s)) [
      | inl nothing ↦ absurd (ground (arith, looked, nothing))
      | inr (k, key) ↦
          let found : get k s.rows ≡ some user = ap (lookup s.rows) (sym key) ∙ looked in
          let own : user.id ≡ k = valid.keyed k user found in
          ap (lookup after.rows) (key ∙ ap some (sym own)) ∙ w.found
    ])

module _ (config : ResolvedConfig) (hasher : PasswordHasher) (override : LockoutOverride)
    (handle : Text) where
  abbrev pub guess_all : List Guess → UserStore → UserStore
  guess_all [] s = s
  guess_all (g ∷ gs) s = guess_all gs (login config hasher g.time handle g.password override s).1

  abbrev limit : LockoutConfig
  limit = overridden config.lockout override

  abbrev pub IsWrong : ℕ → String → Guess → Type 0
  IsWrong start hash g = (hasher.verify g.password hash ≡ false) × IsWithin start limit g.time

  -- what holds of the store after so many wrong guesses
  record IsHeld (start n : ℕ) (hash : String) (s : UserStore) : Type 0 where
    user : UserCredentials
    valid : IsValid s
    found : find_by_handle handle s ≡ some user
    hashed : user.password.hash ≡ hash
    guarded : IsGuarded start limit n user.account

  IsHeld-guess :
      (start n : ℕ) (hash : String) (g : Guess) (s : UserStore)
      → 0 < limit.threshold
      → IsWrong start hash g
      → IsHeld start n hash s
      → IsHeld start (suc n) hash (login config hasher g.time handle g.password override s).1
  IsHeld-guess start n hash g s some_limit (wrong, within) held =
      let result =
        login-IsAttempt config hasher g.time handle g.password override s held.user held.valid
          held.found in
      let refused : hasher.verify g.password held.user.password.hash ≡ false =
        ap (hasher.verify g.password) held.hashed ∙ wrong in
      let w = result.1 in
      let account : w.row.account ≡ (attempted g.time limit false held.user.account).1 =
        ap (λ r. r.account) w.same
        ∙ ap (λ b. (attempted g.time limit b held.user.account).1) refused in
      record {
        user = w.row;
        valid = w.valid;
        found = found_after handle held.valid held.found w;
        hashed = ap (λ r. r.password.hash) w.same ∙ held.hashed;
        guarded =
            rw account (
              IsGuarded-step start g.time n limit held.user.account within some_limit held.guarded);
      }

  IsHeld-guesses :
      (start n m : ℕ) (hash : String) (gs : List Guess) (s : UserStore)
      → length gs + n ≡ m
      → 0 < limit.threshold
      → All (IsWrong start hash) gs
      → IsHeld start n hash s
      → IsHeld start m hash (guess_all gs s)
  IsHeld-guesses start n m hash [] s sum some_limit wrong held =
      let same : n ≡ m = omega arith in rw (← same) held
  IsHeld-guesses start n m hash (g ∷ gs) s sum some_limit wrong held =
      IsHeld-guesses start (suc n) m hash gs
        (login config hasher g.time handle g.password override s).1 (omega arith) some_limit wrong.1
        (IsHeld-guess start n hash g s some_limit wrong.0 held)

  -- On a valid store, if a handle stands for an active user that is not locked, and the threshold
  -- is positive, then after any wrong passwords for it, as many as the threshold at least, a login
  -- with any password is refused as locked. All of them, and the login, are at times within one
  -- lock duration of a start; without a duration, at any times.
  pub guesses_lock :
      (start time : ℕ) (password : Text) (gs : List Guess) (s : UserStore) (user : UserCredentials)
      → IsValid s
      → find_by_handle handle s ≡ some user
      → user.account.active ≡ true
      → user.account.locked ≡ false
      → 0 < limit.threshold
      → limit.threshold ≤ length gs
      → All (IsWrong start user.password.hash) gs
      → IsWithin start limit time
      → (reason : String) × (ends : ℕ) × (error_of
            (login config hasher time handle password override (guess_all gs s)).0
          ≡ some (locked reason ends))
  guesses_lock start time password gs s user valid found active unlocked some_limit enough wrong
        within =
      let held =
        IsHeld-guesses start 0 (length gs) user.password.hash gs s (omega arith) some_limit wrong
          (record {
            user = user;
            valid = valid;
            found = found;
            hashed = refl;
            guarded = (active, inr (unlocked, omega arith, inl refl));
          }) in
      let (on, shut) =
        guarded-IsShut start (length gs) limit held.user.account (omega arith) some_limit
          held.guarded in
      let result =
        login-IsAttempt config hasher time handle password override (guess_all gs s) held.user
          held.valid held.found in
      (
        held.user.account.lock_reason,
        held.user.account.lock_ends,
        result.0
            ∙ ap (λ r. r.0)
                (attempted_barred time limit (hasher.verify password held.user.password.hash)
                  held.user.account on
                  (shut_barred start time limit held.user.account within shut)),
      )
