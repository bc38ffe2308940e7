-- ===== src/User/Service/Mfa/Replay.antt =====
-- `verifyMfa` of packages/user/src/user-service.ts: what a success and a replay are.
use mathlib.Core.Path.{subst}
use aoothjs.Base.{
  ℕ, ◌+◌, ◌≤◌, ◌≡◌, refl, sym, ap, ◌∙◌, inl, inr, String, Bool, true, false, ◌&&◌, Option, none,
  some, arith, ltb, leb, le→leb, Bool-cases, Option-cases, if◌then◌else◌, Text, text_eq, nat_eq,
  string_eq, All,
}
use aoothjs.Base.Assoc.{get}
use aoothjs.User.Types.{
  not_found, AccountData, MfaMethod, UserCredentials, UserAuthError, mfa_not_configured,
  mfa_invalid, Result, ok,
}
use aoothjs.User.Store.{UserStore, Action, Others, update, find_by_id}
use aoothjs.User.Store.Later.{IsNoBirth}
use aoothjs.User.Store.Cas.{Waits, as_others, run_waits}
use aoothjs.User.Service.{
  LockoutConfig, LockoutOverride, ResolvedConfig, pure, raise, or_raise, continue_inv, or_raise_inv,
  ◌>>=◌, get_user,
}
use aoothjs.User.Service.Accounts.{
  lock_end, locking, counting, increment_and_maybe_lock, overridden, check_account,
  assert_can_sign_in,
}
use aoothjs.User.Service.Mfa.{find_first, is_confirmed_totp, is_replay, take_counter, verify_mfa}
use aoothjs.User.Service.Mfa.Once.{IsTaken, take_counter-IsTaken}

-- a failure is never a success
increment_throws :
    {A : Type 0} (now : ℕ) (lockout : LockoutConfig) (id : String) (a : AccountData)
    (error : Option ℕ → UserAuthError) (s : UserStore) {b : A} {after : UserStore}
    → ¬ (increment_and_maybe_lock now lockout id a error s ≡ (ok b, after))
unfolding increment_and_maybe_lock
increment_throws now lockout id a error s e =
    elim (Bool-cases
      (ltb 0 lockout.threshold && leb lockout.threshold (a.failed_login_attempts + 1))) [
        | inl full ↦
            let h = simp full at e in
            let (done, t, ran, thrown) =
              continue_inv (λ done. raise (error (some (lock_end now lockout.duration))))
                (update id (locking (lock_end now lockout.duration)) s) h in
            ground (arith, thrown)
        | inr more ↦
            let h = simp more at e in
            let (done, t, ran, thrown) =
              continue_inv (λ done. raise (error none)) (update id counting s) h in
            ground (arith, thrown)
      ]

take_counter-none :
    (others : Others) (id : String) (last : Option ℕ) (s after : UserStore)
    → ¬ (take_counter others id last none s ≡ (ok true, after))
unfolding take_counter
take_counter-none others id last s after h = ground (arith, h)

module _ (config : ResolvedConfig) (matches : Text → Text → Option ℕ) where
  after_take : ℕ → String → LockoutOverride → UserCredentials → Bool → Action Unit
  after_take now id override user taken =
      if taken
      then pure tt
      else increment_and_maybe_lock now (overridden config.lockout override) id user.account
          mfa_invalid

  after_method :
      ℕ → Others → String → Text → LockoutOverride → UserCredentials → MfaMethod → Action Unit
  after_method now others id code override user totp =
      take_counter others id totp.last_used_window (matches totp.value code)
      >>= after_take now id override user

  after_check : ℕ → Others → String → Text → LockoutOverride → UserCredentials → Action Unit
  after_check now others id code override user =
      or_raise mfa_not_configured (find_first is_confirmed_totp user.mfa.methods)
      >>= after_method now others id code override user

  taken_only :
      (now : ℕ) (id : String) (override : LockoutOverride) (user : UserCredentials) (taken : Bool)
      (s after : UserStore)
      → after_take now id override user taken s ≡ (ok tt, after)
      → (taken ≡ true) × (s ≡ after)
  unfolding after_take
  taken_only now id override user true s after e = (refl, ap (λ r. r.1) e)
  taken_only now id override user false s after e =
      absurd
        (increment_throws now (overridden config.lockout override) id user.account mfa_invalid s e)

  took-IsTaken :
      (waits : Waits) (id : String) (code : Text) (totp : MfaMethod) (s t start after : UserStore)
      (taken : Bool)
      → ((n : ℕ) → All (IsNoBirth id) (waits n))
      → take_counter (as_others waits) id totp.last_used_window (matches totp.value code) s
        ≡ (ok taken, t)
      → taken ≡ true
      → t ≡ after
      → s ≡ start
      → (counter : ℕ) × (m : ℕ) × (matches totp.value code ≡ some counter)
        × (is_replay totp.last_used_window counter ≡ false)
        × IsTaken id counter (run_waits m waits start) after
  took-IsTaken waits id code totp s t start after taken quiet took yes_taken same begun =
      let took' : take_counter (as_others waits) id totp.last_used_window (matches totp.value code)
            s
          ≡ (ok true, after) =
        took
        ∙ ap {B = Result Bool × UserStore} (λ b. (ok b, t)) yes_taken
        ∙ ap {B = Result Bool × UserStore} (λ u. (ok true, u)) same in
      let with_match : Option ℕ → Result Bool × UserStore =
        λ o. take_counter (as_others waits) id totp.last_used_window o s in
      elim (Option-cases (matches totp.value code)) [
        | inl nothing ↦ absurd (
            take_counter-none (as_others waits) id totp.last_used_window s after
              (ap with_match (sym nothing) ∙ took'))
        | inr (counter, matched) ↦
            let (fresh, m, is_taken) =
              take_counter-IsTaken waits id totp.last_used_window counter s after quiet
                (ap with_match (sym matched) ∙ took') in
            (
              counter,
              m,
              matched,
              fresh,
              subst (λ u. IsTaken id counter (run_waits m waits u) after) begun is_taken,
            )
      ]

  sign_in_row :
      (now : ℕ) (id : String) (s t : UserStore) (u : UserCredentials)
      → assert_can_sign_in now id s ≡ (ok u, t)
      → (user : UserCredentials) × (get id s.rows ≡ some user) × (u.mfa ≡ user.mfa)
  unfolding assert_can_sign_in get_user find_by_id
  sign_in_row now id s t u e =
      let (read, s1, got, e1) = continue_inv (after_read now) (get_user id s) e in
      let (account, s2, checked, e2) =
        continue_inv (with_checked read) (check_account now read s1) e1 in
      let (same, unmoved) = or_raise_inv not_found (get id s.rows) s got in
      let last_step : ok (record read { account = account }) ≡ ok u = ap (λ r. r.0) e2 in
      let rebuilt : record read { account = account } ≡ u = ground (arith, last_step) in
      (read, same, sym (ap (λ r. r.mfa) rebuilt))
    where
      with_checked : UserCredentials → AccountData → Action UserCredentials
      with_checked read account = pure (record read { account = account })

      after_read : ℕ → UserCredentials → Action UserCredentials
      after_read now read = check_account now read >>= with_checked read

  sign_in_keeps :
      (now : ℕ) (id : String) (s t : UserStore) (user u : UserCredentials)
      → get id s.rows ≡ some user
      → assert_can_sign_in now id s ≡ (ok u, t)
      → u.mfa ≡ user.mfa
  sign_in_keeps now id s t user u found e =
      let (read, same, kept) = sign_in_row now id s t u e in
      let both : some read ≡ some user = sym same ∙ found in
      let which : read ≡ user = ground (arith, both) in kept ∙ ap (λ x. x.mfa) which

  -- A verification that succeeds, whatever others do to the store while it waits, so long as they
  -- create no row under the id: the user was stored when the call began and had a confirmed TOTP
  -- method, with whose secret the code matches a counter that this method had not reached. When the
  -- counter was written, the confirmed method that then stood there had not reached it either, and
  -- has it as its last used one, if the row still has a confirmed method.
  pub verify_mfa-IsTaken :
      (now : ℕ) (waits : Waits) (id : String) (code : Text) (override : LockoutOverride)
      (s after : UserStore)
      → ((n : ℕ) → All (IsNoBirth id) (waits n))
      → verify_mfa config matches now (as_others waits) id code override s ≡ (ok tt, after)
      → (user : UserCredentials) × (totp : MfaMethod) × (counter : ℕ) × (m : ℕ) × (get id s.rows
          ≡ some user)
        × (find_first is_confirmed_totp user.mfa.methods ≡ some totp)
        × (matches totp.value code ≡ some counter)
        × (is_replay totp.last_used_window counter ≡ false)
        × IsTaken id counter (run_waits m waits (assert_can_sign_in now id s).1) after
  unfolding verify_mfa after_check after_method after_take
  verify_mfa-IsTaken now waits id code override s after quiet e =
      let (user, s1, checked, e1) =
        continue_inv (after_check now (as_others waits) id code override)
          (assert_can_sign_in now id s) e in
      let (totp, s2, method, e2) =
        continue_inv (after_method now (as_others waits) id code override user)
          (or_raise mfa_not_configured (find_first is_confirmed_totp user.mfa.methods) s1) e1 in
      let (taken, s3, took, e3) =
        continue_inv (after_take now id override user)
          (take_counter (as_others waits) id totp.last_used_window (matches totp.value code) s2)
          e2 in
      let (found, unmoved) =
        or_raise_inv mfa_not_configured (find_first is_confirmed_totp user.mfa.methods) s1 method in
      let (yes_taken, same) = taken_only now id override user taken s3 after e3 in
      let start : s2 ≡ (assert_can_sign_in now id s).1 =
        sym unmoved ∙ sym (ap (λ r. r.1) checked) in
      let (row, there, kept) = sign_in_row now id s s1 user checked in
      let (counter, m, matched, fresh, is_taken) =
        took-IsTaken waits id code totp s2 s3 (assert_can_sign_in now id s).1 after taken quiet took
          yes_taken same start in
      (
        row,
        totp,
        counter,
        m,
        there,
        sym (ap (λ d. find_first is_confirmed_totp d.methods) kept) ∙ found,
        matched,
        fresh,
        is_taken,
      )

  replay_refused :
      (others : Others) (id : String) (counter last : ℕ) (s t : UserStore) (taken : Bool)
      → counter ≤ last
      → take_counter others id (some last) (some counter) s ≡ (ok taken, t)
      → taken ≡ false
  unfolding take_counter
  replay_refused others id counter last s t taken old e =
      let replay : leb counter last ≡ true = le→leb counter last old in ground (arith, e, replay)

  refuted :
      (others : Others) (id : String) (counter last : ℕ) (s t : UserStore) (taken : Bool)
      → taken ≡ true
      → counter ≤ last
      → (window matched : Option ℕ) → window ≡ some last
      → matched ≡ some counter
      → ¬ (take_counter others id window matched s ≡ (ok taken, t))
  refuted others id counter last s t taken yes_taken old window matched w m took =
      let call : Option ℕ → Option ℕ → Result Bool × UserStore =
        λ a b. take_counter others id a b s in
      let no_taken : taken ≡ false =
        replay_refused others id counter last s t taken old
          (ap (λ b. call (some last) b) (sym m) ∙ ap (λ a. call a matched) (sym w) ∙ took) in
      ground arith

  -- A code that matches a counter which the user's confirmed TOTP method has reached is never
  -- accepted, whatever others do while the verification waits.
  pub verify_mfa_replayed :
      (now : ℕ) (others : Others) (id : String) (code : Text) (override : LockoutOverride)
      (s : UserStore) (user : UserCredentials) (totp : MfaMethod) (counter last : ℕ)
      → get id s.rows ≡ some user
      → find_first is_confirmed_totp user.mfa.methods ≡ some totp
      → totp.last_used_window ≡ some last
      → matches totp.value code ≡ some counter
      → counter ≤ last
      → ¬ ((verify_mfa config matches now others id code override s).0 ≡ ok tt)
  unfolding verify_mfa after_check after_method after_take
  verify_mfa_replayed now others id code override s user totp counter last found method used matched
        old e =
      let result = verify_mfa config matches now others id code override s in
      let whole : result ≡ (ok tt, result.1) =
        ap {B = Result Unit × UserStore} (λ r. (r, result.1)) e in
      let (u, s1, checked, e1) =
        continue_inv (after_check now others id code override) (assert_can_sign_in now id s)
          whole in
      let (m, s2, picked, e2) =
        continue_inv (after_method now others id code override u)
          (or_raise mfa_not_configured (find_first is_confirmed_totp u.mfa.methods) s1) e1 in
      let (taken, s3, took, e3) =
        continue_inv (after_take now id override u)
          (take_counter others id m.last_used_window (matches m.value code) s2) e2 in
      let (chosen, unmoved) =
        or_raise_inv mfa_not_configured (find_first is_confirmed_totp u.mfa.methods) s1 picked in
      let (yes_taken, same) = taken_only now id override u taken s3 result.1 e3 in
      let mfa : u.mfa ≡ user.mfa = sign_in_keeps now id s s1 user u found checked in
      let both : some m ≡ some totp =
        sym chosen ∙ ap (λ d. find_first is_confirmed_totp d.methods) mfa ∙ method in
      let which : m ≡ totp = ground arith in
      let window : m.last_used_window ≡ some last = ap (λ x. x.last_used_window) which ∙ used in
      let match : matches m.value code ≡ some counter =
        ap (λ x. matches x.value code) which ∙ matched in
      refuted others id counter last s2 s3 taken yes_taken old m.last_used_window
        (matches m.value code) window match took
