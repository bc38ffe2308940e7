-- ===== src/User/Service/Mfa/Once.antt =====
-- `verifyMfa` of packages/user/src/user-service.ts takes a counter once, while others write.
use aoothjs.Base.{
  ℕ, ◌≡◌, refl, ap, ◌∙◌, inl, inr, String, Bool, true, false, not, Option, none, some, List, [],
  ◌∷◌, arith, Bool-cases, text_eq, nat_eq, string_eq, ==_refl, All,
}
use aoothjs.Base.Assoc.{get}
use aoothjs.Base.Assoc.Entries.{get-put_here}
use aoothjs.User.Types.{MfaMethod, UserCredentials, Result, ok}
use aoothjs.User.Patch.{deep_merge, merge_mfa}
use aoothjs.User.Store.{UserStore, Action, default_attempts, updated, increment_all, with_cas}
use aoothjs.User.Store.Later.{IsNoBirth}
use aoothjs.User.Store.Cas.{Waits, as_others, run_waits, IsDone}
use aoothjs.User.Store.Done.{done_patch, done_idle, with_cas_ok}
use aoothjs.User.Service.{setting, pure, continue, continue_inv}
use aoothjs.User.Service.Mfa.{
  find_first, is_confirmed_totp, is_replay, last_window, used_window, use_window, accepting,
  accept_counter, take_counter,
}

-- the window of a method that was found and used
abbrev pub windowed : ℕ → Option MfaMethod → Option ℕ
windowed counter none = none
windowed counter (some m) = some counter

confirmed_window :
    (counter : ℕ) (methods : List MfaMethod)
    → last_window (find_first is_confirmed_totp (use_window counter methods))
      ≡ windowed counter (find_first is_confirmed_totp methods)
unfolding use_window
confirmed_window counter [] = refl
confirmed_window counter (m ∷ methods) = elim (Bool-cases (is_confirmed_totp m)) [
  | inl used ↦ rw (used, used) refl
  | inr other ↦ rw (other, other) (confirmed_window counter methods)
]

-- A counter was taken on a row that had not reached it. The row that it left has it as the window of
-- its confirmed method, if the row has such a method.
pub record IsTaken (id : String) (counter : ℕ) (before after : UserStore) : Type 0 where
  pub row : UserCredentials
  pub next : UserCredentials
  pub found : get id before.rows ≡ some row
  pub fresh : is_replay (used_window row) counter ≡ false
  pub left : get id after.rows ≡ some next
  pub used : used_window next ≡ windowed counter (find_first is_confirmed_totp row.mfa.methods)

accepted_window :
    (counter : ℕ) (u : UserCredentials)
    → used_window (updated (setting (accepting counter u)) u)
      ≡ windowed counter (find_first is_confirmed_totp u.mfa.methods)
unfolding used_window updated increment_all deep_merge merge_mfa accepting
accepted_window counter u = confirmed_window counter u.mfa.methods

accept_replay :
    (counter : ℕ) (u : UserCredentials)
    → is_replay (used_window u) counter ≡ true
    → accept_counter counter u ≡ ok (true, none)
unfolding accept_counter
accept_replay counter u replay = simp replay

accept_fresh :
    (counter : ℕ) (u : UserCredentials)
    → is_replay (used_window u) counter ≡ false
    → accept_counter counter u ≡ ok (false, some (setting (accepting counter u)))
unfolding accept_counter
accept_fresh counter u fresh = simp fresh

done-IsTaken :
    (id : String) (counter : ℕ) (u : UserCredentials) (before after : UserStore)
    → get id before.rows ≡ some u
    → IsDone id (accept_counter counter u) false before after
    → IsTaken id counter before after
unfolding accepting
done-IsTaken id counter u before after found done =
    elim (Bool-cases (is_replay (used_window u) counter)) [
      | inl replay ↦
          let (bad, same) =
            done_idle id (accept_counter counter u) false true before after
              (accept_replay counter u replay) done in
          absurd (ground (arith, bad))
      | inr fresh ↦
          let (fine, same) =
            done_patch id (accept_counter counter u) false false (accepting counter u) u before
              after found (refl, refl) (accept_fresh counter u fresh) done in
          let row : UserCredentials = updated (setting (accepting counter u)) u in
          record {
            row = u;
            next = row;
            found = found;
            fresh = fresh;
            left = ap (λ t. get id t.rows) same ∙ get-put_here id id row before.rows (==_refl id);
            used = accepted_window counter u;
          }
    ]

-- a counter that was taken, without the checks before
pub take_counter-IsTaken :
    (waits : Waits) (id : String) (last : Option ℕ) (counter : ℕ) (s after : UserStore)
    → ((n : ℕ) → All (IsNoBirth id) (waits n))
    → take_counter (as_others waits) id last (some counter) s ≡ (ok true, after)
    → (is_replay last counter ≡ false) × (m : ℕ) × IsTaken id counter (run_waits m waits s) after
unfolding take_counter
take_counter-IsTaken waits id last counter s after quiet e =
    elim (Bool-cases (is_replay last counter)) [
      | inl replay ↦ absurd (ground (arith, e, replay))
      | inr fresh ↦
          let ran = with_cas default_attempts (as_others waits) id (accept_counter counter) s in
          let took : continue answer ran ≡ (ok true, after) = simp fresh at e in
          let (replayed, s', e', last_step) = continue_inv answer ran took in
          let right : replayed ≡ false = ground (arith, last_step) in
          let same : s' ≡ after = ap (λ r. r.1) last_step in
          let result : ran ≡ (ok false, after) =
            e'
            ∙ ap {B = Result Bool × UserStore} (λ b. (ok b, s')) right
            ∙ ap {B = Result Bool × UserStore} (λ t. (ok false, t)) same in
          let (m, u, found, done) =
            with_cas_ok default_attempts waits id (accept_counter counter) s after quiet result in
          (fresh, m, done-IsTaken id counter u (run_waits m waits s) after found done)
    ]
  where
    answer : Bool → Action Bool
    answer replayed = pure (not replayed)
