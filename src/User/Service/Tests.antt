-- ===== src/User/Service/Tests.antt =====
-- Runs of the user service of packages/user/src/user-service.ts, and its theorems at those runs.
use aoothjs.Base.{
  ℕ, ◌≡◌, refl, inr, String, true, false, ◌&&◌, Option, none, some, List, [], ◌∷◌, ◌++◌, arith, leb,
  nat_beq, length, Text, text_eq, nat_eq, string_eq, ◌==◌, All,
}
use aoothjs.Base.Assoc.{get, put, delete}
use aoothjs.Base.Sorting.{insert_by, sort_by}
use aoothjs.User.Types.{
  TrustedDeviceRecord, MfaMethod, UserCredentials, locked, invalid_credentials, ok,
}
use aoothjs.User.Patch.{
  deep_merge, merge_account, merge_mfa, merge_password, merge_columns, increment_at_path,
  increment_account, increment_password,
}
use aoothjs.User.Store.{
  UserStore, exists, has_handle, find_loop, find_by_handle, find_by_id, column_collides,
  handles_collide, create, increment_all, updated, update, delete_user, update_read, with_cas,
}
use aoothjs.User.Store.Valid.{IsValid, create-IsValid}
use aoothjs.User.Store.Calls.{run_calls}
use aoothjs.User.Store.Later.{IsNoBirth}
use aoothjs.User.Store.Cas.{Waits, as_others, run_waits}
use aoothjs.User.Service.{LockoutOverride, ResolvedConfig, PasswordHasher, get_user}
use aoothjs.User.Service.Accounts.{
  get_lock_status, lift_lock, ensure_not_locked_or_throw, overridden, increment_and_maybe_lock,
  record_login, check_account, admit, login, assert_can_sign_in,
}
use aoothjs.User.Service.Accounts.Login.{attempted, error_of, IsWritten, login-IsAttempt}
use aoothjs.User.Service.Accounts.Guesses.{Guess, guess_all, guesses_lock}
use aoothjs.User.Service.Passwords.{
  check_policies, known_hashes, new_history, apply_password_change, change_password,
}
use aoothjs.User.Service.Mfa.{
  used_window, use_window, accepting, accept_counter, take_counter, verify_mfa, find_first,
  is_confirmed_totp, is_replay,
}
use aoothjs.User.Service.Mfa.Once.{IsTaken}
use aoothjs.User.Service.Mfa.Replay.{verify_mfa-IsTaken}
use aoothjs.User.Service.Devices.{
  or_no_devices, sort_devices, within_cap, add_within_cap, add_seen_device,
}
use aoothjs.User.Service.Devices.Cap.{IsCapped}
use aoothjs.User.Service.Devices.Seen.{add_seen_device-IsCapped}
use aoothjs.User.Service.Invitations.{
  is_pending, is_nonce, nonce_matches, accept_pending, accept_invitation, claim_pending,
  still_claimed, claimed_row, remove_claimed, revoke_invitation,
}
use aoothjs.User.Service.Invitations.Safe.{accept_invitation_lem, at_delete, revoke_invitation_lem}
use aoothjs.User.Service.Snapshots.{
  Observed, on_user_write, unsubscribe, start_write, write, end_write, get_user_snapshot,
}
use aoothjs.User.Service.Snapshots.Fresh.{
  Event, started, ended, stored, read, react_all, nothing, start, store, end, look,
  snapshot-get_user,
}

abbrev ann_text : Text
ann_text = 97 ∷ 110 ∷ 110 ∷ []

abbrev totp : MfaMethod
totp = record { name = "totp"; confirmed = true; value = 1 ∷ []; last_used_window = some 4 }

abbrev ann : UserCredentials
ann = record {
  id = "u1";
  username = ann_text;
  version = some 0;
  password = record { hash = "h0"; history = []; last_changed = 1; is_initial = false };
  account = record {
    active = true;
    locked = false;
    lock_reason = "";
    lock_ends = 0;
    failed_login_attempts = 0;
    last_login = 0;
    pending_invitation = some true;
    invited_by = none;
    invite_nonce = some "n";
    verified_email = none;
  };
  mfa = record { methods = totp ∷ []; default_method = ""; auto_send = false };
  trusted_devices = none;
  seen_devices = none;
  columns = [];
}

abbrev empty : UserStore
empty = record { rows = []; handle_fields = [] }

abbrev users : UserStore
users = record empty { rows = ("u1", ann) ∷ [] }

stores : Unit {0}
unfolding get put delete exists find_by_id has_handle find_loop find_by_handle column_collides
    handles_collide create deep_merge merge_account merge_mfa merge_password merge_columns
    increment_at_path increment_account increment_password increment_all updated update delete_user
    update_read with_cas get_user
stores = tt

services : Unit {0}
unfolding stores get_lock_status lift_lock ensure_not_locked_or_throw overridden
    increment_and_maybe_lock record_login check_account admit login assert_can_sign_in
    check_policies known_hashes new_history apply_password_change change_password used_window
    use_window accepting accept_counter take_counter verify_mfa insert_by sort_by sort_devices
    within_cap add_within_cap add_seen_device accept_pending accept_invitation claim_pending
    still_claimed claimed_row remove_claimed revoke_invitation on_user_write unsubscribe start_write
    write end_write get_user_snapshot
services = tt

empty-IsValid : IsValid empty
unfolding get
empty-IsValid = record {
  distinct = tt;
  keyed = λ k u g. absurd (ground (arith, g));
  names = λ j k u v g h e. absurd (ground (arith, g));
  handles = λ j k u v g h e. absurd (ground (arith, g));
}

users-IsValid : IsValid users
unfolding stores
users-IsValid = create-IsValid empty-IsValid "x" ann

-- a password is right when it is one code, that of the hash
abbrev hash_text : String
hash_text = "h0"

abbrev hasher : PasswordHasher
hasher = record {
  hash = λ salt password. salt;
  verify = λ password hash. nat_beq (length password) 1 && (hash == hash_text);
}

abbrev config : ResolvedConfig
config = record {
  history_length = 1;
  max_age_ms = 0;
  policies =
      record {
        rule = λ password old. leb 2 (length password);
        serialized = none;
        description = "";
        error_message = "short";
      }
      ∷ [];
  lockout = record { threshold = 2; duration = 100 };
  secret = none;
  email_field = none;
}

abbrev no_override : LockoutOverride
no_override = record { threshold = none; duration = none }

-- the second wrong password locks until 111; from then on the right one is let in
lockout_run :
    (error_of (login config hasher 10 ann_text [] no_override users).0
      ≡ some (invalid_credentials none))
    × (error_of
          (login config hasher 11 ann_text [] no_override
            (login config hasher 10 ann_text [] no_override users).1).0
        ≡ some (invalid_credentials (some 111)))
    × (error_of
          (login config hasher 200 ann_text
            (1 ∷ [])
            no_override
            (login config hasher 11 ann_text [] no_override
              (login config hasher 10 ann_text [] no_override users).1).1).0
        ≡ none)
unfolding services
lockout_run = (refl, refl, refl)

login-IsAttempt_example :
    let (result, after) = login config hasher 10 ann_text [] no_override users in
    let (error, account) =
      attempted 10 (overridden config.lockout no_override) (hasher.verify [] "h0") ann.account in
    (error_of result ≡ error) × IsWritten "u1" ann account users after
unfolding services
login-IsAttempt_example =
    login-IsAttempt config hasher 10 ann_text [] no_override users ann users-IsValid refl

abbrev guesses : List Guess
guesses = record { time = 10; password = [] } ∷ record { time = 11; password = [] } ∷ []

guesses_lock_example :
    (reason : String) × (ends : ℕ) × (error_of
        (login config hasher 90 ann_text
          (1 ∷ [])
          no_override
          (guess_all config hasher no_override ann_text guesses users)).0
      ≡ some (locked reason ends))
unfolding services
guesses_lock_example =
    guesses_lock config hasher no_override ann_text 10 90 (1 ∷ []) guesses users ann users-IsValid
      refl refl refl (omega arith) (omega arith)
      ((refl, inr (omega arith, omega arith)), ((refl, inr (omega arith, omega arith)), tt))
      (inr (omega arith, omega arith))

-- the code is the counter
abbrev matches : Text → Text → Option ℕ
matches secret [] = none
matches secret (c ∷ cs) = some c

abbrev calm : Waits
calm n = []

quiet : (n : ℕ) → All (IsNoBirth "u1") (calm n)
quiet n = tt

abbrev verified : UserStore
verified = (verify_mfa config matches 10 (as_others calm) "u1" (7 ∷ []) no_override users).1

verify_mfa-IsTaken_example :
    (user : UserCredentials) × (totp : MfaMethod) × (counter : ℕ) × (m : ℕ) × (get "u1" users.rows
      ≡ some user)
    × (find_first is_confirmed_totp user.mfa.methods ≡ some totp)
    × (matches totp.value (7 ∷ []) ≡ some counter)
    × (is_replay totp.last_used_window counter ≡ false)
    × IsTaken "u1" counter
        (run_waits m calm (assert_can_sign_in 10 "u1" users).1)
        (verify_mfa config matches 10 (as_others calm) "u1" (7 ∷ []) no_override users).1
unfolding services
verify_mfa-IsTaken_example =
    verify_mfa-IsTaken config matches 10 calm "u1" (7 ∷ []) no_override users
      (verify_mfa config matches 10 (as_others calm) "u1" (7 ∷ []) no_override users).1 quiet refl

abbrev device : ℕ → TrustedDeviceRecord
device ends = record { token = ends ∷ []; ip = none; issued_at = 0; expires_at = ends; name = none }

add_seen_device-IsCapped_example :
    (m : ℕ) × (u : UserCredentials) × (v : UserCredentials) × (get "u1"
        (run_waits m calm users).rows
      ≡ some u)
    × (get "u1" (add_seen_device 5 (as_others calm) "u1" (device 9) 1 users).1.rows ≡ some v)
    × IsCapped 5 1 (or_no_devices u.seen_devices ++ device 9 ∷ []) (or_no_devices v.seen_devices)
unfolding services
add_seen_device-IsCapped_example =
    add_seen_device-IsCapped 5 calm "u1" (device 9) 1 users
      (add_seen_device 5 (as_others calm) "u1" (device 9) 1 users).1 quiet refl

-- of three live records and one that has expired, the two that expire last are kept
cap_run : within_cap 5 2 (device 4 ∷ device 9 ∷ device 7 ∷ device 8 ∷ []) ≡ device 8 ∷ device 9 ∷ []
unfolding services
cap_run = refl

accept_invitation_lem_example :
    (m : ℕ) × (u : UserCredentials) × (v : UserCredentials) × (get "u1"
        (run_waits m calm users).rows
      ≡ some u)
    × (is_pending u.account ≡ true)
    × (nonce_matches u.account.invite_nonce (some "n") ≡ true)
    × (get "u1" (accept_invitation (as_others calm) "u1" (some "n") users).1.rows ≡ some v)
    × (is_pending v.account ≡ false)
unfolding services
accept_invitation_lem_example =
    accept_invitation_lem calm "u1" (some "n") users
      (accept_invitation (as_others calm) "u1" (some "n") users).1 quiet refl

abbrev none_between : UserStore → UserStore
none_between s = s

-- an invitation that was accepted is not revoked
accepted_first :
    ((revoke_invitation
        (as_others calm)
        none_between
        none_between
        "r"
        "u1"
        (accept_invitation (as_others calm) "u1" (some "n") users).1).0
      ≡ ok false)
    × ((accept_invitation (as_others calm) "u1" (some "old") users).0 ≡ ok false)
unfolding services
accepted_first = (refl, refl)

revoke_invitation_lem_example :
    (u : UserCredentials) × (get "u1" (at_delete calm [] [] "r" "u1" users).rows ≡ some u)
    × (is_pending u.account ≡ true)
    × (is_nonce "r" u.account.invite_nonce ≡ true)
    × ((revoke_invitation (as_others calm) (run_calls []) (run_calls []) "r" "u1" users).1.rows
        ≡ delete "u1" (at_delete calm [] [] "r" "u1" users).rows)
unfolding services
revoke_invitation_lem_example = revoke_invitation_lem calm [] [] "r" "u1" users tt refl

abbrev observed : Observed
observed = record { store = users; write_epoch = 0; listeners = []; snapshots = [] }

abbrev rename : UserStore → UserStore
rename s = record s { rows = ("u1", record ann { version = some 1 }) ∷ [] }

abbrev events : List Event
events = read "u1" ∷ started ∷ stored rename ∷ read "u1" ∷ ended ∷ []

snapshot-get_user_example :
    (get_user_snapshot "u1" (react_all events observed)).0
    ≡ (get_user "u1" (react_all events observed).store).0
snapshot-get_user_example =
    snapshot-get_user events observed "u1" refl
      (look (start (store {f = rename} (look (end nothing)))))
