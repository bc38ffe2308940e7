-- ===== src/User/Store/Tests.antt =====
-- Runs of the user store of packages/user/src/store/memory.ts, and its theorems at those runs.
use aoothjs.Base.{
  ℕ, zero, suc, ◌≡◌, refl, true, false, none, some, List, [], ◌∷◌, arith, Text, text_eq, nat_eq,
  string_eq, All,
}
use aoothjs.Base.Assoc.{get, put, delete}
use aoothjs.User.Types.{
  text, UserCredentials, UserStoreUpdate, cas_exhausted, already_exists, not_found, ok, err,
}
use aoothjs.User.Patch.{
  no_account, no_patch, deep_merge, merge_account, merge_mfa, merge_password, merge_columns,
  increment_at_path,
}
use aoothjs.User.Store.{
  UserStore, Mutator, exists, has_handle, find_loop, find_by_handle, find_by_id, column_collides,
  handles_collide, create, increment_all, updated, update, delete_user, update_read, with_cas,
}
use aoothjs.User.Store.Valid.{IsValid, create-IsValid}
use aoothjs.User.Store.Calls.{
  StoreCall, create_call, update_call, delete_call, run_calls, run_calls-IsValid,
}
use aoothjs.User.Store.Handles.{IsResolved, find_by_handle-IsResolved}
use aoothjs.User.Store.Later.{IsNoBirth}
use aoothjs.User.Store.Cas.{Waits, as_others, IsAtomic, with_cas-IsAtomic}
use aoothjs.User.Store.Settles.{with_cas_settles}

abbrev ann_text : Text
ann_text = 97 ∷ 110 ∷ 110 ∷ []

abbrev mail : Text
mail = 97 ∷ 64 ∷ 120 ∷ []

abbrev ann : UserCredentials
ann = record {
  id = "u1";
  username = ann_text;
  version = none;
  password = record { hash = "h"; history = []; last_changed = 1; is_initial = false };
  account = record {
    active = true;
    locked = false;
    lock_reason = "";
    lock_ends = 0;
    failed_login_attempts = 0;
    last_login = 0;
    pending_invitation = none;
    invited_by = none;
    invite_nonce = none;
    verified_email = none;
  };
  mfa = record { methods = []; default_method = ""; auto_send = false };
  trusted_devices = none;
  seen_devices = none;
  columns = ("email", text mail) ∷ [];
}

abbrev bob : UserCredentials
bob = record ann { id = "u2"; username = 98 ∷ [] }

abbrev empty : UserStore
empty = record { rows = []; handle_fields = "email" ∷ [] }

abbrev start : UserStore
start = record empty { rows = ("u1", record ann { version = some 0 }) ∷ [] }

runs : Unit {0}
unfolding get put delete exists find_by_id has_handle find_loop find_by_handle column_collides
    handles_collide create deep_merge merge_account merge_mfa merge_password merge_columns
    increment_at_path increment_all updated update delete_user update_read with_cas
runs = tt

empty-IsValid : IsValid empty
unfolding get
empty-IsValid = record {
  distinct = tt;
  keyed = λ k u g. absurd (ground (arith, g));
  names = λ j k u v g h e. absurd (ground (arith, g));
  handles = λ j k u v g h e. absurd (ground (arith, g));
}

start-IsValid : IsValid start
unfolding runs
start-IsValid = create-IsValid empty-IsValid "x" ann

-- an address that is taken, a username that is taken, and a stale version
refusals :
    ((create "x" bob start).0 ≡ err already_exists)
    × ((create "x" (record bob { columns = [] }) start).0 ≡ ok tt)
    × ((create "x" (record ann { columns = [] }) start).0 ≡ err already_exists)
    × ((delete_user "u1" (some 3) start).0 ≡ false)
    × (exists mail start ≡ false)
unfolding runs
refusals = (refl, refl, refl, refl, refl)

abbrev touching : UserStoreUpdate
touching = record {
  set = some (record no_patch { seen_devices = some [] });
  inc = [];
  expected_version = none;
}

abbrev calls : List StoreCall
calls = update_call "u1" touching ∷ create_call "x" bob ∷ delete_call "u2" none ∷ []

run_calls-IsValid_example : IsValid (run_calls calls start)
run_calls-IsValid_example = run_calls-IsValid calls start ((refl, tt), (tt, (tt, tt))) start-IsValid

find_by_handle-IsResolved_example : IsResolved mail start (find_by_handle mail start)
find_by_handle-IsResolved_example = find_by_handle-IsResolved mail start start-IsValid

-- one other write while the first attempt waits
abbrev waits : Waits
waits zero = update_call "u1" touching ∷ []
waits (suc n) = []

abbrev activate : Mutator Unit
activate u = ok (
  tt,
  some (record {
    set = some (record no_patch { account = record no_account { active = some false } });
    inc = [];
    expected_version = none;
  }),
)

second_attempt :
    ((with_cas 1 (as_others waits) "u1" activate start).0 ≡ err cas_exhausted)
    × ((with_cas 2 (as_others waits) "u1" activate start).0 ≡ ok tt)
    × ((with_cas 2 (as_others waits) "u3" activate start).0 ≡ err not_found)
unfolding runs
second_attempt = (refl, refl, refl)

quiet : (n : ℕ) → All (IsNoBirth "u1") (waits n)
quiet zero = (tt, tt)
quiet (suc n) = tt

with_cas-IsAtomic_example :
    IsAtomic "u1" activate waits start (with_cas 2 (as_others waits) "u1" activate start)
with_cas-IsAtomic_example = with_cas-IsAtomic 2 waits "u1" activate start quiet

with_cas_settles_example :
    ¬ ((with_cas 2 (as_others waits) "u1" activate start).0 ≡ err cas_exhausted)
with_cas_settles_example =
    with_cas_settles "u1" activate 1 2 (as_others waits) start (λ u h. ground (arith, h))
      (omega arith) (λ s. refl)
