-- ===== src/Auth/AuthCredential/Tests.antt =====
-- packages/auth/src/credential/auth-credential.ts on concrete inputs: a login with one refresh row,
-- which is rotated, presented again and revoked.
use aoothjs.Base.{
  ℕ, zero, suc, ◌≡◌, refl, String, true, false, Option, none, some, List, [], ◌∷◌, arith, text_eq,
  nat_eq, string_eq, ◌==◌, All,
}
use aoothjs.Base.Assoc.{get, put, delete}
use aoothjs.Auth.Credentials.{
  CredentialStore, persist, persist_as, retrieve, revoke, list_for_user, update, index_add,
  index_remove, set_add, set_delete, set_delete_all, with_ttl, drop, list_from, delete_tokens,
}
use aoothjs.Auth.Credentials.Reads.{Reaches-IsSynced, constructed, persisted}
use aoothjs.Auth.AuthCredential.{
  refresh, Envelope, State, plain, reject, untracked, Config, Crypto, World, invalid_token,
  refresh_reuse_detected, ok, err, key_of, put_token, retrieve_key, find,
}
use aoothjs.Auth.AuthCredential.Revocation.{
  sweep_until_empty, sweep_rounds, revoke_session, revoke_token, revoke_key, revoke_keys, listing,
  matching, session_key_of,
}
use aoothjs.Auth.AuthCredential.Revocation.Swept.{IsSound, IsSwept}
use aoothjs.Auth.AuthCredential.Revocation.Alone.{
  alone, row, sweep_until_empty-IsSwept, revoke_session-IsSwept,
}
use aoothjs.Auth.AuthCredential.Validation.{validate}
use aoothjs.Auth.AuthCredential.Validation.Dead.{IsDead}
use aoothjs.Auth.AuthCredential.Validation.Raced.{validate-raced}
use aoothjs.Auth.AuthCredential.Refreshing.{
  RefreshResult, issue_access_from_refresh, next_refresh, next_access, access_ttl_of, rotated,
  put_row, rotation_of, grace_ms_of, assert_still_live,
}
use aoothjs.Auth.AuthCredential.Refresh.{rotate, refresh_tokens}
use aoothjs.Auth.AuthCredential.Refresh.Reuse.{refresh_tokens-IsSwept}
use aoothjs.Auth.AuthCredential.Refresh.Live.{IsLive, assert_still_live-IsDead}
use aoothjs.Auth.AuthCredential.Refresh.Stored.{IsNext, rotate-IsStored}

abbrev names : ℕ → String
names zero = "a"
names (suc zero) = "b"
names (suc (suc n)) = "c"

abbrev crypto : Crypto
crypto = record {
  fingerprint = λ token. token;
  random = names;
  encrypt = λ key token. token;
  decrypt = λ key value. some value;
  is_legacy_token = λ token. false;
}

abbrev config : Config
config = record {
  access_ttl = 100;
  refresh =
      some
        (record { ttl = 1000; rotation = none; rotation_grace_ms = none; reuse_response = none });
  max_concurrent = none;
  on_limit = reject;
  track_last_seen = untracked;
  hash_at_rest = plain;
  generates = false;
}

-- a refresh row of a session, and one that was rotated
abbrev refresh_row : Option ℕ → State ℕ
refresh_row rotated_at = record {
  user_id = "ann";
  expires_at = 100000;
  last_seen_at = none;
  rest = record {
    issued_at = 0;
    kind = some refresh;
    metadata = none;
    parent_credential_id = none;
    rotated_at = rotated_at;
    successor = none;
    session_id = some "s1";
    payload = 7;
  };
}

abbrev empty : CredentialStore (Envelope ℕ)
empty = record { states = []; by_user = [] }

abbrev world_of : CredentialStore (Envelope ℕ) → World ℕ
world_of store = record { store = store; cache = none; denylist = none; drawn = 0 }

unfoldable logged_in : Option ℕ → World ℕ
unfolding persist
logged_in rotated_at = world_of (persist 0 "r" (refresh_row rotated_at) none empty).1

logged_in-IsSound : (rotated_at : Option ℕ) → IsSound (logged_in rotated_at)
unfolding logged_in get
logged_in-IsSound rotated_at =
    Reaches-IsSynced (persist 0 "r" (refresh_row rotated_at) none empty).1
      (persisted 0 "r" (refresh_row rotated_at) none constructed refl)

sweep_until_empty-IsSwept_example :
    (revoked : List String) × (after : World ℕ) × (sweep_until_empty crypto config alone 5 "ann"
        (λ key. key == "s1")
        (logged_in none)
      ≡ (ok revoked, after))
    × IsSwept crypto config 5 "ann" (λ key. key == "s1") after
sweep_until_empty-IsSwept_example =
    sweep_until_empty-IsSwept crypto config 5 "ann" (λ key. key == "s1") (logged_in none)
      (logged_in-IsSound none)

unfoldable revoked_world : World ℕ
unfolding revoke_session sweep_rounds
revoked_world = (revoke_session crypto config alone 5 "ann" "s1" (logged_in none)).1

revoked_session :
    revoke_session crypto config alone 5 "ann" "s1" (logged_in none) ≡ (ok tt, revoked_world)
unfolding revoke_session sweep_rounds revoked_world listing matching session_key_of revoke_keys
    revoke_key logged_in persist persist_as list_for_user list_from revoke drop delete_tokens
    index_add index_remove set_add set_delete set_delete_all with_ttl get put delete
revoked_session = refl

revoke_session-IsSwept_example :
    (v : World ℕ) × (k : ℕ) × IsSound v
    × IsSwept crypto config 5 "ann" (λ key. key == "s1") v
    × (alone k v ≡ revoked_world)
revoke_session-IsSwept_example =
    revoke_session-IsSwept crypto config alone 5 "ann" "s1" (logged_in none) revoked_world
      (λ k w h. h) (logged_in-IsSound none) revoked_session

-- a world that caches what it validates
abbrev with_cache : World ℕ
with_cache = record (logged_in none) {
  cache = some (record { ttl_ms = 1000; max = 10; entries = []; epoch = 0 });
}

validate-raced_example :
    (validate crypto config alone 6 "r"
      (validate crypto config (λ _. revoke_token crypto config "r") 5 "r" with_cache).1).0
    ≡ ok none
unfolding logged_in get
validate-raced_example = validate-raced crypto config 5 6 "r" with_cache refl

assert_still_live-IsDead_example :
    (after : World ℕ) × (assert_still_live crypto config 5 "gone" ("r" ∷ []) (logged_in none)
      ≡ (err invalid_token, after))
    × All (λ t. IsDead crypto config t after) ("r" ∷ [])
unfolding logged_in persist persist_as get put
assert_still_live-IsDead_example =
    assert_still_live-IsDead crypto config 5 "gone" ("r" ∷ []) (logged_in none) refl

found_rotated :
    find crypto config 40000 "r" (logged_in (some 5))
    ≡ (ok (some ("r", refresh_row (some 5))), logged_in (some 5))
unfolding find retrieve_key key_of logged_in persist persist_as retrieve index_add with_ttl get put
found_rotated = refl

refresh_tokens-IsSwept_example :
    (after : World ℕ) × (refresh_tokens crypto config
        (λ state. none)
        alone
        alone
        40000
        "r"
        (logged_in (some 5))
      ≡ (err refresh_reuse_detected, after))
    × IsSwept crypto config 40000 "ann" (λ key. key == "s1") after
unfolding rotation_of grace_ms_of
refresh_tokens-IsSwept_example =
    refresh_tokens-IsSwept crypto config (λ state. none) alone 40000 5 "r" "r" "s1"
      (refresh_row (some 5)) (logged_in (some 5)) (logged_in (some 5)) (logged_in-IsSound (some 5))
      found_rotated refl refl (λ e. ground (arith, e)) refl (omega arith) refl refl

unfoldable rotated_world : World ℕ
unfolding rotate
rotated_world =
    (rotate crypto config alone 10 "r" "r" (refresh_row none) true 1000 (logged_in none)).1

abbrev rotated_pair : RefreshResult
rotated_pair = record {
  access_token = "a";
  access_expires_at = 110;
  refresh_token = "b";
  refresh_expires_at = 100000;
  user_id = "ann";
}

rotated_now :
    rotate crypto config alone 10 "r" "r" (refresh_row none) true 1000 (logged_in none)
    ≡ (ok rotated_pair, rotated_world)
unfolding rotate rotated_world issue_access_from_refresh assert_still_live next_refresh next_access
    access_ttl_of rotated put_row put_token key_of retrieve_key logged_in persist persist_as
    retrieve update index_add set_add with_ttl get put
rotated_now = refl

rotate-IsStored_example :
    IsLive crypto config 10 "r" rotated_world
    × (rotated_pair.user_id ≡ "ann")
    × (rotated_pair.refresh_expires_at ≡ 100000)
    × (next : State ℕ) × (row "b" rotated_world ≡ some next)
    × IsNext crypto config (refresh_row none) 100000 next
unfolding key_of
rotate-IsStored_example =
    rotate-IsStored crypto config alone 10 "r" "r" (refresh_row none) true 1000 (logged_in none)
      rotated_world rotated_pair (omega arith) (λ k v. refl) refl rotated_now
