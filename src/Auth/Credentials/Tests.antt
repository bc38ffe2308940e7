-- ===== src/Auth/Credentials/Tests.antt =====
-- Runs of the store of packages/auth/src/stores/memory.ts, and the theorems at those runs.
use aoothjs.Base.{ℕ, ◌≡◌, refl, String, true, false, none, some, [], ◌∷◌, ◌==◌, string_eq}
use aoothjs.Base.Assoc.{get, put, delete}
use aoothjs.Auth.Credentials.{
  CredentialState, CredentialStore, set_add, set_delete, set_delete_all, index_add, index_remove,
  with_ttl, persist_as, persist, drop, retrieve, revoke, consume, consume_among, update, touch,
  delete_tokens, revoke_all_for_user, list_from, list_for_user,
}
use aoothjs.Auth.Credentials.Index.{indexed}
use aoothjs.Auth.Credentials.Sync.{owned, IsSynced}
use aoothjs.Auth.Credentials.Users.{IsRevoked, revoke_all_for_user-IsRevoked}
use aoothjs.Auth.Credentials.Listed.{IsListed, list_for_user-IsListed}
use aoothjs.Auth.Credentials.Reads.{
  live_state, Reaches, constructed, persisted, consume-once, persist_as-stale, Reaches-IsSynced,
}

store : Unit {0}
unfolding get put delete set_add set_delete set_delete_all index_add index_remove with_ttl
    persist_as persist drop retrieve revoke consume consume_among update touch delete_tokens
    revoke_all_for_user list_from list_for_user
store = tt

abbrev state : String → ℕ → CredentialState ℕ
state user t = record { user_id = user; expires_at = t; last_seen_at = none; rest = 0 }

abbrev empty_store : CredentialStore ℕ
empty_store = record { states = []; by_user = [] }

abbrev one : CredentialStore ℕ
one = (persist 0 "a" (state "ann" 50) none empty_store).1

abbrev two : CredentialStore ℕ
two = (persist 0 "b" (state "ann" 0) (some 90) one).1

two-Reaches : Reaches two
unfolding store
two-Reaches =
    persisted 0 "b" (state "ann" 0) (some 90)
      (persisted 0 "a" (state "ann" 50) none constructed refl) refl

store_tests :
    ((list_for_user 60 "ann" two).0 ≡ (state "ann" 90, "b") ∷ [])
    × ((list_for_user 60 "ann" two).1.by_user ≡ ("ann", "b" ∷ []) ∷ [])
    × ((revoke_all_for_user "ann" two) ≡ (2, empty_store))
    × ((consume 10 "a" one) ≡ (some (state "ann" 50), empty_store))
    × ((update "a" (state "bob" 50) one).1.by_user ≡ ("bob", "a" ∷ []) ∷ [])
unfolding store
store_tests = (refl, refl, refl, refl, refl)

Reaches-IsSynced_example : IsSynced two
Reaches-IsSynced_example = Reaches-IsSynced two two-Reaches

two-IsSynced : IsSynced two
two-IsSynced = Reaches-IsSynced two two-Reaches

consume-once_example :
    ((consume 10 "a" two).0 ≡ live_state 10 (get "a" two.states))
    × ((retrieve 20 "a" (consume 10 "a" two).1).0 ≡ none)
    × ((consume 20 "a" (consume 10 "a" two).1).0 ≡ none)
    × ((t : String) → ("a" == t) ≡ false → get t (consume 10 "a" two).1.states ≡ get t two.states)
consume-once_example = consume-once 10 20 "a" two

persist_as-stale_example :
    (indexed "ann" "a" (persist_as 0 "a" (state "bob" 50) none two).by_user ≡ true)
    × (owned "ann" "a" (persist_as 0 "a" (state "bob" 50) none two).states ≡ false)
unfolding store
persist_as-stale_example =
    persist_as-stale 0 "a" "ann" (state "bob" 50) none two two-IsSynced refl refl

revoke_all_for_user-IsRevoked_example :
    IsRevoked "ann" two (revoke_all_for_user "ann" two).0 (revoke_all_for_user "ann" two).1
revoke_all_for_user-IsRevoked_example = revoke_all_for_user-IsRevoked "ann" two two-IsSynced

list_for_user-IsListed_example :
    IsListed 60 "ann" two (list_for_user 60 "ann" two).0 (list_for_user 60 "ann" two).1
list_for_user-IsListed_example = list_for_user-IsListed 60 "ann" two two-IsSynced
