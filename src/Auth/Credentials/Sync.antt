-- ===== src/Auth/Credentials/Sync.antt =====
-- The index by user of packages/auth/src/stores/memory.ts is kept in step with the states.
use aoothjs.Base.{
  ℕ, ◌≡◌, refl, sym, ap, ◌∙◌, String, Bool, true, false, Option, none, some, arith, leb, ◌==◌,
  string_eq, eq_of_==, Bool-cases, Option-cases, inl, inr, if◌then◌else◌,
}
use mathlib.Core.Path.{subst}
use aoothjs.Base.Assoc.{Assoc, get, put, delete}
use aoothjs.Base.Assoc.Laws.{get-put, get-delete}
use aoothjs.Auth.Credentials.{
  CredentialState, CredentialStore, index_add, index_remove, with_ttl, persist_as, drop, retrieve,
  revoke, consume, consume_among, update, touch,
}
use aoothjs.Auth.Credentials.Index.{indexed, indexed-index_add, indexed-index_remove}

module _ {P : Type 0} where
  abbrev pub is_of : String → Option (CredentialState P) → Bool
  is_of user none = false
  is_of user (some state) = state.user_id == user

  -- the user has the state of the token
  abbrev pub owned : String → String → Assoc String (CredentialState P) → Bool
  owned user token states = is_of user (get token states)

  -- the index has a token for a user exactly when the token's state is that user's
  abbrev pub IsSynced : CredentialStore P → Type 0
  IsSynced s = (user token : String) → indexed user token s.by_user ≡ owned user token s.states

  pub owned-put :
      (id u t : String) (state : CredentialState P) (states : Assoc String (CredentialState P))
      → owned u t (put id state states) ≡ (if id == t then state.user_id == u else owned u t states)
  owned-put id u t state states = ground (arith, get-put id t state states)

  pub owned-delete :
      (id u t : String) (states : Assoc String (CredentialState P))
      → owned u t (delete id states) ≡ (if id == t then false else owned u t states)
  owned-delete id u t states = ground (arith, get-delete id t states)

  pub owned-found :
      (id u t : String) (state : CredentialState P) (states : Assoc String (CredentialState P))
      → get id states ≡ some state
      → (id == t) ≡ true
      → owned u t states ≡ (state.user_id == u)
  owned-found id u t state states found same = rw (← eq_of_== id t same) (ap (is_of u) found)

  pub drop-IsSynced :
      (token : String) (state : CredentialState P) (s : CredentialStore P)
      → IsSynced s
      → get token s.states ≡ some state
      → IsSynced (drop token state s)
  unfolding drop
  drop-IsSynced token state s h found u t = ground (
    arith,
    indexed-index_remove state.user_id token u t s.by_user,
    owned-delete token u t s.states,
    owned-found token u t state s.states found,
    h u t,
  )

  -- a state is stored under a new token, or under one whose state is the same user's
  put-IsSynced :
      (id : String) (stored : CredentialState P) (s : CredentialStore P)
      → IsSynced s
      → ((user : String) → owned user id s.states ≡ true → stored.user_id ≡ user)
      → IsSynced (record {
        states = put id stored s.states;
        by_user = index_add stored.user_id id s.by_user;
      })
  put-IsSynced id stored s h own u t = ground (
    arith,
    indexed-index_add stored.user_id id u t s.by_user,
    owned-put id u t stored s.states,
    h u t,
    own u,
    same_token,
    string_eq.equal_iff stored.user_id u,
  )
    where
      same_token : (id == t) ≡ true → owned u t s.states ≡ owned u id s.states
      same_token e = ap (λ x. owned u x s.states) (sym (eq_of_== id t e))

  pub user_id-with_ttl :
      (now : ℕ) (ttl : Option ℕ) (state : CredentialState P)
      → (with_ttl now ttl state).user_id ≡ state.user_id
  unfolding with_ttl
  user_id-with_ttl now none state = refl
  user_id-with_ttl now (some ms) state = refl

  pub persist_as-IsSynced :
      (now : ℕ) (id : String) (state : CredentialState P) (ttl : Option ℕ) (s : CredentialStore P)
      → IsSynced s
      → ((user : String) → owned user id s.states ≡ true → state.user_id ≡ user)
      → IsSynced (persist_as now id state ttl s)
  unfolding persist_as
  persist_as-IsSynced now id state ttl s h own =
      put-IsSynced id (with_ttl now ttl state) s h
        (λ user o. user_id-with_ttl now ttl state ∙ own user o)

  pub revoke-IsSynced :
      (token : String) (s : CredentialStore P) → IsSynced s → IsSynced (revoke token s)
  unfolding revoke
  revoke-IsSynced token s h = elim (Option-cases (get token s.states)) [
    | inl absent ↦ subst IsSynced (unfold revoke in rw (absent, revoke)) h
    | inr (state, found) ↦
        subst IsSynced (unfold revoke in rw (found, revoke)) (drop-IsSynced token state s h found)
  ]

  pub retrieve-IsSynced :
      (now : ℕ) (token : String) (s : CredentialStore P)
      → IsSynced s
      → IsSynced (retrieve now token s).1
  unfolding retrieve
  retrieve-IsSynced now token s h = elim (Option-cases (get token s.states)) [
    | inl absent ↦ subst IsSynced (unfold retrieve in rw (absent, retrieve)) h
    | inr (state, found) ↦ elim (Bool-cases (leb state.expires_at now)) [
      | inl gone ↦
          subst IsSynced (unfold retrieve in rw (found, gone, retrieve))
            (drop-IsSynced token state s h found)
      | inr live ↦ subst IsSynced (unfold retrieve in rw (found, live, retrieve)) h
    ]
  ]

  pub consume-IsSynced :
      (now : ℕ) (token : String) (s : CredentialStore P)
      → IsSynced s
      → IsSynced (consume now token s).1
  unfolding consume consume_among
  consume-IsSynced now token s h = elim (Option-cases (retrieve now token s).0) [
    | inl nothing ↦
        subst IsSynced (unfold consume in rw (nothing, consume, consume_among))
          (retrieve-IsSynced now token s h)
    | inr (state, found) ↦
        subst IsSynced (unfold consume in rw (found, consume, consume_among))
          (revoke-IsSynced token (retrieve now token s).1 (retrieve-IsSynced now token s h))
  ]

  -- a state is replaced by one of the same user
  replaced-IsSynced :
      (token : String) (existing state : CredentialState P) (s : CredentialStore P)
      → IsSynced s
      → get token s.states ≡ some existing
      → existing.user_id ≡ state.user_id
      → IsSynced (record s { states = put token state s.states })
  replaced-IsSynced token existing state s h found same u t = ground (
    arith,
    h u t,
    owned-put token u t state s.states,
    owned-found token u t existing s.states found,
    same,
  )

  -- a state is replaced by one of another user
  moved-IsSynced :
      (token : String) (existing state : CredentialState P) (s : CredentialStore P)
      → IsSynced s
      → get token s.states ≡ some existing
      → IsSynced (record {
        states = put token state s.states;
        by_user = index_add state.user_id token (index_remove existing.user_id token s.by_user);
      })
  moved-IsSynced token existing state s h found u t = ground (
    arith,
    h u t,
    owned-put token u t state s.states,
    owned-found token u t existing s.states found,
    indexed-index_add state.user_id token u t (index_remove existing.user_id token s.by_user),
    indexed-index_remove existing.user_id token u t s.by_user,
  )

  pub touch-IsSynced :
      (token : String) (at : ℕ) (s : CredentialStore P) → IsSynced s → IsSynced (touch token at s)
  unfolding touch
  touch-IsSynced token at s h = elim (Option-cases (get token s.states)) [
    | inl absent ↦ subst IsSynced (unfold touch in rw (absent, touch)) h
    | inr (state, found) ↦
        subst IsSynced (unfold touch in rw (found, touch))
          (replaced-IsSynced token state (record state { last_seen_at = some at }) s h found refl)
  ]

  pub update-IsSynced :
      (token : String) (state : CredentialState P) (s : CredentialStore P)
      → IsSynced s
      → IsSynced (update token state s).1
  unfolding update
  update-IsSynced token state s h = elim (Option-cases (get token s.states)) [
    | inl absent ↦ subst IsSynced (unfold update in rw (absent, update)) h
    | inr (existing, found) ↦ elim (Bool-cases (existing.user_id == state.user_id)) [
      | inl same ↦ subst IsSynced (unfold update in rw (found, same, update)) (
          replaced-IsSynced token existing state s h found
            (eq_of_== existing.user_id state.user_id same))
      | inr moved ↦
          subst IsSynced (unfold update in rw (found, moved, update))
            (moved-IsSynced token existing state s h found)
    ]
  ]
