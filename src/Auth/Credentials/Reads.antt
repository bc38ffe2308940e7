-- ===== src/Auth/Credentials/Reads.antt =====
-- What reads of packages/auth/src/stores/memory.ts give: live states, and a state that is consumed
-- once; and what holds after any sequence of calls.
use aoothjs.Base.{
  ℕ, ◌≡◌, refl, sym, ap, ◌∙◌, String, true, false, Option, none, some, [], arith, leb, ◌==◌,
  string_eq, ==_refl, eq_of_==, Bool-cases, Option-cases, inl, inr, if◌then◌else◌,
}
use aoothjs.Base.Assoc.{get}
use aoothjs.Base.Assoc.Laws.{get-delete}
use aoothjs.Auth.Credentials.{
  CredentialState, CredentialStore, drop, persist, persist_as, with_ttl, retrieve, revoke, consume,
  consume_among, update, touch, revoke_all_for_user, list_for_user,
}
use aoothjs.Auth.Credentials.Index.{indexed, indexed-index_add}
use aoothjs.Auth.Credentials.Sync.{
  owned-put, user_id-with_ttl, owned, IsSynced, persist_as-IsSynced, retrieve-IsSynced,
  revoke-IsSynced, consume-IsSynced, touch-IsSynced, update-IsSynced,
}
use aoothjs.Auth.Credentials.Users.{revoke_all_for_user-IsRevoked}
use aoothjs.Auth.Credentials.Listed.{list_for_user-IsListed}

module _ {P : Type 0} where
  abbrev pub live_state : ℕ → Option (CredentialState P) → Option (CredentialState P)
  live_state now none = none
  live_state now (some state) = if leb state.expires_at now then none else some state

  same_token :
      (token t : String) (s : CredentialStore P)
      → (token == t) ≡ true
      → get t s.states ≡ get token s.states
  same_token token t s e = ap (λ k. get k s.states) (sym (eq_of_== token t e))

  pub retrieved :
      (now : ℕ) (token : String) (s : CredentialStore P)
      → (retrieve now token s).0 ≡ live_state now (get token s.states)
  unfolding retrieve
  retrieved now token s = elim (Option-cases (get token s.states)) [
    | inl absent ↦ rw (absent, retrieve)
    | inr (state, found) ↦ elim (Bool-cases (leb state.expires_at now)) [
      | inl gone ↦ rw (found, gone, retrieve)
      | inr live ↦ rw (found, live, retrieve)
    ]
  ]

  pub get-retrieve :
      (now : ℕ) (token t : String) (s : CredentialStore P)
      → get t (retrieve now token s).1.states
        ≡ (if token == t then live_state now (get token s.states) else get t s.states)
  unfolding retrieve drop
  get-retrieve now token t s = elim (Option-cases (get token s.states)) [
    | inl absent ↦ rw (absent, retrieve) (ground (arith, same_token token t s, absent))
    | inr (state, found) ↦ elim (Bool-cases (leb state.expires_at now)) [
      | inl gone ↦ rw (found, gone, retrieve) (get-delete token t s.states)
      | inr live ↦ rw (found, live, retrieve) (ground (arith, same_token token t s, found))
    ]
  ]

  pub get-revoke :
      (token t : String) (s : CredentialStore P)
      → get t (revoke token s).states ≡ (if token == t then none else get t s.states)
  unfolding revoke drop
  get-revoke token t s = elim (Option-cases (get token s.states)) [
    | inl absent ↦ rw (absent, revoke) (ground (arith, same_token token t s, absent))
    | inr (state, found) ↦ rw (found, revoke) (get-delete token t s.states)
  ]

  get-consume :
      (now : ℕ) (token t : String) (s : CredentialStore P)
      → get t (consume now token s).1.states ≡ (if token == t then none else get t s.states)
  unfolding consume consume_among
  get-consume now token t s = elim (Option-cases (retrieve now token s).0) [
    | inl nothing ↦
        rw (nothing, consume, consume_among)
          (ground (arith, get-retrieve now token t s, retrieved now token s, nothing))
    | inr (state, found) ↦
        rw (found, consume, consume_among)
          (ground (arith, get-revoke token t (retrieve now token s).1, get-retrieve now token t s))
  ]

  consumed :
      (now : ℕ) (token : String) (s : CredentialStore P)
      → (consume now token s).0 ≡ live_state now (get token s.states)
  unfolding consume consume_among
  consumed now token s = elim (Option-cases (retrieve now token s).0) [
    | inl nothing ↦ rw (nothing, consume, consume_among) (sym nothing ∙ retrieved now token s)
    | inr (state, found) ↦ rw (found, consume, consume_among) (sym found ∙ retrieved now token s)
  ]

  -- A consumed state is the live state of its token. After it the token gives nothing, neither to a
  -- retrieval nor to another consumption, and every other token keeps its state.
  pub consume-once :
      (now later : ℕ) (token : String) (s : CredentialStore P)
      → ((consume now token s).0 ≡ live_state now (get token s.states))
        × ((retrieve later token (consume now token s).1).0 ≡ none)
        × ((consume later token (consume now token s).1).0 ≡ none)
        × ((t : String)
            → (token == t) ≡ false
            → get t (consume now token s).1.states ≡ get t s.states)
  consume-once now later token s =
      let nothing : get token (consume now token s).1.states ≡ none =
        ground (arith, get-consume now token token s, ==_refl token) in
      let left : live_state later (get token (consume now token s).1.states) ≡ none =
        ap (live_state later) nothing in
      (
        consumed now token s,
        retrieved later token (consume now token s).1 ∙ left,
        consumed later token (consume now token s).1 ∙ left,
        λ t other. ground (arith, get-consume now token t s, other),
      )

  -- On a store whose index is in step, a state that is persisted under the token of another user's
  -- state leaves the token in that user's set, while the store has it no more for that user.
  pub persist_as-stale :
      (now : ℕ) (id user : String) (state : CredentialState P) (ttl : Option ℕ)
      (s : CredentialStore P)
      → IsSynced s
      → owned user id s.states ≡ true
      → (state.user_id == user) ≡ false
      → (indexed user id (persist_as now id state ttl s).by_user ≡ true)
        × (owned user id (persist_as now id state ttl s).states ≡ false)
  unfolding persist_as
  persist_as-stale now id user state ttl s h old other = (
    ground (
      arith,
      indexed-index_add (with_ttl now ttl state).user_id id user id s.by_user,
      h user id,
      old,
    ),
    ground (
      arith,
      owned-put id user id (with_ttl now ttl state) s.states,
      ==_refl id,
      user_id-with_ttl now ttl state,
      other,
    ),
  )

  -- the calls that a store goes through from its construction, where a state is persisted under a
  -- token that is new
  pub data Reaches : CredentialStore P → Type 0 where
    constructed : Reaches (record { states = []; by_user = [] })
    persisted :
        {s : CredentialStore P} (now : ℕ) (token : String) (state : CredentialState P)
        (ttl : Option ℕ)
        → Reaches s
        → get token s.states ≡ none
        → Reaches (persist now token state ttl s).1
    retrieving :
        {s : CredentialStore P} (now : ℕ) (token : String)
        → Reaches s
        → Reaches (retrieve now token s).1
    consuming :
        {s : CredentialStore P} (now : ℕ) (token : String)
        → Reaches s
        → Reaches (consume now token s).1
    updated :
        {s : CredentialStore P} (token : String) (state : CredentialState P)
        → Reaches s
        → Reaches (update token state s).1
    revoked : {s : CredentialStore P} (token : String) → Reaches s → Reaches (revoke token s)
    touched :
        {s : CredentialStore P} (token : String) (at : ℕ) → Reaches s → Reaches (touch token at s)
    all_revoked :
        {s : CredentialStore P} (user : String) → Reaches s → Reaches (revoke_all_for_user user s).1
    listing :
        {s : CredentialStore P} (now : ℕ) (user : String)
        → Reaches s
        → Reaches (list_for_user now user s).1

  -- Whatever the calls since its construction, the index of a credential store has a token for a
  -- user exactly when the store has a state of that user under it, if every state is persisted
  -- under a new token.
  pub Reaches-IsSynced : (s : CredentialStore P) → Reaches s → IsSynced s
  unfolding persist get
  Reaches-IsSynced _ constructed = λ u t. refl
  Reaches-IsSynced _ (persisted {s} now token state ttl r fresh) =
      persist_as-IsSynced now token state ttl s (Reaches-IsSynced s r)
        (λ user o. absurd (ground (arith, fresh, o)))
  Reaches-IsSynced _ (retrieving {s} now token r) =
      retrieve-IsSynced now token s (Reaches-IsSynced s r)
  Reaches-IsSynced _ (consuming {s} now token r) =
      consume-IsSynced now token s (Reaches-IsSynced s r)
  Reaches-IsSynced _ (updated {s} token state r) =
      update-IsSynced token state s (Reaches-IsSynced s r)
  Reaches-IsSynced _ (revoked {s} token r) = revoke-IsSynced token s (Reaches-IsSynced s r)
  Reaches-IsSynced _ (touched {s} token at r) = touch-IsSynced token at s (Reaches-IsSynced s r)
  Reaches-IsSynced _ (all_revoked {s} user r) =
      (revoke_all_for_user-IsRevoked user s (Reaches-IsSynced s r)).synced
  Reaches-IsSynced _ (listing {s} now user r) =
      (list_for_user-IsListed now user s (Reaches-IsSynced s r)).synced
