-- ===== src/Auth/Credentials.antt =====
-- packages/auth/src/stores/memory.ts: `CredentialStoreMemory`. A method that reads the clock takes
-- the time as `now`, and `persist` takes the random token. The store copies a state when it takes
-- or gives one, so no state is shared with a caller; of a state it reads the fields that are named
-- here, and `rest` stands for the others. A `Set` is the list of its elements in insertion order.
pub mod Index
pub mod Sync
pub mod Users
pub mod Listed
pub mod Reads
mod Tests
use aoothjs.Base.{
  ℕ, suc, ◌+◌, String, Bool, true, false, not, ◌&&◌, Option, none, some, List, [], ◌∷◌, ◌++◌, leb,
  any, filter, ◌==◌, string_eq, if◌then◌else◌,
}
use aoothjs.Base.Assoc.{Assoc, get, put, delete}

pub record CredentialState (P : Type 0) : Type 0 where
  pub user_id : String
  pub expires_at : ℕ
  pub last_seen_at : Option ℕ
  pub rest : P

pub record CredentialStore (P : Type 0) : Type 0 where
  pub states : Assoc String (CredentialState P)
  pub by_user : Assoc String (List String)

-- `set.has(token)`
abbrev pub contains : String → List String → Bool
contains token tokens = any (λ x. x == token) tokens

-- `set.add(token)`
unfoldable pub set_add : String → List String → List String
set_add token tokens = if contains token tokens then tokens else tokens ++ (token ∷ [])

-- `set.delete(token)`
unfoldable pub set_delete : String → List String → List String
set_delete token tokens = filter (λ x. not (x == token)) tokens

-- `tokens.delete(token)` for each token
unfoldable pub set_delete_all : List String → List String → List String
unfolding set_delete
set_delete_all [] tokens = tokens
set_delete_all (x ∷ xs) tokens = set_delete_all xs (set_delete x tokens)

unfoldable pub index_add : String → String → Assoc String (List String) → Assoc String (List String)
unfolding set_add
index_add user token index = elim (get user index) [
  | none ↦ put user (token ∷ []) index
  | some tokens ↦ put user (set_add token tokens) index
]

unfoldable pub index_remove :
    String → String → Assoc String (List String) → Assoc String (List String)
unfolding set_delete
index_remove user token index = elim (get user index) [
  | none ↦ index
  | some tokens ↦ elim (set_delete token tokens) [
    | [] ↦ delete user index
    | x ∷ xs ↦ put user (x ∷ xs) index
  ]
]

module _ {P : Type 0} where
  -- the state that is stored: with a `ttl`, it expires that much later
  unfoldable pub with_ttl : ℕ → Option ℕ → CredentialState P → CredentialState P
  with_ttl now none state = state
  with_ttl now (some ttl) state = record state { expires_at = now + ttl }

  unfoldable pub persist_as :
      ℕ → String → CredentialState P → Option ℕ → CredentialStore P → CredentialStore P
  unfolding index_add with_ttl
  persist_as now id state ttl s =
      let stored = with_ttl now ttl state in
      record { states = put id stored s.states; by_user = index_add stored.user_id id s.by_user }

  unfoldable pub persist :
      ℕ → String → CredentialState P → Option ℕ → CredentialStore P → String × CredentialStore P
  unfolding persist_as
  persist now token state ttl s = (token, persist_as now token state ttl s)

  -- a state leaves the store and the index
  unfoldable pub drop : String → CredentialState P → CredentialStore P → CredentialStore P
  unfolding index_remove
  drop token state s = record {
    states = delete token s.states;
    by_user = index_remove state.user_id token s.by_user;
  }

  unfoldable pub retrieve :
      ℕ → String → CredentialStore P → Option (CredentialState P) × CredentialStore P
  unfolding drop
  retrieve now token s = elim (get token s.states) [
    | none ↦ (none, s)
    | some state ↦ if leb state.expires_at now then (none, drop token state s) else (some state, s)
  ]

  unfoldable pub revoke : String → CredentialStore P → CredentialStore P
  unfolding drop
  revoke token s = elim (get token s.states) [ none ↦ s | some state ↦ drop token state s ]

  -- `others` is what others do to the store between the retrieval and the revocation
  unfoldable pub consume_among :
      (CredentialStore P → CredentialStore P)
      → ℕ
      → String
      → CredentialStore P
      → Option (CredentialState P) × CredentialStore P
  unfolding retrieve revoke
  consume_among others now token s =
      let (found, after) = retrieve now token s in
      elim found [ none ↦ (none, after) | some state ↦ (some state, revoke token (others after)) ]

  -- a consumption that nobody interrupts
  unfoldable pub consume :
      ℕ → String → CredentialStore P → Option (CredentialState P) × CredentialStore P
  unfolding consume_among
  consume now token s = consume_among (λ after. after) now token s

  unfoldable pub update :
      String → CredentialState P → CredentialStore P → String × CredentialStore P
  unfolding index_add index_remove
  update token state s = elim (get token s.states) [
    | none ↦ (token, s)
    | some existing ↦ (
      token,
      record {
        states = put token state s.states;
        by_user =
            if existing.user_id == state.user_id
            then s.by_user
            else index_add state.user_id token (index_remove existing.user_id token s.by_user);
      },
    )
  ]

  unfoldable pub touch : String → ℕ → CredentialStore P → CredentialStore P
  touch token at s = elim (get token s.states) [
    | none ↦ s
    | some state ↦ record s {
      states = put token (record state { last_seen_at = some at }) s.states;
    }
  ]

  -- `if (this.states.delete(token)) count++` for each token
  unfoldable pub delete_tokens :
      List String → Assoc String (CredentialState P) → ℕ × Assoc String (CredentialState P)
  delete_tokens [] states = (0, states)
  delete_tokens (token ∷ tokens) states =
      let (count, rest) = delete_tokens tokens (delete token states) in
      elim (get token states) [ none ↦ (count, rest) | some _ ↦ (suc count, rest) ]

  unfoldable pub revoke_all_for_user : String → CredentialStore P → ℕ × CredentialStore P
  unfolding delete_tokens
  revoke_all_for_user user s = elim (get user s.by_user) [
    | none ↦ (0, s)
    | some [] ↦ (0, s)
    | some (token ∷ tokens) ↦
        let (count, states) = delete_tokens (token ∷ tokens) s.states in
        (count, record { states = states; by_user = delete user s.by_user })
  ]

  -- the loop of `listForUser`: what is listed, with its token, and which tokens have expired
  unfoldable pub list_from :
      ℕ
      → Assoc String (CredentialState P)
      → List String
      → List (CredentialState P × String) × List String
  list_from now states [] = ([], [])
  list_from now states (token ∷ tokens) =
      let (out, expired) = list_from now states tokens in
      elim (get token states) [
        | none ↦ (out, token ∷ expired)
        | some state ↦
            if leb state.expires_at now
            then (out, token ∷ expired)
            else ((state, token) ∷ out, expired)
      ]

  unfoldable pub list_for_user :
      ℕ → String → CredentialStore P → List (CredentialState P × String) × CredentialStore P
  unfolding list_from delete_tokens set_delete_all
  list_for_user now user s = elim (get user s.by_user) [
    | none ↦ ([], s)
    | some [] ↦ ([], s)
    | some (token ∷ tokens) ↦
        let (out, expired) = list_from now s.states (token ∷ tokens) in
        (
          out,
          record {
            states = (delete_tokens expired s.states).1;
            by_user = elim (set_delete_all expired (token ∷ tokens)) [
              | [] ↦ delete user s.by_user
              | x ∷ xs ↦ put user (x ∷ xs) s.by_user
            ];
          },
        )
  ]
