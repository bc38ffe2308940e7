-- ===== src/Auth/AuthCredential/Revocation.antt =====
-- packages/auth/src/credential/auth-credential.ts: `revoke`, `revokeAllForUser`, `revokeSession`,
-- `revokeOtherSessions`, their repeated passes, and `enforceConcurrencyLimit`. The passes that may
-- still be made are the fuel of the loops; when it has run out the loop throws, as the code does.
pub mod Swept
pub mod Alone
use aoothjs.Base.{
  ℕ, zero, suc, ◌+◌, ◌-◌, ◌≤◌, ◌<◌, ◌≡◌, refl, sym, ap, ◌∙◌, ◌≢◌, ◌↔◌, ◌⊎◌, inl, inr, String, Bool,
  true, false, not, ◌&&◌, ◌||◌, Option, none, some, List, [], ◌∷◌, ◌++◌, map, arith, ltb, leb,
  nat_beq, ltb→lt, lt→ltb, leb→le, le→leb, nat_beq_iff, Bool-cases, Option-cases, if◌then◌else◌,
  length, any, filter, or_else, or_default, length-append, length-filter-le, Text, text_eq, nat_eq,
  All-map, All-append, All_right, string_eq, ◌==◌, ==_refl, eq_of_==, All,
}
use aoothjs.Base.Sorting.{sort_by}
use aoothjs.Auth.Credentials.{CredentialState, revoke, revoke_all_for_user, list_for_user, set_add}
use aoothjs.Auth.AuthCredential.Cache.{ValidateCache, cache_delete, cache_delete_user}
use aoothjs.Auth.AuthCredential.{
  State, is_refresh, Config, Crypto, World, AuthError, not_converged, max_concurrent_reached,
  OnLimit, reject, evict_oldest, Task, pure, raise, change, finally, continue, ◌>>=◌, ◌>>◌, key_of,
  fingerprint_of_key, may_be_legacy_key, ok, err,
}

-- an entry that `listForUser` answers: a state with its key
abbrev pub Entry : Type 0 → Type 0
Entry P = State P × String

abbrev pub on_cache :
    {S : Type 0}
    → (ValidateCache S → ValidateCache S)
    → Option (ValidateCache S)
    → Option (ValidateCache S)
on_cache f none = none
on_cache f (some c) = some (f c)

module _ {P : Type 0} where
  abbrev pub user_of : State P → String
  user_of state = state.user_id

  abbrev pub forget : String → World P → World P
  forget key w = record w { cache = on_cache (cache_delete key) w.cache }

  abbrev pub forget_user : String → World P → World P
  forget_user user w = record w { cache = on_cache (cache_delete_user user_of user) w.cache }

  -- The cache is evicted before and after the store's write.
  unfoldable pub revoke_key : String → World P → World P
  unfolding revoke cache_delete
  revoke_key key w =
      let evicted = forget key w in forget key (record evicted { store = revoke key evicted.store })

  unfoldable pub revoke_keys : List (Entry P) → World P → World P
  unfolding revoke_key
  revoke_keys [] w = w
  revoke_keys (entry ∷ entries) w = revoke_keys entries (revoke_key entry.1 w)

  unfoldable pub listing : ℕ → String → Task P (List (Entry P))
  unfolding list_for_user
  listing now user w =
      let (out, store) = list_for_user now user w.store in (ok out, record w { store = store })

  unfoldable pub revoke_all : String → Task P ℕ
  unfolding revoke_all_for_user
  revoke_all user w =
      let (count, store) = revoke_all_for_user user w.store in
      (ok count, record w { store = store })

abbrev pub max_revoke_passes : ℕ
max_revoke_passes = 8

-- what others do to the world while a pass awaits its listing and its revocations: with `left`
-- passes to come, the odd number of `during_listing` and the even one of `during_revoking`
abbrev pub Passes : Type 0 → Type 0
Passes P = ℕ → World P → World P

abbrev pub during_listing : ℕ → ℕ
during_listing left = suc (left + left)

abbrev pub during_revoking : ℕ → ℕ
during_revoking left = left + left

module _ {P : Type 0} where
  unfoldable pub revoke_rounds : Passes P → ℕ → String → ℕ → ℕ → Task P ℕ
  unfolding listing revoke_all
  revoke_rounds passes now user zero revoked = raise not_converged
  revoke_rounds passes now user (suc left) revoked = do
    entries ← listing now user
    change (passes (during_listing left))
    elim entries as (λ _. Task P ℕ) [
      | [] ↦ pure revoked
      | _ ∷ _ ↦ do
        count ← revoke_all user
        change (passes (during_revoking left))
        if nat_beq left 0
            then raise not_converged
            else revoke_rounds passes now user left (revoked + count)
    ]

  unfoldable pub revoke_everything : Passes P → ℕ → String → Task P ℕ
  unfolding revoke_all revoke_rounds cache_delete_user
  revoke_everything passes now user w =
      finally (forget_user user)
        ((revoke_all user >>= revoke_rounds passes now user max_revoke_passes) (forget_user user w))

module _ (crypto : Crypto) (config : Config) {P : Type 0} where
  -- the row's session id, or else the fingerprint of its token
  unfoldable pub session_key_of : Entry P → String
  unfolding fingerprint_of_key
  session_key_of (state, key) =
      or_default (fingerprint_of_key crypto config key) state.rest.session_id

  unfoldable pub matching : (String → Bool) → List (Entry P) → List (Entry P)
  unfolding session_key_of
  matching matches entries = filter (λ entry. matches (session_key_of entry)) entries

  -- `revoked.add(key)` for each entry
  abbrev pub noted : List (Entry P) → List String → List String
  noted [] revoked = revoked
  noted (entry ∷ entries) revoked = noted entries (set_add (session_key_of entry) revoked)

  -- `left` passes may still be made; the last one throws when it has found something.
  unfoldable pub sweep_rounds :
      Passes P → ℕ → String → (String → Bool) → ℕ → List String → Task P (List String)
  unfolding listing matching revoke_keys set_add session_key_of
  sweep_rounds passes now user matches zero revoked = raise not_converged
  sweep_rounds passes now user matches (suc left) revoked = do
    entries ← listing now user
    change (passes (during_listing left))
    elim (matching matches entries) as (λ _. Task P (List String)) [
      | [] ↦ pure revoked
      | e ∷ es ↦ do
        change (revoke_keys (e ∷ es))
        change (passes (during_revoking left))
        if nat_beq left 0
            then raise not_converged
            else sweep_rounds passes now user matches left (noted (e ∷ es) revoked)
    ]

  abbrev pub sweep_until_empty : Passes P → ℕ → String → (String → Bool) → Task P (List String)
  sweep_until_empty passes now user matches =
      sweep_rounds passes now user matches (suc max_revoke_passes) []

  unfoldable pub revoke_session : Passes P → ℕ → String → String → Task P Unit
  unfolding sweep_rounds
  revoke_session passes now user session =
      sweep_until_empty passes now user (λ key. key == session) >>= λ _. pure tt

  unfoldable pub revoke_other_sessions : Passes P → ℕ → String → String → Task P ℕ
  unfolding sweep_rounds
  revoke_other_sessions passes now user keep =
      sweep_until_empty passes now user (λ key. not (key == keep)) >>= λ revoked.
      pure (length revoked)

  -- A row that was written before tokens were hashed lives under the token itself.
  unfoldable pub revoke_token : String → World P → World P
  unfolding revoke_key key_of may_be_legacy_key
  revoke_token token w =
      let once = revoke_key (key_of crypto config token) w in
      if may_be_legacy_key crypto config token then revoke_key token once else once

  abbrev pub is_access_entry : Entry P → Bool
  is_access_entry (state, key) = not (is_refresh state.rest.kind)

  abbrev pub issued_at_of : Entry P → ℕ
  issued_at_of (state, key) = state.rest.issued_at

  -- `entries.slice(0, n)`
  unfoldable pub take : ℕ → List (Entry P) → List (Entry P)
  take zero entries = []
  take (suc n) [] = []
  take (suc n) (e ∷ es) = e ∷ take n es

  unfoldable pub make_room : ℕ → List (Entry P) → Task P Unit
  unfolding sort_by take revoke_keys
  make_room limit active = if ltb (length active) limit then pure tt else elim config.on_limit [
    | reject ↦ raise max_concurrent_reached
    | evict_oldest ↦
        change (revoke_keys (take (length active - limit + 1) (sort_by issued_at_of active)))
  ]

  unfoldable pub enforce_concurrency_limit : ℕ → String → Task P Unit
  unfolding listing make_room
  enforce_concurrency_limit now user = elim config.max_concurrent [
    | none ↦ pure tt
    | some limit ↦ listing now user >>= λ all. make_room limit (filter is_access_entry all)
  ]
