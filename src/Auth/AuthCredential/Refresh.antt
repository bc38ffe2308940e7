-- ===== src/Auth/AuthCredential/Refresh.antt =====
-- packages/auth/src/credential/auth-credential.ts: `refresh` itself, put together from the parts of
-- Refreshing. `between` is what others do while a call awaits the store: `0` and `1` while the new
-- tokens are written, `2` while the old row is. The branches of a store that cannot enumerate are
-- left out, and so are the hooks that are told of a reuse or of a second delivery.
pub mod Reuse
pub mod Live
pub mod Written
pub mod Stored
use aoothjs.Base.{
  ℕ, zero, suc, ◌+◌, ◌-◌, ◌≤◌, ◌<◌, ◌≡◌, refl, sym, ap, ◌∙◌, ◌≢◌, ◌↔◌, ◌⊎◌, inl, inr, String, Bool,
  true, false, not, ◌&&◌, ◌||◌, Option, none, some, List, [], ◌∷◌, ◌++◌, map, arith, ltb, leb,
  nat_beq, ltb→lt, lt→ltb, leb→le, le→leb, nat_beq_iff, Bool-cases, Option-cases, if◌then◌else◌,
  length, any, filter, or_else, or_default, length-append, length-filter-le, Text, text_eq, nat_eq,
  All-map, All-append, All_right, string_eq, ◌==◌, ==_refl, eq_of_==, All,
}
use aoothjs.Auth.Credentials.{CredentialState}
use aoothjs.Auth.AuthCredential.{
  Kind, access, refresh, Rotation, never, always, sliding, Successor, Envelope, State, is_refresh,
  ReuseResponse, one_session, whole_user, RefreshConfig, Config, Crypto, World, AuthError,
  invalid_token, refresh_reuse_detected, invalid_config, Result, ok, err, Task, Between, pure,
  raise, raise_if, gets, change, continue, ◌>>=◌, ◌>>◌, put_token, find,
}
use aoothjs.Auth.AuthCredential.Revocation.{Passes, revoke_everything, revoke_session}
use aoothjs.Auth.AuthCredential.Issuance.{is_given, config_ttl}
use aoothjs.Auth.AuthCredential.Refreshing.{
  RefreshResult, from_config, rotation_of, grace_ms_of, is_rotated, open_successor,
  issue_access_from_refresh, assert_still_live, next_refresh, rotated, put_row, expiry_of,
  lifetime_of,
}

abbrev pub result_of : Successor → String → RefreshResult
result_of pair user = record {
  access_token = pair.access_token;
  access_expires_at = pair.access_expires_at;
  refresh_token = pair.refresh_token;
  refresh_expires_at = pair.refresh_expires_at;
  user_id = user;
}

abbrev pub opened_by : Crypto → Config → String → Option Successor → Option Successor
opened_by crypto config token none = none
opened_by crypto config token (some pair) = open_successor crypto config token pair

module _ (crypto : Crypto) (config : Config) {P : Type 0} where
  unfoldable pub refresh_none : Between P → ℕ → String → String → State P → Task P RefreshResult
  unfolding issue_access_from_refresh assert_still_live
  refresh_none between now token key old = do
    (access_token, expires_at) ← issue_access_from_refresh crypto config now old
    change (between 0)
    assert_still_live crypto config now key (access_token ∷ [])
    pure (record {
      access_token = access_token;
      access_expires_at = expires_at;
      refresh_token = token;
      refresh_expires_at = old.expires_at;
      user_id = old.user_id;
    })

  -- A new pair off an old refresh credential, which is stamped as rotated and keeps the pair.
  unfoldable pub rotate :
      Between P → ℕ → String → String → State P → Bool → ℕ → Task P RefreshResult
  unfolding issue_access_from_refresh put_token next_refresh put_row rotated assert_still_live
  rotate between now token key old preserve ttl = do
    let expires_at = expiry_of preserve now ttl old.expires_at
    (access_token, access_expires_at) ← issue_access_from_refresh crypto config now old
    change (between 0)
    refresh_token ←
        put_token crypto config now (next_refresh crypto config now old token expires_at)
          (some (lifetime_of preserve now ttl old.expires_at))
    change (between 1)
    let pair : Successor = record {
      access_token = access_token;
      access_expires_at = access_expires_at;
      refresh_token = refresh_token;
      refresh_expires_at = expires_at;
    }
    live_key ← put_row crypto config key (rotated crypto config now old token pair)
    change (between 2)
    assert_still_live crypto config now live_key (access_token ∷ refresh_token ∷ [])
    pure (result_of pair old.user_id)

  -- Sliding needs a lifetime to slide by.
  unfoldable pub issue_rotated_pair :
      Between P → ℕ → String → String → State P → Bool → Task P RefreshResult
  unfolding rotate
  issue_rotated_pair between now token key old preserve =
      raise_if (not preserve && not (is_given (config_ttl config.refresh))) invalid_config
      >> rotate between now token key old preserve (or_default 0 (config_ttl config.refresh))

  unfoldable pub revoke_for_reuse : Passes P → ℕ → State P → Task P Unit
  unfolding revoke_session revoke_everything
  revoke_for_reuse passes now old =
      elim (or_default one_session (from_config (λ c. c.reuse_response) config.refresh))
        as (λ _. Task P Unit) [
          | whole_user ↦ revoke_everything passes now old.user_id >>= λ _. pure tt
          | one_session ↦ elim old.rest.session_id as (λ _. Task P Unit) [
            | none ↦ revoke_everything passes now old.user_id >>= λ _. pure tt
            | some session ↦ revoke_session crypto config passes now old.user_id session
          ]
        ]

  unfoldable pub respond_to_refresh_reuse : Passes P → ℕ → State P → Task P RefreshResult
  unfolding revoke_for_reuse
  respond_to_refresh_reuse passes now old =
      revoke_for_reuse passes now old >> raise refresh_reuse_detected

  abbrev pub found_state : Option (String × State P) → Option (State P)
  found_state none = none
  found_state (some (key, state)) = some state

  -- The pair that a rotation has minted is delivered again so long as it is the last one.
  unfoldable pub redeliver : Passes P → ℕ → State P → Option Successor → Task P RefreshResult
  unfolding find respond_to_refresh_reuse
  redeliver passes now old none = respond_to_refresh_reuse passes now old
  redeliver passes now old (some pair) = do
    next ← find crypto config now pair.refresh_token
    if is_rotated (found_state next)
        then respond_to_refresh_reuse passes now old
        else pure (result_of pair old.user_id)

  unfoldable pub rotate_with_grace :
      Between P → Passes P → ℕ → String → String → State P → Bool → Task P RefreshResult
  unfolding issue_rotated_pair respond_to_refresh_reuse redeliver grace_ms_of open_successor
  rotate_with_grace between passes now token key old preserve =
      elim old.rest.rotated_at as (λ _. Task P RefreshResult) [
        | none ↦ issue_rotated_pair between now token key old preserve
        | some rotated_at ↦
            if leb (grace_ms_of config old) 0 || ltb (rotated_at + grace_ms_of config old) now
            then respond_to_refresh_reuse passes now old
            else redeliver passes now old (opened_by crypto config token old.rest.successor)
      ]

  unfoldable pub redeem :
      Rotation → Between P → Passes P → ℕ → String → String → State P → Task P RefreshResult
  unfolding refresh_none rotate_with_grace
  redeem never between passes now token key old = refresh_none between now token key old
  redeem always between passes now token key old =
      rotate_with_grace between passes now token key old true
  redeem sliding between passes now token key old =
      rotate_with_grace between passes now token key old false

  -- `guard` is the caller's test of the stored state: what it throws, if anything
  unfoldable pub refresh_tokens :
      (State P → Option AuthError) → Between P → Passes P → ℕ → String → Task P RefreshResult
  unfolding find rotation_of redeem
  refresh_tokens guard between passes now token = do
    found ← find crypto config now token
    elim found as (λ _. Task P RefreshResult) [
      | none ↦ raise invalid_token
      | some (key, old) ↦
          if not (is_refresh old.rest.kind)
          then raise invalid_token
          else elim (guard old) as (λ _. Task P RefreshResult) [
            | some e ↦ raise e
            | none ↦ redeem (rotation_of config old) between passes now token key old
          ]
    ]
