-- ===== src/Auth/AuthCredential/Issuance.antt =====
-- packages/auth/src/credential/auth-credential.ts: `issue`, the tests of its options and what it
-- stamps on a session's metadata.
use aoothjs.Base.{
  ℕ, suc, ◌+◌, ◌-◌, String, Bool, true, false, not, ◌&&◌, ◌||◌, Option, none, some, [], leb,
  nat_beq, if◌then◌else◌, or_else, or_default, text_eq, nat_eq, string_eq,
}
use aoothjs.Auth.AuthCredential.{
  Kind, access, refresh, always, Metadata, State, RefreshConfig, Config, Crypto, invalid_config,
  Task, pure, raise_if, ◌>>=◌, ◌>>◌, put_token, ok,
}
use aoothjs.Auth.AuthCredential.Revocation.{enforce_concurrency_limit}

-- `refresh?: false | { ttl?, graceMs? }`
pub data RefreshOption : Type 0 where
  by_config no_refresh : RefreshOption
  per_mint : Option ℕ → Option ℕ → RefreshOption

pub record IssueOptions (P : Type 0) : Type 0 where
  pub metadata : Option Metadata
  pub session_id : Option String
  pub ttl : Option ℕ
  pub expires_at : Option ℕ
  pub kind : Option String
  pub refresh : RefreshOption
  pub payload : P

pub record IssueResult : Type 0 where
  pub access_token : String
  pub refresh_token : Option String
  pub access_expires_at : ℕ
  pub refresh_expires_at : Option ℕ

abbrev pub is_given : {A : Type 0} → Option A → Bool
is_given none = false
is_given (some a) = true

abbrev pub is_zero : Option ℕ → Bool
is_zero none = false
is_zero (some n) = nat_beq n 0

abbrev pub config_ttl : Option RefreshConfig → Option ℕ
config_ttl none = none
config_ttl (some config) = some config.ttl

-- the lifetime of this mint's refresh token, none without one
unfoldable pub refresh_ttl_of : Option RefreshConfig → RefreshOption → Option ℕ
refresh_ttl_of config by_config = config_ttl config
refresh_ttl_of config no_refresh = none
refresh_ttl_of config (per_mint ttl grace) = or_else ttl (config_ttl config)

-- a refresh of its own needs a lifetime, above zero
unfoldable pub is_bad_refresh : Option RefreshConfig → RefreshOption → Bool
unfolding refresh_ttl_of
is_bad_refresh config by_config = false
is_bad_refresh config no_refresh = false
is_bad_refresh config (per_mint ttl grace) =
    let lifetime = refresh_ttl_of config (per_mint ttl grace) in
    not (is_given lifetime) || is_zero lifetime

abbrev pub is_per_mint : RefreshOption → Bool
is_per_mint by_config = false
is_per_mint no_refresh = false
is_per_mint (per_mint ttl grace) = true

abbrev pub grace_of : RefreshOption → Option ℕ
grace_of by_config = none
grace_of no_refresh = none
grace_of (per_mint ttl grace) = grace

abbrev pub no_metadata : Metadata
no_metadata = record {
  credential_kind = none;
  access_ttl = none;
  refresh_rotation = none;
  rotation_grace_ms = none;
  labels = [];
}

-- The kind of the credential, and what a family keeps from its mint: the lifetime of its access
-- tokens, the fixed ceiling and the grace of a refresh of its own.
unfoldable pub stamped : {P : Type 0} → Bool → IssueOptions P → Metadata → Metadata
stamped refreshes opts m = record m {
  credential_kind = or_else opts.kind m.credential_kind;
  access_ttl = if refreshes then or_else opts.ttl m.access_ttl else m.access_ttl;
  refresh_rotation = if is_per_mint opts.refresh then some always else m.refresh_rotation;
  rotation_grace_ms = or_else (grace_of opts.refresh) m.rotation_grace_ms;
}

unfoldable pub effective_metadata : {P : Type 0} → Bool → IssueOptions P → Option Metadata
unfolding stamped
effective_metadata refreshes opts =
    if is_given opts.kind || (refreshes && is_given opts.ttl) || is_per_mint opts.refresh
    then some (stamped refreshes opts (or_default no_metadata opts.metadata))
    else opts.metadata

-- the lifetime that is left; an expiry in the past stands in the state itself
abbrev pub store_ttl : ℕ → ℕ → Option ℕ
store_ttl now expires_at = if leb now expires_at then some (expires_at - now) else none

abbrev pub later_by : ℕ → Option ℕ → Option ℕ
later_by now none = none
later_by now (some ttl) = some (now + ttl)

module _ (crypto : Crypto) (config : Config) {P : Type 0} where
  -- a new random value, as `randomUUID` answers it
  abbrev pub draw : Task P String
  draw w = (ok (crypto.random w.drawn), record w { drawn = suc w.drawn })

  abbrev pub session_of : Option String → Task P String
  session_of none = draw
  session_of (some session) = pure session

  abbrev pub minted_state : ℕ → ℕ → Kind → String → Option Metadata → String → P → State P
  minted_state now expires_at kind user metadata session payload = record {
    user_id = user;
    expires_at = expires_at;
    last_seen_at = none;
    rest = record {
      issued_at = now;
      kind = some kind;
      metadata = metadata;
      parent_credential_id = none;
      rotated_at = none;
      successor = none;
      session_id = some session;
      payload = payload;
    };
  }

  unfoldable pub access_expiry : ℕ → IssueOptions P → ℕ
  access_expiry now opts = or_default (now + or_default config.access_ttl opts.ttl) opts.expires_at

  -- the refresh token of a mint that has one
  unfoldable pub put_refresh :
      ℕ → String → Option Metadata → String → P → Option ℕ → Task P (Option String)
  unfolding put_token
  put_refresh now user metadata session payload none = pure none
  put_refresh now user metadata session payload (some ttl) =
      put_token crypto config now
        (minted_state now (now + ttl) refresh user metadata session payload) (some ttl)
      >>= λ token. pure (some token)

  unfoldable pub mint : ℕ → String → IssueOptions P → Option ℕ → Task P IssueResult
  unfolding put_token put_refresh effective_metadata access_expiry
  mint now user opts refresh_ttl = do
    let metadata = effective_metadata (is_given refresh_ttl) opts
    let expires_at = access_expiry now opts
    session ← session_of opts.session_id
    access_token ←
        put_token crypto config now
          (minted_state now expires_at access user metadata session opts.payload)
          (store_ttl now expires_at)
    refresh_token ← put_refresh now user metadata session opts.payload refresh_ttl
    pure (record {
      access_token = access_token;
      refresh_token = refresh_token;
      access_expires_at = expires_at;
      refresh_expires_at = later_by now refresh_ttl;
    })

  unfoldable pub issue : ℕ → String → IssueOptions P → Task P IssueResult
  unfolding enforce_concurrency_limit is_bad_refresh refresh_ttl_of mint
  issue now user opts = do
    enforce_concurrency_limit crypto config now user
    raise_if (is_bad_refresh config.refresh opts.refresh) invalid_config
    raise_if (is_given opts.ttl && is_given opts.expires_at) invalid_config
    raise_if (is_zero opts.ttl) invalid_config
    mint now user opts (refresh_ttl_of config.refresh opts.refresh)
