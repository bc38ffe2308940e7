-- ===== src/Auth/AuthCredential/Refreshing.antt =====
-- packages/auth/src/credential/auth-credential.ts: `refresh`, its rotations, the grace window of a
-- rotated token, the answer to its reuse, and the check after the mint. The branches of a store that
-- cannot enumerate are left out, and so are the hooks that are told of a reuse or a grace hit.
use aoothjs.Base.{
  ℕ, zero, suc, ◌+◌, ◌-◌, String, Bool, true, false, ◌&&◌, ◌||◌, Option, none, some, List, [], ◌∷◌,
  nat_beq, if◌then◌else◌, or_else, or_default, units, Text, text_eq, nat_eq, string_eq,
}
use aoothjs.Auth.Credentials.{update}
use aoothjs.Auth.AuthCredential.{
  access, refresh, Rotation, always, sliding, Metadata, Successor, State, TrackLastSeen, untracked,
  on_refresh, on_validate, RefreshConfig, Config, Crypto, World, invalid_token, ok, Task, pure,
  raise, change, ◌>>=◌, ◌>>◌, is_plain, put_token, retrieve_key,
}
use aoothjs.Auth.AuthCredential.Revocation.{revoke_token}

pub record RefreshResult : Type 0 where
  pub access_token : String
  pub access_expires_at : ℕ
  pub refresh_token : String
  pub refresh_expires_at : ℕ
  pub user_id : String

abbrev pub default_rotation_grace_ms : ℕ
default_rotation_grace_ms = 30000

abbrev pub begins_with : Text → Text → Bool
begins_with [] text = true
begins_with (c ∷ prefix) [] = false
begins_with (c ∷ prefix) (d ∷ text) = nat_beq c d && begins_with prefix text

abbrev pub sealed_prefix : String
sealed_prefix = "enc1."

unfoldable pub is_sealed : String → Bool
unfolding units
is_sealed value = begins_with (units sealed_prefix) (units value)

-- `value.slice(n)`
unfoldable pub slice : ℕ → String → String
slice zero s = s
slice (suc n) String.[] = String.[]
slice (suc n) (String.◌∷◌ c s) = slice n s

-- `a + b`
unfoldable pub concat : String → String → String
concat String.[] t = t
concat (String.◌∷◌ c s) t = String.◌∷◌ c (concat s t)

-- the prefix, then what the cipher answers, its parts joined
unfoldable pub seal_token : Crypto → String → String → String
unfolding concat
seal_token crypto old_token token = concat sealed_prefix (crypto.encrypt old_token token)

unfoldable pub open_token : Crypto → String → String → Option String
unfolding is_sealed slice
open_token crypto token value =
    if is_sealed value then crypto.decrypt token (slice 5 value) else some value

-- what the metadata and the configuration say, in the order of their weight
abbrev pub from_metadata : {A : Type 0} → (Metadata → Option A) → Option Metadata → Option A
from_metadata f none = none
from_metadata f (some m) = f m

abbrev pub from_config : {A : Type 0} → (RefreshConfig → Option A) → Option RefreshConfig → Option A
from_config f none = none
from_config f (some c) = f c

abbrev pub config_rotation : Option RefreshConfig → Rotation
config_rotation none = always
config_rotation (some c) = or_default sliding c.rotation

module _ {P : Type 0} where
  unfoldable pub rotation_of : Config → State P → Rotation
  rotation_of config state =
      or_default (config_rotation config.refresh)
        (from_metadata (λ m. m.refresh_rotation) state.rest.metadata)

  unfoldable pub grace_ms_of : Config → State P → ℕ
  grace_ms_of config state = or_default default_rotation_grace_ms (
      or_else (from_metadata (λ m. m.rotation_grace_ms) state.rest.metadata)
        (from_config (λ c. c.rotation_grace_ms) config.refresh))

  abbrev pub is_rotated : Option (State P) → Bool
  is_rotated none = true
  is_rotated (some state) = elim state.rest.rotated_at [ none ↦ false | some at ↦ true ]

abbrev pub seen_at : TrackLastSeen → ℕ → Option ℕ
seen_at untracked now = none
seen_at on_refresh now = some now
seen_at on_validate now = none

-- when the new refresh token expires, and the lifetime that is left
abbrev pub expiry_of : Bool → ℕ → ℕ → ℕ → ℕ
expiry_of true now sliding_ttl expires_at = expires_at
expiry_of false now sliding_ttl expires_at = now + sliding_ttl

abbrev pub lifetime_of : Bool → ℕ → ℕ → ℕ → ℕ
lifetime_of true now sliding_ttl expires_at = expires_at - now
lifetime_of false now sliding_ttl expires_at = sliding_ttl

module _ (crypto : Crypto) (config : Config) where
  unfoldable pub seal_successor : String → Successor → Successor
  unfolding seal_token
  seal_successor old_token pair = if is_plain config.hash_at_rest then pair else record pair {
    access_token = seal_token crypto old_token pair.access_token;
    refresh_token = seal_token crypto old_token pair.refresh_token;
  }

  abbrev pub opened : Successor → Option String → Option String → Option Successor
  opened pair none refresh_token = none
  opened pair (some access_token) none = none
  opened pair (some access_token) (some refresh_token) =
      some (record pair { access_token = access_token; refresh_token = refresh_token })

  unfoldable pub open_successor : String → Successor → Option Successor
  unfolding is_sealed open_token
  open_successor token pair =
      if is_sealed pair.access_token || is_sealed pair.refresh_token
      then opened pair (open_token crypto token pair.access_token)
          (open_token crypto token pair.refresh_token)
      else some pair

  module _ {P : Type 0} where
    unfoldable pub access_ttl_of : State P → ℕ
    access_ttl_of state =
        or_default config.access_ttl (from_metadata (λ m. m.access_ttl) state.rest.metadata)

    -- the access credential that is minted off a refresh credential
    unfoldable pub next_access : ℕ → State P → State P
    unfolding access_ttl_of
    next_access now old = record {
      user_id = old.user_id;
      expires_at = now + access_ttl_of old;
      last_seen_at = seen_at config.track_last_seen now;
      rest = record {
        issued_at = now;
        kind = some access;
        metadata = old.rest.metadata;
        parent_credential_id = none;
        rotated_at = none;
        successor = none;
        session_id = old.rest.session_id;
        payload = old.rest.payload;
      };
    }

    unfoldable pub issue_access_from_refresh : ℕ → State P → Task P (String × ℕ)
    unfolding next_access access_ttl_of put_token
    issue_access_from_refresh now old =
        put_token crypto config now (next_access now old) (some (access_ttl_of old)) >>= λ token.
        pure (token, now + access_ttl_of old)

    unfoldable pub revoke_tokens : List String → World P → World P
    unfolding revoke_token
    revoke_tokens [] w = w
    revoke_tokens (token ∷ tokens) w = revoke_tokens tokens (revoke_token crypto config token w)

    -- The row that the tokens were minted from must still be there: when it is not, a revocation
    -- has run meanwhile, and the tokens are revoked.
    unfoldable pub assert_still_live : ℕ → String → List String → Task P Unit
    unfolding retrieve_key revoke_tokens
    assert_still_live now old_key minted = do
      found ← retrieve_key crypto config now old_key
      elim found [
        | some state ↦ pure tt
        | none ↦ change (revoke_tokens minted) >> raise invalid_token
      ]

    unfoldable pub next_refresh : ℕ → State P → String → ℕ → State P
    next_refresh now old old_token expires_at = record {
      user_id = old.user_id;
      expires_at = expires_at;
      last_seen_at = seen_at config.track_last_seen now;
      rest = record {
        issued_at = now;
        kind = some refresh;
        metadata = old.rest.metadata;
        parent_credential_id =
            some (if is_plain config.hash_at_rest then old_token else crypto.fingerprint old_token);
        rotated_at = none;
        successor = none;
        session_id = old.rest.session_id;
        payload = old.rest.payload;
      };
    }

    unfoldable pub rotated : ℕ → State P → String → Successor → State P
    unfolding seal_successor
    rotated now old old_token pair = record old {
      rest = record (old.rest) {
        rotated_at = some now;
        successor = some (seal_successor old_token pair);
      };
    }

    unfoldable pub put_row : String → State P → Task P String
    unfolding update
    put_row key state w =
        let (live_key, store) = update key state w.store in
        (ok live_key, record w { store = store })
