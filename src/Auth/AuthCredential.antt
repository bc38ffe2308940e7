-- ===== src/Auth/AuthCredential.antt =====
-- packages/auth/src/credential/auth-credential.ts and types.ts: what `AuthCredential` keeps, and the
-- way from a token to the key of its row. The store is the one in memory, which enumerates. Time is
-- the argument `now`, random values are drawn from a supply, and what Node's crypto answers is the
-- record `Crypto`.
pub mod Cache
pub mod Revocation
pub mod Issuance
pub mod Validation
pub mod Finding
pub mod Refreshing
pub mod Refresh
mod Tests
use aoothjs.Base.{
  all, units, ℕ, zero, suc, ◌+◌, ◌-◌, ◌≤◌, ◌<◌, ◌≡◌, refl, sym, ap, ◌∙◌, ◌≢◌, ◌↔◌, ◌⊎◌, inl, inr,
  String, Bool, true, false, not, ◌&&◌, ◌||◌, Option, none, some, List, [], ◌∷◌, ◌++◌, map, arith,
  ltb, leb, nat_beq, ltb→lt, lt→ltb, leb→le, le→leb, nat_beq_iff, Bool-cases, Option-cases,
  if◌then◌else◌, length, any, filter, or_else, length-append, length-filter-le, Text, text_eq,
  nat_eq, All-map, All-append, All_right, string_eq, ◌==◌, ==_refl, eq_of_==, All,
}
use aoothjs.Auth.Credentials.{CredentialState, CredentialStore, persist, persist_as, retrieve}
use aoothjs.Auth.Denylist.{Denylist}
use aoothjs.Auth.AuthCredential.Cache.{ValidateCache}
use aoothjs.RateLimit.Rules.Numbers.{is_space}

pub data Kind : Type 0 where
  access refresh : Kind

pub data Rotation : Type 0 where
  never always sliding : Rotation

-- `labels` stands for the fields that are only carried along
pub record Metadata : Type 0 where
  pub credential_kind : Option String
  pub access_ttl : Option ℕ
  pub refresh_rotation : Option Rotation
  pub rotation_grace_ms : Option ℕ
  pub labels : List (String × String)

pub record Successor : Type 0 where
  pub access_token : String
  pub access_expires_at : ℕ
  pub refresh_token : String
  pub refresh_expires_at : ℕ

-- the fields of a state that the store does not read, and the payload
pub record Envelope (P : Type 0) : Type 0 where
  pub issued_at : ℕ
  pub kind : Option Kind
  pub metadata : Option Metadata
  pub parent_credential_id : Option String
  pub rotated_at : Option ℕ
  pub successor : Option Successor
  pub session_id : Option String
  pub payload : P

abbrev pub State : Type 0 → Type 0
State P = CredentialState (Envelope P)

abbrev pub is_refresh : Option Kind → Bool
is_refresh none = false
is_refresh (some access) = false
is_refresh (some refresh) = true

pub data HashAtRest : Type 0 where
  plain hashed migrate : HashAtRest

pub data OnLimit : Type 0 where
  reject evict_oldest : OnLimit

pub data TrackLastSeen : Type 0 where
  untracked on_refresh on_validate : TrackLastSeen

pub data ReuseResponse : Type 0 where
  one_session whole_user : ReuseResponse

pub record RefreshConfig : Type 0 where
  pub ttl : ℕ
  pub rotation : Option Rotation
  pub rotation_grace_ms : Option ℕ
  pub reuse_response : Option ReuseResponse

pub record Config : Type 0 where
  pub access_ttl : ℕ
  pub refresh : Option RefreshConfig
  pub max_concurrent : Option ℕ
  pub on_limit : OnLimit
  pub track_last_seen : TrackLastSeen
  pub hash_at_rest : HashAtRest
  pub generates : Bool

-- SHA-256 in hex, the supply of random tokens and ids, AES-GCM under a key that is derived from a
-- token, and `isLegacyToken`
pub record Crypto : Type 0 where
  pub fingerprint : String → String
  pub random : ℕ → String
  pub encrypt : String → String → String
  pub decrypt : String → String → Option String
  pub is_legacy_token : String → Bool

-- what an `AuthCredential` can change; `drawn` counts the random values
pub record World (P : Type 0) : Type 0 where
  pub store : CredentialStore (Envelope P)
  pub cache : Option (ValidateCache (State P))
  pub denylist : Option Denylist
  pub drawn : ℕ

pub data AuthError : Type 0 where
  invalid_token refresh_reuse_detected max_concurrent_reached invalid_config not_converged :
      AuthError

pub data Result (A : Type 0) : Type 0 where
  ok : A → Result A
  err : AuthError → Result A

abbrev pub Task : Type 0 → Type 0 → Type 0
Task P A = World P → Result A × World P

-- What others do to the world while a call awaits its k-th answer
abbrev pub Between : Type 0 → Type 0
Between P = ℕ → World P → World P

module _ {P : Type 0} where
  abbrev pub pure : {A : Type 0} → A → Task P A
  pure a w = (ok a, w)

  abbrev pub raise : {A : Type 0} → AuthError → Task P A
  raise e w = (err e, w)

  abbrev pub raise_if : Bool → AuthError → Task P Unit
  raise_if true e w = (err e, w)
  raise_if false e w = (ok tt, w)

  abbrev pub gets : {A : Type 0} → (World P → A) → Task P A
  gets f w = (ok (f w), w)

  abbrev pub change : (World P → World P) → Task P Unit
  change f w = (ok tt, f w)

  -- what comes after an await: nothing when it has thrown
  abbrev pub continue : {A B : Type 0} → (A → Task P B) → Result A × World P → Result B × World P
  continue f (ok a, w) = f a w
  continue f (err e, w) = (err e, w)

  infixl 5 ◌>>=◌ ◌>>◌
  abbrev pub ◌>>=◌ : {A B : Type 0} → Task P A → (A → Task P B) → Task P B
  ◌>>=◌ m f w = continue f (m w)

  abbrev pub ◌>>◌ : {A B : Type 0} → Task P A → Task P B → Task P B
  m >> k = m >>= λ _. k

  -- what a task that has not thrown has gone through
  pub continue_inv :
      {A B : Type 0} (f : A → Task P B) (r : Result A × World P) {b : B} {after : World P}
      → continue f r ≡ (ok b, after)
      → (a : A) × (w : World P) × (r ≡ (ok a, w)) × (f a w ≡ (ok b, after))
  continue_inv f (ok a, w) h = (a, w, refl, h)
  continue_inv f (err e, w) h = absurd (ground arith)

  pub >>=-ok :
      {A B : Type 0} (m : Task P A) (f : A → Task P B) (w : World P) {a : A} {t : World P}
      → m w ≡ (ok a, t)
      → (m >>= f) w ≡ f a t
  >>=-ok m f w e = ap (continue f) e

  -- `finally`: the change is made whether or not the task has thrown
  abbrev pub finally : {A : Type 0} → (World P → World P) → Result A × World P → Result A × World P
  finally f (r, w) = (r, f w)

abbrev pub is_hex : ℕ → Bool
is_hex c = (leb 48 c && leb c 57) || (leb 97 c && leb c 102) || (leb 65 c && leb c 70)

-- `HASHED_KEY`
unfoldable pub is_hashed_key : String → Bool
unfolding units
is_hashed_key token = nat_beq (length (units token)) 64 && all is_hex (units token)

abbrev pub is_plain : HashAtRest → Bool
is_plain plain = true
is_plain hashed = false
is_plain migrate = false

abbrev pub is_migrating : HashAtRest → Bool
is_migrating plain = false
is_migrating hashed = false
is_migrating migrate = true

module _ (crypto : Crypto) (config : Config) where
  unfoldable pub key_of : String → String
  key_of token = if is_plain config.hash_at_rest then token else crypto.fingerprint token

  unfoldable pub fingerprint_of_key : String → String
  unfolding is_hashed_key
  fingerprint_of_key key =
      if not (is_plain config.hash_at_rest) && is_hashed_key key
      then key
      else crypto.fingerprint key

  unfoldable pub may_be_legacy_key : String → Bool
  unfolding is_hashed_key units is_space
  may_be_legacy_key token =
      is_migrating config.hash_at_rest
      && not (is_hashed_key token)
      && not (any is_space (units token))
      && crypto.is_legacy_token token

  module _ {P : Type 0} where
    abbrev pub stored_under : World P → CredentialStore (Envelope P) → World P
    stored_under w store = record w { store = store; drawn = suc w.drawn }

    -- `put`: the token that the client will hold
    unfoldable pub put_token : ℕ → State P → Option ℕ → Task P String
    unfolding persist persist_as key_of
    put_token now state ttl w =
        let token = crypto.random w.drawn in
        let minted = persist now token state ttl w.store in
        if is_plain config.hash_at_rest && not config.generates
        then (ok minted.0, stored_under w minted.1)
        else (ok token, stored_under w (persist_as now (key_of token) state ttl w.store))

    unfoldable pub retrieve_key : ℕ → String → Task P (Option (State P))
    unfolding retrieve
    retrieve_key now key w =
        let (found, store) = retrieve now key w.store in (ok found, record w { store = store })

    abbrev pub found_under : String → Option (State P) → Option (String × State P)
    found_under key none = none
    found_under key (some state) = some (key, state)

    -- by the key of the token, then by the token itself where that may be a row's key
    unfoldable pub find : ℕ → String → Task P (Option (String × State P))
    unfolding retrieve_key key_of may_be_legacy_key
    find now token = do
      state ← retrieve_key now (key_of token)
      elim state [
        | some s ↦ pure (some (key_of token, s))
        | none ↦
            if may_be_legacy_key token
            then (retrieve_key now token >>= λ legacy. pure (found_under token legacy))
            else pure none
      ]
