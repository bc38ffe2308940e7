-- ===== src/Auth/AuthCredential/Validation.antt =====
-- packages/auth/src/credential/auth-credential.ts: `validate`, with the opt-in cache of validated
-- states.
pub mod Dead
pub mod Raced
use aoothjs.Base.{
  ℕ, zero, suc, ◌+◌, ◌-◌, ◌≤◌, ◌<◌, ◌≡◌, refl, sym, ap, ◌∙◌, ◌≢◌, ◌↔◌, ◌⊎◌, inl, inr, String, Bool,
  true, false, not, ◌&&◌, ◌||◌, Option, none, some, List, [], ◌∷◌, ◌++◌, map, arith, ltb, leb,
  nat_beq, ltb→lt, lt→ltb, leb→le, le→leb, nat_beq_iff, Bool-cases, Option-cases, if◌then◌else◌,
  length, any, filter, or_else, or_default, length-append, length-filter-le, Text, text_eq, nat_eq,
  All-map, All-append, All_right, string_eq, ◌==◌, ==_refl, eq_of_==, All,
}
use aoothjs.Auth.Credentials.{CredentialState, touch}
use aoothjs.Auth.Denylist.{Denylist, has}
use aoothjs.Auth.AuthCredential.Cache.{ValidateCache, cache_get, cache_set, cache_delete}
use aoothjs.Auth.AuthCredential.Revocation.{on_cache, forget}
use aoothjs.Auth.AuthCredential.{
  Envelope, State, is_refresh, Config, TrackLastSeen, untracked, on_refresh, on_validate, Crypto,
  World, Task, Result, ok, Between, pure, gets, change, continue, ◌>>=◌, ◌>>◌, key_of,
  fingerprint_of_key, find,
}

pub record AuthContext (P : Type 0) : Type 0 where
  pub payload : P
  pub user_id : String
  pub credential_id : String
  pub session_id : String
  pub expires_at : ℕ

abbrev pub epoch_of : {S : Type 0} → Option (ValidateCache S) → Option ℕ
epoch_of none = none
epoch_of (some c) = some c.epoch

-- not when a revocation ran since the epoch was read
unfoldable pub remember :
    {S : Type 0} → Option ℕ → ℕ → String → S → Option (ValidateCache S) → Option (ValidateCache S)
unfolding cache_set
remember epoch now key state none = none
remember none now key state (some c) = some c
remember (some epoch) now key state (some c) =
    some (if nat_beq c.epoch epoch then cache_set now key state c else c)

module _ {P : Type 0} where
  unfoldable pub lookup : ℕ → String → Task P (Option (State P))
  unfolding cache_get
  lookup now key w = elim w.cache [
    | none ↦ (ok none, w)
    | some c ↦
        let (found, after) = cache_get now key c in (ok found, record w { cache = some after })
  ]

  unfoldable pub is_denied : ℕ → String → Task P Bool
  unfolding has
  is_denied now token w = elim w.denylist [
    | none ↦ (ok false, w)
    | some d ↦
        let (denied, after) = has now token d in (ok denied, record w { denylist = some after })
  ]

  unfoldable pub stamp_seen : Config → ℕ → String → World P → World P
  unfolding touch
  stamp_seen config now key w = elim config.track_last_seen [
    | untracked ↦ w
    | on_refresh ↦ w
    | on_validate ↦ record w { store = touch key now w.store }
  ]

module _ (crypto : Crypto) (config : Config) {P : Type 0} where
  unfoldable pub context_of : String → String → State P → AuthContext P
  unfolding fingerprint_of_key
  context_of token key state = record {
    payload = state.rest.payload;
    user_id = state.user_id;
    credential_id = if key == token then crypto.fingerprint token else key;
    session_id = or_default (fingerprint_of_key crypto config key) state.rest.session_id;
    expires_at = state.expires_at;
  }

  -- a state that is good is noted as seen and answered
  unfoldable pub accept : ℕ → String → String → State P → Task P (Option (AuthContext P))
  unfolding stamp_seen context_of
  accept now token key state = do
    change (stamp_seen config now key)
    pure (some (context_of token key state))

  -- what is read of a token whose state is not cached, by the epoch at which the reading began
  unfoldable pub judge :
      ℕ → String → Option ℕ → Bool → Option (String × State P) → Task P (Option (AuthContext P))
  unfolding remember accept
  judge now token epoch denied none = pure none
  judge now token epoch denied (some (key, state)) =
      if denied || leb state.expires_at now || is_refresh state.rest.kind then pure none else do
        change (λ w. record w { cache = remember epoch now key state w.cache })
        accept now token key state

  -- `between 0` is what others do while the store and the denylist are read
  unfoldable pub validate : Between P → ℕ → String → Task P (Option (AuthContext P))
  unfolding key_of lookup find is_denied judge accept cache_delete
  validate between now token = do
    cached ← lookup now (key_of crypto config token)
    elim cached [
      | some state ↦
          if leb state.expires_at now
          then (change (forget (key_of crypto config token)) >> pure none)
          else accept now token (key_of crypto config token) state
      | none ↦ do
        epoch ← gets (λ w. epoch_of w.cache)
        found ← find crypto config now token
        denied ← is_denied now token
        change (between 0)
        judge now token epoch denied found
    ]
