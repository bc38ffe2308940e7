-- ===== src/Auth/AuthCredential/Validation/Raced.antt =====
-- packages/auth/src/credential/auth-credential.ts: the epoch of the cache keeps a validation from
-- caching what a revocation has deleted meanwhile.
use mathlib.Core.Path.{subst}
use aoothjs.Base.{
  ℕ, ◌<◌, ◌≡◌, refl, sym, ap, ◌∙◌, inl, inr, String, Bool, false, ◌||◌, Option, none, some, arith,
  leb, nat_beq, Bool-cases, Option-cases, text_eq, nat_eq, string_eq, eq_of_==,
}
use aoothjs.Base.Assoc.{get}
use aoothjs.Base.Assoc.Laws.{get-put}
use aoothjs.Auth.Credentials.{CredentialStore, touch}
use aoothjs.Auth.AuthCredential.Cache.{ValidateCache, cache_delete}
use aoothjs.Auth.AuthCredential.{
  State, is_refresh, Config, TrackLastSeen, untracked, on_refresh, on_validate, Crypto, World, ok,
  Between, Envelope, change, continue, ◌>>=◌, ◌>>◌, key_of, may_be_legacy_key,
}
use aoothjs.Auth.AuthCredential.Finding.{find-answers}
use aoothjs.Auth.AuthCredential.Revocation.{on_cache, revoke_key, revoke_token}
use aoothjs.Auth.AuthCredential.Revocation.Alone.{row, alone}
use aoothjs.Auth.AuthCredential.Validation.{
  epoch_of, remember, is_denied, stamp_seen, accept, judge, validate,
}
use aoothjs.Auth.AuthCredential.Validation.Dead.{
  cached, IsDead, revoke_token-IsDead, is_denied-answers, read_and_judge, validate_uncached,
  validate-dead,
}

-- the second cache has moved its epoch past the first one's
abbrev IsAhead : {S : Type 0} → Option (ValidateCache S) → Option (ValidateCache S) → Type 0
IsAhead a none = Unit
IsAhead none (some d) = ⊥
IsAhead (some c) (some d) = c.epoch < d.epoch

module _ {S : Type 0} where
  IsAhead-forgotten :
      (key : String) (a : Option (ValidateCache S)) → IsAhead a (on_cache (cache_delete key) a)
  unfolding cache_delete
  IsAhead-forgotten key none = tt
  IsAhead-forgotten key (some c) = omega arith

  IsAhead-further :
      (key : String) (a b : Option (ValidateCache S))
      → IsAhead a b
      → IsAhead a (on_cache (cache_delete key) b)
  unfolding cache_delete
  IsAhead-further key a none h = tt
  IsAhead-further key none (some d) h = h
  IsAhead-further key (some c) (some d) h = omega (arith, h)

  unremembered :
      (a b : Option (ValidateCache S)) (now : ℕ) (key : String) (state : S)
      → IsAhead a b
      → remember (epoch_of a) now key state b ≡ b
  unfolding remember
  unremembered a none now key state h = refl
  unremembered none (some d) now key state h = refl
  unremembered (some c) (some d) now key state h =
      let moved : nat_beq d.epoch c.epoch ≡ false = ground (arith, h) in rw moved refl

module _ {P : Type 0} where
  IsAhead-key : (key : String) (w : World P) → IsAhead w.cache (revoke_key key w).cache
  unfolding revoke_key
  IsAhead-key key w =
      IsAhead-further key w.cache (on_cache (cache_delete key) w.cache)
        (IsAhead-forgotten key w.cache)

  IsAhead-again :
      (key : String) (a : Option (ValidateCache (State P))) (w : World P)
      → IsAhead a w.cache
      → IsAhead a (revoke_key key w).cache
  unfolding revoke_key
  IsAhead-again key a w h =
      IsAhead-further key a (on_cache (cache_delete key) w.cache) (IsAhead-further key a w.cache h)

  get-touch :
      (key other : String) (now : ℕ) (s : CredentialStore (Envelope P))
      → get other s.states ≡ none
      → get other (touch key now s).states ≡ none
  unfolding touch
  get-touch key other now s h = elim (Option-cases (get key s.states)) [
    | inl absent ↦ rw (absent, touch) h
    | inr (state, there) ↦
        rw (there, touch)
          (ground (
            arith,
            get-put key other (record state { last_seen_at = some now }) s.states,
            eq_of_== key other,
            h,
            there,
          ))
  ]

  -- noting when a token was seen brings no row back, and leaves the cache
  stamp : TrackLastSeen → ℕ → String → World P → World P
  stamp track now key w = elim track [
    | untracked ↦ w
    | on_refresh ↦ w
    | on_validate ↦ record w { store = touch key now w.store }
  ]

  row-stamp :
      (track : TrackLastSeen) (now : ℕ) (key other : String) (w : World P)
      → row other w ≡ none
      → row other (stamp track now key w) ≡ none
  unfolding stamp
  row-stamp untracked now key other w h = h
  row-stamp on_refresh now key other w h = h
  row-stamp on_validate now key other w h = get-touch key other now w.store h

  cache-stamp :
      (track : TrackLastSeen) (now : ℕ) (key : String) (w : World P)
      → (stamp track now key w).cache ≡ w.cache
  unfolding stamp
  cache-stamp untracked now key w = refl
  cache-stamp on_refresh now key w = refl
  cache-stamp on_validate now key w = refl

module _ (crypto : Crypto) (config : Config) {P : Type 0} where
  IsAhead-revoked :
      (token : String) (w : World P) → IsAhead w.cache (revoke_token crypto config token w).cache
  unfolding revoke_token
  IsAhead-revoked token w = elim (Bool-cases (may_be_legacy_key crypto config token)) [
    | inl legacy ↦ rw legacy (
        IsAhead-again token w.cache (revoke_key (key_of crypto config token) w)
          (IsAhead-key (key_of crypto config token) w))
    | inr other ↦ rw other (IsAhead-key (key_of crypto config token) w)
  ]

  stamped-IsDead :
      (now : ℕ) (key token : String) (w : World P)
      → IsDead crypto config token w
      → IsDead crypto config token (stamp_seen config now key w)
  unfolding stamp_seen stamp
  stamped-IsDead now key token w dead =
      let track = config.track_last_seen in
      record {
        unstored = row-stamp track now key (key_of crypto config token) w dead.unstored;
        no_legacy = λ legacy. row-stamp track now key token w (dead.no_legacy legacy);
        uncached =
            ap (cached (key_of crypto config token)) (cache-stamp track now key w) ∙ dead.uncached;
      }

  judge-IsDead :
      (a : Option (ValidateCache (State P))) (now : ℕ) (token : String) (denied : Bool)
      (found : Option (String × State P)) (w : World P)
      → IsAhead a w.cache
      → IsDead crypto config token w
      → IsDead crypto config token (judge crypto config now token (epoch_of a) denied found w).1
  unfolding judge accept
  judge-IsDead a now token denied none w ahead dead = dead
  judge-IsDead a now token denied (some (key, state)) w ahead dead =
      elim (Bool-cases (denied || leb state.expires_at now || is_refresh state.rest.kind)) [
        | inl bad ↦ rw bad dead
        | inr good ↦
            let same = unremembered a w.cache now key state ahead in
            rw good (
              stamped-IsDead now key token
                (record w { cache = remember (epoch_of a) now key state w.cache })
                (record {
                  unstored = dead.unstored;
                  no_legacy = dead.no_legacy;
                  uncached = ap (cached (key_of crypto config token)) same ∙ dead.uncached;
                }))
      ]

  -- A token that is revoked while a validation of it reads the store is validated as nothing from
  -- then on, at any time, if the cache did not have it when that validation began: the first
  -- validation leaves nothing in the cache.
  pub validate-raced :
      (now later : ℕ) (token : String) (w : World P)
      → cached (key_of crypto config token) w.cache ≡ none
      → (validate crypto config alone later token
          (validate crypto config (λ _. revoke_token crypto config token) now token w).1).0
        ≡ ok none
  unfolding read_and_judge
  validate-raced now later token w missed =
      let revoking : Between P = λ _. revoke_token crypto config token in
      let (found, w1, search, cache1) = find-answers crypto config now token w in
      let (denied, w2, answered, rows, cache2) = is_denied-answers crypto config now token w1 in
      let run : validate crypto config revoking now token w
          ≡ judge crypto config now token (epoch_of w.cache) denied found
              (revoke_token crypto config token w2) =
        validate_uncached crypto config revoking now token w missed
        ∙ ap
            (continue (λ found. is_denied now token >>= λ denied.
              change (revoking 0) >> judge crypto config now token (epoch_of w.cache) denied found))
            search
        ∙ ap
            (continue (λ denied.
              change (revoking 0) >> judge crypto config now token (epoch_of w.cache) denied found))
            answered in
      let ahead : IsAhead w.cache (revoke_token crypto config token w2).cache =
        subst (λ c. IsAhead c (revoke_token crypto config token w2).cache) (cache2 ∙ cache1)
          (IsAhead-revoked token w2) in
      validate-dead crypto config alone later token (validate crypto config revoking now token w).1
        (subst (λ r. IsDead crypto config token r.1) (sym run)
          (judge-IsDead w.cache now token denied found (revoke_token crypto config token w2) ahead
            (revoke_token-IsDead crypto config token w2)))
