-- ===== src/Auth/AuthCredential/Validation/Dead.antt =====
-- packages/auth/src/credential/auth-credential.ts: a revoked token, in `validate`, also when the
-- revocation runs while `validate` reads.
use aoothjs.Base.{
  ℕ, ◌≡◌, refl, sym, ap, ◌∙◌, inl, inr, String, Bool, true, Option, none, some, arith, leb,
  Bool-cases, Option-cases, if◌then◌else◌, text_eq, nat_eq, string_eq, ==_refl,
}
use aoothjs.Base.Assoc.{get}
use aoothjs.Base.Assoc.Laws.{get-delete}
use aoothjs.Auth.AuthCredential.Cache.{ValidateCache, CacheEntry, cache_get, cache_delete}
use aoothjs.Auth.AuthCredential.{
  State, Config, Crypto, World, Result, ok, Task, Between, pure, gets, change, continue, ◌>>=◌,
  ◌>>◌, key_of, may_be_legacy_key, find,
}
use aoothjs.Auth.AuthCredential.Finding.{find-none}
use aoothjs.Auth.AuthCredential.Revocation.{on_cache, forget, revoke_key, revoke_token}
use aoothjs.Auth.AuthCredential.Revocation.Alone.{row, row-revoke_key}
use aoothjs.Auth.AuthCredential.Validation.{
  AuthContext, epoch_of, lookup, is_denied, accept, judge, validate,
}

module _ {P : Type 0} where
  abbrev pub cached : String → Option (ValidateCache (State P)) → Option (CacheEntry (State P))
  cached key none = none
  cached key (some c) = get key c.entries

-- neither the store nor the cache has the token
pub record IsDead (crypto : Crypto) (config : Config) (token : String) {P : Type 0} (w : World P)
    : Type 0 where
  pub unstored : row (key_of crypto config token) w ≡ none
  pub no_legacy : may_be_legacy_key crypto config token ≡ true → row token w ≡ none
  pub uncached : cached (key_of crypto config token) w.cache ≡ none

module _ {P : Type 0} where
  cached-forget :
      (key : String) (cache : Option (ValidateCache (State P)))
      → cached key (on_cache (cache_delete key) cache) ≡ none
  unfolding cache_delete
  cached-forget key none = refl
  cached-forget key (some c) = ground (arith, get-delete key key c.entries, ==_refl key)

  kept_forgotten :
      (key other : String) (cache : Option (ValidateCache (State P)))
      → cached key cache ≡ none
      → cached key (on_cache (cache_delete other) cache) ≡ none
  unfolding cache_delete
  kept_forgotten key other none h = refl
  kept_forgotten key other (some c) h = ground (arith, get-delete other key c.entries, h)

  cached-revoke_key : (key : String) (w : World P) → cached key (revoke_key key w).cache ≡ none
  unfolding revoke_key
  cached-revoke_key key w = cached-forget key (on_cache (cache_delete key) w.cache)

  pub still_uncached :
      (key other : String) (w : World P)
      → cached key w.cache ≡ none
      → cached key (revoke_key other w).cache ≡ none
  unfolding revoke_key
  still_uncached key other w h =
      kept_forgotten key other (on_cache (cache_delete other) w.cache)
        (kept_forgotten key other w.cache h)

module _ (crypto : Crypto) (config : Config) {P : Type 0} where
  pub revoke_token-IsDead :
      (token : String) (w : World P)
      → IsDead crypto config token (revoke_token crypto config token w)
  unfolding revoke_token
  revoke_token-IsDead token w =
      let key = key_of crypto config token in
      let once = revoke_key key w in
      let gone : row key once ≡ none = ground (arith, row-revoke_key key key w, ==_refl key) in
      elim (Bool-cases (may_be_legacy_key crypto config token)) [
        | inl legacy ↦ rw legacy (record {
          unstored = ground (arith, row-revoke_key token key once, gone);
          no_legacy = λ _. ground (arith, row-revoke_key token token once, ==_refl token);
          uncached = still_uncached key token once (cached-revoke_key key w);
        })
        | inr other ↦ rw other (record {
          unstored = gone;
          no_legacy = λ legacy. absurd (ground (arith, legacy, other));
          uncached = cached-revoke_key key w;
        })
      ]

module _ {P : Type 0} where
  look :
      ℕ → String → World P → Option (ValidateCache (State P)) → Result (Option (State P)) × World P
  look now key w cache = elim cache [
    | none ↦ (ok none, w)
    | some c ↦
        let (found, after) = cache_get now key c in (ok found, record w { cache = some after })
  ]

  cache_missed :
      (now : ℕ) (key : String) (c : ValidateCache (State P))
      → get key c.entries ≡ none
      → cache_get now key c ≡ (none, c)
  unfolding cache_get
  cache_missed now key c h = rw (h, cache_get) refl

  lookup-look : (now : ℕ) (key : String) (w : World P) → lookup now key w ≡ look now key w w.cache
  unfolding lookup look
  lookup-look now key w = refl

  lookup_missed :
      (now : ℕ) (key : String) (w : World P)
      → cached key w.cache ≡ none
      → lookup now key w ≡ (ok none, w)
  unfolding look
  lookup_missed now key w h = lookup-look now key w ∙ elim (Option-cases w.cache) [
    | inl no_cache ↦ ap (look now key w) no_cache
    | inr (c, there) ↦
        let missed : get key c.entries ≡ none = sym (ap (cached key) there) ∙ h in
        let same : (ok none, record w { cache = some c }) ≡ (ok none, w) =
          ap {B = Result (Option (State P)) × World P} (λ x. (ok none, record w { cache = x }))
            (sym there) in
        ap (look now key w) there
        ∙ ap {B = Result (Option (State P)) × World P}
            (λ r. (ok r.0, record w { cache = some r.1 })) (cache_missed now key c missed)
        ∙ same
  ]

module _ (crypto : Crypto) (config : Config) {P : Type 0} where
  pub is_denied-answers :
      (now : ℕ) (token : String) (w : World P)
      → (denied : Bool) × (after : World P) × (is_denied now token w ≡ (ok denied, after))
        × ((key : String) → row key after ≡ row key w)
        × (after.cache ≡ w.cache)
  unfolding is_denied
  is_denied-answers now token w = elim (Option-cases w.denylist) [
    | inl no_list ↦ rw (no_list, is_denied) (_, _, refl, (λ key. refl), refl)
    | inr (d, there) ↦ rw (there, is_denied) (_, _, refl, (λ key. refl), refl)
  ]

  -- what `validate` does when the cache has nothing
  unfoldable pub read_and_judge : Between P → ℕ → String → Task P (Option (AuthContext P))
  read_and_judge between now token = do
    epoch ← gets (λ w. epoch_of w.cache)
    found ← find crypto config now token
    denied ← is_denied now token
    change (between 0)
    judge crypto config now token epoch denied found

  pub validate_uncached :
      (between : Between P) (now : ℕ) (token : String) (w : World P)
      → cached (key_of crypto config token) w.cache ≡ none
      → validate crypto config between now token w ≡ read_and_judge between now token w
  unfolding validate read_and_judge
  validate_uncached between now token w h =
      ap
        (continue (λ c. elim c as (λ _. Task P (Option (AuthContext P))) [
          | some state ↦
              if leb state.expires_at now
              then (change (forget (key_of crypto config token)) >> pure none)
              else accept crypto config now token (key_of crypto config token) state
          | none ↦ read_and_judge between now token
        ]))
        (lookup_missed now (key_of crypto config token) w h)

  -- a token that is dead is validated as nothing, whatever others do meanwhile
  pub validate-dead :
      (between : Between P) (now : ℕ) (token : String) (w : World P)
      → IsDead crypto config token w
      → (validate crypto config between now token w).0 ≡ ok none
  unfolding read_and_judge judge
  validate-dead between now token w dead =
      let (denied, after, answered, same, cache) = is_denied-answers now token w in
      ap (λ r. r.0)
        (validate_uncached between now token w dead.uncached
          ∙ ap
              (continue (λ found. is_denied now token >>= λ denied.
                change (between 0)
                >> judge crypto config now token (epoch_of w.cache) denied found))
              (find-none crypto config now token w dead.unstored dead.no_legacy)
          ∙ ap
              (continue (λ denied.
                change (between 0) >> judge crypto config now token (epoch_of w.cache) denied none))
              answered)
