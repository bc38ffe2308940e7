-- ===== src/Auth/AuthCredential/Refresh/Live.antt =====
-- packages/auth/src/credential/auth-credential.ts: `assertStillLive`, the check after a mint, and the
-- row it has found.
use mathlib.Core.Path.{subst}
use aoothjs.Base.{
  ℕ, false, ◌==◌, ◌<◌, ◌≡◌, refl, sym, ap, ◌∙◌, inl, inr, String, Option, none, some, List, [], ◌∷◌,
  arith, leb, Bool-cases, text_eq, nat_eq, string_eq, ==_refl, All,
}
use aoothjs.Auth.Credentials.{retrieve}
use aoothjs.Auth.Credentials.Reads.{retrieved, get-retrieve, live_state}
use aoothjs.Auth.AuthCredential.{
  State, Config, Crypto, World, invalid_token, ok, err, Task, pure, raise, change, continue, ◌>>◌,
  key_of, may_be_legacy_key, retrieve_key,
}
use aoothjs.Auth.AuthCredential.Finding.{missing}
use aoothjs.Auth.AuthCredential.Revocation.{revoke_key, revoke_token}
use aoothjs.Auth.AuthCredential.Revocation.Alone.{row, row-revoke_key}
use aoothjs.Auth.AuthCredential.Validation.Dead.{IsDead, revoke_token-IsDead, still_uncached}
use aoothjs.Auth.AuthCredential.Refreshing.{revoke_tokens, assert_still_live}

module _ {P : Type 0} where
  -- a key without a row gets none by a revocation
  row_stays :
      (key other : String) (w : World P) → row other w ≡ none → row other (revoke_key key w) ≡ none
  row_stays key other w h = ground (arith, row-revoke_key key other w, h)

module _ (crypto : Crypto) (config : Config) {P : Type 0} where
  key_revoked :
      (key token : String) (w : World P)
      → IsDead crypto config token w
      → IsDead crypto config token (revoke_key key w)
  key_revoked key token w dead = record {
    unstored = row_stays key (key_of crypto config token) w dead.unstored;
    no_legacy = λ legacy. row_stays key token w (dead.no_legacy legacy);
    uncached = still_uncached (key_of crypto config token) key w dead.uncached;
  }

  -- a dead token stays so when another is revoked
  stays-IsDead :
      (other token : String) (w : World P)
      → IsDead crypto config token w
      → IsDead crypto config token (revoke_token crypto config other w)
  unfolding revoke_token
  stays-IsDead other token w dead =
      let once = key_revoked (key_of crypto config other) token w dead in
      elim (Bool-cases (may_be_legacy_key crypto config other)) [
        | inl legacy ↦
            rw legacy (key_revoked other token (revoke_key (key_of crypto config other) w) once)
        | inr plain ↦ rw plain once
      ]

  stay-IsDead :
      (tokens : List String) (token : String) (w : World P)
      → IsDead crypto config token w
      → IsDead crypto config token (revoke_tokens crypto config tokens w)
  unfolding revoke_tokens
  stay-IsDead [] token w dead = dead
  stay-IsDead (x ∷ tokens) token w dead =
      stay-IsDead tokens token (revoke_token crypto config x w) (stays-IsDead x token w dead)

  revoke_tokens-IsDead :
      (tokens : List String) (w : World P)
      → All (λ t. IsDead crypto config t (revoke_tokens crypto config tokens w)) tokens
  unfolding revoke_tokens
  revoke_tokens-IsDead [] w = tt
  revoke_tokens-IsDead (x ∷ tokens) w = (
    stay-IsDead tokens x (revoke_token crypto config x w) (revoke_token-IsDead crypto config x w),
    revoke_tokens-IsDead tokens (revoke_token crypto config x w),
  )

  -- Where the row that tokens were minted from is gone, the check after the mint refuses, and each
  -- of the tokens is neither in the store nor in the cache.
  pub assert_still_live-IsDead :
      (now : ℕ) (old_key : String) (minted : List String) (w : World P)
      → row old_key w ≡ none
      → (after : World P) × (assert_still_live crypto config now old_key minted w
          ≡ (err invalid_token, after))
        × All (λ t. IsDead crypto config t after) minted
  unfolding assert_still_live
  assert_still_live-IsDead now old_key minted w gone = (
    revoke_tokens crypto config minted w,
    ap
        (continue (λ found. elim found as (λ _. Task P Unit) [
          | some state ↦ pure tt
          | none ↦ change (revoke_tokens crypto config minted) >> raise invalid_token
        ]))
        (missing crypto config now old_key w gone),
    revoke_tokens-IsDead minted w,
  )

  -- the row is there, and has not expired
  abbrev pub IsLive : ℕ → String → World P → Type 0
  IsLive now key w = (state : State P) × (row key w ≡ some state) × (now < state.expires_at)

  live_found :
      (now : ℕ) (key : String) (minted : List String) (found : Option (State P)) (w : World P)
      {u : Unit} {after : World P}
      → (elim found as (λ _. Task P Unit) [
        | some state ↦ pure tt
        | none ↦ change (revoke_tokens crypto config minted) >> raise invalid_token
      ])
          w
        ≡ (ok u, after)
      → (state : State P) × (found ≡ some state) × (w ≡ after)
  live_found now key minted none w h = absurd (ground (arith, h))
  live_found now key minted (some state) w h = (state, refl, ap (λ r. r.1) h)

  in_time :
      (now : ℕ) (o : Option (State P)) {state : State P}
      → live_state now o ≡ some state
      → now < state.expires_at
  in_time now none h = absurd (ground (arith, h))
  in_time now (some s) {state} h = elim (Bool-cases (leb s.expires_at now)) [
    | inl gone ↦ absurd (ground (arith, simp gone at h))
    | inr live ↦
        let same : some s ≡ some state = simp live at h in
        let eq : s ≡ state = ground (arith, same) in
        subst (λ x. now < x.expires_at) eq (ground (arith, live))
  ]

  pub assert_still_live-IsLive :
      (now : ℕ) (key : String) (minted : List String) (w : World P) {u : Unit} {after : World P}
      → assert_still_live crypto config now key minted w ≡ (ok u, after)
      → IsLive now key after
  unfolding assert_still_live retrieve_key
  assert_still_live-IsLive now key minted w h =
      let (state, found, same) =
        live_found now key minted (retrieve now key w.store).0
          (record w { store = (retrieve now key w.store).1 }) h in
      let answered : live_state now (row key w) ≡ some state =
        sym (retrieved now key w.store) ∙ found in
      let kept : row key (record w { store = (retrieve now key w.store).1 }) ≡ some state =
        ground (arith, get-retrieve now key key w.store, ==_refl key, answered) in
      (state, sym (ap (row key) same) ∙ kept, in_time now (row key w) answered)

  -- the check after a mint leaves the other rows, where it answers
  pub assert_still_live-row :
      (now : ℕ) (key t : String) (minted : List String) (w : World P) {u : Unit} {after : World P}
      → (key == t) ≡ false
      → assert_still_live crypto config now key minted w ≡ (ok u, after)
      → row t after ≡ row t w
  unfolding assert_still_live retrieve_key
  assert_still_live-row now key t minted w other h =
      let (state, found, same) =
        live_found now key minted (retrieve now key w.store).0
          (record w { store = (retrieve now key w.store).1 }) h in
      sym (ap (row t) same) ∙ ground (arith, get-retrieve now key t w.store, other)
