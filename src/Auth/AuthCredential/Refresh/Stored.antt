-- ===== src/Auth/AuthCredential/Refresh/Stored.antt =====
-- packages/auth/src/credential/auth-credential.ts: `issueRotatedPair`, what a rotation that answers
-- has left: the old row, and the row of the new refresh token.
use mathlib.Core.Path.{subst}
use aoothjs.Base.{
  ℕ, suc, ◌+◌, true, false, ◌==◌, if◌then◌else◌, ◌≤◌, ◌≡◌, refl, sym, ap, ◌∙◌, String, Bool, none,
  some, [], ◌∷◌, arith, text_eq, nat_eq, string_eq,
}
use aoothjs.Auth.AuthCredential.{
  Successor, State, Config, Crypto, World, ok, Task, Between, pure, change, continue_inv, ◌>>=◌,
  ◌>>◌, key_of, put_token,
}
use aoothjs.Auth.AuthCredential.Revocation.Alone.{row}
use aoothjs.Auth.AuthCredential.Refreshing.{
  RefreshResult, expiry_of, lifetime_of, issue_access_from_refresh, assert_still_live, next_refresh,
  rotated, put_row,
}
use aoothjs.Auth.AuthCredential.Refresh.{result_of, rotate}
use aoothjs.Auth.AuthCredential.Refresh.Live.{
  IsLive, assert_still_live-IsLive, assert_still_live-row,
}
use aoothjs.Auth.Credentials.{with_ttl}
use aoothjs.Auth.AuthCredential.Refresh.Written.{put_row_key, put_row-row, put_token-row}

abbrev pair_of : String → ℕ → String → ℕ → Successor
pair_of access access_expires_at refresh refresh_expires_at = record {
  access_token = access;
  access_expires_at = access_expires_at;
  refresh_token = refresh;
  refresh_expires_at = refresh_expires_at;
}

expiry_of-cases :
    (preserve : Bool) (now ttl expires_at : ℕ)
    → expiry_of preserve now ttl expires_at ≡ (if preserve then expires_at else now + ttl)
expiry_of-cases true now ttl expires_at = refl
expiry_of-cases false now ttl expires_at = refl

module _ (crypto : Crypto) (config : Config) {P : Type 0} where
  -- the rest of a rotation, once the new tokens are written
  finish : Between P → ℕ → Successor → String → String → Task P RefreshResult
  finish between now pair user live_key =
      change (between 2)
      >> (assert_still_live crypto config now live_key (pair.access_token ∷ pair.refresh_token ∷ [])
          >>= λ _. pure (result_of pair user))

  with_refresh :
      Between P → ℕ → String → String → State P → ℕ → String → ℕ → String → Task P RefreshResult
  with_refresh between now token key old expires_at access access_expires_at refresh =
      let pair = pair_of access access_expires_at refresh expires_at in
      change (between 1)
      >> (put_row crypto config key (rotated crypto config now old token pair)
          >>= finish between now pair old.user_id)

  with_access :
      Between P → ℕ → String → String → State P → Bool → ℕ → String × ℕ → Task P RefreshResult
  with_access between now token key old preserve ttl (access, access_expires_at) =
      let expires_at = expiry_of preserve now ttl old.expires_at in
      change (between 0)
      >> (put_token crypto config now (next_refresh crypto config now old token expires_at)
            (some (lifetime_of preserve now ttl old.expires_at))
          >>= with_refresh between now token key old expires_at access access_expires_at)

  -- the parts of a rotation that answers
  rotate-steps :
      (between : Between P) (now : ℕ) (token key : String) (old : State P) (preserve : Bool)
      (ttl : ℕ) (w after : World P) (r : RefreshResult)
      → rotate crypto config between now token key old preserve ttl w ≡ (ok r, after)
      → (pair : Successor) × (v : World P) × (w2 : World P) × (w3 : World P) × (u : Unit)
        × (put_token crypto config now
              (next_refresh crypto config now old token (expiry_of preserve now ttl old.expires_at))
              (some (lifetime_of preserve now ttl old.expires_at))
              v
            ≡ (ok pair.refresh_token, w2))
        × (put_row crypto config key (rotated crypto config now old token pair) (between 1 w2)
            ≡ (ok key, w3))
        × (assert_still_live crypto config now key
              (pair.access_token ∷ pair.refresh_token ∷ [])
              (between 2 w3)
            ≡ (ok u, after))
        × (pair.refresh_expires_at ≡ expiry_of preserve now ttl old.expires_at)
        × (result_of pair old.user_id ≡ r)
  unfolding rotate finish with_access with_refresh
  rotate-steps between now token key old preserve ttl w after r h =
      let (access, w1, minted, h1) =
        continue_inv (with_access between now token key old preserve ttl)
          (issue_access_from_refresh crypto config now old w) h in
      let expires_at = expiry_of preserve now ttl old.expires_at in
      let (refresh_token, w2, minted2, h2) =
        continue_inv (with_refresh between now token key old expires_at access.0 access.1)
          (put_token crypto config now (next_refresh crypto config now old token expires_at)
            (some (lifetime_of preserve now ttl old.expires_at)) (between 0 w1))
          h1 in
      let pair = pair_of access.0 access.1 refresh_token expires_at in
      let (live_key, w3, stamped, h3) =
        continue_inv (finish between now pair old.user_id)
          (put_row crypto config key (rotated crypto config now old token pair) (between 1 w2))
          h2 in
      let (u, v, checked, answered) =
        continue_inv (λ _. pure (result_of pair old.user_id))
          (assert_still_live crypto config now live_key
            (pair.access_token ∷ pair.refresh_token ∷ []) (between 2 w3))
          h3 in
      let keys = sym (
        put_row_key crypto config key (rotated crypto config now old token pair) (between 1 w2)
          stamped) in
      let ended : v ≡ after = ap (λ x. x.1) answered in
      let result : ok (result_of pair old.user_id) ≡ ok r = ap (λ x. x.0) answered in
      (
        pair,
        between 0 w1,
        w2,
        w3,
        u,
        minted2,
        subst
            (λ k.
              put_row crypto config key (rotated crypto config now old token pair) (between 1 w2)
              ≡ (ok k, w3))
            keys stamped,
        subst
            (λ k.
              assert_still_live crypto config now k (pair.access_token ∷ pair.refresh_token ∷ [])
                (between 2 w3)
              ≡ (ok u, after))
            keys
            (subst
              (λ x.
                assert_still_live crypto config now live_key
                  (pair.access_token ∷ pair.refresh_token ∷ []) (between 2 w3)
                ≡ (ok u, x))
              ended checked),
        refl,
        ground (arith, result),
      )

  -- the row of the refresh token that a rotation has minted off another
  pub record IsNext (old : State P) (expires_at : ℕ) (next : State P) : Type 0 where
    pub expires : next.expires_at ≡ expires_at
    pub user : next.user_id ≡ old.user_id
    pub session : next.rest.session_id ≡ old.rest.session_id
    pub payload : next.rest.payload ≡ old.rest.payload
    pub fresh : next.rest.rotated_at ≡ none

  minted-IsNext :
      (now ttl : ℕ) (token : String) (old : State P) (preserve : Bool)
      → now ≤ old.expires_at
      → IsNext old (if preserve then old.expires_at else now + ttl) (
          with_ttl now
            (some (lifetime_of preserve now ttl old.expires_at))
            (next_refresh crypto config now old token (expiry_of preserve now ttl old.expires_at)))
  unfolding next_refresh with_ttl
  minted-IsNext now ttl token old true live = record {
    expires = omega (arith, live);
    user = refl;
    session = refl;
    payload = refl;
    fresh = refl;
  }
  minted-IsNext now ttl token old false live = record {
    expires = refl;
    user = refl;
    session = refl;
    payload = refl;
    fresh = refl;
  }

  -- Whatever others do: the old row is still there, and has not expired, when a rotation answers.
  pub rotate-IsLive :
      (between : Between P) (now : ℕ) (token key : String) (old : State P) (preserve : Bool)
      (ttl : ℕ) (w after : World P) (r : RefreshResult)
      → rotate crypto config between now token key old preserve ttl w ≡ (ok r, after)
      → IsLive crypto config now key after
        × (r.user_id ≡ old.user_id)
        × (r.refresh_expires_at ≡ (if preserve then old.expires_at else now + ttl))
  rotate-IsLive between now token key old preserve ttl w after r h =
      let (pair, v, w2, w3, u, minted, stamped, checked, expires, result) =
        rotate-steps between now token key old preserve ttl w after r h in
      (
        assert_still_live-IsLive crypto config now key (pair.access_token ∷ pair.refresh_token ∷ [])
            (between 2 w3) checked,
        sym (ap (λ x. x.user_id) result),
        sym (ap (λ x. x.refresh_expires_at) result)
            ∙ expires
            ∙ expiry_of-cases preserve now ttl old.expires_at,
      )

  -- Whatever others do, so long as they leave the row of the new refresh token: when a rotation of
  -- a row whose expiry has not passed answers, and the key of the new token is not that of the old
  -- row, then the old row is still there and has not expired. The new refresh token expires with
  -- the old row where the ceiling is kept and one lifetime from now where it slides. Its row is
  -- stored with exactly this expiry, for the user, the session and the payload of the old row, and
  -- is not rotated.
  pub rotate-IsStored :
      (between : Between P) (now : ℕ) (token key : String) (old : State P) (preserve : Bool)
      (ttl : ℕ) (w after : World P) (r : RefreshResult)
      → now ≤ old.expires_at
      → ((k : ℕ) (v : World P)
          → row (key_of crypto config r.refresh_token) (between (suc k) v)
            ≡ row (key_of crypto config r.refresh_token) v)
      → (key == key_of crypto config r.refresh_token) ≡ false
      → rotate crypto config between now token key old preserve ttl w ≡ (ok r, after)
      → IsLive crypto config now key after
        × (r.user_id ≡ old.user_id)
        × (r.refresh_expires_at ≡ (if preserve then old.expires_at else now + ttl))
        × (next : State P) × (row (key_of crypto config r.refresh_token) after ≡ some next)
        × IsNext old r.refresh_expires_at next
  rotate-IsStored between now token key old preserve ttl w after r live kept other h =
      let (pair, v, w2, w3, u, minted, stamped, checked, expires, result) =
        rotate-steps between now token key old preserve ttl w after r h in
      let minted_tokens = pair.access_token ∷ pair.refresh_token ∷ [] in
      let new : String = key_of crypto config r.refresh_token in
      let same : r.refresh_token ≡ pair.refresh_token = sym (ap (λ x. x.refresh_token) result) in
      let (there, user, ceiling) =
        rotate-IsLive between now token key old preserve ttl w after r h in
      let expires_at = expiry_of preserve now ttl old.expires_at in
      let next : State P =
        with_ttl now (some (lifetime_of preserve now ttl old.expires_at))
          (next_refresh crypto config now old token expires_at) in
      let stored : row new w2 ≡ some next =
        ap (λ t. row (key_of crypto config t) w2) same
        ∙ put_token-row crypto config now (next_refresh crypto config now old token expires_at)
            (some (lifetime_of preserve now ttl old.expires_at)) v minted in
      (
        there,
        user,
        ceiling,
        next,
        assert_still_live-row crypto config now key new minted_tokens (between 2 w3) other checked
            ∙ kept 1 w3
            ∙ put_row-row crypto config key new (rotated crypto config now old token pair)
                (between 1 w2) other stamped
            ∙ kept 0 w2
            ∙ stored,
        subst (λ e. IsNext old e next) (sym ceiling)
            (minted-IsNext now ttl token old preserve live),
      )
