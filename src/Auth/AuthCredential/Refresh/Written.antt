-- ===== src/Auth/AuthCredential/Refresh/Written.antt =====
-- packages/auth/src/credential/auth-credential.ts: the rows that `put` and `putRow` leave.
use mathlib.Core.Path.{subst}
use aoothjs.Base.{
  ℕ, false, ◌==◌, ◌≡◌, refl, sym, ap, ◌∙◌, inl, inr, String, Option, some, arith, Bool-cases,
  Option-cases, text_eq, nat_eq, string_eq, ==_refl,
}
use aoothjs.Base.Assoc.{get}
use aoothjs.Auth.Credentials.{CredentialStore, update}
use aoothjs.Auth.AuthCredential.{
  Envelope, State, Config, Crypto, World, ok, is_plain, key_of, put_token,
}
use aoothjs.Auth.AuthCredential.Revocation.Alone.{row}
use aoothjs.Auth.AuthCredential.Refreshing.{put_row}
use aoothjs.Base.Assoc.Laws.{get-put}
use aoothjs.Auth.Credentials.{with_ttl, persist_as, persist}

module _ (crypto : Crypto) (config : Config) {P : Type 0} where
  update-key :
      (key : String) (state : State P) (s : CredentialStore (Envelope P))
      → (update key state s).0 ≡ key
  unfolding update
  update-key key state s = elim (Option-cases (get key s.states)) [
    | inl absent ↦ rw (absent, update) refl
    | inr (found, there) ↦ rw (there, update) refl
  ]

  -- the row is written under its own key
  pub put_row_key :
      (key : String) (state : State P) (w : World P) {live_key : String} {after : World P}
      → put_row crypto config key state w ≡ (ok live_key, after)
      → key ≡ live_key
  unfolding put_row
  put_row_key key state w {live_key} h =
      let answered : ok (update key state w.store).0 ≡ ok live_key = ap (λ r. r.0) h in
      let same : (update key state w.store).0 ≡ live_key = ground (arith, answered) in
      sym (update-key key state w.store) ∙ same

  -- the other rows are left
  pub put_row-row :
      (key t : String) (state : State P) (w : World P) {live_key : String} {after : World P}
      → (key == t) ≡ false
      → put_row crypto config key state w ≡ (ok live_key, after)
      → row t after ≡ row t w
  unfolding put_row
  put_row-row key t state w other h =
      sym (ap (λ r. row t r.1) h) ∙ elim (Option-cases (get key w.store.states)) [
        | inl absent ↦ rw (absent, update) refl
        | inr (found, there) ↦
            rw (there, update) (ground (arith, get-put key t state w.store.states, other))
      ]

  persist_as-row :
      (now : ℕ) (key : String) (state : State P) (ttl : Option ℕ) (w : World P)
      → get key (persist_as now key state ttl w.store).states ≡ some (with_ttl now ttl state)
  unfolding persist_as
  persist_as-row now key state ttl w =
      ground (arith, get-put key key (with_ttl now ttl state) w.store.states, ==_refl key)

  -- the row of a new token is the state, with the lifetime that was asked for
  put_token-stored :
      (now : ℕ) (state : State P) (ttl : Option ℕ) (w : World P)
      → (token : String) × (after : World P) × (put_token crypto config now state ttl w
          ≡ (ok token, after))
        × (row (key_of crypto config token) after ≡ some (with_ttl now ttl state))
  unfolding put_token persist key_of
  put_token-stored now state ttl w =
      let token = crypto.random w.drawn in
      elim (Bool-cases (is_plain config.hash_at_rest)) [
        | inl bare ↦ elim (Bool-cases config.generates) [
          | inl generates ↦ rw (bare, generates) (_, _, refl, persist_as-row now token state ttl w)
          | inr other ↦ rw (bare, other) (_, _, refl, persist_as-row now token state ttl w)
        ]
        | inr hashed ↦
            rw hashed (_, _, refl, persist_as-row now (crypto.fingerprint token) state ttl w)
      ]

  pub put_token-row :
      (now : ℕ) (state : State P) (ttl : Option ℕ) (w : World P) {token : String} {after : World P}
      → put_token crypto config now state ttl w ≡ (ok token, after)
      → row (key_of crypto config token) after ≡ some (with_ttl now ttl state)
  put_token-row now state ttl w {token = token} {after = after} h =
      let (token', after', answered, stored) = put_token-stored now state ttl w in
      let both = sym answered ∙ h in
      let tokens : ok token' ≡ ok token = ap (λ r. r.0) both in
      let token_eq : token' ≡ token = ground (arith, tokens) in
      let after_eq : after' ≡ after = ap (λ r. r.1) both in
      subst (λ t. row (key_of crypto config t) after ≡ some (with_ttl now ttl state)) token_eq
        (subst (λ x. row (key_of crypto config token') x ≡ some (with_ttl now ttl state)) after_eq
          stored)
