-- ===== src/Auth/AuthCredential/Finding.antt =====
-- packages/auth/src/credential/auth-credential.ts: `find`, the way from a token to its row.
use aoothjs.Base.{
  ℕ, ◌≡◌, refl, ap, ◌∙◌, inl, inr, String, true, Option, none, some, Bool-cases, if◌then◌else◌,
  text_eq, nat_eq, string_eq,
}
use aoothjs.Base.Assoc.{get}
use aoothjs.Auth.Credentials.{CredentialStore, retrieve}
use aoothjs.Auth.Credentials.Sync.{retrieve-IsSynced}
use aoothjs.Auth.AuthCredential.{
  State, Config, Crypto, Envelope, World, Result, ok, Task, pure, continue, ◌>>=◌, key_of,
  may_be_legacy_key, retrieve_key, found_under, find,
}
use aoothjs.Auth.AuthCredential.Revocation.Swept.{IsSound}
use aoothjs.Auth.AuthCredential.Revocation.Alone.{row}

module _ (crypto : Crypto) (config : Config) {P : Type 0} where
  retrieve_key-IsSound :
      (now : ℕ) (key : String) (w : World P)
      → IsSound w
      → IsSound (retrieve_key crypto config now key w).1
  unfolding retrieve_key
  retrieve_key-IsSound now key w h = retrieve-IsSynced now key w.store h

  found_or_legacy : ℕ → String → Option (State P) → Task P (Option (String × State P))
  found_or_legacy now token state = elim state [
    | some s ↦ pure (some (key_of crypto config token, s))
    | none ↦
        if may_be_legacy_key crypto config token
        then (retrieve_key crypto config now token >>= λ legacy.
            pure (found_under crypto config token legacy))
        else pure none
  ]

  found_or_legacy-IsSound :
      (now : ℕ) (token : String) (state : Option (State P)) (w : World P)
      → IsSound w
      → IsSound (found_or_legacy now token state w).1
  unfolding found_or_legacy retrieve_key
  found_or_legacy-IsSound now token (some s) w h = h
  found_or_legacy-IsSound now token none w h =
      elim (Bool-cases (may_be_legacy_key crypto config token)) [
        | inl legacy ↦ rw legacy (retrieve_key-IsSound now token w h)
        | inr other ↦ rw other h
      ]

  -- looking a token up keeps the store sound
  pub find-IsSound :
      (now : ℕ) (token : String) (w : World P)
      → IsSound w
      → IsSound (find crypto config now token w).1
  unfolding find found_or_legacy retrieve_key
  find-IsSound now token w h =
      let first = retrieve_key crypto config now (key_of crypto config token) w in
      found_or_legacy-IsSound now token (retrieve now (key_of crypto config token) w.store).0
        first.1 (retrieve_key-IsSound now (key_of crypto config token) w h)

  retrieve_missing :
      (now : ℕ) (key : String) (s : CredentialStore (Envelope P))
      → get key s.states ≡ none
      → retrieve now key s ≡ (none, s)
  unfolding retrieve
  retrieve_missing now key s h = rw (h, retrieve) refl

  pub missing :
      (now : ℕ) (key : String) (w : World P)
      → row key w ≡ none
      → retrieve_key crypto config now key w ≡ (ok none, w)
  unfolding retrieve_key
  missing now key w h =
      ap {B = Result (Option (State P)) × World P} (λ r. (ok r.0, record w { store = r.1 }))
        (retrieve_missing now key w.store h)

  -- where neither the key nor the token has a row, nothing is found
  pub find-none :
      (now : ℕ) (token : String) (w : World P)
      → row (key_of crypto config token) w ≡ none
      → (may_be_legacy_key crypto config token ≡ true → row token w ≡ none)
      → find crypto config now token w ≡ (ok none, w)
  unfolding find found_or_legacy
  find-none now token w unstored no_legacy =
      ap (continue (found_or_legacy now token))
        (missing now (key_of crypto config token) w unstored)
      ∙ elim (Bool-cases (may_be_legacy_key crypto config token)) [
        | inl legacy ↦ rw legacy (
            ap (continue (λ found. pure (found_under crypto config token found)))
              (missing now token w (no_legacy legacy)))
        | inr other ↦ rw other refl
      ]

  found_or_legacy-answers :
      (now : ℕ) (token : String) (state : Option (State P)) (w : World P)
      → (found : Option (String × State P)) × (after : World P) × (found_or_legacy now token state w
          ≡ (ok found, after))
        × (after.cache ≡ w.cache)
  unfolding found_or_legacy retrieve_key
  found_or_legacy-answers now token (some s) w = (_, _, refl, refl)
  found_or_legacy-answers now token none w =
      elim (Bool-cases (may_be_legacy_key crypto config token)) [
        | inl legacy ↦ rw legacy (_, _, refl, refl)
        | inr other ↦ rw other (_, _, refl, refl)
      ]

  -- a search answers, and leaves the cache
  pub find-answers :
      (now : ℕ) (token : String) (w : World P)
      → (found : Option (String × State P)) × (after : World P) × (find crypto config now token w
          ≡ (ok found, after))
        × (after.cache ≡ w.cache)
  unfolding find found_or_legacy retrieve_key
  find-answers now token w =
      found_or_legacy-answers now token (retrieve now (key_of crypto config token) w.store).0
        (retrieve_key crypto config now (key_of crypto config token) w).1
