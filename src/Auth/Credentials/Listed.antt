-- ===== src/Auth/Credentials/Listed.antt =====
-- `listForUser` of packages/auth/src/stores/memory.ts.
use aoothjs.Base.{
  ℕ, ◌≡◌, refl, sym, ap, ◌∙◌, String, Bool, true, false, not, ◌&&◌, Option, none, some, List, [],
  ◌∷◌, arith, leb, any, All, ◌==◌, string_eq, eq_of_==, Bool-cases, Option-cases, inl, inr,
  if◌then◌else◌,
}
use aoothjs.Base.Assoc.{Assoc, get, put, delete}
use aoothjs.Auth.Credentials.{
  CredentialState, CredentialStore, contains, set_delete_all, delete_tokens, list_from,
  list_for_user,
}
use aoothjs.Auth.Credentials.Index.{
  tokens_of, indexed, contains-set_delete_all, indexed-shrunk, get-delete_tokens,
}
use aoothjs.Auth.Credentials.Sync.{owned, IsSynced}
use aoothjs.Auth.Credentials.Users.{is_of-same}

module _ {P : Type 0} where
  abbrev pub is_live : ℕ → Option (CredentialState P) → Bool
  is_live now none = false
  is_live now (some state) = not (leb state.expires_at now)

  abbrev pub lists : String → List (CredentialState P × String) → Bool
  lists token out = any (λ x. x.1 == token) out

  list_from-lists :
      (now : ℕ) (states : Assoc String (CredentialState P)) (tokens : List String) (t : String)
      → (lists t (list_from now states tokens).0
          ≡ (contains t tokens && is_live now (get t states)))
        × (contains t (list_from now states tokens).1
            ≡ (contains t tokens && not (is_live now (get t states))))
  unfolding list_from
  list_from-lists now states [] t = (refl, refl)
  list_from-lists now states (x ∷ xs) t =
      let rest = list_from-lists now states xs t in
      let same_state : (x == t) ≡ true → get x states ≡ get t states =
        λ e. ap (λ k. get k states) (eq_of_== x t e) in
      (ground (arith, rest.0, same_state), ground (arith, rest.1, same_state))

  list_from-stored :
      (now : ℕ) (states : Assoc String (CredentialState P)) (tokens : List String)
      → All (λ x. get x.1 states ≡ some x.0) (list_from now states tokens).0
  unfolding list_from
  list_from-stored now states [] = tt
  list_from-stored now states (x ∷ xs) = elim (Option-cases (get x states)) [
    | inl absent ↦ rw (absent, list_from) (list_from-stored now states xs)
    | inr (state, found) ↦ elim (Bool-cases (leb state.expires_at now)) [
      | inl gone ↦ rw (found, gone, list_from) (list_from-stored now states xs)
      | inr live ↦ rw (found, live, list_from) (found, list_from-stored now states xs)
    ]
  ]

  -- what listing a user's tokens gives
  pub record IsListed (now : ℕ) (user : String) (s : CredentialStore P)
      (out : List (CredentialState P × String)) (after : CredentialStore P) : Type 0 where
    pub synced : IsSynced after
    pub listed :
        (token : String)
        → lists token out ≡ (owned user token s.states && is_live now (get token s.states))
    pub stored : All (λ x. get x.1 s.states ≡ some x.0) out
    pub dropped :
        (token : String)
        → get token after.states ≡ (
            if owned user token s.states && not (is_live now (get token s.states))
            then none
            else get token s.states)

  tokens-IsListed :
      (now : ℕ) (user : String) (tokens : List String) (s : CredentialStore P)
      → IsSynced s
      → tokens_of (get user s.by_user) ≡ tokens
      → IsListed now user s (list_from now s.states tokens).0 (record {
        states = (delete_tokens (list_from now s.states tokens).1 s.states).1;
        by_user = elim (set_delete_all (list_from now s.states tokens).1 tokens) [
          | [] ↦ delete user s.by_user
          | x ∷ xs ↦ put user (x ∷ xs) s.by_user
        ];
      })
  tokens-IsListed now user tokens s h found =
      let expired = (list_from now s.states tokens).1 in
      let mine : (t : String) → contains t tokens ≡ owned user t s.states =
        λ t. ap (contains t) (sym found) ∙ h user t in
      let gone : (t : String)
          → contains t expired ≡ (owned user t s.states && not (is_live now (get t s.states))) =
        λ t.
          (list_from-lists now s.states tokens t).1
          ∙ ap (λ b. b && not (is_live now (get t s.states))) (mine t) in
      record {
        synced = λ u t. ground (
          arith,
          indexed-shrunk user u t (set_delete_all expired tokens) s.by_user,
          contains-set_delete_all expired t tokens,
          get-delete_tokens expired t s.states,
          gone t,
          mine t,
          h u t,
          is_of-same user u (get t s.states),
          eq_of_== user u,
        );
        listed = λ t.
            (list_from-lists now s.states tokens t).0
            ∙ ap (λ b. b && is_live now (get t s.states)) (mine t);
        stored = list_from-stored now s.states tokens;
        dropped = λ t.
            get-delete_tokens expired t s.states
            ∙ ap (λ b. if b then none else get t s.states) (gone t);
      }

  nothing-IsListed :
      (now : ℕ) (user : String) (s : CredentialStore P)
      → IsSynced s
      → ((token : String) → indexed user token s.by_user ≡ false)
      → IsListed now user s [] s
  nothing-IsListed now user s h nothing = record {
    synced = h;
    listed = λ t. ground (arith, h user t, nothing t);
    stored = tt;
    dropped = λ t. ground (arith, h user t, nothing t);
  }

  -- On a store whose index is in step, listing a user's tokens gives exactly those whose state is
  -- that user's and has not expired, each with its state. It drops the user's expired states and no
  -- other, and keeps the index in step.
  pub list_for_user-IsListed :
      (now : ℕ) (user : String) (s : CredentialStore P)
      → IsSynced s
      → IsListed now user s (list_for_user now user s).0 (list_for_user now user s).1
  unfolding list_for_user
  list_for_user-IsListed now user s h = elim (Option-cases (get user s.by_user)) [
    | inl absent ↦
        rw (absent, list_for_user)
          (nothing-IsListed now user s h (λ t. ap (λ o. contains t (tokens_of o)) absent))
    | inr ([], found) ↦
        rw (found, list_for_user)
          (nothing-IsListed now user s h (λ t. ap (λ o. contains t (tokens_of o)) found))
    | inr (x ∷ xs, found) ↦
        rw (found, list_for_user) (tokens-IsListed now user (x ∷ xs) s h (ap tokens_of found))
  ]
