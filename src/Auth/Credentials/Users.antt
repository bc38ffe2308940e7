-- ===== src/Auth/Credentials/Users.antt =====
-- `revokeAllForUser` and `listForUser` of packages/auth/src/stores/memory.ts.
use aoothjs.Base.{
  ℕ, ◌+◌, ◌≡◌, refl, sym, ap, ◌∙◌, String, true, false, Option, none, some, List, [], ◌∷◌, arith,
  length, ◌==◌, string_eq, eq_of_==, Option-cases, inl, inr,
}
use aoothjs.Base.Assoc.{Assoc, get, delete}
use aoothjs.Base.Assoc.Laws.{Distinct, Distinct-delete, delete_absent, length-delete_present}
use aoothjs.Auth.Credentials.{
  CredentialState, CredentialStore, contains, delete_tokens, revoke_all_for_user,
}
use aoothjs.Auth.Credentials.Index.{tokens_of, indexed, indexed-delete, get-delete_tokens}
use aoothjs.Auth.Credentials.Sync.{is_of, owned, IsSynced}

module _ {P : Type 0} where
  -- what revoking all of a user's tokens does
  pub record IsRevoked (user : String) (s : CredentialStore P) (count : ℕ)
      (after : CredentialStore P) : Type 0 where
    pub synced : IsSynced after
    pub gone : (token : String) → owned user token after.states ≡ false
    pub others :
        (token : String)
        → owned user token s.states ≡ false
        → get token after.states ≡ get token s.states
    pub counted : Distinct s.states → count + length after.states ≡ length s.states

  length-delete_tokens :
      (ts : List String) (states : Assoc String (CredentialState P))
      → Distinct states
      → (delete_tokens ts states).0 + length (delete_tokens ts states).1 ≡ length states
  unfolding delete_tokens
  length-delete_tokens [] states d = omega arith
  length-delete_tokens (x ∷ xs) states d = elim (Option-cases (get x states)) [
    | inl absent ↦
        rw (absent, delete_tokens)
          (length-delete_tokens xs (delete x states) (Distinct-delete x states d)
            ∙ ap length (delete_absent x states absent))
    | inr (state, found) ↦
        rw (found, delete_tokens)
          (omega (
            arith,
            length-delete_tokens xs (delete x states) (Distinct-delete x states d),
            length-delete_present x states {v = state} d found,
          ))
  ]

  -- the state of a user's token is gone, when all that the index has are deleted
  no_tokens :
      (user : String) (s : CredentialStore P)
      → IsSynced s
      → ((token : String) → indexed user token s.by_user ≡ false)
      → IsRevoked user s 0 s
  no_tokens user s h nothing = record {
    synced = h;
    gone = λ t. sym (h user t) ∙ nothing t;
    others = λ t _. refl;
    counted = λ _. omega arith;
  }

  pub is_of-same :
      (user u : String) (o : Option (CredentialState P))
      → is_of user o ≡ true
      → is_of u o ≡ true
      → (user == u) ≡ true
  is_of-same user u none h k = absurd (cc)
  is_of-same user u (some state) h k = ground (
    arith,
    string_eq.equal_iff state.user_id user,
    string_eq.equal_iff state.user_id u,
    string_eq.equal_iff user u,
  )

  all_tokens :
      (user : String) (tokens : List String) (s : CredentialStore P)
      → IsSynced s
      → tokens_of (get user s.by_user) ≡ tokens
      → IsRevoked user s
          (delete_tokens tokens s.states).0
          (record { states = (delete_tokens tokens s.states).1; by_user = delete user s.by_user })
  all_tokens user tokens s h found =
      let mine : (t : String) → contains t tokens ≡ owned user t s.states =
        λ t. ap (contains t) (sym found) ∙ h user t in
      record {
        synced = λ u t. ground (
          arith,
          indexed-delete user u t s.by_user,
          get-delete_tokens tokens t s.states,
          mine t,
          h u t,
          is_of-same user u (get t s.states),
          eq_of_== user u,
        );
        gone = λ t. ground (arith, get-delete_tokens tokens t s.states, mine t);
        others = λ t no. ground (arith, get-delete_tokens tokens t s.states, mine t, no);
        counted = λ d. length-delete_tokens tokens s.states d;
      }

  -- On a store whose index is in step, revoking all of a user's tokens leaves no state of that user
  -- and every other state as it was, keeps the index in step, and counts the states that went if no
  -- token stands twice.
  pub revoke_all_for_user-IsRevoked :
      (user : String) (s : CredentialStore P)
      → IsSynced s
      → IsRevoked user s (revoke_all_for_user user s).0 (revoke_all_for_user user s).1
  unfolding revoke_all_for_user
  revoke_all_for_user-IsRevoked user s h = elim (Option-cases (get user s.by_user)) [
    | inl absent ↦
        rw (absent, revoke_all_for_user)
          (no_tokens user s h (λ t. ap (λ o. contains t (tokens_of o)) absent))
    | inr ([], found) ↦
        rw (found, revoke_all_for_user)
          (no_tokens user s h (λ t. ap (λ o. contains t (tokens_of o)) found))
    | inr (x ∷ xs, found) ↦
        rw (found, revoke_all_for_user) (all_tokens user (x ∷ xs) s h (ap tokens_of found))
  ]
