-- ===== src/User/Store/Settles.antt =====
-- When `withCas` of packages/user/src/store/memory.ts gives up, and when it does not.
use aoothjs.Base.{
  ℕ, zero, suc, ◌<◌, ◌≡◌, refl, sym, ap, ◌∙◌, ◌⊎◌, inl, inr, String, true, false, some, arith,
  nat_beq, nat_beq_iff, Bool-cases, Option-cases, text_eq, nat_eq, string_eq,
}
use aoothjs.Base.Assoc.{get}
use aoothjs.User.Types.{
  UserCredentials, UserStoreUpdate, UserAuthError, already_exists, cas_exhausted, Result, ok, err,
}
use aoothjs.User.Store.{
  UserStore, Mutator, Others, version_of, set_collides, update, update_read, with_cas,
}
use aoothjs.User.Store.Cas.{
  missed, refused, written, Attempt-cases, threw, stopped, wants, Answer-cases,
}

-- nobody writes the row
abbrev pub IsCalm : String → (UserStore → UserStore) → Type 0
IsCalm id f = (s : UserStore) → get id (f s).rows ≡ get id s.rows

-- the wait of an attempt between its read and its write
abbrev pub wait_of : ℕ → ℕ
wait_of zero = 0
wait_of (suc i) = suc (suc (wait_of i))

calm_attempt :
    (id : String) (change : UserStoreUpdate) (current : UserCredentials) (s : UserStore)
    → get id s.rows ≡ some current
    → ((update_read id change current s).0 ≡ ok true)
      ⊎ ((update_read id change current s).0 ≡ err already_exists)
unfolding update_read update
calm_attempt id change current s found =
    let same : nat_beq (version_of current) (version_of current) ≡ true =
      (nat_beq_iff (version_of current) (version_of current)).1 refl in
    elim (Bool-cases (set_collides s id change.set)) [
      | inl taken ↦ inr (rw (found, same, taken, update) refl)
      | inr free ↦ inl (rw (found, same, free, update) refl)
    ]

ok_is_no_error : {A : Type 0} {a : A} {e : UserAuthError} → ¬ (ok a ≡ err e)
ok_is_no_error h = ground arith

err_injective : {A : Type 0} {e f : UserAuthError} → Path (Result A) (err e) (err f) → e ≡ f
err_injective h = ground arith

-- an attempt that missed was not the calm one, which is yet to come
IsCalm-comes :
    (id : String) (change : UserStoreUpdate) (current : UserCredentials) (others : Others)
    (s : UserStore) (i : ℕ)
    → get id s.rows ≡ some current
    → IsCalm id (others (wait_of i))
    → update_read id change current (others 0 s) ≡ (ok false, others 0 s)
    → (j : ℕ) × (i ≡ suc j) × IsCalm id (others (suc (suc (wait_of j))))
IsCalm-comes id change current others s zero found calm e =
    absurd (elim (calm_attempt id change current (others 0 s) (calm s ∙ found)) [
      | inl done ↦ let both : ok false ≡ ok true = sym (ap (λ r. r.0) e) ∙ done in ground arith
      | inr threw_it ↦ ok_is_no_error (sym (ap (λ r. r.0) e) ∙ threw_it)
    ])
IsCalm-comes id change current others s (suc j) found calm e = (j, refl, calm)

module _ {A : Type 0} (id : String) (mutator : Mutator A) where
  -- If there is an attempt of `withCas`, among those it may make, in which nobody writes the row
  -- between its read and its write, then it does not end with CAS_EXHAUSTED, whatever others do
  -- before, unless the mutator itself throws that.
  pub with_cas_settles :
      (i attempts : ℕ) (others : Others) (s : UserStore)
      → ((u : UserCredentials) → ¬ (mutator u ≡ err cas_exhausted))
      → i < attempts
      → IsCalm id (others (wait_of i))
      → ¬ ((with_cas attempts others id mutator s).0 ≡ err cas_exhausted)
  unfolding with_cas
  with_cas_settles i zero others s own below calm = absurd (omega arith)
  with_cas_settles i (suc attempts) others s own below calm = elim (Option-cases (get id s.rows)) [
    | inl absent ↦ rw (absent, with_cas) (λ h. ground arith)
    | inr (current, found) ↦ elim (Answer-cases (mutator current)) [
      | threw e answer ↦
          rw (found, answer, with_cas) (λ h. own current (answer ∙ ap err (err_injective h)))
      | stopped a answer ↦ rw (found, answer, with_cas) ok_is_no_error
      | wants a change answer ↦
          let s1 = others 0 s in
          elim (Attempt-cases id change current s1) [
            | refused e ↦ rw (found, answer, e, with_cas) (λ h. ground arith)
            | written v after held version e unguarded_e ↦
                rw (found, answer, e, with_cas) ok_is_no_error
            | missed e ↦
                let (j, later, calm') = IsCalm-comes id change current others s i found calm e in
                rw (found, answer, e, with_cas, e)
                  (with_cas_settles j attempts (λ n. others (suc (suc n))) (others 1 s1) own
                    (omega arith) calm')
          ]
    ]
  ]
