-- ===== src/User/Store/Cas.antt =====
-- `withCas` of packages/user/src/store/memory.ts while others call the methods of the store.
use aoothjs.Base.{
  ℕ, zero, suc, ◌≡◌, refl, ap, ◌∙◌, ◌⊎◌, inl, inr, String, true, false, Option, none, some, List,
  nat_beq, nat_beq_iff, Bool-cases, Option-cases, text_eq, nat_eq, string_eq, All,
}
use aoothjs.Base.Assoc.{get, put}
use aoothjs.User.Types.{
  UserCredentials, UserStoreUpdate, UserAuthError, already_exists, Result, ok, err,
}
use aoothjs.User.Store.{
  UserStore, Mutator, Others, version_of, set_collides, update, update_read, with_cas, updated,
}
use aoothjs.User.Store.Calls.{StoreCall, run_calls}
use aoothjs.User.Store.Later.{IsNoBirth, run_calls-IsLater, IsLater-same}

-- the calls of others at each wait
abbrev pub Waits : Type 0
Waits = ℕ → List StoreCall

abbrev pub as_others : Waits → Others
as_others waits n = run_calls (waits n)

abbrev pub later_waits : Waits → Waits
later_waits waits n = waits (suc (suc n))

-- the store after the first waits, if nobody else writes
abbrev pub run_waits : ℕ → Waits → UserStore → UserStore
run_waits zero waits s = s
run_waits (suc m) waits s = run_waits m (λ n. waits (suc n)) (run_calls (waits 0) s)

abbrev pub unguarded : UserStoreUpdate → UserStoreUpdate
unguarded change = record change { expected_version = none }

-- an update on the version that was read, by how it ends: on a row of that version, or not
pub data Attempt (id : String) (change : UserStoreUpdate) (current : UserCredentials)
    (s : UserStore) : Type 0 where
  missed : update_read id change current s ≡ (ok false, s) → Attempt id change current s
  refused : update_read id change current s ≡ (err already_exists, s) → Attempt id change current s
  written :
      (v : UserCredentials) (after : UserStore)
      → get id s.rows ≡ some v
      → version_of v ≡ version_of current
      → update_read id change current s ≡ (ok true, after)
      → update id (unguarded change) s ≡ (ok true, after)
      → Attempt id change current s

pub Attempt-cases :
    (id : String) (change : UserStoreUpdate) (current : UserCredentials) (s : UserStore)
    → Attempt id change current s
unfolding update_read update updated
Attempt-cases id change current s = elim (Option-cases (get id s.rows)) [
  | inl absent ↦ missed (rw (absent, update) refl)
  | inr (v, found) ↦ elim (Bool-cases (nat_beq (version_of v) (version_of current))) [
    | inr differs ↦ missed (rw (found, differs, update) refl)
    | inl same ↦ elim (Bool-cases (set_collides s id change.set)) [
      | inl taken ↦ refused (rw (found, same, taken, update) refl)
      | inr free ↦
          written v (record s { rows = put id (updated change v) s.rows }) found
            ((nat_beq_iff (version_of v) (version_of current)).0 same)
            (rw (found, same, free, update) refl) (rw (found, free, update) refl)
    ]
  ]
]

module _ {A : Type 0} where
  -- what a mutator's answer on a row asks for is what was done to the store
  abbrev pub IsDone :
      String → Result (A × Option UserStoreUpdate) → A → UserStore → UserStore → Type 0
  IsDone id answer a before after =
      ((answer ≡ ok (a, none)) × (after ≡ before))
      ⊎ ((change : UserStoreUpdate) × (answer ≡ ok (a, some change))
          × (update id (unguarded change) before ≡ (ok true, after)))

  abbrev pub IsAtomic : String → Mutator A → Waits → UserStore → Result A × UserStore → Type 0
  IsAtomic id mutator waits s (err e, after) = (m : ℕ) × (after ≡ run_waits m waits s)
  IsAtomic id mutator waits s (ok a, after) =
      (m : ℕ) × (u : UserCredentials) × (get id (run_waits m waits s).rows ≡ some u)
      × IsDone id (mutator u) a (run_waits m waits s) after

  pub data Answer (answer : Result (A × Option UserStoreUpdate)) : Type 0 where
    threw : (e : UserAuthError) → answer ≡ err e → Answer answer
    stopped : (a : A) → answer ≡ ok (a, none) → Answer answer
    wants : (a : A) (change : UserStoreUpdate) → answer ≡ ok (a, some change) → Answer answer

  pub Answer-cases : (answer : Result (A × Option UserStoreUpdate)) → Answer answer
  Answer-cases (err e) = threw e refl
  Answer-cases (ok (a, none)) = stopped a refl
  Answer-cases (ok (a, some change)) = wants a change refl

  -- a wait and what follows it, seen from before the wait
  IsAtomic-later :
      (id : String) (mutator : Mutator A) (waits : Waits) (s : UserStore)
      (result : Result A × UserStore)
      → IsAtomic id mutator (later_waits waits) (run_calls (waits 1) (run_calls (waits 0) s)) result
      → IsAtomic id mutator waits s result
  IsAtomic-later id mutator waits s (err e, after) (m, same) = (suc (suc m), same)
  IsAtomic-later id mutator waits s (ok a, after) (m, u, found, done) =
      (suc (suc m), u, found, done)

  -- Whatever others do while `withCas` waits, so long as they create no row under the id: if it
  -- succeeds, its mutator was applied to the row that stood there when the store was written, and
  -- what the mutator asked for is all that was written; if it throws, it has written nothing.
  pub with_cas-IsAtomic :
      (attempts : ℕ) (waits : Waits) (id : String) (mutator : Mutator A) (s : UserStore)
      → ((n : ℕ) → All (IsNoBirth id) (waits n))
      → IsAtomic id mutator waits s (with_cas attempts (as_others waits) id mutator s)
  unfolding with_cas
  with_cas-IsAtomic zero waits id mutator s quiet = (0, refl)
  with_cas-IsAtomic (suc attempts) waits id mutator s quiet = elim (Option-cases (get id s.rows)) [
    | inl absent ↦ rw (absent, with_cas) (0, refl)
    | inr (current, found) ↦ elim (Answer-cases (mutator current)) [
      | threw e answer ↦ rw (found, answer, with_cas) (0, refl)
      | stopped a answer ↦ rw (found, answer, with_cas) (0, current, found, inl (answer, refl))
      | wants a change answer ↦
          let s1 = run_calls (waits 0) s in
          elim (Attempt-cases id change current s1) [
            | refused e ↦ rw (found, answer, e, with_cas) (1, ap (λ r. r.1) e)
            | missed e ↦
                rw (found, answer, e, with_cas, e)
                  (IsAtomic-later id mutator waits s _ (
                    with_cas-IsAtomic attempts (later_waits waits) id mutator
                      (run_calls (waits 1) s1) (λ n. quiet (suc (suc n)))))
            | written v after held version e unguarded_e ↦
                let same : v ≡ current =
                  IsLater-same (get id s.rows) (get id s1.rows)
                    (run_calls-IsLater id (waits 0) s (quiet 0)) found held version in
                rw (found, answer, e, with_cas, e)
                  (1, v, held, inr (change, ap mutator same ∙ answer, unguarded_e))
          ]
    ]
  ]
