-- ===== src/User/Store/Done.antt =====
-- What a patch that touches no handle has done when `withCas` of
-- packages/user/src/store/memory.ts has written it.
use aoothjs.Base.{
  ℕ, ◌≡◌, refl, sym, ap, ◌∙◌, inl, inr, String, Option, none, some, [], arith, text_eq, nat_eq,
  string_eq, All,
}
use aoothjs.Base.Assoc.{get}
use aoothjs.User.Types.{UserCredentials, UserPatch, UserStoreUpdate, Result, ok}
use aoothjs.User.Store.{UserStore, Mutator, updated, update, with_cas}
use aoothjs.User.Store.Later.{IsNoBirth}
use aoothjs.User.Store.Cas.{
  Waits, as_others, run_waits, unguarded, IsDone, IsAtomic, with_cas-IsAtomic,
}
use aoothjs.User.Store.Plain.{IsPlain, with_row, update_plain}
use mathlib.Core.Path.{subst}

-- the update that sets a patch
abbrev pub of_patch : UserPatch → UserStoreUpdate
of_patch patch = record { set = some patch; inc = []; expected_version = none }

module _ {A : Type 0} where
  pub done_patch :
      (id : String) (answer : Result (A × Option UserStoreUpdate)) (a b : A) (patch : UserPatch)
      (u : UserCredentials) (before after : UserStore)
      → get id before.rows ≡ some u
      → IsPlain (some patch)
      → answer ≡ ok (b, some (of_patch patch))
      → IsDone id answer a before after
      → (a ≡ b) × (after ≡ with_row id (updated (of_patch patch) u) before)
  done_patch id answer a b patch u before after found plain wants (inl (idle, same)) =
      absurd (ground (arith, wants, idle))
  done_patch id answer a b patch u before after found plain wants (inr (change, wants', made)) =
      let both : ok (a, some change) ≡ ok (b, some (of_patch patch)) = sym wants' ∙ wants in
      let which : (a ≡ b) × (change ≡ of_patch patch) = ground (arith, both) in
      let e = update_plain id (of_patch patch) before found refl plain in
      (
        which.0,
        ap (λ r. r.1) (sym made)
            ∙ ap (λ c. (update id (unguarded c) before).1) which.1
            ∙ ap (λ r. r.1) e,
      )

  pub done_idle :
      (id : String) (answer : Result (A × Option UserStoreUpdate)) (a b : A)
      (before after : UserStore)
      → answer ≡ ok (b, none)
      → IsDone id answer a before after
      → (a ≡ b) × (after ≡ before)
  done_idle id answer a b before after idle (inl (idle', same)) =
      let both : ok (a, none) ≡ ok (b, none) = sym idle' ∙ idle in (ground (arith, both), same)
  done_idle id answer a b before after idle (inr (change, wants, made)) =
      absurd (ground (arith, wants, idle))

  -- a success of `withCas` is what its mutator asked for on the row that stood there
  pub with_cas_ok :
      (attempts : ℕ) (waits : Waits) (id : String) (mutator : Mutator A) (s after : UserStore)
      {a : A}
      → ((n : ℕ) → All (IsNoBirth id) (waits n))
      → with_cas attempts (as_others waits) id mutator s ≡ (ok a, after)
      → (m : ℕ) × (u : UserCredentials) × (get id (run_waits m waits s).rows ≡ some u)
        × IsDone id (mutator u) a (run_waits m waits s) after
  with_cas_ok attempts waits id mutator s after quiet e =
      subst (IsAtomic id mutator waits s) e (with_cas-IsAtomic attempts waits id mutator s quiet)
