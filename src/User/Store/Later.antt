-- ===== src/User/Store/Later.antt =====
-- What the calls of packages/user/src/store/memory.ts do to the version of one row.
use aoothjs.Base.{
  ℕ, ◌+◌, ◌<◌, ◌≡◌, refl, sym, ap, ◌∙◌, ◌⊎◌, inl, inr, String, false, ◌||◌, Option, none, some,
  List, [], ◌∷◌, arith, Bool-cases, Option-cases, any, text_eq, nat_eq, string_eq, ◌==◌, eq_of_==,
  All,
}
use aoothjs.Base.Assoc.{get, delete}
use aoothjs.Base.Assoc.Laws.{get-delete}
use aoothjs.Base.Assoc.Entries.{get-put_here, get-put_there}
use aoothjs.User.Types.{UserCredentials, UserPatch, CounterPath, UserStoreUpdate}
use aoothjs.User.Patch.{deep_merge, increment_at_path}
use aoothjs.User.Store.{
  UserStore, with_id, version_or_zero, version_of, is_stale, merge_set, set_collides, increment_all,
  updated, create, update, delete_user, handles_collide,
}
use aoothjs.User.Store.Calls.{StoreCall, create_call, update_call, delete_call, run_call, run_calls}

-- a call that makes no row under the id
abbrev pub IsNoBirth : String → StoreCall → Type 0
IsNoBirth id (create_call minted user) = ((with_id minted user).id == id) ≡ false
IsNoBirth id (update_call other change) = Unit
IsNoBirth id (delete_call other expected) = Unit

-- a row later: gone, as it was, or with a higher version
abbrev pub IsLater : Option UserCredentials → Option UserCredentials → Type 0
IsLater none none = Unit
IsLater none (some v) = ¬ Unit
IsLater (some u) none = Unit
IsLater (some u) (some v) = (v ≡ u) ⊎ (version_of u < version_of v)

IsLater-refl : (o : Option UserCredentials) → IsLater o o
IsLater-refl none = tt
IsLater-refl (some u) = inl refl

IsLater-trans : (a b c : Option UserCredentials) → IsLater a b → IsLater b c → IsLater a c
IsLater-trans none none c h k = k
IsLater-trans none (some v) c h k = absurd (h tt)
IsLater-trans (some u) none none h k = tt
IsLater-trans (some u) none (some w) h k = absurd (k tt)
IsLater-trans (some u) (some v) none h k = tt
IsLater-trans (some u) (some v) (some w) (inl same) k = rw (← same) k
IsLater-trans (some u) (some v) (some w) (inr more) (inl same) = inr (rw same more)
IsLater-trans (some u) (some v) (some w) (inr more) (inr again) = inr (omega arith)

increment_all-version :
    (u : UserCredentials) (inc : List (CounterPath × ℕ)) → (increment_all u inc).version ≡ u.version
unfolding increment_all increment_at_path
increment_all-version u [] = refl
increment_all-version u ((path, n) ∷ inc) = increment_all-version (increment_at_path u path n) inc

merge_set-version :
    (u : UserCredentials) (set : Option UserPatch) → (merge_set u set).version ≡ u.version
unfolding deep_merge
merge_set-version u none = refl
merge_set-version u (some patch) = refl

pub version_of-updated :
    (change : UserStoreUpdate) (u : UserCredentials)
    → version_of (updated change u) ≡ version_of u + 1
unfolding updated
version_of-updated change u =
    ap (λ v. version_or_zero v + 1)
      (increment_all-version (merge_set u change.set) change.inc ∙ merge_set-version u change.set)

update-IsLater :
    (id other : String) (change : UserStoreUpdate) (s : UserStore)
    → IsLater (get id s.rows) (get id (update other change s).1.rows)
unfolding update
update-IsLater id other change s = elim (Option-cases (get other s.rows)) [
  | inl absent ↦ rw (absent, update) (IsLater-refl (get id s.rows))
  | inr (user, found) ↦ elim (Bool-cases (is_stale change.expected_version user)) [
    | inl stale ↦ rw (found, stale, update) (IsLater-refl (get id s.rows))
    | inr fresh ↦ elim (Bool-cases (set_collides s other change.set)) [
      | inl taken ↦ rw (found, fresh, taken, update) (IsLater-refl (get id s.rows))
      | inr free ↦
          rw (found, fresh, free, update)
            (elim (Bool-cases (other == id)) [
              | inl here ↦
                  let own : get id s.rows ≡ some user =
                    ap (λ i. get i s.rows) (sym (eq_of_== other id here)) ∙ found in
                  rw (own, get-put_here other id (updated change user) s.rows here)
                    (inr (omega (arith, version_of-updated change user)))
              | inr there ↦
                  rw (get-put_there other id (updated change user) s.rows there)
                    (IsLater-refl (get id s.rows))
            ])
    ]
  ]
]

create-IsLater :
    (id minted : String) (user : UserCredentials) (s : UserStore)
    → ((with_id minted user).id == id) ≡ false
    → IsLater (get id s.rows) (get id (create minted user s).1.rows)
unfolding create
create-IsLater id minted user s other =
    let cloned = with_id minted user in
    elim (Bool-cases (
      any (λ entry. entry.1.username == cloned.username) s.rows
      || handles_collide s.handle_fields cloned.columns none s.rows)) [
        | inl taken ↦ rw (taken, create) (IsLater-refl (get id s.rows))
        | inr free ↦
            rw
              (
                free,
                create,
                get-put_there cloned.id id (record cloned { version = some 0 }) s.rows other,
              )
              (IsLater-refl (get id s.rows))
      ]

delete_user-IsLater :
    (id other : String) (expected : Option ℕ) (s : UserStore)
    → IsLater (get id s.rows) (get id (delete_user other expected s).1.rows)
unfolding delete_user
delete_user-IsLater id other expected s = elim (Option-cases (get other s.rows)) [
  | inl absent ↦ rw (absent, delete_user) (IsLater-refl (get id s.rows))
  | inr (user, found) ↦ elim (Bool-cases (is_stale expected user)) [
    | inl stale ↦ rw (found, stale, delete_user) (IsLater-refl (get id s.rows))
    | inr fresh ↦
        rw (found, fresh, delete_user)
          (elim (Bool-cases (other == id)) [
            | inl here ↦
                let own : get id s.rows ≡ some user =
                  ap (λ i. get i s.rows) (sym (eq_of_== other id here)) ∙ found in
                let gone : get id (delete other s.rows) ≡ none =
                  ground (arith, get-delete other id s.rows, here) in
                rw (own, gone) tt
            | inr there ↦
                let kept : get id (delete other s.rows) ≡ get id s.rows =
                  ground (arith, get-delete other id s.rows, there) in
                rw kept (IsLater-refl (get id s.rows))
          ])
  ]
]

run_call-IsLater :
    (id : String) (c : StoreCall) (s : UserStore)
    → IsNoBirth id c
    → IsLater (get id s.rows) (get id (run_call c s).rows)
run_call-IsLater id (create_call minted user) s h = create-IsLater id minted user s h
run_call-IsLater id (update_call other change) s h = update-IsLater id other change s
run_call-IsLater id (delete_call other expected) s h = delete_user-IsLater id other expected s

pub run_calls-IsLater :
    (id : String) (cs : List StoreCall) (s : UserStore)
    → All (IsNoBirth id) cs
    → IsLater (get id s.rows) (get id (run_calls cs s).rows)
run_calls-IsLater id [] s h = IsLater-refl (get id s.rows)
run_calls-IsLater id (c ∷ cs) s h =
    IsLater-trans (get id s.rows) (get id (run_call c s).rows)
      (get id (run_calls cs (run_call c s)).rows) (run_call-IsLater id c s h.0)
      (run_calls-IsLater id cs (run_call c s) h.1)

-- a row that is there later with the same version is the same row
pub IsLater-same :
    (before after : Option UserCredentials) {u v : UserCredentials}
    → IsLater before after
    → before ≡ some u
    → after ≡ some v
    → version_of v ≡ version_of u
    → v ≡ u
IsLater-same none after h e f w = absurd (ground arith)
IsLater-same (some b) none h e f w = absurd (ground arith)
IsLater-same (some b) (some c) {u} {v} (inl same) e f w =
    let left : b ≡ u = ground arith in let right : c ≡ v = ground arith in sym right ∙ same ∙ left
IsLater-same (some b) (some c) {u} {v} (inr more) e f w =
    let left : b ≡ u = ground arith in
    let right : c ≡ v = ground arith in
    let versions : (version_of b ≡ version_of u) × (version_of c ≡ version_of v) =
      (ap version_of left, ap version_of right) in
    absurd (omega arith)
