-- ===== src/Arbac/Engine/Registration.antt =====
-- `registerRole` and `registerResource` of packages/arbac-core/src/arbac.ts keep the tables up to
-- date.
use mathlib.Core.Path.{subst}
use aoothjs.Base.{
  ◌≡◌, sym, inl, inr, String, true, none, some, [], ◌∷◌, arith, any, ◌==◌, eq_of_==, nat_eq,
  string_eq, Bool-cases, Option-cases,
}
use aoothjs.Base.Assoc.{Assoc, get, put}
use aoothjs.Base.Assoc.Laws.{get-put, get-put_self}
use aoothjs.Arbac.Engine.{
  Role, RoleForResource, Arbac, keys, register_role, register_resource, empty,
}
use aoothjs.Arbac.Engine.Sound.{IsFresh, IsSound}
use aoothjs.Arbac.Engine.Placing.{
  IsPresent, IsPresent-loop, roles-loop, IsKept, loop, IsFresh-loop, IsKept-loop, IsFresh-loop_self,
}

any-keys :
    {A : Type 0} (k : String) (m : Assoc String A) {v : A}
    → get k m ≡ some v
    → any (λ j. j == k) (keys m) ≡ true
unfolding get
any-keys k [] h = absurd (ground arith)
any-keys k ((j, w) ∷ m) {v} h = ground (arith, any-keys k m {v = v})

module _ {V S : Type 0} where
  IsKept-put_role :
      (id : String) (role : Role V S) (e : Arbac V S)
      → IsKept e
      → IsKept (record e { roles = put id role e.roles })
  IsKept-put_role id role e (heap, h) =
      (heap, record { placed = h.placed; memoed = h.memoed; remembered = h.remembered })

  IsKept-put_resource :
      (resource : String) (e : Arbac V S)
      → IsKept e
      → IsKept (record e { resources = put resource [] e.resources })
  unfolding get
  IsKept-put_resource resource e (heap, h) = (
    heap,
    record {
      placed = λ other r t o p q.
          ground (arith, h.placed other r t o, get-put resource other [] e.resources);
      memoed = h.memoed;
      remembered = h.remembered;
    },
  )

  IsSound-of :
      (e : Arbac V S) → ((resource r : String) → IsFresh e resource r) → IsKept e → IsSound e
  IsSound-of e fresh (heap, h) = record { fresh = fresh; heap = heap; in_heap = h }

  IsFresh-register_role :
      (role : Role V S) (e : Arbac V S)
      → IsSound e
      → (resource r : String) → IsFresh (register_role role e) resource r
  unfolding register_role
  IsFresh-register_role role e h resource r =
      let start : Arbac V S = record e { roles = put role.id role e.roles } in
      elim (Option-cases (get resource e.resources)) [
        | inl absent ↦
            IsFresh-loop (λ k. role.id) (λ k. k) (keys e.resources) start resource r (λ t p. cc)
        | inr (table, found) ↦ elim (Bool-cases (role.id == r)) [
          | inl same ↦ subst (IsFresh (register_role role e) resource) (eq_of_== role.id r same) (
              IsFresh-loop_self (λ k. role.id) (λ k. k) (keys e.resources) start resource
                (any-keys resource e.resources found) (get-put_self role.id role e.roles))
          | inr other ↦
              IsFresh-loop (λ k. role.id) (λ k. k) (keys e.resources) start resource r
                (λ t p. ground (arith, h.fresh resource r t, get-put role.id r role e.roles))
        ]
      ]

  -- Registering a role brings every table up to date, and keeps the memo right.
  pub register_role-IsSound :
      (role : Role V S) (e : Arbac V S) → IsSound e → IsSound (register_role role e)
  register_role-IsSound role e h =
      IsSound-of (register_role role e) (IsFresh-register_role role e h) (
        unfold register_role in
        IsKept-loop (λ k. role.id) (λ k. k) (keys e.resources) _
          (IsKept-put_role role.id role e (h.heap, h.in_heap)))

  register_resource_old :
      (resource : String) (e : Arbac V S) {table : Assoc String (RoleForResource V S)}
      → get resource e.resources ≡ some table
      → register_resource resource e ≡ e
  unfolding register_resource
  register_resource_old resource e found = rw (found, register_resource)

  abbrev compiled_for : String → Arbac V S → Arbac V S
  compiled_for added e =
      loop (λ k. k) (λ k. added) (keys e.roles) (record e { resources = put added [] e.resources })

  register_resource_new :
      (added : String) (e : Arbac V S)
      → get added e.resources ≡ none
      → register_resource added e ≡ compiled_for added e
  unfolding register_resource
  register_resource_new added e absent = rw (absent, register_resource)

  IsFresh-compiled_for :
      (added : String) (e : Arbac V S)
      → IsSound e
      → (resource r : String) → IsFresh (compiled_for added e) resource r
  unfolding get
  IsFresh-compiled_for added e h resource r =
      let start : Arbac V S = record e { resources = put added [] e.resources } in
      elim (Bool-cases (added == resource)) [
        | inr other ↦
            IsFresh-loop (λ k. k) (λ k. added) (keys e.roles) start resource r
              (λ t p. h.fresh resource r t (ground (arith, get-put added resource [] e.resources)))
        | inl same ↦ elim (Option-cases (get r e.roles)) [
          | inl unknown ↦
              IsFresh-loop (λ k. k) (λ k. added) (keys e.roles) start resource r
                (λ t p. ground (arith, get-put added resource [] e.resources))
          | inr (role, registered) ↦
              subst (λ x. IsFresh (compiled_for added e) x r) (eq_of_== added resource same)
                (IsFresh-loop_self (λ k. k) (λ k. added) (keys e.roles) start r
                  (any-keys r e.roles registered) registered)
        ]
      ]

  -- Registering a resource compiles every role for it, and keeps the memo right.
  pub register_resource-IsSound :
      (resource : String) (e : Arbac V S) → IsSound e → IsSound (register_resource resource e)
  register_resource-IsSound resource e h = elim (Option-cases (get resource e.resources)) [
    | inr (table, found) ↦ subst IsSound (sym (register_resource_old resource e found)) h
    | inl absent ↦ subst IsSound (sym (register_resource_new resource e absent)) (
        IsSound-of (compiled_for resource e) (IsFresh-compiled_for resource e h) (
          IsKept-loop (λ k. k) (λ k. resource) (keys e.roles) _
            (IsKept-put_resource resource e (h.heap, h.in_heap))))
  ]

  pub register_resource-IsPresent :
      (resource : String) (e : Arbac V S) → IsPresent (register_resource resource e) resource
  register_resource-IsPresent resource e = elim (Option-cases (get resource e.resources)) [
    | inr (table, found) ↦
        subst (λ x. IsPresent x resource) (sym (register_resource_old resource e found))
          (table, found)
    | inl absent ↦
        subst (λ x. IsPresent x resource) (sym (register_resource_new resource e absent))
          (IsPresent-loop (λ k. k) (λ k. resource) (keys e.roles) _ resource
            ([], get-put_self resource [] e.resources))
  ]

  pub roles-register_resource :
      (resource : String) (e : Arbac V S) → (register_resource resource e).roles ≡ e.roles
  roles-register_resource resource e = elim (Option-cases (get resource e.resources)) [
    | inr (table, found) ↦ rw (register_resource_old resource e found)
    | inl absent ↦
        rw (register_resource_new resource e absent)
          (roles-loop (λ k. k) (λ k. resource) (keys e.roles) _)
  ]

  pub empty-IsSound : IsSound (empty {V = V} {S = S})
  unfolding get
  empty-IsSound = record {
    fresh = λ resource r t p. cc;
    heap = λ u. record { id = ""; allow = []; deny = [] };
    in_heap = record {
      placed = λ resource r t o p q. absurd (ground arith);
      memoed = λ u per p. absurd (ground arith);
      remembered = λ u per action m p q. absurd (ground arith);
    };
  }
