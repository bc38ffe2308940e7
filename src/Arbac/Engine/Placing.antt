-- ===== src/Arbac/Engine/Placing.antt =====
-- `evalRoleForResource` of packages/arbac-core/src/arbac.ts, once and in the loops of its callers:
-- which tables it brings up to date, and what it leaves as it was.
use mathlib.Core.Path.{subst}
use aoothjs.Base.{
  ℕ, ◌≡◌, sym, ◌∙◌, refl, ◌⊎◌, inl, inr, String, true, none, some, List, [], ◌∷◌, arith, eq_iff,
  any, ◌==◌, eq_of_==, nat_beq, nat_eq, string_eq, if◌then◌else◌, Bool-cases, Option-cases,
}
use aoothjs.Base.Assoc.{Assoc, get, put}
use aoothjs.Base.Assoc.Laws.{get-put}
use aoothjs.Arbac.Engine.{
  Role, Compiled, RoleForResource, Arbac, for_each, compile, place, eval_role_for_resource,
}
use aoothjs.Arbac.Engine.Sound.{IsFresh, IsPlaced}

module _ {V S : Type 0} where
  module _ (role_id : String) (role : Role V S) (resource_id : String)
      (table : Assoc String (RoleForResource V S)) (e : Arbac V S)
      (found : get resource_id e.resources ≡ some table)
      (registered : get role_id e.roles ≡ some role) where
    object : RoleForResource V S
    object = record { identity = e.next; rules = compile resource_id role role_id }

    IsFresh-place :
        (resource r : String)
        → IsFresh e resource r
        → IsFresh (place role_id role resource_id table e) resource r
    unfolding place object
    IsFresh-place resource r h t p = ground (
      arith,
      h t,
      h table,
      found,
      registered,
      get-put resource_id resource (put role_id object table) e.resources,
      get-put role_id r object table,
      eq_iff role_id r,
      eq_iff resource_id resource,
    )

    IsFresh-place_self : IsFresh (place role_id role resource_id table e) resource_id role_id
    unfolding place object
    IsFresh-place_self t p = ground (
      arith,
      registered,
      get-put resource_id resource_id (put role_id object table) e.resources,
      get-put role_id role_id object table,
      eq_iff role_id role_id,
      eq_iff resource_id resource_id,
    )

    module _ (heap : ℕ → Compiled V S) (h : IsPlaced heap e) where
      grown : ℕ → Compiled V S
      grown u = if nat_beq u e.next then compile resource_id role role_id else heap u

      IsPlaced-place : IsPlaced grown (place role_id role resource_id table e)
      unfolding place object grown
      IsPlaced-place = record {
        placed = λ resource r t o p q. ground (
          arith,
          h.placed resource r t o,
          h.placed resource_id r table o,
          found,
          get-put resource_id resource (put role_id object table) e.resources,
          get-put role_id r object table,
        );
        memoed = λ u per p. ground (arith, h.memoed u per);
        remembered =
            λ u per action m p q. ground (arith, h.memoed u per, h.remembered u per action m);
      }

  IsPresent-place :
      (role_id : String) (role : Role V S) (resource_id : String)
      (table : Assoc String (RoleForResource V S)) (e : Arbac V S) (resource : String)
      → ((t : Assoc String (RoleForResource V S)) × (get resource e.resources ≡ some t))
      → (t : Assoc String (RoleForResource V S)) × (get resource
            (place role_id role resource_id table e).resources
          ≡ some t)
  unfolding place
  IsPresent-place role_id role resource_id table e resource (t, h) =
      let added : Assoc String (RoleForResource V S) =
        put role_id (record { identity = e.next; rules = compile resource_id role role_id })
          table in
      elim (Bool-cases (resource_id == resource)) [
        | inl same ↦ (added, ground (arith, get-put resource_id resource added e.resources))
        | inr other ↦ (t, ground (arith, get-put resource_id resource added e.resources))
      ]

  -- an evaluation of a role for a resource that has a table, and what it does
  record IsPlacedBy (role_id resource_id : String) (e : Arbac V S) : Type 0 where
    table : Assoc String (RoleForResource V S)
    role : Role V S
    found : get resource_id e.resources ≡ some table
    registered : get role_id e.roles ≡ some role
    result : eval_role_for_resource role_id resource_id e ≡ place role_id role resource_id table e

  eval-cases :
      (role_id resource_id : String) (e : Arbac V S)
      → ((eval_role_for_resource role_id resource_id e ≡ e)
          × ((get resource_id e.resources ≡ none) ⊎ (get role_id e.roles ≡ none)))
        ⊎ IsPlacedBy role_id resource_id e
  unfolding eval_role_for_resource
  eval-cases role_id resource_id e = elim (Option-cases (get resource_id e.resources)) [
    | inl absent ↦ inl (rw (absent, eval_role_for_resource), inl absent)
    | inr (table, found) ↦ elim (Option-cases (get role_id e.roles)) [
      | inl unknown ↦ inl (rw (found, unknown, eval_role_for_resource), inr unknown)
      | inr (role, registered) ↦ inr (record {
        table = table;
        role = role;
        found = found;
        registered = registered;
        result = rw (found, registered, eval_role_for_resource);
      })
    ]
  ]

  IsFresh-eval :
      (role_id resource_id : String) (e : Arbac V S) (resource r : String)
      → IsFresh e resource r
      → IsFresh (eval_role_for_resource role_id resource_id e) resource r
  IsFresh-eval role_id resource_id e resource r h = elim (eval-cases role_id resource_id e) [
    | inl same ↦ subst (λ x. IsFresh x resource r) (sym same.0) h
    | inr c ↦
        subst (λ x. IsFresh x resource r) (sym c.result)
          (IsFresh-place role_id c.role resource_id c.table e c.found c.registered resource r h)
  ]

  IsFresh-eval_self :
      (role_id resource_id : String) (e : Arbac V S) {role : Role V S}
      → get role_id e.roles ≡ some role
      → IsFresh (eval_role_for_resource role_id resource_id e) resource_id role_id
  IsFresh-eval_self role_id resource_id e k = elim (eval-cases role_id resource_id e) [
    | inl (same, inl absent) ↦ subst (λ x. IsFresh x resource_id role_id) (sym same) (λ t p. cc)
    | inl (same, inr unknown) ↦ subst (λ x. IsFresh x resource_id role_id) (sym same) (λ t p. cc)
    | inr c ↦
        subst (λ x. IsFresh x resource_id role_id) (sym c.result)
          (IsFresh-place_self role_id c.role resource_id c.table e c.found c.registered)
  ]

  roles-eval :
      (role_id resource_id : String) (e : Arbac V S)
      → (eval_role_for_resource role_id resource_id e).roles ≡ e.roles
  unfolding eval_role_for_resource
  roles-eval role_id resource_id e = ground arith

  abbrev pub IsKept : Arbac V S → Type 0
  IsKept e = (heap : ℕ → Compiled V S) × IsPlaced heap e

  IsKept-eval :
      (role_id resource_id : String) (e : Arbac V S)
      → IsKept e
      → IsKept (eval_role_for_resource role_id resource_id e)
  IsKept-eval role_id resource_id e (heap, h) = elim (eval-cases role_id resource_id e) [
    | inl same ↦ subst IsKept (sym same.0) (heap, h)
    | inr c ↦ subst IsKept (sym c.result) (
      grown role_id c.role resource_id c.table e c.found c.registered heap h,
      IsPlaced-place role_id c.role resource_id c.table e c.found c.registered heap h,
    )
  ]

  abbrev pub IsPresent : Arbac V S → String → Type 0
  IsPresent e resource =
      (table : Assoc String (RoleForResource V S)) × (get resource e.resources ≡ some table)

  IsPresent-eval :
      (role_id resource_id : String) (e : Arbac V S) (resource : String)
      → IsPresent e resource
      → IsPresent (eval_role_for_resource role_id resource_id e) resource
  IsPresent-eval role_id resource_id e resource (t, h) = elim (eval-cases role_id resource_id e) [
    | inl same ↦ subst (λ x. IsPresent x resource) (sym same.0) (t, h)
    | inr c ↦
        subst (λ x. IsPresent x resource) (sym c.result)
          (IsPresent-place role_id c.role resource_id c.table e resource (t, h))
  ]

  -- a loop of such evaluations, over the roles or over the resources
  module _ (role_of resource_of : String → String) where
    abbrev pub loop : List String → Arbac V S → Arbac V S
    loop ks e = for_each (λ k. eval_role_for_resource (role_of k) (resource_of k)) ks e

    pub IsFresh-loop :
        (ks : List String) (e : Arbac V S) (resource r : String)
        → IsFresh e resource r
        → IsFresh (loop ks e) resource r
    unfolding for_each
    IsFresh-loop [] e resource r h = h
    IsFresh-loop (k ∷ ks) e resource r h =
        IsFresh-loop ks _ resource r (IsFresh-eval (role_of k) (resource_of k) e resource r h)

    pub IsKept-loop : (ks : List String) (e : Arbac V S) → IsKept e → IsKept (loop ks e)
    unfolding for_each
    IsKept-loop [] e h = h
    IsKept-loop (k ∷ ks) e h = IsKept-loop ks _ (IsKept-eval (role_of k) (resource_of k) e h)

    pub IsFresh-loop_self :
        (ks : List String) (e : Arbac V S) (k : String) {role : Role V S}
        → any (λ j. j == k) ks ≡ true
        → get (role_of k) e.roles ≡ some role
        → IsFresh (loop ks e) (resource_of k) (role_of k)
    unfolding for_each
    IsFresh-loop_self [] e k {role} m g = absurd (ground arith)
    IsFresh-loop_self (j ∷ ks) e k {role} m g = elim (Bool-cases (j == k)) [
      | inl here ↦ rw (eq_of_== j k here) (
          IsFresh-loop ks _ (resource_of k) (role_of k)
            (IsFresh-eval_self (role_of k) (resource_of k) e g))
      | inr there ↦
          IsFresh-loop_self ks _ k {role = role} (ground arith)
            (rw (roles-eval (role_of j) (resource_of j) e) g)
    ]

    pub IsPresent-loop :
        (ks : List String) (e : Arbac V S) (resource : String)
        → IsPresent e resource
        → IsPresent (loop ks e) resource
    unfolding for_each
    IsPresent-loop [] e resource h = h
    IsPresent-loop (k ∷ ks) e resource h =
        IsPresent-loop ks _ resource (IsPresent-eval (role_of k) (resource_of k) e resource h)

    pub roles-loop : (ks : List String) (e : Arbac V S) → (loop ks e).roles ≡ e.roles
    unfolding for_each
    roles-loop [] e = refl
    roles-loop (k ∷ ks) e = roles-loop ks _ ∙ roles-eval (role_of k) (resource_of k) e
