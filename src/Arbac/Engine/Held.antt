-- ===== src/Arbac/Engine/Held.antt =====
-- The loop of packages/arbac-core/src/arbac.ts over the role ids finds the compiled form of the
-- registered roles among them.
use aoothjs.Base.{
  ℕ, ◌<◌, ◌≡◌, refl, inl, inr, String, none, some, List, [], ◌∷◌, arith, ◌∙◌, any, map, string_eq,
  Option-cases, All, Bool-cases, ◌==◌,
}
use aoothjs.Base.Assoc.{Assoc, get}
use aoothjs.Arbac.Engine.{Role, Compiled, RoleForResource, Arbac, compile}
use aoothjs.Arbac.Engine.Evaluate.{warn, held_roles}
use aoothjs.Arbac.Engine.Direct.{held}
use aoothjs.Arbac.Engine.Sound.{rules_of, compiled_of, IsPlaced}
use aoothjs.Arbac.Engine.Memo.{Leaves, Leaves-refl, Leaves-trans}

module _ {V S : Type 0} where
  -- the registered roles among the ids, each with its id
  unfoldable pub held_with_ids : Assoc String (Role V S) → List String → List (Role V S × String)
  held_with_ids roles [] = []
  held_with_ids roles (r ∷ ids) = elim (get r roles) [
    | none ↦ held_with_ids roles ids
    | some role ↦ (role, r) ∷ held_with_ids roles ids
  ]

  pub map-held_with_ids :
      (roles : Assoc String (Role V S)) (ids : List String)
      → map (λ p. p.0) (held_with_ids roles ids) ≡ held roles ids
  unfolding held held_with_ids
  map-held_with_ids roles [] = refl
  map-held_with_ids roles (r ∷ ids) = ground (arith, map-held_with_ids roles ids)

  roles-warn : (r : String) (e : Arbac V S) → (warn r e).roles ≡ e.roles
  unfolding warn
  roles-warn r e = ground arith

  next-warn : (r : String) (e : Arbac V S) → (warn r e).next ≡ e.next
  unfolding warn
  next-warn r e = ground arith

  module _ (heap : ℕ → Compiled V S) where
    warn-Leaves : (r : String) (e : Arbac V S) → IsPlaced heap e → Leaves heap e (warn r e)
    unfolding warn
    warn-Leaves r e h = elim (Bool-cases (any (λ w. w == r) e.warned)) [
      | inl old ↦ rw (old, warn) (Leaves-refl heap e h)
      | inr new ↦
          rw (new, warn)
            (record {
              roles = refl;
              resources = refl;
              next = refl;
              in_heap = record { placed = h.placed; memoed = h.memoed; remembered = h.remembered };
            })
    ]

    module _ (resource : String) (table : Assoc String (RoleForResource V S))
        (roles : Assoc String (Role V S)) (next : ℕ)
        (fresh : (r : String) → rules_of (get r table) ≡ compiled_of resource r (get r roles))
        (placed : (r : String) (o : RoleForResource V S)
          → get r table ≡ some o
          → (o.identity < next) × (heap o.identity ≡ o.rules)) where
      abbrev pub IsHeldBy : List String → List (RoleForResource V S) → Type 0
      IsHeldBy ids found =
          (map (λ o. o.rules) found ≡ map (λ p. compile resource p.0 p.1) (held_with_ids roles ids))
          × All (λ o. (o.identity < next) × (heap o.identity ≡ o.rules)) found

      found_one :
          (r : String) (o : RoleForResource V S)
          → get r table ≡ some o
          → (role : Role V S) × (get r roles ≡ some role) × (o.rules ≡ compile resource role r)
      found_one r o hit = elim (Option-cases (get r roles)) [
        | inl unknown ↦ absurd (ground (arith, fresh r))
        | inr (role, registered) ↦ (role, registered, ground (arith, fresh r))
      ]

      missed_one : (r : String) → get r table ≡ none → get r roles ≡ none
      missed_one r miss = ground (arith, fresh r)

      pub held_roles_lem :
          (ids : List String) (e : Arbac V S)
          → e.roles ≡ roles
          → IsPlaced heap e
          → IsHeldBy ids (held_roles table ids e).0 × Leaves heap e (held_roles table ids e).1
      unfolding held_roles held_with_ids
      held_roles_lem [] e same h = ((refl, tt), Leaves-refl heap e h)
      held_roles_lem (r ∷ ids) e same h = elim (Option-cases (get r table)) [
        | inr (o, hit) ↦
            let (role, registered, compiled) = found_one r o hit in
            let ((rules, in_heap), left) = held_roles_lem ids e same h in
            rw (hit, registered, held_roles, held_with_ids)
              ((cc (compiled, rules), (placed r o hit, in_heap)), left)
        | inl miss ↦
            let unknown = missed_one r miss in
            let ((rules, in_heap), left) =
              held_roles_lem ids (warn r e) (roles-warn r e ∙ same) (warn-Leaves r e h).in_heap in
            let unknown_here : get r e.roles ≡ none = rw same unknown in
            rw (miss, unknown_here, unknown, held_roles, held_with_ids)
              ((rules, in_heap), Leaves-trans heap (warn-Leaves r e h) left)
      ]
