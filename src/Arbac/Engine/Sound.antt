-- ===== src/Arbac/Engine/Sound.antt =====
-- When the tables and the memo of packages/arbac-core/src/arbac.ts agree with the registered roles.
use aoothjs.Base.{ℕ, ◌≤◌, ◌<◌, ◌≡◌, String, Option, none, some, length, nat_eq, string_eq}
use aoothjs.Base.Assoc.{Assoc, get}
use aoothjs.Arbac.Engine.{Role, Compiled, RoleForResource, ActionMatch, Arbac, compile}
use aoothjs.Arbac.Engine.Evaluate.{match_of, max_memoized_actions}

module _ {V S : Type 0} where
  abbrev pub rules_of : Option (RoleForResource V S) → Option (Compiled V S)
  rules_of none = none
  rules_of (some o) = some o.rules

  abbrev pub compiled_of : String → String → Option (Role V S) → Option (Compiled V S)
  compiled_of resource r none = none
  compiled_of resource r (some role) = some (compile resource role r)

  -- the table of the resource, if it has one, holds for the id the compiled role of that id
  abbrev pub IsFresh : Arbac V S → String → String → Type 0
  IsFresh e resource r =
      (table : Assoc String (RoleForResource V S))
      → get resource e.resources ≡ some table
      → rules_of (get r table) ≡ compiled_of resource r (get r e.roles)

  -- `heap` gives the fields of the object with an identity
  pub record IsPlaced (heap : ℕ → Compiled V S) (e : Arbac V S) : Type 0 where
    pub placed :
        (resource r : String) (table : Assoc String (RoleForResource V S)) (o : RoleForResource V S)
        → get resource e.resources ≡ some table
        → get r table ≡ some o
        → (o.identity < e.next) × (heap o.identity ≡ o.rules)
    pub memoed :
        (u : ℕ) (per_action : Assoc String (ActionMatch V S))
        → get u e.memo ≡ some per_action
        → (u < e.next) × (length per_action ≤ max_memoized_actions)
    pub remembered :
        (u : ℕ) (per_action : Assoc String (ActionMatch V S)) (action : String)
        (m : ActionMatch V S)
        → get u e.memo ≡ some per_action
        → get action per_action ≡ some m
        → m ≡ match_of (heap u) action

  -- every table is up to date, and the memo holds what would be computed
  pub record IsSound (e : Arbac V S) : Type 0 where
    pub fresh : (resource r : String) → IsFresh e resource r
    pub heap : ℕ → Compiled V S
    pub in_heap : IsPlaced heap e
