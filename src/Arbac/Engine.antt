-- ===== src/Arbac/Engine.antt =====
-- packages/arbac-core/src/types.ts and arbac.ts: the roles, the compiled rules of each resource,
-- and their registration. A role or resource id is a key of a JavaScript object used as a map; the
-- names that every object inherits (`constructor` and the like) are not modelled.
pub mod Evaluate
pub mod Direct
pub mod Gather
pub mod Sound
pub mod Placing
pub mod Memo
pub mod Held
pub mod Registration
pub mod Passes
pub mod Refines
pub mod Attenuation
mod Tests
use aoothjs.Base.{
  ℕ, suc, ◌+◌, ◌-◌, ◌/◌, ◌%◌, String, Bool, true, false, Option, none, some, List, [], ◌∷◌, ◌++◌,
  map, ltb, if◌then◌else◌, string_eq, units,
}
use aoothjs.Base.Assoc.{Assoc, get, put}
use aoothjs.Arbac.Pattern.{Part, arbac_pattern_to_regex, test}

pub data Effect : Type 0 where
  allow deny : Effect

-- the attributes of a user, an object with values in `V`
abbrev pub Attrs : Type 0 → Type 0
Attrs V = Assoc String V

-- `TArbacRule`: an absent effect is `none`, and a predicate that returns null or undefined gives
-- `none`
pub record Rule (V S : Type 0) : Type 0 where
  pub resource : String
  pub action : String
  pub effect : Option Effect
  pub scope : Option (Attrs V → String → Option S)

-- `TArbacRole`, less the name and the description, which nothing reads
pub record Role (V S : Type 0) : Type 0 where
  pub id : String
  pub rules : List (Rule V S)

-- `TArbacCompiledRule`
pub record CompiledRule (V S : Type 0) : Type 0 where
  pub action : String
  pub action_regex : List Part
  pub scope : Option (Attrs V → String → Option S)

-- the fields of `TArbacRoleForResource`
pub record Compiled (V S : Type 0) : Type 0 where
  pub id : String
  pub allow : List (CompiledRule V S)
  pub deny : List (CompiledRule V S)

-- a `TArbacRoleForResource` object: its identity, the key of the memo, and its fields
pub record RoleForResource (V S : Type 0) : Type 0 where
  pub identity : ℕ
  pub rules : Compiled V S

-- `ActionMatch`
pub record ActionMatch (V S : Type 0) : Type 0 where
  pub deny : Bool
  pub allow : List (CompiledRule V S)

-- the fields of the class; `next` is the identity of the next object, and `warned` also stands for
-- the warnings that were printed
pub record Arbac (V S : Type 0) : Type 0 where
  pub roles : Assoc String (Role V S)
  pub resources : Assoc String (Assoc String (RoleForResource V S))
  pub warned : List String
  pub memo : Assoc ℕ (Assoc String (ActionMatch V S))
  pub next : ℕ

abbrev pub keys {ℓ κ} : {K : Type ℓ} {A : Type κ} → Assoc K A → List K
keys m = map (λ entry. entry.0) m

-- `for (const key of list) …`
unfoldable pub for_each {ℓ κ} : {A : Type ℓ} {X : Type κ} → (A → X → X) → List A → X → X
for_each f [] x = x
for_each f (a ∷ as') x = for_each f as' (f a x)

module _ {V S : Type 0} where
  abbrev pub empty : Arbac V S
  empty = record { roles = []; resources = []; warned = []; memo = []; next = 0 }

  -- `rule.effect || "allow"`
  unfoldable pub effect_of : Rule V S → Effect
  effect_of rule = elim rule.effect [ none ↦ allow | some e ↦ e ]

  -- `target[effect].push(…)`
  unfoldable pub push : Effect → CompiledRule V S → Compiled V S → Compiled V S
  push allow rule target = record target { allow = target.allow ++ rule ∷ [] }
  push deny rule target = record target { deny = target.deny ++ rule ∷ [] }

  unfoldable pub compile_rule : Rule V S → CompiledRule V S
  compile_rule rule = record {
    action = rule.action;
    action_regex = arbac_pattern_to_regex (units rule.action);
    scope = rule.scope;
  }

  unfoldable pub covers : String → Rule V S → Bool
  covers resource_id rule = test (arbac_pattern_to_regex (units rule.resource)) (units resource_id)

  -- one round of the loop over `role.rules`
  unfoldable pub compile_step : String → Rule V S → Compiled V S → Compiled V S
  unfolding effect_of push compile_rule covers
  compile_step resource_id rule target =
      if covers resource_id rule then push (effect_of rule) (compile_rule rule) target else target

  unfoldable pub compile : String → Role V S → String → Compiled V S
  unfolding compile_step for_each
  compile resource_id role role_id =
      for_each (compile_step resource_id) role.rules
        (record { id = role_id; allow = []; deny = [] })

  -- the compiled role goes into the table of the resource, as a new object
  unfoldable pub place :
      String → Role V S → String → Assoc String (RoleForResource V S) → Arbac V S → Arbac V S
  place role_id role resource_id resource e =
      let object : RoleForResource V S = record {
        identity = e.next;
        rules = compile resource_id role role_id;
      } in
      record e {
        resources = put resource_id (put role_id object resource) e.resources;
        next = suc e.next;
      }

  -- both callers pass ids that are registered; for others the source would throw
  unfoldable pub eval_role_for_resource : String → String → Arbac V S → Arbac V S
  unfolding place
  eval_role_for_resource role_id resource_id e = elim (get resource_id e.resources) [
    | none ↦ e
    | some resource ↦ elim (get role_id e.roles) [
      | none ↦ e
      | some role ↦ place role_id role resource_id resource e
    ]
  ]

  unfoldable pub register_role : Role V S → Arbac V S → Arbac V S
  register_role role e =
      for_each (eval_role_for_resource role.id) (keys e.resources)
        (record e { roles = put role.id role e.roles })

  unfoldable pub register_resource : String → Arbac V S → Arbac V S
  register_resource resource e = elim (get resource e.resources) [
    | some _ ↦ e
    | none ↦
        for_each (λ key. eval_role_for_resource key resource) (keys e.roles)
          (record e { resources = put resource [] e.resources })
  ]
