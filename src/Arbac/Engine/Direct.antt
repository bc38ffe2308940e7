-- ===== src/Arbac/Engine/Direct.antt =====
-- What packages/arbac-core/src/arbac.ts promises, on the roles as they were registered: without
-- compiled rules, tables of resources, memo or lazily found attributes.
use aoothjs.Base.{
  units, String, Bool, true, false, ◌&&◌, Option, none, some, List, [], ◌∷◌, ◌++◌, any, filter,
  ◌==◌, string_eq, if◌then◌else◌,
}
use aoothjs.Base.Assoc.{Assoc, get}
use aoothjs.Arbac.Pattern.{arbac_pattern_to_regex, test}
use aoothjs.Arbac.Engine.{Effect, allow, deny, Attrs, Rule, Role, effect_of, covers}
use aoothjs.Arbac.Engine.Evaluate.{
  EvalResult, denied, allowed, Request, known, fetched, Attenuation, User, string_of, spread,
  unique_from, intersect,
}

abbrev pub is_deny : Effect → Bool
is_deny allow = false
is_deny deny = true

abbrev pub is_allow : Effect → Bool
is_allow allow = true
is_allow deny = false

abbrev pub nonempty : {A : Type 0} → List A → Bool
nonempty [] = false
nonempty (_ ∷ _) = true

-- no scope at all is a denial
abbrev pub answer : {S : Type 0} → List S → EvalResult S
answer [] = denied
answer (s ∷ ss) = allowed (s ∷ ss) none

module _ {V S : Type 0} where
  unfoldable pub acts_on : String → Rule V S → Bool
  acts_on action rule = test (arbac_pattern_to_regex (units rule.action)) (units action)

  unfoldable pub rule_applies : Request → Rule V S → Bool
  rule_applies res rule = covers res.resource rule && acts_on res.action rule

  unfoldable pub role_denies : Request → Role V S → Bool
  role_denies res role = any (λ rule. is_deny (effect_of rule) && rule_applies res rule) role.rules

  module _ (universe : S) (attrs : Attrs V) (id : Option String) where
    -- the scope that an allow rule gives: everything without a predicate, nothing if it gives null
    unfoldable pub grant : Option (Attrs V → String → Option S) → List S
    grant none = universe ∷ []
    grant (some scope) = elim (scope attrs (string_of id)) [ none ↦ [] | some s ↦ s ∷ [] ]

    unfoldable pub rule_grants : Request → List (Rule V S) → List S
    unfolding grant
    rule_grants res [] = []
    rule_grants res (rule ∷ rules) =
        let rest = rule_grants res rules in
        if is_allow (effect_of rule) && rule_applies res rule
        then grant rule.scope ++ rest
        else rest

    unfoldable pub role_grants : Request → List (Role V S) → List S
    role_grants res [] = []
    role_grants res (role ∷ roles) = rule_grants res role.rules ++ role_grants res roles

    unfoldable pub decide_directly : Request → List (Role V S) → EvalResult S
    decide_directly res roles =
        if any (role_denies res) roles then denied else answer (role_grants res roles)

  -- the registered roles among the ids, in their order
  unfoldable pub held : Assoc String (Role V S) → List String → List (Role V S)
  held roles [] = []
  held roles (r ∷ ids) = elim (get r roles) [
    | none ↦ held roles ids
    | some role ↦ role ∷ held roles ids
  ]

module _ {V : Type 0} where
  unfoldable pub attrs_value : User V → Attrs V
  attrs_value user = elim user.attrs [ known attrs ↦ attrs | fetched f ↦ f user.id ]

  -- the attributes of the narrowed pass
  unfoldable pub narrowed_attrs : Option (Attrs V) → User V → Attrs V
  narrowed_attrs none user = attrs_value user
  narrowed_attrs (some claims) user = spread (attrs_value user) claims

  -- the role ids of the narrowed pass
  unfoldable pub narrowed_roles : List String → Attenuation V → List String
  narrowed_roles ids attenuation = elim attenuation.roles [
    | none ↦ ids
    | some claimed ↦
        if attenuation.allow_unheld_roles
        then unique_from [] claimed
        else filter (λ r. any (λ c. c == r) claimed) ids
  ]

module _ {V S : Type 0} where
  unfoldable pub narrow_directly :
      S
      → Request
      → User V
      → Assoc String (Role V S)
      → Option (Attenuation V)
      → EvalResult S
      → EvalResult S
  narrow_directly universe res user roles none full = full
  narrow_directly universe res user roles (some attenuation) full = intersect full (
      decide_directly universe (narrowed_attrs attenuation.attrs user) user.id res
        (held roles (narrowed_roles user.roles attenuation)))

  -- the decision of one user's request on the registered roles
  unfoldable pub evaluate_directly : S → Request → User V → Assoc String (Role V S) → EvalResult S
  unfolding narrow_directly
  evaluate_directly universe res user roles =
      narrow_directly universe res user roles user.attenuate
        (decide_directly universe (attrs_value user) user.id res (held roles user.roles))
