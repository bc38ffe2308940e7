-- ===== src/Arbac/Engine/Evaluate.antt =====
-- packages/arbac-core/src/arbac.ts: `matchAction`, `evaluateForRoles` and `evaluate`. An
-- evaluation runs to its end before the next one begins, also across its `await`s.
use aoothjs.Base.{
  units, ℕ, suc, String, Bool, true, false, Option, none, some, List, [], ◌∷◌, ◌++◌, length, any,
  filter, ltb, ◌==◌, if◌then◌else◌, nat_eq, string_eq,
}
use aoothjs.Base.Assoc.{Assoc, get, put}
use aoothjs.Arbac.Pattern.{test}
use aoothjs.Arbac.Engine.{
  Attrs, CompiledRule, Compiled, RoleForResource, ActionMatch, Arbac, for_each, register_resource,
}

abbrev pub max_memoized_actions : ℕ
max_memoized_actions = 512

-- `TArbacEvalResult`: `allowed scopes cred_scopes`, the latter present on an attenuated evaluation
pub data EvalResult (S : Type 0) : Type 0 where
  denied : EvalResult S
  allowed : List S → Option (List S) → EvalResult S

pub record Request : Type 0 where
  pub resource : String
  pub action : String

-- `user.attrs`: the attributes, or a function of the id that finds them
pub data AttrSource (V : Type 0) : Type 0 where
  known : Attrs V → AttrSource V
  fetched : (Option String → Attrs V) → AttrSource V

pub record Attenuation (V : Type 0) : Type 0 where
  pub roles : Option (List String)
  pub attrs : Option (Attrs V)
  pub allow_unheld_roles : Bool

pub record User (V : Type 0) : Type 0 where
  pub id : Option String
  pub roles : List String
  pub attrs : AttrSource V
  pub attenuate : Option (Attenuation V)

-- `resolvedAttrs`, with a count of the calls of `user.attrs`
pub record Cell (V : Type 0) : Type 0 where
  pub resolved : Option (Attrs V)
  pub calls : ℕ

-- `String(id)`
abbrev pub string_of : Option String → String
string_of none = "undefined"
string_of (some id) = id

-- `{ ...base, ...over }`
unfoldable pub spread : {V : Type 0} → Attrs V → Attrs V → Attrs V
spread base over = for_each (λ entry. put entry.0 entry.1) over base

module _ {V : Type 0} where
  -- the closure `userAttrs`
  unfoldable pub user_attrs : User V → Cell V → Attrs V × Cell V
  user_attrs user cell = elim cell.resolved [
    | some attrs ↦ (attrs, cell)
    | none ↦ elim user.attrs [
      | known attrs ↦ (attrs, record cell { resolved = some attrs })
      | fetched f ↦ (f user.id, record { resolved = some (f user.id); calls = suc cell.calls })
    ]
  ]

  -- the closure `credAttrs`
  unfoldable pub cred_attrs : Option (Attrs V) → User V → Cell V → Attrs V × Cell V
  unfolding user_attrs spread for_each
  cred_attrs none user cell = user_attrs user cell
  cred_attrs (some claims) user cell =
      let (attrs, after) = user_attrs user cell in (spread attrs claims, after)

-- the variables of the loop over the matches
pub record Gathered (V S : Type 0) : Type 0 where
  pub scopes : List S
  pub allowed : Bool
  pub attrs : Option (Attrs V)
  pub cell : Cell V

-- the loop of `[...new Set(claimRoles)]`
unfoldable pub unique_from : List String → List String → List String
unique_from seen [] = seen
unique_from seen (r ∷ ids) =
    unique_from (if any (λ s. s == r) seen then seen else seen ++ r ∷ []) ids

-- `{ allowed: true, scopes: userEval.scopes, credScopes: credEval.scopes }` if both allow
abbrev pub intersect : {S : Type 0} → EvalResult S → EvalResult S → EvalResult S
intersect (allowed scopes _) (allowed cred_scopes _) = allowed scopes (some cred_scopes)
intersect (allowed _ _) denied = denied
intersect denied _ = denied

module _ {V S : Type 0} where
  unfoldable pub matches_action : String → CompiledRule V S → Bool
  matches_action action rule = test rule.action_regex (units action)

  unfoldable pub match_of : Compiled V S → String → ActionMatch V S
  unfolding matches_action
  match_of rules action = record {
    deny = any (matches_action action) rules.deny;
    allow = filter (matches_action action) rules.allow;
  }

  abbrev pub or_empty : Option (Assoc String (ActionMatch V S)) → Assoc String (ActionMatch V S)
  or_empty none = []
  or_empty (some m) = m

  unfoldable pub match_action :
      RoleForResource V S → String → Arbac V S → ActionMatch V S × Arbac V S
  match_action role action e =
      let per_action = or_empty (get role.identity e.memo) in
      let opened = record e { memo = put role.identity per_action e.memo } in
      elim (get action per_action) [
        | some match ↦ (match, opened)
        | none ↦
            let match = match_of role.rules action in
            if ltb (length per_action) max_memoized_actions
            then (
              match,
              record opened { memo = put role.identity (put action match per_action) opened.memo },
            )
            else (match, opened)
      ]

  -- `roles.map((role) => this.matchAction(role, res.action))`
  unfoldable pub match_all :
      List (RoleForResource V S) → String → Arbac V S → List (ActionMatch V S) × Arbac V S
  unfolding match_action
  match_all [] action e = ([], e)
  match_all (role ∷ roles) action e =
      let (match, e') = match_action role action e in
      let (rest, e'') = match_all roles action e' in (match ∷ rest, e'')

  -- the warning about an unknown role, printed once for each id
  unfoldable pub warn : String → Arbac V S → Arbac V S
  warn r e = if any (λ w. w == r) e.warned then e else record e { warned = e.warned ++ r ∷ [] }

  -- the loop over `roleIds`
  unfoldable pub held_roles :
      Assoc String (RoleForResource V S)
      → List String
      → Arbac V S
      → List (RoleForResource V S) × Arbac V S
  unfolding warn
  held_roles per_resource [] e = ([], e)
  held_roles per_resource (r ∷ ids) e = elim (get r per_resource) [
    | some role ↦ let (rest, e') = held_roles per_resource ids e in (role ∷ rest, e')
    | none ↦ elim (get r e.roles) [
      | some _ ↦ held_roles per_resource ids e
      | none ↦ held_roles per_resource ids (warn r e)
    ]
  ]

  module _ (universe : S) (get_attrs : Cell V → Attrs V × Cell V) (id : Option String) where
    -- what `attrs` holds when a predicate is called
    abbrev pub attrs_of : Gathered V S → Attrs V × Cell V
    attrs_of g = elim g.attrs [ none ↦ get_attrs g.cell | some attrs ↦ (attrs, g.cell) ]

    unfoldable pub gather_rule : CompiledRule V S → Gathered V S → Gathered V S
    gather_rule rule g = elim rule.scope [
      | none ↦ record g { allowed = true; scopes = g.scopes ++ universe ∷ [] }
      | some scope ↦
          let (attrs, cell) = attrs_of g in
          elim (scope attrs (string_of id)) [
            | none ↦ record g { attrs = some attrs; cell = cell }
            | some s ↦ record {
              allowed = true;
              scopes = g.scopes ++ s ∷ [];
              attrs = some attrs;
              cell = cell;
            }
          ]
    ]

    unfoldable pub gather : List (ActionMatch V S) → Gathered V S → Gathered V S
    unfolding gather_rule for_each
    gather matches g = for_each (λ match. for_each gather_rule match.allow) matches g

    -- a matching deny rule of any role decides; otherwise the allow rules are gathered
    unfoldable pub decide : List (ActionMatch V S) → Cell V → EvalResult S × Cell V
    unfolding gather
    decide matches cell =
        if any (λ match. match.deny) matches
        then (denied, cell)
        else let g =
            gather matches (record { scopes = []; allowed = false; attrs = none; cell = cell }) in
          (if g.allowed then allowed g.scopes none else denied, g.cell)

    unfoldable pub evaluate_roles :
        List (RoleForResource V S) → String → Cell V → Arbac V S → EvalResult S × Cell V × Arbac V S
    evaluate_roles [] action cell e = (denied, cell, e)
    evaluate_roles (role ∷ roles) action cell e =
        let (matches, e') = match_all (role ∷ roles) action e in
        let (result, cell') = decide matches cell in (result, cell', e')

    -- `evaluate` has registered the resource before
    unfoldable pub evaluate_for_roles :
        Request → List String → Cell V → Arbac V S → EvalResult S × Cell V × Arbac V S
    unfolding evaluate_roles
    evaluate_for_roles res role_ids cell e = elim (get res.resource e.resources) [
      | none ↦ (denied, cell, e)
      | some per_resource ↦
          let (roles, e') = held_roles per_resource role_ids e in
          evaluate_roles roles res.action cell e'
    ]

  unfoldable pub is_registered : Arbac V S → String → Bool
  is_registered e r = elim (get r e.roles) [ none ↦ false | some _ ↦ true ]

  unfoldable pub cred_roles : Arbac V S → List String → Attenuation V → List String
  unfolding unique_from is_registered
  cred_roles e held attenuation = elim attenuation.roles [
    | none ↦ held
    | some claimed ↦
        if attenuation.allow_unheld_roles
        then filter (is_registered e) (unique_from [] claimed)
        else filter (λ r. any (λ c. c == r) claimed) held
  ]

  -- the second pass, if the user comes with an attenuation
  unfoldable pub narrow :
      S
      → Request
      → User V
      → Option (Attenuation V)
      → EvalResult S × Cell V × Arbac V S
      → EvalResult S × Cell V × Arbac V S
  narrow universe res user none full = full
  narrow universe res user (some attenuation) (user_eval, cell, e) =
      let (cred_eval, cell', e') =
        evaluate_for_roles universe (cred_attrs attenuation.attrs user) user.id res
          (cred_roles e user.roles attenuation) cell e in
      (intersect user_eval cred_eval, cell', e')

  unfoldable pub evaluate : S → Request → User V → Arbac V S → EvalResult S × Cell V × Arbac V S
  unfolding narrow
  evaluate universe res user e = narrow universe res user user.attenuate (
      evaluate_for_roles universe (user_attrs user) user.id res user.roles
        (record { resolved = none; calls = 0 }) (register_resource res.resource e))
