-- ===== src/Arbac/Engine/Gather.antt =====
-- The loops of packages/arbac-core/src/arbac.ts over the matching rules collect what the roles
-- grant directly.
use mathlib.Core.List.{append-nil, append_assoc}
use aoothjs.Base.{
  ◌≡◌, refl, sym, ◌⊎◌, inl, inr, String, Bool, true, false, ◌&&◌, ◌||◌, Option, none, some, List,
  [], ◌∷◌, ◌++◌, arith, ap, ◌∙◌, any, map, Bool-cases, any-append, Option-cases, filter,
  if◌then◌else◌,
}
use aoothjs.Arbac.Engine.{
  Attrs, Rule, Role, CompiledRule, Compiled, ActionMatch, for_each, effect_of, compile_rule,
  compile_step, compile,
}
use aoothjs.Arbac.Engine.Evaluate.{
  denied, allowed, Request, Cell, Gathered, matches_action, match_of, attrs_of, string_of,
  gather_rule, gather, decide,
}
use aoothjs.Arbac.Engine.Direct.{
  is_deny, is_allow, nonempty, answer, acts_on, rule_applies, role_denies, grant, rule_grants,
  role_grants, decide_directly,
}

abbrev request : String → String → Request
request resource action = record { resource = resource; action = action }

module _ {V S : Type 0} where
  filter-append :
      (p : CompiledRule V S → Bool) (xs ys : List (CompiledRule V S))
      → filter p (xs ++ ys) ≡ filter p xs ++ filter p ys
  filter-append p [] ys = refl
  filter-append p (x ∷ xs) ys = ground (arith, filter-append p xs ys)

  matches_action-compile_rule :
      (action : String) (rule : Rule V S)
      → matches_action action (compile_rule rule) ≡ acts_on action rule
  unfolding matches_action compile_rule acts_on
  matches_action-compile_rule action rule = refl

  deny-compile_step :
      (resource action : String) (rule : Rule V S) (target : Compiled V S)
      → any (matches_action action) (compile_step resource rule target).deny ≡ (
          any (matches_action action) target.deny
          || (is_deny (effect_of rule) && rule_applies (request resource action) rule))
  unfolding compile_step rule_applies matches_action acts_on
  deny-compile_step resource action rule target = ground (
    arith,
    any-append (matches_action action) target.deny (compile_rule rule ∷ []),
    matches_action-compile_rule action rule,
  )

  -- a deny rule of the compiled role matches exactly if a rule of the role denies
  deny-compile_from :
      (resource action : String) (rules : List (Rule V S)) (target : Compiled V S)
      → any (matches_action action) (for_each (compile_step resource) rules target).deny ≡ (
          any (matches_action action) target.deny
          || any
              (λ rule. is_deny (effect_of rule) && rule_applies (request resource action) rule)
              rules)
  unfolding for_each
  deny-compile_from resource action [] target = ground arith
  deny-compile_from resource action (rule ∷ rules) target = ground (
    arith,
    deny-compile_from resource action rules (compile_step resource rule target),
    deny-compile_step resource action rule target,
  )

module _ {V S : Type 0} (universe : S) (attrs : Attrs V) (id : Option String) where
  unfoldable pub grants : List (CompiledRule V S) → List S
  grants [] = []
  grants (rule ∷ rules) = grant universe attrs id rule.scope ++ grants rules

  grants-append : (xs ys : List (CompiledRule V S)) → grants (xs ++ ys) ≡ grants xs ++ grants ys
  unfolding grants
  grants-append [] ys = refl
  grants-append (x ∷ xs) ys = rw (grants-append xs ys) (rw append_assoc)

  abbrev matching : String → List (CompiledRule V S) → List S
  matching action rules = grants (filter (matches_action action) rules)

  matching-append :
      (action : String) (xs ys : List (CompiledRule V S))
      → matching action (xs ++ ys) ≡ matching action xs ++ matching action ys
  matching-append action xs ys =
      rw filter-append
        (grants-append (filter (matches_action action) xs) (filter (matches_action action) ys))

  abbrev granted : String → String → Rule V S → List S
  granted resource action rule =
      if is_allow (effect_of rule) && rule_applies (request resource action) rule
      then grant universe attrs id rule.scope
      else []

  allow-compile_step :
      (resource action : String) (rule : Rule V S) (target : Compiled V S)
      → matching action (compile_step resource rule target).allow
        ≡ matching action target.allow ++ granted resource action rule
  unfolding compile_step rule_applies grants matches_action acts_on
  allow-compile_step resource action rule target = ground (
    arith,
    matching-append action target.allow (compile_rule rule ∷ []),
    append-nil (matching action target.allow),
    append-nil (grant universe attrs id rule.scope),
  )

  -- the matching allow rules of the compiled role grant what the rules of the role grant
  allow-compile_from :
      (resource action : String) (rules : List (Rule V S)) (target : Compiled V S)
      → matching action (for_each (compile_step resource) rules target).allow
        ≡ matching action target.allow
          ++ rule_grants universe attrs id (request resource action) rules
  unfolding for_each rule_grants
  allow-compile_from resource action [] target = sym (append-nil _)
  allow-compile_from resource action (rule ∷ rules) target = ground (
    arith,
    allow-compile_from resource action rules (compile_step resource rule target),
    allow-compile_step resource action rule target,
    append_assoc (matching action target.allow) (granted resource action rule)
        (rule_grants universe attrs id (request resource action) rules),
  )

-- the closure finds `attrs` from every state of its cell that `P` admits
pub record Finds {V : Type 0} (P : Cell V → Type 0) (get_attrs : Cell V → Attrs V × Cell V)
    (attrs : Attrs V) : Type 0 where
  pub value : (c : Cell V) → P c → (get_attrs c).0 ≡ attrs
  pub keeps : (c : Cell V) → P c → P (get_attrs c).1

module _ {V S : Type 0} (universe : S) (attrs : Attrs V) (id : Option String) (P : Cell V → Type 0)
    {get_attrs : Cell V → Attrs V × Cell V} (finds : Finds P get_attrs attrs) where
  -- the loop has collected `ss`
  record Collects (g : Gathered V S) (ss : List S) : Type 0 where
    scopes : g.scopes ≡ ss
    allowed : g.allowed ≡ nonempty ss
    attrs_found : (g.attrs ≡ none) ⊎ (g.attrs ≡ some attrs)
    cell : P g.cell

  nonempty-snoc : (ss : List S) (s : S) → nonempty (ss ++ s ∷ []) ≡ true
  nonempty-snoc [] s = refl
  nonempty-snoc (x ∷ ss) s = refl

  attrs_of-eq :
      (g : Gathered V S) (ss : List S)
      → Collects g ss
      → ((attrs_of universe get_attrs id g).0 ≡ attrs) × P (attrs_of universe get_attrs id g).1
  attrs_of-eq g ss c = elim c.attrs_found [
    | inl fresh ↦ rw fresh (finds.value g.cell c.cell, finds.keeps g.cell c.cell)
    | inr old ↦ rw old (refl, c.cell)
  ]

  gather_rule-Collects :
      (rule : CompiledRule V S) (g : Gathered V S) (ss : List S)
      → Collects g ss
      → Collects
          (gather_rule universe get_attrs id rule g)
          (ss ++ grant universe attrs id rule.scope)
  unfolding gather_rule grant
  gather_rule-Collects rule g ss c = elim (Option-cases rule.scope) [
    | inl none_given ↦ rw none_given (record {
      scopes = ap (λ xs. xs ++ universe ∷ []) c.scopes;
      allowed = sym (nonempty-snoc ss universe);
      attrs_found = c.attrs_found;
      cell = c.cell;
    })
    | inr (scope, given) ↦
        let (same, cell) = attrs_of-eq g ss c in
        rw (given, same)
          (elim (Option-cases (scope attrs (string_of id))) [
            | inl nothing ↦ rw nothing (record {
              scopes = c.scopes ∙ sym (append-nil ss);
              allowed = rw (append-nil ss) c.allowed;
              attrs_found = inr (ap some same);
              cell = cell;
            })
            | inr (s, some_scope) ↦ rw some_scope (record {
              scopes = ap (λ xs. xs ++ s ∷ []) c.scopes;
              allowed = sym (nonempty-snoc ss s);
              attrs_found = inr (ap some same);
              cell = cell;
            })
          ])
  ]

  gather_rules-Collects :
      (rules : List (CompiledRule V S)) (g : Gathered V S) (ss : List S)
      → Collects g ss
      → Collects
          (for_each (gather_rule universe get_attrs id) rules g)
          (ss ++ grants universe attrs id rules)
  unfolding for_each grants
  gather_rules-Collects [] g ss c = rw (append-nil ss) c
  gather_rules-Collects (rule ∷ rules) g ss c = rw (← append_assoc) (
      gather_rules-Collects rules (gather_rule universe get_attrs id rule g)
        (ss ++ grant universe attrs id rule.scope) (gather_rule-Collects rule g ss c))

  match_grants : List (ActionMatch V S) → List S
  match_grants [] = []
  match_grants (m ∷ ms) = grants universe attrs id m.allow ++ match_grants ms

  gather-Collects :
      (ms : List (ActionMatch V S)) (g : Gathered V S) (ss : List S)
      → Collects g ss
      → Collects (gather universe get_attrs id ms g) (ss ++ match_grants ms)
  unfolding gather match_grants
  gather-Collects [] g ss c = rw (append-nil ss) c
  gather-Collects (m ∷ ms) g ss c = rw (← append_assoc) (
      gather-Collects ms (for_each (gather_rule universe get_attrs id) m.allow g)
        (ss ++ grants universe attrs id m.allow) (gather_rules-Collects m.allow g ss c))

  answer_of :
      (g : Gathered V S) (ss : List S)
      → Collects g ss
      → (if g.allowed then allowed g.scopes none else denied) ≡ answer ss
  answer_of g [] c = rw c.allowed
  answer_of g (s ∷ ss) c = rw (c.allowed, c.scopes)

  start-Collects :
      (c : Cell V)
      → P c
      → Collects (record { scopes = []; allowed = false; attrs = none; cell = c }) []
  start-Collects c h = record { scopes = refl; allowed = refl; attrs_found = inl refl; cell = h }

  decide-eq :
      (ms : List (ActionMatch V S)) (c : Cell V)
      → P c
      → ((decide universe get_attrs id ms c).0
          ≡ (if any (λ m. m.deny) ms then denied else answer (match_grants ms)))
        × P (decide universe get_attrs id ms c).1
  unfolding decide
  decide-eq ms c h =
      let done = gather-Collects ms _ [] (start-Collects c h) in
      elim (Bool-cases (any (λ m. m.deny) ms)) [
        | inl stop ↦ rw stop (refl, h)
        | inr go ↦ rw go (answer_of _ _ done, done.cell)
      ]

  -- the matches of the compiled roles
  abbrev matches_of : String → String → List (Role V S × String) → List (ActionMatch V S)
  matches_of resource action roles = map (λ r. match_of (compile resource r.0 r.1) action) roles

  deny-matches_of :
      (resource action : String) (roles : List (Role V S × String))
      → any (λ m. m.deny) (matches_of resource action roles)
        ≡ any (role_denies (request resource action)) (map (λ r. r.0) roles)
  unfolding compile match_of role_denies
  deny-matches_of resource action [] = refl
  deny-matches_of resource action ((role, key) ∷ roles) = ground (
    arith,
    deny-compile_from resource action role.rules (record { id = key; allow = []; deny = [] }),
    deny-matches_of resource action roles,
  )

  grants-matches_of :
      (resource action : String) (roles : List (Role V S × String))
      → match_grants (matches_of resource action roles)
        ≡ role_grants universe attrs id (request resource action) (map (λ r. r.0) roles)
  unfolding compile match_of role_grants match_grants grants
  grants-matches_of resource action [] = refl
  grants-matches_of resource action ((role, key) ∷ roles) =
      rw
        (allow-compile_from universe attrs id resource action role.rules
          (record { id = key; allow = []; deny = [] }))
        (ap (◌++◌ (rule_grants universe attrs id (request resource action) role.rules))
          (grants-matches_of resource action roles))

  -- Deciding on the matches of compiled roles is deciding on the roles.
  pub decide-matches_of :
      (resource action : String) (roles : List (Role V S × String)) (c : Cell V)
      → P c
      → ((decide universe get_attrs id (matches_of resource action roles) c).0
          ≡ decide_directly universe attrs id (request resource action) (map (λ r. r.0) roles))
        × P (decide universe get_attrs id (matches_of resource action roles) c).1
  unfolding decide_directly
  decide-matches_of resource action roles c h =
      let (result, cell) = decide-eq (matches_of resource action roles) c h in
      (
        result
            ∙ cc (deny-matches_of resource action roles, grants-matches_of resource action roles),
        cell,
      )
