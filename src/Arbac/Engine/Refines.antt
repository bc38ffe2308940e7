-- ===== src/Arbac/Engine/Refines.antt =====
-- `evaluate` of packages/arbac-core/src/arbac.ts gives what the registered roles say directly.
use mathlib.Core.Path.{ap₂}
use aoothjs.Base.{
  ◌≤◌, ◌≡◌, refl, ◌∙◌, ◌⊎◌, inl, inr, String, Option, none, some, List, [], ◌∷◌, arith, ap, filter,
  string_eq, Option-cases, Bool-cases,
}
use aoothjs.Base.Assoc.{Assoc, get}
use aoothjs.Arbac.Engine.{Role, Arbac, empty, for_each, register_role, register_resource}
use aoothjs.Arbac.Engine.Evaluate.{
  EvalResult, Request, AttrSource, known, fetched, Attenuation, User, Cell, user_attrs, cred_attrs,
  unique_from, is_registered, cred_roles, intersect, narrow, evaluate,
}
use aoothjs.Arbac.Engine.Direct.{
  held, decide_directly, attrs_value, narrowed_attrs, narrowed_roles, narrow_directly,
  evaluate_directly,
}
use aoothjs.Arbac.Engine.Gather.{Finds}
use aoothjs.Arbac.Engine.Sound.{IsSound}
use aoothjs.Arbac.Engine.Placing.{IsPresent}
use aoothjs.Arbac.Engine.Passes.{IsPass, evaluate_for_roles_lem}
use aoothjs.Arbac.Engine.Registration.{
  register_role-IsSound, register_resource-IsSound, register_resource-IsPresent,
  roles-register_resource, empty-IsSound,
}

-- the closure has not been called yet, or it has found the attributes with one call at most
abbrev IsCell : {V : Type 0} → User V → Cell V → Type 0
IsCell user c =
    ((c.resolved ≡ none) × (c.calls ≡ 0)) ⊎ ((c.resolved ≡ some (attrs_value user)) × (c.calls ≤ 1))

module _ {V : Type 0} where
  user_attrs_lem :
      (user : User V) (c : Cell V)
      → IsCell user c
      → ((user_attrs user c).0 ≡ attrs_value user) × IsCell user (user_attrs user c).1
  unfolding user_attrs attrs_value
  user_attrs_lem user c (inr (old, once)) = rw old (refl, inr (refl, once))
  user_attrs_lem user c (inl (fresh, never)) = go user.attrs refl
    where
      go :
          (source : AttrSource V)
          → user.attrs ≡ source
          → ((user_attrs user c).0 ≡ attrs_value user) × IsCell user (user_attrs user c).1
      go (known attrs) e = rw (fresh, e) (refl, inr (refl, omega (arith, never)))
      go (fetched f) e = rw (fresh, e) (refl, inr (refl, omega (arith, never)))

  Finds-user_attrs : (user : User V) → Finds (IsCell user) (user_attrs user) (attrs_value user)
  Finds-user_attrs user = record {
    value = λ c h. (user_attrs_lem user c h).0;
    keeps = λ c h. (user_attrs_lem user c h).1;
  }

  Finds-cred_attrs :
      (claims : Option _) (user : User V)
      → Finds (IsCell user) (cred_attrs claims user) (narrowed_attrs claims user)
  unfolding cred_attrs narrowed_attrs
  Finds-cred_attrs none user = Finds-user_attrs user
  Finds-cred_attrs (some claims) user = record {
    value = λ c h. rw (user_attrs_lem user c h).0;
    keeps = λ c h. (user_attrs_lem user c h).1;
  }

calls-le : {V : Type 0} (user : User V) (c : Cell V) → IsCell user c → c.calls ≤ 1
calls-le user c (inl (fresh, never)) = omega (arith, never)
calls-le user c (inr (old, once)) = once

module _ {V S : Type 0} where
  held-registered :
      (e : Arbac V S) (roles : Assoc String (Role V S)) (ids : List String)
      → e.roles ≡ roles
      → held roles (filter (is_registered e) ids) ≡ held roles ids
  unfolding held is_registered
  held-registered e roles [] same = refl
  held-registered e roles (r ∷ ids) same = elim (Option-cases (get r roles)) [
    | inl unknown ↦
        let unknown_here : get r e.roles ≡ none = rw same unknown in
        rw (unknown_here, unknown, held, is_registered) (held-registered e roles ids same)
    | inr (role, registered) ↦
        let registered_here : get r e.roles ≡ some role = rw same registered in
        rw (registered_here, registered, held, is_registered)
          (ap (◌∷◌ role) (held-registered e roles ids same))
  ]

  -- unknown claimed roles are dropped before the pass, or contribute nothing to it
  held-cred_roles :
      (e : Arbac V S) (roles : Assoc String (Role V S)) (ids : List String)
      (attenuation : Attenuation V)
      → e.roles ≡ roles
      → held roles (cred_roles e ids attenuation) ≡ held roles (narrowed_roles ids attenuation)
  unfolding cred_roles narrowed_roles
  held-cred_roles e roles ids attenuation same = elim (Option-cases attenuation.roles) [
    | inl all_kept ↦ rw all_kept refl
    | inr (claimed, given) ↦ elim (Bool-cases attenuation.allow_unheld_roles) [
      | inl unheld ↦ rw (given, unheld) (held-registered e roles (unique_from [] claimed) same)
      | inr only_held ↦ rw (given, only_held) refl
    ]
  ]

  -- what one evaluation gives
  record IsEvaluatedTo (universe : S) (res : Request) (user : User V) (a : Option (Attenuation V))
      (e : Arbac V S) (out : EvalResult S × Cell V × Arbac V S) : Type 0 where
    result :
        out.0
        ≡ narrow_directly universe res user e.roles a
            (decide_directly universe (attrs_value user) user.id res (held e.roles user.roles))
    calls : out.1.calls ≤ 1
    sound : IsSound out.2
    roles : out.2.roles ≡ e.roles

  narrow-IsEvaluated :
      (universe : S) (res : Request) (user : User V) (a : Option (Attenuation V))
      (e start : Arbac V S) (out : EvalResult S × Cell V × Arbac V S)
      → IsPass universe
          (attrs_value user)
          user.id
          (IsCell user)
          (Finds-user_attrs user)
          res
          user.roles
          start
          out
      → IsPresent start res.resource
      → start.roles ≡ e.roles
      → IsEvaluatedTo universe res user a e (narrow universe res user a out)
  unfolding narrow narrow_directly
  narrow-IsEvaluated universe res user none e start out first present same = record {
    result = rw (← same) first.result;
    calls = calls-le user out.1 first.cell;
    sound = first.sound;
    roles = first.roles ∙ same;
  }
  narrow-IsEvaluated universe res user (some attenuation) e start out first (table, found) same =
      let roles_now = first.roles ∙ same in
      let second =
        evaluate_for_roles_lem universe (narrowed_attrs attenuation.attrs user) user.id
          (IsCell user) (Finds-cred_attrs attenuation.attrs user) res
          (cred_roles out.2 user.roles attenuation) out.1 out.2 first.sound
          (table, rw first.resources found) first.cell in
      let narrowed =
        second.result
        ∙ ap
            (λ roles.
              decide_directly universe (narrowed_attrs attenuation.attrs user) user.id res roles)
            (ap (λ roles. held roles (cred_roles out.2 user.roles attenuation)) roles_now
              ∙ held-cred_roles out.2 e.roles user.roles attenuation roles_now) in
      record {
        result = ap₂ intersect (rw (← same) first.result) narrowed;
        calls = calls-le user _ second.cell;
        sound = second.sound;
        roles = second.roles ∙ roles_now;
      }

  evaluate-IsEvaluated :
      (universe : S) (res : Request) (user : User V) (e : Arbac V S)
      → IsSound e
      → IsEvaluatedTo universe res user user.attenuate e (evaluate universe res user e)
  unfolding evaluate
  evaluate-IsEvaluated universe res user e h =
      narrow-IsEvaluated universe res user user.attenuate e (register_resource res.resource e) _
        (evaluate_for_roles_lem universe (attrs_value user) user.id (IsCell user)
          (Finds-user_attrs user) res user.roles (record { resolved = none; calls = 0 })
          (register_resource res.resource e) (register_resource-IsSound res.resource e h)
          (register_resource-IsPresent res.resource e) (inl (refl, refl)))
        (register_resource-IsPresent res.resource e) (roles-register_resource res.resource e)

-- the operations of an engine, in the order in which a program calls them
pub data Call (V S : Type 0) : Type 0 where
  role : Role V S → Call V S
  resource : String → Call V S
  question : Request → User V → Call V S

module _ {V S : Type 0} (universe : S) where
  unfoldable pub call : Call V S → Arbac V S → Arbac V S
  call (role r) e = register_role r e
  call (resource name) e = register_resource name e
  call (question res user) e = (evaluate universe res user e).2

  unfoldable pub run : List (Call V S) → Arbac V S
  unfolding call for_each
  run calls = for_each call calls empty

  call-IsSound : (c : Call V S) (e : Arbac V S) → IsSound e → IsSound (call c e)
  unfolding call
  call-IsSound (role r) e h = register_role-IsSound r e h
  call-IsSound (resource name) e h = register_resource-IsSound name e h
  call-IsSound (question res user) e h = (evaluate-IsEvaluated universe res user e h).sound

  calls-IsSound :
      (calls : List (Call V S)) (e : Arbac V S) → IsSound e → IsSound (for_each call calls e)
  unfolding for_each
  calls-IsSound [] e h = h
  calls-IsSound (c ∷ calls) e h = calls-IsSound calls (call c e) (call-IsSound c e h)

  -- After any registrations and evaluations, the tables of the engine are those of the registered
  -- roles, and the memo holds what would be computed.
  pub run-IsSound : (calls : List (Call V S)) → IsSound (run calls)
  unfolding run
  run-IsSound calls = calls-IsSound calls empty empty-IsSound

  -- After any registrations and evaluations, an evaluation decides as the registered roles say
  -- directly, without the compiled tables and the memo; it resolves the attributes once at most and
  -- changes no registered role.
  pub evaluate-run :
      (calls : List (Call V S)) (res : Request) (user : User V)
      → ((evaluate universe res user (run calls)).0
          ≡ evaluate_directly universe res user (run calls).roles)
        × ((evaluate universe res user (run calls)).1.calls ≤ 1)
        × ((evaluate universe res user (run calls)).2.roles ≡ (run calls).roles)
  unfolding evaluate_directly
  evaluate-run calls res user =
      let e = evaluate-IsEvaluated universe res user (run calls) (run-IsSound calls) in
      (e.result, e.calls, e.roles)
