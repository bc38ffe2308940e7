-- ===== src/Arbac/Engine/Passes.antt =====
-- One pass, `evaluateForRoles` of packages/arbac-core/src/arbac.ts, decides directly.
use mathlib.Core.Path.{subst}
use aoothjs.Base.{
  ℕ, ◌<◌, ◌≡◌, refl, sym, ◌∙◌, String, Option, some, List, [], ◌∷◌, ap, map, string_eq, All,
}
use aoothjs.Base.Assoc.{get}
use aoothjs.Arbac.Engine.{Attrs, Role, RoleForResource, Arbac, compile}
use aoothjs.Arbac.Engine.Evaluate.{
  EvalResult, Request, Cell, match_of, held_roles, evaluate_roles, evaluate_for_roles,
}
use aoothjs.Arbac.Engine.Direct.{held, role_grants, decide_directly}
use aoothjs.Arbac.Engine.Gather.{Finds, decide-matches_of}
use aoothjs.Arbac.Engine.Sound.{IsSound}
use aoothjs.Arbac.Engine.Memo.{Leaves, Leaves-trans, InHeap, match_all_lem}
use aoothjs.Arbac.Engine.Placing.{IsPresent}
use aoothjs.Arbac.Engine.Held.{held_with_ids, map-held_with_ids, held_roles_lem}

map-map {ℓ κ μ} :
    {A : Type ℓ} {B : Type κ} {C : Type μ} (g : B → C) (f : A → B) (xs : List A)
    → map (λ x. g (f x)) xs ≡ map g (map f xs)
map-map g f [] = refl
map-map g f (x ∷ xs) = ap (◌∷◌ (g (f x))) (map-map g f xs)

nil_of_map {ℓ κ} : {A : Type ℓ} {B : Type κ} (f : A → B) (xs : List A) → [] ≡ map f xs → xs ≡ []
nil_of_map f [] h = refl
nil_of_map f (x ∷ xs) h = cc

module _ {V S : Type 0} where
  Leaves-IsSound : (e e' : Arbac V S) (h : IsSound e) → Leaves h.heap e e' → IsSound e'
  Leaves-IsSound e e' h left = record {
    fresh = λ resource r t p.
        rw left.roles
          (h.fresh resource r t (subst (λ x. get resource x ≡ some t) left.resources p));
    heap = h.heap;
    in_heap = left.in_heap;
  }

module _ {V S : Type 0} (universe : S) (attrs : Attrs V) (id : Option String) (P : Cell V → Type 0)
    {get_attrs : Cell V → Attrs V × Cell V} (finds : Finds P get_attrs attrs) where
  -- what one pass gives: the direct decision, and an engine and a cell as good as before
  pub record IsPass (res : Request) (ids : List String) (e : Arbac V S)
      (out : EvalResult S × Cell V × Arbac V S) : Type 0 where
    pub result : out.0 ≡ decide_directly universe attrs id res (held e.roles ids)
    pub cell : P out.1
    pub sound : IsSound out.2
    pub roles : out.2.roles ≡ e.roles
    pub resources : out.2.resources ≡ e.resources

  evaluate_roles_lem :
      (res : Request) (ids : List String) (found : List (RoleForResource V S)) (c : Cell V)
      (e start : Arbac V S) (h : IsSound start)
      → P c
      → map (λ o. o.rules) found
        ≡ map (λ p. compile res.resource p.0 p.1) (held_with_ids start.roles ids)
      → All (InHeap h.heap e) found
      → Leaves h.heap start e
      → IsPass res ids start (evaluate_roles universe get_attrs id found res.action c e)
  unfolding evaluate_roles decide_directly role_grants
  evaluate_roles_lem res ids [] c e start h pc same k left =
      let none_held : held start.roles ids ≡ [] =
        sym (map-held_with_ids start.roles ids)
        ∙ ap (map (λ p. p.0)) (nil_of_map _ (held_with_ids start.roles ids) same) in
      record {
        result = rw none_held;
        cell = pc;
        sound = Leaves-IsSound start e h left;
        roles = left.roles;
        resources = left.resources;
      }
  evaluate_roles_lem res ids (o ∷ found) c e start h pc same k left =
      let (matches, left_too) = match_all_lem h.heap (o ∷ found) res.action e k left.in_heap in
      let all_left = Leaves-trans h.heap left left_too in
      let pairs : List (Role V S × String) = held_with_ids start.roles ids in
      let as_compiled =
        matches
        ∙ map-map (λ rules. match_of rules res.action) (λ r. r.rules) (o ∷ found)
        ∙ ap (map (λ rules. match_of rules res.action)) same
        ∙ sym (
            map-map (λ rules. match_of rules res.action) (λ p. compile res.resource p.0 p.1)
              pairs) in
      let (decided, kept) =
        decide-matches_of universe attrs id P finds res.resource res.action pairs c pc in
      record {
        result = rw as_compiled (decided ∙ (rw (map-held_with_ids start.roles ids)));
        cell = rw as_compiled kept;
        sound = Leaves-IsSound start _ h all_left;
        roles = all_left.roles;
        resources = all_left.resources;
      }

  pub evaluate_for_roles_lem :
      (res : Request) (ids : List String) (c : Cell V) (e : Arbac V S)
      → IsSound e
      → IsPresent e res.resource
      → P c
      → IsPass res ids e (evaluate_for_roles universe get_attrs id res ids c e)
  unfolding evaluate_for_roles
  evaluate_for_roles_lem res ids c e h (table, found) pc =
      let (by_ids, left) =
        held_roles_lem h.heap res.resource table e.roles e.next
          (λ r. h.fresh res.resource r table found)
          (λ r o hit. h.in_heap.placed res.resource r table o found hit) ids e refl h.in_heap in
      let in_heap =
        subst
          (λ (n : ℕ).
            All (λ r. (r.identity < n) × (h.heap r.identity ≡ r.rules)) (held_roles table ids e).0)
          (sym left.next) by_ids.1 in
      rw (found, evaluate_for_roles)
        (evaluate_roles_lem res ids (held_roles table ids e).0 c (held_roles table ids e).1 e h pc
          by_ids.0 in_heap left)
