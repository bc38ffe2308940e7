-- ===== src/Arbac/Engine/Memo.antt =====
-- `matchAction` of packages/arbac-core/src/arbac.ts: the memo never changes a match.
use mathlib.Core.Path.{subst}
use aoothjs.Base.{
  ℕ, ◌≤◌, ◌<◌, ◌≡◌, refl, sym, inl, inr, String, some, List, [], ◌∷◌, arith, length, ltb, ltb→lt,
  map, nat_eq, string_eq, eq_iff, nat_beq_iff, Bool-cases, Option-cases, All,
}
use aoothjs.Base.Assoc.{Assoc, get, put}
use aoothjs.Base.Assoc.Laws.{get-put, length-put-le}
use aoothjs.Arbac.Engine.{Compiled, RoleForResource, ActionMatch, Arbac}
use aoothjs.Arbac.Engine.Evaluate.{
  match_of, or_empty, match_action, match_all, max_memoized_actions,
}
use aoothjs.Arbac.Engine.Sound.{IsPlaced}

module _ {V S : Type 0} (heap : ℕ → Compiled V S) where
  -- what an evaluation leaves of the engine: all but the memo and the warnings
  pub record Leaves (e e' : Arbac V S) : Type 0 where
    pub roles : e'.roles ≡ e.roles
    pub resources : e'.resources ≡ e.resources
    pub next : e'.next ≡ e.next
    pub in_heap : IsPlaced heap e'

  pub Leaves-refl : (e : Arbac V S) → IsPlaced heap e → Leaves e e
  Leaves-refl e h = record { roles = refl; resources = refl; next = refl; in_heap = h }

  pub Leaves-trans : {a b c : Arbac V S} → Leaves a b → Leaves b c → Leaves a c
  Leaves-trans h k = record {
    roles = cc (h.roles, k.roles);
    resources = cc (h.resources, k.resources);
    next = cc (h.next, k.next);
    in_heap = k.in_heap;
  }

  -- a table of matches that may stand in the memo for the object `u`
  record IsMemo (u : ℕ) (per_action : Assoc String (ActionMatch V S)) : Type 0 where
    bounded : length per_action ≤ max_memoized_actions
    right :
        (action : String) (m : ActionMatch V S)
        → get action per_action ≡ some m
        → m ≡ match_of (heap u) action

  remember-Leaves :
      (u : ℕ) (per_action : Assoc String (ActionMatch V S)) (e : Arbac V S)
      → u < e.next
      → IsMemo u per_action
      → IsPlaced heap e
      → Leaves e (record e { memo = put u per_action e.memo })
  remember-Leaves u per_action e below m h = record {
    roles = refl;
    resources = refl;
    next = refl;
    in_heap = record {
      placed = h.placed;
      memoed = λ v per p.
          ground (arith, h.memoed v per, get-put u v per_action e.memo, m.bounded, nat_beq_iff u v);
      remembered = λ v per action x p q. ground (
        arith,
        h.remembered v per action x,
        get-put u v per_action e.memo,
        m.right action x,
        nat_beq_iff u v,
      );
    };
  }

  or_empty-IsMemo : (u : ℕ) (e : Arbac V S) → IsPlaced heap e → IsMemo u (or_empty (get u e.memo))
  unfolding get
  or_empty-IsMemo u e h = elim (Option-cases (get u e.memo)) [
    | inl absent ↦ rw absent (record { bounded = omega arith; right = λ action m q. cc })
    | inr (per, found) ↦ rw found (record {
      bounded = (h.memoed u per found).1;
      right = λ action m q. h.remembered u per action m found q;
    })
  ]

  put-IsMemo :
      (u : ℕ) (action : String) (per : Assoc String (ActionMatch V S))
      → IsMemo u per
      → length per < max_memoized_actions
      → IsMemo u (put action (match_of (heap u) action) per)
  put-IsMemo u action per m below = record {
    bounded = omega (arith, length-put-le action (match_of (heap u) action) per);
    right = λ other x q. ground (
      arith,
      get-put action other (match_of (heap u) action) per,
      m.right other x,
      eq_iff action other,
    );
  }

  module _ (o : RoleForResource V S) (same : heap o.identity ≡ o.rules) where
    match_action_lem :
        (action : String) (e : Arbac V S)
        → o.identity < e.next
        → IsPlaced heap e
        → ((match_action o action e).0 ≡ match_of o.rules action)
          × Leaves e (match_action o action e).1
    unfolding match_action
    match_action_lem action e below h =
        let per : Assoc String (ActionMatch V S) = or_empty (get o.identity e.memo) in
        let kept = or_empty-IsMemo o.identity e h in
        let opened = remember-Leaves o.identity per e below kept h in
        elim (Option-cases (get action per)) [
          | inr (m, hit) ↦
              rw (hit, match_action)
                (subst (λ rules. m ≡ match_of rules action) same (kept.right action m hit), opened)
          | inl miss ↦ elim (Bool-cases (ltb (length per) max_memoized_actions)) [
            | inl room ↦
                rw (miss, room, match_action)
                  (
                    refl,
                    Leaves-trans opened (
                        remember-Leaves o.identity _ _ below
                          (subst
                            (λ rules. IsMemo o.identity (put action (match_of rules action) per))
                            same (put-IsMemo o.identity action per kept (ltb→lt _ _ room)))
                          opened.in_heap),
                  )
            | inr full ↦ rw (miss, full, match_action) (refl, opened)
          ]
        ]

  abbrev pub InHeap : Arbac V S → RoleForResource V S → Type 0
  InHeap e o = (o.identity < e.next) × (heap o.identity ≡ o.rules)

  -- matching the roles in order, each through the memo, gives what each would give alone
  pub match_all_lem :
      (roles : List (RoleForResource V S)) (action : String) (e : Arbac V S)
      → All (InHeap e) roles
      → IsPlaced heap e
      → ((match_all roles action e).0 ≡ map (λ o. match_of o.rules action) roles)
        × Leaves e (match_all roles action e).1
  unfolding match_all
  match_all_lem [] action e k h = (refl, Leaves-refl e h)
  match_all_lem (o ∷ roles) action e k h =
      let (first, left) = match_action_lem o k.0.1 action e k.0.0 h in
      let rest_in_heap =
        subst (λ (n : ℕ). All (λ r. (r.identity < n) × (heap r.identity ≡ r.rules)) roles)
          (sym left.next) k.1 in
      let (rest, left_too) =
        match_all_lem roles action (match_action o action e).1 rest_in_heap left.in_heap in
      (cc (first, rest), Leaves-trans left left_too)
