-- ===== src/Arbac/Engine/Attenuation.antt =====
-- What `evaluate` of packages/arbac-core/src/arbac.ts lets a user, or a narrowed credential, do.
use mathlib.Core.Path.{subst}
use aoothjs.Base.{
  ◌≡◌, refl, sym, ◌∙◌, inl, inr, String, Bool, true, false, Option, none, some, List, [], ◌∷◌,
  arith, ap, any, filter, ◌==◌, eq_of_==, string_eq, All, All-append, All_left, All_right,
  Option-cases, Bool-cases,
}
use aoothjs.Base.Assoc.{Assoc, get}
use aoothjs.Arbac.Engine.{Attrs, Role}
use aoothjs.Arbac.Engine.Evaluate.{
  EvalResult, denied, allowed, Request, Attenuation, User, intersect, evaluate,
}
use aoothjs.Arbac.Engine.Direct.{
  held, answer, role_denies, role_grants, rule_grants, decide_directly, attrs_value, narrowed_attrs,
  narrowed_roles, narrow_directly, evaluate_directly,
}
use aoothjs.Arbac.Engine.Refines.{Call, run, evaluate-run}

intersect-allowed :
    {S : Type 0} (full narrowed : EvalResult S) {scopes cred_scopes : List S}
    → intersect full narrowed ≡ allowed scopes (some cred_scopes)
    → (o p : Option (List S)) × (full ≡ allowed scopes o) × (narrowed ≡ allowed cred_scopes p)
intersect-allowed (allowed s o) (allowed t p) h = (o, p, ground arith, ground arith)
intersect-allowed (allowed s o) denied h = cc
intersect-allowed denied _ h = cc

answer-allowed :
    {S : Type 0} (grants : List S) {scopes : List S} {o : Option (List S)}
    → answer grants ≡ allowed scopes o
    → (grants ≡ scopes) × (o ≡ none)
answer-allowed [] h = cc
answer-allowed (s ∷ ss) h = ground arith

module _ {V S : Type 0} (universe : S) where
  decide_directly-allowed :
      (attrs : Attrs V) (id : Option String) (res : Request) (roles : List (Role V S))
      {scopes : List S} {o : Option (List S)}
      → decide_directly universe attrs id res roles ≡ allowed scopes o
      → (role_grants universe attrs id res roles ≡ scopes) × (o ≡ none)
  unfolding decide_directly
  decide_directly-allowed attrs id res roles h = elim (Bool-cases (any (role_denies res) roles)) [
    | inl stop ↦ absurd (ground arith)
    | inr go ↦ answer-allowed (role_grants universe attrs id res roles) (ground arith)
  ]

  narrowed_result :
      (calls : List (Call V S)) (res : Request) (user : User V) (attenuation : Attenuation V)
      {out : EvalResult S}
      → user.attenuate ≡ some attenuation
      → (evaluate universe res user (run universe calls)).0 ≡ out
      → narrow_directly universe res user (run universe calls).roles (some attenuation) (
          decide_directly universe
            (attrs_value user)
            user.id
            res
            (held (run universe calls).roles user.roles))
        ≡ out
  unfolding evaluate_directly
  narrowed_result calls res user attenuation given h =
      let full =
        decide_directly universe (attrs_value user) user.id res
          (held (run universe calls).roles user.roles) in
      ap (λ a. narrow_directly universe res user (run universe calls).roles a full) (sym given)
      ∙ sym (evaluate-run universe calls res user).0
      ∙ h

module _ {V S : Type 0} (roles : Assoc String (Role V S)) where
  any-held :
      (p : Role V S → Bool) (ids : List String) (r : String) {role : Role V S}
      → any (λ j. j == r) ids ≡ true
      → get r roles ≡ some role
      → p role ≡ true
      → any p (held roles ids) ≡ true
  unfolding held
  any-held p [] r m g d = absurd (ground arith)
  any-held p (j ∷ ids) r {role} m g d = elim (Bool-cases (j == r)) [
    | inl here ↦
        let g' : get j roles ≡ some role = rw (eq_of_== j r here) g in rw (g', held, d) refl
    | inr there ↦
        let later = any-held p ids r {role = role} (ground arith) g d in ground (arith, later)
  ]

module _ {V S : Type 0} (universe : S) (attrs : Attrs V) (id : Option String) (res : Request)
    (roles : Assoc String (Role V S)) (P : S → Type 0) where
  -- what holds of every scope of the roles holds of every scope of some of them
  held-filter-All :
      (q : String → Bool) (ids : List String)
      → All P (role_grants universe attrs id res (held roles ids))
      → All P (role_grants universe attrs id res (held roles (filter q ids)))
  unfolding role_grants held
  held-filter-All q [] h = tt
  held-filter-All q (r ∷ ids) h = elim (Option-cases (get r roles)) [
    | inl unknown ↦
        let rest = held-filter-All q ids (rw (unknown, held) at h) in
        elim (Bool-cases (q r)) [
          | inl kept ↦ rw (kept, unknown, held) rest
          | inr dropped ↦ rw (dropped) rest
        ]
    | inr (role, registered) ↦
        let all_of = rw (registered, held) at h in
        let own = rule_grants universe attrs id res role.rules in
        let others = role_grants universe attrs id res (held roles ids) in
        let rest = held-filter-All q ids (All_right P own others all_of) in
        elim (Bool-cases (q r)) [
          | inl kept ↦
              rw (kept, registered, held) (All-append P own _ (All_left P own others all_of) rest)
          | inr dropped ↦ rw dropped rest
        ]
  ]

module _ {V S : Type 0} (universe : S) (calls : List (Call V S)) (res : Request)
    (user : User V) where
  -- A user with a registered role that denies the request is denied, whatever the other roles allow
  -- and whatever the credential claims.
  pub evaluate-denied :
      (r : String) {role : Role V S}
      → any (λ j. j == r) user.roles ≡ true
      → get r (run universe calls).roles ≡ some role
      → role_denies res role ≡ true
      → (evaluate universe res user (run universe calls)).0 ≡ denied
  unfolding evaluate_directly decide_directly
  evaluate-denied r {role} m g d =
      let roles = (run universe calls).roles in
      let stop = any-held roles (role_denies res) user.roles r {role = role} m g d in
      (evaluate-run universe calls res user).0 ∙ (rw stop (go user.attenuate))
    where
      go :
          (a : Option (Attenuation V))
          → narrow_directly universe res user (run universe calls).roles a denied ≡ denied
      go none = refl
      go (some a) = refl

  -- If a credential claims a list of roles and no attributes, and may not view as an unheld role,
  -- whatever holds of every scope of the user holds of every scope of the credential.
  pub evaluate-narrows :
      (attenuation : Attenuation V) (claimed : List String) (P : S → Type 0)
      {scopes cred_scopes : List S}
      → user.attenuate ≡ some attenuation
      → attenuation.roles ≡ some claimed
      → attenuation.attrs ≡ none
      → attenuation.allow_unheld_roles ≡ false
      → (evaluate universe res user (run universe calls)).0 ≡ allowed scopes (some cred_scopes)
      → All P scopes
      → All P cred_scopes
  unfolding narrow_directly
  evaluate-narrows attenuation claimed P {scopes} {cred_scopes} given by_roles no_attrs held_only h
        all_of =
      let roles = (run universe calls).roles in
      let value = attrs_value user in
      let (o, p, full, narrowed) =
        intersect-allowed _ _ (narrowed_result universe calls res user attenuation given h) in
      let ids : narrowed_roles user.roles attenuation
          ≡ filter (λ r. any (λ c. c == r) claimed) user.roles =
        unfold narrowed_roles in rw (by_roles, held_only) in
      let same_attrs : narrowed_attrs attenuation.attrs user ≡ value =
        unfold narrowed_attrs in rw no_attrs in
      let full_grants =
        (decide_directly-allowed universe value user.id res (held roles user.roles) full).0 in
      let cred_grants =
        (decide_directly-allowed universe value user.id res
          (held roles (filter (λ r. any (λ c. c == r) claimed) user.roles)) {o = p}
          (rw (← ids, ← same_attrs) narrowed)).0 in
      subst (All P) cred_grants (
        held-filter-All universe value user.id res roles P (λ r. any (λ c. c == r) claimed)
          user.roles (subst (All P) (sym full_grants) all_of))
