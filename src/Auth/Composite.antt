-- ===== src/Auth/Composite.antt =====
-- packages/auth/src/authz/composite-client-policy.ts: `CompositeClientPolicy`, over the interface of
-- packages/auth/src/authz/client-policy.ts. What a policy resolves to is a parameter. An error
-- thrown is `none`, or `false` for an authentication. Promises are not told apart from values.
use aoothjs.Base.{
  ◌≡◌, String, Bool, true, false, Option, none, some, arith, ◌==◌, string_eq, Bool-cases,
  Option-cases, inl, inr, sym, ap, ◌∙◌, refl, if◌then◌else◌,
}

pub record ResolveArgs : Type 0 where
  pub client_id : Option String
  pub redirect_uri : String
  pub scope : Option String

pub record AuthenticateArgs : Type 0 where
  pub client_id : Option String
  pub client_secret : Option String

pub record ClientRedirectPolicy (R : Type 0) : Type 0 where
  pub resolve_client : ResolveArgs → Option R
  pub authenticate_client : Option (AuthenticateArgs → Bool)
  pub has_client : Option (String → Bool)

pub record CompositeClientPolicy (R : Type 0) : Type 0 where
  pub loopback : ClientRedirectPolicy R
  pub registered : Option (ClientRedirectPolicy R)
  pub dynamic : Option (ClientRedirectPolicy R)

-- a client id that is given and not empty
abbrev pub presented : Option String → Option String
presented none = none
presented (some client_id) = if client_id == "" then none else some client_id

module _ {R : Type 0} where
  -- the constructor
  unfoldable pub composite :
      ClientRedirectPolicy R
      → Option (ClientRedirectPolicy R)
      → Option (ClientRedirectPolicy R)
      → Option (CompositeClientPolicy R)
  composite loopback none none = none
  composite loopback none (some d) =
      some (record { loopback = loopback; registered = none; dynamic = some d })
  composite loopback (some r) none =
      some (record { loopback = loopback; registered = some r; dynamic = none })
  composite loopback (some r) (some d) = elim r.has_client [
    | none ↦ none
    | some _ ↦ some (record { loopback = loopback; registered = some r; dynamic = some d })
  ]

  -- `none` where the code would read a policy or a probe that is not there
  unfoldable pub pick_for_client_id :
      CompositeClientPolicy R → String → Option (ClientRedirectPolicy R)
  pick_for_client_id c client_id = elim c.registered [
    | none ↦ c.dynamic
    | some r ↦ elim c.dynamic [
      | none ↦ some r
      | some d ↦ elim r.has_client [
        | none ↦ none
        | some known ↦ if known client_id then some r else some d
      ]
    ]
  ]

  unfoldable pub resolve_by : CompositeClientPolicy R → ResolveArgs → Option R
  unfolding pick_for_client_id
  resolve_by c args = elim (presented args.client_id) [
    | none ↦ c.loopback.resolve_client args
    | some client_id ↦ elim (pick_for_client_id c client_id) [
      | none ↦ none
      | some picked ↦ picked.resolve_client args
    ]
  ]

  abbrev pub authenticates : ClientRedirectPolicy R → AuthenticateArgs → Bool
  authenticates policy args = elim policy.authenticate_client [
    | none ↦ true
    | some authenticate ↦ authenticate args
  ]

  unfoldable pub authenticate_by : CompositeClientPolicy R → AuthenticateArgs → Bool
  unfolding pick_for_client_id
  authenticate_by c args = elim (presented args.client_id) [
    | none ↦ true
    | some client_id ↦ elim (pick_for_client_id c client_id) [
      | none ↦ false
      | some picked ↦ authenticates picked args
    ]
  ]

  -- Which of the configured policies a client id belongs to: the only one there is, or, of two, the
  -- registered one exactly when it knows the id.
  pub data Owns (registered dynamic : Option (ClientRedirectPolicy R)) (client_id : String)
      : ClientRedirectPolicy R → Type 0 where
    only_registered :
        {r : ClientRedirectPolicy R}
        → registered ≡ some r
        → dynamic ≡ none
        → Owns registered dynamic client_id r
    only_dynamic :
        {d : ClientRedirectPolicy R}
        → registered ≡ none
        → dynamic ≡ some d
        → Owns registered dynamic client_id d
    known :
        {r d : ClientRedirectPolicy R} (has : String → Bool)
        → registered ≡ some r
        → dynamic ≡ some d
        → r.has_client ≡ some has
        → has client_id ≡ true
        → Owns registered dynamic client_id r
    unknown :
        {r d : ClientRedirectPolicy R} (has : String → Bool)
        → registered ≡ some r
        → dynamic ≡ some d
        → r.has_client ≡ some has
        → has client_id ≡ false
        → Owns registered dynamic client_id d

  -- what a composite policy does with a client id, or without one
  pub record IsDispatch (loopback : ClientRedirectPolicy R)
      (registered : Option (ClientRedirectPolicy R)) (c : CompositeClientPolicy R)
      (client_id : String) (owner : ClientRedirectPolicy R) : Type 0 where
    pub resolves :
        (args : ResolveArgs)
        → presented args.client_id ≡ some client_id
        → resolve_by c args ≡ owner.resolve_client args
    pub checks :
        (args : AuthenticateArgs)
        → presented args.client_id ≡ some client_id
        → authenticate_by c args ≡ authenticates owner args
    pub anonymous :
        (args : ResolveArgs)
        → presented args.client_id ≡ none
        → resolve_by c args ≡ loopback.resolve_client args
    pub unchecked :
        (args : AuthenticateArgs) → presented args.client_id ≡ none → authenticate_by c args ≡ true
    -- no other dynamic policy changes what becomes of an id that the registered policy knows
    pub unshadowed :
        (r : ClientRedirectPolicy R) (has : String → Bool) (other : Option (ClientRedirectPolicy R))
        (d : CompositeClientPolicy R)
        → composite loopback registered other ≡ some d
        → registered ≡ some r
        → r.has_client ≡ some has
        → has client_id ≡ true
        → (args : ResolveArgs) → presented args.client_id ≡ some client_id
        → resolve_by d args ≡ resolve_by c args

  resolves_by :
      (c : CompositeClientPolicy R) (client_id : String) (owner : ClientRedirectPolicy R)
      → pick_for_client_id c client_id ≡ some owner
      → (args : ResolveArgs) → presented args.client_id ≡ some client_id
      → resolve_by c args ≡ owner.resolve_client args
  unfolding resolve_by
  resolves_by c client_id owner picked args g = rw (g, picked, resolve_by)

  checks_by :
      (c : CompositeClientPolicy R) (client_id : String) (owner : ClientRedirectPolicy R)
      → pick_for_client_id c client_id ≡ some owner
      → (args : AuthenticateArgs) → presented args.client_id ≡ some client_id
      → authenticate_by c args ≡ authenticates owner args
  unfolding authenticate_by
  checks_by c client_id owner picked args g = rw (g, picked, authenticate_by)

  loopback_kept :
      (loopback : ClientRedirectPolicy R) (registered dynamic : Option (ClientRedirectPolicy R))
      (c : CompositeClientPolicy R)
      → composite loopback registered dynamic ≡ some c
      → c.loopback ≡ loopback
  unfolding composite
  loopback_kept loopback none none c h = absurd (ground (arith, h))
  loopback_kept loopback none (some d) c h = ground (arith, h)
  loopback_kept loopback (some r) none c h = ground (arith, h)
  loopback_kept loopback (some r) (some d) c h = elim (Option-cases r.has_client) [
    | inl no_probe ↦ absurd (ground (arith, no_probe, h))
    | inr (has, probe) ↦ ground (arith, probe, h)
  ]

  picks :
      (loopback : ClientRedirectPolicy R) (registered dynamic : Option (ClientRedirectPolicy R))
      (c : CompositeClientPolicy R) (client_id : String)
      → composite loopback registered dynamic ≡ some c
      → (owner : ClientRedirectPolicy R) × (pick_for_client_id c client_id ≡ some owner)
        × Owns registered dynamic client_id owner
  unfolding composite pick_for_client_id
  picks loopback none none c client_id h = absurd (cc)
  picks loopback none (some d) c client_id h = (d, ground (arith, h), only_dynamic refl refl)
  picks loopback (some r) none c client_id h = (r, ground (arith, h), only_registered refl refl)
  picks loopback (some r) (some d) c client_id h = elim (Option-cases r.has_client) [
    | inl no_probe ↦ absurd (ground (arith, no_probe, h))
    | inr (has, probe) ↦ elim (Bool-cases (has client_id)) [
      | inl own ↦ (r, ground (arith, h, probe, own), known has refl refl probe own)
      | inr other ↦ (d, ground (arith, h, probe, other), unknown has refl refl probe other)
    ]
  ]

  -- an id that the registered policy knows is picked for it, with any dynamic policy
  picks_known :
      (loopback r : ClientRedirectPolicy R) (dynamic : Option (ClientRedirectPolicy R))
      (has : String → Bool) (c : CompositeClientPolicy R) (client_id : String)
      → composite loopback (some r) dynamic ≡ some c
      → r.has_client ≡ some has
      → has client_id ≡ true
      → pick_for_client_id c client_id ≡ some r
  unfolding composite pick_for_client_id
  picks_known loopback r none has c client_id h probe own = ground (arith, h)
  picks_known loopback r (some d) has c client_id h probe own = ground (arith, h, probe, own)

  never_shadowed :
      (loopback : ClientRedirectPolicy R)
      (registered dynamic other : Option (ClientRedirectPolicy R)) (c d : CompositeClientPolicy R)
      (client_id : String) (r : ClientRedirectPolicy R) (has : String → Bool)
      → composite loopback registered dynamic ≡ some c
      → composite loopback registered other ≡ some d
      → registered ≡ some r
      → r.has_client ≡ some has
      → has client_id ≡ true
      → (args : ResolveArgs) → presented args.client_id ≡ some client_id
      → resolve_by d args ≡ resolve_by c args
  never_shadowed loopback registered dynamic other c d client_id r has built also there probe own
        args g =
      let pick : (o : Option (ClientRedirectPolicy R)) (e : CompositeClientPolicy R)
          → composite loopback registered o ≡ some e
          → pick_for_client_id e client_id ≡ some r =
        λ o e h.
          picks_known loopback r o has e client_id
            (ap (λ x. composite loopback x o) (sym there) ∙ h) probe own in
      resolves_by d client_id r (pick other d also) args g
      ∙ sym (resolves_by c client_id r (pick dynamic c built) args g)

  -- A composite policy that is constructed has an owner for every client id: the only policy
  -- configured, or, of two, the registered one exactly when it knows the id. A client with that id
  -- is resolved and authenticated by its owner; one without an id is resolved by the loopback
  -- policy and authenticated. No other choice of the dynamic policy changes how an id that the
  -- registered policy knows is resolved.
  pub composite-IsDispatch :
      (loopback : ClientRedirectPolicy R) (registered dynamic : Option (ClientRedirectPolicy R))
      (c : CompositeClientPolicy R) (client_id : String)
      → composite loopback registered dynamic ≡ some c
      → (owner : ClientRedirectPolicy R) × Owns registered dynamic client_id owner
        × IsDispatch loopback registered c client_id owner
  unfolding resolve_by authenticate_by
  composite-IsDispatch loopback registered dynamic c client_id h =
      let (owner, picked, owns) = picks loopback registered dynamic c client_id h in
      (
        owner,
        owns,
        record {
          resolves = resolves_by c client_id owner picked;
          checks = checks_by c client_id owner picked;
          anonymous = λ args g.
              rw (g, resolve_by)
                (ap (λ p. p.resolve_client args) (loopback_kept loopback registered dynamic c h));
          unchecked = λ args g. rw (g, authenticate_by) refl;
          unshadowed = λ r has other d also there probe own.
              never_shadowed loopback registered dynamic other c d client_id r has h also there
                probe own;
        },
      )
