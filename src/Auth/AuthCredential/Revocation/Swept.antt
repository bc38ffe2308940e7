-- ===== src/Auth/AuthCredential/Revocation/Swept.antt =====
-- The repeated passes of a revocation in packages/auth/src/credential/auth-credential.ts: what is
-- left when one has answered, and that one answers.
use aoothjs.Base.{
  List-cases, ℕ, zero, suc, ◌≡◌, refl, sym, ap, ◌∙◌, inl, inr, String, Bool, true, false, some,
  List, [], ◌∷◌, arith, leb, nat_beq, Bool-cases, if◌then◌else◌, text_eq, nat_eq, string_eq, ◌==◌,
  eq_of_==, All,
}
use aoothjs.Base.Assoc.{get}
use aoothjs.Auth.Credentials.{list_for_user}
use aoothjs.Auth.Credentials.Sync.{IsSynced, owned, revoke-IsSynced}
use aoothjs.Auth.Credentials.Listed.{is_live, lists, list_for_user-IsListed}
use aoothjs.Auth.AuthCredential.{
  State, Config, Crypto, World, ok, not_converged, Task, pure, raise, change, ◌>>◌,
}
use aoothjs.Auth.AuthCredential.Revocation.{
  Entry, Passes, revoke_key, revoke_keys, listing, session_key_of, matching, noted, sweep_rounds,
  during_listing, during_revoking,
}

module _ {P : Type 0} where
  -- the token and the index of the store agree
  abbrev pub IsSound : World P → Type 0
  IsSound w = IsSynced w.store

  abbrev pub KeepsSound : Passes P → Type 0
  KeepsSound passes = (k : ℕ) (w : World P) → IsSound w → IsSound (passes k w)

  pub revoke_key-IsSound : (key : String) (w : World P) → IsSound w → IsSound (revoke_key key w)
  unfolding revoke_key
  revoke_key-IsSound key w h = revoke-IsSynced key w.store h

  pub revoke_keys-IsSound :
      (entries : List (Entry P)) (w : World P) → IsSound w → IsSound (revoke_keys entries w)
  unfolding revoke_keys
  revoke_keys-IsSound [] w h = h
  revoke_keys-IsSound (entry ∷ entries) w h =
      revoke_keys-IsSound entries (revoke_key entry.1 w) (revoke_key-IsSound entry.1 w h)

  -- no live row of the user has a session key that matches
  abbrev pub IsSwept : Crypto → Config → ℕ → String → (String → Bool) → World P → Type 0
  IsSwept crypto config now user matches w =
      (key : String) (state : State P)
      → get key w.store.states ≡ some state
      → (state.user_id == user) ≡ true
      → leb state.expires_at now ≡ false
      → matches (session_key_of crypto config (state, key)) ≡ false

module _ (crypto : Crypto) (config : Config) {P : Type 0} where
  -- a listed row whose session key matches is among those to revoke
  pub matched :
      (matches : String → Bool) (out : List (Entry P)) (w : World P) (key : String)
      (state : State P)
      → All (λ x. get x.1 w.store.states ≡ some x.0) out
      → lists key out ≡ true
      → get key w.store.states ≡ some state
      → matches (session_key_of crypto config (state, key)) ≡ true
      → lists key (matching crypto config matches out) ≡ true
  unfolding matching
  matched matches [] w key state stored listed found met = absurd (ground (arith, listed))
  matched matches ((s, k) ∷ out) w key state (here, stored) listed found met =
      elim (Bool-cases (k == key)) [
        | inl same ↦
            let keys : k ≡ key = eq_of_== k key same in
            let states : some s ≡ some state =
              sym here ∙ ap (λ x. get x w.store.states) keys ∙ found in
            let state_eq : s ≡ state = ground (arith, states) in
            let met_here : matches (session_key_of crypto config (s, k)) ≡ true =
              cc (keys, state_eq, met) in
            rw met_here (ground (arith, same))
        | inr other ↦
            let rest = matched matches out w key state stored (simp other at listed) found met in
            elim (Bool-cases (matches (session_key_of crypto config (s, k)))) [
              | inl kept ↦ rw kept (ground (arith, rest))
              | inr left ↦ rw left rest
            ]
      ]

  listed-IsSwept :
      (now : ℕ) (user : String) (matches : String → Bool) (w : World P)
      → IsSound w
      → matching crypto config matches (list_for_user now user w.store).0 ≡ []
      → IsSwept crypto config now user matches
          (record w { store = (list_for_user now user w.store).1 })
  listed-IsSwept now user matches w sound none_match key state found mine live =
      let out = (list_for_user now user w.store).0 in
      let after = (list_for_user now user w.store).1 in
      let l = list_for_user-IsListed now user w.store sound in
      let before : get key w.store.states ≡ some state = ground (arith, l.dropped key, found) in
      let own : owned user key w.store.states ≡ true = rw before mine in
      let alive : is_live now (get key w.store.states) ≡ true = rw (before, live) refl in
      let listed : lists key out ≡ true = ground (arith, l.listed key, own, alive) in
      elim (Bool-cases (matches (session_key_of crypto config (state, key)))) [
        | inl met ↦ absurd (
            ground (
              arith,
              matched matches out w key state l.stored listed before met,
              ap (lists key) none_match,
            ))
        | inr missed ↦ missed
      ]

  abbrev pub after_listing : ℕ → String → World P → World P
  after_listing now user w = record w { store = (list_for_user now user w.store).1 }

  module _ (passes : Passes P) (now : ℕ) (user : String) (matches : String → Bool) where
    abbrev pub found_now : World P → List (Entry P)
    found_now w = matching crypto config matches (list_for_user now user w.store).0

    abbrev rounds : ℕ → List String → Task P (List String)
    rounds = sweep_rounds crypto config passes now user matches

    abbrev pass_over : ℕ → List String → List (Entry P) → Task P (List String)
    pass_over left revoked found = do
      change (passes (during_listing left))
      elim found as (λ _. Task P (List String)) [
        | [] ↦ pure revoked
        | e ∷ es ↦ do
          change (revoke_keys (e ∷ es))
          change (passes (during_revoking left))
          if nat_beq left 0
              then raise not_converged
              else rounds left (noted crypto config (e ∷ es) revoked)
      ]

    -- what a pass finds when its listing has answered
    abbrev pub listed_world : ℕ → World P → World P
    listed_world left w = passes (during_listing left) (after_listing now user w)

    abbrev pub passed_world : ℕ → List (Entry P) → World P → World P
    passed_world left found w =
        passes (during_revoking left) (revoke_keys found (listed_world left w))

    one_round :
        (left : ℕ) (revoked : List String) (w : World P)
        → rounds (suc left) revoked w
          ≡ pass_over left revoked (found_now w) (after_listing now user w)
    unfolding sweep_rounds listing
    one_round left revoked w = refl

    pub sweep_rounds-nothing :
        (left : ℕ) (revoked : List String) (w : World P)
        → found_now w ≡ []
        → rounds (suc left) revoked w ≡ (ok revoked, listed_world left w)
    unfolding sweep_rounds listing
    sweep_rounds-nothing left revoked w h =
        one_round left revoked w
        ∙ ap (λ found. pass_over left revoked found (after_listing now user w)) h

    abbrev pub next_round : ℕ → List String → Task P (List String)
    next_round left revoked = if nat_beq left 0 then raise not_converged else rounds left revoked

    pub sweep_rounds-more :
        (left : ℕ) (revoked : List String) (w : World P) (e : Entry P) (es : List (Entry P))
        → found_now w ≡ e ∷ es
        → rounds (suc left) revoked w
          ≡ next_round left (noted crypto config (e ∷ es) revoked) (passed_world left (e ∷ es) w)
    unfolding sweep_rounds listing
    sweep_rounds-more left revoked w e es h =
        one_round left revoked w
        ∙ ap (λ found. pass_over left revoked found (after_listing now user w)) h

    pub after_listing-IsSound : (w : World P) → IsSound w → IsSound (after_listing now user w)
    after_listing-IsSound w sound = (list_for_user-IsListed now user w.store sound).synced

    -- there was a moment at which nothing was left, and what others did at one await has followed it
    abbrev pub IsSweptAt : World P → Type 0
    IsSweptAt after =
        (v : World P) × (k : ℕ) × IsSound v
        × IsSwept crypto config now user matches v
        × (passes k v ≡ after)

    pub sweep_rounds-IsSwept :
        (left : ℕ) (revoked answer : List String) (w after : World P)
        → KeepsSound passes
        → IsSound w
        → rounds left revoked w ≡ (ok answer, after)
        → IsSweptAt after
    unfolding sweep_rounds
    sweep_rounds-IsSwept zero revoked answer w after keeps sound h = absurd (ground (arith, h))
    sweep_rounds-IsSwept (suc left) revoked answer w after keeps sound h =
        elim (List-cases (found_now w)) [
          | inl none_left ↦
              let whole = sym (sweep_rounds-nothing left revoked w none_left) ∙ h in
              let same : listed_world left w ≡ after = ap (λ r. r.1) whole in
              (
                after_listing now user w,
                during_listing left,
                after_listing-IsSound w sound,
                listed-IsSwept now user matches w sound none_left,
                same,
              )
          | inr (e, es, some_left) ↦
              let more = sym (sweep_rounds-more left revoked w e es some_left) ∙ h in
              let next = passed_world left (e ∷ es) w in
              let listed_sound : IsSound (listed_world left w) =
                keeps (during_listing left) (after_listing now user w)
                  (after_listing-IsSound w sound) in
              let next_sound : IsSound next =
                keeps (during_revoking left) (revoke_keys (e ∷ es) (listed_world left w))
                  (revoke_keys-IsSound (e ∷ es) (listed_world left w) listed_sound) in
              elim (Bool-cases (nat_beq left 0)) [
                | inl last ↦ absurd (ground (arith, simp last at more))
                | inr early ↦
                    sweep_rounds-IsSwept left (noted crypto config (e ∷ es) revoked) answer next
                      after keeps next_sound (simp early at more)
              ]
        ]
