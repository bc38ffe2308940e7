-- ===== src/Auth/AuthCredential/Revocation/Alone.antt =====
-- The repeated passes of a revocation in packages/auth/src/credential/auth-credential.ts when nothing
-- else runs: the second one finds nothing, so the loop answers.
use mathlib.Core.Path.{subst}
use aoothjs.Base.{
  List-cases, All-zip, ℕ, ◌≡◌, refl, sym, ap, ◌∙◌, inl, inr, String, Bool, true, false, ◌&&◌,
  Option, none, some, List, [], ◌∷◌, arith, Bool-cases, if◌then◌else◌, text_eq, nat_eq, string_eq,
  ◌==◌, ==_refl, All,
}
use aoothjs.Base.Assoc.{get}
use aoothjs.Auth.Credentials.{list_for_user}
use aoothjs.Auth.Credentials.Sync.{is_of, owned}
use aoothjs.Auth.Credentials.Reads.{get-revoke}
use aoothjs.Auth.Credentials.Listed.{is_live, lists, list_for_user-IsListed}
use aoothjs.Auth.AuthCredential.{State, Config, Crypto, World, ok, continue_inv, pure}
use aoothjs.Auth.AuthCredential.Revocation.{
  Entry, Passes, revoke_key, revoke_keys, session_key_of, matching, noted, sweep_until_empty,
  revoke_session,
}
use aoothjs.Auth.AuthCredential.Revocation.Swept.{
  IsSound, revoke_keys-IsSound, IsSwept, KeepsSound, matched, after_listing, found_now,
  sweep_rounds-nothing, sweep_rounds-more, sweep_rounds-IsSwept, IsSweptAt, KeepsSound, matched,
  after_listing-IsSound,
}

module _ {P : Type 0} where
  -- nobody else runs
  abbrev pub alone : ℕ → World P → World P
  alone k w = w

  abbrev pub row : String → World P → Option (State P)
  row key w = get key w.store.states

  pub row-revoke_key :
      (key other : String) (w : World P)
      → row other (revoke_key key w) ≡ (if key == other then none else row other w)
  unfolding revoke_key
  row-revoke_key key other w = get-revoke key other w.store

  row-revoke_keys :
      (entries : List (Entry P)) (key : String) (w : World P)
      → row key (revoke_keys entries w) ≡ (if lists key entries then none else row key w)
  unfolding revoke_keys
  row-revoke_keys [] key w = refl
  row-revoke_keys (entry ∷ entries) key w =
      ground
        (arith, row-revoke_keys entries key (revoke_key entry.1 w), row-revoke_key entry.1 key w)

  listed_members :
      (xs whole : List (Entry P))
      → ((key : String) → lists key xs ≡ true → lists key whole ≡ true)
      → All (λ x. lists x.1 whole ≡ true) xs
  listed_members [] whole h = tt
  listed_members ((s, k) ∷ xs) whole h = (
    h k (ground (arith, ==_refl k)),
    listed_members xs whole (λ key l. h key (ground (arith, l))),
  )

module _ (crypto : Crypto) (config : Config) {P : Type 0} where
  no_match :
      (matches : String → Bool) (out : List (Entry P))
      → All (λ x. matches (session_key_of crypto config x) ≡ false) out
      → matching crypto config matches out ≡ []
  unfolding matching
  no_match matches [] h = refl
  no_match matches (x ∷ out) (missed, h) = rw missed (no_match matches out h)

  -- where no live row matches, a pass finds nothing
  swept_found :
      (now : ℕ) (user : String) (matches : String → Bool) (w : World P)
      → IsSound w
      → IsSwept crypto config now user matches w
      → found_now crypto config alone now user matches w ≡ []
  swept_found now user matches w sound swept =
      let out = (list_for_user now user w.store).0 in
      let l = list_for_user-IsListed now user w.store sound in
      no_match matches out (
        All-zip
          (λ x is_listed stored.
            let both : (owned user x.1 w.store.states && is_live now (row x.1 w)) ≡ true =
              sym (l.listed x.1) ∙ is_listed in
            let mine : ((x.0.user_id == user) && is_live now (some x.0)) ≡ true =
              subst (λ o. (is_of user o && is_live now o) ≡ true) stored both in
            swept x.1 x.0 stored (ground (arith, mine)) (ground (arith, mine)))
          out (listed_members out out (λ key h. h)) l.stored)

  -- after a pass that revoked what it found, no live row matches
  revoked-IsSwept :
      (now : ℕ) (user : String) (matches : String → Bool) (w : World P)
      → IsSound w
      → IsSwept crypto config now user matches (
          revoke_keys
            (found_now crypto config alone now user matches w)
            (after_listing crypto config now user w))
  revoked-IsSwept now user matches w sound key state found mine live =
      let out = (list_for_user now user w.store).0 in
      let w1 = after_listing crypto config now user w in
      let l = list_for_user-IsListed now user w.store sound in
      let kept = row-revoke_keys (matching crypto config matches out) key w1 in
      let unlisted : lists key (matching crypto config matches out) ≡ false =
        ground (arith, kept, found) in
      let before : row key w ≡ some state = ground (arith, kept, unlisted, found, l.dropped key) in
      let own : owned user key w.store.states ≡ true = rw before mine in
      let alive : is_live now (row key w) ≡ true = rw (before, live) refl in
      let listed : lists key out ≡ true = ground (arith, l.listed key, own, alive) in
      elim (Bool-cases (matches (session_key_of crypto config (state, key)))) [
        | inl met ↦ absurd (
            ground (
              arith,
              unlisted,
              matched crypto config matches out w key state l.stored listed before met,
            ))
        | inr missed ↦ missed
      ]

  two_rounds :
      (now : ℕ) (user : String) (matches : String → Bool) (w : World P)
      → IsSound w
      → (revoked : List String) × (after : World P) × (sweep_until_empty crypto config alone now
            user matches w
          ≡ (ok revoked, after))
  two_rounds now user matches w sound =
      elim (List-cases (found_now crypto config alone now user matches w)) [
        | inl nothing ↦
            (_, _, sweep_rounds-nothing crypto config alone now user matches 8 [] w nothing)
        | inr (e, es, some_left) ↦
            let next = revoke_keys (e ∷ es) (after_listing crypto config now user w) in
            let sound' : IsSound next =
              revoke_keys-IsSound (e ∷ es) (after_listing crypto config now user w)
                (after_listing-IsSound crypto config alone now user matches w sound) in
            let swept : IsSwept crypto config now user matches next =
              subst
                (λ found.
                  IsSwept crypto config now user matches
                    (revoke_keys found (after_listing crypto config now user w)))
                some_left (revoked-IsSwept now user matches w sound) in
            let nothing = swept_found now user matches next sound' swept in
            (
              _,
              _,
              sweep_rounds-more crypto config alone now user matches 8 [] w e es some_left
                  ∙ sweep_rounds-nothing crypto config alone now user matches 7
                      (noted crypto config (e ∷ es) []) next nothing,
            )
      ]

  -- On a store whose index is in step, and with nobody else running, the passes of a revocation end
  -- within their bound, and leave no live row of the user whose session key matches.
  pub sweep_until_empty-IsSwept :
      (now : ℕ) (user : String) (matches : String → Bool) (w : World P)
      → IsSound w
      → (revoked : List String) × (after : World P) × (sweep_until_empty crypto config alone now
            user matches w
          ≡ (ok revoked, after))
        × IsSwept crypto config now user matches after
  sweep_until_empty-IsSwept now user matches w sound =
      let (revoked, after, answered) = two_rounds now user matches w sound in
      let (v, k, v_sound, swept, same) =
        sweep_rounds-IsSwept crypto config alone now user matches 9 [] revoked w after (λ k v h. h)
          sound answered in
      (revoked, after, answered, subst (IsSwept crypto config now user matches) same swept)

  -- Whatever others do while each listing and each pass of revocations is awaited, the last empty
  -- listing too, so long as they keep the index in step: when the revocation of a session answers,
  -- there was a moment at which the index was in step and no live row of the user was of that
  -- session, and nothing but what others did during one await has followed it.
  pub revoke_session-IsSwept :
      (passes : Passes P) (now : ℕ) (user session : String) (w after : World P)
      → KeepsSound passes
      → IsSound w
      → revoke_session crypto config passes now user session w ≡ (ok tt, after)
      → (v : World P) × (k : ℕ) × IsSound v
        × IsSwept crypto config now user (λ key. key == session) v
        × (passes k v ≡ after)
  unfolding revoke_session
  revoke_session-IsSwept passes now user session w after keeps sound h =
      let (revoked, t, swept, rest) =
        continue_inv (λ _. pure tt)
          (sweep_until_empty crypto config passes now user (λ key. key == session) w) h in
      let same : t ≡ after = ap (λ r. r.1) rest in
      subst (IsSweptAt crypto config passes now user (λ key. key == session)) same (
        sweep_rounds-IsSwept crypto config passes now user (λ key. key == session) 9 [] revoked w t
          keeps sound swept)
