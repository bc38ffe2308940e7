-- ===== src/Auth/AuthCredential/Refresh/Reuse.antt =====
-- packages/auth/src/credential/auth-credential.ts: the answer to a refresh token that is presented
-- again after its grace, `rotateWithGrace` and `respondToRefreshReuse`.
use mathlib.Core.Path.{subst}
use aoothjs.Base.{
  or_default, ℕ, ◌+◌, ◌<◌, ◌≡◌, refl, ap, ◌∙◌, ◌⊎◌, inl, inr, String, Bool, true, false, not, ◌||◌,
  Option, none, some, arith, ltb, leb, lt→ltb, if◌then◌else◌, text_eq, nat_eq, string_eq, ◌==◌,
}
use aoothjs.Auth.AuthCredential.{
  State, is_refresh, Rotation, never, always, sliding, ReuseResponse, one_session, whole_user,
  invalid_token, Config, Crypto, World, AuthError, refresh_reuse_detected, ok, err, Task, Between,
  pure, raise, continue, ◌>>=◌, find,
}
use aoothjs.Auth.AuthCredential.Finding.{find-IsSound}
use aoothjs.Auth.AuthCredential.Revocation.{Passes, revoke_everything, revoke_session}
use aoothjs.Auth.AuthCredential.Revocation.Swept.{IsSound, IsSwept}
use aoothjs.Auth.AuthCredential.Revocation.Alone.{alone, sweep_until_empty-IsSwept}
use aoothjs.Auth.AuthCredential.Refreshing.{RefreshResult, from_config, rotation_of, grace_ms_of}
use aoothjs.Auth.AuthCredential.Refresh.{
  opened_by, issue_rotated_pair, redeliver, revoke_for_reuse, respond_to_refresh_reuse,
  rotate_with_grace, redeem, refresh_tokens,
}

Rotation-cases : (r : Rotation) → (r ≡ never) ⊎ ((r ≡ always) ⊎ (r ≡ sliding))
Rotation-cases never = inl refl
Rotation-cases always = inr (inl refl)
Rotation-cases sliding = inr (inr refl)

module _ (crypto : Crypto) (config : Config) {P : Type 0} where
  everything : Passes P → ℕ → String → Task P Unit
  everything passes now user = revoke_everything passes now user >>= λ _. pure tt

  by_session : Passes P → ℕ → String → Option String → Task P Unit
  by_session passes now user session = elim session as (λ _. Task P Unit) [
    | none ↦ everything passes now user
    | some id ↦ revoke_session crypto config passes now user id
  ]

  by_response : Passes P → ℕ → String → Option String → ReuseResponse → Task P Unit
  by_response passes now user session response = elim response as (λ _. Task P Unit) [
    | whole_user ↦ everything passes now user
    | one_session ↦ by_session passes now user session
  ]

  revokes_session :
      (passes : Passes P) (now : ℕ) (old : State P) (session : String)
      → or_default one_session (from_config (λ c. c.reuse_response) config.refresh) ≡ one_session
      → old.rest.session_id ≡ some session
      → revoke_for_reuse crypto config passes now old
        ≡ revoke_session crypto config passes now old.user_id session
  unfolding revoke_for_reuse by_response by_session everything
  revokes_session passes now old session for_session belongs =
      ap (by_response passes now old.user_id old.rest.session_id) for_session
      ∙ ap (by_session passes now old.user_id) belongs

  -- the answer to a reuse of a session's token, with nobody else running
  respond-IsSwept :
      (now : ℕ) (old : State P) (session : String) (w : World P)
      → IsSound w
      → or_default one_session (from_config (λ c. c.reuse_response) config.refresh) ≡ one_session
      → old.rest.session_id ≡ some session
      → (after : World P) × (respond_to_refresh_reuse crypto config alone now old w
          ≡ (err refresh_reuse_detected, after))
        × IsSwept crypto config now old.user_id (λ key. key == session) after
  unfolding respond_to_refresh_reuse revoke_session
  respond-IsSwept now old session w sound for_session belongs =
      let matches : String → Bool = λ key. key == session in
      let (revoked, after, answered, swept) =
        sweep_until_empty-IsSwept crypto config now old.user_id matches w sound in
      let ran : revoke_for_reuse crypto config alone now old w ≡ (ok tt, after) =
        ap (λ task. task w) (revokes_session alone now old session for_session belongs)
        ∙ ap (continue (λ _. pure tt)) answered in
      (after, ap (continue (λ _. raise refresh_reuse_detected)) ran, swept)

  -- past its grace, a rotated token is answered as reused by either rotation
  past_grace :
      (between : Between P) (passes : Passes P) (now at : ℕ) (token key : String) (old : State P)
      (preserve : Bool)
      → old.rest.rotated_at ≡ some at
      → at + grace_ms_of config old < now
      → rotate_with_grace crypto config between passes now token key old preserve
        ≡ respond_to_refresh_reuse crypto config passes now old
  unfolding rotate_with_grace
  past_grace between passes now at token key old preserve turned late =
      let tested : (leb (grace_ms_of config old) 0 || ltb (at + grace_ms_of config old) now)
          ≡ true =
        ground (arith, lt→ltb (at + grace_ms_of config old) now late) in
      ap
        (λ o. elim o as (λ _. Task P RefreshResult) [
          | none ↦ issue_rotated_pair crypto config between now token key old preserve
          | some rotated_at ↦
              if leb (grace_ms_of config old) 0 || ltb (rotated_at + grace_ms_of config old) now
              then respond_to_refresh_reuse crypto config passes now old
              else redeliver crypto config passes now old
                  (opened_by crypto config token old.rest.successor)
        ])
        turned
      ∙ rw tested refl

  reused :
      (between : Between P) (passes : Passes P) (now at : ℕ) (token key : String) (old : State P)
      → old.rest.rotated_at ≡ some at
      → at + grace_ms_of config old < now
      → ¬ (rotation_of config old ≡ never)
      → redeem crypto config (rotation_of config old) between passes now token key old
        ≡ respond_to_refresh_reuse crypto config passes now old
  unfolding redeem
  reused between passes now at token key old turned late rotates =
      elim (Rotation-cases (rotation_of config old)) [
        | inl kept ↦ absurd (rotates kept)
        | inr (inl fixed) ↦
            ap (λ r. redeem crypto config r between passes now token key old) fixed
            ∙ past_grace between passes now at token key old true turned late
        | inr (inr slides) ↦
            ap (λ r. redeem crypto config r between passes now token key old) slides
            ∙ past_grace between passes now at token key old false turned late
      ]

  -- the scrutinees of `refresh_tokens` and `rotateWithGrace`, one after the other
  judged :
      (State P → Option AuthError)
      → Between P
      → Passes P
      → ℕ
      → String
      → String
      → State P
      → Bool
      → Option AuthError
      → Rotation
      → Task P RefreshResult
  judged guard between passes now token key old kind refused rotation =
      if not kind then raise invalid_token else elim refused as (λ _. Task P RefreshResult) [
        | some e ↦ raise e
        | none ↦ redeem crypto config rotation between passes now token key old
      ]

  pub refresh_tokens-redeem :
      (guard : State P → Option AuthError) (between : Between P) (passes : Passes P) (now : ℕ)
      (token key : String) (old : State P) (w after : World P)
      → find crypto config now token w ≡ (ok (some (key, old)), after)
      → is_refresh old.rest.kind ≡ true
      → guard old ≡ none
      → refresh_tokens crypto config guard between passes now token w
        ≡ redeem crypto config (rotation_of config old) between passes now token key old after
  unfolding refresh_tokens judged
  refresh_tokens-redeem guard between passes now token key old w after found kind unguarded =
      ap
        (continue (λ x. elim x as (λ _. Task P RefreshResult) [
          | none ↦ raise invalid_token
          | some (k, s) ↦
              judged guard between passes now token k s (is_refresh s.rest.kind) (guard s)
                (rotation_of config s)
        ]))
        found
      ∙ ap
          (λ b.
            judged guard between passes now token key old b (guard old) (rotation_of config old)
              after)
          kind
      ∙ ap
          (λ o. judged guard between passes now token key old true o (rotation_of config old) after)
          unguarded

  -- On a store whose index is in step, with nobody else running: a refresh token of a session that
  -- was rotated and is presented after its grace, where its family rotates and a reuse is answered
  -- by the session, is refused as reused. After that no live row of the user is of that session.
  pub refresh_tokens-IsSwept :
      (guard : State P → Option AuthError) (between : Between P) (now at : ℕ)
      (token key session : String) (old : State P) (w held : World P)
      → IsSound w
      → find crypto config now token w ≡ (ok (some (key, old)), held)
      → is_refresh old.rest.kind ≡ true
      → guard old ≡ none
      → ¬ (rotation_of config old ≡ never)
      → old.rest.rotated_at ≡ some at
      → at + grace_ms_of config old < now
      → old.rest.session_id ≡ some session
      → or_default one_session (from_config (λ c. c.reuse_response) config.refresh) ≡ one_session
      → (after : World P) × (refresh_tokens crypto config guard between alone now token w
          ≡ (err refresh_reuse_detected, after))
        × IsSwept crypto config now old.user_id (λ key. key == session) after
  refresh_tokens-IsSwept guard between now at token key session old w held sound found kind
        unguarded rotates turned late belongs for_session =
      let held_sound : IsSound held =
        subst IsSound (ap (λ r. r.1) found) (find-IsSound crypto config now token w sound) in
      let (after, answered, swept) =
        respond-IsSwept now old session held held_sound for_session belongs in
      (
        after,
        refresh_tokens-redeem guard between alone now token key old w held found kind unguarded
            ∙ ap (λ task. task held) (reused between alone now at token key old turned late rotates)
            ∙ answered,
        swept,
      )
