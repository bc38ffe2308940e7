-- ===== src/User/Service/Invitations/Safe.antt =====
-- `acceptInvitation` and `revokeInvitation` of packages/user/src/user-service.ts while others write.
use aoothjs.Base.{
  ℕ, ◌≡◌, refl, sym, ap, ◌∙◌, inl, inr, String, Bool, true, false, ◌&&◌, Option, none, some, List,
  arith, nat_beq, nat_beq_iff, Bool-cases, Option-cases, text_eq, nat_eq, string_eq, ==_refl, All,
}
use aoothjs.Base.Assoc.{get, delete}
use aoothjs.Base.Assoc.Entries.{get-put_here}
use aoothjs.User.Types.{AccountData, UserCredentials, UserPatch, Result, ok}
use aoothjs.User.Patch.{no_patch, no_account, deep_merge, merge_account}
use aoothjs.User.Store.{
  UserStore, Action, version_of, find_by_id, updated, increment_all, delete_user, with_cas,
  default_attempts,
}
use aoothjs.User.Store.Calls.{StoreCall, run_calls}
use aoothjs.User.Store.Later.{IsNoBirth, run_calls-IsLater, IsLater-same}
use aoothjs.User.Store.Cas.{Waits, as_others, run_waits}
use aoothjs.User.Store.Done.{done_patch, done_idle, with_cas_ok}
use aoothjs.User.Service.{continue_inv, gets, ◌>>=◌, ◌>>◌, >>=-ok, setting}
use aoothjs.User.Service.Invitations.{
  is_pending, is_nonce, nonce_matches, accept_pending, accept_invitation, claim_pending,
  still_claimed, claimed_row, remove_claimed, revoke_invitation, yields,
}

abbrev may_accept : Option String → AccountData → Bool
may_accept given account = is_pending account && nonce_matches account.invite_nonce given

abbrev accepted : UserPatch
accepted = record no_patch { account = record no_account { pending_invitation = some false } }

accept_wants :
    (given : Option String) (u : UserCredentials)
    → may_accept given u.account ≡ true
    → accept_pending given u ≡ ok (true, some (setting accepted))
unfolding accept_pending
accept_wants given u h = simp h

accept_stops :
    (given : Option String) (u : UserCredentials)
    → may_accept given u.account ≡ false
    → accept_pending given u ≡ ok (false, none)
unfolding accept_pending
accept_stops given u h = simp h

-- An acceptance that answers true, whatever others do while it waits, so long as they create no row
-- under the id, has found the invitation pending and its nonce, if it has one, to be the one given
-- when it wrote, and leaves it no longer pending.
pub accept_invitation_lem :
    (waits : Waits) (id : String) (given : Option String) (s after : UserStore)
    → ((n : ℕ) → All (IsNoBirth id) (waits n))
    → accept_invitation (as_others waits) id given s ≡ (ok true, after)
    → (m : ℕ) × (u : UserCredentials) × (v : UserCredentials) × (get id (run_waits m waits s).rows
        ≡ some u)
      × (is_pending u.account ≡ true)
      × (nonce_matches u.account.invite_nonce given ≡ true)
      × (get id after.rows ≡ some v)
      × (is_pending v.account ≡ false)
unfolding accept_invitation updated increment_all deep_merge merge_account
accept_invitation_lem waits id given s after quiet e =
    let (m, u, found, done) =
      with_cas_ok default_attempts waits id (accept_pending given) s after quiet e in
    let before = run_waits m waits s in
    elim (Bool-cases (may_accept given u.account)) [
      | inr no_more ↦
          let (bad, same) =
            done_idle id (accept_pending given u) true false before after
              (accept_stops given u no_more) done in
          absurd (ground (arith, bad))
      | inl still ↦
          let (fine, same) =
            done_patch id (accept_pending given u) true true accepted u before after found
              (refl, refl) (accept_wants given u still) done in
          let v : UserCredentials = updated (setting accepted) u in
          let both : (is_pending u.account ≡ true)
              × (nonce_matches u.account.invite_nonce given ≡ true) =
            ground (arith, still) in
          (
            m,
            u,
            v,
            found,
            both.0,
            both.1,
            ap (λ t. get id t.rows) same ∙ get-put_here id id v before.rows (==_refl id),
            refl,
          )
    ]

still_claimed-some :
    (nonce : String) (o : Option UserCredentials) {u : UserCredentials}
    → still_claimed nonce o ≡ some u
    → (o ≡ some u) × (is_pending u.account ≡ true) × (is_nonce nonce u.account.invite_nonce ≡ true)
unfolding still_claimed
still_claimed-some nonce none e = absurd (ground (arith, e))
still_claimed-some nonce (some v) {u} e =
    elim (Bool-cases (is_pending v.account && is_nonce nonce v.account.invite_nonce)) [
      | inr lost ↦ absurd (ground (arith, e, lost))
      | inl held ↦
          let both : some v ≡ some u = simp held at e in
          let same : v ≡ u = ground arith in
          let tests : (is_pending v.account ≡ true)
              × (is_nonce nonce v.account.invite_nonce ≡ true) =
            ground (arith, held) in
          (
            both,
            ap (λ r. is_pending r.account) (sym same) ∙ tests.0,
            ap (λ r. is_nonce nonce r.account.invite_nonce) (sym same) ∙ tests.1,
          )
    ]

-- a removal under a version
removed :
    (id : String) (n : ℕ) (s : UserStore)
    → (delete_user id (some n) s).0 ≡ true
    → (v : UserCredentials) × (get id s.rows ≡ some v)
      × (version_of v ≡ n)
      × ((delete_user id (some n) s).1.rows ≡ delete id s.rows)
unfolding delete_user
removed id n s e = elim (Option-cases (get id s.rows)) [
  | inl absent ↦ absurd (let h = rw (absent, delete_user) at e in ground (arith, h))
  | inr (v, found) ↦ elim (Bool-cases (nat_beq (version_of v) n)) [
    | inr stale ↦ absurd (let h = rw (found, stale, delete_user) at e in ground (arith, h))
    | inl same ↦
        (v, found, (nat_beq_iff (version_of v) n).0 same, rw (found, same, delete_user) refl)
  ]
]

module _ (waits : Waits) (before after : List StoreCall) (nonce id : String) where
  abbrev revoking : Action Bool
  revoking = revoke_invitation (as_others waits) (run_calls before) (run_calls after) nonce id

  -- the store when the claim is read again, and when the row is deleted
  abbrev pub read_again : UserStore → UserStore
  read_again s =
      run_calls before (with_cas default_attempts (as_others waits) id (claim_pending nonce) s).1

  abbrev pub at_delete : UserStore → UserStore
  at_delete s = run_calls after (read_again s)

  revoke_steps :
      (s : UserStore) (pending : Bool) (t : UserStore)
      → with_cas default_attempts (as_others waits) id (claim_pending nonce) s ≡ (ok pending, t)
      → revoking s
        ≡ remove_claimed id
            (claimed_row nonce id pending (run_calls before t))
            (run_calls after (run_calls before t))
  unfolding revoke_invitation
  revoke_steps s pending t e =
      >>=-ok (with_cas default_attempts (as_others waits) id (claim_pending nonce)) _ s e

  remove_claimed-true :
      (claimed : Option UserCredentials) (t : UserStore)
      → (remove_claimed id claimed t).0 ≡ ok true
      → (user : UserCredentials) × (v : UserCredentials) × (claimed ≡ some user)
        × (get id t.rows ≡ some v)
        × (version_of v ≡ version_of user)
        × ((remove_claimed id claimed t).1.rows ≡ delete id t.rows)
  unfolding remove_claimed
  remove_claimed-true none t e = absurd (ground (arith, e))
  remove_claimed-true (some user) t e =
      let (v, found, version, gone) = removed id (version_of user) t (ground (arith, e)) in
      (user, v, refl, found, version, gone)

  claimed_row-some :
      (pending : Bool) (t : UserStore) {u : UserCredentials}
      → claimed_row nonce id pending t ≡ some u
      → (get id t.rows ≡ some u)
        × (is_pending u.account ≡ true)
        × (is_nonce nonce u.account.invite_nonce ≡ true)
  unfolding claimed_row find_by_id
  claimed_row-some false t e = absurd (ground (arith, e))
  claimed_row-some true t e = still_claimed-some nonce (get id t.rows) e

  ran_ok :
      (s : UserStore)
      → (revoking s).0 ≡ ok true
      → (pending : Bool) × (t : UserStore) × (with_cas default_attempts
            (as_others waits)
            id
            (claim_pending nonce)
            s
          ≡ (ok pending, t))
  unfolding revoke_invitation
  ran_ok s e =
      let whole : revoking s ≡ (ok true, (revoking s).1) =
        ap {B = Result Bool × UserStore} (λ r. (r, (revoking s).1)) e in
      let (pending, t, claim, rest) =
        continue_inv finish (with_cas default_attempts (as_others waits) id (claim_pending nonce) s)
          whole in
      (pending, t, claim)
    where
      finish : Bool → Action Bool
      finish pending = do
        yields (run_calls before)
        claimed ← gets (claimed_row nonce id pending)
        yields (run_calls after)
        remove_claimed id claimed

  -- If revoking an invitation answers that it has deleted the user, whatever others do while it
  -- waits, so long as they create no row under the id after its second read, then the row that
  -- stood there when it was deleted was still pending and held the nonce of this revocation, and
  -- that row alone was deleted.
  pub revoke_invitation_lem :
      (s : UserStore)
      → All (IsNoBirth id) after
      → (revoking s).0 ≡ ok true
      → (u : UserCredentials) × (get id (at_delete s).rows ≡ some u)
        × (is_pending u.account ≡ true)
        × (is_nonce nonce u.account.invite_nonce ≡ true)
        × ((revoking s).1.rows ≡ delete id (at_delete s).rows)
  revoke_invitation_lem s quiet e =
      let (pending, t, claim) = ran_ok s e in
      let steps = revoke_steps s pending t claim in
      let read = run_calls before t in
      let last = run_calls after read in
      let gone : (remove_claimed id (claimed_row nonce id pending read) last).0 ≡ ok true =
        ap (λ r. r.0) (sym steps) ∙ e in
      let (user, v, claimed, found, version, deleted) =
        remove_claimed-true (claimed_row nonce id pending read) last gone in
      let (stored, is_open, ours) = claimed_row-some pending read claimed in
      let same : v ≡ user =
        IsLater-same (get id read.rows) (get id last.rows) (run_calls-IsLater id after read quiet)
          stored found version in
      let begun : last ≡ at_delete s =
        ap (λ r. run_calls after (run_calls before r.1)) (sym claim) in
      (
        v,
        ap (λ r. get id r.rows) (sym begun) ∙ found,
        ap (λ r. is_pending r.account) same ∙ is_open,
        ap (λ r. is_nonce nonce r.account.invite_nonce) same ∙ ours,
        ap (λ r. r.1.rows) steps ∙ deleted ∙ ap (λ r. delete id r.rows) begun,
      )
