-- ===== src/User/Service/Invitations.antt =====
-- packages/user/src/user-service.ts: `acceptInvitation` and `revokeInvitation`.
pub mod Safe
use aoothjs.Base.{
  ℕ, String, Bool, true, false, not, ◌&&◌, ◌||◌, Option, none, some, ◌==◌, string_eq, if◌then◌else◌,
}
use aoothjs.User.Types.{AccountData, UserCredentials, Result, ok, err}
use aoothjs.User.Patch.{no_account, no_patch}
use aoothjs.User.Store.{
  UserStore, Action, Others, Mutator, version_of, find_by_id, delete_user, with_cas,
  default_attempts,
}
use aoothjs.User.Service.{pure, gets, ◌>>=◌, ◌>>◌, setting}

-- `undefined`, `false` and `true`
abbrev pub is_pending : AccountData → Bool
is_pending account = elim account.pending_invitation [ none ↦ false | some b ↦ b ]

abbrev pub is_nonce : String → Option String → Bool
is_nonce nonce none = false
is_nonce nonce (some n) = n == nonce

-- a row without a nonce accepts any
abbrev pub nonce_matches : Option String → Option String → Bool
nonce_matches none given = true
nonce_matches (some expected) given = is_nonce expected given

unfoldable pub accept_pending : Option String → Mutator Bool
accept_pending given user =
    let account = user.account in
    if is_pending account && nonce_matches account.invite_nonce given
    then ok (
      true,
      some (
          setting
            (record no_patch { account = record no_account { pending_invitation = some false } })),
    )
    else ok (false, none)

unfoldable pub accept_invitation : Others → String → Option String → Action Bool
unfolding with_cas accept_pending
accept_invitation others id given = with_cas default_attempts others id (accept_pending given)

unfoldable pub claim_pending : String → Mutator Bool
claim_pending nonce user =
    if is_pending user.account
    then ok (
      true,
      some
          (setting (record no_patch { account = record no_account { invite_nonce = some nonce } })),
    )
    else ok (false, none)

-- the row that was claimed, if it is still there, pending and claimed
unfoldable pub still_claimed : String → Option UserCredentials → Option UserCredentials
still_claimed nonce none = none
still_claimed nonce (some user) =
    if is_pending user.account && is_nonce nonce user.account.invite_nonce then some user else none

abbrev pub yields : (UserStore → UserStore) → Action Unit
yields f s = (ok tt, f s)

-- the row to delete, if the claim was made and still stands
unfoldable pub claimed_row : String → String → Bool → UserStore → Option UserCredentials
unfolding still_claimed find_by_id
claimed_row nonce id pending s = if pending then still_claimed nonce (find_by_id id s) else none

unfoldable pub remove_claimed : String → Option UserCredentials → Action Bool
unfolding delete_user
remove_claimed id none s = (ok false, s)
remove_claimed id (some user) s =
    let (removed, s') = delete_user id (some (version_of user)) s in (ok removed, s')

-- With the random nonce; `before` and `after` are what others do around the read of the claim.
unfoldable pub revoke_invitation :
    Others → (UserStore → UserStore) → (UserStore → UserStore) → String → String → Action Bool
unfolding with_cas claim_pending claimed_row remove_claimed
revoke_invitation others before after nonce id = do
  pending ← with_cas default_attempts others id (claim_pending nonce)
  yields before
  claimed ← gets (claimed_row nonce id pending)
  yields after
  remove_claimed id claimed
