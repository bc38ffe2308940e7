-- ===== src/User/Service/Snapshots.antt =====
-- packages/user/src/user-service.ts: the epoch of writes (`observeWrites`, `onUserWrite`) and
-- `getUserSnapshot`, for one scope. A listener is known by a number and does not throw; a read
-- that fails is not kept. A read of the store is done when it is asked for.
pub mod Fresh
use aoothjs.Base.{
  ℕ, suc, ◌+◌, String, Bool, true, false, not, Option, none, some, List, [], ◌∷◌, ◌++◌, nat_beq,
  any, map, filter, ◌==◌, nat_eq, string_eq, if◌then◌else◌,
}
use aoothjs.Base.Assoc.{Assoc, get, put}
use aoothjs.User.Types.{UserCredentials, Result, ok, err}
use aoothjs.User.Store.{UserStore, Action}
use aoothjs.User.Service.{get_user}

pub record Snapshot : Type 0 where
  pub epoch : ℕ
  pub user : UserCredentials

pub record Observed : Type 0 where
  pub store : UserStore
  pub write_epoch : ℕ
  pub listeners : List ℕ
  pub snapshots : Assoc String Snapshot

-- `onUserWrite`, on a set of listeners, and what it returns
unfoldable pub on_user_write : ℕ → Observed → Observed
on_user_write listener o =
    if any (λ l. l == listener) o.listeners
    then o
    else record o { listeners = o.listeners ++ listener ∷ [] }

unfoldable pub unsubscribe : ℕ → Observed → Observed
unsubscribe listener o = record o { listeners = filter (λ l. not (l == listener)) o.listeners }

-- the hook before a write
unfoldable pub start_write : Observed → Observed
start_write o = record o { write_epoch = suc o.write_epoch }

-- what a write that has started does to the store
unfoldable pub write : (UserStore → UserStore) → Observed → Observed
write f o = record o { store = f o.store }

-- the hook when a write has settled, and the calls of the listeners with the user's id
unfoldable pub end_write : Option String → Observed → List (ℕ × Option String) × Observed
end_write id o = (map (λ l. (l, id)) o.listeners, record o { write_epoch = suc o.write_epoch })

-- a hit needs the epoch at which the snapshot was taken
abbrev pub is_current : ℕ → Snapshot → Bool
is_current epoch hit = nat_beq hit.epoch epoch

abbrev pub current_hit : ℕ → Option Snapshot → Option UserCredentials
current_hit epoch none = none
current_hit epoch (some hit) = if is_current epoch hit then some hit.user else none

-- the read of a miss, which is kept if it succeeds
abbrev pub keep_read : String → Result UserCredentials → Observed → Observed
keep_read id (err e) o = o
keep_read id (ok user) o = record o {
  snapshots = put id (record { epoch = o.write_epoch; user = user }) o.snapshots;
}

unfoldable pub get_user_snapshot : String → Observed → Result UserCredentials × Observed
unfolding get put get_user
get_user_snapshot id o = elim (current_hit o.write_epoch (get id o.snapshots)) [
  | some user ↦ (ok user, o)
  | none ↦ let (result, s) = get_user id o.store in (result, keep_read id result o)
]
