-- ===== src/User/Store/Calls.antt =====
-- Sequences of calls of packages/user/src/store/memory.ts.
use aoothjs.Base.{ℕ, String, Option, List, [], ◌∷◌, text_eq, nat_eq, string_eq, All}
use aoothjs.User.Types.{UserCredentials, UserStoreUpdate}
use aoothjs.User.Store.{UserStore, create, update, delete_user}
use aoothjs.User.Store.Valid.{
  KeepsName, IsValid, create-IsValid, update-IsValid, delete_user-IsValid,
}

pub data StoreCall : Type 0 where
  create_call : String → UserCredentials → StoreCall
  update_call : String → UserStoreUpdate → StoreCall
  delete_call : String → Option ℕ → StoreCall

abbrev pub run_call : StoreCall → UserStore → UserStore
run_call (create_call minted user) s = (create minted user s).1
run_call (update_call id change) s = (update id change s).1
run_call (delete_call id expected) s = (delete_user id expected s).1

abbrev pub run_calls : List StoreCall → UserStore → UserStore
run_calls [] s = s
run_calls (c ∷ cs) s = run_calls cs (run_call c s)

abbrev pub CallKeepsName : StoreCall → Type 0
CallKeepsName (create_call minted user) = Unit
CallKeepsName (update_call id change) = KeepsName change.set
CallKeepsName (delete_call id expected) = Unit

run_call-IsValid :
    (c : StoreCall) (s : UserStore) → CallKeepsName c → IsValid s → IsValid (run_call c s)
run_call-IsValid (create_call minted user) s keeps valid = create-IsValid valid minted user
run_call-IsValid (update_call id change) s keeps valid = update-IsValid valid id change keeps
run_call-IsValid (delete_call id expected) s keeps valid = delete_user-IsValid valid id expected

-- Whatever calls create, update and delete users, if no update sets a username and the columns of
-- each patch are distinct: every row stays under its own id, no id stands twice, and no two rows
-- share a username or the text of a handle column.
pub run_calls-IsValid :
    (cs : List StoreCall) (s : UserStore)
    → All CallKeepsName cs
    → IsValid s
    → IsValid (run_calls cs s)
run_calls-IsValid [] s keeps valid = valid
run_calls-IsValid (c ∷ cs) s keeps valid =
    run_calls-IsValid cs (run_call c s) keeps.1 (run_call-IsValid c s keeps.0 valid)
