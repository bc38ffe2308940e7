-- ===== src/User/Store/Plain.antt =====
-- Updates of packages/user/src/store/memory.ts that touch neither a username nor a column.
use aoothjs.Base.{
  ◌≡◌, refl, ap, ◌∙◌, String, true, false, Option, none, some, List, [], ◌∷◌, text_eq, nat_eq,
  string_eq,
}
use aoothjs.Base.Assoc.{Assoc, get, put}
use aoothjs.User.Types.{UserCredentials, UserPatch, UserStoreUpdate, ok}
use aoothjs.User.Store.{UserStore, column_collides, handles_collide, set_collides, updated, update}
use aoothjs.User.Store.Valid.{KeepsName}

abbrev pub IsPlain : Option UserPatch → Type 0
IsPlain none = Unit
IsPlain (some patch) = (patch.username ≡ none) × (patch.columns ≡ [])

pub IsPlain-KeepsName : (set : Option UserPatch) → IsPlain set → KeepsName set
IsPlain-KeepsName none plain = tt
IsPlain-KeepsName (some patch) (name, empty) = (name, rw empty tt)

no_collision :
    (fields all : List String) (except : Option String) (rows : Assoc String UserCredentials)
    → handles_collide fields [] except rows ≡ false
unfolding handles_collide column_collides get
no_collision [] all except rows = refl
no_collision (f ∷ fields) all except rows = no_collision fields all except rows

set_collides_plain :
    (s : UserStore) (id : String) (set : Option UserPatch)
    → IsPlain set
    → set_collides s id set ≡ false
set_collides_plain s id none plain = refl
set_collides_plain s id (some patch) (name, empty) =
    ap (λ columns. handles_collide s.handle_fields columns (some id) s.rows) empty
    ∙ no_collision s.handle_fields s.handle_fields (some id) s.rows

-- the store with the row of an id replaced
abbrev pub with_row : String → UserCredentials → UserStore → UserStore
with_row id row s = record s { rows = put id row s.rows }

-- such an update of a row that is there, without an expected version, is made
pub update_plain :
    (id : String) (change : UserStoreUpdate) (s : UserStore) {user : UserCredentials}
    → get id s.rows ≡ some user
    → change.expected_version ≡ none
    → IsPlain change.set
    → update id change s ≡ (ok true, with_row id (updated change user) s)
unfolding update
update_plain id change s found any_version plain =
    rw (found, any_version, set_collides_plain s id change.set plain, update) refl
