-- ===== src/User/Store.antt =====
-- packages/user/src/store/memory.ts: `UserStoreMemory`, and `WithCasOptions` of user-store.ts. The
-- rows are a map by id. A method gives a result or an error, and the store in either case; `create`
-- takes the random id. What other tasks do to the store while `withCas` waits is an argument.
pub mod Valid
pub mod Calls
pub mod Handles
pub mod Later
pub mod Cas
pub mod Settles
pub mod Plain
pub mod Keys
pub mod Done
mod Tests
use aoothjs.Base.{
  ℕ, zero, suc, ◌+◌, String, Bool, true, false, not, ◌&&◌, ◌||◌, Option, none, some, List, [], ◌∷◌,
  nat_beq, any, Text, units, text_eq, ◌==◌, string_eq, if◌then◌else◌,
}
use aoothjs.Base.Assoc.{Assoc, get, put, delete}
use aoothjs.User.Types.{
  Column, text, scalar, UserCredentials, UserPatch, CounterPath, UserStoreUpdate, not_found,
  already_exists, cas_exhausted, Result, ok, err,
}
use aoothjs.User.Patch.{deep_merge, increment_at_path}

pub record UserStore : Type 0 where
  pub rows : Assoc String UserCredentials
  pub handle_fields : List String

abbrev pub Action : Type 0 → Type 0
Action A = UserStore → Result A × UserStore

-- whether a column holds this text
abbrev pub is_text : Text → Option Column → Bool
is_text value none = false
is_text value (some (text t)) = t == value
is_text value (some (scalar n)) = false

unfoldable pub exists : Text → UserStore → Bool
exists handle s = any (λ entry. entry.1.username == handle) s.rows

unfoldable pub find_by_id : String → UserStore → Option UserCredentials
unfolding get
find_by_id id s = get id s.rows

-- the inner loop: some handle column of the row holds the text
unfoldable pub has_handle : List String → Text → UserCredentials → Bool
unfolding get
has_handle fields handle u = any (λ field. is_text handle (get field u.columns)) fields

-- the first row by a handle column is kept until a row by its username is found
unfoldable pub find_loop :
    List String
    → Text
    → Option UserCredentials
    → Assoc String UserCredentials
    → Option UserCredentials
unfolding has_handle
find_loop fields handle by_handle [] = by_handle
find_loop fields handle by_handle ((id, u) ∷ rows) =
    let candidate : Option UserCredentials = elim by_handle [
      | some found ↦ some found
      | none ↦ if has_handle fields handle u then some u else none
    ] in
    let found = find_loop fields handle candidate rows in
    if u.username == handle then some u else found

unfoldable pub find_by_handle : Text → UserStore → Option UserCredentials
unfolding find_loop
find_by_handle handle s = find_loop s.handle_fields handle none s.rows

-- `otherId === excludeId`
abbrev pub is_excluded : Option String → String → Bool
is_excluded none id = false
is_excluded (some except) id = except == id

unfoldable pub find_by_identifier : String → UserStore → Option UserCredentials
unfolding find_by_handle units get
find_by_identifier value s = elim (get value s.rows) [
  | some user ↦ some user
  | none ↦ find_by_handle (units value) s
]

-- another row has this text in the column
unfoldable pub column_collides :
    String → Option Column → Option String → Assoc String UserCredentials → Bool
unfolding get
column_collides field none except rows = false
column_collides field (some (scalar n)) except rows = false
column_collides field (some (text value)) except rows =
    any (λ entry. not (is_excluded except entry.0) && is_text value (get field entry.1.columns))
      rows

-- `assertHandlesUnique` throws
unfoldable pub handles_collide :
    List String → Assoc String Column → Option String → Assoc String UserCredentials → Bool
unfolding column_collides get
handles_collide fields columns except rows =
    any (λ field. column_collides field (get field columns) except rows) fields

abbrev pub no_id : String
no_id = ""

-- `if (!cloned.id) cloned.id = randomUUID()`
abbrev pub with_id : String → UserCredentials → UserCredentials
with_id minted user = if user.id == no_id then record user { id = minted } else user

-- the constructor's seed, with a random id for each row
unfoldable pub seed_rows :
    List (String × UserCredentials) → Assoc String UserCredentials → Assoc String UserCredentials
unfolding put
seed_rows [] rows = rows
seed_rows ((minted, user) ∷ seed) rows =
    let cloned : UserCredentials = with_id minted user in seed_rows seed (put cloned.id cloned rows)

unfoldable pub user_store : List (String × UserCredentials) → List String → UserStore
unfolding seed_rows
user_store seed fields = record { rows = seed_rows seed []; handle_fields = fields }

-- the row goes in under its id, whether or not the id is taken
unfoldable pub create : String → UserCredentials → Action Unit
unfolding handles_collide put
create minted user s =
    let cloned : UserCredentials = with_id minted user in
    if any (λ entry. entry.1.username == cloned.username) s.rows
      || handles_collide s.handle_fields cloned.columns none s.rows
    then (err already_exists, s)
    else (ok tt, record s { rows = put cloned.id (record cloned { version = some 0 }) s.rows })

-- `user.version ?? 0`
abbrev pub version_or_zero : Option ℕ → ℕ
version_or_zero none = 0
version_or_zero (some n) = n

abbrev pub version_of : UserCredentials → ℕ
version_of user = version_or_zero user.version

abbrev pub is_stale : Option ℕ → UserCredentials → Bool
is_stale none user = false
is_stale (some expected) user = not (nat_beq (version_of user) expected)

unfoldable pub increment_all : UserCredentials → List (CounterPath × ℕ) → UserCredentials
unfolding increment_at_path
increment_all user [] = user
increment_all user ((path, amount) ∷ inc) = increment_all (increment_at_path user path amount) inc

abbrev pub merge_set : UserCredentials → Option UserPatch → UserCredentials
merge_set user none = user
merge_set user (some patch) = deep_merge user patch

abbrev pub set_collides : UserStore → String → Option UserPatch → Bool
set_collides s id none = false
set_collides s id (some patch) = handles_collide s.handle_fields patch.columns (some id) s.rows

-- the row that an update leaves
unfoldable pub updated : UserStoreUpdate → UserCredentials → UserCredentials
unfolding deep_merge increment_all
updated change user =
    let next : UserCredentials = increment_all (merge_set user change.set) change.inc in
    record next { version = some (version_of next + 1) }

unfoldable pub update : String → UserStoreUpdate → Action Bool
unfolding handles_collide updated get put
update id change s = elim (get id s.rows) [
  | none ↦ (ok false, s)
  | some user ↦
      if is_stale change.expected_version user
      then (ok false, s)
      else if set_collides s id change.set
      then (err already_exists, s)
      else (ok true, record s { rows = put id (updated change user) s.rows })
]

unfoldable pub delete_user : String → Option ℕ → UserStore → Bool × UserStore
unfolding get delete
delete_user id expected s = elim (get id s.rows) [
  | none ↦ (false, s)
  | some user ↦
      if is_stale expected user then (false, s) else (true, record s { rows = delete id s.rows })
]

-- A mutator gives, beside the patch or `null`, what it wrote into its caller's variables.
abbrev pub Mutator : Type 0 → Type 0
Mutator A = UserCredentials → Result (A × Option UserStoreUpdate)

-- What others do at each wait: first before the update of an attempt, then before its next read.
abbrev pub Others : Type 0
Others = ℕ → UserStore → UserStore

-- the update of an attempt, on the version that was read
unfoldable pub update_read : String → UserStoreUpdate → UserCredentials → Action Bool
unfolding update
update_read id change current =
    update id (record change { expected_version = some (version_of current) })

module _ {A : Type 0} where
  -- the loop, with the attempts that are left
  unfoldable pub with_cas : ℕ → Others → String → Mutator A → Action A
  unfolding get update_read
  with_cas zero others id mutator s = (err cas_exhausted, s)
  with_cas (suc attempts) others id mutator s = elim (get id s.rows) [
    | none ↦ (err not_found, s)
    | some current ↦ elim (mutator current) [
      | err e ↦ (err e, s)
      | ok wanted ↦
          let (a, patch) = wanted in
          elim patch [
            | none ↦ (ok a, s)
            | some change ↦
                let (applied, s') = update_read id change current (others 0 s) in
                elim applied [
                  | err e ↦ (err e, s')
                  | ok done ↦ elim done [
                    | true ↦ (ok a, s')
                    | false ↦ with_cas attempts (λ n. others (suc (suc n))) id mutator (others 1 s')
                  ]
                ]
          ]
    ]
  ]

-- `opts?.maxAttempts ?? 2`
abbrev pub default_attempts : ℕ
default_attempts = 2
