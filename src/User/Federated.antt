-- ===== src/User/Federated.antt =====
-- packages/user/src/store/federated-identity-store.ts and federated-identity-store-memory.ts:
-- `FederatedIdentityStoreMemory`. A method that reads the clock takes the time as `now`, and `link`
-- takes the random id. An error thrown is `none`.
pub mod Links
pub mod Sorted
mod Tests
use aoothjs.Base.{
  ℕ, String, Bool, true, false, Option, none, some, List, [], ◌∷◌, ◌++◌, leb, filter, Text, text_eq,
  ◌==◌, string_eq, if◌then◌else◌,
}
use aoothjs.Base.Sorting.{sort_by}
use aoothjs.Base.Assoc.{Assoc, get, put, delete, delete_where}

pub record FederatedProfileSnapshot : Type 0 where
  pub email : Option String
  pub email_verified : Option Bool
  pub display_name : Option String
  pub avatar_url : Option String

pub record FederatedIdentity : Type 0 where
  pub id : String
  pub provider : Text
  pub subject : Text
  pub user_id : String
  pub profile : FederatedProfileSnapshot
  pub linked_at : ℕ
  pub last_login_at : Option ℕ

pub record NewFederatedIdentity : Type 0 where
  pub provider : Text
  pub subject : Text
  pub user_id : String
  pub profile : FederatedProfileSnapshot

abbrev pub FederatedStore : Type 0
FederatedStore = Assoc Text FederatedIdentity

-- the two texts, joined by a null character
unfoldable pub composite_key : Text → Text → Text
composite_key provider subject = provider ++ (0 ∷ subject)

-- a field that is defined replaces one of the row
abbrev pub assign : {A : Type 0} → Option A → Option A → Option A
assign old none = old
assign old (some new) = some new

-- `Object.assign(row, pickDefinedProfile(profile))`, on the profile's fields
unfoldable pub assign_profile :
    FederatedProfileSnapshot → FederatedProfileSnapshot → FederatedProfileSnapshot
assign_profile old new = record {
  email = assign old.email new.email;
  email_verified = assign old.email_verified new.email_verified;
  display_name = assign old.display_name new.display_name;
  avatar_url = assign old.avatar_url new.avatar_url;
}

unfoldable pub find : Text → Text → FederatedStore → Option FederatedIdentity
unfolding composite_key get
find provider subject s = get (composite_key provider subject) s

abbrev pub values : FederatedStore → List FederatedIdentity
values [] = []
values ((_, row) ∷ s) = row ∷ values s

-- `toSorted((a, b) => a.linkedAt - b.linkedAt)`
unfoldable pub sort_rows : List FederatedIdentity → List FederatedIdentity
unfolding sort_by
sort_rows rows = sort_by (λ row. row.linked_at) rows

unfoldable pub list_for_user : String → FederatedStore → List FederatedIdentity
unfolding sort_rows
list_for_user user_id s = sort_rows (filter (λ row. row.user_id == user_id) (values s))

unfoldable pub new_row : ℕ → String → NewFederatedIdentity → FederatedIdentity
new_row now id rec = record {
  id = id;
  provider = rec.provider;
  subject = rec.subject;
  user_id = rec.user_id;
  profile = rec.profile;
  linked_at = now;
  last_login_at = none;
}

unfoldable pub link :
    ℕ → String → NewFederatedIdentity → FederatedStore → Option (FederatedIdentity × FederatedStore)
unfolding composite_key get put new_row
link now id rec s =
    let key = composite_key rec.provider rec.subject in
    let row = new_row now id rec in
    elim (get key s) [ none ↦ some (row, put key row s) | some _ ↦ none ]

unfoldable pub unlink : Text → Text → FederatedStore → Bool × FederatedStore
unfolding composite_key get delete
unlink provider subject s = elim (get (composite_key provider subject) s) [
  | none ↦ (false, s)
  | some _ ↦ (true, delete (composite_key provider subject) s)
]

-- the row after a login; without a profile it only gets the time
unfoldable pub logged_in :
    ℕ → Option FederatedProfileSnapshot → FederatedIdentity → FederatedIdentity
unfolding assign_profile
logged_in now none row = record row { last_login_at = some now }
logged_in now (some profile) row = record row {
  last_login_at = some now;
  profile = assign_profile row.profile profile;
}

unfoldable pub touch_login :
    ℕ → Text → Text → Option FederatedProfileSnapshot → FederatedStore → FederatedStore
unfolding composite_key get put logged_in
touch_login now provider subject profile s = elim (get (composite_key provider subject) s) [
  | none ↦ s
  | some row ↦ put (composite_key provider subject) (logged_in now profile row) s
]

unfoldable pub delete_all_for_user : String → FederatedStore → ℕ × FederatedStore
unfolding delete_where
delete_all_for_user user_id s = delete_where (λ row. row.user_id == user_id) s
