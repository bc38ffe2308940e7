-- ===== src/Auth/Clients.antt =====
-- packages/auth/src/authz/dynamic-client-store.ts: `DynamicClientStoreMemory`. `create` takes the
-- time as `now` and the random client id.
use aoothjs.Base.{
  ℕ, ◌+◌, ◌≡◌, refl, ap, ◌∙◌, String, Bool, true, false, Option, none, some, List, arith, ltb,
  length, string_eq, ==_refl, Option-cases, inl, inr,
}
use aoothjs.Base.Assoc.{Assoc, get, put, delete, delete_where}
use aoothjs.Base.Assoc.Laws.{get-put, Distinct, Distinct-put, Distinct-delete}
use aoothjs.Base.Assoc.Deleted.{
  unless, get-delete_where, Distinct-delete_where, length-delete_where,
}

pub data DynamicClientAuthMethod : Type 0 where
  no_auth client_secret_post : DynamicClientAuthMethod

pub record NewDynamicClient : Type 0 where
  pub client_name : Option String
  pub redirect_uris : List String
  pub token_endpoint_auth_method : DynamicClientAuthMethod
  pub client_secret_hash : Option String
  pub grant_types : List String
  pub response_types : List String
  pub scope : Option String

-- `DynamicClient`: what was given, with what the store assigns
pub record DynamicClient : Type 0 where
  pub client_id : String
  pub given : NewDynamicClient
  pub created_at : ℕ
  pub last_used_at : Option ℕ

abbrev pub ClientStore : Type 0
ClientStore = Assoc String DynamicClient

unfoldable pub create : ℕ → String → NewDynamicClient → ClientStore → DynamicClient × ClientStore
create now client_id rec s =
    let row : DynamicClient = record {
      client_id = client_id;
      given = rec;
      created_at = now;
      last_used_at = none;
    } in
    (row, put client_id row s)

-- `get`
unfoldable pub find : String → ClientStore → Option DynamicClient
unfolding get
find client_id s = get client_id s

-- `delete`
unfoldable pub remove : String → ClientStore → Bool × ClientStore
remove client_id s = elim (get client_id s) [
  | none ↦ (false, s)
  | some _ ↦ (true, delete client_id s)
]

unfoldable pub count : ClientStore → ℕ
count s = length s

unfoldable pub touch : String → ℕ → ClientStore → ClientStore
touch client_id at s = elim (get client_id s) [
  | none ↦ s
  | some row ↦ put client_id (record row { last_used_at = some at }) s
]

-- the row was never used, and was created before the cutoff
unfoldable pub is_stale : ℕ → DynamicClient → Bool
is_stale cutoff row = elim row.last_used_at [ none ↦ ltb row.created_at cutoff | some _ ↦ false ]

unfoldable pub delete_unused_before : ℕ → ClientStore → ℕ × ClientStore
unfolding is_stale delete_where
delete_unused_before cutoff s = delete_where (is_stale cutoff) s

touched :
    (client_id : String) (at : ℕ) (row : DynamicClient) (s : ClientStore)
    → get client_id s ≡ some row
    → touch client_id at s ≡ put client_id (record row { last_used_at = some at }) s
unfolding touch
touched client_id at row s found = rw (found, touch)

Distinct-remove :
    (client_id : String) (s : ClientStore) → Distinct s → Distinct (remove client_id s).1
unfolding remove
Distinct-remove client_id s d = elim (Option-cases (get client_id s)) [
  | inl absent ↦ rw (absent, remove) d
  | inr (row, found) ↦ rw (found, remove) (Distinct-delete client_id s d)
]

Distinct-touch :
    (client_id : String) (at : ℕ) (s : ClientStore) → Distinct s → Distinct (touch client_id at s)
unfolding touch
Distinct-touch client_id at s d = elim (Option-cases (get client_id s)) [
  | inl absent ↦ rw (absent, touch) d
  | inr (row, found) ↦
      rw (found, touch) (Distinct-put client_id (record row { last_used_at = some at }) s d)
]

-- The methods that change the store keep its client ids distinct.
pub Distinct-methods :
    (now at cutoff : ℕ) (client_id : String) (rec : NewDynamicClient) (s : ClientStore)
    → Distinct s
    → Distinct (create now client_id rec s).1
      × Distinct (remove client_id s).1
      × Distinct (touch client_id at s)
      × Distinct (delete_unused_before cutoff s).1
unfolding create delete_unused_before
Distinct-methods now at cutoff client_id rec s d = (
  Distinct-put client_id _ s d,
  Distinct-remove client_id s d,
  Distinct-touch client_id at s d,
  Distinct-delete_where (is_stale cutoff) s d,
)

-- In a store whose client ids are distinct, the collection of unused clients removes exactly those
-- that were created before the cutoff and never used, and answers by how many the count falls. A
-- client that has been touched stays, with the time of its last use, whatever the cutoff.
pub delete_unused_before-touch :
    (cutoff at : ℕ) (client_id j : String) (row : DynamicClient) (s : ClientStore)
    → Distinct s
    → find client_id s ≡ some row
    → (find j (delete_unused_before cutoff s).1 ≡ unless (is_stale cutoff) (find j s))
      × ((delete_unused_before cutoff s).0 + count (delete_unused_before cutoff s).1 ≡ count s)
      × (find client_id (delete_unused_before cutoff (touch client_id at s)).1
          ≡ some (record row { last_used_at = some at }))
unfolding delete_unused_before count find
delete_unused_before-touch cutoff at client_id j row s d found =
    let used : DynamicClient = record row { last_used_at = some at } in
    let kept : get client_id (touch client_id at s) ≡ some used =
      ap (get client_id) (touched client_id at row s found)
      ∙ ground (arith, get-put client_id client_id used s, ==_refl client_id) in
    (
      get-delete_where (is_stale cutoff) j s d,
      length-delete_where (is_stale cutoff) s,
      get-delete_where (is_stale cutoff) client_id (touch client_id at s)
            (Distinct-touch client_id at s d)
          ∙ ap (unless (is_stale cutoff)) kept
          ∙ (unfold is_stale in refl),
    )
