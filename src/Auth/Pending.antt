-- ===== src/Auth/Pending.antt =====
-- packages/auth/src/authz/pending-authorization-store.ts: `PendingAuthorizationStoreMemory`. A
-- method that reads the clock takes the time as `now`, and `create` takes the random handle.
use aoothjs.Base.{
  ℕ, ◌+◌, ◌*◌, ◌≤◌, ◌≡◌, refl, sym, ap, ◌∙◌, String, Bool, true, false, Option, none, some, [],
  arith, leb, ◌==◌, string_eq, ==_refl, eq_of_==, Bool-cases, Option-cases, inl, inr, if◌then◌else◌,
}
use aoothjs.Base.Assoc.{Assoc, get, put, delete}
use aoothjs.Base.Assoc.Laws.{get-put, get-delete}

pub record NewPendingAuthorization (T : Type 0) : Type 0 where
  pub client_id : Option String
  pub client_name : Option String
  pub redirect_uri : String
  pub code_challenge : String
  pub client_state : Option String
  pub resource : Option String
  pub scope : Option String
  pub nonce : Option String
  pub id_token : Option Bool
  pub access_token : Option Bool
  pub audience : Option String
  pub token_policy : T
  pub binding : String

-- `PendingAuthorization`: what was given, with what the store assigns
pub record PendingAuthorization (T : Type 0) : Type 0 where
  pub handle : String
  pub given : NewPendingAuthorization T
  pub created_at : ℕ
  pub expires_at : ℕ

abbrev pub default_pending_ttl_ms : ℕ
default_pending_ttl_ms = 15 * 60000

pub record PendingStore (T : Type 0) : Type 0 where
  pub rows : Assoc String (PendingAuthorization T)
  pub ttl_ms : ℕ

module _ {T : Type 0} where
  -- the constructor; an absent `ttlMs` is `none`
  abbrev pub pending_store : Option ℕ → PendingStore T
  pending_store none = record { rows = []; ttl_ms = default_pending_ttl_ms }
  pending_store (some ttl) = record { rows = []; ttl_ms = ttl }

  unfoldable pub create :
      ℕ → String → NewPendingAuthorization T → PendingStore T → (String × ℕ) × PendingStore T
  create now handle rec s =
      let row : PendingAuthorization T = record {
        handle = handle;
        given = rec;
        created_at = now;
        expires_at = now + s.ttl_ms;
      } in
      ((handle, now + s.ttl_ms), record s { rows = put handle row s.rows })

  -- `get`
  unfoldable pub fetch :
      ℕ → String → PendingStore T → Option (PendingAuthorization T) × PendingStore T
  fetch now handle s = elim (get handle s.rows) [
    | none ↦ (none, s)
    | some row ↦
        if leb row.expires_at now
        then (none, record s { rows = delete handle s.rows })
        else (some row, s)
  ]

  -- `delete`
  unfoldable pub remove : String → PendingStore T → Bool × PendingStore T
  remove handle s = elim (get handle s.rows) [
    | none ↦ (false, s)
    | some _ ↦ (true, record s { rows = delete handle s.rows })
  ]

  abbrev pub valid_at : ℕ → Option (PendingAuthorization T) → Option (PendingAuthorization T)
  valid_at now none = none
  valid_at now (some row) = if leb row.expires_at now then none else some row

  fetched :
      (now : ℕ) (handle : String) (s : PendingStore T)
      → (fetch now handle s).0 ≡ valid_at now (get handle s.rows)
  unfolding fetch
  fetched now handle s = elim (Option-cases (get handle s.rows)) [
    | inl absent ↦ rw (absent, fetch)
    | inr (row, found) ↦ elim (Bool-cases (leb row.expires_at now)) [
      | inl gone ↦ rw (found, gone, fetch)
      | inr live ↦ rw (found, live, fetch)
    ]
  ]

  -- A fetch changes nothing that a later fetch gives.
  get-fetch :
      (now later : ℕ) (handle j : String) (s : PendingStore T)
      → now ≤ later
      → valid_at later (get j (fetch now handle s).1.rows) ≡ valid_at later (get j s.rows)
  unfolding fetch
  get-fetch now later handle j s after = elim (Option-cases (get handle s.rows)) [
    | inl absent ↦ rw (absent, fetch)
    | inr (row, found) ↦ elim (Bool-cases (leb row.expires_at now)) [
      | inl gone ↦
          rw (found, gone, fetch) (ground (arith, get-delete handle j s.rows, same, found, gone))
      | inr live ↦ rw (found, live, fetch)
    ]
  ]
    where
      same : (handle == j) ≡ true → get j s.rows ≡ get handle s.rows
      same e = ap (λ k. get k s.rows) (sym (eq_of_== handle j e))

  -- A pending authorization is given to two fetches of its handle, one after the other, each before
  -- the expiry that `create` answered, and to neither from then on.
  pub fetch-create :
      (now first later : ℕ) (handle : String) (rec : NewPendingAuthorization T) (s : PendingStore T)
      → first ≤ later
      → let made = create now handle rec s in
        let row : PendingAuthorization T = record {
          handle = handle;
          given = rec;
          created_at = now;
          expires_at = made.0.1;
        } in
        ((fetch first handle made.1).0 ≡ (if leb made.0.1 first then none else some row))
        × ((fetch later handle (fetch first handle made.1).1).0
            ≡ (if leb made.0.1 later then none else some row))
  unfolding create
  fetch-create now first later handle rec s after =
      let made = create now handle rec s in
      let row : PendingAuthorization T = record {
        handle = handle;
        given = rec;
        created_at = now;
        expires_at = now + s.ttl_ms;
      } in
      let found : get handle made.1.rows ≡ some row =
        ground (arith, get-put handle handle row s.rows, ==_refl handle) in
      (
        fetched first handle made.1 ∙ ap (valid_at first) found,
        fetched later handle (fetch first handle made.1).1
            ∙ get-fetch first later handle handle made.1 after
            ∙ ap (valid_at later) found,
      )

  -- A removed handle is fetched no more; the removal answers whether there was a row, and leaves
  -- every other.
  pub remove_lem :
      (now : ℕ) (handle j : String) (s : PendingStore T)
      → ((fetch now handle (remove handle s).1).0 ≡ none)
        × ((remove handle s).0 ≡ (elim (get handle s.rows) [ none ↦ false | some _ ↦ true ]))
        × ((handle == j) ≡ false → get j (remove handle s).1.rows ≡ get j s.rows)
  unfolding remove
  remove_lem now handle j s = elim (Option-cases (get handle s.rows)) [
    | inl absent ↦
        rw (absent, remove) (fetched now handle s ∙ ap (valid_at now) absent, refl, λ other. refl)
    | inr (row, found) ↦
        let nothing : get handle (delete handle s.rows) ≡ none =
          ground (arith, get-delete handle handle s.rows, ==_refl handle) in
        rw (found, remove)
          (
            fetched now handle (record s { rows = delete handle s.rows })
                ∙ ap (valid_at now) nothing,
            refl,
            λ other. ground (arith, get-delete handle j s.rows, other),
          )
  ]
