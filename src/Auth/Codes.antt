-- ===== src/Auth/Codes.antt =====
-- packages/auth/src/authz/auth-code-store.ts: `AuthCodeStoreMemory`. A method that reads the clock
-- takes the time as `now`, and `mint` takes the random code. The store only copies the token
-- policy, so its type is a parameter.
use aoothjs.Base.{
  ℕ, ◌+◌, ◌≡◌, refl, sym, ap, ◌∙◌, String, Bool, true, false, Option, none, some, [], arith, leb,
  ◌==◌, string_eq, ==_refl, eq_of_==, Bool-cases, Option-cases, inl, inr, if◌then◌else◌,
}
use aoothjs.Base.Assoc.{Assoc, get, put, delete}
use aoothjs.Base.Assoc.Laws.{get-put, get-delete}

pub record NewAuthCode (T : Type 0) : Type 0 where
  pub user_id : String
  pub code_challenge : String
  pub redirect_uri : String
  pub client_id : Option String
  pub scope : Option String
  pub resource : Option String
  pub nonce : Option String
  pub id_token : Option Bool
  pub access_token : Option Bool
  pub audience : Option String
  pub token_policy : T

-- `AuthCode`: what was given, with what the store assigns
pub record AuthCode (T : Type 0) : Type 0 where
  pub code : String
  pub given : NewAuthCode T
  pub expires_at : ℕ

abbrev pub default_code_ttl_ms : ℕ
default_code_ttl_ms = 60000

-- the codes that are stored; the lifetime is `ttl_ms`
pub record AuthCodeStore (T : Type 0) : Type 0 where
  pub codes : Assoc String (AuthCode T)
  pub ttl_ms : ℕ

module _ {T : Type 0} where
  -- the constructor; an absent `ttlMs` is `none`
  abbrev pub code_store : Option ℕ → AuthCodeStore T
  code_store none = record { codes = []; ttl_ms = default_code_ttl_ms }
  code_store (some ttl) = record { codes = []; ttl_ms = ttl }

  unfoldable pub mint : ℕ → String → NewAuthCode T → AuthCodeStore T → String × AuthCodeStore T
  mint now code rec s =
      let row : AuthCode T = record { code = code; given = rec; expires_at = now + s.ttl_ms } in
      (code, record s { codes = put code row s.codes })

  unfoldable pub consume : ℕ → String → AuthCodeStore T → Option (AuthCode T) × AuthCodeStore T
  consume now code s = elim (get code s.codes) [
    | none ↦ (none, s)
    | some row ↦
        let claimed = record s { codes = delete code s.codes } in
        if leb row.expires_at now then (none, claimed) else (some row, claimed)
  ]

  -- the code that a row found under it gives at a time
  abbrev pub redeem : ℕ → Option (AuthCode T) → Option (AuthCode T)
  redeem now none = none
  redeem now (some row) = if leb row.expires_at now then none else some row

  consume_lem :
      (now : ℕ) (code j : String) (s : AuthCodeStore T)
      → ((consume now code s).0 ≡ redeem now (get code s.codes))
        × (get j (consume now code s).1.codes ≡ (if code == j then none else get j s.codes))
        × ((consume now code s).1.ttl_ms ≡ s.ttl_ms)
  unfolding consume
  consume_lem now code j s = elim (Option-cases (get code s.codes)) [
    | inl absent ↦ rw (absent, consume) (refl, ground (arith, same, absent), refl)
    | inr (row, found) ↦ elim (Bool-cases (leb row.expires_at now)) [
      | inl gone ↦ rw (found, gone, consume) (ground arith, get-delete code j s.codes, refl)
      | inr live ↦ rw (found, live, consume) (ground arith, get-delete code j s.codes, refl)
    ]
  ]
    where
      same : (code == j) ≡ true → get j s.codes ≡ get code s.codes
      same e = ap (λ k. get k s.codes) (sym (eq_of_== code j e))

  -- A minted code gives what was recorded with it to the first consumption before its lifetime has
  -- passed, and nothing to one from then on. After a consumption, in time or not, the code gives
  -- nothing more, and the other codes are as they were.
  pub consume-mint :
      (now later last : ℕ) (code j : String) (rec : NewAuthCode T) (s : AuthCodeStore T)
      → let minted = (mint now code rec s).1 in
        let used = (consume later code minted).1 in
        ((consume later code minted).0 ≡ (
          if leb (now + s.ttl_ms) later
          then none
          else some (record { code = code; given = rec; expires_at = now + s.ttl_ms })))
        × ((consume last code used).0 ≡ none)
        × ((code == j) ≡ false → get j used.codes ≡ get j s.codes)
  unfolding mint
  consume-mint now later last code j rec s =
      let minted = (mint now code rec s).1 in
      let first = consume_lem later code j minted in
      let self = consume_lem later code code minted in
      let row : AuthCode T = record { code = code; given = rec; expires_at = now + s.ttl_ms } in
      let found : get code minted.codes ≡ some row =
        ground (arith, get-put code code row s.codes, ==_refl code) in
      let nothing : get code (consume later code minted).1.codes ≡ none =
        self.1 ∙ ground (arith, ==_refl code) in
      (
        first.0 ∙ ap (redeem later) found,
        (consume_lem last code code (consume later code minted).1).0 ∙ ap (redeem last) nothing,
        λ other. first.1 ∙ ground (arith, get-put code j row s.codes, other),
      )
