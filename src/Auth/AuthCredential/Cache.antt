-- ===== src/Auth/AuthCredential/Cache.antt =====
-- packages/auth/src/credential/auth-credential.ts: `ValidateCache`, whose states are told apart by
-- their users.
use aoothjs.Base.{
  ℕ, suc, ◌+◌, String, not, Option, none, some, [], ◌∷◌, ltb, leb, if◌then◌else◌, length, filter,
  text_eq, nat_eq, string_eq, ◌==◌,
}
use aoothjs.Base.Assoc.{Assoc, get, put, delete}

pub record CacheEntry (S : Type 0) : Type 0 where
  pub state : S
  pub until : ℕ

pub record ValidateCache (S : Type 0) : Type 0 where
  pub ttl_ms : ℕ
  pub max : ℕ
  pub entries : Assoc String (CacheEntry S)
  pub epoch : ℕ

module _ {S : Type 0} where
  unfoldable pub cache_get : ℕ → String → ValidateCache S → Option S × ValidateCache S
  unfolding get delete
  cache_get now token c = elim (get token c.entries) [
    | none ↦ (none, c)
    | some entry ↦
        if ltb now entry.until
        then (some entry.state, c)
        else (none, record c { entries = delete token c.entries })
  ]

  -- the first key goes, if there is one
  abbrev pub drop_oldest : Assoc String (CacheEntry S) → Assoc String (CacheEntry S)
  drop_oldest [] = []
  drop_oldest ((k, entry) ∷ entries) = delete k ((k, entry) ∷ entries)

  unfoldable pub cache_set : ℕ → String → S → ValidateCache S → ValidateCache S
  unfolding delete put
  cache_set now token state c =
      let others = delete token c.entries in
      let room = if leb c.max (length others) then drop_oldest others else others in
      record c { entries = put token (record { state = state; until = now + c.ttl_ms }) room }

  unfoldable pub cache_delete : String → ValidateCache S → ValidateCache S
  unfolding delete
  cache_delete token c = record c { epoch = suc c.epoch; entries = delete token c.entries }

  unfoldable pub cache_delete_user : (S → String) → String → ValidateCache S → ValidateCache S
  cache_delete_user user_of user c = record c {
    epoch = suc c.epoch;
    entries = filter (λ x. not (user_of x.1.state == user)) c.entries;
  }
