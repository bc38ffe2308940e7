-- ===== src/Auth/Credentials/Index.antt =====
-- The index by user of packages/auth/src/stores/memory.ts: whether a token is in it after each of
-- its operations.
use aoothjs.Base.{
  ◌≡◌, refl, ap, ◌∙◌, String, Bool, true, false, not, ◌&&◌, ◌||◌, Option, none, some, List, [], ◌∷◌,
  arith, any-append, ◌==◌, string_eq, eq_of_==, Option-cases, inl, inr, if◌then◌else◌,
}
use aoothjs.Base.Assoc.{Assoc, get, put, delete}
use aoothjs.Base.Assoc.Laws.{get-put, get-delete}
use aoothjs.Auth.Credentials.{
  CredentialState, contains, set_add, set_delete, set_delete_all, index_add, index_remove,
  delete_tokens,
}

-- the set that the index has for a user
abbrev pub tokens_of : Option (List String) → List String
tokens_of none = []
tokens_of (some tokens) = tokens

-- the index has the token for the user
abbrev pub indexed : String → String → Assoc String (List String) → Bool
indexed user token index = contains token (tokens_of (get user index))

pub contains-set_add :
    (token t : String) (tokens : List String)
    → contains t (set_add token tokens) ≡ ((token == t) || contains t tokens)
unfolding set_add
contains-set_add token t tokens =
    ground
      (arith, any-append (λ x. x == t) tokens (token ∷ []), present, string_eq.equal_iff token t)
  where
    present : (token == t) ≡ true → contains token tokens ≡ contains t tokens
    present h = ap (λ x. contains x tokens) (eq_of_== token t h)

pub contains-set_delete :
    (token t : String) (tokens : List String)
    → contains t (set_delete token tokens) ≡ (not (token == t) && contains t tokens)
unfolding set_delete
contains-set_delete token t [] = ground arith
contains-set_delete token t (x ∷ xs) = ground (
  arith,
  contains-set_delete token t xs,
  string_eq.equal_iff x token,
  string_eq.equal_iff token t,
  string_eq.equal_iff x t,
)

pub contains-set_delete_all :
    (ts : List String) (t : String) (tokens : List String)
    → contains t (set_delete_all ts tokens) ≡ (not (contains t ts) && contains t tokens)
unfolding set_delete_all
contains-set_delete_all [] t tokens = ground arith
contains-set_delete_all (x ∷ xs) t tokens =
    ground
      (arith, contains-set_delete_all xs t (set_delete x tokens), contains-set_delete x t tokens)

pub indexed-put :
    (user u t : String) (tokens : List String) (index : Assoc String (List String))
    → indexed u t (put user tokens index)
      ≡ (if user == u then contains t tokens else indexed u t index)
indexed-put user u t tokens index = ground (arith, get-put user u tokens index)

pub indexed-delete :
    (user u t : String) (index : Assoc String (List String))
    → indexed u t (delete user index) ≡ (if user == u then false else indexed u t index)
indexed-delete user u t index = ground (arith, get-delete user u index)

-- the tokens found for a user are those that the index has for it
indexed-found :
    (user u t : String) (tokens : List String) (index : Assoc String (List String))
    → tokens_of (get user index) ≡ tokens
    → (user == u) ≡ true
    → indexed u t index ≡ contains t tokens
indexed-found user u t tokens index found same = rw (← eq_of_== user u same) (ap (contains t) found)

pub indexed-index_add :
    (user token u t : String) (index : Assoc String (List String))
    → indexed u t (index_add user token index)
      ≡ (((user == u) && (token == t)) || indexed u t index)
unfolding index_add
indexed-index_add user token u t index = elim (Option-cases (get user index)) [
  | inl absent ↦
      rw (absent, index_add)
        (indexed-put user u t (token ∷ []) index
          ∙ ground (arith, indexed-found user u t [] index (ap tokens_of absent)))
  | inr (tokens, found) ↦
      rw (found, index_add)
        (indexed-put user u t (set_add token tokens) index
          ∙ ground (
            arith,
            indexed-found user u t tokens index (ap tokens_of found),
            contains-set_add token t tokens,
          ))
]

-- a set that has become empty leaves the index
pub indexed-shrunk :
    (user u t : String) (tokens : List String) (index : Assoc String (List String))
    → indexed u t (elim tokens [ [] ↦ delete user index | x ∷ xs ↦ put user (x ∷ xs) index ])
      ≡ (if user == u then contains t tokens else indexed u t index)
indexed-shrunk user u t [] index = indexed-delete user u t index
indexed-shrunk user u t (x ∷ xs) index = indexed-put user u t (x ∷ xs) index

pub indexed-index_remove :
    (user token u t : String) (index : Assoc String (List String))
    → indexed u t (index_remove user token index)
      ≡ (not ((user == u) && (token == t)) && indexed u t index)
unfolding index_remove
indexed-index_remove user token u t index = elim (Option-cases (get user index)) [
  | inl absent ↦
      rw (absent, index_remove)
        (ground (arith, indexed-found user u t [] index (ap tokens_of absent)))
  | inr (tokens, found) ↦
      rw (found, index_remove)
        (indexed-shrunk user u t (set_delete token tokens) index
          ∙ ground (
            arith,
            indexed-found user u t tokens index (ap tokens_of found),
            contains-set_delete token t tokens,
          ))
]

module _ {P : Type 0} where
  pub get-delete_tokens :
      (ts : List String) (t : String) (states : Assoc String (CredentialState P))
      → get t (delete_tokens ts states).1 ≡ (if contains t ts then none else get t states)
  unfolding delete_tokens
  get-delete_tokens [] t states = refl
  get-delete_tokens (x ∷ xs) t states =
      ground (arith, get-delete_tokens xs t (delete x states), get-delete x t states)
