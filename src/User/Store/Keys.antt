-- ===== src/User/Store/Keys.antt =====
-- `findByHandle` of packages/user/src/store/memory.ts through the id of the row that it finds, which
-- a write to anything but usernames and columns leaves as it is.
use aoothjs.Base.{
  ◌≡◌, refl, sym, ap, ◌∙◌, inl, inr, String, Bool, true, Option, none, some, [], ◌∷◌, arith,
  Bool-cases, Option-cases, if◌then◌else◌, any, or_else, Text, text_eq, nat_eq, string_eq, ◌==◌,
  ==_refl, eq_of_==,
}
use aoothjs.Base.Assoc.{Assoc, get, put}
use aoothjs.Base.Assoc.Laws.{Distinct}
use aoothjs.User.Types.{UserCredentials}
use aoothjs.User.Store.{UserStore, is_text, has_handle, find_by_handle}
use aoothjs.User.Store.Handles.{first_row, is_called, find_by_handle_passes}
use aoothjs.User.Store.Plain.{with_row}

abbrev pub first_key : (UserCredentials → Bool) → Assoc String UserCredentials → Option String
first_key p [] = none
first_key p ((id, u) ∷ rows) = let rest = first_key p rows in if p u then some id else rest

abbrev pub lookup : Assoc String UserCredentials → Option String → Option UserCredentials
lookup rows none = none
lookup rows (some id) = get id rows

-- the id of the row that a handle stands for
abbrev pub handle_key : Text → UserStore → Option String
handle_key h s =
    or_else (first_key (is_called h) s.rows) (first_key (has_handle s.handle_fields h) s.rows)

module _ (p : UserCredentials → Bool) where
  first_key-present :
      (rows : Assoc String UserCredentials) (k : String)
      → first_key p rows ≡ some k
      → ¬ (get k rows ≡ none)
  unfolding get
  first_key-present [] k e gone = ground arith
  first_key-present ((j, u) ∷ rows) k e gone = elim (Bool-cases (p u)) [
    | inl passes ↦
        let both : some j ≡ some k = ground (arith, e, passes) in
        let same : j ≡ k = ground arith in
        let here : (j == k) ≡ true = rw same (==_refl k) in ground (arith, gone, here)
    | inr fails ↦ first_key-present rows k (ground (arith, e, fails)) (ground (arith, gone))
  ]

  first_row_of_key :
      (rows : Assoc String UserCredentials)
      → Distinct rows
      → first_row p rows ≡ lookup rows (first_key p rows)
  unfolding get
  first_row_of_key [] d = refl
  first_row_of_key ((j, u) ∷ rows) d = elim (Bool-cases (p u)) [
    | inl passes ↦ rw passes (ground (arith, ==_refl j))
    | inr fails ↦ elim (Option-cases (first_key p rows)) [
      | inl e ↦ rw (fails, e) (first_row_of_key rows d.1 ∙ ap (lookup rows) e)
      | inr (k, e) ↦ elim (Bool-cases (j == k)) [
        | inl here ↦
            absurd
              (first_key-present rows k e (ap (λ i. get i rows) (sym (eq_of_== j k here)) ∙ d.0))
        | inr there ↦ rw (fails, e, there) (first_row_of_key rows d.1 ∙ ap (lookup rows) e)
      ]
    ]
  ]

  first_key-put :
      (k : String) (v : UserCredentials) (rows : Assoc String UserCredentials) {u : UserCredentials}
      → get k rows ≡ some u
      → p v ≡ p u
      → first_key p (put k v rows) ≡ first_key p rows
  unfolding get put
  first_key-put k v [] g same = absurd (ground arith)
  first_key-put k v ((j, w) ∷ rows) {u} g same = elim (Bool-cases (j == k)) [
    | inl here ↦
        let both : some w ≡ some u = ground (arith, g, here) in
        let equal : w ≡ u = ground arith in
        let tests : p v ≡ p w = same ∙ ap p (sym equal) in rw (here, tests) refl
    | inr there ↦
        rw there (ground (arith, first_key-put k v rows {u = u} (ground (arith, g, there)) same))
  ]

pub find_by_handle_key :
    (h : Text) (s : UserStore)
    → Distinct s.rows
    → find_by_handle h s ≡ lookup s.rows (handle_key h s)
find_by_handle_key h s d =
    let named = first_row_of_key (is_called h) s.rows d in
    let held = first_row_of_key (has_handle s.handle_fields h) s.rows d in
    find_by_handle_passes h s
    ∙ rw (named, held)
        (elim (Option-cases (first_key (is_called h) s.rows)) [
          | inl e ↦ rw e refl
          | inr (k, e) ↦ elim (Option-cases (get k s.rows)) [
            | inl gone ↦ absurd (first_key-present (is_called h) s.rows k e gone)
            | inr (u, g) ↦ rw (e, g) refl
          ]
        ])

-- a row with the username and the columns of the one before is found under the same handles
pub handle_key-with_row :
    (h : Text) (id : String) (s : UserStore) (v : UserCredentials) {u : UserCredentials}
    → get id s.rows ≡ some u
    → v.username ≡ u.username
    → v.columns ≡ u.columns
    → handle_key h (with_row id v s) ≡ handle_key h s
unfolding has_handle
handle_key-with_row h id s v found name columns =
    rw
      (
        first_key-put (is_called h) id v s.rows found (ap (λ n. n == h) name),
        first_key-put (has_handle s.handle_fields h) id v s.rows found
            (ap (λ c. any (λ f. is_text h (get f c)) s.handle_fields) columns),
      )
      refl
