-- ===== src/User/Store/Handles.antt =====
-- What `findByHandle` and `findByIdentifier` of packages/user/src/store/memory.ts find.
use mathlib.Core.Path.{subst}
use aoothjs.Base.{
  ◌≡◌, refl, sym, ap, ◌∙◌, ◌⊎◌, inl, inr, String, Bool, true, false, Option, none, some, List, [],
  ◌∷◌, arith, Bool-cases, Option-cases, if◌then◌else◌, or_else, Text, text_eq, nat_eq, string_eq,
  ◌==◌, ==_refl, eq_of_==,
}
use aoothjs.Base.Assoc.{Assoc, get}
use aoothjs.Base.Assoc.Laws.{Distinct}
use aoothjs.User.Types.{UserCredentials}
use aoothjs.User.Store.{UserStore, has_handle, find_loop, find_by_handle}
use aoothjs.User.Store.Valid.{IsValid}

-- the first row that passes the test
abbrev pub first_row :
    (UserCredentials → Bool) → Assoc String UserCredentials → Option UserCredentials
first_row p [] = none
first_row p ((id, u) ∷ rows) = let rest = first_row p rows in if p u then some u else rest

abbrev pub is_called : Text → UserCredentials → Bool
is_called handle u = u.username == handle

-- the one pass gives what two passes would, first by the username, then by the handle columns
find_loop_passes :
    (fields : List String) (h : Text) (by : Option UserCredentials)
    (rows : Assoc String UserCredentials)
    → find_loop fields h by rows
      ≡ or_else (first_row (is_called h) rows) (or_else by (first_row (has_handle fields h) rows))
unfolding find_loop
find_loop_passes fields h none [] = refl
find_loop_passes fields h (some b) [] = refl
find_loop_passes fields h none ((id, u) ∷ rows) =
    ground (arith, find_loop_passes fields h none rows, find_loop_passes fields h (some u) rows)
find_loop_passes fields h (some b) ((id, u) ∷ rows) =
    ground (arith, find_loop_passes fields h (some b) rows)

pub find_by_handle_passes :
    (h : Text) (s : UserStore)
    → find_by_handle h s
      ≡ or_else (first_row (is_called h) s.rows) (first_row (has_handle s.handle_fields h) s.rows)
unfolding find_by_handle
find_by_handle_passes h s = find_loop_passes s.handle_fields h none s.rows

module _ (p : UserCredentials → Bool) where
  first_row-none :
      (k : String) (rows : Assoc String UserCredentials) (u : UserCredentials)
      → first_row p rows ≡ none
      → get k rows ≡ some u
      → p u ≡ false
  unfolding get
  first_row-none k [] u n g = absurd (ground arith)
  first_row-none k ((j, w) ∷ rows) u n g = elim (Bool-cases (p w)) [
    | inl passes ↦ absurd (ground (arith, n, passes))
    | inr fails ↦ elim (Bool-cases (j == k)) [
      | inl here ↦
          let both : some w ≡ some u = ground (arith, g, here) in
          let same : w ≡ u = ground arith in ap p (sym same) ∙ fails
      | inr there ↦ first_row-none k rows u (ground (arith, n, fails)) (ground (arith, g, there))
    ]
  ]

  -- a row that is found passes the test and stands in the map
  first_row-some :
      (rows : Assoc String UserCredentials) (u : UserCredentials)
      → Distinct rows
      → first_row p rows ≡ some u
      → (k : String) × (p u ≡ true) × (get k rows ≡ some u)
  unfolding get
  first_row-some [] u d e = absurd (ground arith)
  first_row-some ((j, w) ∷ rows) u d e = elim (Bool-cases (p w)) [
    | inl passes ↦
        let both : some w ≡ some u = ground (arith, e, passes) in
        let same : w ≡ u = ground arith in
        (j, ap p (sym same) ∙ passes, ground (arith, ==_refl j, same))
    | inr fails ↦
        let (k, held, g) = first_row-some rows u d.1 (ground (arith, e, fails)) in
        (
          k,
          held,
          elim (Bool-cases (j == k)) [
            | inl here ↦
                let gone : get k rows ≡ none = rw (← eq_of_== j k here) d.0 in absurd (ground arith)
            | inr there ↦ ground (arith, g, there)
          ],
        )
  ]

-- what may be found for a handle
abbrev pub IsResolved : Text → UserStore → Option UserCredentials → Type 0
IsResolved h s none =
    (k : String) (u : UserCredentials)
    → get k s.rows ≡ some u
    → (is_called h u ≡ false) × (has_handle s.handle_fields h u ≡ false)
IsResolved h s (some u) =
    (get u.id s.rows ≡ some u)
    × ((is_called h u ≡ true)
        ⊎ ((has_handle s.handle_fields h u ≡ true)
            × ((k : String) (v : UserCredentials) → get k s.rows ≡ some v → is_called h v ≡ false)))

stored :
    {s : UserStore}
    → IsValid s
    → (k : String) (u : UserCredentials) → get k s.rows ≡ some u
    → get u.id s.rows ≡ some u
stored {s} valid k u g = ap (λ i. get i s.rows) (valid.keyed k u g) ∙ g

-- On a valid store, a handle is resolved to a stored row with that username, or, if no row has it
-- as a username, to a stored row that has it in a handle column; it is resolved to nothing only
-- when no row has it as either.
pub find_by_handle-IsResolved :
    (h : Text) (s : UserStore) → IsValid s → IsResolved h s (find_by_handle h s)
find_by_handle-IsResolved h s valid = elim (Option-cases (first_row (is_called h) s.rows)) [
  | inr (u, e) ↦
      let (k, named, g) = first_row-some (is_called h) s.rows u valid.distinct e in
      rw (find_by_handle_passes h s, e) (stored valid k u g, inl named)
  | inl e ↦ elim (Option-cases (first_row (has_handle s.handle_fields h) s.rows)) [
    | inr (u, f) ↦
        let (k, held, g) =
          first_row-some (has_handle s.handle_fields h) s.rows u valid.distinct f in
        rw (find_by_handle_passes h s, e, f)
          (stored valid k u g, inr (held, λ j v g'. first_row-none (is_called h) j s.rows v e g'))
    | inl f ↦
        rw (find_by_handle_passes h s, e, f)
          λ k u g. (
            first_row-none (is_called h) k s.rows u e g,
            first_row-none (has_handle s.handle_fields h) k s.rows u f g,
          )
  ]
]

-- what is found stands in the store
pub found_stored :
    (h : Text) (s : UserStore) {u : UserCredentials}
    → IsValid s
    → find_by_handle h s ≡ some u
    → get u.id s.rows ≡ some u
found_stored h s {u} valid e = (subst (IsResolved h s) e (find_by_handle-IsResolved h s valid)).0
