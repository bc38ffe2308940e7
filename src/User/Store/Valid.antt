-- ===== src/User/Store/Valid.antt =====
-- The invariant of packages/user/src/store/memory.ts: every row under its id, and no username or
-- handle column shared by two rows; and what keeps it.
use aoothjs.Base.{
  ℕ, ◌≡◌, refl, sym, ap, ◌∙◌, ◌⊎◌, inl, inr, String, true, false, not, ◌&&◌, Option, none, some,
  List, [], ◌∷◌, arith, Bool-cases, Option-cases, any, Text, text_eq, nat_eq, string_eq, ◌==◌,
  ==_refl, eq_of_==,
}
use aoothjs.Base.Assoc.{Assoc, get, put}
use aoothjs.Base.Assoc.Laws.{Distinct, Distinct-put, Distinct-delete, get-delete}
use aoothjs.Base.Assoc.Entries.{
  any_member, any_entry, UniqueBy, UniqueBy-put, UniqueBy-delete, get-put_here, get-put_there,
}
use aoothjs.User.Types.{Column, text, UserCredentials, UserPatch, CounterPath, UserStoreUpdate}
use aoothjs.User.Patch.{merge_columns, deep_merge, increment_at_path, merge_optional, merge_field}
use aoothjs.User.Store.{
  UserStore, is_text, is_excluded, column_collides, handles_collide, create, with_id, is_stale,
  merge_set, set_collides, increment_all, updated, update, delete_user,
}

abbrev pub SameName : UserCredentials → UserCredentials → Type 0
SameName u v = u.username ≡ v.username

-- some handle column holds the same text in both
abbrev pub SharesHandle : List String → UserCredentials → UserCredentials → Type 0
SharesHandle fields u v =
    (f : String) × (h : Text) × (any (λ g. g == f) fields ≡ true)
    × (get f u.columns ≡ some (text h))
    × (get f v.columns ≡ some (text h))

pub record IsValid (s : UserStore) : Type 0 where
  pub distinct : Distinct s.rows
  pub keyed : (k : String) (u : UserCredentials) → get k s.rows ≡ some u → u.id ≡ k
  pub names : UniqueBy SameName s.rows
  pub handles : UniqueBy (SharesHandle s.handle_fields) s.rows

-- a row without a handle that another row than the one excepted has
pub no_shared :
    (fields : List String) (columns : Assoc String Column) (except : Option String)
    (rows : Assoc String UserCredentials) (j : String) (u : UserCredentials) (f : String) (h : Text)
    → handles_collide fields columns except rows ≡ false
    → get j rows ≡ some u
    → is_excluded except j ≡ false
    → any (λ g. g == f) fields ≡ true
    → get f columns ≡ some (text h)
    → ¬ (get f u.columns ≡ some (text h))
unfolding handles_collide column_collides
no_shared fields columns except rows j u f h free found other listed own shared =
    let column : column_collides f (get f columns) except rows ≡ false =
      any_member (λ field. column_collides field (get field columns) except rows) f fields listed
        free in
    let entry : (not (is_excluded except j) && is_text h (get f u.columns)) ≡ false =
      any_entry (λ entry. not (is_excluded except entry.0) && is_text h (get f entry.1.columns)) j
        rows (ap (λ o. column_collides f o except rows) (sym own) ∙ column) found in
    let held : is_text h (get f u.columns) ≡ true = rw shared (==_refl h) in
    ground (arith, entry, held, other)

-- what a map has after a merge: the value merged in, if there is one
pub get-merge_columns :
    (f : String) (target source : Assoc String Column)
    → Distinct source
    → get f (merge_columns target source) ≡ merge_optional (get f target) (get f source)
unfolding merge_columns get
get-merge_columns f target [] d = refl
get-merge_columns f target ((k, v) ∷ source) (absent, d) =
    let merged : get f (merge_columns (put k v target) source)
        ≡ merge_optional (get f (put k v target)) (get f source) =
      get-merge_columns f (put k v target) source d in
    elim (Bool-cases (k == f)) [
      | inl here ↦
          let gone : get f source ≡ none = rw (← eq_of_== k f here) absent in
          merged ∙ rw (gone, here) (get-put_here k f v target here)
      | inr there ↦
          merged
          ∙ rw (there)
              (ap (λ o. merge_optional o (get f source)) (get-put_there k f v target there))
    ]

increment_all-columns :
    (u : UserCredentials) (inc : List (CounterPath × ℕ))
    → ((increment_all u inc).columns ≡ u.columns)
      × ((increment_all u inc).username ≡ u.username)
      × ((increment_all u inc).id ≡ u.id)
unfolding increment_all increment_at_path
increment_all-columns u [] = (refl, refl, refl)
increment_all-columns u ((path, n) ∷ inc) = increment_all-columns (increment_at_path u path n) inc

-- the names that an update may change are those of the handle columns
abbrev pub KeepsName : Option UserPatch → Type 0
KeepsName none = Unit
KeepsName (some patch) = (patch.username ≡ none) × Distinct patch.columns

kept_by :
    (set : Option UserPatch) {patch : UserPatch}
    → set ≡ some patch
    → KeepsName set
    → (patch.username ≡ none) × Distinct patch.columns
kept_by none e keeps = absurd (ground arith)
kept_by (some p) {patch} e keeps = let same : p ≡ patch = ground arith in rw (← same) keeps

merge_set-names :
    (u : UserCredentials) (change : UserStoreUpdate)
    → KeepsName change.set
    → ((merge_set u change.set).username ≡ u.username) × ((merge_set u change.set).id ≡ u.id)
unfolding deep_merge
merge_set-names u change keeps = elim (Option-cases change.set) [
  | inl nothing ↦ rw nothing (refl, refl)
  | inr (patch, e) ↦
      let kept : (patch.username ≡ none) × Distinct patch.columns = kept_by change.set e keeps in
      rw e (ap (merge_field u.username) kept.0, refl)
]

updated-names :
    (u : UserCredentials) (change : UserStoreUpdate)
    → KeepsName change.set
    → ((updated change u).username ≡ u.username) × ((updated change u).id ≡ u.id)
unfolding updated
updated-names u change keeps =
    let all = increment_all-columns (merge_set u change.set) change.inc in
    let merged = merge_set-names u change keeps in (all.1 ∙ merged.0, all.2 ∙ merged.1)

-- a text in a handle column after an update was there before, or is the patch's
updated_column :
    (u : UserCredentials) (change : UserStoreUpdate) (f : String) (h : Text)
    → KeepsName change.set
    → get f (updated change u).columns ≡ some (text h)
    → (get f u.columns ≡ some (text h))
      ⊎ ((patch : UserPatch) × (change.set ≡ some patch) × (get f patch.columns ≡ some (text h)))
unfolding updated deep_merge
updated_column u change f h keeps g =
    let all = increment_all-columns (merge_set u change.set) change.inc in
    let merged : get f (merge_set u change.set).columns ≡ some (text h) =
      ap (get f) (sym all.0) ∙ g in
    elim (Option-cases change.set) [
      | inl nothing ↦ inl (ap (λ o. get f (merge_set u o).columns) (sym nothing) ∙ merged)
      | inr (patch, e) ↦
          let kept : (patch.username ≡ none) × Distinct patch.columns =
            kept_by change.set e keeps in
          let value : merge_optional (get f u.columns) (get f patch.columns) ≡ some (text h) =
            sym (get-merge_columns f u.columns patch.columns kept.1)
            ∙ ap (λ o. get f (merge_set u o).columns) (sym e)
            ∙ merged in
          elim (Option-cases (get f patch.columns)) [
            | inl absent ↦ inl (ap (merge_optional (get f u.columns)) (sym absent) ∙ value)
            | inr (c, held) ↦
                inr (patch, e, held ∙ ap (merge_optional (get f u.columns)) (sym held) ∙ value)
          ]
    ]

module _ {s : UserStore} (valid : IsValid s) where
  -- the row put in has the id of its key and shares nothing with the rows under other keys
  put-IsValid :
      (id : String) (v : UserCredentials)
      → v.id ≡ id
      → ((j : String) (u : UserCredentials)
          → (id == j) ≡ false
          → get j s.rows ≡ some u
          → (¬ SameName u v) × (¬ SharesHandle s.handle_fields u v))
      → IsValid (record s { rows = put id v s.rows })
  put-IsValid id v own apart = record {
    distinct = Distinct-put id v s.rows valid.distinct;
    keyed = λ k u g. elim (Bool-cases (id == k)) [
      | inl here ↦
          let both : some v ≡ some u = sym (get-put_here id k v s.rows here) ∙ g in
          let same : v ≡ u = ground arith in ap (λ r. r.id) (sym same) ∙ own ∙ eq_of_== id k here
      | inr there ↦ valid.keyed k u (sym (get-put_there id k v s.rows there) ∙ g)
    ];
    names =
        UniqueBy-put SameName id v s.rows valid.names
          λ j u other g. ((apart j u other g).0, λ e. (apart j u other g).0 (sym e));
    handles = UniqueBy-put (SharesHandle s.handle_fields) id v s.rows valid.handles λ j u other g.
        ((apart j u other g).1, λ (f, h, listed, a, b). (apart j u other g).1 (f, h, listed, b, a));
  }

  pub delete_user-IsValid :
      (id : String) (expected : Option ℕ) → IsValid (delete_user id expected s).1
  unfolding delete_user
  delete_user-IsValid id expected = elim (Option-cases (get id s.rows)) [
    | inl absent ↦ rw (absent, delete_user) valid
    | inr (user, found) ↦ elim (Bool-cases (is_stale expected user)) [
      | inl stale ↦ rw (found, stale, delete_user) valid
      | inr fresh ↦
          rw (found, fresh, delete_user)
            (record {
              distinct = Distinct-delete id s.rows valid.distinct;
              keyed = λ k u g. valid.keyed k u (ground (arith, get-delete id k s.rows, g));
              names = UniqueBy-delete SameName id s.rows valid.names;
              handles = UniqueBy-delete (SharesHandle s.handle_fields) id s.rows valid.handles;
            })
    ]
  ]

  pub create-IsValid : (minted : String) (user : UserCredentials) → IsValid (create minted user s).1
  unfolding create
  create-IsValid minted user =
      let cloned = with_id minted user in
      elim (Bool-cases (any (λ entry. entry.1.username == cloned.username) s.rows)) [
        | inl named ↦ rw (named, create) valid
        | inr unnamed ↦
            elim (Bool-cases (handles_collide s.handle_fields cloned.columns none s.rows)) [
              | inl taken ↦ rw (unnamed, taken, create) valid
              | inr free ↦
                  rw (unnamed, free, create)
                    (put-IsValid cloned.id (record cloned { version = some 0 }) refl
                      λ j u other g. (
                        λ same.
                            let differs : (u.username == cloned.username) ≡ false =
                              any_entry (λ entry. entry.1.username == cloned.username) j s.rows
                                unnamed g in
                            let equal : (u.username == cloned.username) ≡ true =
                              rw same (==_refl cloned.username) in
                            ground arith,
                        λ (f, h, listed, a, b).
                            no_shared s.handle_fields cloned.columns none s.rows j u f h free g refl
                              listed b a,
                      ))
            ]
      ]

  pub update-IsValid :
      (id : String) (change : UserStoreUpdate)
      → KeepsName change.set
      → IsValid (update id change s).1
  unfolding update
  update-IsValid id change keeps = elim (Option-cases (get id s.rows)) [
    | inl absent ↦ rw (absent, update) valid
    | inr (user, found) ↦ elim (Bool-cases (is_stale change.expected_version user)) [
      | inl stale ↦ rw (found, stale, update) valid
      | inr fresh ↦ elim (Bool-cases (set_collides s id change.set)) [
        | inl taken ↦ rw (found, fresh, taken, update) valid
        | inr free ↦
            let names = updated-names user change keeps in
            rw (found, fresh, free, update)
              (put-IsValid id (updated change user) (names.1 ∙ valid.keyed id user found)
                λ j u other g. (
                  λ same.
                      let same_id : j ≡ id = valid.names j id u user g found (same ∙ names.0) in
                      let equal : (id == j) ≡ true = rw same_id (==_refl id) in ground arith,
                  λ (f, h, listed, a, b). elim (updated_column user change f h keeps b) [
                    | inl before ↦
                        let same_id : j ≡ id =
                          valid.handles j id u user g found (f, h, listed, a, before) in
                        let equal : (id == j) ≡ true = rw same_id (==_refl id) in ground arith
                    | inr (patch, e, held) ↦
                        let unshared : handles_collide s.handle_fields patch.columns (some id)
                              s.rows
                            ≡ false =
                          ap (set_collides s id) (sym e) ∙ free in
                        no_shared s.handle_fields patch.columns (some id) s.rows j u f h unshared g
                          other listed held a
                  ],
                ))
      ]
    ]
  ]
