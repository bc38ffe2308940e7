-- ===== src/User/Federated/Links.antt =====
-- What the links of packages/user/src/store/federated-identity-store-memory.ts keep.
use aoothjs.Base.{
  ℕ, ◌+◌, ◌≡◌, refl, ap, ◌∙◌, String, Bool, true, false, not, Option, none, some, arith, nat_beq,
  length, all, Text, text_eq, ◌==◌, string_eq, ==_refl, if◌then◌else◌,
}
use aoothjs.Base.Assoc.{get, put}
use aoothjs.Base.Assoc.Laws.{get-put, Distinct}
use aoothjs.Base.Assoc.Deleted.{
  unless, get-delete_where, Distinct-delete_where, length-delete_where,
}
use aoothjs.User.Federated.{
  FederatedProfileSnapshot, FederatedIdentity, FederatedStore, composite_key, assign,
  assign_profile, find, logged_in, touch_login, delete_all_for_user,
}

-- a text without a null character
abbrev pub has_no_null : Text → Bool
has_no_null t = all (λ c. not (nat_beq c 0)) t

logged_in-touch_login :
    (now : ℕ) (provider subject : Text) (profile : Option FederatedProfileSnapshot)
    (row : FederatedIdentity) (s : FederatedStore)
    → get (composite_key provider subject) s ≡ some row
    → touch_login now provider subject profile s
      ≡ put (composite_key provider subject) (logged_in now profile row) s
unfolding touch_login
logged_in-touch_login now provider subject profile row s found = rw (found, touch_login)

abbrev pub is_some : {A : Type 0} → Option A → Bool
is_some none = false
is_some (some _) = true

-- A login on a linked account keeps whose it is and when it was linked, stamps the time, takes the
-- email of the profile if it has one and keeps the old one otherwise, and does not lose the
-- picture.
pub touch_login-keeps :
    (now : ℕ) (provider subject : Text) (profile : FederatedProfileSnapshot)
    (row : FederatedIdentity) (s : FederatedStore)
    → find provider subject s ≡ some row
    → (after : FederatedIdentity) × (find provider subject
          (touch_login now provider subject (some profile) s)
        ≡ some after)
      × (after.user_id ≡ row.user_id)
      × (after.linked_at ≡ row.linked_at)
      × (after.last_login_at ≡ some now)
      × (after.profile.email ≡ (if is_some profile.email then profile.email else row.profile.email))
      × (is_some row.profile.avatar_url ≡ true → is_some after.profile.avatar_url ≡ true)
unfolding find logged_in assign_profile
touch_login-keeps now provider subject profile row s found =
    let key = composite_key provider subject in
    let after = logged_in now (some profile) row in
    (
      after,
      ap (get key) (logged_in-touch_login now provider subject (some profile) row s found)
          ∙ ground (arith, get-put key key after s, ==_refl key),
      refl,
      refl,
      refl,
      assigned row.profile.email profile.email,
      kept row.profile.avatar_url profile.avatar_url,
    )
  where
    assigned :
        {A : Type 0} (old new : Option A) → assign old new ≡ (if is_some new then new else old)
    assigned old none = refl
    assigned old (some x) = refl

    kept : {A : Type 0} (old new : Option A) → is_some old ≡ true → is_some (assign old new) ≡ true
    kept old none h = h
    kept old (some x) h = refl

-- In a store whose keys are distinct, removing all of a user's links removes exactly those, and
-- answers how many.
pub delete_all_for_user_lem :
    (user_id : String) (provider subject : Text) (s : FederatedStore)
    → Distinct s
    → (find provider subject (delete_all_for_user user_id s).1
        ≡ unless (λ row. row.user_id == user_id) (find provider subject s))
      × ((delete_all_for_user user_id s).0 + length (delete_all_for_user user_id s).1 ≡ length s)
      × Distinct (delete_all_for_user user_id s).1
unfolding find delete_all_for_user
delete_all_for_user_lem user_id provider subject s d = (
  get-delete_where (λ row. row.user_id == user_id) (composite_key provider subject) s d,
  length-delete_where (λ row. row.user_id == user_id) s,
  Distinct-delete_where (λ row. row.user_id == user_id) s d,
)
