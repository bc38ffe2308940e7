-- ===== src/User/Federated/Tests.antt =====
-- Runs of packages/user/src/store/federated-identity-store-memory.ts, and the theorems at those
-- runs.
use aoothjs.Base.{◌≡◌, refl, String, true, none, some, [], ◌∷◌, text_eq, string_eq}
use aoothjs.Base.Sorting.{insert_by, sort_by}
use aoothjs.Base.Assoc.{get, put, delete, delete_where}
use aoothjs.User.Federated.{
  FederatedProfileSnapshot, FederatedIdentity, NewFederatedIdentity, FederatedStore, composite_key,
  assign_profile, find, sort_rows, list_for_user, new_row, link, unlink, logged_in, touch_login,
  delete_all_for_user,
}

federated : Unit {0}
unfolding get put delete delete_where composite_key assign_profile find insert_by sort_by sort_rows
    list_for_user new_row link unlink logged_in touch_login delete_all_for_user
federated = tt

abbrev no_profile : FederatedProfileSnapshot
no_profile = record { email = none; email_verified = none; display_name = none; avatar_url = none }

abbrev with_email : FederatedProfileSnapshot
with_email = record no_profile { email = some "a@b" }

abbrev google : NewFederatedIdentity
google = record { provider = 103 ∷ []; subject = 49 ∷ []; user_id = "ann"; profile = with_email }

abbrev apple : NewFederatedIdentity
apple = record { provider = 97 ∷ []; subject = 49 ∷ []; user_id = "ann"; profile = no_profile }

abbrev apple_row : FederatedIdentity
apple_row = record {
  id = "i";
  provider = 97 ∷ [];
  subject = 49 ∷ [];
  user_id = "ann";
  profile = no_profile;
  linked_at = 20;
  last_login_at = none;
}

abbrev google_row : FederatedIdentity
google_row = record {
  id = "j";
  provider = 103 ∷ [];
  subject = 49 ∷ [];
  user_id = "ann";
  profile = with_email;
  linked_at = 10;
  last_login_at = none;
}

abbrev links : FederatedStore
links = (97 ∷ 0 ∷ 49 ∷ [], apple_row) ∷ (103 ∷ 0 ∷ 49 ∷ [], google_row) ∷ []

abbrev user_ann : String
user_ann = "ann"

federated_tests :
    (list_for_user "ann" links ≡ google_row ∷ apple_row ∷ [])
    × (link 30 "k" google links ≡ none)
    × (unlink (97 ∷ []) (49 ∷ []) links ≡ (true, (103 ∷ 0 ∷ 49 ∷ [], google_row) ∷ []))
    × (delete_all_for_user "ann" links ≡ (2, []))
unfolding federated
federated_tests = (refl, refl, refl, refl)
