-- ===== src/User/Federated/Sorted.antt =====
-- The list of a user's links in packages/user/src/store/federated-identity-store-memory.ts.
use aoothjs.Base.{◌≡◌, ◌∙◌, String, Bool, ◌&&◌, filter, ◌==◌, string_eq}
use aoothjs.User.Federated.{FederatedIdentity, FederatedStore, values, sort_rows, list_for_user}
use aoothjs.Base.Sorting.{passing, passing-filter, IsSortedBy, sort_by-IsSortedBy, passing-sort_by}

-- A user's links are listed in the order of their linking, and are those of the store: for every
-- test, as many rows of the list pass it as rows of the store that are the user's and pass it.
pub list_for_user-IsSorted :
    (user_id : String) (q : FederatedIdentity → Bool) (s : FederatedStore)
    → IsSortedBy (λ row. row.linked_at) (list_for_user user_id s)
      × (passing q (list_for_user user_id s)
          ≡ passing (λ row. (row.user_id == user_id) && q row) (values s))
unfolding list_for_user sort_rows
list_for_user-IsSorted user_id q s = (
  sort_by-IsSortedBy (λ row. row.linked_at) (filter (λ row. row.user_id == user_id) (values s)),
  passing-sort_by (λ row. row.linked_at) q (filter (λ row. row.user_id == user_id) (values s))
      ∙ passing-filter q (λ row. row.user_id == user_id) (values s),
)
