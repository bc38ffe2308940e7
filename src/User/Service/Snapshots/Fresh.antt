-- ===== src/User/Service/Snapshots/Fresh.antt =====
-- When `getUserSnapshot` of packages/user/src/user-service.ts gives what is stored.
use aoothjs.Base.{
  ℕ, suc, ◌≤◌, ◌≡◌, refl, sym, ap, ◌∙◌, inl, inr, String, Option, none, some, List, [], ◌∷◌, arith,
  nat_beq_iff, Bool-cases, Option-cases, any, text_eq, nat_eq, string_eq, ◌==◌, eq_of_==,
}
use aoothjs.Base.Assoc.{get}
use aoothjs.Base.Assoc.Entries.{get-put_here, get-put_there}
use aoothjs.User.Types.{UserCredentials, not_found, Result, ok, err}
use aoothjs.User.Store.{UserStore, find_by_id}
use aoothjs.User.Service.{or_raise_inv, get_user}
use aoothjs.User.Service.Snapshots.{
  Snapshot, Observed, on_user_write, unsubscribe, start_write, write, end_write, is_current,
  current_hit, keep_read, get_user_snapshot,
}

pub data Event : Type 0 where
  started ended : Event
  stored : (UserStore → UserStore) → Event
  read : String → Event
  subscribed left : ℕ → Event

abbrev pub react : Event → Observed → Observed
react started o = start_write o
react ended o = (end_write none o).1
react (stored f) o = write f o
react (read id) o = (get_user_snapshot id o).1
react (subscribed l) o = on_user_write l o
react (left l) o = unsubscribe l o

abbrev pub react_all : List Event → Observed → Observed
react_all [] o = o
react_all (e ∷ es) o = react_all es (react e o)

-- how many writes are under way after the events; one that is not has no effect and no end
pub data Flights : ℕ → List Event → ℕ → Type 0 where
  nothing : {n : ℕ} → Flights n [] n
  start : {n m : ℕ} {es : List Event} → Flights (suc n) es m → Flights n (started ∷ es) m
  store :
      {n m : ℕ} {f : UserStore → UserStore} {es : List Event}
      → Flights (suc n) es m
      → Flights (suc n) (stored f ∷ es) m
  end : {n m : ℕ} {es : List Event} → Flights n es m → Flights (suc n) (ended ∷ es) m
  look : {n m : ℕ} {id : String} {es : List Event} → Flights n es m → Flights n (read id ∷ es) m
  subscribe : {n m l : ℕ} {es : List Event} → Flights n es m → Flights n (subscribed l ∷ es) m
  leave : {n m l : ℕ} {es : List Event} → Flights n es m → Flights n (left l ∷ es) m

-- no snapshot is of a later epoch; without a write under way, one of the current epoch is stored
pub record IsFresh (n : ℕ) (o : Observed) : Type 0 where
  pub past :
      (id : String) (hit : Snapshot) → get id o.snapshots ≡ some hit → hit.epoch ≤ o.write_epoch
  pub stored :
      (id : String) (hit : Snapshot)
      → n ≡ 0
      → get id o.snapshots ≡ some hit
      → hit.epoch ≡ o.write_epoch
      → get id o.store.rows ≡ some hit.user

-- a new epoch has no snapshots yet
later-IsFresh :
    (n n' : ℕ) (o : Observed)
    → IsFresh n o
    → IsFresh n' (record o { write_epoch = suc o.write_epoch })
later-IsFresh n n' o fresh = record {
  past = λ id hit g. omega (arith, fresh.past id hit g);
  stored = λ id hit none_now g e. absurd (omega (arith, fresh.past id hit g, e));
}

read_row :
    (id : String) (o : Observed) {u : UserCredentials} {s : UserStore}
    → get_user id o.store ≡ (ok u, s)
    → get id o.store.rows ≡ some u
unfolding get_user find_by_id
read_row id o e = (or_raise_inv not_found (get id o.store.rows) o.store e).0

kept-IsFresh :
    (n : ℕ) (id : String) (o : Observed) (u : UserCredentials)
    → IsFresh n o
    → get id o.store.rows ≡ some u
    → IsFresh n (keep_read id (ok u) o)
kept-IsFresh n id o u fresh found =
    let hit : Snapshot = record { epoch = o.write_epoch; user = u } in
    record {
      past = λ k h g. elim (Bool-cases (id == k)) [
        | inl here ↦
            let both : some hit ≡ some h = sym (get-put_here id k hit o.snapshots here) ∙ g in
            let same : hit ≡ h = ground arith in omega (arith, ap (λ x. x.epoch) same)
        | inr there ↦ fresh.past k h (sym (get-put_there id k hit o.snapshots there) ∙ g)
      ];
      stored = λ k h quiet g e. elim (Bool-cases (id == k)) [
        | inl here ↦
            let both : some hit ≡ some h = sym (get-put_here id k hit o.snapshots here) ∙ g in
            let same : hit ≡ h = ground arith in
            ap (λ i. get i o.store.rows) (sym (eq_of_== id k here))
            ∙ found
            ∙ ap (λ x. some x.user) same
        | inr there ↦ fresh.stored k h quiet (sym (get-put_there id k hit o.snapshots there) ∙ g) e
      ];
    }

hit_user :
    (epoch : ℕ) (o : Option Snapshot) {u : UserCredentials}
    → current_hit epoch o ≡ some u
    → (hit : Snapshot) × (o ≡ some hit) × (hit.epoch ≡ epoch) × (hit.user ≡ u)
hit_user epoch none e = absurd (ground (arith, e))
hit_user epoch (some hit) {u} e = elim (Bool-cases (is_current epoch hit)) [
  | inr late ↦ absurd (ground (arith, e, late))
  | inl now ↦
      let both : some hit.user ≡ some u = simp now at e in
      (hit, refl, (nat_beq_iff hit.epoch epoch).0 now, ground (arith, both))
]

row_read :
    (id : String) (o : Observed) {u : UserCredentials}
    → get id o.store.rows ≡ some u
    → (get_user id o.store).0 ≡ ok u
unfolding get_user find_by_id
row_read id o found = rw found refl

-- a read gives what is stored, when no write is under way
read_stored :
    (id : String) (o : Observed)
    → IsFresh 0 o
    → (get_user_snapshot id o).0 ≡ (get_user id o.store).0
unfolding get_user_snapshot
read_stored id o fresh = elim (Option-cases (current_hit o.write_epoch (get id o.snapshots))) [
  | inl miss ↦ rw (miss, get_user_snapshot) refl
  | inr (u, e) ↦
      let (hit, g, epoch, user) = hit_user o.write_epoch (get id o.snapshots) e in
      let found : get id o.store.rows ≡ some u = fresh.stored id hit refl g epoch ∙ ap some user in
      rw (e, get_user_snapshot) (sym (row_read id o found))
]

kept :
    (n : ℕ) (id : String) (o : Observed) (result : Result UserCredentials)
    → IsFresh n o
    → (get_user id o.store).0 ≡ result
    → IsFresh n (keep_read id result o)
kept n id o (err e) fresh same = fresh
kept n id o (ok u) fresh same =
    let whole : get_user id o.store ≡ (ok u, (get_user id o.store).1) =
      ap {B = Result UserCredentials × UserStore} (λ r. (r, (get_user id o.store).1)) same in
    kept-IsFresh n id o u fresh (read_row id o whole)

get_user_snapshot-IsFresh :
    (n : ℕ) (id : String) (o : Observed) → IsFresh n o → IsFresh n (get_user_snapshot id o).1
unfolding get_user_snapshot
get_user_snapshot-IsFresh n id o fresh =
    elim (Option-cases (current_hit o.write_epoch (get id o.snapshots))) [
      | inr (u, e) ↦ rw (e, get_user_snapshot) fresh
      | inl miss ↦ rw (miss, get_user_snapshot) (kept n id o (get_user id o.store).0 fresh refl)
    ]

subscribed-IsFresh : {n : ℕ} (l : ℕ) (o : Observed) → IsFresh n o → IsFresh n (on_user_write l o)
unfolding on_user_write
subscribed-IsFresh l o fresh = elim (Bool-cases (any (λ x. x == l) o.listeners)) [
  | inl known ↦ rw known fresh
  | inr new ↦ rw new (record { past = fresh.past; stored = fresh.stored })
]

react_all-IsFresh :
    {n m : ℕ} {es : List Event} (flights : Flights n es m) (o : Observed)
    → IsFresh n o
    → IsFresh m (react_all es o)
unfolding start_write write end_write on_user_write unsubscribe
react_all-IsFresh nothing o fresh = fresh
react_all-IsFresh {n} (start more) o fresh =
    react_all-IsFresh more (start_write o) (later-IsFresh n (suc n) o fresh)
react_all-IsFresh {n} (store {f = f} more) o fresh =
    react_all-IsFresh more (write f o)
      (record { past = fresh.past; stored = λ id hit none_now g e. absurd (omega arith) })
react_all-IsFresh {n} (end {n = k} more) o fresh =
    react_all-IsFresh more (end_write none o).1 (later-IsFresh n k o fresh)
react_all-IsFresh {n} (look {id = id} more) o fresh =
    react_all-IsFresh more (get_user_snapshot id o).1 (get_user_snapshot-IsFresh n id o fresh)
react_all-IsFresh (subscribe {l = l} more) o fresh =
    react_all-IsFresh more (on_user_write l o) (subscribed-IsFresh l o fresh)
react_all-IsFresh (leave {l = l} more) o fresh =
    react_all-IsFresh more (unsubscribe l o) (record { past = fresh.past; stored = fresh.stored })

-- From a start without snapshots, after any reads, subscriptions and writes, each announced before
-- it takes effect and again when it has settled: when no write is under way, the snapshot of a user
-- is what a fresh read gives.
pub snapshot-get_user :
    (es : List Event) (o : Observed) (id : String)
    → o.snapshots ≡ []
    → Flights 0 es 0
    → (get_user_snapshot id (react_all es o)).0 ≡ (get_user id (react_all es o).store).0
unfolding get
snapshot-get_user es o id new flights = read_stored id (react_all es o) (
    react_all-IsFresh flights o (record {
      past = λ k hit g. absurd (let h = rw new at g in ground (arith, h));
      stored = λ k hit quiet g e. absurd (let h = rw new at g in ground (arith, h));
    }))
