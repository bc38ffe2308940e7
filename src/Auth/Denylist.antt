-- ===== src/Auth/Denylist.antt =====
-- packages/auth/src/stores/denylist-memory.ts: `DenylistStoreMemory`, with the time that a method
-- reads as `now`.
use aoothjs.Base.{
  ℕ, ◌+◌, ◌*◌, ◌≤◌, ◌≡◌, refl, ap, sym, ◌∙◌, eq_of_==, max, String, Bool, true, false, not, ◌&&◌,
  Option, none, some, arith, leb, ltb, length, ◌==◌, string_eq, Bool-cases, Option-cases, inl, inr,
  if◌then◌else◌,
}
use aoothjs.Base.Assoc.{Assoc, get, put, delete, delete_where}
use aoothjs.Base.Assoc.Laws.{get-put, get-delete, Distinct, Distinct-put, Distinct-delete}
use aoothjs.Base.Assoc.Deleted.{
  get-delete_where, Distinct-delete_where, length-delete_where, unless,
}

pub record Denylist : Type 0 where
  pub entries : Assoc String ℕ
  pub sweep_at : ℕ

abbrev pub min_sweep_size : ℕ
min_sweep_size = 1024

unfoldable pub sweep : ℕ → Denylist → ℕ × Denylist
unfolding delete_where
sweep now s =
    let (removed, kept) = delete_where (λ expires_at. leb expires_at now) s.entries in
    (removed, record s { entries = kept })

abbrev pub is_some : {A : Type 0} → Option A → Bool
is_some none = false
is_some (some _) = true

-- the sweep that an addition may start with
unfoldable pub make_ready : ℕ → String → Denylist → Denylist
unfolding sweep get
make_ready now jti s =
    let swept = (sweep now s).1 in
    if leb s.sweep_at (length s.entries) && not (is_some (get jti s.entries))
    then record swept { sweep_at = max min_sweep_size (length swept.entries * 2) }
    else s

unfoldable pub add : ℕ → String → ℕ → Denylist → Denylist
unfolding make_ready put
add now jti expires_at s =
    let ready = make_ready now jti s in record ready { entries = put jti expires_at ready.entries }

unfoldable pub has : ℕ → String → Denylist → Bool × Denylist
has now jti s = elim (get jti s.entries) [
  | none ↦ (false, s)
  | some expires_at ↦
      if leb expires_at now then (false, record s { entries = delete jti s.entries }) else (true, s)
]

unfoldable pub cleanup : ℕ → Denylist → ℕ × Denylist
unfolding sweep
cleanup now s = sweep now s

-- the id is denied at the time
abbrev pub denies : ℕ → Option ℕ → Bool
denies t none = false
denies t (some expires_at) = ltb t expires_at

abbrev pub denied_at : ℕ → String → Denylist → Bool
denied_at t jti s = denies t (get jti s.entries)

denies-unless :
    (now t : ℕ) (o : Option ℕ)
    → now ≤ t
    → denies t (unless (λ expires_at. leb expires_at now) o) ≡ denies t o
denies-unless now t none later = refl
denies-unless now t (some expires_at) later = ground arith

swept-denied_at :
    (now t : ℕ) (j : String) (s : Denylist)
    → Distinct s.entries
    → now ≤ t
    → denied_at t j (sweep now s).1 ≡ denied_at t j s
unfolding sweep
swept-denied_at now t j s d later =
    ap (denies t) (get-delete_where (λ expires_at. leb expires_at now) j s.entries d)
    ∙ denies-unless now t (get j s.entries) later

make_ready_lem :
    (now t : ℕ) (jti j : String) (s : Denylist)
    → Distinct s.entries
    → now ≤ t
    → (denied_at t j (make_ready now jti s) ≡ denied_at t j s)
      × Distinct (make_ready now jti s).entries
unfolding make_ready
make_ready_lem now t jti j s d later =
    elim (Bool-cases (leb s.sweep_at (length s.entries) && not (is_some (get jti s.entries)))) [
      | inl due ↦
          rw (due, make_ready)
            (
              swept-denied_at now t j s d later,
              unfold sweep in Distinct-delete_where (λ expires_at. leb expires_at now) s.entries d,
            )
      | inr early ↦ rw (early, make_ready) (refl, d)
    ]

has_lem :
    (now t : ℕ) (jti j : String) (s : Denylist)
    → Distinct s.entries
    → now ≤ t
    → ((has now jti s).0 ≡ denied_at now jti s)
      × (denied_at t j (has now jti s).1 ≡ denied_at t j s)
      × Distinct (has now jti s).1.entries
unfolding has
has_lem now t jti j s d later = elim (Option-cases (get jti s.entries)) [
  | inl absent ↦ rw (absent, has) (refl, refl, d)
  | inr (expires_at, found) ↦ elim (Bool-cases (leb expires_at now)) [
    | inl gone ↦
        rw (found, gone, has)
          (ground arith, dropped expires_at found gone, Distinct-delete jti s.entries d)
    | inr live ↦ rw (found, live, has) (ground arith, refl, d)
  ]
]
  where
    dropped :
        (x : ℕ)
        → get jti s.entries ≡ some x
        → leb x now ≡ true
        → denies t (get j (delete jti s.entries)) ≡ denied_at t j s
    dropped x f g =
        let same : (jti == j) ≡ true → get j s.entries ≡ get jti s.entries =
          λ e. ap (λ k. get k s.entries) (sym (eq_of_== jti j e)) in
        ground (arith, get-delete jti j s.entries, same, f, g)

-- On a denylist whose ids are distinct, from the time of the call on: an addition denies its id
-- until the expiry and no other id anew, a question answers whether the id is denied and changes
-- nothing, and a cleanup changes nothing and counts what it removes. All keep the ids distinct.
pub denylist_calls :
    (now t : ℕ) (jti j : String) (expires_at : ℕ) (s : Denylist)
    → Distinct s.entries
    → now ≤ t
    → ((denied_at t j (add now jti expires_at s)
          ≡ (if jti == j then ltb t expires_at else denied_at t j s))
        × Distinct (add now jti expires_at s).entries)
      × (((has now jti s).0 ≡ denied_at now jti s)
          × (denied_at t j (has now jti s).1 ≡ denied_at t j s)
          × Distinct (has now jti s).1.entries)
      × ((denied_at t j (cleanup now s).1 ≡ denied_at t j s)
          × ((cleanup now s).0 + length (cleanup now s).1.entries ≡ length s.entries)
          × Distinct (cleanup now s).1.entries)
unfolding add cleanup
denylist_calls now t jti j expires_at s d later =
    let ready = make_ready_lem now t jti j s d later in
    (
      (
        ground (arith, get-put jti j expires_at (make_ready now jti s).entries, ready.0),
        Distinct-put jti expires_at (make_ready now jti s).entries ready.1,
      ),
      has_lem now t jti j s d later,
      (
        swept-denied_at now t j s d later,
        unfold sweep in length-delete_where (λ expires_at. leb expires_at now) s.entries,
        unfold sweep in Distinct-delete_where (λ expires_at. leb expires_at now) s.entries d,
      ),
    )
