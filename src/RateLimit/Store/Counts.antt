-- ===== src/RateLimit/Store/Counts.antt =====
-- What the methods of packages/auth/src/rate-limit/store.ts count, and that they keep the store
-- valid.
use mathlib.Core.Path.{subst}
use aoothjs.Base.{
  ℕ, suc, ◌+◌, ◌<◌, ◌≡◌, ◌⊎◌, inl, inr, true, false, none, some, arith, leb, Eq, ◌==◌, Bool-cases,
  Option-cases, if◌then◌else◌,
}
use aoothjs.Base.Assoc.{get, put, delete}
use aoothjs.Base.Assoc.Laws.{
  get-put, get-delete, All-put, All-delete, All-get, Distinct-put, Distinct-delete, length-put-le,
  length-put_present, length-delete-le, length-delete-lt, delete_absent,
}
use aoothjs.RateLimit.Store.{Counter, Options, Store, start_counter, hit, count_of}
use aoothjs.RateLimit.Store.Sweep.{IsBound, IsBound-lower, Bounds-lower, live_count}
use aoothjs.RateLimit.Store.Invariant.{IsValid, IsCounted, IsRoom}
use aoothjs.RateLimit.Store.Room.{make_room_lem}

module _ {K : Type 0} ⦃e : Eq K⦄ where
  pub count_of-live_count :
      (now : ℕ) (key : K) (s : Store K) → count_of now key s ≡ live_count now (get key s.entries)
  unfolding count_of
  count_of-live_count now key s = ground arith

  start_counter-IsValid :
      (options : Options K) (now : ℕ) (s room : Store K) (key : K) (expires_at : ℕ)
      → IsRoom options now s room
      → IsValid options (start_counter key expires_at room)
  unfolding start_counter
  start_counter-IsValid options now s room key expires_at h = record {
    distinct = Distinct-put key _ _ (Distinct-delete key room.entries h.distinct);
    bounds =
        All-put _ key _ (delete key room.entries)
          (All-delete _ key room.entries
            (Bounds-lower expires_at room.min_expiry room.entries h.bounds))
          (IsBound-lower expires_at room.min_expiry);
    counted =
        All-put IsCounted key _ _ (All-delete IsCounted key room.entries h.counted) (omega arith);
    capped = λ m p. omega (
      arith,
      h.below_cap m p,
      length-put-le key (record { count = 1; expires_at = expires_at }) (delete key room.entries),
      length-delete-le key room.entries,
    );
  }

  get-start_counter :
      (key j : K) (expires_at : ℕ) (s : Store K)
      → get j (start_counter key expires_at s).entries ≡ (
          if key == j
          then some (record { count = 1; expires_at = expires_at })
          else get j s.entries)
  unfolding start_counter
  get-start_counter key j expires_at s = ground (
    arith,
    get-put key j (record { count = 1; expires_at = expires_at }) (delete key s.entries),
    get-delete key j s.entries,
  )

  -- what a hit on a key gives
  pub record IsHit (options : Options K) (now : ℕ) (key : K) (ttl : ℕ) (s : Store K) (n : ℕ)
      (after : Store K) : Type 0 where
    pub valid : IsValid options after
    pub counted : n ≡ suc (count_of now key s)
    pub stored : count_of now key after ≡ n
    pub same :
        options.max_entries ≡ none
        → (j : K) → (key == j) ≡ false
        → count_of now j after ≡ count_of now j s
    pub less :
        (j : K)
        → (key == j) ≡ false
        → (count_of now j after ≡ 0) ⊎ (count_of now j after ≡ count_of now j s)

  started :
      (options : Options K) (now : ℕ) (key : K) (ttl : ℕ) (s room : Store K)
      → 0 < ttl
      → count_of now key s ≡ 0
      → IsRoom options now s room
      → IsHit options now key ttl s 1 (start_counter key (now + ttl) room)
  unfolding count_of
  started options now key ttl s room positive zero_now h = record {
    valid = start_counter-IsValid options now s room key (now + ttl) h;
    counted = omega (arith, zero_now);
    stored = ground (arith, get-start_counter key key (now + ttl) room, e.equal_iff key key);
    same = λ uncapped j other.
        ground (arith, get-start_counter key j (now + ttl) room, h.same uncapped j);
    less = λ j other. ground (arith, get-start_counter key j (now + ttl) room, h.less j);
  }

  -- the store less a counter that has expired
  expired-IsRoom :
      (options : Options K) (now : ℕ) (key : K) (s : Store K) (c : Counter)
      → IsValid options s
      → get key s.entries ≡ some c
      → leb c.expires_at now ≡ true
      → IsRoom options now s (record s { entries = delete key s.entries })
  expired-IsRoom options now key s c h found gone =
      let same_counts : (j : K)
          → live_count now (get j (delete key s.entries)) ≡ live_count now (get j s.entries) =
        λ j. ground (arith, get-delete key j s.entries, e.equal_iff key j) in
      record {
        distinct = Distinct-delete key s.entries h.distinct;
        bounds = All-delete _ key s.entries h.bounds;
        counted = All-delete IsCounted key s.entries h.counted;
        below_cap = λ m p. omega (arith, h.capped m p, length-delete-lt key s.entries found);
        absent = λ j a. ground (arith, get-delete key j s.entries);
        same = λ _. same_counts;
        less = λ j. inr (same_counts j);
      }

  start_counter_twice :
      (key : K) (t : ℕ) (s : Store K)
      → start_counter key t (record s { entries = delete key s.entries }) ≡ start_counter key t s
  unfolding start_counter
  start_counter_twice key t s = rw (
      delete_absent key (delete key s.entries)
        (ground (arith, get-delete key key s.entries, e.equal_iff key key)))

  counted_again :
      (options : Options K) (now : ℕ) (key : K) (ttl : ℕ) (s : Store K) (c : Counter)
      → IsValid options s
      → get key s.entries ≡ some c
      → leb c.expires_at now ≡ false
      → IsHit options now key ttl s
          (suc c.count)
          (record s { entries = put key (record c { count = suc c.count }) s.entries })
  unfolding count_of
  counted_again options now key ttl s c h found live = record {
    valid = record {
      distinct = Distinct-put key _ s.entries h.distinct;
      bounds =
          All-put _ key _ s.entries h.bounds
            (All-get (λ x. IsBound s.min_expiry x.1.expires_at) key s.entries h.bounds found);
      counted = All-put IsCounted key _ s.entries h.counted (omega arith);
      capped = λ m p. omega (
        arith,
        h.capped m p,
        length-put_present key (record c { count = suc c.count }) s.entries found,
      );
    };
    counted = ground (arith, found);
    stored =
        ground (
          arith,
          get-put key key (record c { count = suc c.count }) s.entries,
          e.equal_iff key key,
        );
    same = λ uncapped j other.
        ground (arith, get-put key j (record c { count = suc c.count }) s.entries);
    less = λ j other. ground (arith, get-put key j (record c { count = suc c.count }) s.entries);
  }

  -- On a valid store whose cap is not zero, a hit with a positive lifetime ends. It answers one
  -- more than the live count of the key, that count is stored, and the store stays valid: its keys
  -- are distinct, its expiry bound holds and its cap is kept. Without a cap the count of every
  -- other key stays; with a cap it stays or is dropped.
  pub hit-IsHit :
      (options : Options K) (now : ℕ) (key : K) (ttl : ℕ) (s : Store K)
      → IsValid options s
      → ((m : ℕ) → options.max_entries ≡ some m → 0 < m)
      → 0 < ttl
      → (n : ℕ) × (after : Store K) × (hit options now key ttl s ≡ some (n, after))
        × IsHit options now key ttl s n after
  unfolding hit
  hit-IsHit options now key ttl s h positive later = elim (Option-cases (get key s.entries)) [
    | inl absent ↦
        let (room, made, r) = make_room_lem options now s h positive in
        (
          1,
          start_counter key (now + ttl) room,
          rw (absent, made, hit),
          started options now key ttl s room later (unfold count_of in rw (absent, count_of)) r,
        )
    | inr (c, found) ↦ elim (Bool-cases (leb c.expires_at now)) [
      | inl gone ↦ (
        1,
        start_counter key (now + ttl) s,
        rw (found, gone, hit),
        subst (IsHit options now key ttl s 1) (start_counter_twice key (now + ttl) s) (
            started options now key ttl s (record s { entries = delete key s.entries }) later
              (unfold count_of in ground (arith, found, gone))
              (expired-IsRoom options now key s c h found gone)),
      )
      | inr live ↦ (
        suc c.count,
        record s { entries = put key (record c { count = suc c.count }) s.entries },
        rw (found, live, hit),
        counted_again options now key ttl s c h found live,
      )
    ]
  ]
