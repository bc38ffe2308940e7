-- ===== src/RateLimit/Store/Room.antt =====
-- `hit` of packages/auth/src/rate-limit/store.ts makes room for a new key: the sweep and the
-- eviction before the insertion.
use aoothjs.Base.{
  ℕ, suc, ◌*◌, ◌<◌, ◌≡◌, refl, inl, inr, max, false, some, arith, leb, length, Eq, Bool-cases,
  Option-cases,
}
use aoothjs.Base.Assoc.{Assoc}
use aoothjs.RateLimit.Store.{
  Counter, Options, Store, reaches, sweep_if_due, evict_while, evict_to_fit, make_room,
  min_sweep_size,
}
use aoothjs.RateLimit.Store.Sweep.{IsBound}
use aoothjs.RateLimit.Store.Evict.{IsKept, evict_while_ends}
use aoothjs.RateLimit.Store.Invariant.{
  IsValid, IsCounted, IsSwept, sweep_if_due-IsSwept, IsRoom, IsRoom-of_swept,
}

module _ {K : Type 0} ⦃e : Eq K⦄ (options : Options K) (now : ℕ) (s : Store K) where
  IsRoom-of_kept :
      (swept : Store K) (kept : Assoc K Counter) (m : ℕ)
      → IsSwept now s swept
      → options.max_entries ≡ some m
      → IsKept options.evict_last m swept.entries kept
      → IsRoom options now s (record swept { entries = kept })
  IsRoom-of_kept swept kept m h limited k = record {
    distinct = k.distinct h.distinct;
    bounds = k.all (λ x. IsBound swept.min_expiry x.1.expires_at) h.bounds;
    counted = k.all IsCounted h.counted;
    below_cap = λ n p. ground (arith, k.below);
    absent = λ j a. ground (arith, k.lookup j, h.absent j);
    same = λ uncapped j. cc;
    less = λ j. ground (arith, k.lookup j, h.same j);
  }

  swept_below_cap :
      (swept : Store K)
      → IsSwept now s swept
      → reaches (length s.entries) options.max_entries ≡ false
      → (m : ℕ) → options.max_entries ≡ some m
      → length swept.entries < m
  swept_below_cap swept h free m p = ground (arith, h.fewer)

  evict_to_fit_lem :
      (swept : Store K) (m : ℕ)
      → IsSwept now s swept
      → options.max_entries ≡ some m
      → 0 < m
      → (room : Store K) × (evict_to_fit options swept ≡ some room) × IsRoom options now s room
  unfolding evict_to_fit
  evict_to_fit_lem swept m h limited positive =
      let (kept, ended, k) =
        evict_while_ends options.evict_last (suc (length swept.entries)) m swept.entries positive
          (omega arith) in
      let here : evict_while (suc (length swept.entries)) options.evict_last options.max_entries
            swept.entries
          ≡ some kept =
        rw limited ended in
      (
        record swept { entries = kept },
        rw (here, evict_to_fit),
        IsRoom-of_kept swept kept m h limited k,
      )

  -- Unless the limited is zero, room is made: the eviction ends.
  pub make_room_lem :
      IsValid options s
      → ((m : ℕ) → options.max_entries ≡ some m → 0 < m)
      → (room : Store K) × (make_room options now s ≡ some room) × IsRoom options now s room
  unfolding make_room
  make_room_lem h positive =
      let swept : Store K = sweep_if_due now s in
      let clean = sweep_if_due-IsSwept options now s h in
      elim (Bool-cases (reaches (length s.entries) options.max_entries)) [
        | inl full ↦ elim (Option-cases options.max_entries) [
          | inl uncapped ↦ absurd (ground arith)
          | inr (m, limited) ↦ rw full (evict_to_fit_lem swept m clean limited (positive m limited))
        ]
        | inr free ↦ elim (Bool-cases (leb s.sweep_at (length s.entries))) [
          | inl due ↦ (
            record swept { sweep_at = max min_sweep_size (length swept.entries * 2) },
            rw (free, due),
            IsRoom-of_swept options now s swept _ clean refl refl
                (swept_below_cap swept clean free),
          )
          | inr early ↦ (
            s,
            rw (free, early),
            record {
              distinct = h.distinct;
              bounds = h.bounds;
              counted = h.counted;
              below_cap = λ m p. ground arith;
              absent = λ k a. a;
              same = λ _ k. refl;
              less = λ k. inr refl;
            },
          )
        ]
      ]
