-- ===== src/RateLimit/Store/Invariant.antt =====
-- What every method of packages/auth/src/rate-limit/store.ts keeps: distinct keys, an expiry bound
-- below every entry, counts of at least one, and no more entries than the cap.
use mathlib.Core.Path.{subst}
use aoothjs.Base.{
  ℕ, ◌≤◌, ◌<◌, ◌≡◌, refl, sym, ◌⊎◌, inl, inr, true, false, none, some, [], ◌∷◌, arith, leb, length,
  All, Eq, Bool-cases,
}
use aoothjs.Base.Assoc.{Assoc, get}
use aoothjs.Base.Assoc.Laws.{Distinct}
use aoothjs.RateLimit.Store.{Counter, Options, Store, below, sweep_from, sweep, sweep_if_due}
use aoothjs.RateLimit.Store.Sweep.{
  Bounds, sweep_from-Bounds, sweep_from-Distinct, get-sweep_from, length-sweep_from,
  sweep_from_early, get-sweep_from_absent, live_count,
}

abbrev pub IsCounted : {K : Type 0} → K × Counter → Type 0
IsCounted x = 1 ≤ x.1.count

module _ {K : Type 0} ⦃e : Eq K⦄ where
  pub record IsValid (options : Options K) (s : Store K) : Type 0 where
    pub distinct : Distinct s.entries
    pub bounds : Bounds s.min_expiry s.entries
    pub counted : All IsCounted s.entries
    pub capped : (m : ℕ) → options.max_entries ≡ some m → length s.entries ≤ m

  sweep_from-IsCounted :
      (now : ℕ) (entries : Assoc K Counter)
      → All IsCounted entries
      → All IsCounted (sweep_from now entries).0
  unfolding sweep_from
  sweep_from-IsCounted now [] h = tt
  sweep_from-IsCounted now ((key, c) ∷ entries) h = elim (Bool-cases (leb c.expires_at now)) [
    | inl gone ↦ rw gone (sweep_from-IsCounted now entries h.1)
    | inr live ↦ rw live (h.0, sweep_from-IsCounted now entries h.1)
  ]

  -- what a sweep that may be skipped leaves
  pub record IsSwept (now : ℕ) (s swept : Store K) : Type 0 where
    pub distinct : Distinct swept.entries
    pub bounds : Bounds swept.min_expiry swept.entries
    pub counted : All IsCounted swept.entries
    pub fewer : length swept.entries ≤ length s.entries
    pub absent : (k : K) → get k s.entries ≡ none → get k swept.entries ≡ none
    pub same : (k : K) → live_count now (get k swept.entries) ≡ live_count now (get k s.entries)

  pub sweep-IsSwept :
      (options : Options K) (now : ℕ) (s : Store K)
      → IsValid options s
      → IsSwept now s (sweep now s).1
  unfolding sweep
  sweep-IsSwept options now s h = record {
    distinct = sweep_from-Distinct now s.entries h.distinct;
    bounds = sweep_from-Bounds now s.entries;
    counted = sweep_from-IsCounted now s.entries h.counted;
    fewer = omega (arith, length-sweep_from now s.entries);
    absent = λ k. get-sweep_from_absent now k s.entries;
    same = λ k. get-sweep_from now k s.entries h.distinct;
  }

  pub sweep_if_due-IsSwept :
      (options : Options K) (now : ℕ) (s : Store K)
      → IsValid options s
      → IsSwept now s (sweep_if_due now s)
  unfolding sweep_if_due
  sweep_if_due-IsSwept options now s h = elim (Bool-cases (below now s.min_expiry)) [
    | inl early ↦ subst (IsSwept now s) (sym (skipped early)) (record {
      distinct = h.distinct;
      bounds = h.bounds;
      counted = h.counted;
      fewer = omega arith;
      absent = λ k a. a;
      same = λ k. refl;
    })
    | inr due ↦ subst (IsSwept now s) (sym (swept due)) (sweep-IsSwept options now s h)
  ]
    where
      skipped : below now s.min_expiry ≡ true → sweep_if_due now s ≡ s
      skipped early = rw (early, sweep_if_due)

      swept : below now s.min_expiry ≡ false → sweep_if_due now s ≡ (sweep now s).1
      swept due = rw (due, sweep_if_due)

  -- Skipping a sweep before the bound skips nothing: it would remove no counter.
  pub skipped_sweep :
      (options : Options K) (now : ℕ) (s : Store K)
      → IsValid options s
      → below now s.min_expiry ≡ true
      → ((sweep now s).0 ≡ 0) × ((sweep now s).1.entries ≡ s.entries)
  unfolding sweep
  skipped_sweep options now s h early =
      let (kept, removed) = sweep_from_early now s.min_expiry s.entries h.bounds early in
      (removed, kept)

  -- a store with room for one more entry
  pub record IsRoom (options : Options K) (now : ℕ) (s room : Store K) : Type 0 where
    pub distinct : Distinct room.entries
    pub bounds : Bounds room.min_expiry room.entries
    pub counted : All IsCounted room.entries
    pub below_cap : (m : ℕ) → options.max_entries ≡ some m → length room.entries < m
    pub absent : (k : K) → get k s.entries ≡ none → get k room.entries ≡ none
    pub same :
        options.max_entries ≡ none
        → (k : K) → live_count now (get k room.entries) ≡ live_count now (get k s.entries)
    pub less :
        (k : K)
        → (live_count now (get k room.entries) ≡ 0)
          ⊎ (live_count now (get k room.entries) ≡ live_count now (get k s.entries))

  pub IsRoom-of_swept :
      (options : Options K) (now : ℕ) (s swept room : Store K)
      → IsSwept now s swept
      → room.entries ≡ swept.entries
      → room.min_expiry ≡ swept.min_expiry
      → ((m : ℕ) → options.max_entries ≡ some m → length swept.entries < m)
      → IsRoom options now s room
  IsRoom-of_swept options now s swept room h same_entries same_bound cap = record {
    distinct = rw same_entries h.distinct;
    bounds = rw (same_entries, same_bound) h.bounds;
    counted = rw same_entries h.counted;
    below_cap = λ m p. rw same_entries (cap m p);
    absent = λ k a. rw same_entries (h.absent k a);
    same = λ _ k. rw same_entries (h.same k);
    less = λ k. inr (rw same_entries (h.same k));
  }
