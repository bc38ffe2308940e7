-- ===== src/RateLimit/Store/Methods.antt =====
-- The other methods of packages/auth/src/rate-limit/store.ts, and the cap of zero.
use mathlib.Core.Path.{subst}
use aoothjs.Base.{
  ℕ, suc, ◌+◌, ◌<◌, ◌≡◌, refl, sym, inl, inr, true, false, none, some, arith, leb, length, All, Eq,
  ◌==◌, Bool-cases, Option-cases, if◌then◌else◌,
}
use aoothjs.Base.Assoc.{get, put, delete}
use aoothjs.Base.Assoc.Laws.{
  get-delete, All-put, All-delete, All-get, Distinct-put, Distinct-delete, length-put-le,
  length-delete-le, length-delete-lt,
}
use aoothjs.RateLimit.Store.{
  Counter, Options, Store, lower, sweep_if_due, evict_while, evict_to_fit, make_room, hit, count_of,
  expire, reset, clear, cleanup, reaches,
}
use aoothjs.RateLimit.Store.Sweep.{IsBound-lower, Bounds-lower, length-sweep_from, sweep_from-live}
use aoothjs.RateLimit.Store.Evict.{evict_while-zero}
use aoothjs.RateLimit.Store.Invariant.{IsValid, IsCounted, sweep-IsSwept}

module _ {K : Type 0} ⦃e : Eq K⦄ (options : Options K) where
  expire_at-IsValid :
      (now : ℕ) (key : K) (t : ℕ) (s : Store K) (c : Counter)
      → IsValid options s
      → get key s.entries ≡ some c
      → IsValid options (record s {
        min_expiry = lower t s.min_expiry;
        entries = put key (record c { expires_at = t }) (delete key s.entries);
      })
  expire_at-IsValid now key t s c h found = record {
    distinct = Distinct-put key _ _ (Distinct-delete key s.entries h.distinct);
    bounds =
        All-put _ key _ (delete key s.entries)
          (All-delete _ key s.entries (Bounds-lower t s.min_expiry s.entries h.bounds))
          (IsBound-lower t s.min_expiry);
    counted =
        All-put IsCounted key _ _ (All-delete IsCounted key s.entries h.counted)
          (All-get IsCounted key s.entries h.counted found);
    capped = λ m p. omega (
      arith,
      h.capped m p,
      length-delete-lt key s.entries found,
      length-put-le key (record c { expires_at = t }) (delete key s.entries),
    );
  }

  expire-IsValid :
      (now : ℕ) (key : K) (ttl : ℕ) (s : Store K)
      → IsValid options s
      → IsValid options (expire now key ttl s)
  unfolding expire
  expire-IsValid now key ttl s h = elim (Option-cases (get key s.entries)) [
    | inl absent ↦ subst (IsValid options) (sym (eq_absent absent)) h
    | inr (c, found) ↦ elim (Bool-cases (leb c.expires_at now)) [
      | inl gone ↦ subst (IsValid options) (sym (eq_gone c found gone)) h
      | inr live ↦
          subst (IsValid options) (sym (eq_live c found live))
            (expire_at-IsValid now key (now + ttl) s c h found)
    ]
  ]
    where
      eq_absent : get key s.entries ≡ none → expire now key ttl s ≡ s
      eq_absent a = rw (a, expire)

      eq_gone :
          (c : Counter)
          → get key s.entries ≡ some c
          → leb c.expires_at now ≡ true
          → expire now key ttl s ≡ s
      eq_gone c f g = rw (f, g, expire)

      eq_live :
          (c : Counter)
          → get key s.entries ≡ some c
          → leb c.expires_at now ≡ false
          → expire now key ttl s ≡ record s {
            min_expiry = lower (now + ttl) s.min_expiry;
            entries = put key (record c { expires_at = now + ttl }) (delete key s.entries);
          }
      eq_live c f g = rw (f, g, expire)

  -- The methods that change the store without counting keep a valid store valid. After `reset` the
  -- count of the key is zero and every other is as it was, `cleanup` answers how many entries went
  -- and leaves only live ones with every count as it was, and after `clear` no entry is left.
  pub methods-IsValid :
      (now : ℕ) (key : K) (ttl : ℕ) (s : Store K)
      → IsValid options s
      → IsValid options (expire now key ttl s)
        × (IsValid options (reset key s)
            × ((j : K) → count_of now j (reset key s) ≡ (if key == j then 0 else count_of now j s)))
        × (IsValid options (cleanup now s).1
            × (length (cleanup now s).1.entries + (cleanup now s).0 ≡ length s.entries)
            × All (λ x. now < x.1.expires_at) (cleanup now s).1.entries
            × ((j : K) → count_of now j (cleanup now s).1 ≡ count_of now j s))
        × (IsValid options (clear s) × (length (clear s).entries ≡ 0))
  unfolding reset clear cleanup count_of
  methods-IsValid now key ttl s h =
      let swept = sweep-IsSwept options now s h in
      (
        expire-IsValid now key ttl s h,
        (
          record {
            distinct = Distinct-delete key s.entries h.distinct;
            bounds = All-delete _ key s.entries h.bounds;
            counted = All-delete IsCounted key s.entries h.counted;
            capped = λ m p. omega (arith, h.capped m p, length-delete-le key s.entries);
          },
          λ j. ground (arith, get-delete key j s.entries),
        ),
        (
          record {
            distinct = swept.distinct;
            bounds = swept.bounds;
            counted = swept.counted;
            capped = λ m p. omega (arith, h.capped m p, swept.fewer);
          },
          length-sweep_from now s.entries,
          sweep_from-live now s.entries,
          λ j. ground (arith, swept.same j),
        ),
        (record { distinct = tt; bounds = tt; counted = tt; capped = λ m p. omega arith }, refl),
      )

  -- With a cap of zero, the eviction loop of a hit on a key that is not in the map gives no result
  -- with any amount of fuel, and so the hit gives none.
  pub hit-zero_cap :
      (now : ℕ) (key : K) (ttl : ℕ) (s : Store K)
      → options.max_entries ≡ some 0
      → get key s.entries ≡ none
      → ((fuel : ℕ)
          → evict_while fuel options.evict_last options.max_entries (sweep_if_due now s).entries
            ≡ none)
        × (hit options now key ttl s ≡ none)
  unfolding hit
  hit-zero_cap now key ttl s zero_cap absent = (
    λ fuel. rw zero_cap (evict_while-zero options.evict_last fuel (sweep_if_due now s).entries),
    rw (absent, no_room, hit),
  )
    where
      full : reaches (length s.entries) options.max_entries ≡ true
      full = ground (arith, zero_cap)

      stuck : (swept : Store K) → evict_to_fit options swept ≡ none
      stuck swept =
          let loops : evict_while (suc (length swept.entries)) options.evict_last
                options.max_entries swept.entries
              ≡ none =
            rw zero_cap
              (evict_while-zero options.evict_last (suc (length swept.entries)) swept.entries) in
          rw (loops, evict_to_fit)

      no_room : make_room options now s ≡ none
      no_room = unfold make_room in rw (full, make_room) (stuck (sweep_if_due now s))
