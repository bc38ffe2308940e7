-- ===== src/RateLimit/Store/Tests.antt =====
-- Runs of the store of packages/auth/src/rate-limit/store.ts, and the theorems at those runs.
use aoothjs.Base.{
  ℕ, ◌+◌, ◌<◌, ◌≡◌, refl, String, none, some, [], ◌∷◌, arith, length, All, ◌==◌, string_eq,
  if◌then◌else◌,
}
use aoothjs.Base.Assoc.{get, put, delete}
use aoothjs.RateLimit.Store.{
  Counter, Options, Store, make_room, start_counter, hit, count_of, expire, reset, clear, cleanup,
  evict_one, evict_while, evict_to_fit, victim_from, sweep, sweep_from, sweep_if_due,
}
use aoothjs.RateLimit.Store.Invariant.{IsValid}
use aoothjs.RateLimit.Store.Counts.{IsHit, hit-IsHit}
use aoothjs.RateLimit.Store.Methods.{methods-IsValid, hit-zero_cap}

store : Unit {0}
unfolding make_room start_counter hit count_of expire reset clear cleanup evict_one evict_while
    evict_to_fit victim_from sweep sweep_from sweep_if_due get put delete
store = tt

abbrev counter : ℕ → ℕ → Counter
counter n t = record { count = n; expires_at = t }

-- room for two, and the keys named "lock" go last
abbrev two : Options String
two = record { max_entries = some 2; evict_last = λ k. k == "lock" }

abbrev full : Store String
full = record {
  entries = ("lock", counter 1 90) ∷ ("a", counter 3 80) ∷ [];
  sweep_at = 1024;
  min_expiry = some 80;
}

full-IsValid : IsValid two full
unfolding get
full-IsValid = record {
  distinct = (refl, (refl, tt));
  bounds = (omega arith, (omega arith, tt));
  counted = (omega arith, (omega arith, tt));
  capped = λ m p. ground (arith, p);
}

-- the unmarked counter makes room for a new one, and a counter is counted on
hit_tests :
    (hit two 10 "b" 60 full
      ≡ some (
        1,
        record full {
          entries = ("lock", counter 1 90) ∷ ("b", counter 1 70) ∷ [];
          min_expiry = some 70;
        },
      ))
    × (hit two 10 "a" 60 full
        ≡ some (4, record full { entries = ("lock", counter 1 90) ∷ ("a", counter 4 80) ∷ [] }))
unfolding store
hit_tests = (refl, refl)

hit-IsHit_example :
    (n : ℕ) × (after : Store String) × (hit two 10 "b" 60 full ≡ some (n, after))
    × IsHit two 10 "b" 60 full n after
hit-IsHit_example =
    hit-IsHit two 10 "b" 60 full full-IsValid (λ m p. ground (arith, p)) (omega arith)

methods-IsValid_example :
    IsValid two (expire 10 "a" 60 full)
    × (IsValid two (reset "a" full)
        × ((j : String)
            → count_of 10 j (reset "a" full) ≡ (if "a" == j then 0 else count_of 10 j full)))
    × (IsValid two (cleanup 10 full).1
        × (length (cleanup 10 full).1.entries + (cleanup 10 full).0 ≡ length full.entries)
        × All (λ x. 10 < x.1.expires_at) (cleanup 10 full).1.entries
        × ((j : String) → count_of 10 j (cleanup 10 full).1 ≡ count_of 10 j full))
    × (IsValid two (clear full) × (length (clear full).entries ≡ 0))
methods-IsValid_example = methods-IsValid two 10 "a" 60 full full-IsValid

abbrev no_room : Options String
no_room = record two { max_entries = some 0 }

hit-zero_cap_example :
    ((fuel : ℕ)
      → evict_while fuel no_room.evict_last no_room.max_entries (sweep_if_due 10 full).entries
        ≡ none)
    × (hit no_room 10 "b" 60 full ≡ none)
unfolding get
hit-zero_cap_example = hit-zero_cap no_room 10 "b" 60 full refl refl
