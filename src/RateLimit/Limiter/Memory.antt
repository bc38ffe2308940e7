-- ===== src/RateLimit/Limiter/Memory.antt =====
-- The limiter of packages/auth/src/rate-limit/rate-limiter.ts over its default store, the one of
-- packages/auth/src/rate-limit/store.ts without a cap.
use aoothjs.Base.{refl, ap, ◌∙◌, false, none, some, arith}
use aoothjs.RateLimit.Store.{Options, Store, hit, count_of}
use aoothjs.RateLimit.Store.Invariant.{IsValid}
use aoothjs.RateLimit.Store.Counts.{hit-IsHit}
use aoothjs.RateLimit.Limiter.{Key, key_eq, RateLimitStore}
use aoothjs.RateLimit.Limiter.Counted.{IsCounting}

abbrev pub uncapped : Options Key
uncapped = record { max_entries = none; evict_last = λ _. false }

-- `new RateLimitStoreMemory({ clock })`
abbrev pub memory : RateLimitStore (Store Key)
memory = record { hit = hit uncapped; read = some count_of }

-- The store in memory without a cap is a store that counts, as the limiter takes it: a hit on a key
-- answers one more than its count and changes no other count, and `get` reads the count.
pub memory-IsCounting : IsCounting memory (IsValid uncapped) count_of
memory-IsCounting = record {
  hits = λ now key ttl s v later.
      let (n, after, eq, h) = hit-IsHit uncapped now key ttl s v (λ m p. absurd (cc)) later in
      (
        after,
        eq ∙ ap (λ n. some (n, after)) h.counted,
        h.valid,
        h.stored ∙ h.counted,
        λ j other. h.same refl j other,
      );
  reads = λ read eq now key s. ground (arith, eq);
}
