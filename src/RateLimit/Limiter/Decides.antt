-- ===== src/RateLimit/Limiter/Decides.antt =====
-- What `check` and `peek` of packages/auth/src/rate-limit/rate-limiter.ts decide, over any store
-- that counts.
use aoothjs.Base.{ℕ, ◌+◌, ◌≤◌, ◌<◌, ◌≡◌, true, false, Option, List, All, Text}
use aoothjs.RateLimit.Rules.{RateLimitRule}
use aoothjs.RateLimit.Limiter.{Key, Evaluated, RateLimitDecision, decision_by}
use aoothjs.RateLimit.Limiter.Governing.{IsGoverning}
use aoothjs.RateLimit.Limiter.Counted.{counted, has_room}

module _ (scope subject : Text) (default_message : Option Text) (now : ℕ) where
  -- the decision on rules whose keys have the counts `c`
  pub record IsDecision (c : Key → ℕ) (offset : ℕ) (rules : List RateLimitRule)
      (d : RateLimitDecision) : Type 1 where
    pub allowed : d.allowed ≡ has_room c scope subject now 0 rules
    pub policies : d.policies ≡ rules
    pub later : 0 < d.reset_after_ms
    pub governed :
        (e : Evaluated) × (d ≡ decision_by scope default_message now rules e)
        × IsGoverning
            (λ e. e.reset_at)
            (λ e. e.remaining)
            (counted c scope subject now offset 0 rules)
            (λ e. e.violated)
            e
    pub retry :
        d.allowed ≡ false
        → All
            (λ e. e.violated ≡ true → e.reset_at ≤ now + d.reset_after_ms)
            (counted c scope subject now offset 0 rules)
