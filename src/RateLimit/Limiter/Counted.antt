-- ===== src/RateLimit/Limiter/Counted.antt =====
-- What the limiter of packages/auth/src/rate-limit/rate-limiter.ts takes of a store, and what it
-- finds of every rule.
use native.Mathlib.Nat.{div-add-mod', mod-lt}
use aoothjs.Base.{
  ◌⊎◌, ℕ, suc, ◌+◌, ◌*◌, ◌/◌, ◌%◌, ◌≤◌, ◌<◌, ◌≡◌, refl, ap, ◌∙◌, Bool, true, false, not, ◌&&◌,
  Option, some, List, [], ◌∷◌, arith, ltb, any, length, All, Text, ◌==◌, Option-cases, inl, inr,
}
use aoothjs.RateLimit.Rules.{RateLimitRule, RateLimitRuleInput}
use aoothjs.RateLimit.Rules.Parse.{parse_rate_limit_rule}
use aoothjs.RateLimit.Rules.Accepted.{parse_rate_limit_rule-valid}
use aoothjs.RateLimit.Limiter.{
  Key, key_eq, key_beq_iff, RateLimitStore, Evaluated, window_start, key_of, evaluated, parse_rules,
  evaluate_rules,
}

-- A store that counts: a hit answers one more than the count of the key and leaves the count of
-- every other key, and `get` reads the count.
pub record IsCounting {T : Type 0} (store : RateLimitStore T) (valid : T → Type 0)
    (view : ℕ → Key → T → ℕ) : Type 0 where
  pub hits :
      (now : ℕ) (key : Key) (ttl : ℕ) (s : T)
      → valid s
      → 0 < ttl
      → (after : T) × (store.hit now key ttl s ≡ some (suc (view now key s), after))
        × valid after
        × (view now key after ≡ suc (view now key s))
        × ((j : Key) → (key == j) ≡ false → view now j after ≡ view now j s)
  pub reads :
      (read : ℕ → Key → T → ℕ)
      → store.read ≡ some read
      → (now : ℕ) (key : Key) (s : T) → read now key s ≡ view now key s

pub record IsPositive (rule : RateLimitRule) : Type 0 where
  pub limit : 0 < rule.limit
  pub window : 0 < rule.window

pub parse_rules-IsPositive :
    (inputs : List RateLimitRuleInput) (rules : List RateLimitRule)
    → parse_rules inputs ≡ some rules
    → All IsPositive rules × (length rules ≡ length inputs)
unfolding parse_rules
parse_rules-IsPositive [] [] h = (tt, refl)
parse_rules-IsPositive [] (rule ∷ rules) h = absurd (cc)
parse_rules-IsPositive (input ∷ inputs) rules h =
    elim (Option-cases (parse_rate_limit_rule input)) [
      | inl failed ↦ absurd (ground (arith, failed, h))
      | inr (rule, parsed) ↦ elim (Option-cases (parse_rules inputs)) [
        | inl failed ↦ absurd (ground (arith, parsed, failed, h))
        | inr (others, all_parsed) ↦
            let tail = parse_rules-IsPositive inputs others all_parsed in
            let head = parse_rate_limit_rule-valid input rule parsed in
            let whole : rule ∷ others ≡ rules = ground (arith, parsed, all_parsed, h) in
            rw⁻¹ whole ((record { limit = head.0; window = head.1 }, tail.0), ap suc tail.1)
      ]
    ]

-- the window of a time starts at or before it, and ends after it
pub in_window :
    {now : ℕ} (rule : RateLimitRule)
    → 0 < rule.window
    → (now < window_start now rule + rule.window)
      × (window_start now rule + rule.window ≤ now + rule.window)
unfolding window_start
in_window {now} rule h =
    step rule.window (now / rule.window * rule.window) (now % rule.window)
      (div-add-mod' now rule.window) (mod-lt now h)
  where
    step :
        (w start past : ℕ)
        → start + past ≡ now
        → past < w
        → (now < start + w) × (start + w ≤ now + w)
    step w start past eq lt = omega arith

module _ (c : Key → ℕ) (scope subject : Text) (now : ℕ) where
  -- the rules from the i-th on, each with one more than its count
  unfoldable pub counted : ℕ → ℕ → List RateLimitRule → List Evaluated
  counted offset i [] = []
  counted offset i (rule ∷ rules) =
      evaluated offset now rule (suc (c (key_of scope subject now i rule)))
      ∷ counted offset (suc i) rules

  -- every rule from the i-th on has room for one more
  unfoldable pub has_room : ℕ → List RateLimitRule → Bool
  has_room i [] = true
  has_room i (rule ∷ rules) =
      ltb (c (key_of scope subject now i rule)) rule.limit && has_room (suc i) rules

  pub any-counted :
      (offset i : ℕ) (rules : List RateLimitRule)
      → any (λ e. e.violated) (counted offset i rules) ≡ not (has_room i rules)
  unfolding counted has_room evaluated
  any-counted offset i [] = refl
  any-counted offset i (rule ∷ rules) = ground (arith, any-counted offset (suc i) rules)

  pub counted-reset_at :
      (offset i : ℕ) (rules : List RateLimitRule)
      → All IsPositive rules
      → All (λ e. (now < e.reset_at) × (e.reset_at ≤ now + e.rule.window)) (counted offset i rules)
  unfolding counted evaluated
  counted-reset_at offset i [] h = tt
  counted-reset_at offset i (rule ∷ rules) h =
      (in_window rule h.0.window, counted-reset_at offset (suc i) rules h.1)

evaluate_rules-cons :
    {T : Type 0} (count : Key → RateLimitRule → T → Option (ℕ × T)) (offset : ℕ)
    (scope subject : Text) (now i n : ℕ) (rule : RateLimitRule) (rules : List RateLimitRule)
    (s after last : T) (items : List Evaluated)
    → count (key_of scope subject now i rule) rule s ≡ some (n, after)
    → evaluate_rules count offset scope subject now (suc i) rules after ≡ some (items, last)
    → evaluate_rules count offset scope subject now i (rule ∷ rules) s
      ≡ some (evaluated offset now rule n ∷ items, last)
unfolding evaluate_rules
evaluate_rules-cons count offset scope subject now i n rule rules s after last items h k =
    rw (h, k, evaluate_rules)

module _ {T : Type 0} {store : RateLimitStore T} {valid : T → Type 0} {view : ℕ → Key → T → ℕ}
    (counts : IsCounting store valid view) (scope subject : Text) (now : ℕ) where
  index-apart :
      (i : ℕ) (rule : RateLimitRule) (j : Key)
      → (i < j.index) ⊎ (j.index < i)
      → (key_of scope subject now i rule == j) ≡ false
  unfolding key_of
  index-apart i rule j h = ground (arith, key_beq_iff (key_of scope subject now i rule) j)

  twice : {w : ℕ} → 0 < w → 0 < w * 2
  twice h = omega (arith, h)

  -- a check counts every rule once, from the counts that it starts with
  pub evaluate_rules-hits :
      (c : Key → ℕ) (i : ℕ) (rules : List RateLimitRule) (s : T)
      → valid s
      → All IsPositive rules
      → ((j : Key) → i ≤ j.index → view now j s ≡ c j)
      → (after : T) × (evaluate_rules
            (λ key rule. store.hit now key (rule.window * 2))
            0
            scope
            subject
            now
            i
            rules
            s
          ≡ some (counted c scope subject now 0 i rules, after))
        × valid after
        × ((j : Key) → j.index < i → view now j after ≡ view now j s)
  unfolding evaluate_rules counted
  evaluate_rules-hits c i [] s v p agrees = (s, refl, v, λ j _. refl)
  evaluate_rules-hits c i (rule ∷ rules) s v p agrees =
      let key = key_of scope subject now i rule in
      let (hit_after, hit_eq, hit_valid, _, others) =
        counts.hits now key (rule.window * 2) s v (twice p.0.window) in
      let (last, eq, last_valid, kept) =
        evaluate_rules-hits c (suc i) rules hit_after hit_valid p.1 (λ j above.
          others j (index-apart i rule j (inl above)) ∙ agrees j (omega (arith, above))) in
      (
        last,
        evaluate_rules-cons (λ key rule. store.hit now key (rule.window * 2)) 0 scope subject now i
            _ rule rules s hit_after last _
            (hit_eq ∙ ap (λ n. some (suc n, hit_after)) (agrees key (omega arith))) eq,
        last_valid,
        λ j below. kept j (omega (arith, below)) ∙ others j (index-apart i rule j (inr below)),
      )

  -- a peek reads the same counts, and leaves the store
  pub evaluate_rules-reads :
      (read : ℕ → Key → T → ℕ) (i : ℕ) (rules : List RateLimitRule) (s : T)
      → store.read ≡ some read
      → evaluate_rules (λ key rule s. some (read now key s + 1, s)) 1 scope subject now i rules s
        ≡ some (counted (λ key. view now key s) scope subject now 1 i rules, s)
  unfolding evaluate_rules counted
  evaluate_rules-reads read i [] s h = refl
  evaluate_rules-reads read i (rule ∷ rules) s h =
      evaluate_rules-cons (λ key rule s. some (read now key s + 1, s)) 1 scope subject now i _ rule
        rules s s s _
        (ap (λ n. some (n, s))
          (omega (arith, counts.reads read h now (key_of scope subject now i rule) s)))
        (evaluate_rules-reads read (suc i) rules s h)
