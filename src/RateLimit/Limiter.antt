-- ===== src/RateLimit/Limiter.antt =====
-- packages/auth/src/rate-limit/rate-limiter.ts: `RateLimiter`. A key is the record of its four
-- components: the text that the code joins them to, with the scope and the subject URI-encoded so
-- that neither holds a `:`, tells the same keys apart. One reading of the clock serves a call, the
-- store's readings included. An error thrown, or a store that does not answer, is `none`.
pub mod Governing
pub mod Counted
pub mod Decides
pub mod Memory
mod Tests
use aoothjs.Base.{
  ℕ, zero, suc, ◌+◌, ◌-◌, ◌*◌, ◌/◌, ◌≡◌, ◌↔◌, Bool, true, false, not, ◌&&◌, Option, none, some,
  List, [], ◌∷◌, arith, ltb, nat_beq, filter, Text, text_eq, text_beq, text_beq_iff, Eq,
  if◌then◌else◌,
}
use aoothjs.RateLimit.Rules.{RateLimitRule, RateLimitRuleInput}
use aoothjs.RateLimit.Rules.Parse.{parse_rate_limit_rule}
use aoothjs.RateLimit.Rules.Render.{
  RateLimitParams, default_rate_limit_message, rate_limit_params, render_rate_limit_message,
}

-- `Array.prototype.reduce` without an initial value, which throws on an empty array
unfoldable pub reduce_from : {A : Type 0} → (A → A → A) → A → List A → A
reduce_from f a [] = a
reduce_from f a (b ∷ bs) = reduce_from f (f a b) bs

module _ {A : Type 0} (reset_at remaining : A → ℕ) where
  abbrev pub later : A → A → A
  later a b = if ltb (reset_at a) (reset_at b) then b else a

  abbrev pub fewer : A → A → A
  fewer a b = if ltb (remaining b) (remaining a) then b else a

  unfoldable pub pick_governing : List A → (A → Bool) → Option A
  unfolding reduce_from
  pick_governing items rejected = elim (filter rejected items) [
    | x ∷ xs ↦ some (reduce_from later x xs)
    | [] ↦ elim items [ [] ↦ none | y ∷ ys ↦ some (reduce_from fewer y ys) ]
  ]

pub record Key : Type 0 where
  pub scope : Text
  pub subject : Text
  pub index : ℕ
  pub window_start : ℕ

abbrev pub key_beq : Key → Key → Bool
key_beq a b =
    text_beq a.scope b.scope
    && text_beq a.subject b.subject
    && nat_beq a.index b.index
    && nat_beq a.window_start b.window_start

pub key_beq_iff : (a b : Key) → (key_beq a b ≡ true) ↔ (a ≡ b)
key_beq_iff a b = ground (arith, text_beq_iff a.scope b.scope, text_beq_iff a.subject b.subject)

instance abbrev pub key_eq : Eq Key
key_eq = record { equal = key_beq; equal_iff = key_beq_iff }

-- `RateLimitStore`: `read` is the optional `get`
pub record RateLimitStore (T : Type 0) : Type 0 where
  pub hit : ℕ → Key → ℕ → T → Option (ℕ × T)
  pub read : Option (ℕ → Key → T → ℕ)

-- one rule of a check, evaluated
pub record Evaluated : Type 0 where
  pub rule : RateLimitRule
  pub remaining : ℕ
  pub reset_at : ℕ
  pub violated : Bool

pub record Rejection : Type 0 where
  pub retry_after_ms : ℕ
  pub policy : Text
  pub params : RateLimitParams
  pub message : Text

-- `RateLimitDecision`; the fields that are present when it is not allowed are the rejection
pub record RateLimitDecision : Type 0 where
  pub allowed : Bool
  pub limit : ℕ
  pub remaining : ℕ
  pub reset_at : ℕ
  pub reset_after_ms : ℕ
  pub policies : List RateLimitRule
  pub rejection : Option Rejection

unfoldable pub window_start : ℕ → RateLimitRule → ℕ
window_start now rule = now / rule.window * rule.window

unfoldable pub key_of : Text → Text → ℕ → ℕ → RateLimitRule → Key
unfolding window_start
key_of scope subject now i rule = record {
  scope = scope;
  subject = subject;
  index = i;
  window_start = window_start now rule;
}

-- what is known of a rule whose count is `n`
unfoldable pub evaluated : ℕ → ℕ → RateLimitRule → ℕ → Evaluated
unfolding window_start
evaluated offset now rule n = record {
  rule = rule;
  remaining = (rule.limit + offset) - n;
  reset_at = window_start now rule + rule.window;
  violated = ltb rule.limit n;
}

-- `rules.map((r) => parseRateLimitRule(r))`
unfoldable pub parse_rules : List RateLimitRuleInput → Option (List RateLimitRule)
unfolding parse_rate_limit_rule
parse_rules [] = some []
parse_rules (input ∷ inputs) = elim (parse_rate_limit_rule input) [
  | none ↦ none
  | some rule ↦ elim (parse_rules inputs) [ none ↦ none | some rules ↦ some (rule ∷ rules) ]
]

-- the decision that the governing rule makes
unfoldable pub decision_by :
    Text → Option Text → ℕ → List RateLimitRule → Evaluated → RateLimitDecision
unfolding rate_limit_params render_rate_limit_message default_rate_limit_message
decision_by scope default_message now parsed governing =
    let reset_after_ms = governing.reset_at - now in
    record {
      allowed = not governing.violated;
      limit = governing.rule.limit;
      remaining = governing.remaining;
      reset_at = governing.reset_at;
      reset_after_ms = reset_after_ms;
      policies = parsed;
      rejection =
          if governing.violated
          then some (record {
            retry_after_ms = reset_after_ms;
            policy = scope;
            params = rate_limit_params governing.rule reset_after_ms;
            message =
                render_rate_limit_message
                  (elim governing.rule.message [
                    | some message ↦ message
                    | none ↦ elim default_message [
                      | some message ↦ message
                      | none ↦ default_rate_limit_message
                    ]
                  ])
                  governing.rule reset_after_ms;
          })
          else none;
    }

unfoldable pub decide :
    Text → Option Text → ℕ → List RateLimitRule → List Evaluated → Option RateLimitDecision
unfolding pick_governing decision_by
decide scope default_message now parsed items =
    elim (pick_governing (λ e. e.reset_at) (λ e. e.remaining) items (λ e. e.violated)) [
      | none ↦ none
      | some governing ↦ some (decision_by scope default_message now parsed governing)
    ]

module _ {T : Type 0} where
  -- the rules from the i-th on, evaluated in their order
  unfoldable pub evaluate_rules :
      (Key → RateLimitRule → T → Option (ℕ × T))
      → ℕ
      → Text
      → Text
      → ℕ
      → ℕ
      → List RateLimitRule
      → T
      → Option (List Evaluated × T)
  unfolding key_of evaluated
  evaluate_rules count offset scope subject now i [] s = some ([], s)
  evaluate_rules count offset scope subject now i (rule ∷ rules) s =
      elim (count (key_of scope subject now i rule) rule s) [
        | none ↦ none
        | some (n, after) ↦
            elim (evaluate_rules count offset scope subject now (suc i) rules after) [
              | none ↦ none
              | some (items, last) ↦ some (evaluated offset now rule n ∷ items, last)
            ]
      ]

  unfoldable pub evaluate :
      (Key → RateLimitRule → T → Option (ℕ × T))
      → ℕ
      → Text
      → Text
      → Option Text
      → ℕ
      → List RateLimitRuleInput
      → T
      → Option (RateLimitDecision × T)
  unfolding evaluate_rules parse_rules decide
  evaluate count offset scope subject default_message now [] s = none
  evaluate count offset scope subject default_message now (rule ∷ rules) s =
      elim (parse_rules (rule ∷ rules)) [
        | none ↦ none
        | some parsed ↦ elim (evaluate_rules count offset scope subject now 0 parsed s) [
          | none ↦ none
          | some (items, after) ↦ elim (decide scope default_message now parsed items) [
            | none ↦ none
            | some decision ↦ some (decision, after)
          ]
        ]
      ]

  unfoldable pub check :
      RateLimitStore T
      → Text
      → Text
      → Option Text
      → ℕ
      → List RateLimitRuleInput
      → T
      → Option (RateLimitDecision × T)
  unfolding evaluate
  check store scope subject default_message now rules s =
      evaluate (λ key rule. store.hit now key (rule.window * 2)) 0 scope subject default_message now
        rules s

  unfoldable pub peek :
      RateLimitStore T
      → Text
      → Text
      → Option Text
      → ℕ
      → List RateLimitRuleInput
      → T
      → Option (RateLimitDecision × T)
  unfolding evaluate
  peek store scope subject default_message now rules s = elim store.read [
    | none ↦ none
    | some read ↦
        evaluate (λ key rule s. some (read now key s + 1, s)) 1 scope subject default_message now
          rules s
  ]
