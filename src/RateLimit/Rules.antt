-- ===== src/RateLimit/Rules.antt =====
-- packages/auth/src/rate-limit/rules.ts: the rules, their grammar, and durations as text. A text is
-- the list of its UTF-16 code units. Numbers are natural numbers below 2^53, where JavaScript's are
-- exact; a limit or window that is negative, fractional or infinite is not modelled.
pub mod Numbers
pub mod Duration
pub mod Shown
pub mod Parse
pub mod Accepted
pub mod Messages
pub mod Grammar
pub mod Render
mod Tests
use aoothjs.Base.{ℕ, Text, Option}

pub record RateLimitRule : Type 0 where
  pub limit : ℕ
  pub window : ℕ
  pub message : Option Text

-- `RateLimitRuleInput`: a text, an object whose window is a number, or one whose window is a text
pub data RateLimitRuleInput : Type 0 where
  text : Text → RateLimitRuleInput
  normalized : RateLimitRule → RateLimitRuleInput
  spelled : (limit : ℕ) → (window : Text) → (message : Option Text) → RateLimitRuleInput
