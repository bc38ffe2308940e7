-- ===== src/Arbac.antt =====
-- The role engine of packages/arbac-core/src: patterns, the types of roles and rules, and the
-- engine that compiles and evaluates them.
pub mod Pattern
pub mod Engine
