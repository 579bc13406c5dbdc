-- ===== src/Engine.antt =====
-- pkg/engine: the rule engine. `Value` and `Outcome` are the data that it computes with,
-- `Expression` and `Parser` its conditions, `Evaluate` the decision over an application's rules.
pub mod Outcome
pub mod Value
pub mod Expression
pub mod Parser
pub mod Evaluate
pub mod Satisfies
pub mod Semantics
pub mod Documented
pub mod Decision
pub mod Operators
