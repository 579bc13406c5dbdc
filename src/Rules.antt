-- ===== src/Rules.antt =====
-- internal/repository/rule.go, pkg/engine/cache.go and the loading of rules in
-- pkg/engine/engine.go: the tables, the cache, and the evaluation of an application's rules.
pub mod Store
pub mod Repository
pub mod Cache
pub mod Service
pub mod Fresh
pub mod Priority
