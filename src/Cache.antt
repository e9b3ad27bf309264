-- ===== src/Cache.antt =====
-- The group-plan cache of go/internal/engine/bounded_cache.go.
pub mod Ring
pub mod Window
pub mod Queue
pub mod Refinement
pub mod Runs
