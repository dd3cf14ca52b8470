-- ===== src/Stats.antt =====
-- Derived numbers of the dashboard (frontend/src/stats.ts).
pub mod Events
pub mod Price
pub mod Buckets
pub mod Series
pub mod Labels
pub mod Percentile
pub mod Days
pub mod PerModel
mod Tests
