-- ===== src/Cache.antt =====
-- The cache's page states, memory budget and speculative tail, the records of the tiers and the table of pages: crates/glm-cache/src.
pub mod Page
pub mod Budget
pub mod Mtp
pub mod Tier
pub mod Sequence
pub mod Prefix
