-- ===== src/Engine.antt =====
-- The engine crate's plans and captured graphs (crates/glm-engine/src).
pub mod Graph
pub mod Collective
pub mod Step
pub mod Admit
