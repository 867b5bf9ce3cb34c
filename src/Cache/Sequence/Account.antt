-- ===== src/Cache/Sequence/Account.antt =====
-- What the page table's operations must keep in balance: the identifiers of each rank, and the
-- references to each page (crates/glm-cache/src/sequence.rs).
pub mod Maps
pub mod Step
pub mod Pages
pub mod Allocate
pub mod Release
pub mod Listed
pub mod Attached
pub mod Grown
pub mod Settled
