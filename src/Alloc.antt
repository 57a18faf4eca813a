-- ===== src/Alloc.antt =====
-- src/internal/alloc: the vectors in which the logs and the garbage are kept.
pub mod FVec
pub mod DynVec
pub mod RoundTrip
pub mod Entries
