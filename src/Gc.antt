-- ===== src/Gc.antt =====
-- src/internal/gc: epoch-based reclamation of the values that transactions replace.
pub mod Quiesce
pub mod SynchList
pub mod Garbage
