-- ===== src/Epoch.antt =====
-- src/internal/epoch.rs: the words that order transactions, on a 64-bit platform.
pub mod Word
pub mod Lock
pub mod Clock
