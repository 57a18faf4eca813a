-- ===== src/Rbtree.antt =====
-- swym-rbtree: an ordered map over the cells of a transaction, as a red-black tree.
pub mod Store
pub mod Find
pub mod Rotate
pub mod Insert
pub mod Remove
pub mod Verify
pub mod Map
pub mod Runs
pub mod Shape
