-- ===== src/Tests.antt =====
-- Runs of the definitions on concrete inputs, and the theorems applied there.
mod Sample
mod Words
mod Writing
mod Transactions
mod Collection
mod Interleaving
mod Hardware
mod Sleeping
mod Starving
mod Running
mod Vectors
mod Locals
mod Cells
mod Trees
