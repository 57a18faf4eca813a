-- ===== src/Memory.antt =====
-- src/tcell.rs, src/internal/tcell_erased.rs: the shared memory, a cell for each address.
-- A value is its words; the words of a cell's value and its lock lie in the cell itself, so a cell
-- is named by one address, that of its `TCellErased`.
use swym.Shared.{ℕ, List, update}
use swym.Epoch.Lock

pub record TCell : Type 0 where
  pub value : List ℕ
  pub current_epoch : ℕ

-- `TCell::new`
abbrev pub new_tcell : List ℕ → TCell
new_tcell v = record { value = v; current_epoch = Lock.first }

abbrev pub Memory : Type 0
Memory = ℕ → TCell

-- A store to the lock of a cell, and one to its value.
abbrev pub store_epoch : ℕ → ℕ → Memory → Memory
store_epoch k w m = update m k (record { value = (m k).value; current_epoch = w })

abbrev pub store_value : ℕ → List ℕ → Memory → Memory
store_value k v m = update m k (record { value = v; current_epoch = (m k).current_epoch })
