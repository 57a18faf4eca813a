-- ===== src/Read.antt =====
-- src/read.rs: reads of a read-only transaction, which keeps no logs.
use swym.Shared.{ℕ, List, [], not, ◌==◌, if◌then◌else◌}
use swym.Epoch.Word.{QuiesceEpoch}
use swym.Memory.{Memory}
use swym.ReadLog.{valid_at}
use swym.Rw.{Result, ok, conflict}

-- `ReadTx::borrow`, for a type of `size` words: the value is loaded in one memory and the lock
-- checked in the next. A value of no words is read with no synchronization.
unfoldable pub borrow : QuiesceEpoch → ℕ → ℕ → Memory → Memory → Result (List ℕ)
borrow e k size loaded checked =
    if not (size == 0)
    then (if valid_at e checked k then ok (loaded k).value else conflict)
    else ok []
