-- ===== src/Thread/Closure.antt =====
-- src/internal/thread.rs, src/rw.rs: the closure of a read-write transaction, as the calls that it
-- makes. The closure is the user's; what it does with the result of a call is a function.
use swym.Shared.{ℕ, List}
use swym.Epoch.Word.{QuiesceEpoch}
use swym.Logs.{Logs}
use swym.Rw.{Loads, Result, Growth, Write, borrow_impl, borrow_unlogged_impl, set_impl}

-- `Result<O, Status>`: a value, a conflict, or AWAIT_RETRY.
pub data Tried (O : Type 0) : Type 0 where
  succeeds : O → Tried O
  conflicts : Tried O
  awaits : Tried O

-- One run of the closure, with the memories that its loads find: logged reads, reads that are not
-- logged, and writes.
pub data Body (O : Type 0) : Type 0 where
  returns : Tried O → Body O
  borrows : ℕ → Loads → Growth → (Result (List ℕ) → Body O) → Body O
  borrows_unlogged : ℕ → Loads → (Result (List ℕ) → Body O) → Body O
  sets : ℕ → Write → Loads → Growth → (Result (Unit {0}) → Body O) → Body O

unfoldable pub run_body : {O : Type 0} → QuiesceEpoch → Body O → Logs → Tried O × Logs
run_body e (Body.returns r) logs = (r, logs)
run_body e (Body.borrows k m grow rest) logs =
    let (r, logs') = borrow_impl e k m grow logs in run_body e (rest r) logs'
run_body e (Body.borrows_unlogged k m rest) logs =
    let (r, logs') = borrow_unlogged_impl e k m logs in run_body e (rest r) logs'
run_body e (Body.sets k v m grow rest) logs =
    let (r, logs') = set_impl e k v m grow logs in run_body e (rest r) logs'
