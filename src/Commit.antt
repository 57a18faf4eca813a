-- ===== src/Commit.antt =====
-- src/internal/commit.rs: the commit of a read-write transaction, in software and in hardware.
-- These definitions run with no other thread in between.
pub mod Locks
pub mod Loops
pub mod Filter
pub mod Cells
pub mod Atomic
pub mod Hard
use swym.Shared.{
  ℕ, ◌+◌, Bool, true, false, not, Option, none, some, List, [], ◌∷◌, ◌==◌, if◌then◌else◌, leb, ◌&&◌,
}
use swym.Epoch.Word.{QuiesceEpoch, next_epoch}
use swym.Epoch.Lock
use swym.Epoch.Lock.{ParkStatus, no_parked, has_parked, merge}
use swym.Epoch.Clock.{fetch_and_tick}
use swym.Memory.{TCell, Memory, store_epoch, store_value}
use swym.ReadLog
use swym.ReadLog.{ReadLog, all_valid, valid_at}
use swym.WriteLog
use swym.WriteLog.{WriteLog}
use swym.WriteLog.Entries.{WriteEntry, word_len, epoch_locks}
use swym.Gc.Quiesce.{Visit}
use swym.Gc.Garbage
use swym.Gc.Garbage.{ThreadGarbage, Trash}
use swym.Logs.{Logs, drop_pin_rw}
use Locks.{LockLoop, locked, failed_at, lock_all, take_while_ne, for_each_lock}

-- What the transactions share: the cells and the clock.
pub record World : Type 0 where
  pub memory : Memory
  pub clock : ℕ

-- How a commit ends: whether it succeeded, the shared state and the logs after it, the trash that
-- was dropped, and whether parked threads are looked at.
pub record Outcome : Type 0 where
  pub success : Bool
  pub world : World
  pub logs : Logs
  pub dropped : List Trash
  pub unparks : Bool

abbrev pub is_found : Option WriteEntry → Bool
is_found none = false
is_found (some e) = true

-- The loop of `filter_in_place` under `remove_writes_from_reads`, over the reads and the write log
-- that the filter searches; `none` is the unreachable case of a read that was filtered before.
abbrev pub filter_step :
    Bool → ℕ → Option (List (Option ℕ) × WriteLog) → Option (List (Option ℕ) × WriteLog)
filter_step found k none = none
filter_step found k (some (os, w)) = some ((if found then none else some k) ∷ os, w)

unfoldable pub filter_reads : List (Option ℕ) → WriteLog → Option (List (Option ℕ) × WriteLog)
filter_reads [] w = some ([], w)
filter_reads (none ∷ os) w = none
filter_reads (some k ∷ os) w =
    let (found, w') = WriteLog.find k w in filter_step (is_found found) k (filter_reads os w')

-- `perform_write` on each entry: a tombstone writes nothing.
abbrev pub perform_write : Option ℕ → List ℕ → Memory → Memory
perform_write none v m = m
perform_write (some k) v m = store_value k v m

unfoldable pub perform_writes : List WriteEntry → Memory → Memory
perform_writes [] m = m
perform_writes (e ∷ es) m = perform_writes es (perform_write e.dest e.pending m)

-- `WriteLog::publish`
unfoldable pub publish : List ℕ → QuiesceEpoch → Memory → Memory
publish ks epoch m = for_each_lock (Lock.unlock_publish epoch) ks m

abbrev pub is_parked : ParkStatus → Bool
is_parked no_parked = false
is_parked has_parked = true

-- A commit that failed: the locks are given back and the logs are dropped.
unfoldable pub failure : List ℕ → World → Logs → Outcome
failure ks world logs = record {
  success = false;
  world = record world { memory = for_each_lock Lock.unlock_undo ks world.memory };
  logs = drop_pin_rw logs;
  dropped = [];
  unparks = false;
}

abbrev pub sealed_outcome :
    Option (ThreadGarbage × List Trash) → World → Logs → ParkStatus → Option Outcome
sealed_outcome none world logs status = none
sealed_outcome (some (g, dropped)) world logs status = some (record {
  success = true;
  world = world;
  logs = record {
    read_log = ReadLog.clear logs.read_log;
    write_log = WriteLog.clear logs.write_log;
    garbage = g;
  };
  dropped = dropped;
  unparks = is_parked status;
})

-- `validation_success`, from the writes on; `none` is a wait of the garbage collection that is not
-- over.
unfoldable pub validation_success : List Visit → ParkStatus → World → Logs → Option Outcome
validation_success visits status world logs =
    let written = perform_writes logs.write_log.entries world.memory in
    let (sync_epoch, clock) = fetch_and_tick world.clock in
    let published = publish (epoch_locks logs.write_log.entries) (next_epoch sync_epoch) written in
    sealed_outcome (Garbage.seal_with_epoch visits sync_epoch logs.garbage)
      (record { memory = published; clock = clock }) logs status

abbrev pub after_locks :
    LockLoop × Memory → QuiesceEpoch → List Visit → World → Logs → Option Outcome
after_locks (failed_at k, m) e visits world logs = some (
    failure (take_while_ne k (epoch_locks logs.write_log.entries)) (record world { memory = m })
      logs)
after_locks (locked status, m) e visits world logs =
    if ReadLog.validate_reads e m logs.read_log
    then validation_success visits status (record world { memory = m }) logs
    else some (failure (epoch_locks logs.write_log.entries) (record world { memory = m }) logs)

abbrev pub after_filter :
    Option (List (Option ℕ) × WriteLog) → QuiesceEpoch → List Visit → World → Logs → Option Outcome
after_filter none e visits world logs = none
after_filter (some (os, w)) e visits world logs =
    let reads = record logs.read_log { entries = os } in
    after_locks (lock_all e (epoch_locks w.entries) no_parked world.memory) e visits world
      (record logs { read_log = reads; write_log = w })

-- `commit_soft`, for the pinned epoch `e`
unfoldable pub commit_soft : QuiesceEpoch → List Visit → World → Logs → Option Outcome
commit_soft e visits world logs =
    after_filter (filter_reads logs.read_log.entries logs.write_log) e visits world logs
