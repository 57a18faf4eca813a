-- ===== src/Commit/Hard.antt =====
-- src/internal/commit.rs, src/internal/read_log.rs, swym-htm/src/lib.rs: the commit in hardware, and
-- the choice between the two. The processor is a parameter: the codes of the attempts that it ends.
pub mod Laws
pub mod Cells
pub mod Whole
use swym.Shared.{
  ℕ, ◌+◌, Bool, true, false, not, Option, none, some, List, [], ◌∷◌, ◌==◌, if◌then◌else◌, ◌&&◌,
  ◌||◌, ltb, leb,
}
use swym.Epoch.Word.{QuiesceEpoch, next_epoch}
use swym.Epoch.Lock.{ParkStatus, no_parked, merge, try_lock_htm}
use swym.Epoch.Clock.{fetch_and_tick}
use swym.Memory.{Memory, store_epoch}
use swym.ReadLog
use swym.ReadLog.{valid_at}
use swym.WriteLog
use swym.WriteLog.Entries.{WriteEntry, word_len, epoch_locks}
use swym.Gc.Quiesce.{Visit}
use swym.Gc.Garbage
use swym.Logs.{Logs}
use swym.Commit.{World, Outcome, perform_write, publish, failure, sealed_outcome, commit_soft}

-- `validate_reads_htm`, from the last read to the first: `some false` is the abort of the hardware
-- transaction, and `none` the unreachable case of a read that was filtered out.
abbrev pub validate_step : Option ℕ → QuiesceEpoch → Memory → Option Bool → Option Bool
validate_step o e m none = none
validate_step o e m (some false) = some false
validate_step none e m (some true) = none
validate_step (some k) e m (some true) = some (valid_at e m k)

unfoldable pub validate_reads_htm : QuiesceEpoch → Memory → List (Option ℕ) → Option Bool
validate_reads_htm e m [] = some true
validate_reads_htm e m (o ∷ os) = validate_step o e m (validate_reads_htm e m os)

-- `WriteEntry::try_lock_htm`, with the memory after it; `none` is the abort.
abbrev pub locked_htm : ℕ → Memory → Option (ParkStatus × ℕ) → Option (ParkStatus × Memory)
locked_htm k m none = none
locked_htm k m (some (cur, w)) = some (cur, store_epoch k w m)

abbrev pub entry_lock_htm : Option ℕ → QuiesceEpoch → Memory → Option (ParkStatus × Memory)
entry_lock_htm none e m = some (no_parked, m)
entry_lock_htm (some k) e m = locked_htm k m (try_lock_htm e (m k).current_epoch)

abbrev pub after_entry :
    Option (ParkStatus × Memory)
    → ParkStatus
    → (ParkStatus → Memory → Option (ParkStatus × Memory))
    → Option (ParkStatus × Memory)
after_entry none status rest = none
after_entry (some (cur, m)) status rest = rest (merge status cur) m

-- `write_and_lock_htm`
unfoldable pub write_and_lock_htm :
    QuiesceEpoch → List WriteEntry → ParkStatus → Memory → Option (ParkStatus × Memory)
write_and_lock_htm e [] status m = some (status, m)
write_and_lock_htm e (w ∷ ws) status m =
    after_entry (entry_lock_htm w.dest e (perform_write w.dest w.pending m)) status
      (λ s m'. write_and_lock_htm e ws s m')

-- What follows the hardware transaction, once it has committed.
unfoldable pub after_htx : List Visit → ParkStatus → Memory → World → Logs → Option Outcome
after_htx visits status m world logs =
    let (sync_epoch, clock) = fetch_and_tick world.clock in
    let published = publish (epoch_locks logs.write_log.entries) (next_epoch sync_epoch) m in
    sealed_outcome (Garbage.seal_with_epoch visits sync_epoch logs.garbage)
      (record { memory = published; clock = clock }) logs status

-- An explicit abort leaves memory as it was, and ends in `AbortOrConflict`: the commit returns
-- false, and the transaction is dropped.
abbrev pub aborted : World → Logs → Option Outcome
aborted world logs = some (failure [] world logs)

abbrev pub after_writes : Option (ParkStatus × Memory) → List Visit → World → Logs → Option Outcome
after_writes none visits world logs = aborted world logs
after_writes (some (status, m)) visits world logs = after_htx visits status m world logs

abbrev pub after_validation :
    Option Bool → QuiesceEpoch → List Visit → World → Logs → Option Outcome
after_validation none e visits world logs = none
after_validation (some false) e visits world logs = aborted world logs
after_validation (some true) e visits world logs =
    after_writes (write_and_lock_htm e logs.write_log.entries no_parked world.memory) visits world
      logs

-- `commit_hard`, in an attempt that the processor does not end
unfoldable pub commit_hard : QuiesceEpoch → List Visit → World → Logs → Option Outcome
commit_hard e visits world logs =
    after_validation (validate_reads_htm e world.memory logs.read_log.entries) e visits world logs

-- `BeginCode`, by the tests that `bounded` makes.
pub record BeginCode : Type 0 where
  pub is_explicit_abort : Bool
  pub is_conflict : Bool
  pub is_retry : Bool

-- The result of `HardwareTx::bounded`.
pub data Bounded : Type 0 where
  started : Bounded
  software_fallback : Bounded
  abort_or_conflict : Bounded

abbrev pub max_htx_retries : ℕ
max_htx_retries = 3

-- `HardwareTx::bounded`, over the codes of the attempts that the processor ends before the first
-- one that it does not.
unfoldable pub bounded : ℕ → ℕ → List BeginCode → Bounded
bounded max_failures failure_count [] = Bounded.started
bounded max_failures failure_count (c ∷ codes) =
    let retried = bounded max_failures (failure_count + 1) codes in
    if c.is_explicit_abort || (c.is_conflict && not c.is_retry)
    then Bounded.abort_or_conflict
    else if c.is_retry && ltb failure_count max_failures
    then retried
    else Bounded.software_fallback

-- `start_htx`
unfoldable pub start_htx : Bool → List BeginCode → Logs → Bounded
start_htx supported codes logs =
    if supported && leb 9 (word_len logs.write_log.entries)
    then bounded max_htx_retries 0 codes
    else Bounded.software_fallback

abbrev pub commit_started : Bounded → QuiesceEpoch → List Visit → World → Logs → Option Outcome
commit_started Bounded.started e visits world logs = commit_hard e visits world logs
commit_started Bounded.software_fallback e visits world logs = commit_soft e visits world logs
commit_started Bounded.abort_or_conflict e visits world logs = aborted world logs

-- `commit_slow`
unfoldable pub commit_slow :
    Bool → List BeginCode → QuiesceEpoch → List Visit → World → Logs → Option Outcome
commit_slow supported codes e visits world logs =
    commit_started (start_htx supported codes logs) e visits world logs

-- `commit_empty_write_log`
unfoldable pub commit_empty_write_log : World → Logs → Outcome
commit_empty_write_log world logs = record {
  success = true;
  world = world;
  logs = record logs { read_log = ReadLog.clear logs.read_log };
  dropped = [];
  unparks = false;
}

-- `commit`
unfoldable pub commit :
    Bool → List BeginCode → QuiesceEpoch → List Visit → World → Logs → Option Outcome
commit supported codes e visits world logs =
    if not (WriteLog.is_empty logs.write_log)
    then commit_slow supported codes e visits world logs
    else some (commit_empty_write_log world logs)
