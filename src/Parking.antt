-- ===== src/Parking.antt =====
-- src/internal/parking.rs: threads that sleep until a cell that they have read changes.
-- The queue of parked threads is the parking_lot library's, which calls `try_clear_unpark_bits`
-- before a thread sleeps and `should_unpark` for each thread that does.
pub mod Bits
pub mod Wakeup
use swym.Shared.{
  ℕ, Bool, true, false, not, Option, none, some, List, [], ◌∷◌, ◌++◌, length, leb, if◌then◌else◌,
  ◌&&◌, ◌||◌,
}
use swym.Epoch.Word.{QuiesceEpoch}
use swym.Epoch.Lock.{
  ParkStatus, no_parked, has_parked, try_clear_unpark_bit, clear_unpark_bit_htm, set_unpark_bit,
}
use swym.Memory.{Memory, store_epoch}
use swym.ReadLog
use swym.ReadLog.{all_valid}
use swym.WriteLog.Entries
use swym.Logs.{Logs}
use swym.Commit.Hard.{Bounded, BeginCode, bounded}

-- read_log.epoch_locks().chain(write_log.epoch_locks())
unfoldable pub logged : Logs → List ℕ
logged logs =
    ReadLog.epoch_locks logs.read_log.entries ++ Entries.epoch_locks logs.write_log.entries

-- The loop of `try_clear_unpark_bits` in software: whether it reached the end, the statuses that it
-- pushed, and the memory.
pub record Cleared : Type 0 where
  pub all : Bool
  pub park_statuses : List ParkStatus
  pub memory : Memory

abbrev pub clear_step : Option ParkStatus × ℕ → ℕ → Memory → (Memory → Cleared) → Cleared
clear_step (none, w) k m rest = record { all = false; park_statuses = []; memory = m }
clear_step (some status, w) k m rest =
    let r = rest (store_epoch k w m) in
    record { all = r.all; park_statuses = status ∷ r.park_statuses; memory = r.memory }

unfoldable pub clear_all : QuiesceEpoch → List ℕ → Memory → Cleared
clear_all e [] m = record { all = true; park_statuses = []; memory = m }
clear_all e (k ∷ ks) m =
    clear_step (try_clear_unpark_bit e (m k).current_epoch) k m (λ m'. clear_all e ks m')

-- `park_failure_cleanup`
abbrev pub cleanup_step : ParkStatus → ℕ → Memory → Memory
cleanup_step no_parked k m = store_epoch k (set_unpark_bit (m k).current_epoch) m
cleanup_step has_parked k m = m

unfoldable pub park_failure_cleanup : List ℕ → List ParkStatus → Memory → Memory
park_failure_cleanup [] statuses m = m
park_failure_cleanup (k ∷ ks) [] m = m
park_failure_cleanup (k ∷ ks) (status ∷ statuses) m =
    park_failure_cleanup ks statuses (cleanup_step status k m)

unfoldable pub clear_soft : QuiesceEpoch → List ℕ → Memory → Bool × Memory
clear_soft e ks m =
    let r = clear_all e ks m in
    if r.all then (true, r.memory) else (false, park_failure_cleanup ks r.park_statuses r.memory)

-- The loop in hardware; `none` is the abort.
abbrev pub clear_htm_step : Option ℕ → ℕ → Memory → (Memory → Option Memory) → Option Memory
clear_htm_step none k m rest = none
clear_htm_step (some w) k m rest = rest (store_epoch k w m)

unfoldable pub clear_all_htm : QuiesceEpoch → List ℕ → Memory → Option Memory
clear_all_htm e [] m = some m
clear_all_htm e (k ∷ ks) m =
    clear_htm_step (clear_unpark_bit_htm e (m k).current_epoch) k m (λ m'. clear_all_htm e ks m')

abbrev pub max_park_retries : ℕ
max_park_retries = 10

-- `begin_htx_park`
unfoldable pub begin_htx_park : Bool → List BeginCode → Logs → Bounded
begin_htx_park supported codes logs =
    if supported && leb 3 (length logs.read_log.entries)
    then bounded max_park_retries 0 codes
    else Bounded.software_fallback

abbrev pub after_htm : Option Memory → Memory → Bool × Memory
after_htm none m = (false, m)
after_htm (some m') m = (true, m')

abbrev pub clear_started : Bounded → QuiesceEpoch → List ℕ → Memory → Bool × Memory
clear_started Bounded.started e ks m = after_htm (clear_all_htm e ks m) m
clear_started Bounded.software_fallback e ks m = clear_soft e ks m
clear_started Bounded.abort_or_conflict e ks m = (false, m)

-- `try_clear_unpark_bits`
unfoldable pub try_clear_unpark_bits :
    Bool → List BeginCode → QuiesceEpoch → Logs → Memory → Bool × Memory
try_clear_unpark_bits supported codes e logs m =
    clear_started (begin_htx_park supported codes logs) e (logged logs) m

-- `should_unpark`, for the logs and the pinned epoch of a thread that sleeps: whether it is woken.
unfoldable pub should_unpark : QuiesceEpoch → Logs → Memory → Bool
should_unpark e logs m =
    not (ReadLog.validate_reads e m logs.read_log)
    || not (all_valid e m (Entries.epoch_locks logs.write_log.entries))
