-- ===== src/Protocol.antt =====
-- src/internal/commit.rs, src/internal/thread.rs: many threads over the same cells and the same
-- clock. Each step of a commit in software is one atomic operation, and the steps of the threads
-- are interleaved in any order.
pub mod Invariant
pub mod Snapshot
pub mod Reads
use swym.Shared.{ℕ, ◌≡◌, ◌≢◌, ◌<◌, Option, none, some, List, update}
use swym.Epoch.Word.{QuiesceEpoch, lock_bit, next_epoch}
use swym.Epoch.Lock
use swym.Epoch.Lock.{ParkStatus, try_lock}
use swym.Epoch.Clock
use swym.Epoch.Clock.{now, fetch_and_tick}
use swym.Memory.{Memory, store_epoch, store_value}

-- Where a thread stands: outside of a commit; taking locks for its pinned epoch, or giving them
-- back; writing; or publishing, with the epoch that its tick returned.
pub data Phase : Type 0 where
  idle : Phase
  locking : QuiesceEpoch → Phase
  writing : Phase
  publishing : QuiesceEpoch → Phase

-- The cells, the clock, the thread that holds the lock of each cell, and where each thread stands.
pub record Machine : Type 0 where
  pub memory : Memory
  pub clock : ℕ
  pub held : ℕ → Option ℕ
  pub phase : ℕ → Phase

abbrev pub word : Machine → ℕ → ℕ
word s k = (s.memory k).current_epoch

abbrev pub to_phase : Machine → ℕ → Phase → Machine
to_phase s t p = record s { phase = update s.phase t p }

abbrev pub with_lock : Machine → ℕ → ℕ → Option ℕ → Machine
with_lock s k w o = record s { memory = store_epoch k w s.memory; held = update s.held k o }

-- One atomic operation of one thread. The loops over the locks are left in any order; the last loop
-- of each path runs until the thread holds no lock.
pub data Step (s : Machine) : Machine → Type 0 where
  -- The thread pins the clock's epoch, and will commit at it.
  pin :
      (t : ℕ) (p : QuiesceEpoch)
      → s.phase t ≡ Phase.idle
      → now s.clock ≡ some p
      → Step s (to_phase s t (Phase.locking p))
  -- `try_lock` of a written cell
  lock :
      (t : ℕ) (p : QuiesceEpoch) (k w : ℕ) (status : ParkStatus)
      → s.phase t ≡ Phase.locking p
      → try_lock p (word s k) ≡ (some status, w)
      → Step s (with_lock s k w (some t))
  -- `unlock_undo` of a cell, after a lock or the validation failed
  undo :
      (t : ℕ) (p : QuiesceEpoch) (k : ℕ)
      → s.phase t ≡ Phase.locking p
      → s.held k ≡ some t
      → Step s (with_lock s k (Lock.unlock_undo (word s k)) none)
  -- The commit failed, and every lock is given back.
  fail :
      (t : ℕ) (p : QuiesceEpoch)
      → s.phase t ≡ Phase.locking p
      → ((k : ℕ) → s.held k ≢ some t)
      → Step s (to_phase s t Phase.idle)
  -- The validation succeeded.
  validate :
      (t : ℕ) (p : QuiesceEpoch) → s.phase t ≡ Phase.locking p → Step s (to_phase s t Phase.writing)
  -- `perform_write` of a locked cell
  write :
      (t k : ℕ) (v : List ℕ)
      → s.phase t ≡ Phase.writing
      → s.held k ≡ some t
      → Step s (record s { memory = store_value k v s.memory })
  -- `fetch_and_tick`, on a clock that has not run out
  tick :
      (t : ℕ) (sync : QuiesceEpoch) (clock : ℕ)
      → s.phase t ≡ Phase.writing
      → fetch_and_tick s.clock ≡ (sync, clock)
      → clock < lock_bit
      → Step s (record s { clock = clock; phase = update s.phase t (Phase.publishing sync) })
  -- `unlock_publish` of a cell
  release :
      (t : ℕ) (sync : QuiesceEpoch) (k : ℕ)
      → s.phase t ≡ Phase.publishing sync
      → s.held k ≡ some t
      → Step s (with_lock s k (Lock.unlock_publish (next_epoch sync) (word s k)) none)
  -- The commit succeeded, and every cell is published.
  leave :
      (t : ℕ) (sync : QuiesceEpoch)
      → s.phase t ≡ Phase.publishing sync
      → ((k : ℕ) → s.held k ≢ some t)
      → Step s (to_phase s t Phase.idle)

-- Any number of steps.
pub data Steps (s : Machine) : Machine → Type 0 where
  stay : Steps s s
  next : {u v : Machine} → Steps s u → Step u v → Steps s v

-- No thread in a commit, and every cell free at the first epoch.
abbrev pub start : (ℕ → List ℕ) → Machine
start values = record {
  memory = λ k. record { value = values k; current_epoch = Lock.first };
  clock = Clock.new_clock;
  held = λ k. none;
  phase = λ t. Phase.idle;
}
