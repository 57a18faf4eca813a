-- ===== src/Commit/Atomic.antt =====
-- src/internal/commit.rs: a commit in software writes everything or nothing.
use swym.Shared.{
  ℕ, ◌<◌, ◌≤◌, ◌≡◌, true, false, Option, some, List, [], All, Distinct, refl, inl, inr, Bool-cases,
  ◌∙◌, map, length, ap,
}
use swym.Epoch.Word.{QuiesceEpoch, IsTime, next_epoch, max_value}
use swym.Epoch.Lock.{ParkStatus, no_parked}
use swym.Memory.{Memory}
use swym.ReadLog
use swym.ReadLog.{ReadLog, all_valid, valid_at}
use swym.ReadLog.Laws.{all_valid_iff}
use swym.WriteLog
use swym.WriteLog.{WriteLog}
use swym.WriteLog.Entries.{WriteEntry, epoch_locks}
use swym.WriteLog.Refine.{IsSynced, clear-IsSynced}
use swym.Gc.Quiesce.{Visit}
use swym.Gc.Quiesce.Laws.{Ends, IsWord}
use swym.Gc.Garbage
use swym.Gc.Garbage.{ThreadGarbage, Trash, latest}
use swym.Gc.Garbage.Balance.{IsBalanced}
use swym.Gc.Garbage.Seal.{Sealed, seal_with_epoch-Sealed}
use swym.Logs.{Logs, drop_pin_rw}
use swym.Commit.Locks.{LockLoop, locked, failed_at, lock_all, take_while_ne}
use swym.Commit.Loops.{IsLockable, status_of, LockAt, LockOutcome, lock_all-Outcome}
use swym.Commit.{
  World, Outcome, filter_reads, perform_writes, publish, failure, validation_success, after_locks,
  after_filter, commit_soft, is_parked,
}
use swym.Commit.Filter.{unwritten, Filtered, filter_reads-Filtered}
use swym.Commit.Cells.{
  CanCommit, IsReadable-LockAt, committed, publish-committed, All-at, undo-LockAt,
  Distinct-take_while_ne,
}

-- The logs are ready for the next transaction.
pub record IsCleared (logs : Logs) : Type 0 where
  pub no_reads : logs.read_log.entries ≡ []
  pub no_writes : logs.write_log.entries ≡ []
  pub synced : IsSynced logs.write_log
  pub no_trash : logs.garbage.speculative_bag.queued ≡ []

-- A transaction that is dropped leaves its logs ready.
pub drop_pin_rw-IsCleared : (logs : Logs) → IsSynced logs.write_log → IsCleared (drop_pin_rw logs)
unfolding drop_pin_rw Garbage.abort_speculative_garbage
drop_pin_rw-IsCleared logs s =
    let (synced, empty) = clear-IsSynced logs.write_log s in
    record { no_reads = refl; no_writes = empty; synced = synced; no_trash = refl }

-- How a commit may end.
pub data Committed (e : QuiesceEpoch) (world : World) (logs : Logs) (ks : List ℕ) (o : Outcome)
    : Type 0 where
  -- Every written cell holds its pending value at the epoch after the clock's, no other cell is
  -- changed, the clock has ticked, and parked threads are looked at if some written cell has any.
  success :
      CanCommit e world.memory logs.write_log.entries ks
      → o.success ≡ true
      → ((j : ℕ)
          → o.world.memory j
            ≡ committed (next_epoch world.clock) logs.write_log.entries world.memory j)
      → o.world.clock ≡ next_epoch world.clock
      → o.unparks
        ≡ is_parked (status_of (epoch_locks logs.write_log.entries) world.memory no_parked)
      → Sealed logs.garbage o.logs.garbage o.dropped
      → IsCleared o.logs
      → Committed e world logs ks o
  -- No cell is changed, and the clock has not ticked.
  failed :
      ¬ CanCommit e world.memory logs.write_log.entries ks
      → o.success ≡ false
      → ((j : ℕ) → o.world.memory j ≡ world.memory j)
      → o.world.clock ≡ world.clock
      → o.dropped ≡ []
      → IsCleared o.logs
      → o.logs.garbage ≡ Garbage.abort_speculative_garbage logs.garbage
      → Committed e world logs ks o

module _ (e : QuiesceEpoch) (visits : List Visit) (world : World) (logs : Logs) (ks : List ℕ)
    (time : IsTime e) (synced : IsSynced logs.write_log) (balanced : IsBalanced logs.garbage)
    (room : length logs.garbage.sealed_bags < 63)
    (later : latest 0 logs.garbage.sealed_bags ≤ world.clock) (small : world.clock < max_value)
    (words : All IsWord visits)
    (ends : (x : QuiesceEpoch) → x ≤ world.clock → All (Ends x) visits) where
  abbrev es : List WriteEntry
  es = logs.write_log.entries

  -- The outcome of a commit that went through with the locks held in `m'`.
  abbrev succeeded : Memory → ParkStatus → Logs → ThreadGarbage → List Trash → Outcome
  succeeded m' status logs' g dropped = record {
    success = true;
    world = record {
      memory =
          publish (epoch_locks logs'.write_log.entries) (next_epoch world.clock)
            (perform_writes logs'.write_log.entries m');
      clock = next_epoch world.clock;
    };
    logs = record {
      read_log = ReadLog.clear logs'.read_log;
      write_log = WriteLog.clear logs'.write_log;
      garbage = g;
    };
    dropped = dropped;
    unparks = is_parked status;
  }

  validation_success-Committed :
      (m' : Memory) (status : ParkStatus) (logs' : Logs)
      → logs'.write_log.entries ≡ logs.write_log.entries
      → logs'.garbage ≡ logs.garbage
      → IsSynced logs'.write_log
      → CanCommit e world.memory logs.write_log.entries ks
      → LockAt (epoch_locks logs.write_log.entries) world.memory m'
      → status ≡ status_of (epoch_locks logs.write_log.entries) world.memory no_parked
      → (o : Outcome) × (validation_success visits status (record world { memory = m' }) logs'
          ≡ some o)
        × Committed e world logs ks o
  unfolding validation_success
  validation_success-Committed m' status logs' same kept s can l st =
      let (g, dropped, run, sealed) =
        seal_with_epoch-Sealed visits world.clock logs.garbage balanced later small words ends
          room in
      (
        succeeded m' status logs' g dropped,
        rw (kept, run),
        success can refl
            (λ j. rw same (
              publish-committed (next_epoch world.clock) logs.write_log.entries world.memory m' j
                synced.distinct l))
            refl (ap is_parked st) sealed
            (let (cleared, empty) = clear-IsSynced logs'.write_log s in
              record {
                no_reads = refl;
                no_writes = empty;
                synced = cleared;
                no_trash = sealed.fresh;
              }),
      )

  failure-Committed :
      (m' : Memory) (held held' : List ℕ) (logs' : Logs)
      → held' ≡ held
      → logs'.garbage ≡ logs.garbage
      → IsSynced logs'.write_log
      → ¬ CanCommit e world.memory logs.write_log.entries ks
      → Distinct held
      → All (IsLockable e world.memory) held
      → LockAt held world.memory m'
      → Committed e world logs ks (failure held' (record world { memory = m' }) logs')
  unfolding failure drop_pin_rw
  failure-Committed m' held held' logs' q kept s cannot d a l =
      failed cannot refl (λ j. rw q (undo-LockAt e held world.memory m' j time d a l)) refl refl
        (drop_pin_rw-IsCleared logs' s) (ap Garbage.abort_speculative_garbage kept)

  after_locks-Committed :
      (r : LockLoop × Memory) (logs' : Logs)
      → logs'.write_log.entries ≡ logs.write_log.entries
      → logs'.garbage ≡ logs.garbage
      → IsSynced logs'.write_log
      → ReadLog.epoch_locks logs'.read_log.entries ≡ unwritten logs.write_log.entries ks
      → LockOutcome e (epoch_locks logs.write_log.entries) no_parked world.memory r
      → (o : Outcome) × (after_locks r e visits world logs' ≡ some o) × Committed e world logs ks o
  after_locks-Committed (failed_at k, m') logs' same kept s reads (a, l, within, refused) = (
    failure (take_while_ne k (epoch_locks logs'.write_log.entries)) (record world { memory = m' })
        logs',
    refl,
    failure-Committed m' (take_while_ne k (epoch_locks logs.write_log.entries))
        (take_while_ne k (epoch_locks logs'.write_log.entries)) logs'
        (ap (λ x. take_while_ne k (epoch_locks x)) same) kept s
        (λ can. refused (All-at e world.memory k _ can.lockable within))
        (Distinct-take_while_ne k _ synced.distinct) a l,
  )
  after_locks-Committed (locked status, m') logs' same kept s reads (a, l, st) =
      let readable = all_valid_iff e m' (unwritten logs.write_log.entries ks) in
      let moved = IsReadable-LockAt e logs.write_log.entries ks world.memory m' l in
      elim (Bool-cases (ReadLog.validate_reads e m' logs'.read_log)) [
        | inl valid ↦ rw valid (
            validation_success-Committed m' status logs' same kept s
              (record { lockable = a; readable = moved.1 (readable.0 (rw reads at valid)) }) l st)
        | inr stale ↦ (
          failure (epoch_locks logs'.write_log.entries) (record world { memory = m' }) logs',
          rw stale,
          failure-Committed m' (epoch_locks logs.write_log.entries)
              (epoch_locks logs'.write_log.entries) logs' (ap epoch_locks same) kept s
              (λ can.
                let valid : all_valid e m' (unwritten logs.write_log.entries ks) ≡ true =
                  readable.1 (moved.0 can.readable) in
                let v : all_valid e m' (unwritten logs.write_log.entries ks) ≡ false =
                  rw reads at stale in
                absurd (cc))
              synced.distinct a l,
        )
      ]

  lock_all-same :
      (es' : List WriteEntry)
      → es' ≡ logs.write_log.entries
      → LockOutcome e
          (epoch_locks logs.write_log.entries)
          no_parked
          world.memory
          (lock_all e (epoch_locks es') no_parked world.memory)
  lock_all-same es' q = rw q (
      lock_all-Outcome e (epoch_locks logs.write_log.entries) no_parked world.memory time
        synced.distinct)

  after_filter-Committed :
      (f : Option (List (Option ℕ) × WriteLog)) (r : List (Option ℕ) × WriteLog)
      → f ≡ some r
      → Filtered ks logs.write_log r
      → (o : Outcome) × (after_filter f e visits world logs ≡ some o) × Committed e world logs ks o
  after_filter-Committed f (os, w) run done = rw run (
      after_locks-Committed (lock_all e (epoch_locks w.entries) no_parked world.memory)
        (record logs { read_log = record logs.read_log { entries = os }; write_log = w }) done.same
        refl done.synced done.kept (lock_all-same w.entries done.same))

  -- A commit in software ends. It succeeds exactly if every written cell is free and no later than
  -- the pinned epoch and every other cell that was read is no later than it either; then all
  -- pending writes are in memory at the epoch after the clock's and no other cell is changed.
  -- Otherwise memory and the clock are as they were. Either way the logs are ready for the next
  -- transaction. Conditions: the filter and the hash map of the write log agree with its entries,
  -- which may fail once a write has returned SetError and the transaction has gone on; no read in
  -- the read log has been struck out; the sealed bags are in order, with room for another, and none
  -- is later than the clock; the pinned epoch has no lock bit and the clock can still go forward;
  -- the epochs of the other threads are words, and the waits of the garbage collection for them
  -- end.
  pub commit_soft-Committed :
      logs.read_log.entries ≡ map some ks
      → (o : Outcome) × (commit_soft e visits world logs ≡ some o) × Committed e world logs ks o
  unfolding commit_soft
  commit_soft-Committed q =
      let (r, run, done) = filter_reads-Filtered ks logs.write_log synced in
      after_filter-Committed (filter_reads logs.read_log.entries logs.write_log) r
        (ap (λ x. filter_reads x logs.write_log) q ∙ run) done
