-- ===== src/Commit/Hard/Whole.antt =====
-- src/internal/commit.rs: what a commit does, whichever way it takes.
use swym.Shared.{
  ℕ, ◌<◌, ◌≤◌, ◌≡◌, ◌≢◌, Bool, true, false, Option, none, some, List, [], ◌∷◌, ◌==◌, All, arith,
  refl, inl, inr, Bool-cases, ◌∙◌, map, length, ap,
}
use swym.Epoch.Word.{QuiesceEpoch, IsTime, next_epoch, max_value}
use swym.Epoch.Lock.{ParkStatus, no_parked}
use swym.Memory.{Memory}
use swym.ReadLog
use swym.ReadLog.{all_valid}
use swym.ReadLog.Laws.{IsReadable, all_valid_iff}
use swym.WriteLog
use swym.WriteLog.Entries.{WriteEntry, word_len, epoch_locks}
use swym.WriteLog.Refine.{IsSynced, clear-IsSynced}
use swym.Gc.Quiesce.{Visit}
use swym.Gc.Quiesce.Laws.{Ends, IsWord}
use swym.Gc.Garbage.{ThreadGarbage, Trash, latest, abort_speculative_garbage}
use swym.Gc.Garbage.Balance.{IsBalanced}
use swym.Gc.Garbage.Seal.{seal_with_epoch-Sealed}
use swym.Logs.{Logs, drop_pin_rw}
use swym.Commit.Locks.{for_each_lock}
use swym.Commit.Cells.{CanCommit}
use swym.Commit.Atomic.{
  Committed, success, failed, IsCleared, drop_pin_rw-IsCleared, commit_soft-Committed,
}
use swym.Commit.Hard.{
  Bounded, BeginCode, validate_reads_htm, write_and_lock_htm, after_htx, aborted, after_writes,
  after_validation, commit_hard, bounded, start_htx, commit_started, commit_slow,
  commit_empty_write_log, commit,
}
use swym.Commit.Hard.Laws.{validate_reads_htm-all_valid, HtmOutcome, write_and_lock_htm-HtmOutcome}
use swym.Commit.{World, Outcome, publish, failure, is_parked}
use swym.Commit.Hard.Cells.{CanCommit-IsReadable, IsReadable-unwritten, publish-WrittenAt}

-- A commit that the hardware refused: no cell is changed, and the clock has not ticked.
pub record Refused (world : World) (logs : Logs) (o : Outcome) : Type 0 where
  pub fails : o.success ≡ false
  pub same : (j : ℕ) → o.world.memory j ≡ world.memory j
  pub same_clock : o.world.clock ≡ world.clock
  pub none_dropped : o.dropped ≡ []
  pub cleared : IsCleared o.logs
  pub bags : o.logs.garbage ≡ abort_speculative_garbage logs.garbage

failure-Refused :
    (world : World) (logs : Logs)
    → IsSynced logs.write_log
    → Refused world logs (failure [] world logs)
unfolding failure for_each_lock drop_pin_rw
failure-Refused world logs s = record {
  fails = refl;
  same = λ j. refl;
  same_clock = refl;
  none_dropped = refl;
  cleared = drop_pin_rw-IsCleared logs s;
  bags = refl;
}

-- How a commit may end.
pub data CommitEnd (e : QuiesceEpoch) (world : World) (logs : Logs) (ks : List ℕ)
    (codes : List BeginCode) (o : Outcome) : Type 0 where
  -- Nothing was written: no cell and no clock is changed.
  read_only :
      logs.write_log.entries ≡ []
      → o.success ≡ true
      → o.world ≡ world
      → o.logs.read_log.entries ≡ []
      → o.logs.write_log ≡ logs.write_log
      → o.logs.garbage ≡ logs.garbage
      → CommitEnd e world logs ks codes o
  decided :
      logs.write_log.entries ≢ [] → Committed e world logs ks o → CommitEnd e world logs ks codes o
  -- Only if the processor ended an attempt.
  refused :
      codes ≢ []
      → logs.write_log.entries ≢ []
      → Refused world logs o
      → CommitEnd e world logs ks codes o

module _ (e : QuiesceEpoch) (visits : List Visit) (world : World) (logs : Logs) (ks : List ℕ)
    (time : IsTime e) (synced : IsSynced logs.write_log) (balanced : IsBalanced logs.garbage)
    (room : length logs.garbage.sealed_bags < 63)
    (later : latest 0 logs.garbage.sealed_bags ≤ world.clock) (small : world.clock < max_value)
    (words : All IsWord visits)
    (ends : (x : QuiesceEpoch) → x ≤ world.clock → All (Ends x) visits) where
  aborted-Committed :
      ¬ CanCommit e world.memory logs.write_log.entries ks
      → (o : Outcome) × (aborted world logs ≡ some o) × Committed e world logs ks o
  aborted-Committed cannot =
      let r = failure-Refused world logs synced in
      (
        failure [] world logs,
        refl,
        failed cannot r.fails r.same r.same_clock r.none_dropped r.cleared r.bags,
      )

  -- The outcome of a commit that wrote the memory `m` in hardware.
  abbrev published : ParkStatus → Memory → ThreadGarbage → List Trash → Outcome
  published status m g dropped = record {
    success = true;
    world = record {
      memory = publish (epoch_locks logs.write_log.entries) (next_epoch world.clock) m;
      clock = next_epoch world.clock;
    };
    logs = record {
      read_log = ReadLog.clear logs.read_log;
      write_log = WriteLog.clear logs.write_log;
      garbage = g;
    };
    dropped = dropped;
    unparks = is_parked status;
  }

  after_writes-Committed :
      (r : Option (ParkStatus × Memory))
      → All (IsReadable e world.memory) ks
      → HtmOutcome e logs.write_log.entries no_parked world.memory r
      → (o : Outcome) × (after_writes r visits world logs ≡ some o) × Committed e world logs ks o
  after_writes-Committed none reads o = aborted-Committed (λ can. o can.lockable)
  after_writes-Committed (some (status, m)) reads (a, written, st) =
      let (g, dropped, run, sealed) =
        seal_with_epoch-Sealed visits world.clock logs.garbage balanced later small words ends
          room in
      let (cleared, empty) = clear-IsSynced logs.write_log synced in
      (
        published status m g dropped,
        unfold after_htx in rw run,
        success
            (record {
              lockable = a;
              readable = IsReadable-unwritten e world.memory logs.write_log.entries ks reads;
            })
            refl
            (λ j.
              publish-WrittenAt (next_epoch world.clock) logs.write_log.entries world.memory m j
                synced.distinct written)
            refl (ap is_parked st) sealed
            (record {
              no_reads = refl;
              no_writes = empty;
              synced = cleared;
              no_trash = sealed.fresh;
            }),
      )

  after_validation-Committed :
      (v : Option Bool)
      → v ≡ some (all_valid e world.memory ks)
      → (o : Outcome) × (after_validation v e visits world logs ≡ some o)
        × Committed e world logs ks o
  after_validation-Committed v q = elim (Bool-cases (all_valid e world.memory ks)) [
    | inl valid ↦
        let reads = (all_valid_iff e world.memory ks).0 valid in
        rw (q, valid)
          (after_writes-Committed
            (write_and_lock_htm e logs.write_log.entries no_parked world.memory) reads
            (write_and_lock_htm-HtmOutcome e logs.write_log.entries no_parked world.memory time
              synced.distinct))
    | inr stale ↦
        rw (q, stale)
          (aborted-Committed (λ can.
            let valid = (all_valid_iff e world.memory ks).1 (
              CanCommit-IsReadable e world.memory logs.write_log.entries ks can.lockable
                can.readable) in
            absurd (cc)))
  ]

  -- A commit in hardware, in an attempt that the processor does not end, is decided as one in
  -- software is: it succeeds exactly if every written cell is free and no later than the pinned
  -- epoch and every other cell that was read is no later than it either, and then all pending
  -- writes are in memory at the epoch after the clock's and no other cell is changed; otherwise
  -- memory and the clock are as they were. Either way the logs are ready for the next transaction.
  -- Conditions: the filter and the hash map of the write log agree with its entries, which may fail
  -- once a write has returned SetError and the transaction has gone on; no read in the read log has
  -- been struck out; the sealed bags are in order, with room for another, and none is later than
  -- the clock; the pinned epoch has no lock bit and the clock can still go forward; the epochs of
  -- the other threads are words, and the waits of the garbage collection for them end.
  pub commit_hard-Committed :
      logs.read_log.entries ≡ map some ks
      → (o : Outcome) × (commit_hard e visits world logs ≡ some o) × Committed e world logs ks o
  unfolding commit_hard
  commit_hard-Committed q =
      after_validation-Committed (validate_reads_htm e world.memory logs.read_log.entries) (
        ap (λ x. validate_reads_htm e world.memory x) q
        ∙ validate_reads_htm-all_valid e world.memory ks)

  start_htx-ended :
      (supported : Bool) (codes : List BeginCode)
      → start_htx supported codes logs ≡ Bounded.abort_or_conflict
      → codes ≢ []
  unfolding start_htx bounded
  start_htx-ended supported codes h none_ended =
      let h' : start_htx supported [] logs ≡ Bounded.abort_or_conflict = rw none_ended at h in
      ground arith

  commit_started-CommitEnd :
      (supported : Bool) (codes : List BeginCode) (b : Bounded)
      → start_htx supported codes logs ≡ b
      → logs.read_log.entries ≡ map some ks
      → logs.write_log.entries ≢ []
      → (o : Outcome) × (commit_started b e visits world logs ≡ some o)
        × CommitEnd e world logs ks codes o
  commit_started-CommitEnd supported codes Bounded.started b q n =
      let (o, run, end) = commit_hard-Committed q in (o, run, decided n end)
  commit_started-CommitEnd supported codes Bounded.software_fallback b q n =
      let (o, run, end) =
        commit_soft-Committed e visits world logs ks time synced balanced room later small words
          ends q in
      (o, run, decided n end)
  commit_started-CommitEnd supported codes Bounded.abort_or_conflict b q n = (
    failure [] world logs,
    refl,
    refused (start_htx-ended supported codes b) n (failure-Refused world logs synced),
  )

  -- A commit ends in a result, whichever way it takes. With no writes it succeeds and changes
  -- nothing but the read log. Else it is decided in hardware or in software, by the rule that it
  -- succeeds exactly if every written cell is free and no later than the pinned epoch and every
  -- other cell that was read is no later than it either; or it is refused, which happens only if
  -- the processor ended an attempt, and memory and the clock are as they were. Conditions: the
  -- filter and the hash map of the write log agree with its entries, which may fail once a write
  -- has returned SetError and the transaction has gone on; no read in the read log has been struck
  -- out; the sealed bags are in order, with room for another, and none is later than the clock; the
  -- pinned epoch has no lock bit and the clock can still go forward; the epochs of the other
  -- threads are words, and the waits of the garbage collection for them end.
  pub commit-CommitEnd :
      (supported : Bool) (codes : List BeginCode)
      → logs.read_log.entries ≡ map some ks
      → (o : Outcome) × (commit supported codes e visits world logs ≡ some o)
        × CommitEnd e world logs ks codes o
  unfolding commit commit_slow commit_empty_write_log
  commit-CommitEnd supported codes q = by_entries logs.write_log.entries refl
    where
      by_entries :
          (es : List WriteEntry)
          → logs.write_log.entries ≡ es
          → (o : Outcome) × (commit supported codes e visits world logs ≡ some o)
            × CommitEnd e world logs ks codes o
      by_entries [] none_written =
          let empty : (word_len logs.write_log.entries == 0) ≡ true =
            unfold word_len in ground arith in
          (
            commit_empty_write_log world logs,
            rw empty,
            read_only none_written refl refl refl refl refl,
          )
      by_entries (w ∷ ws) written =
          let full : (word_len logs.write_log.entries == 0) ≡ false =
            unfold word_len in ground arith in
          rw full (
            commit_started-CommitEnd supported codes (start_htx supported codes logs) refl q
              (λ none_written. absurd (cc)))
