-- ===== src/Parking/Wakeup.antt =====
-- src/internal/parking.rs, src/internal/commit.rs: a commit wakes the threads that wait for it.
use swym.Shared.{
  ℕ, ◌≡◌, ◌≤◌, ◌↔◌, Bool, true, false, List, [], ◌∷◌, ◌++◌, ◌==◌, All, member, arith, refl, inl,
  inr, Bool-cases, ◌∙◌, ap, Option-cases,
}
use swym.Epoch.Word.{QuiesceEpoch, IsTime, next_epoch, unpark_bit_set}
use swym.Epoch.Lock.{ParkStatus, no_parked, has_parked, merge, park_status}
use swym.Memory.{TCell, Memory}
use swym.ReadLog
use swym.ReadLog.{all_valid}
use swym.ReadLog.Laws.{IsReadable, all_valid_iff}
use swym.WriteLog.Entries
use swym.WriteLog.Entries.{WriteEntry, epoch_locks}
use swym.WriteLog.Layout.{view, member-view}
use swym.Logs.{Logs}
use swym.Commit.{World, Outcome, is_parked}
use swym.Commit.Loops.{status_of}
use swym.Commit.Cells.{committed}
use swym.Commit.Atomic.{Committed, success, failed}
use swym.Commit.Hard.{BeginCode}
use swym.Parking.{logged, try_clear_unpark_bits, should_unpark}
use swym.Parking.Bits.{ClearedAt, try_clear_unpark_bits-Bits}

All-append_iff :
    (e : QuiesceEpoch) (m : Memory) (xs ys : List ℕ)
    → All (IsReadable e m) (xs ++ ys) ↔ (All (IsReadable e m) xs × All (IsReadable e m) ys)
All-append_iff e m [] ys = ((λ a. (tt, a)), λ a. a.1)
All-append_iff e m (x ∷ xs) ys =
    let rest = All-append_iff e m xs ys in
    ((λ a. ((a.0, (rest.0 a.1).0), (rest.0 a.1).1)), (λ a. (a.0.0, rest.1 (a.0.1, a.1))))

-- A thread that sleeps is left asleep exactly while every cell that it has read or written is
-- readable at its epoch.
pub should_unpark_iff :
    (e : QuiesceEpoch) (logs : Logs) (m : Memory)
    → (should_unpark e logs m ≡ false) ↔ All (IsReadable e m) (logged logs)
unfolding should_unpark logged
should_unpark_iff e logs m =
    let reads = all_valid_iff e m (ReadLog.epoch_locks logs.read_log.entries) in
    let writes = all_valid_iff e m (Entries.epoch_locks logs.write_log.entries) in
    let both =
      All-append_iff e m (ReadLog.epoch_locks logs.read_log.entries)
        (Entries.epoch_locks logs.write_log.entries) in
    (
      (λ h. both.1 (reads.0 (ground arith), writes.0 (ground arith))),
      (λ a. ground (arith, reads.1 (both.0 a).0, writes.1 (both.0 a).1)),
    )

status_of_parked : (ks : List ℕ) (m : Memory) → status_of ks m has_parked ≡ has_parked
status_of_parked [] m = refl
status_of_parked (k ∷ ks) m = status_of_parked ks m

status_of-clear :
    (k : ℕ) (ks : List ℕ) (m : Memory) (status : ParkStatus)
    → member k ks ≡ true
    → unpark_bit_set (m k).current_epoch ≡ false
    → status_of ks m status ≡ has_parked
status_of-clear k [] m status h clear = absurd (cc)
status_of-clear k (j ∷ ks) m status h clear = elim (Bool-cases (j == k)) [
  | inl same ↦
      let q : j ≡ k = ground arith in
      let parked : merge status (park_status (m j).current_epoch) ≡ has_parked =
        rw (q, clear) (merge_parked status) in
      rw parked (status_of_parked ks m)
  | inr other ↦ status_of-clear k ks m _ (rw other at h) clear
]
  where
    merge_parked : (s : ParkStatus) → merge s has_parked ≡ has_parked
    merge_parked no_parked = refl
    merge_parked has_parked = refl

readable_at :
    (e : QuiesceEpoch) (m : Memory) (k : ℕ) (ks : List ℕ)
    → All (IsReadable e m) ks
    → member k ks ≡ true
    → (m k).current_epoch ≤ e
readable_at e m k [] a h = absurd (cc)
readable_at e m k (j ∷ ks) a h = elim (Bool-cases (j == k)) [
  | inl same ↦ let q : j ≡ k = ground arith in rw (← q) a.0
  | inr other ↦ readable_at e m k ks a.1 (rw other at h)
]

committed-later :
    (epoch : QuiesceEpoch) (es : List WriteEntry) (m : Memory) (k : ℕ)
    → member k (epoch_locks es) ≡ true
    → (committed epoch es m k).current_epoch ≡ epoch
committed-later epoch es m k h = elim (Option-cases (view k es)) [
  | inl absent ↦ let no = member-view k es absent in absurd (cc)
  | inr (v, present) ↦ rw (committed, present)
]

-- No wake-up is lost: once a thread has cleared the bits before it sleeps, a commit that succeeds
-- and writes a cell that the thread has read or written looks at the parked threads, and finds that
-- this one is to be woken, provided that it pinned no later than the clock.
pub commit_wakes :
    (supported : Bool) (codes : List BeginCode) (e : QuiesceEpoch) (logs : Logs) (m : Memory)
    (e' : QuiesceEpoch) (world : World) (logs' : Logs) (ks : List ℕ) (o : Outcome) (k : ℕ)
    → try_clear_unpark_bits supported codes e logs m ≡ (true, world.memory)
    → Committed e' world logs' ks o
    → o.success ≡ true
    → member k (logged logs) ≡ true
    → member k (epoch_locks logs'.write_log.entries) ≡ true
    → IsTime world.clock
    → e ≤ world.clock
    → (o.unparks ≡ true) × (should_unpark e logs o.world.memory ≡ true)
commit_wakes supported codes e logs m e' world logs' ks o k parked c s waits written time pinned =
    by_end c
  where
    cleared : ClearedAt (logged logs) m world.memory
    cleared = (rw parked at (try_clear_unpark_bits-Bits supported codes e logs m)).1

    by_end :
        Committed e' world logs' ks o
        → (o.unparks ≡ true) × (should_unpark e logs o.world.memory ≡ true)
    by_end (success can ok at_cells ticked unparks sealed ready) =
        let clear : unpark_bit_set (world.memory k).current_epoch ≡ false =
          ground (arith, cleared k) in
        let later : (o.world.memory k).current_epoch ≡ next_epoch world.clock =
          ap (λ (c : TCell). c.current_epoch) (at_cells k)
          ∙ committed-later (next_epoch world.clock) logs'.write_log.entries world.memory k
              written in
        let unlocked = time.unlocked in
        (
          unparks
              ∙ ap is_parked (
                  status_of-clear k (epoch_locks logs'.write_log.entries) world.memory no_parked
                    written clear),
          elim (Bool-cases (should_unpark e logs o.world.memory)) [
            | inl wakes ↦ wakes
            | inr sleeps ↦
                let le =
                  readable_at e o.world.memory k (logged logs)
                    ((should_unpark_iff e logs o.world.memory).0 sleeps) waits in
                absurd (ground arith)
          ],
        )
    by_end (failed cannot fails same same_clock dropped ready bags) = absurd (cc)
