-- ===== src/Thread/Again.antt =====
-- src/internal/thread.rs: a thread that is repinned, after a conflict or a sleep, is ready again.
use swym.Shared.{ℕ, Bool, List, ◌≡◌, ◌≢◌, Option, some, [], refl}
use swym.Epoch.Word.{IsTime}
use swym.Bloom.{overflowed}
use swym.WriteLog.{WriteLog, clear}
use swym.WriteLog.Refine.{clear_ready-IsSynced}
use swym.Gc.Garbage.{abort_speculative_garbage}
use swym.Logs.{Logs}
use swym.Commit.Atomic.{IsCleared}
use swym.Memory.{Memory}
use swym.Commit.Hard.{BeginCode}
use swym.Parking.{logged}
use swym.Parking.Bits.{Bits, try_clear_unpark_bits-Bits}
use swym.Starvation.{failed_to_progress}
use swym.Starvation.Invariant.{IsBounded}
use swym.Starvation.Steps.{failed_to_progress-FailureOk}
use swym.Thread.{Thread, snooze_repin, sleep, park, failed_with}
use swym.Thread.Laws.{BagsOk, IsReady, now-IsTime, failed_with-IsBounded, progressed-new}

-- A thread that is ready for its next attempt, at the epoch of the clock.
pub record Again (clock : ℕ) (o : Option Thread) : Type 0 where
  pub thread : Thread
  pub runs : o ≡ some thread
  pub ready : IsReady thread
  pub at_clock : thread.current_epoch ≡ clock

pub snooze_repin-Again :
    (max_elapsed clock : ℕ) (t : Thread)
    → IsTime clock
    → IsCleared t.logs
    → BagsOk clock t.logs.garbage
    → IsBounded t.progress
    → Again clock (snooze_repin max_elapsed clock t)
unfolding snooze_repin
snooze_repin-Again max_elapsed clock t time cleared bags bounded =
    let f = failed_to_progress max_elapsed t.current_epoch t.progress in
    rw (now-IsTime clock time) (record {
      thread = record t { current_epoch = clock; progress = failed_with f };
      runs = refl;
      ready = record {
        cleared = cleared;
        bags = bags;
        time = time;
        bounded =
            failed_with-IsBounded t.progress f
              (failed_to_progress-FailureOk max_elapsed t.current_epoch t.progress bounded);
      };
      at_clock = refl;
    })

-- A log of a transaction that is given up.
pub given_up-IsCleared :
    (l : WriteLog)
    → (l.bloom.filter ≢ overflowed → l.bloom.overflow ≡ [])
    → (logs : Logs) → logs.write_log ≡ clear l
    → logs.read_log.entries ≡ []
    → logs.garbage.speculative_bag.queued ≡ []
    → IsCleared logs
given_up-IsCleared l c logs q no_reads no_trash =
    let (synced, empty) = clear_ready-IsSynced l c in
    record {
      no_reads = no_reads;
      no_writes = rw q empty;
      synced = rw q synced;
      no_trash = no_trash;
    }

pub park-Bits :
    (supported : Bool) (codes : List BeginCode) (m : Memory) (woken : ℕ) (t : Thread)
    → Bits t.current_epoch (logged t.logs) m (park supported codes m woken t).bits
unfolding logged
park-Bits supported codes m woken t =
    let aborted = record t.logs { garbage = abort_speculative_garbage t.logs.garbage } in
    try_clear_unpark_bits-Bits supported codes t.current_epoch aborted m

pub sleep-Again :
    (supported : Bool) (codes : List BeginCode) (m : Memory) (woken clock : ℕ) (t : Thread)
    → IsTime woken
    → IsTime clock
    → (t.logs.write_log.bloom.filter ≢ overflowed → t.logs.write_log.bloom.overflow ≡ [])
    → BagsOk clock (abort_speculative_garbage t.logs.garbage)
    → IsBounded t.progress
    → Again clock (sleep supported codes m woken clock t)
unfolding sleep abort_speculative_garbage
sleep-Again supported codes m woken clock t awake time c bags bounded =
    rw (now-IsTime woken awake, now-IsTime clock time)
      (record {
        thread = _;
        runs = refl;
        ready = record {
          cleared = given_up-IsCleared t.logs.write_log c _ refl refl refl;
          bags = bags;
          time = time;
          bounded = rw (progressed-new t.progress bounded) refl;
        };
        at_clock = refl;
      })
