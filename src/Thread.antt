-- ===== src/Thread.antt =====
-- src/internal/thread.rs, src/thread_key.rs: a thread with its logs, its pinned epoch and its
-- progress, and the loops that run a transaction until it commits.
pub mod Closure
pub mod Calls
pub mod Laws
pub mod Again
pub mod Runs
pub mod Registered
use swym.Shared.{
  ℕ, ◌+◌, Bool, true, false, not, Option, none, some, List, [], ◌∷◌, ◌==◌, if◌then◌else◌,
}
use swym.Epoch.Word.{QuiesceEpoch, is_active}
use swym.Epoch.Clock
use swym.Epoch.Clock.{now, inactive, pin, repin, unpin}
use swym.ReadLog
use swym.WriteLog
use swym.Gc.Quiesce.{Visit}
use swym.Gc.Garbage
use swym.Gc.Garbage.{Trash}
use swym.Logs
use swym.Logs.{Logs, drop_pin_rw}
use swym.Rw.{Result, ok, conflict}
use swym.Commit.{World, Outcome}
use swym.Commit.Hard.{BeginCode, commit}
use swym.Memory.{Memory}
use swym.Parking.{try_clear_unpark_bits}
use swym.Starvation
use swym.Starvation.{
  Progress, not_starving, starving, Pc, Failure, spins, yields, starve_locks, failed_to_progress,
  progressed,
}
use Closure.{Body, Tried, succeeds, conflicts, awaits, run_body}

pub record Thread : Type 0 where
  pub logs : Logs
  pub current_epoch : QuiesceEpoch
  pub progress : Progress

-- `Thread::new`
unfoldable pub new : Thread
new = record { logs = Logs.new; current_epoch = inactive; progress = Starvation.new }

abbrev pub is_pinned : Thread → Bool
is_pinned t = is_active t.current_epoch

-- What `try_pin` returns: the thread pinned; nothing, on a thread that is pinned; or the abort of
-- the process, on a clock that has run out.
pub data Pinned : Type 0 where
  pinned : Thread → Pinned
  already : Pinned
  aborts : Pinned

abbrev pub pin_at : Option QuiesceEpoch → Thread → Pinned
pin_at none t = aborts
pin_at (some epoch) t = pinned (record t { current_epoch = pin epoch t.current_epoch })

-- `Pin::try_new`
unfoldable pub try_pin : ℕ → Thread → Pinned
try_pin clock t = if not (is_pinned t) then pin_at (now clock) t else already

-- `Pin::repin`; `none` is the abort.
abbrev pub repin_at : Option QuiesceEpoch → Thread → Option Thread
repin_at none t = none
repin_at (some epoch) t = some (record t { current_epoch = repin epoch t.current_epoch })

abbrev pub repins : ℕ → Thread → Option Thread
repins clock t = repin_at (now clock) t

-- The thread's progress once `failed_to_progress` has returned, with the lock if it took it.
abbrev pub failed_with : Failure → Progress
failed_with (spins count g) = g
failed_with (yields g) = g
failed_with starve_locks = starving

-- The thread's progress once `progressed` has returned
abbrev pub progressed_with : Progress × Pc → Progress
progressed_with (g, Pc.unlocking) = Starvation.new
progressed_with (g, p) = g

-- `Pin::snooze_repin`
unfoldable pub snooze_repin : ℕ → ℕ → Thread → Option Thread
snooze_repin max_elapsed clock t = repins clock (record t {
  progress = failed_with (failed_to_progress max_elapsed t.current_epoch t.progress);
})

-- `Drop for Pin`
unfoldable pub drop_pin : Thread → Thread
drop_pin t = record t {
  current_epoch = unpin t.current_epoch;
  progress = progressed_with (progressed t.progress);
}

-- What an attempt of a read-only transaction meets: the closure's result, and the clock and the
-- estimate at the end of an attempt that failed.
pub record ReadAttempt (O : Type 0) : Type 0 where
  pub result : Result O
  pub clock : ℕ
  pub max_elapsed : ℕ

abbrev pub read_again :
    {O : Type 0} → Option Thread → (Thread → Option (O × Thread)) → Option (O × Thread)
read_again none rest = none
read_again (some t) rest = rest t

abbrev pub after_read :
    {O : Type 0}
    → Result O
    → ReadAttempt O
    → Thread
    → (Thread → Option (O × Thread))
    → Option (O × Thread)
after_read (ok o) a t rest = some (o, drop_pin t)
after_read conflict a t rest = read_again (snooze_repin a.max_elapsed a.clock t) rest

-- `Pin::run_read`, with the thread after it; `none` while it is not over.
unfoldable pub run_read : {O : Type 0} → List (ReadAttempt O) → Thread → Option (O × Thread)
run_read [] t = none
run_read (a ∷ rest) t = after_read a.result a t (λ t'. run_read rest t')

-- What an attempt of a read-write transaction meets: the closure, as the calls that it makes; what
-- `commit`, or `park`, is given; whether the thread was upgraded while it waited for starving threads; the
-- clock when it wakes, if it sleeps; and the clock and the estimate at the end of the attempt.
pub record Attempt (O : Type 0) : Type 0 where
  pub body : Body O
  pub supported : Bool
  pub codes : List BeginCode
  pub visits : List Visit
  pub world : World
  pub upgraded : Bool
  pub woken : ℕ
  pub clock : ℕ
  pub max_elapsed : ℕ

-- How a run ends: the closure's value, the thread, and what the commit did.
pub record Ended (O : Type 0) : Type 0 where
  pub result : O
  pub thread : Thread
  pub outcome : Outcome

-- `PinRw::parked`, the sleep, and `Drop for ParkPinMutRef`; `none` is the abort.
abbrev pub wake_at : Option QuiesceEpoch → Thread → Option Thread
wake_at none t = none
wake_at (some epoch) t = some (record t {
  logs = record t.logs {
    read_log = ReadLog.clear t.logs.read_log;
    write_log = WriteLog.clear t.logs.write_log;
  };
  current_epoch = pin epoch t.current_epoch;
})

abbrev pub parked : Thread → Thread
parked t = record {
  logs = record t.logs { garbage = Garbage.abort_speculative_garbage t.logs.garbage };
  current_epoch = unpin t.current_epoch;
  progress = progressed_with (progressed t.progress);
}

abbrev pub and_then : {O : Type 0} → Option Thread → (Thread → Option (Ended O)) → Option (Ended O)
and_then none rest = none
and_then (some t) rest = rest t

abbrev pub awake_then : ℕ → Option Thread → Option Thread
awake_then clock none = none
awake_then clock (some t) = repins clock t

-- `parking::park`: the thread when it wakes, and what `try_clear_unpark_bits` returned and did to the
-- cells. The thread goes on in the same way whether it slept or not.
pub record Parked : Type 0 where
  pub thread : Option Thread
  pub bits : Bool × Memory

abbrev pub park : Bool → List BeginCode → Memory → ℕ → Thread → Parked
park supported codes m woken t = record {
  thread = wake_at (now woken) (parked t);
  bits = try_clear_unpark_bits supported codes t.current_epoch (parked t).logs m;
}

-- An attempt that waits: `park`, and the repin after it.
unfoldable pub sleep : Bool → List BeginCode → Memory → ℕ → ℕ → Thread → Option Thread
sleep supported codes m woken clock t = awake_then clock (park supported codes m woken t).thread

-- The progress with which a commit goes on: a thread with writes waits for the starving threads,
-- and may be upgraded meanwhile.
abbrev pub after_starvers : Bool → Bool → Progress → Progress
after_starvers true true g = starving
after_starvers writes upgraded g = g

-- What follows a commit: a success has recorded progress and unpins the thread.
abbrev pub after_commit :
    {O : Type 0}
    → Option Outcome
    → O
    → Attempt O
    → Thread
    → (Thread → Option (Ended O))
    → Option (Ended O)
after_commit none o a t rest = none
after_commit (some out) o a t rest =
    let t' : Thread = record t { logs = out.logs } in
    let again = and_then (snooze_repin a.max_elapsed a.clock t') rest in
    if out.success
    then some (record {
      result = o;
      thread = record t' {
        current_epoch = unpin t.current_epoch;
        progress = progressed_with (progressed t.progress);
      };
      outcome = out;
    })
    else again

abbrev pub after_body :
    {O : Type 0}
    → Tried O × Logs
    → Attempt O
    → Thread
    → (Thread → Option (Ended O))
    → Option (Ended O)
after_body (succeeds o, logs) a t rest =
    after_commit (commit a.supported a.codes t.current_epoch a.visits a.world logs) o a
      (record t {
        progress = after_starvers (not (WriteLog.is_empty logs.write_log)) a.upgraded t.progress;
      })
      rest
after_body (conflicts, logs) a t rest =
    and_then (snooze_repin a.max_elapsed a.clock (record t { logs = drop_pin_rw logs })) rest
after_body (awaits, logs) a t rest =
    and_then (sleep a.supported a.codes a.world.memory a.woken a.clock (record t { logs = logs }))
      rest

-- `Pin::run_rw`; `none` while it is not over.
unfoldable pub run_rw : {O : Type 0} → List (Attempt O) → Thread → Option (Ended O)
run_rw [] t = none
run_rw (a ∷ rest) t = after_body (run_body t.current_epoch a.body t.logs) a t (λ t'. run_rw rest t')

-- What `try_read` and `try_rw` return: the error of a nested transaction; the run; or the abort of
-- the process.
pub data TryRun (A : Type 0) : Type 0 where
  nested : TryRun A
  runs : A → TryRun A
  stopped : TryRun A

abbrev pub after_pin : {A : Type 0} → Pinned → (Thread → A) → TryRun A
after_pin (pinned t) run = runs (run t)
after_pin already run = nested
after_pin aborts run = stopped

-- `ThreadKey::try_read` and `ThreadKey::try_rw`
unfoldable pub try_read :
    {O : Type 0} → ℕ → List (ReadAttempt O) → Thread → TryRun (Option (O × Thread))
try_read clock attempts t = after_pin (try_pin clock t) (λ t'. run_read attempts t')

unfoldable pub try_rw : {O : Type 0} → ℕ → List (Attempt O) → Thread → TryRun (Option (Ended O))
try_rw clock attempts t = after_pin (try_pin clock t) (λ t'. run_rw attempts t')
