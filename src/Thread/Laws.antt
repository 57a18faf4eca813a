-- ===== src/Thread/Laws.antt =====
-- src/internal/thread.rs: a transaction is run again until it commits.
use swym.Shared.{
  ℕ, ◌≡◌, ◌≤◌, ◌<◌, Bool, true, false, Option, none, some, List, [], ◌∷◌, All, arith, refl, ap,
  length,
}
use swym.Epoch.Word.{QuiesceEpoch, IsTime, max_value}
use swym.Epoch.Clock.{now, inactive}
use swym.WriteLog.Layout.{view}
use swym.Gc.Quiesce.Laws.{Ends, IsWord}
use swym.Gc.Garbage.{ThreadGarbage, latest, abort_speculative_garbage}
use swym.Gc.Garbage.Balance.{IsBalanced}
use swym.Logs.{Logs}
use swym.Commit.{Outcome}
use swym.Commit.Atomic.{IsCleared}
use swym.Commit.Hard.{commit}
use swym.Commit.Hard.Whole.{CommitEnd}
use swym.Parking.{logged}
use swym.Parking.Bits.{Bits}
use swym.Starvation
use swym.Starvation.{
  Progress, not_starving, starving, Failure, spins, yields, starve_locks, failed_to_progress,
  progressed,
}
use swym.Starvation.Invariant.{IsBounded}
use swym.Starvation.Steps.{FailureOk}
use swym.Thread.{Thread, Attempt, Ended, after_starvers, failed_with, progressed_with, park}
use swym.Thread.Closure.{succeeds, conflicts, awaits, run_body}
use swym.Thread.Calls.{Obeys, InTx}

-- The garbage between two attempts, of a thread whose pinned epoch is `e`.
pub record BagsOk (e : QuiesceEpoch) (g : ThreadGarbage) : Type 0 where
  pub balanced : IsBalanced g
  pub room : length g.sealed_bags < 63
  pub later : latest 0 g.sealed_bags ≤ e

-- A thread at the start of an attempt: its logs hold nothing, as `validate_start_state` asserts.
pub record IsReady (t : Thread) : Type 0 where
  pub cleared : IsCleared t.logs
  pub bags : BagsOk t.current_epoch t.logs.garbage
  pub time : IsTime t.current_epoch
  pub bounded : IsBounded t.progress

-- What an attempt meets that begins at the epoch `e`: a closure as it should be, a clock that goes
-- forward and does not run out, and threads whose loads let the waits of the garbage collection end.
pub record Meets {O : Type 0} (size : ℕ → ℕ) (e : QuiesceEpoch) (a : Attempt O) : Type 0 where
  pub obeys : Obeys size a.body
  pub ticked : e ≤ a.world.clock
  pub small : a.world.clock < max_value
  pub words : All IsWord a.visits
  pub ends : (x : QuiesceEpoch) → x ≤ a.world.clock → All (Ends x) a.visits
  pub woken : IsTime a.woken
  pub next_time : IsTime a.clock
  pub forward : e ≤ a.clock

abbrev pub AllMeet : {O : Type 0} → (ℕ → ℕ) → QuiesceEpoch → List (Attempt O) → Type 0
AllMeet size e [] = Unit
AllMeet size e (a ∷ rest) = Meets size e a × AllMeet size a.clock rest

-- How an attempt that did not commit ended.
pub data Fails {O : Type 0} (a : Attempt O) (t : Thread) : Type 0 where
  conflicted : (run_body t.current_epoch a.body t.logs).0 ≡ conflicts → Fails a t
  -- Before it slept, the unpark bits of the cells that it had read or written were cleared, each of
  -- them readable, and nothing else of a cell was changed; or it did not sleep, and no cell is changed.
  slept :
      (logs : Logs)
      → run_body t.current_epoch a.body t.logs ≡ (awaits, logs)
      → Bits t.current_epoch
          (logged logs)
          a.world.memory
          (park a.supported a.codes a.world.memory a.woken (record t { logs = logs })).bits
      → Fails a t
  -- The commit failed, and no cell is changed.
  not_committed :
      (o : O) (logs : Logs) (out : Outcome)
      → run_body t.current_epoch a.body t.logs ≡ (succeeds o, logs)
      → commit a.supported a.codes t.current_epoch a.visits a.world logs ≡ some out
      → out.success ≡ false
      → ((j : ℕ) → out.world.memory j ≡ a.world.memory j)
      → out.world.clock ≡ a.world.clock
      → Fails a t

-- An attempt that committed, and how the run ends with it.
pub record Commits {O : Type 0} (a : Attempt O) (t : Thread) (r : Ended O) : Type 0 where
  pub logs : Logs
  pub ks : List ℕ
  pub ran : run_body t.current_epoch a.body t.logs ≡ (succeeds r.result, logs)
  pub end : CommitEnd t.current_epoch a.world logs ks a.codes r.outcome
  pub succeeded : r.outcome.success ≡ true
  pub cleared : IsCleared r.thread.logs
  pub unpinned : r.thread.current_epoch ≡ inactive
  pub fresh : r.thread.progress ≡ Starvation.new

-- The story of a run: attempts that fail, each begun with empty logs at the epoch at which the one
-- before it was repinned, and then one that commits.
pub data Story {O : Type 0} : List (Attempt O) → Thread → Option (Ended O) → Type 0 where
  unfinished : (t : Thread) → IsReady t → Story [] t none
  retried :
      (a : Attempt O) (rest : List (Attempt O)) (t t' : Thread) (r : Option (Ended O))
      → IsReady t
      → Fails a t
      → t'.current_epoch ≡ a.clock
      → Story rest t' r
      → Story (a ∷ rest) t r
  done :
      (a : Attempt O) (rest : List (Attempt O)) (t : Thread) (r : Ended O)
      → IsReady t
      → Commits a t r
      → Story (a ∷ rest) t (some r)

pub now-IsTime : (clock : ℕ) → IsTime clock → now clock ≡ some clock
now-IsTime clock time = let small = time.unlocked in ground arith

pub ready-InTx : (size : ℕ → ℕ) (t : Thread) → IsReady t → InTx size t.logs.garbage t.logs
unfolding view
ready-InTx size t i = record {
  synced = i.cleared.synced;
  sized = λ k v h. absurd (let h' : view k [] ≡ some v = rw (i.cleared.no_writes) at h in cc h');
  reads = ([], i.cleared.no_reads);
  same_sealed = refl;
  same_unused = refl;
  no_trash = λ _. i.cleared.no_trash;
}

pub abort-BagsOk :
    (e e' : QuiesceEpoch) (g g' : ThreadGarbage)
    → BagsOk e g
    → e ≤ e'
    → g'.sealed_bags ≡ g.sealed_bags
    → g'.unused_bags ≡ g.unused_bags
    → BagsOk e' (abort_speculative_garbage g')
unfolding abort_speculative_garbage
abort-BagsOk e e' g g' b le same same' = record {
  balanced = record {
    counted = rw (same, same') b.balanced.counted;
    unused = rw same' b.balanced.unused;
    ordered = rw same b.balanced.ordered;
  };
  room = rw same b.room;
  later = rw same (omega (arith, b.later));
}

pub failed_with-IsBounded : (g : Progress) (f : Failure) → FailureOk g f → IsBounded (failed_with f)
failed_with-IsBounded g (spins count g') ok = ok.1
failed_with-IsBounded g (yields g') ok = ok.1
failed_with-IsBounded g starve_locks ok = tt

pub progressed-new : (g : Progress) → IsBounded g → progressed_with (progressed g) ≡ Starvation.new
unfolding progressed
progressed-new (not_starving none backoff) b = ap (λ (n : ℕ). not_starving none n) b
progressed-new (not_starving (some e) backoff) b = refl
progressed-new starving b = refl

pub after_starvers-IsBounded :
    (writes upgraded : Bool) (g : Progress)
    → IsBounded g
    → IsBounded (after_starvers writes upgraded g)
after_starvers-IsBounded true true g b = tt
after_starvers-IsBounded true false g b = b
after_starvers-IsBounded false upgraded g b = b
