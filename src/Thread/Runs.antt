-- ===== src/Thread/Runs.antt =====
-- src/internal/thread.rs: what `run_rw` returns.
use swym.Shared.{ℕ, ◌≡◌, ◌≤◌, true, false, not, Option, some, List, [], ◌∷◌, arith, refl, ◌∙◌, ap}
use swym.Epoch.Clock.{inactive}
use swym.WriteLog
use swym.WriteLog.{WriteLog, clear}
use swym.WriteLog.Refine.{new-IsSynced}
use swym.Gc.Garbage
use swym.Gc.Garbage.{ThreadGarbage, latest, abort_speculative_garbage}
use swym.Gc.Garbage.Balance.{IsBalanced, new-IsBalanced}
use swym.Logs
use swym.Logs.{Logs, drop_pin_rw}
use swym.Commit.{Outcome}
use swym.Commit.Atomic.{IsCleared, success, failed}
use swym.Commit.Hard.{commit}
use swym.Commit.Hard.Whole.{CommitEnd, read_only, decided, refused, commit-CommitEnd}
use swym.Starvation.{Progress}
use swym.Starvation.Invariant.{IsBounded}
use swym.Thread
use swym.Thread.{
  runs, Thread, Attempt, Ended, snooze_repin, sleep, after_starvers, after_commit, after_body,
  run_rw, failed_with, progressed_with, and_then, parked,
}
use swym.Thread.Closure.{Tried, succeeds, conflicts, awaits, run_body}
use swym.Thread.Calls.{InTx, Left, run_body-Left}
use swym.Thread.Laws.{
  BagsOk, IsReady, Meets, AllMeet, Fails, conflicted, slept, not_committed, Story, unfinished,
  retried, done, ready-InTx, abort-BagsOk, progressed-new, after_starvers-IsBounded,
}
use swym.Thread.Again.{Again, snooze_repin-Again, given_up-IsCleared, park-Bits, sleep-Again}

module _ {O : Type 0} (size : ℕ → ℕ) (a : Attempt O) (rest : List (Attempt O)) (t : Thread)
    (i : IsReady t) (meets : Meets size t.current_epoch a)
    (next_run : (t' : Thread)
      → IsReady t'
      → t'.current_epoch ≡ a.clock
      → Story rest t' (run_rw rest t')) where
  retry-Story :
      (o : Option Thread)
      → Fails a t
      → Again a.clock o
      → Story (a ∷ rest) t (and_then o (λ t'. run_rw rest t'))
  retry-Story o fails again = rw again.runs (
      retried a rest t again.thread _ i fails again.at_clock
        (next_run again.thread again.ready again.at_clock))

  -- The bags of a thread whose transaction is given up, at the end of the attempt.
  aborted-BagsOk :
      (g : ThreadGarbage)
      → g.sealed_bags ≡ t.logs.garbage.sealed_bags
      → g.unused_bags ≡ t.logs.garbage.unused_bags
      → BagsOk a.clock (abort_speculative_garbage g)
  aborted-BagsOk g same same' =
      abort-BagsOk t.current_epoch a.clock t.logs.garbage g i.bags meets.forward same same'

  commit_failed :
      (o : O) (logs : Logs) (out : Outcome) (g : Progress)
      → run_body t.current_epoch a.body t.logs ≡ (succeeds o, logs)
      → commit a.supported a.codes t.current_epoch a.visits a.world logs ≡ some out
      → InTx size t.logs.garbage logs
      → IsBounded g
      → out.success ≡ false
      → ((j : ℕ) → out.world.memory j ≡ a.world.memory j)
      → out.world.clock ≡ a.world.clock
      → IsCleared out.logs
      → out.logs.garbage ≡ abort_speculative_garbage logs.garbage
      → Story
          (a ∷ rest)
          t
          (after_commit (some out) o a (record t { progress = g }) (λ t'. run_rw rest t'))
  commit_failed o logs out g ran committed tx bounded fails same same_clock cleared bags =
      rw fails (
        retry-Story _ (not_committed o logs out ran committed fails same same_clock) (
          snooze_repin-Again a.max_elapsed a.clock (record t { logs = out.logs; progress = g })
            meets.next_time cleared
            (rw bags (aborted-BagsOk logs.garbage tx.same_sealed tx.same_unused)) bounded))

  commit_succeeded :
      (o : O) (logs : Logs) (ks : List ℕ) (out : Outcome) (g : Progress)
      → run_body t.current_epoch a.body t.logs ≡ (succeeds o, logs)
      → CommitEnd t.current_epoch a.world logs ks a.codes out
      → IsBounded g
      → out.success ≡ true
      → IsCleared out.logs
      → Story
          (a ∷ rest)
          t
          (after_commit (some out) o a (record t { progress = g }) (λ t'. run_rw rest t'))
  commit_succeeded o logs ks out g ran end bounded ok cleared = simp ok (
      done a rest t _ i (record {
        logs = logs;
        ks = ks;
        ran = ran;
        end = end;
        succeeded = ok;
        cleared = cleared;
        unpinned = refl;
        fresh = progressed-new g bounded;
      }))

  committed-Story :
      (o : O) (logs : Logs) (g : Progress)
      → run_body t.current_epoch a.body t.logs ≡ (succeeds o, logs)
      → InTx size t.logs.garbage logs
      → IsBounded g
      → Story (a ∷ rest) t (
          after_commit
            (commit a.supported a.codes t.current_epoch a.visits a.world logs)
            o
            a
            (record t { progress = g })
            (λ t'. run_rw rest t'))
  committed-Story o logs g ran tx bounded =
      let (ks, reads) = tx.reads in
      let balanced : IsBalanced logs.garbage = record {
        counted = rw (tx.same_sealed, tx.same_unused) i.bags.balanced.counted;
        unused = rw tx.same_unused i.bags.balanced.unused;
        ordered = rw tx.same_sealed i.bags.balanced.ordered;
      } in
      let later : latest 0 logs.garbage.sealed_bags ≤ a.world.clock =
        rw tx.same_sealed (omega (arith, i.bags.later, meets.ticked)) in
      let (out, committed, end) =
        commit-CommitEnd t.current_epoch a.visits a.world logs ks i.time tx.synced balanced
          (rw tx.same_sealed i.bags.room) later meets.small meets.words meets.ends a.supported
          a.codes reads in
      rw committed (by_end ks out committed end)
    where
      by_end :
          (ks : List ℕ) (out : Outcome)
          → commit a.supported a.codes t.current_epoch a.visits a.world logs ≡ some out
          → CommitEnd t.current_epoch a.world logs ks a.codes out
          → Story
              (a ∷ rest)
              t
              (after_commit (some out) o a (record t { progress = g }) (λ t'. run_rw rest t'))
      by_end ks out committed (read_only unwritten ok same no_reads log bags) =
          commit_succeeded o logs ks out g ran (read_only unwritten ok same no_reads log bags)
            bounded ok
            (record {
              no_reads = no_reads;
              no_writes = rw log unwritten;
              synced = rw log tx.synced;
              no_trash =
                  ap (λ (x : ThreadGarbage). x.speculative_bag.queued) bags ∙ tx.no_trash unwritten;
            })
      by_end ks out committed
            (decided some_written (success can ok cells ticked unparks sealed clean)) =
          commit_succeeded o logs ks out g ran
            (decided some_written (success can ok cells ticked unparks sealed clean)) bounded ok
            clean
      by_end ks out committed
            (decided some_written (failed cannot fails same same_clock dropped clean bags)) =
          commit_failed o logs out g ran committed tx bounded fails same same_clock clean bags
      by_end ks out committed (refused codes some_written r) =
          commit_failed o logs out g ran committed tx bounded r.fails r.same r.same_clock r.cleared
            r.bags

  attempt-Story :
      (b : Tried O × Logs)
      → run_body t.current_epoch a.body t.logs ≡ b
      → Left size t.logs.garbage b
      → Story (a ∷ rest) t (after_body b a t (λ t'. run_rw rest t'))
  unfolding drop_pin_rw
  attempt-Story (succeeds o, logs) ran left =
      committed-Story o logs
        (after_starvers (not (WriteLog.is_empty logs.write_log)) a.upgraded t.progress) ran
        (left.whole (λ e. absurd (cc)))
        (after_starvers-IsBounded (not (WriteLog.is_empty logs.write_log)) a.upgraded t.progress
          i.bounded)
  attempt-Story (conflicts, logs) ran left =
      retry-Story _ (conflicted (ap (λ (r : Tried O × Logs). r.0) ran)) (
        snooze_repin-Again a.max_elapsed a.clock (record t { logs = drop_pin_rw logs })
          meets.next_time
          (given_up-IsCleared logs.write_log left.clearable (drop_pin_rw logs) refl refl
            (unfold abort_speculative_garbage in refl))
          (aborted-BagsOk logs.garbage left.same_sealed left.same_unused) i.bounded)
  attempt-Story (awaits, logs) ran left =
      retry-Story _
        (slept logs ran
          (park-Bits a.supported a.codes a.world.memory a.woken (record t { logs = logs })))
        (sleep-Again a.supported a.codes a.world.memory a.woken a.clock (record t { logs = logs })
          meets.woken meets.next_time left.clearable
          (aborted-BagsOk logs.garbage left.same_sealed left.same_unused) i.bounded)

-- A run of a read-write transaction, whose closure returns the conflicts that its writes report,
-- returns only by a commit that succeeded: the first one. Every attempt before it failed, and was begun with empty logs, as was the one that committed, at the epoch at which the
-- thread was repinned after the attempt before. Afterwards the logs are empty, the thread is not
-- pinned, and its progress is new. While it has not returned, every attempt has failed.
pub run_rw-Story :
    {O : Type 0} (size : ℕ → ℕ) (attempts : List (Attempt O)) (t : Thread)
    → IsReady t
    → AllMeet size t.current_epoch attempts
    → Story attempts t (run_rw attempts t)
unfolding run_rw
run_rw-Story size [] t i meets = unfinished t i
run_rw-Story size (a ∷ rest) t i (meets, more) =
    attempt-Story size a rest t i meets
      (λ t' ready at_clock. run_rw-Story size rest t' ready (rw at_clock more))
      (run_body t.current_epoch a.body t.logs) refl
      (run_body-Left size t.logs.garbage t.current_epoch a.body t.logs meets.obeys
        (ready-InTx size t i))

-- A thread between two transactions.
pub record IsIdle (clock : ℕ) (t : Thread) : Type 0 where
  pub cleared : IsCleared t.logs
  pub bags : BagsOk clock t.logs.garbage
  pub unpinned : t.current_epoch ≡ inactive
  pub bounded : IsBounded t.progress

pub new-IsIdle : (clock : ℕ) → IsIdle clock Thread.new
unfolding Thread.new Logs.new Garbage.new
new-IsIdle clock = record {
  cleared = record { no_reads = refl; no_writes = refl; synced = new-IsSynced; no_trash = refl };
  bags = record { balanced = new-IsBalanced; room = omega arith; later = omega arith };
  unpinned = refl;
  bounded = refl;
}
