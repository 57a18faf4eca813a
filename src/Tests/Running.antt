-- ===== src/Tests/Running.antt =====
-- src/internal/thread.rs.
use swym.Shared.{ℕ, [], List, false}
use swym.Rw.{Result, ok, conflict}
use swym.Thread
use swym.Thread.{Thread, Attempt, Ended}
use swym.Thread.Closure.{Body, succeeds, conflicts}
use swym.Tests.Sample.{growth, loads, late_loads, nine, world, visits}

-- A closure that reads cell 16 and writes 9 to it.
abbrev after_set : Result (Unit {0}) → Body ℕ
after_set (ok u) = Body.returns (succeeds 4)
after_set conflict = Body.returns conflicts

abbrev after_borrow : Result (List ℕ) → Body ℕ
after_borrow (ok v) = Body.sets 16 nine loads growth after_set
after_borrow conflict = Body.returns conflicts

-- The first attempt finds the cell at a later epoch, and conflicts; the second commits.
abbrev too_late : Attempt ℕ
too_late = record {
  body = Body.borrows 16 late_loads growth after_borrow;
  supported = false;
  codes = [];
  visits = visits;
  world = world;
  upgraded = false;
  woken = 5;
  clock = 5;
  max_elapsed = 4;
}

abbrev in_time : Attempt ℕ
in_time = record too_late { body = Body.borrows 16 loads growth after_borrow }

abbrev one_word : ℕ → ℕ
one_word k = 1
