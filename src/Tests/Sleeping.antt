-- ===== src/Tests/Sleeping.antt =====
-- src/internal/parking.rs.
use swym.Shared.{◌≡◌, true, false, some, [], ◌∷◌, refl, arith, member}
use swym.Epoch.Lock.{try_clear_unpark_bit, try_clear_unpark_bit_from}
use swym.ReadLog
use swym.WriteLog.Entries
use swym.WriteLog.Entries.{epoch_locks}
use swym.Gc.Garbage
use swym.Gc.Garbage.Balance.{new-IsBalanced}
use swym.Commit.{World, Outcome, commit_soft}
use swym.Commit.Filter.{unwritten}
use swym.Commit.Cells.{CanCommit}
use swym.Commit.Atomic.{Committed, success, failed, commit_soft-Committed}
use swym.Parking.{
  logged, try_clear_unpark_bits, clear_soft, clear_all, begin_htx_park, should_unpark,
}
use swym.Parking.Bits.{Bits, try_clear_unpark_bits-Bits}
use swym.Parking.Wakeup.{commit_wakes}
use swym.Tests.Sample.{three_IsTime, cells, one_write-IsSynced, logs, visits, visits-Ends}

try_clear_unpark_bits-Bits_example :
    Bits 3 (logged logs) cells (try_clear_unpark_bits false [] 3 logs cells)
try_clear_unpark_bits-Bits_example = try_clear_unpark_bits-Bits false [] 3 logs cells

-- The memory once a thread sleeps that has read cell 32 and written cell 16.
abbrev asleep : World
asleep = record { memory = (try_clear_unpark_bits false [] 3 logs cells).1; clock = 5 }

sleeps : try_clear_unpark_bits false [] 3 logs cells ≡ (true, asleep.memory)
unfolding try_clear_unpark_bits begin_htx_park clear_soft clear_all logged ReadLog.epoch_locks
    Entries.epoch_locks try_clear_unpark_bit try_clear_unpark_bit_from
sleeps = refl

can : CanCommit 3 asleep.memory logs.write_log.entries (32 ∷ [])
unfolding try_clear_unpark_bits begin_htx_park clear_soft clear_all logged ReadLog.epoch_locks
    Entries.epoch_locks try_clear_unpark_bit try_clear_unpark_bit_from unwritten
can = record { lockable = ((refl, omega arith), tt); readable = (omega arith, tt) }

-- Another thread writes cell 16.
commits :
    (o : Outcome) × (commit_soft 3 visits asleep logs ≡ some o)
    × Committed 3 asleep logs (32 ∷ []) o
commits =
    commit_soft-Committed 3 visits asleep logs (32 ∷ []) three_IsTime one_write-IsSynced
      new-IsBalanced (unfold Garbage.new in omega arith) (unfold Garbage.new in omega arith)
      (omega arith) (omega arith, tt) visits-Ends refl

Committed-success : (o : Outcome) → Committed 3 asleep logs (32 ∷ []) o → o.success ≡ true
Committed-success o (success c ok at_cells ticked unparks sealed ready) = ok
Committed-success o (failed cannot fails same same_clock dropped ready bags) = absurd (cannot can)

waits : member 16 (logged logs) ≡ true
unfolding logged ReadLog.epoch_locks Entries.epoch_locks
waits = refl

writes : member 16 (epoch_locks logs.write_log.entries) ≡ true
unfolding epoch_locks
writes = refl

commit_wakes_example :
    (commits.0.unparks ≡ true) × (should_unpark 3 logs commits.0.world.memory ≡ true)
commit_wakes_example =
    commit_wakes false [] 3 logs cells 3 asleep logs (32 ∷ []) commits.0 16 sleeps commits.2
      (Committed-success commits.0 commits.2) waits writes
      (record { begun = omega arith; unlocked = omega arith }) (omega arith)
