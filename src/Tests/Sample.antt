-- ===== src/Tests/Sample.antt =====
-- The logs, cells and threads that the tests share.
use swym.WriteLog.Entries.{word_len}
use swym.Shared.{inl, List, ◌≤◌, All, true, false, [], ◌∷◌, some, refl, arith, ◌≡◌}
use swym.Epoch.Word.{QuiesceEpoch, IsTime}
use swym.Memory.{Memory}
use swym.Bloom
use swym.Bloom.{no_key}
use swym.Bloom.Bits.{test_bit, set_bit}
use swym.WriteLog
use swym.WriteLog.{WriteLog, contained_set, record_write, overflow}
use swym.WriteLog.Refine.{IsSynced, new-IsSynced}
use swym.WriteLog.Writes.{record_write-Writes}
use swym.Gc.Garbage
use swym.Gc.Garbage.{ThreadGarbage, Bag, SealedBag}
use swym.Logs.{Logs}
use swym.Gc.Quiesce.{Visit}
use swym.Gc.Quiesce.Laws.{Ends}
use swym.Commit.{World}
use swym.Rw.{Loads, Growth, Write}

-- Every cell holds its own address at the first epoch.
abbrev pub cells : Memory
cells = λ k. record { value = k ∷ []; current_epoch = 3 }

-- The same with cell 32 at a later epoch.
abbrev pub later_cells : Memory
later_cells = λ k. record { value = k ∷ []; current_epoch = 5 }

pub three_IsTime : IsTime 3
three_IsTime = record { begun = omega arith; unlocked = omega arith }

-- A log in which cell 16 has the pending value 7.
abbrev pub filtered : WriteLog
filtered = record WriteLog.new { bloom = record { filter = 2; overflow = [] } }

abbrev pub one_write : WriteLog
one_write = record {
  bloom = record { filter = 2; overflow = [] };
  entries = record { dest = some 16; pending = 7 ∷ [] } ∷ [];
  capacity = 8;
}

pub filters_16 : contained_set 16 WriteLog.new ≡ (no_key, filtered)
unfolding contained_set Bloom.insert_inline test_bit set_bit
filters_16 = refl

records_16 : record_write 16 (7 ∷ []) 8 filtered ≡ one_write
unfolding record_write WriteLog.push word_len
records_16 = refl

pub one_write-IsSynced : IsSynced one_write
one_write-IsSynced =
    rw (← records_16)
      (record_write-Writes 16 (7 ∷ []) 8 WriteLog.new filtered new-IsSynced filters_16).synced

abbrev pub growth : Growth
growth = record { reads = 4; writes = 8; trash = 8 }

-- A transaction that has read cell 32 and written cell 16.
abbrev pub logs : Logs
logs = record {
  read_log = record { entries = some 32 ∷ []; capacity = 4 };
  write_log = one_write;
  garbage = Garbage.new;
}

abbrev pub loads : Loads
loads = record { fast_value = cells; fast_check = cells; slow_value = cells; slow_check = cells }

abbrev pub late_loads : Loads
late_loads = record {
  fast_value = cells;
  fast_check = later_cells;
  slow_value = cells;
  slow_check = later_cells;
}

abbrev pub nine : Write
nine = record { val = 9 ∷ []; needs_drop = true; request_tcell_lifetime = false }

abbrev pub world : World
world = record { memory = cells; clock = 5 }

-- One other thread, which is pinned past the clock.
abbrev pub visits : List Visit
visits = record { td_epoch = 9; loads = [] } ∷ []

pub visits-Ends : (x : QuiesceEpoch) → x ≤ 5 → All (Ends x) visits
visits-Ends x h = (inl (omega arith), tt)
