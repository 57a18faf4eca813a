-- ===== src/Tests/Writing.antt =====
-- src/internal/write_log.rs.
use swym.Shared.{◌≡◌, some, [], ◌∷◌, refl, arith}
use swym.Bloom
use swym.Bloom.{overflowed}
use swym.Bloom.Bits.{test_bit}
use swym.WriteLog
use swym.WriteLog.Entries.{offsets, word_len, word_index}
use swym.WriteLog.Layout.{view}
use swym.WriteLog.{
  WriteLog, contained_set, record_write, find, find_skip_filter, entry, vacant, occupied, overwrite,
  tombstone_replace, overflow, clear,
}
use swym.WriteLog.Refine.{Finds, find-Finds, new-IsSynced}
use swym.WriteLog.Writes.{Writes, record_write-Writes}
use swym.WriteLog.Slow.{vacant-Writes, tombstone_replace-Writes}
use swym.WriteLog.Stale.{find_confused, entry_again}
use swym.Tests.Sample.{filtered, one_write, filters_16, one_write-IsSynced}

find-Finds_example : Finds 16 one_write (find 16 one_write)
find-Finds_example = find-Finds 16 one_write one_write-IsSynced

finds_7 : (find 16 one_write).0 ≡ some (record { dest = some 16; pending = 7 ∷ [] })
unfolding find find_skip_filter overflow Bloom.to_overflow Bloom.run_overflow Bloom.contained
    test_bit offsets Bloom.extend Bloom.insert Bloom.lookup word_index
finds_7 = refl

record_write-Writes_example : Writes 16 (7 ∷ []) WriteLog.new (record_write 16 (7 ∷ []) 8 filtered)
record_write-Writes_example =
    record_write-Writes 16 (7 ∷ []) 8 WriteLog.new filtered new-IsSynced filters_16

-- The log after the hash map has taken over.
abbrev overflowed_log : WriteLog
overflowed_log = record one_write {
  bloom = record { filter = overflowed; overflow = (16, 0) ∷ [] };
}

-- The same after a write of cell 32 was looked up.
abbrev stale_log : WriteLog
stale_log = record one_write {
  bloom = record { filter = overflowed; overflow = (16, 0) ∷ (32, 3) ∷ [] };
}

abbrev stale_log_2 : WriteLog
stale_log_2 = record one_write {
  bloom = record { filter = overflowed; overflow = (16, 0) ∷ (32, 3) ∷ (48, 3) ∷ [] };
}

has_16 : entry 16 one_write ≡ (occupied 0, overflowed_log)
unfolding entry overflow Bloom.to_overflow Bloom.run_overflow offsets Bloom.extend Bloom.insert
    Bloom.lookup
has_16 = refl

lacks_32 : entry 32 one_write ≡ (vacant, stale_log)
unfolding entry overflow Bloom.to_overflow Bloom.run_overflow offsets Bloom.extend Bloom.insert
    Bloom.lookup word_len
lacks_32 = refl

lacks_48 : entry 48 stale_log ≡ (vacant, stale_log_2)
unfolding entry overflow Bloom.to_overflow Bloom.run_overflow offsets Bloom.extend Bloom.insert
    Bloom.lookup word_len
lacks_48 = refl

vacant-Writes_example : Writes 32 (9 ∷ []) one_write (record_write 32 (9 ∷ []) 8 stale_log)
vacant-Writes_example = vacant-Writes 32 (9 ∷ []) 8 one_write stale_log one_write-IsSynced lacks_32

views_7 : view 16 one_write.entries ≡ some (7 ∷ [])
unfolding view
views_7 = refl

tombstone_replace-Writes_example :
    Writes 16 (9 ∷ []) one_write (tombstone_replace 0 16 (9 ∷ []) 8 overflowed_log)
tombstone_replace-Writes_example =
    tombstone_replace-Writes 16 0 (9 ∷ []) 8 one_write overflowed_log one_write-IsSynced has_16

find_confused_example :
    (find 32 (record_write 48 (9 ∷ []) 8 stale_log_2)).0
    ≡ some (record { dest = some 48; pending = 9 ∷ [] })
find_confused_example =
    find_confused 32 48 (9 ∷ []) 8 one_write stale_log stale_log_2 one_write-IsSynced (omega arith)
      lacks_32 lacks_48

entry_again_example : entry 32 stale_log ≡ (occupied 3, stale_log)
unfolding word_len
entry_again_example = entry_again 32 one_write stale_log one_write-IsSynced lacks_32
