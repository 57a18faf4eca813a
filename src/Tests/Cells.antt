-- ===== src/Tests/Cells.antt =====
-- Cells that are set and replaced in a transaction.
use swym.Shared.{[], ◌∷◌, false, some, refl, arith, ◌≡◌}
use swym.WriteLog
use swym.WriteLog.Entries
use swym.WriteLog.Layout.{view}
use swym.Bloom
use swym.Bloom.Bits.{test_bit}
use swym.Rw.{set_impl, set_slow}
use swym.Rw.Set.{IsSized}
use swym.Tcell.{set_ok, borrow, read, plain, publish, set, replace}
use swym.Tcell.Owned.{checked, borrow-set}
use swym.Tcell.Replace.{Replaced, replace-Replaced}
use swym.Tests.Sample.{one_write, one_write-IsSynced, logs, loads, late_loads, growth}

plain-IsSized : IsSized 16 (plain false (9 ∷ [])) one_write
unfolding view
plain-IsSized w h = ground arith

sets_16 :
    set 1 false 3 16 (9 ∷ []) loads growth logs
    ≡ some (set_ok tt, (set_impl 3 16 (plain false (9 ∷ [])) loads growth logs).1)
unfolding set publish set_impl set_slow WriteLog.entry WriteLog.contained_set Bloom.insert_inline
    test_bit Entries.word_len Bloom.lookup WriteLog.overflow Bloom.to_overflow Bloom.extend
    Entries.offsets Bloom.insert
sets_16 = refl

borrow-set_example :
    (borrow 1 read 3 16 loads growth (set_impl 3 16 (plain false (9 ∷ [])) loads growth logs).1).0
    ≡ checked 3 16 loads (9 ∷ [])
borrow-set_example =
    borrow-set 1 false 3 16 (9 ∷ []) loads loads growth growth logs
      (set_impl 3 16 (plain false (9 ∷ [])) loads growth logs).1 read (λ h. ground arith)
      one_write-IsSynced plain-IsSized sets_16

replace-Replaced_example :
    Replaced
      (λ v. v)
      false
      3
      16
      (9 ∷ [])
      loads
      late_loads
      growth
      logs
      (replace (λ v. v) 1 false 3 16 (9 ∷ []) loads late_loads growth logs)
replace-Replaced_example =
    replace-Replaced (λ v. v) 1 false 3 16 (9 ∷ []) loads late_loads growth logs (λ h. ground arith)
      refl one_write-IsSynced plain-IsSized
