-- ===== src/Tests/Transactions.antt =====
-- src/rw.rs, src/internal/commit.rs.
use swym.Shared.{◌≡◌, some, [], ◌∷◌, refl, arith}
use swym.Bloom
use swym.Bloom.Bits.{test_bit}
use swym.WriteLog
use swym.WriteLog.{WriteLog}
use swym.WriteLog.Layout.{view}
use swym.Gc.Garbage
use swym.Gc.Garbage.Balance.{new-IsBalanced}
use swym.Rw.{ok, conflict, borrow_impl, borrow_slow, set_impl}
use swym.Rw.Borrow.{Borrowed, borrow_impl-Borrowed}
use swym.Rw.Set
use swym.Rw.Set.{IsSized, set_impl-Outcome}
use swym.Commit.{Outcome, commit_soft}
use swym.Commit.Atomic.{Committed, commit_soft-Committed}
use swym.Tests.Sample.{
  three_IsTime, one_write, one_write-IsSynced, logs, loads, late_loads, growth, nine, world, visits,
  visits-Ends,
}

reads_48 : (borrow_impl 3 48 loads growth logs).0 ≡ ok (48 ∷ [])
unfolding borrow_impl Bloom.contained test_bit
reads_48 = refl

borrow_impl-Borrowed_example :
    Borrowed 3 48 loads (48 ∷ []) logs (borrow_impl 3 48 loads growth logs).1
borrow_impl-Borrowed_example =
    borrow_impl-Borrowed 3 48 loads growth logs one_write-IsSynced (48 ∷ []) reads_48

conflicts_48 : (borrow_impl 3 48 late_loads growth logs).0 ≡ conflict
unfolding borrow_impl borrow_slow WriteLog.find Bloom.contained test_bit
conflicts_48 = refl

nine-IsSized : IsSized 16 nine one_write
unfolding view
nine-IsSized w h = ground arith

set_impl-Outcome_example :
    Set.Outcome 3 16 nine loads growth logs (set_impl 3 16 nine loads growth logs)
set_impl-Outcome_example =
    set_impl-Outcome 3 16 nine loads growth logs one_write-IsSynced nine-IsSized

commit_soft-Committed_example :
    (o : Outcome) × (commit_soft 3 visits world logs ≡ some o) × Committed 3 world logs (32 ∷ []) o
commit_soft-Committed_example =
    commit_soft-Committed 3 visits world logs (32 ∷ []) three_IsTime one_write-IsSynced
      new-IsBalanced (unfold Garbage.new in omega arith) (unfold Garbage.new in omega arith)
      (omega arith) (omega arith, tt) visits-Ends refl
