-- ===== src/Commit/Hard/Cells.antt =====
-- src/internal/commit.rs: what a commit in hardware needs of the cells, and what it does to them.
use swym.Shared.{ℕ, ◌≡◌, List, [], ◌∷◌, All, member, Distinct, arith, inl, inr, Bool-cases}
use swym.Epoch.Word.{QuiesceEpoch}
use swym.Epoch.Lock
use swym.Epoch.Lock.{ParkStatus, no_parked}
use swym.Memory.{Memory}
use swym.ReadLog.Laws.{IsReadable}
use swym.WriteLog.Entries.{WriteEntry, epoch_locks}
use swym.WriteLog.Layout.{view-member, member-view}
use swym.Commit.Loops.{for_each_lock-at, IsLockable}
use swym.Commit.Filter.{unwritten}
use swym.Commit.Cells.{committed, All-at}
use swym.Commit.Hard.Laws.{WrittenAt}
use swym.Commit.{publish}

-- A transaction that may commit could read every cell that it read, the written ones included.
pub CanCommit-IsReadable :
    (e : QuiesceEpoch) (m : Memory) (es : List WriteEntry) (ks : List ℕ)
    → All (IsLockable e m) (epoch_locks es)
    → All (IsReadable e m) (unwritten es ks)
    → All (IsReadable e m) ks
unfolding unwritten
CanCommit-IsReadable e m es [] l r = tt
CanCommit-IsReadable e m es (k ∷ ks) l r = elim (Bool-cases (member k (epoch_locks es))) [
  | inl written ↦ (
    (All-at e m k (epoch_locks es) l written).1,
    CanCommit-IsReadable e m es ks l (rw written at r),
  )
  | inr other ↦
      let r' : All (IsReadable e m) (k ∷ unwritten es ks) = rw other at r in
      (r'.0, CanCommit-IsReadable e m es ks l r'.1)
]

pub IsReadable-unwritten :
    (e : QuiesceEpoch) (m : Memory) (es : List WriteEntry) (ks : List ℕ)
    → All (IsReadable e m) ks
    → All (IsReadable e m) (unwritten es ks)
unfolding unwritten
IsReadable-unwritten e m es [] r = tt
IsReadable-unwritten e m es (k ∷ ks) r = elim (Bool-cases (member k (epoch_locks es))) [
  | inl written ↦ rw written (IsReadable-unwritten e m es ks r.1)
  | inr other ↦ rw other (r.0, IsReadable-unwritten e m es ks r.1)
]

pub publish-WrittenAt :
    (epoch : QuiesceEpoch) (es : List WriteEntry) (m m' : Memory) (j : ℕ)
    → Distinct (epoch_locks es)
    → WrittenAt es m m'
    → publish (epoch_locks es) epoch m' j ≡ committed epoch es m j
unfolding publish
publish-WrittenAt epoch es m m' j d written =
    rw (for_each_lock-at (Lock.unlock_publish epoch) (epoch_locks es) m' j d)
      (rw (written j) (ground (arith, view-member j es, member-view j es)))
