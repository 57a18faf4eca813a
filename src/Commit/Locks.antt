-- ===== src/Commit/Locks.antt =====
-- src/internal/commit.rs: the loops over the locks of the write log.
use swym.Shared.{ℕ, not, Option, none, some, List, [], ◌∷◌, ◌==◌, if◌then◌else◌}
use swym.Epoch.Word.{QuiesceEpoch}
use swym.Epoch.Lock.{ParkStatus, merge, try_lock}
use swym.Memory.{Memory, store_epoch}

-- How the locking loop ends: every lock is held, or the loop stopped at a lock (`unlock_until`).
pub data LockLoop : Type 0 where
  locked : ParkStatus → LockLoop
  failed_at : ℕ → LockLoop

-- The loop of `commit_soft`, a lock at a time.
abbrev pub lock_step :
    Option ParkStatus × ℕ
    → ℕ
    → ParkStatus
    → Memory
    → (ParkStatus → Memory → LockLoop × Memory)
    → LockLoop × Memory
lock_step (none, w) k status m rest = (failed_at k, m)
lock_step (some cur, w) k status m rest = rest (merge status cur) (store_epoch k w m)

unfoldable pub lock_all : QuiesceEpoch → List ℕ → ParkStatus → Memory → LockLoop × Memory
lock_all e [] status m = (locked status, m)
lock_all e (k ∷ ks) status m =
    lock_step (try_lock e (m k).current_epoch) k status m (λ s m'. lock_all e ks s m')

-- `take_while(move |&e| !ptr::eq(e, unlock_until))`
unfoldable pub take_while_ne : ℕ → List ℕ → List ℕ
take_while_ne stop [] = []
take_while_ne stop (k ∷ ks) = if not (k == stop) then k ∷ take_while_ne stop ks else []

-- `for_each` over locks, each of which is overwritten by a function of its word.
unfoldable pub for_each_lock : (ℕ → ℕ) → List ℕ → Memory → Memory
for_each_lock f [] m = m
for_each_lock f (k ∷ ks) m = for_each_lock f ks (store_epoch k (f (m k).current_epoch) m)
