-- ===== src/Commit/Cells.antt =====
-- src/internal/commit.rs: what a commit needs of the cells, and what it does to them.
use swym.Shared.{
  ℕ, ◌<◌, ◌≡◌, true, false, none, some, List, [], ◌∷◌, ◌==◌, All, member, Distinct, arith, ◌↔◌, inl,
  inr, Bool-cases,
}
use swym.Epoch.Word.{QuiesceEpoch, IsTime, word_mod, toggle_lock_bit}
use swym.Epoch.Lock
use swym.Epoch.Lock.{ParkStatus, no_parked, has_parked, merge, is_locked, park_status}
use swym.Memory.{Memory}
use swym.ReadLog.Laws.{IsReadable}
use swym.WriteLog.Entries.{WriteEntry, epoch_locks}
use swym.WriteLog.Layout.{view, view-member, member-view}
use swym.Commit.Locks.{take_while_ne, for_each_lock}
use swym.Commit.Loops.{
  for_each_lock-at, perform_writes-at, IsLockable, LockAt, member-take_while_ne,
}
use swym.Commit.{perform_writes, publish}
use swym.Commit.Filter.{unwritten}

-- A transaction that may commit at its pinned epoch: every cell that it writes is free and no later
-- than the epoch, and so is every other cell that it read.
pub record CanCommit (e : QuiesceEpoch) (m : Memory) (es : List WriteEntry) (ks : List ℕ)
    : Type 0 where
  pub lockable : All (IsLockable e m) (epoch_locks es)
  pub readable : All (IsReadable e m) (unwritten es ks)

-- Locking the written cells does not change what a validation of the others says.
pub IsReadable-LockAt :
    (e : QuiesceEpoch) (es : List WriteEntry) (ks : List ℕ) (m m' : Memory)
    → LockAt (epoch_locks es) m m'
    → All (IsReadable e m) (unwritten es ks) ↔ All (IsReadable e m') (unwritten es ks)
unfolding unwritten
IsReadable-LockAt e es [] m m' l = ((λ _. tt), λ _. tt)
IsReadable-LockAt e es (k ∷ ks) m m' l = elim (Bool-cases (member k (epoch_locks es))) [
  | inl written ↦ rw written (IsReadable-LockAt e es ks m m' l)
  | inr other ↦
      let same : m' k ≡ m k = rw (l k) (rw other) in
      let rest = IsReadable-LockAt e es ks m m' l in
      rw other ((λ a. (rw same a.0, rest.0 a.1)), λ a. (rw same at a.0, rest.1 a.1))
]

-- A cell after a commit: one with a pending value holds it, at the epoch after the clock's.
abbrev pub committed : QuiesceEpoch → List WriteEntry → Memory → Memory
committed epoch es m j = elim (view j es) [
  | none ↦ m j
  | some v ↦ record { value = v; current_epoch = epoch }
]

pub publish-committed :
    (epoch : QuiesceEpoch) (es : List WriteEntry) (m m' : Memory) (j : ℕ)
    → Distinct (epoch_locks es)
    → LockAt (epoch_locks es) m m'
    → publish (epoch_locks es) epoch (perform_writes es m') j ≡ committed epoch es m j
unfolding publish
publish-committed epoch es m m' j d l =
    rw (for_each_lock-at (Lock.unlock_publish epoch) (epoch_locks es) (perform_writes es m') j d) (
      rw (perform_writes-at es m' j d)
        (rw (l j) (ground (arith, view-member j es, member-view j es))))

toggle_twice :
    (w : ℕ) → is_locked w ≡ false → w < word_mod → toggle_lock_bit (toggle_lock_bit w) ≡ w
toggle_twice w h q = ground arith

pub All-at :
    (e : QuiesceEpoch) (m : Memory) (j : ℕ) (ks : List ℕ)
    → All (IsLockable e m) ks
    → member j ks ≡ true
    → IsLockable e m j
All-at e m j [] a h = absurd (cc)
All-at e m j (k ∷ ks) a h = elim (Bool-cases (k == j)) [
  | inl here ↦ let same : k ≡ j = ground arith in rw (← same) a.0
  | inr there ↦ All-at e m j ks a.1 (rw there at h)
]

-- Giving back the locks that were taken restores every cell.
pub undo-LockAt :
    (e : QuiesceEpoch) (ks : List ℕ) (m m' : Memory) (j : ℕ)
    → IsTime e
    → Distinct ks
    → All (IsLockable e m) ks
    → LockAt ks m m'
    → for_each_lock Lock.unlock_undo ks m' j ≡ m j
undo-LockAt e ks m m' j t d a l =
    rw (for_each_lock-at Lock.unlock_undo ks m' j d)
      (rw (l j) (ground (arith, All-at e m j ks a, toggle_twice (m j).current_epoch)))

pub Distinct-take_while_ne :
    (stop : ℕ) (ks : List ℕ) → Distinct ks → Distinct (take_while_ne stop ks)
unfolding take_while_ne
Distinct-take_while_ne stop [] d = tt
Distinct-take_while_ne stop (k ∷ ks) d = elim (Bool-cases (k == stop)) [
  | inl here ↦ rw here tt
  | inr there ↦ rw there (member-take_while_ne k stop ks d.0, Distinct-take_while_ne stop ks d.1)
]
