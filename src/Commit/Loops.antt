-- ===== src/Commit/Loops.antt =====
-- src/internal/commit.rs: what the loops of a commit do to each cell.
use swym.Shared.{
  ℕ, ◌≤◌, ◌≡◌, true, false, Option, none, some, List, [], ◌∷◌, ◌==◌, if◌then◌else◌, All, member,
  Distinct, arith, refl, ==_refl,
}
use swym.Epoch.Word.{QuiesceEpoch, IsTime, toggle_lock_bit}
use swym.Epoch.Lock.{ParkStatus, merge, try_lock, is_locked, park_status}
use swym.Epoch.Lock.Laws.{Locked, try_lock-Locked, try_lock-refused}
use swym.Memory.{TCell, Memory, store_epoch}
use swym.WriteLog.Entries.{WriteEntry, epoch_locks}
use swym.WriteLog.Layout.{view, Distinct-cons_some, view-member}
use swym.Commit.Locks.{
  LockLoop, locked, failed_at, lock_step, lock_all, take_while_ne, for_each_lock,
}
use swym.Commit.{perform_write, perform_writes}

-- A cell with another word in its lock.
abbrev pub with_epoch : (ℕ → ℕ) → TCell → TCell
with_epoch f c = record { value = c.value; current_epoch = f c.current_epoch }

-- `for_each` over distinct locks changes each of them once, and no other.
pub for_each_lock-at :
    (f : ℕ → ℕ) (ks : List ℕ) (m : Memory) (j : ℕ)
    → Distinct ks
    → for_each_lock f ks m j ≡ (if member j ks then with_epoch f (m j) else m j)
unfolding for_each_lock
for_each_lock-at f [] m j d = refl
for_each_lock-at f (k ∷ ks) m j d =
    rw (for_each_lock-at f ks (store_epoch k (f (m k).current_epoch) m) j d.1) (ground arith)

-- The writes of a log put the pending value of each cell into it, and touch no other cell.
abbrev pub with_value : Option (List ℕ) → TCell → TCell
with_value none c = c
with_value (some v) c = record { value = v; current_epoch = c.current_epoch }

pub perform_writes-at :
    (es : List WriteEntry) (m : Memory) (j : ℕ)
    → Distinct (epoch_locks es)
    → perform_writes es m j ≡ with_value (view j es) (m j)
unfolding perform_writes view epoch_locks
perform_writes-at [] m j d = refl
perform_writes-at (e ∷ es) m j d =
    rw (perform_writes-at es (perform_write e.dest e.pending m) j (Distinct-cons_some _ e.dest d))
      (ground (arith, view-member j es))

-- A lock that `try_lock` takes.
abbrev pub IsLockable : QuiesceEpoch → Memory → ℕ → Type 0
IsLockable e m k = (is_locked (m k).current_epoch ≡ false) × ((m k).current_epoch ≤ e)

IsLockable-store :
    (e w : ℕ) (k : ℕ) (m : Memory) (ks : List ℕ)
    → member k ks ≡ false
    → All (IsLockable e (store_epoch k w m)) ks
    → All (IsLockable e m) ks
IsLockable-store e w k m [] h a = tt
IsLockable-store e w k m (j ∷ ks) h a =
    (ground (arith, a.0), IsLockable-store e w k m ks (ground arith) a.1)

-- Whether some lock of a list has its unpark bit clear.
abbrev pub status_of : List ℕ → Memory → ParkStatus → ParkStatus
status_of [] m status = status
status_of (k ∷ ks) m status = status_of ks m (merge status (park_status (m k).current_epoch))

status_of-store :
    (k w : ℕ) (ks : List ℕ) (m : Memory) (status : ParkStatus)
    → member k ks ≡ false
    → status_of ks (store_epoch k w m) status ≡ status_of ks m status
status_of-store k w [] m status h = refl
status_of-store k w (j ∷ ks) m status h =
    let same : store_epoch k w m j ≡ m j = ground arith in
    rw same
      (status_of-store k w ks m (merge status (park_status (m j).current_epoch)) (ground arith))

-- The cells of `ks` locked, and all else as it was.
abbrev pub LockAt : List ℕ → Memory → Memory → Type 0
LockAt ks m m' = (j : ℕ) → m' j ≡ (if member j ks then with_epoch toggle_lock_bit (m j) else m j)

LockAt-cons :
    (k w : ℕ) (ks : List ℕ) (m m' : Memory)
    → member k ks ≡ false
    → w ≡ toggle_lock_bit (m k).current_epoch
    → LockAt ks (store_epoch k w m) m'
    → LockAt (k ∷ ks) m m'
LockAt-cons k w ks m m' h q l j = ground (arith, l j)

-- The outcome of the locking loop.
abbrev pub LockOutcome : QuiesceEpoch → List ℕ → ParkStatus → Memory → LockLoop × Memory → Type 0
LockOutcome e ks status m (locked status', m') =
    All (IsLockable e m) ks × LockAt ks m m' × (status' ≡ status_of ks m status)
LockOutcome e ks status m (failed_at k, m') =
    All (IsLockable e m) (take_while_ne k ks)
    × LockAt (take_while_ne k ks) m m'
    × (member k ks ≡ true)
    × ¬ IsLockable e m k

pub member-take_while_ne :
    (k stop : ℕ) (ks : List ℕ) → member k ks ≡ false → member k (take_while_ne stop ks) ≡ false
unfolding take_while_ne
member-take_while_ne k stop [] h = refl
member-take_while_ne k stop (j ∷ ks) h = ground (arith, member-take_while_ne k stop ks)

-- The locking loop either holds every lock, each of which was free and not later than the epoch;
-- or it stopped at the first that was not, and holds those before it.
pub lock_all-Outcome :
    (e : QuiesceEpoch) (ks : List ℕ) (status : ParkStatus) (m : Memory)
    → IsTime e
    → Distinct ks
    → LockOutcome e ks status m (lock_all e ks status m)
unfolding lock_all take_while_ne
lock_all-Outcome e [] status m t d = (tt, (λ j. refl), refl)
lock_all-Outcome e (k ∷ ks) status m t d =
    by_lock (try_lock e (m k).current_epoch) refl
      (λ w cur. lock_all-Outcome e ks (merge status cur) (store_epoch k w m) t d.1)
  where
    by_loop :
        (w : ℕ) (cur : ParkStatus)
        → Locked e (m k).current_epoch w cur
        → (r : LockLoop × Memory) → LockOutcome e ks (merge status cur) (store_epoch k w m) r
        → LockOutcome e (k ∷ ks) status m r
    by_loop w cur l (locked s, m') o = (
      ((l.was_free, l.not_later), IsLockable-store e w k m ks d.0 o.0),
      LockAt-cons k w ks m m' d.0 l.toggled o.1,
      ground (arith, o.2, l.status_read, status_of-store k w ks m (merge status cur) d.0),
    )
    by_loop w cur l (failed_at x, m') o =
        let apart : k == x ≡ false = ground (arith, o.2, d.0) in
        rw apart (
          (
            (l.was_free, l.not_later),
            IsLockable-store e w k m _ (member-take_while_ne k x ks d.0) o.0,
          ),
          LockAt-cons k w _ m m' (member-take_while_ne k x ks d.0) l.toggled o.1,
          o.2,
          (λ h. o.3 (ground (arith, h.0, h.1))),
        )

    by_lock :
        (r : Option ParkStatus × ℕ)
        → try_lock e (m k).current_epoch ≡ r
        → ((w : ℕ) (cur : ParkStatus)
            → LockOutcome e ks
                (merge status cur)
                (store_epoch k w m)
                (lock_all e ks (merge status cur) (store_epoch k w m)))
        → LockOutcome e (k ∷ ks) status m (lock_step r k status m (λ s m'. lock_all e ks s m'))
    by_lock (none, w) q rest =
        rw (==_refl k) (tt, (λ j. refl), refl, try_lock-refused e (m k).current_epoch w q)
    by_lock (some cur, w) q rest =
        by_loop w cur (try_lock-Locked e (m k).current_epoch w cur t q) _ (rest w cur)
