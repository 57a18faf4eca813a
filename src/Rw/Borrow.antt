-- ===== src/Rw/Borrow.antt =====
-- src/rw.rs: what a read of a read-write transaction returns.
use swym.Shared.{
  ℕ, ◌≡◌, ◌⊎◌, ◌++◌, [], ◌∷◌, true, false, not, Option, none, some, List, arith, inl, inr, refl,
  Bool-cases, ◌&&◌,
}
use swym.Epoch.Word.{QuiesceEpoch}
use swym.ReadLog
use swym.ReadLog.{valid_at, record_read}
use swym.ReadLog.Laws.{IsReadable}
use swym.WriteLog
use swym.WriteLog.{WriteLog}
use swym.WriteLog.Entries.{WriteEntry}
use swym.WriteLog.Layout.{view}
use swym.WriteLog.Refine.{IsSynced, Finds, find-Finds}
use swym.Logs.{Logs}
use swym.Rw.{
  Loads, ok, conflict, is_no, Growth, log_read, with_write_log, borrow_found, borrow_slow,
  borrow_impl,
}

-- A value that one of the two attempts loaded from the cell, before it found the lock readable.
abbrev pub Loaded : QuiesceEpoch → ℕ → Loads → List ℕ → Type 0
Loaded e k m v =
    (v ≡ (m.fast_value k).value) × IsReadable e m.fast_check k
    ⊎ (v ≡ (m.slow_value k).value) × IsReadable e m.slow_check k

-- What a read that succeeded says: the transaction's own pending value, with no read logged, or a
-- value that was loaded from the cell, with the read logged.
pub data Borrowed (e : QuiesceEpoch) (k : ℕ) (m : Loads) (v : List ℕ) (logs logs' : Logs)
    : Type 0 where
  own :
      view k logs.write_log.entries ≡ some v
      → logs'.read_log ≡ logs.read_log
      → Borrowed e k m v logs logs'
  loaded :
      view k logs.write_log.entries ≡ none
      → Loaded e k m v
      → logs'.read_log.entries ≡ logs.read_log.entries ++ some k ∷ []
      → Borrowed e k m v logs logs'

-- What every read keeps: the pending writes, the garbage, and the agreement of the write log.
pub record Keeps (logs logs' : Logs) : Type 0 where
  pub synced : IsSynced logs'.write_log
  pub same_writes : logs'.write_log.entries ≡ logs.write_log.entries
  pub same_garbage : logs'.garbage ≡ logs.garbage

module _ (e : QuiesceEpoch) (k : ℕ) (m : Loads) (grow : Growth) (logs : Logs)
    (s : IsSynced logs.write_log) where
  borrow_found-Keeps :
      (o : Option WriteEntry) (w : WriteLog)
      → Finds k logs.write_log (o, w)
      → Keeps logs (borrow_found o e k m grow (with_write_log logs w)).1
  borrow_found-Keeps o w f = by_found o (Bool-cases (valid_at e m.slow_check k))
    where
      kept : Keeps logs (with_write_log logs w)
      kept = record { synced = f.synced; same_writes = f.same; same_garbage = refl }

      kept_read : Keeps logs (log_read k grow (with_write_log logs w))
      kept_read = record { synced = f.synced; same_writes = f.same; same_garbage = refl }

      by_found :
          (o : Option WriteEntry)
          → (valid_at e m.slow_check k ≡ true) ⊎ (valid_at e m.slow_check k ≡ false)
          → Keeps logs (borrow_found o e k m grow (with_write_log logs w)).1
      by_found none (inl t) = rw t kept_read
      by_found none (inr t) = rw t kept
      by_found (some x) (inl t) = rw t kept
      by_found (some x) (inr t) = rw t kept

  borrow_found-Borrowed :
      (o : Option WriteEntry) (w : WriteLog) (v : List ℕ)
      → Finds k logs.write_log (o, w)
      → (borrow_found o e k m grow (with_write_log logs w)).0 ≡ ok v
      → Borrowed e k m v logs (borrow_found o e k m grow (with_write_log logs w)).1
  unfolding record_read
  borrow_found-Borrowed none w v f h = elim (Bool-cases (valid_at e m.slow_check k)) [
    | inr t ↦ absurd (ground arith)
    | inl t ↦
        let h' : ok (m.slow_value k).value ≡ ok v = rw t at h in
        rw t (loaded (ground (arith, f.found)) (inr (ground arith, ground arith)) refl)
  ]
  borrow_found-Borrowed (some x) w v f h = elim (Bool-cases (valid_at e m.slow_check k)) [
    | inr t ↦ absurd (ground arith)
    | inl t ↦ let h' : ok x.pending ≡ ok v = rw t at h in rw t (own (ground (arith, f.found)) refl)
  ]

  borrow_slow-Keeps : Keeps logs (borrow_slow e k m grow logs).1
  unfolding borrow_slow
  borrow_slow-Keeps =
      borrow_found-Keeps (WriteLog.find k logs.write_log).0 (WriteLog.find k logs.write_log).1
        (find-Finds k logs.write_log s)

  -- Whatever it returns, a read keeps the pending writes, the garbage and the invariant of the
  -- write log.
  pub borrow_impl-Keeps : Keeps logs (borrow_impl e k m grow logs).1
  unfolding borrow_impl
  borrow_impl-Keeps =
      elim (Bool-cases (
        not (ReadLog.next_push_allocates logs.read_log)
        && is_no (WriteLog.contained k logs.write_log)
        && valid_at e m.fast_check k)) [
          | inl fast ↦ rw fast (record { synced = s; same_writes = refl; same_garbage = refl })
          | inr slow ↦ rw slow borrow_slow-Keeps
        ]

  borrow_slow-Borrowed :
      (v : List ℕ)
      → (borrow_slow e k m grow logs).0 ≡ ok v
      → Borrowed e k m v logs (borrow_slow e k m grow logs).1
  unfolding borrow_slow
  borrow_slow-Borrowed v h =
      borrow_found-Borrowed (WriteLog.find k logs.write_log).0 (WriteLog.find k logs.write_log).1 v
        (find-Finds k logs.write_log s) h

  -- A read that succeeds returns the transaction's own pending value of the cell, if there is one,
  -- and logs no read; else it returns a value loaded from the cell before the lock was found
  -- readable, and logs the read; on the fast path and on the slow one. Condition: the filter and
  -- the hash map of the write log agree with its entries, which may fail once a write has returned
  -- SetError and the transaction has gone on.
  pub borrow_impl-Borrowed :
      (v : List ℕ)
      → (borrow_impl e k m grow logs).0 ≡ ok v
      → Borrowed e k m v logs (borrow_impl e k m grow logs).1
  unfolding borrow_impl record_read
  borrow_impl-Borrowed v h =
      elim (Bool-cases (
        not (ReadLog.next_push_allocates logs.read_log)
        && is_no (WriteLog.contained k logs.write_log)
        && valid_at e m.fast_check k)) [
          | inl fast ↦
              let h' : ok (m.fast_value k).value ≡ ok v = ground arith in
              rw fast
                (loaded (ground (arith, s.filtered k)) (inl (ground arith, ground arith)) refl)
          | inr slow ↦ rw slow (borrow_slow-Borrowed v (rw slow at h))
        ]

  -- A read fails only if it finds the lock held, or of a later epoch, in its last attempt.
  pub borrow_impl_conflict :
      (borrow_impl e k m grow logs).0 ≡ conflict → valid_at e m.slow_check k ≡ false
  unfolding borrow_impl borrow_slow
  borrow_impl_conflict h = by_found (WriteLog.find k logs.write_log).0 (ground arith)
    where
      by_found :
          (o : Option WriteEntry)
          → (borrow_found o e k m grow (with_write_log logs (WriteLog.find k logs.write_log).1)).0
            ≡ conflict
          → valid_at e m.slow_check k ≡ false
      by_found none q = ground arith
      by_found (some x) q = ground arith
