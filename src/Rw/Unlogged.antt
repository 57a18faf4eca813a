-- ===== src/Rw/Unlogged.antt =====
-- src/rw.rs: what a read that is not logged returns.
use swym.Shared.{ℕ, ◌≡◌, Option, none, some, List, arith, inl, inr, Bool-cases, ◌&&◌}
use swym.Epoch.Word.{QuiesceEpoch}
use swym.ReadLog.{valid_at}
use swym.WriteLog
use swym.WriteLog.{WriteLog}
use swym.WriteLog.Entries.{WriteEntry}
use swym.WriteLog.Layout.{view}
use swym.WriteLog.Refine.{IsSynced, Finds, find_skip_filter-Finds}
use swym.Logs.{Logs}
use swym.Rw.{Loads, ok, is_no, unlogged_found, borrow_unlogged_slow, borrow_unlogged_impl}
use swym.Rw.Borrow.{Loaded}

-- What a read that succeeded and is not logged says: the transaction's own pending value, or a
-- value that was loaded from the cell.
pub data Unlogged (e : QuiesceEpoch) (k : ℕ) (m : Loads) (v : List ℕ) (logs : Logs) : Type 0 where
  own : view k logs.write_log.entries ≡ some v → Unlogged e k m v logs
  loaded : view k logs.write_log.entries ≡ none → Loaded e k m v → Unlogged e k m v logs

module _ (e : QuiesceEpoch) (k : ℕ) (m : Loads) (logs : Logs) (s : IsSynced logs.write_log) where
  unlogged_found-Unlogged :
      (o : Option WriteEntry) (w : WriteLog) (v : List ℕ)
      → Finds k logs.write_log (o, w)
      → unlogged_found o e k m ≡ ok v
      → Unlogged e k m v logs
  unlogged_found-Unlogged none w v f h = elim (Bool-cases (valid_at e m.slow_check k)) [
    | inr t ↦ absurd (ground arith)
    | inl t ↦
        let h' : ok (m.slow_value k).value ≡ ok v = rw t at h in
        loaded (ground (arith, f.found)) (inr (ground arith, ground arith))
  ]
  unlogged_found-Unlogged (some x) w v f h = elim (Bool-cases (valid_at e m.slow_check k)) [
    | inr t ↦ absurd (ground arith)
    | inl t ↦ let h' : ok x.pending ≡ ok v = rw t at h in own (ground (arith, f.found))
  ]

  -- A read that is not logged, if it succeeds, returns the transaction's own pending value of the
  -- cell, if there is one; else a value loaded from the cell before the lock was found readable.
  pub borrow_unlogged_impl-Unlogged :
      (v : List ℕ) → (borrow_unlogged_impl e k m logs).0 ≡ ok v → Unlogged e k m v logs
  unfolding borrow_unlogged_impl borrow_unlogged_slow
  borrow_unlogged_impl-Unlogged v h =
      elim (Bool-cases (is_no (WriteLog.contained k logs.write_log) && valid_at e m.fast_check k)) [
        | inl fast ↦
            let h' : ok (m.fast_value k).value ≡ ok v = ground arith in
            loaded (ground (arith, s.filtered k)) (inl (ground arith, ground arith))
        | inr slow ↦
            unlogged_found-Unlogged (WriteLog.find_skip_filter k logs.write_log).0
              (WriteLog.find_skip_filter k logs.write_log).1 v
              (find_skip_filter-Finds k logs.write_log s) (rw slow at h)
      ]
