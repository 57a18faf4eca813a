-- ===== src/Tcell/Owned.antt =====
-- src/tcell.rs: a transaction reads what it has written.
use swym.Shared.{
  ℕ, ◌≡◌, ◌≢◌, Bool, false, Option, none, some, List, length, ◌==◌, if◌then◌else◌, arith, ap, inl,
  inr, Bool-cases,
}
use swym.Epoch.Word.{QuiesceEpoch}
use swym.ReadLog
use swym.ReadLog.{valid_at}
use swym.WriteLog
use swym.WriteLog.Entries.{WriteEntry}
use swym.WriteLog.Layout.{view}
use swym.WriteLog.Refine.{IsSynced, Finds, pending_of, find-Finds, find_skip_filter-Finds}
use swym.Logs.{Logs}
use swym.Rw.{
  Loads, Growth, Result, ok, conflict, is_no, with_write_log, borrow_found, borrow_slow,
  borrow_impl, unlogged_found, borrow_unlogged_slow, borrow_unlogged_impl, set_impl,
}
use swym.Rw.Set.{IsSized, SetOk, Outcome, set_impl-Outcome}
use swym.Tcell.{
  Ordering, read_write, read, non_exhaustive, set_ok, with_value, borrow, borrow_ordered, publish,
  plain, set,
}

-- What a read of a cell with the pending value `v` returns.
abbrev pub checked : QuiesceEpoch → ℕ → Loads → List ℕ → Result (List ℕ)
checked e k m v = if valid_at e m.slow_check k then ok v else conflict

module _ (e : QuiesceEpoch) (k : ℕ) (m : Loads) (grow : Growth) (logs : Logs)
    (s : IsSynced logs.write_log) (v : List ℕ)
    (pending : view k logs.write_log.entries ≡ some v) where
  slow_own : (borrow_slow e k m grow logs).0 ≡ checked e k m v
  unfolding borrow_slow
  slow_own =
      by_found (WriteLog.find k logs.write_log).0 (WriteLog.find k logs.write_log).1
        (find-Finds k logs.write_log s)
    where
      by_found :
          (o : Option WriteEntry) (w : WriteLog.WriteLog)
          → Finds k logs.write_log (o, w)
          → (borrow_found o e k m grow (with_write_log logs w)).0 ≡ checked e k m v
      by_found none w f = absurd (ground (arith, f.found))
      by_found (some x) w f = ground (arith, f.found)

  unlogged_slow_own : (borrow_unlogged_slow e k m logs).0 ≡ checked e k m v
  unfolding borrow_unlogged_slow
  unlogged_slow_own =
      by_found (WriteLog.find_skip_filter k logs.write_log).0
        (find_skip_filter-Finds k logs.write_log s).found
    where
      by_found :
          (o : Option WriteEntry)
          → pending_of o ≡ view k logs.write_log.entries
          → unlogged_found o e k m ≡ checked e k m v
      by_found none f = absurd (ground arith)
      by_found (some x) f = ground arith

  contained_own : is_no (WriteLog.contained k logs.write_log) ≡ false
  contained_own = ground (arith, s.filtered k)

  ordered_own : (o : Ordering) → (borrow_ordered o e k m grow logs).0 ≡ checked e k m v
  unfolding borrow_impl borrow_unlogged_impl
  ordered_own read_write =
      let c = contained_own in
      let slow = slow_own in
      elim (Bool-cases (ReadLog.next_push_allocates logs.read_log)) [
        | inl t ↦ rw t slow
        | inr t ↦ rw (t, c) slow
      ]
  ordered_own non_exhaustive = let c = contained_own in rw c unlogged_slow_own
  ordered_own read = let c = contained_own in rw c unlogged_slow_own

-- A write that succeeds leaves its value pending.
set-pending :
    (size : ℕ) (needs_drop : Bool) (e : QuiesceEpoch) (k : ℕ) (value : List ℕ) (m : Loads)
    (grow : Growth) (logs logs' : Logs)
    → size ≢ 0
    → IsSynced logs.write_log
    → IsSized k (plain needs_drop value) logs.write_log
    → set size needs_drop e k value m grow logs ≡ some (set_ok tt, logs')
    → SetOk e k (plain needs_drop value) m grow logs logs'
unfolding set publish
set-pending size needs_drop e k value m grow logs logs' n s sized h =
    elim (Bool-cases (length value == size)) [
      | inr t ↦ absurd (ground arith)
      | inl t ↦
          by_result (set_impl e k (plain needs_drop value) m grow logs)
            (set_impl-Outcome e k (plain needs_drop value) m grow logs s sized) (ground arith)
    ]
  where
    by_result :
        (r : Result (Unit {0}) × Logs)
        → Outcome e k (plain needs_drop value) m grow logs r
        → with_value value r ≡ (set_ok tt, logs')
        → SetOk e k (plain needs_drop value) m grow logs logs'
    by_result (conflict, l) o q = absurd (ground arith)
    by_result (ok u, l) o q = let same : l ≡ logs' = ap (λ x. x.1) q in rw (← same) o

-- Once a write of a cell that is not of size 0 has succeeded, a read of the cell in the same
-- transaction, of any ordering, returns the value that was written if it finds the lock readable in
-- its last attempt; else it fails. Conditions: before the write, the filter and the hash map of the
-- write log agree with its entries, which may fail once a write has returned SetError and the
-- transaction has gone on; and a value that is pending for the cell has as many words as the one
-- that is written.
pub borrow-set :
    (size : ℕ) (needs_drop : Bool) (e : QuiesceEpoch) (k : ℕ) (value : List ℕ) (m later : Loads)
    (grow grow' : Growth) (logs logs' : Logs) (ordering : Ordering)
    → size ≢ 0
    → IsSynced logs.write_log
    → IsSized k (plain needs_drop value) logs.write_log
    → set size needs_drop e k value m grow logs ≡ some (set_ok tt, logs')
    → (borrow size ordering e k later grow' logs').0 ≡ checked e k later value
unfolding borrow
borrow-set size needs_drop e k value m later grow grow' logs logs' ordering n s sized h =
    let o = set-pending size needs_drop e k value m grow logs logs' n s sized h in
    let own : view k logs'.write_log.entries ≡ some value = ground (arith, o.writes.views k) in
    let again = ordered_own e k later grow' logs' o.writes.synced value own ordering in
    elim (Bool-cases (size == 0)) [ inl z ↦ absurd (ground arith) | inr t ↦ rw t again ]
