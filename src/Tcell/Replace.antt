-- ===== src/Tcell/Replace.antt =====
-- src/tcell.rs: `TCell::replace`, the read, the clone and the write together.
use swym.Shared.{
  ℕ, ◌≡◌, ◌≢◌, Bool, true, false, Option, none, some, List, length, ◌==◌, arith, ap, inl, inr, refl,
  Bool-cases, ◌&&◌,
}
use swym.Epoch.Word.{QuiesceEpoch}
use swym.ReadLog.{valid_at}
use swym.WriteLog
use swym.WriteLog.Entries.{WriteEntry}
use swym.WriteLog.Refine.{IsSynced, find_skip_filter-Finds}
use swym.Logs.{Logs}
use swym.Rw.{
  Loads, Growth, Result, ok, conflict, is_no, with_write_log, borrow_unlogged_slow, unlogged_found,
  borrow_unlogged_impl, set_impl,
}
use swym.Rw.Unlogged.{Unlogged, borrow_unlogged_impl-Unlogged}
use swym.Rw.Set.{IsSized, SetOk, SetFailed, Outcome, Outcome-same, set_impl-Outcome}
use swym.Tcell.{
  SetResult, set_ok, set_error, with_value, borrow, publish, plain, set, after_set,
  replace_borrowed, replace,
}

-- What a read that is not logged leaves: the logs but for the filter and the hash map.
pub record Left (logs logs' : Logs) : Type 0 where
  pub write_log : WriteLog.WriteLog
  pub only_that : logs' ≡ with_write_log logs write_log
  pub synced : IsSynced write_log
  pub same : write_log.entries ≡ logs.write_log.entries

module _ (e : QuiesceEpoch) (k : ℕ) (m : Loads) (logs : Logs) (s : IsSynced logs.write_log) where
  pub unlogged-Left : Left logs (borrow_unlogged_impl e k m logs).1
  unfolding borrow_unlogged_impl borrow_unlogged_slow
  unlogged-Left =
      let f = find_skip_filter-Finds k logs.write_log s in
      elim (Bool-cases (is_no (WriteLog.contained k logs.write_log) && valid_at e m.fast_check k)) [
        | inl fast ↦
            rw fast
              (record { write_log = logs.write_log; only_that = refl; synced = s; same = refl })
        | inr slow ↦ rw slow (record {
          write_log = (WriteLog.find_skip_filter k logs.write_log).1;
          only_that = refl;
          synced = f.synced;
          same = f.same;
        })
      ]

  unlogged_conflict :
      (borrow_unlogged_impl e k m logs).0 ≡ conflict → valid_at e m.slow_check k ≡ false
  unfolding borrow_unlogged_impl borrow_unlogged_slow
  unlogged_conflict h =
      elim (Bool-cases (is_no (WriteLog.contained k logs.write_log) && valid_at e m.fast_check k)) [
        | inl fast ↦ absurd (ground arith)
        | inr slow ↦ by_found (WriteLog.find_skip_filter k logs.write_log).0 (rw slow at h)
      ]
    where
      by_found :
          (o : Option WriteEntry)
          → unlogged_found o e k m ≡ conflict
          → valid_at e m.slow_check k ≡ false
      by_found none q = ground arith
      by_found (some x) q = ground arith

-- How `replace` ends.
pub data Replaced (clone : List ℕ → List ℕ) (needs_drop : Bool) (e : QuiesceEpoch) (k : ℕ)
    (value : List ℕ) (m m' : Loads) (grow : Growth) (logs : Logs)
    : Option (SetResult (List ℕ) × Logs) → Type 0 where
  -- The read failed: the lock was held or of a later epoch, and only the filter and the hash map
  -- of the write log can differ.
  unread :
      (w : WriteLog.WriteLog)
      → IsSynced w
      → w.entries ≡ logs.write_log.entries
      → valid_at e m.slow_check k ≡ false
      → Replaced clone needs_drop e k value m m' grow logs
          (some (set_error (record { value = value }), with_write_log logs w))
  unset :
      (prev : List ℕ) (logs' : Logs)
      → Unlogged e k m prev logs
      → SetFailed e k m' logs logs'
      → Replaced clone needs_drop e k value m m' grow logs
          (some (set_error (record { value = value }), logs'))
  done :
      (prev : List ℕ) (logs' : Logs)
      → Unlogged e k m prev logs
      → SetOk e k (plain needs_drop value) m' grow logs logs'
      → Replaced clone needs_drop e k value m m' grow logs (some (set_ok (clone prev), logs'))

module _ (clone : List ℕ → List ℕ) (size : ℕ) (needs_drop : Bool) (e : QuiesceEpoch) (k : ℕ)
    (value : List ℕ) (m m' : Loads) (grow : Growth) (logs : Logs) (n : size ≢ 0)
    (fits : length value ≡ size) (s : IsSynced logs.write_log)
    (sized : IsSized k (plain needs_drop value) logs.write_log) where
  set_unfolded :
      (l : Logs)
      → set size needs_drop e k value m' grow l
        ≡ some (with_value value (set_impl e k (plain needs_drop value) m' grow l))
  unfolding set publish
  set_unfolded l =
      let same : length value == size ≡ true = ground arith in
      let nonzero : size == 0 ≡ false = ground arith in rw (same, nonzero)

  after_set-Replaced :
      (prev : List ℕ) (r : Result (Unit {0}) × Logs)
      → Unlogged e k m prev logs
      → Outcome e k (plain needs_drop value) m' grow logs r
      → Replaced clone needs_drop e k value m m' grow logs
          (after_set (clone prev) (some (with_value value r)))
  after_set-Replaced prev (ok u, l) p o = done prev l p o
  after_set-Replaced prev (conflict, l) p o = unset prev l p o

  borrowed-Replaced :
      (r : Result (List ℕ)) (logs' : Logs)
      → borrow_unlogged_impl e k m logs ≡ (r, logs')
      → Left logs logs'
      → Replaced clone needs_drop e k value m m' grow logs
          (replace_borrowed clone size needs_drop e k value m' grow (r, logs'))
  borrowed-Replaced conflict logs' q l =
      let p = l.only_that in
      rw p (unread l.write_log l.synced l.same (unlogged_conflict e k m logs s (ap (λ x. x.0) q)))
  borrowed-Replaced (ok prev) logs' q l =
      let p = l.only_that in
      let w = l.write_log in
      let old = borrow_unlogged_impl-Unlogged e k m logs s prev (ap (λ x. x.0) q) in
      let written =
        set_impl-Outcome e k (plain needs_drop value) m' grow (with_write_log logs w) l.synced
          (λ x h. sized x (rw l.same at h)) in
      let unfolded = set_unfolded (with_write_log logs w) in
      rw (p, unfolded)
        (after_set-Replaced prev
          (set_impl e k (plain needs_drop value) m' grow (with_write_log logs w)) old
          (Outcome-same e k (plain needs_drop value) m' grow logs w
            (set_impl e k (plain needs_drop value) m' grow (with_write_log logs w)) l.same written))

  -- For a value of the cell's size, which is not 0, `replace` ends in one of three ways. Its read
  -- finds the lock held or of a later epoch: the value comes back, and no entry, no read and no
  -- garbage is changed. Or its write does, with the same effect. Or it returns the clone of the
  -- transaction's own pending value, if there is one, else of a value loaded from the cell before
  -- the lock was found readable, and does to the logs what a write does; its read is not logged.
  -- Conditions: the filter and the hash map of the write log agree with its entries, which may fail
  -- once a write has returned SetError and the transaction has gone on; and a value that is pending
  -- for the cell has as many words as the one that is written.
  pub replace-Replaced :
      Replaced clone needs_drop e k value m m' grow logs
        (replace clone size needs_drop e k value m m' grow logs)
  unfolding replace borrow
  replace-Replaced =
      let nonzero : size == 0 ≡ false = ground arith in
      rw nonzero (
        borrowed-Replaced (borrow_unlogged_impl e k m logs).0 (borrow_unlogged_impl e k m logs).1
          refl (unlogged-Left e k m logs s))
