-- ===== src/Rw/Set.antt =====
-- src/rw.rs: what a write of a read-write transaction does to the logs.
use swym.Shared.{
  [], ℕ, ◌≡◌, ◌≢◌, false, not, none, some, List, arith, inl, inr, refl, ◌∙◌, Bool-cases, ◌&&◌, ◌||◌,
  length,
}
use swym.Epoch.Word.{QuiesceEpoch}
use swym.Bloom
use swym.Bloom.{Contained, no_key, maybe_key, overflowed}
use swym.Bloom.Laws.{
  insert_inline_refused, insert_inline_fresh, insert_inline-contained, insert_inline_filter,
}
use swym.ReadLog.{valid_at}
use swym.WriteLog
use swym.WriteLog.{
  WriteLog, Entry, vacant, occupied, contained_set, entry, overwrite, tombstone_replace,
  record_write,
}
use swym.WriteLog.Layout.{view}
use swym.WriteLog.Refine.{IsSynced}
use swym.WriteLog.Writes.{Writes, record_write-Writes, contained_set-parts}
use swym.WriteLog.Slow.{
  occupied-view, vacant-IsReady, vacant-view, vacant-Writes, overwrite-Writes,
  tombstone_replace-Writes,
}
use swym.Gc.Garbage
use swym.Gc.Garbage.{ThreadGarbage}
use swym.Logs.{Logs}
use swym.Rw.Borrow.{Loaded}
use swym.Rw.{
  Loads, Result, ok, conflict, Growth, Write, with_write_log, dispose_old, record_new, rewrite,
  set_entry, set_slow, set_filtered, set_impl,
}

-- Every value that is pending for the cell has as many words as the value that is written: both
-- are values of the cell's type.
abbrev pub IsSized : ℕ → Write → WriteLog → Type 0
IsSized k v l = (w : List ℕ) → view k l.entries ≡ some w → length v.val ≡ length w

-- A key that goes into the filter with no entry behind it leaves the invariant.
contained_set-IsSynced : (k : ℕ) (l : WriteLog) → IsSynced l → IsSynced (contained_set k l).1
unfolding contained_set
contained_set-IsSynced k l s = by_result (Bloom.insert_inline k l.bloom) refl
  where
    by_result :
        (r : Contained × Bloom.Bloom)
        → Bloom.insert_inline k l.bloom ≡ r
        → IsSynced (record l { bloom = r.1 })
    by_result (maybe_key, b) q = let same = insert_inline_refused k l.bloom b q in rw same s
    by_result (no_key, b) q =
        let (_, small, was_small, same) = insert_inline_filter k l.bloom b q in
        record {
          distinct = s.distinct;
          inline_empty = λ n. rw same (s.inline_empty was_small);
          filtered = λ j v. ground (arith, insert_inline-contained k j l.bloom b q, s.filtered j v);
          indexed = λ f j. absurd (small f);
        }

rewrite-Writes :
    (k i : ℕ) (v : Write) (grow : Growth) (l l' : WriteLog)
    → IsSynced l
    → IsSized k v l
    → entry k l ≡ (occupied i, l')
    → Writes k v.val l (rewrite i k v grow l')
rewrite-Writes k i v grow l l' s size h = elim (Bool-cases v.request_tcell_lifetime) [
  | inl keep ↦ rw keep (tombstone_replace-Writes k i v.val grow.writes l l' s h)
  | inr plain ↦
      let (w, q) = occupied-view k i l l' s h in
      rw plain (overwrite-Writes k i v.val w l l' s h q (size w q))
]

-- What a write does to the garbage: the cell's old value, as one of the two attempts loaded it once
-- the lock was found readable, is queued if its type needs dropping, but only by the first write.
pub data Disposed (e : QuiesceEpoch) (k : ℕ) (v : Write) (m : Loads) (grow : Growth)
    (logs logs' : Logs) : Type 0 where
  again :
      view k logs.write_log.entries ≢ none
      → logs'.garbage ≡ logs.garbage
      → Disposed e k v m grow logs logs'
  first :
      (old : List ℕ)
      → view k logs.write_log.entries ≡ none
      → Loaded e k m old
      → logs'.garbage ≡ dispose_old k v old grow logs.garbage
      → Disposed e k v m grow logs logs'

-- A write that succeeded.
pub record SetOk (e : QuiesceEpoch) (k : ℕ) (v : Write) (m : Loads) (grow : Growth)
    (logs logs' : Logs) : Type 0 where
  pub writes : Writes k v.val logs.write_log logs'.write_log
  pub same_reads : logs'.read_log ≡ logs.read_log
  pub disposed : Disposed e k v m grow logs logs'

-- A write that failed changed no pending value, and found the lock held or of a later epoch.
pub record SetFailed (e : QuiesceEpoch) (k : ℕ) (m : Loads) (logs logs' : Logs) : Type 0 where
  pub none_pending : view k logs.write_log.entries ≡ none
  pub same_writes : logs'.write_log.entries ≡ logs.write_log.entries
  pub same_reads : logs'.read_log ≡ logs.read_log
  pub same_garbage : logs'.garbage ≡ logs.garbage
  pub invalid : valid_at e m.slow_check k ≡ false
  pub clearable : logs'.write_log.bloom.filter ≢ overflowed → logs'.write_log.bloom.overflow ≡ []

-- The outcome of a write.
abbrev pub Outcome :
    QuiesceEpoch → ℕ → Write → Loads → Growth → Logs → Result (Unit {0}) × Logs → Type 0
Outcome e k v m grow logs (ok u, logs') = SetOk e k v m grow logs logs'
Outcome e k v m grow logs (conflict, logs') = SetFailed e k m logs logs'

module _ (e : QuiesceEpoch) (k : ℕ) (v : Write) (m : Loads) (grow : Growth) (logs : Logs)
    (s : IsSynced logs.write_log) (size : IsSized k v logs.write_log) where
  record_new-SetOk :
      (old : List ℕ) (w : WriteLog)
      → Writes k v.val logs.write_log (record_write k v.val grow.writes w)
      → view k logs.write_log.entries ≡ none
      → Loaded e k m old
      → SetOk e k v m grow logs (record_new k v old grow (with_write_log logs w))
  record_new-SetOk old w writes fresh loaded = record {
    writes = writes;
    same_reads = refl;
    disposed = first old fresh loaded refl;
  }

  set_entry-Outcome :
      (found : Entry) (w : WriteLog)
      → entry k logs.write_log ≡ (found, w)
      → Outcome e k v m grow logs (set_entry found e k v m grow (with_write_log logs w))
  set_entry-Outcome vacant w q =
      let (fresh, same) = vacant-view k logs.write_log w s q in
      elim (Bool-cases (valid_at e m.slow_check k)) [
        | inl t ↦ rw t (
            record_new-SetOk (m.slow_value k).value w
              (vacant-Writes k v.val grow.writes logs.write_log w s q) fresh
              (inr (refl, ground arith)))
        | inr t ↦ rw t (record {
          none_pending = fresh;
          same_writes = same;
          same_reads = refl;
          same_garbage = refl;
          invalid = t;
          clearable = (vacant-IsReady k logs.write_log w s q).inline_empty;
        })
      ]
  set_entry-Outcome (occupied i) w q =
      let (x, pending) = occupied-view k i logs.write_log w s q in
      record {
        writes = rewrite-Writes k i v grow logs.write_log w s size q;
        same_reads = refl;
        disposed = again (ground arith) refl;
      }

  pub set_slow-Outcome : Outcome e k v m grow logs (set_slow e k v m grow logs)
  unfolding set_slow
  set_slow-Outcome = set_entry-Outcome (entry k logs.write_log).0 (entry k logs.write_log).1 refl

-- An outcome from logs with the same pending values.
pub Outcome-same :
    (e : QuiesceEpoch) (k : ℕ) (v : Write) (m : Loads) (grow : Growth) (logs : Logs) (w : WriteLog)
    (r : Result (Unit {0}) × Logs)
    → w.entries ≡ logs.write_log.entries
    → Outcome e k v m grow (with_write_log logs w) r
    → Outcome e k v m grow logs r
Outcome-same e k v m grow logs w (ok u, logs') q o = record {
  writes = record { synced = o.writes.synced; views = λ j. rw (← q) (o.writes.views j) };
  same_reads = o.same_reads;
  disposed = disposed o.disposed;
}
  where
    disposed :
        Disposed e k v m grow (with_write_log logs w) logs' → Disposed e k v m grow logs logs'
    disposed (again p g) = again (rw (← q) p) g
    disposed (first old p loaded g) = first old (rw (← q) p) loaded g
Outcome-same e k v m grow logs w (conflict, logs') q o = record {
  none_pending = rw (← q) o.none_pending;
  same_writes = o.same_writes ∙ q;
  same_reads = o.same_reads;
  same_garbage = o.same_garbage;
  clearable = o.clearable;
  invalid = o.invalid;
}

module _ (e : QuiesceEpoch) (k : ℕ) (v : Write) (m : Loads) (grow : Growth) (logs : Logs)
    (s : IsSynced logs.write_log) (size : IsSized k v logs.write_log) where
  slow_after-Outcome :
      (w : WriteLog)
      → IsSynced w
      → w.entries ≡ logs.write_log.entries
      → Outcome e k v m grow logs (set_slow e k v m grow (with_write_log logs w))
  slow_after-Outcome w sw q =
      Outcome-same e k v m grow logs w (set_slow e k v m grow (with_write_log logs w)) q
        (set_slow-Outcome e k v m grow (with_write_log logs w) sw (λ x h. size x (rw q at h)))

  set_filtered-Outcome :
      (c : Contained) (w : WriteLog)
      → contained_set k logs.write_log ≡ (c, w)
      → Outcome e k v m grow logs (set_filtered c e k v m grow (with_write_log logs w))
  set_filtered-Outcome maybe_key w q =
      let same : w.entries ≡ logs.write_log.entries = unfold contained_set in ground arith in
      slow_after-Outcome w (rw q at (contained_set-IsSynced k logs.write_log s)) same
  set_filtered-Outcome no_key w q =
      let (inserted, same) = contained_set-parts k logs.write_log w q in
      elim (Bool-cases (valid_at e m.fast_check k)) [
        | inl t ↦ rw t (
            record_new-SetOk e k v m grow logs s size (m.fast_value k).value w
              (record_write-Writes k v.val grow.writes logs.write_log w s q)
              (ground
                (arith, insert_inline_fresh k logs.write_log.bloom w.bloom inserted, s.filtered k))
              (inl (refl, ground arith)))
        | inr t ↦
            rw t (slow_after-Outcome w (rw q at (contained_set-IsSynced k logs.write_log s)) same)
      ]

  -- A write, on the fast path and the slow one, either succeeds, and then the cell's pending value
  -- is the one written, no other cell's is touched, the reads stay, the write log is in agreement
  -- again, and on the first write alone the lock was found readable and the old value is queued if
  -- its type needs dropping; or it fails on a cell with no pending value whose lock was held or of
  -- a later epoch, and then no pending value, no read and no garbage is changed. Conditions: the
  -- filter and the hash map of the write log agree with its entries, which may fail once a write
  -- has returned SetError and the transaction has gone on; and a value that is pending for the cell
  -- has as many words as the one that is written.
  pub set_impl-Outcome : Outcome e k v m grow logs (set_impl e k v m grow logs)
  unfolding set_impl
  set_impl-Outcome =
      elim (Bool-cases (
        not (WriteLog.next_push_allocates (length v.val) logs.write_log)
        && (not v.needs_drop
            || not (Garbage.next_dispose_allocates (length v.val) logs.garbage)))) [
              | inl roomy ↦ rw roomy (
                  set_filtered-Outcome (contained_set k logs.write_log).0
                    (contained_set k logs.write_log).1 refl)
              | inr full ↦ rw full (set_slow-Outcome e k v m grow logs s size)
            ]
