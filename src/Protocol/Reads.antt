-- ===== src/Protocol/Reads.antt =====
-- src/read.rs, src/rw.rs: the reads of both kinds of transactions, between steps of other threads.
use swym.Shared.{ℕ, ◌≡◌, ◌≢◌, true, none, some, List, arith, inl, inr, Bool-cases, ◌∙◌}
use swym.Epoch.Word.{QuiesceEpoch}
use swym.Epoch.Clock.{now}
use swym.ReadLog.{valid_at}
use swym.WriteLog.Layout.{view}
use swym.WriteLog.Refine.{IsSynced}
use swym.Logs.{Logs}
use swym.Read
use swym.Rw.{Loads, ok, Growth, borrow_impl, borrow_unlogged_impl}
use swym.Rw.Borrow
use swym.Rw.Borrow.{Loaded, Borrowed, borrow_impl-Borrowed}
use swym.Rw.Unlogged.{Unlogged, borrow_unlogged_impl-Unlogged}
use swym.Protocol.{Machine, Steps, stay, next}
use swym.Protocol.Invariant.{Inv}
use swym.Protocol.Snapshot.{read_snapshot}

-- A read of a read-only transaction, if it succeeds on a type of one word or more, returns the
-- value that the cell had when the transaction pinned its epoch, whatever steps other threads took
-- since then and between the load of the value and the check of the lock.
pub borrow-snapshot :
    (pinned loaded checked : Machine) (e : QuiesceEpoch) (k size : ℕ) (v : List ℕ)
    → Inv pinned
    → now pinned.clock ≡ some e
    → Steps pinned loaded
    → Steps loaded checked
    → size ≢ 0
    → Read.borrow e k size loaded.memory checked.memory ≡ ok v
    → v ≡ (pinned.memory k).value
unfolding Read.borrow
borrow-snapshot pinned loaded checked e k size v i q before after n h =
    elim (Bool-cases (valid_at e checked.memory k)) [
      | inl t ↦
          let same = read_snapshot pinned loaded checked e k i q before after t in ground arith
      | inr f ↦ absurd (ground arith)
    ]

Steps-trans : {s u v : Machine} → Steps s u → Steps u v → Steps s v
Steps-trans a stay = a
Steps-trans a (next more last) = next (Steps-trans a more) last

-- The machine at each load of a read, in the order of the loads.
pub record Trace (pinned : Machine) : Type 0 where
  pub fast_value : Machine
  pub fast_check : Machine
  pub slow_value : Machine
  pub slow_check : Machine
  pub first : Steps pinned fast_value
  pub second : Steps fast_value fast_check
  pub third : Steps fast_check slow_value
  pub fourth : Steps slow_value slow_check

abbrev pub loads_of : {pinned : Machine} → Trace pinned → Loads
loads_of t = record {
  fast_value = t.fast_value.memory;
  fast_check = t.fast_check.memory;
  slow_value = t.slow_value.memory;
  slow_check = t.slow_check.memory;
}

module _ (pinned : Machine) (trace : Trace pinned) (e : QuiesceEpoch) (k : ℕ) (logs : Logs)
    (inv : Inv pinned) (epoch : now pinned.clock ≡ some e) (synced : IsSynced logs.write_log) where
  Loaded-snapshot : (v : List ℕ) → Loaded e k (loads_of trace) v → v ≡ (pinned.memory k).value
  Loaded-snapshot v (inl (same, readable)) =
      let valid : valid_at e trace.fast_check.memory k ≡ true = ground arith in
      same
      ∙ read_snapshot pinned trace.fast_value trace.fast_check e k inv epoch trace.first
          trace.second valid
  Loaded-snapshot v (inr (same, readable)) =
      let valid : valid_at e trace.slow_check.memory k ≡ true = ground arith in
      let before = Steps-trans trace.first (Steps-trans trace.second trace.third) in
      same
      ∙ read_snapshot pinned trace.slow_value trace.slow_check e k inv epoch before trace.fourth
          valid

  -- A logged read of a read-write transaction, if it succeeds on a cell that the transaction has
  -- not written, returns the value that the cell had when the transaction pinned its epoch,
  -- whatever steps other threads took since then and between its loads. Conditions: the threads
  -- were in the state of the protocol's invariant when it pinned; and the filter and the hash map
  -- of the write log agree with its entries, which may fail once a write has returned SetError and
  -- the transaction has gone on.
  pub borrow_impl-snapshot :
      (v : List ℕ) (grow : Growth)
      → view k logs.write_log.entries ≡ none
      → (borrow_impl e k (loads_of trace) grow logs).0 ≡ ok v
      → v ≡ (pinned.memory k).value
  borrow_impl-snapshot v grow none_pending h =
      by_cases (borrow_impl-Borrowed e k (loads_of trace) grow logs synced v h)
    where
      by_cases :
          Borrowed e k (loads_of trace) v logs (borrow_impl e k (loads_of trace) grow logs).1
          → v ≡ (pinned.memory k).value
      by_cases (Borrow.own pending same) = absurd (cc)
      by_cases (Borrow.loaded fresh loaded logged) = Loaded-snapshot v loaded

  -- A read of a read-write transaction that is not logged, if it succeeds on a cell that the
  -- transaction has not written, returns the value that the cell had when the transaction pinned
  -- its epoch, whatever steps other threads took since then and between its loads. Conditions: the
  -- threads were in the state of the protocol's invariant when it pinned; and the filter and the
  -- hash map of the write log agree with its entries, which may fail once a write has returned
  -- SetError and the transaction has gone on.
  pub borrow_unlogged_impl-snapshot :
      (v : List ℕ)
      → view k logs.write_log.entries ≡ none
      → (borrow_unlogged_impl e k (loads_of trace) logs).0 ≡ ok v
      → v ≡ (pinned.memory k).value
  borrow_unlogged_impl-snapshot v none_pending h =
      by_cases (borrow_unlogged_impl-Unlogged e k (loads_of trace) logs synced v h)
    where
      by_cases : Unlogged e k (loads_of trace) v logs → v ≡ (pinned.memory k).value
      by_cases (Unlogged.own pending) = absurd (cc)
      by_cases (Unlogged.loaded fresh loaded) = Loaded-snapshot v loaded
