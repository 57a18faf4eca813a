-- ===== src/Tests/Interleaving.antt =====
-- src/internal/commit.rs, src/rw.rs, src/read.rs: a reader beside a committing thread.
use swym.Shared.{◌≡◌, ◌^◌, ◌+◌, none, some, [], ◌∷◌, refl, arith}
use swym.Epoch.Lock.{try_lock, try_lock_from, no_parked}
use swym.Bloom
use swym.WriteLog.Layout.{view}
use swym.Read
use swym.Rw.{ok, borrow_impl, borrow_unlogged_impl}
use swym.Bloom.Bits.{test_bit}
use swym.Protocol.{Phase, Machine, to_phase, with_lock, Step, Steps, stay, next, start}
use swym.Protocol.Invariant.{Inv, start-Inv, Step-Inv}
use swym.Protocol.Snapshot.{read_snapshot}
use swym.Protocol.Reads.{
  borrow-snapshot, Trace, loads_of, borrow_impl-snapshot, borrow_unlogged_impl-snapshot,
}
use swym.Tests.Sample.{logs, one_write, one_write-IsSynced, growth, loads}

-- Thread 0 pins, locks cell 16, and writes it.
abbrev m0 : Machine
m0 = start (λ k. k ∷ [])

abbrev m1 : Machine
m1 = to_phase m0 0 (Phase.locking 3)

abbrev m2 : Machine
m2 = with_lock m1 16 (3 + 2 ^ 63) (some 0)

pins : Step m0 m1
pins = Step.pin 0 3 refl refl

takes : try_lock 3 3 ≡ (some no_parked, 3 + 2 ^ 63)
unfolding try_lock try_lock_from
takes = refl

locks : Step m1 m2
locks = Step.lock 0 3 16 (3 + 2 ^ 63) no_parked refl takes

to_m1 : Steps m0 m1
to_m1 = next stay pins

to_m2 : Steps m1 m2
to_m2 = next stay locks

m0-Inv : Inv m0
m0-Inv = start-Inv (λ k. k ∷ [])

Step-Inv_example : Inv m1
Step-Inv_example = Step-Inv m0 m1 pins m0-Inv

read_snapshot_example : (m1.memory 32).value ≡ (m0.memory 32).value
read_snapshot_example = read_snapshot m0 m1 m2 3 32 m0-Inv refl to_m1 to_m2 refl

reads_32 : Read.borrow 3 32 1 m1.memory m2.memory ≡ ok (32 ∷ [])
unfolding Read.borrow
reads_32 = refl

borrow-snapshot_example : (32 ∷ []) ≡ (m0.memory 32).value
borrow-snapshot_example =
    borrow-snapshot m0 m1 m2 3 32 1 (32 ∷ []) m0-Inv refl to_m1 to_m2 (omega arith) reads_32

abbrev trace : Trace m0
trace = record {
  fast_value = m1;
  fast_check = m2;
  slow_value = m2;
  slow_check = m2;
  first = to_m1;
  second = to_m2;
  third = stay;
  fourth = stay;
}

no_32 : view 32 one_write.entries ≡ none
unfolding view
no_32 = refl

logs_32 : (borrow_impl 3 32 (loads_of trace) growth logs).0 ≡ ok (32 ∷ [])
unfolding borrow_impl Bloom.contained test_bit
logs_32 = refl

borrow_impl-snapshot_example : (32 ∷ []) ≡ (m0.memory 32).value
borrow_impl-snapshot_example =
    borrow_impl-snapshot m0 trace 3 32 logs m0-Inv refl one_write-IsSynced (32 ∷ []) growth no_32
      logs_32

unlogged_32 : (borrow_unlogged_impl 3 32 (loads_of trace) logs).0 ≡ ok (32 ∷ [])
unfolding borrow_unlogged_impl Bloom.contained test_bit
unlogged_32 = refl

borrow_unlogged_impl-snapshot_example : (32 ∷ []) ≡ (m0.memory 32).value
borrow_unlogged_impl-snapshot_example =
    borrow_unlogged_impl-snapshot m0 trace 3 32 logs m0-Inv refl one_write-IsSynced (32 ∷ []) no_32
      unlogged_32

unlogged_sample : (borrow_unlogged_impl 3 32 loads logs).0 ≡ ok (32 ∷ [])
unfolding borrow_unlogged_impl Bloom.contained test_bit
unlogged_sample = refl
