-- ===== src/Rw.antt =====
-- src/rw.rs: reads and writes of a read-write transaction.
-- Other threads write between the loads of one operation, so each load has a memory of its own: a
-- read loads the value in one and the lock in the next; the fast path comes before the slow path.
pub mod Borrow
pub mod Unlogged
pub mod Set
use swym.Shared.{
  ℕ, ◌+◌, Bool, true, false, not, Option, none, some, List, [], ◌∷◌, ◌++◌, length, ◌==◌, ◌&&◌, ◌||◌,
  if◌then◌else◌,
}
use swym.Epoch.Word.{QuiesceEpoch}
use swym.Bloom.{Contained, no_key, maybe_key}
use swym.Memory.{Memory}
use swym.ReadLog
use swym.ReadLog.{valid_at}
use swym.WriteLog
use swym.WriteLog.{WriteLog, Entry, vacant, occupied}
use swym.WriteLog.Entries.{WriteEntry}
use swym.Gc.Garbage
use swym.Gc.Garbage.{ThreadGarbage}
use swym.Logs.{Logs}

-- The memories that the loads of one operation find. A read loads the value before the lock; a
-- write loads the lock before the old value.
pub record Loads : Type 0 where
  pub fast_value : Memory
  pub fast_check : Memory
  pub slow_value : Memory
  pub slow_check : Memory

-- `Result<_, Error>`: the only error is a conflict.
pub data Result {ℓ} (A : Type ℓ) : Type ℓ where
  ok : A → Result A
  conflict : Result A

abbrev pub is_no : Contained → Bool
is_no no_key = true
is_no maybe_key = false

-- What the allocator gives to a vector that has to grow.
pub record Growth : Type 0 where
  pub reads : ℕ
  pub writes : ℕ
  pub trash : ℕ

abbrev pub log_read : ℕ → Growth → Logs → Logs
log_read k grow logs = record logs { read_log = ReadLog.record_read k grow.reads logs.read_log }

abbrev pub with_write_log : Logs → WriteLog → Logs
with_write_log logs w = record logs { write_log = w }

abbrev pub borrow_found :
    Option WriteEntry → QuiesceEpoch → ℕ → Loads → Growth → Logs → Result (List ℕ) × Logs
borrow_found none e k m grow logs =
    if valid_at e m.slow_check k
    then (ok (m.slow_value k).value, log_read k grow logs)
    else (conflict, logs)
borrow_found (some w) e k m grow logs =
    if valid_at e m.slow_check k then (ok w.pending, logs) else (conflict, logs)

unfoldable pub borrow_slow : QuiesceEpoch → ℕ → Loads → Growth → Logs → Result (List ℕ) × Logs
borrow_slow e k m grow logs =
    let (found, w) = WriteLog.find k logs.write_log in
    borrow_found found e k m grow (with_write_log logs w)

unfoldable pub borrow_impl : QuiesceEpoch → ℕ → Loads → Growth → Logs → Result (List ℕ) × Logs
borrow_impl e k m grow logs =
    if not (ReadLog.next_push_allocates logs.read_log)
      && is_no (WriteLog.contained k logs.write_log)
      && valid_at e m.fast_check k
    then (ok (m.fast_value k).value, log_read k grow logs)
    else borrow_slow e k m grow logs

abbrev pub unlogged_found : Option WriteEntry → QuiesceEpoch → ℕ → Loads → Result (List ℕ)
unlogged_found none e k m =
    if valid_at e m.slow_check k then ok (m.slow_value k).value else conflict
unlogged_found (some w) e k m = if valid_at e m.slow_check k then ok w.pending else conflict

unfoldable pub borrow_unlogged_slow : QuiesceEpoch → ℕ → Loads → Logs → Result (List ℕ) × Logs
borrow_unlogged_slow e k m logs =
    let (found, w) = WriteLog.find_skip_filter k logs.write_log in
    (unlogged_found found e k m, with_write_log logs w)

unfoldable pub borrow_unlogged_impl : QuiesceEpoch → ℕ → Loads → Logs → Result (List ℕ) × Logs
borrow_unlogged_impl e k m logs =
    if is_no (WriteLog.contained k logs.write_log) && valid_at e m.fast_check k
    then (ok (m.fast_value k).value, logs)
    else borrow_unlogged_slow e k m logs

-- What a write is given: the words of the value, whether the cell's type needs dropping, and
-- whether the value asks for the cell to outlive it (`REQUEST_TCELL_LIFETIME`).
pub record Write : Type 0 where
  pub val : List ℕ
  pub needs_drop : Bool
  pub request_tcell_lifetime : Bool

-- The old value of the cell is queued up for dropping.
abbrev pub dispose_old : ℕ → Write → List ℕ → Growth → ThreadGarbage → ThreadGarbage
dispose_old k v old grow g = if v.needs_drop then Garbage.dispose old grow.trash g else g

abbrev pub record_new : ℕ → Write → List ℕ → Growth → Logs → Logs
record_new k v old grow logs = record logs {
  write_log = WriteLog.record_write k v.val grow.writes logs.write_log;
  garbage = dispose_old k v old grow logs.garbage;
}

abbrev pub rewrite : ℕ → ℕ → Write → Growth → WriteLog → WriteLog
rewrite i k v grow w =
    if v.request_tcell_lifetime
    then WriteLog.tombstone_replace i k v.val grow.writes w
    else WriteLog.overwrite i k v.val w

abbrev pub set_entry :
    Entry → QuiesceEpoch → ℕ → Write → Loads → Growth → Logs → Result (Unit {0}) × Logs
set_entry vacant e k v m grow logs =
    if valid_at e m.slow_check k
    then (ok tt, record_new k v (m.slow_value k).value grow logs)
    else (conflict, logs)
set_entry (occupied i) e k v m grow logs =
    (ok tt, with_write_log logs (rewrite i k v grow logs.write_log))

unfoldable pub set_slow :
    QuiesceEpoch → ℕ → Write → Loads → Growth → Logs → Result (Unit {0}) × Logs
set_slow e k v m grow logs =
    let (found, w) = WriteLog.entry k logs.write_log in
    set_entry found e k v m grow (with_write_log logs w)

-- The last two conditions of the fast path: the filter takes the key, and the cell is valid.
abbrev pub set_filtered :
    Contained → QuiesceEpoch → ℕ → Write → Loads → Growth → Logs → Result (Unit {0}) × Logs
set_filtered no_key e k v m grow logs =
    if valid_at e m.fast_check k
    then (ok tt, record_new k v (m.fast_value k).value grow logs)
    else set_slow e k v m grow logs
set_filtered maybe_key e k v m grow logs = set_slow e k v m grow logs

unfoldable pub set_impl :
    QuiesceEpoch → ℕ → Write → Loads → Growth → Logs → Result (Unit {0}) × Logs
set_impl e k v m grow logs =
    if not (WriteLog.next_push_allocates (length v.val) logs.write_log)
      && (not v.needs_drop || not (Garbage.next_dispose_allocates (length v.val) logs.garbage))
    then (let (c, w) = WriteLog.contained_set k logs.write_log in
        set_filtered c e k v m grow (with_write_log logs w))
    else set_slow e k v m grow logs
