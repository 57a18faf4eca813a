-- ===== src/Tcell.antt =====
-- src/tcell.rs with the traits of src/rw.rs and the errors of src/tx.rs: what a transaction calls.
-- The type of a cell is given by its size in words, by whether it needs dropping, and by its
-- `Clone`. A failed assertion, which panics, is `none`.
pub mod Owned
pub mod Replace
use swym.Shared.{
  ℕ, Bool, true, false, not, Option, none, some, List, [], length, ◌==◌, if◌then◌else◌,
}
use swym.Epoch.Word.{QuiesceEpoch}
use swym.Gc.Garbage
use swym.Logs.{Logs}
use swym.Rw
use swym.Rw.{
  Loads, Growth, Write, Result, ok, conflict, borrow_impl, borrow_unlogged_impl, set_impl,
}

pub data Ordering : Type 0 where
  read_write : Ordering
  read : Ordering
  non_exhaustive : Ordering

-- `Ordering::default`
abbrev pub default_ordering : Ordering
default_ordering = read_write

-- `SetError`: the value comes back. Its error can only be the conflict.
pub record SetError : Type 0 where
  pub value : List ℕ

-- `Result<_, SetError<T>>`
pub data SetResult {ℓ} (A : Type ℓ) : Type ℓ where
  set_ok : A → SetResult A
  set_error : SetError → SetResult A

-- `Error::from` a `SetError`, with which `?` hands it to the transaction.
abbrev pub error_of {ℓ} : {A : Type ℓ} → SetResult A → Result A
error_of (set_ok a) = ok a
error_of (set_error e) = conflict

abbrev pub borrow_ordered :
    Ordering → QuiesceEpoch → ℕ → Loads → Growth → Logs → Result (List ℕ) × Logs
borrow_ordered read_write e k m grow logs = borrow_impl e k m grow logs
borrow_ordered read e k m grow logs = borrow_unlogged_impl e k m logs
borrow_ordered non_exhaustive e k m grow logs = borrow_unlogged_impl e k m logs

-- `RwTx::borrow`, of a cell of `size` words; `TCell::borrow` is this.
unfoldable pub borrow :
    ℕ → Ordering → QuiesceEpoch → ℕ → Loads → Growth → Logs → Result (List ℕ) × Logs
borrow size ordering e k m grow logs =
    if not (size == 0) then borrow_ordered ordering e k m grow logs else (ok [], logs)

-- `TCell::get`: a copy of what is borrowed.
abbrev pub get : ℕ → Ordering → QuiesceEpoch → ℕ → Loads → Growth → Logs → Result (List ℕ) × Logs
get size ordering e k m grow logs = borrow size ordering e k m grow logs

-- `View::get`
abbrev pub view_get : ℕ → QuiesceEpoch → ℕ → Loads → Growth → Logs → Result (List ℕ) × Logs
view_get size e k m grow logs = get size default_ordering e k m grow logs

-- `View::borrow` and `View::into_borrow`
abbrev pub view_borrow : ℕ → QuiesceEpoch → ℕ → Loads → Growth → Logs → Result (List ℕ) × Logs
view_borrow size e k m grow logs = borrow size default_ordering e k m grow logs

-- A write that fails hands the value back.
abbrev pub with_value : List ℕ → Result (Unit {0}) × Logs → SetResult (Unit {0}) × Logs
with_value value (ok u, logs) = (set_ok u, logs)
with_value value (conflict, logs) = (set_error (record { value = value }), logs)

-- `RwTx::set`; `TCell::publish` is this.
unfoldable pub publish :
    ℕ → QuiesceEpoch → ℕ → Write → Loads → Growth → Logs → Option (SetResult (Unit {0}) × Logs)
publish size e k v m grow logs =
    if not (length v.val == size)
    then none
    else if not (size == 0)
    then some (with_value v.val (set_impl e k v m grow logs))
    else if v.request_tcell_lifetime
    then none
    else some (set_ok tt, logs)

-- `RwTx::_privatize`: the closure, as its words, is queued up for dropping, which calls it.
abbrev pub privatize : List ℕ → Growth → Logs → Logs
privatize privatizer grow logs = record logs {
  garbage = Garbage.dispose privatizer grow.trash logs.garbage;
}

-- A value of the cell's own type does not ask for the cell to outlive it.
abbrev pub plain : Bool → List ℕ → Write
plain needs_drop value = record {
  val = value;
  needs_drop = needs_drop;
  request_tcell_lifetime = false;
}

-- `TCell::set`
unfoldable pub set :
    ℕ
    → Bool
    → QuiesceEpoch
    → ℕ
    → List ℕ
    → Loads
    → Growth
    → Logs
    → Option (SetResult (Unit {0}) × Logs)
unfolding publish
set size needs_drop e k value m grow logs = publish size e k (plain needs_drop value) m grow logs

-- `TCell::replace` after the write: `self.set(tx, value)?; Ok(prev)`
abbrev pub after_set :
    List ℕ → Option (SetResult (Unit {0}) × Logs) → Option (SetResult (List ℕ) × Logs)
after_set prev none = none
after_set prev (some (set_ok u, logs)) = some (set_ok prev, logs)
after_set prev (some (set_error e, logs)) = some (set_error e, logs)

-- `TCell::replace` after the read. The write has loads of its own.
abbrev pub replace_borrowed :
    (List ℕ → List ℕ)
    → ℕ
    → Bool
    → QuiesceEpoch
    → ℕ
    → List ℕ
    → Loads
    → Growth
    → Result (List ℕ) × Logs
    → Option (SetResult (List ℕ) × Logs)
replace_borrowed clone size needs_drop e k value m grow (conflict, logs) =
    some (set_error (record { value = value }), logs)
replace_borrowed clone size needs_drop e k value m grow (ok prev, logs) =
    after_set (clone prev) (set size needs_drop e k value m grow logs)

-- `TCell::replace`. Its read is not logged.
unfoldable pub replace :
    (List ℕ → List ℕ)
    → ℕ
    → Bool
    → QuiesceEpoch
    → ℕ
    → List ℕ
    → Loads
    → Loads
    → Growth
    → Logs
    → Option (SetResult (List ℕ) × Logs)
unfolding borrow set
replace clone size needs_drop e k value m m' grow logs =
    replace_borrowed clone size needs_drop e k value m' grow (borrow size read e k m grow logs)
