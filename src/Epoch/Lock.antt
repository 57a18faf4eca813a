-- ===== src/Epoch/Lock.antt =====
-- src/internal/epoch.rs: `ParkStatus` and `EpochLock`.
-- An `EpochLock` is one word. An operation that loads the word and then exchanges it takes the
-- loaded word `actual` apart from the word `w` that the exchange finds, since another thread can
-- write between the two; `try_lock` and `try_clear_unpark_bit` are the runs with no such write.
pub mod Laws
use swym.Shared.{ℕ, Bool, true, false, Option, none, some, ◌==◌, if◌then◌else◌}
use swym.Epoch.Word.{
  QuiesceEpoch, first_epoch, lock_bit_set, toggle_lock_bit, unpark_bit_set, clear_unpark_bit,
  with_unpark_bit, read_write_valid,
}

pub data ParkStatus : Type 0 where
  no_parked : ParkStatus
  has_parked : ParkStatus

-- `ParkStatus::merge`
abbrev pub merge : ParkStatus → ParkStatus → ParkStatus
merge has_parked _ = has_parked
merge no_parked has_parked = has_parked
merge no_parked no_parked = no_parked

-- `EpochLock::first`
abbrev pub first : ℕ
first = first_epoch

-- `EpochLock::is_locked`
abbrev pub is_locked : ℕ → Bool
is_locked w = lock_bit_set w

-- `compare_exchange`: whether it succeeded, and the word after it.
abbrev pub compare_exchange : ℕ → ℕ → ℕ → Bool × ℕ
compare_exchange expected new w = if w == expected then (true, new) else (false, w)

abbrev pub park_status : ℕ → ParkStatus
park_status actual = if unpark_bit_set actual then no_parked else has_parked

-- The end of `try_lock`, once the exchange is over.
abbrev pub locked_result : ℕ → Bool × ℕ → Option ParkStatus × ℕ
locked_result actual (true, w') = (some (park_status actual), w')
locked_result actual (false, w') = (none, w')

unfoldable pub try_lock_from : QuiesceEpoch → ℕ → ℕ → Option ParkStatus × ℕ
try_lock_from max_expected actual w =
    if read_write_valid max_expected actual
    then locked_result actual (compare_exchange actual (toggle_lock_bit actual) w)
    else (none, w)

-- `EpochLock::try_lock`
unfoldable pub try_lock : QuiesceEpoch → ℕ → Option ParkStatus × ℕ
unfolding try_lock_from
try_lock max_expected w = try_lock_from max_expected w w

-- `EpochLock::try_lock_htm`; `none` is the abort of the hardware transaction.
unfoldable pub try_lock_htm : QuiesceEpoch → ℕ → Option (ParkStatus × ℕ)
try_lock_htm max_expected actual =
    if read_write_valid max_expected actual
    then some (park_status actual, toggle_lock_bit actual)
    else none

-- `EpochLock::unlock_publish`: the word is overwritten.
abbrev pub unlock_publish : QuiesceEpoch → ℕ → ℕ
unlock_publish epoch w = epoch

-- `EpochLock::unlock_undo`
abbrev pub unlock_undo : ℕ → ℕ
unlock_undo prev = toggle_lock_bit prev

-- `EpochLock::clear_unpark_bit_htm`; `none` is the abort of the hardware transaction.
unfoldable pub clear_unpark_bit_htm : QuiesceEpoch → ℕ → Option ℕ
clear_unpark_bit_htm max_expected actual =
    if read_write_valid max_expected actual
    then some (if unpark_bit_set actual then clear_unpark_bit actual else actual)
    else none

-- The end of `try_clear_unpark_bit`, once the exchange is over.
abbrev pub cleared_result : Bool × ℕ → Option ParkStatus × ℕ
cleared_result (true, w') = (some no_parked, w')
cleared_result (false, w') = (none, w')

unfoldable pub try_clear_unpark_bit_from : QuiesceEpoch → ℕ → ℕ → Option ParkStatus × ℕ
try_clear_unpark_bit_from max_expected actual w =
    if read_write_valid max_expected actual
    then (if unpark_bit_set actual
        then cleared_result (compare_exchange actual (clear_unpark_bit actual) w)
        else (some has_parked, w))
    else (none, w)

-- `EpochLock::try_clear_unpark_bit`
unfoldable pub try_clear_unpark_bit : QuiesceEpoch → ℕ → Option ParkStatus × ℕ
unfolding try_clear_unpark_bit_from
try_clear_unpark_bit max_expected w = try_clear_unpark_bit_from max_expected w w

-- `EpochLock::set_unpark_bit`
abbrev pub set_unpark_bit : ℕ → ℕ
set_unpark_bit w = with_unpark_bit w
