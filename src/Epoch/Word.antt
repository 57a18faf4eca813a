-- ===== src/Epoch/Word.antt =====
-- src/internal/epoch.rs: the constants, the bit operations and `QuiesceEpoch`.
-- A `usize` is a number below 2 ^ 64. Of a word below 2 ^ 64, the test of bit 63 is division by
-- 2 ^ 63, and the least bit is the remainder by 2.
use swym.Shared.{
  ℕ, ◌+◌, ◌-◌, ◌/◌, ◌%◌, ◌^◌, ◌≤◌, ◌<◌, Bool, not, Option, none, some, leb, ◌==◌, if◌then◌else◌,
}

abbrev pub word_mod : ℕ
word_mod = 2 ^ 64

abbrev pub inactive_epoch : ℕ
inactive_epoch = 2 ^ 64 - 1

abbrev pub lock_bit : ℕ
lock_bit = 2 ^ 63

abbrev pub unpark_bit : ℕ
unpark_bit = 1

abbrev pub tick_size : ℕ
tick_size = 2

abbrev pub first_epoch : ℕ
first_epoch = 3

-- e & LOCK_BIT != 0
abbrev pub lock_bit_set : ℕ → Bool
lock_bit_set e = e / lock_bit % 2 == 1

-- e & !LOCK_BIT
abbrev pub as_unlocked : ℕ → ℕ
as_unlocked e = e % lock_bit

-- e ^ LOCK_BIT
abbrev pub toggle_lock_bit : ℕ → ℕ
toggle_lock_bit e = if lock_bit_set e then e - lock_bit else e + lock_bit

-- e & UNPARK_BIT != 0
abbrev pub unpark_bit_set : ℕ → Bool
unpark_bit_set e = e % 2 == 1

-- e & !UNPARK_BIT
abbrev pub clear_unpark_bit : ℕ → ℕ
clear_unpark_bit e = e - e % 2

-- e | UNPARK_BIT
abbrev pub with_unpark_bit : ℕ → ℕ
with_unpark_bit e = e - e % 2 + 1

-- The struct `QuiesceEpoch` wraps one word that is not zero.
abbrev pub QuiesceEpoch : Type 0
QuiesceEpoch = ℕ

-- `QuiesceEpoch::new`
abbrev pub new_epoch : ℕ → Option QuiesceEpoch
new_epoch e = if e == 0 then none else some e

abbrev pub end_of_time : QuiesceEpoch
end_of_time = 2 ^ 63 - 1

abbrev pub max_value : QuiesceEpoch
max_value = inactive_epoch

-- self.0.get() >= target
abbrev pub read_write_valid : QuiesceEpoch → ℕ → Bool
read_write_valid e target = leb target e

abbrev pub is_active : QuiesceEpoch → Bool
is_active e = not (e == inactive_epoch)

-- `QuiesceEpoch::next`, with the wrap-around of the machine addition
abbrev pub next_epoch : QuiesceEpoch → QuiesceEpoch
next_epoch e = (e + tick_size) % word_mod

-- What an epoch is while its thread is pinned, and what the clock is: a time with no lock bit.
pub record IsTime (e : QuiesceEpoch) : Type 0 where
  pub begun : first_epoch ≤ e
  pub unlocked : e < lock_bit
