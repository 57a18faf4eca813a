-- ===== src/Epoch/Clock.antt =====
-- src/internal/epoch.rs: `ThreadEpoch` and `EpochClock`.
use swym.Shared.{ℕ, ◌+◌, ◌%◌, Bool, Option, none, some, ltb, if◌then◌else◌}
use swym.Epoch.Word.{
  QuiesceEpoch, word_mod, inactive_epoch, first_epoch, tick_size, lock_bit_set, end_of_time,
}

-- A `ThreadEpoch` is one word: the pinned epoch, or the inactive epoch.
abbrev pub inactive : QuiesceEpoch
inactive = inactive_epoch

-- `ThreadEpoch::is_quiesced`: self.get(o) > quiesce_epoch
abbrev pub is_quiesced : QuiesceEpoch → QuiesceEpoch → Bool
is_quiesced thread_epoch quiesce_epoch = ltb quiesce_epoch thread_epoch

-- `set_collect_epoch`, `pin`, `repin` and `unpin`: the word is overwritten.
abbrev pub set_collect_epoch : QuiesceEpoch → QuiesceEpoch
set_collect_epoch thread_epoch = end_of_time

abbrev pub pin : QuiesceEpoch → QuiesceEpoch → QuiesceEpoch
pin epoch thread_epoch = epoch

abbrev pub repin : QuiesceEpoch → QuiesceEpoch → QuiesceEpoch
repin epoch thread_epoch = epoch

abbrev pub unpin : QuiesceEpoch → QuiesceEpoch
unpin thread_epoch = inactive_epoch

-- `EpochClock::new`
abbrev pub new_clock : ℕ
new_clock = first_epoch

-- `EpochClock::now`, as on a platform that does not assume the lock bit away.
abbrev pub now : ℕ → Option QuiesceEpoch
now clock = if lock_bit_set clock then none else some clock

-- `EpochClock::fetch_and_tick`: the previous epoch, and the clock after the wrapping addition.
abbrev pub fetch_and_tick : ℕ → QuiesceEpoch × ℕ
fetch_and_tick clock = (clock, (clock + tick_size) % word_mod)
