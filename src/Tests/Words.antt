-- ===== src/Tests/Words.antt =====
-- src/internal/epoch.rs, src/internal/bloom.rs, src/internal/read_log.rs.
use swym.Shared.{◌+◌, ◌^◌, ◌≡◌, none, some, [], refl}
use swym.Epoch.Lock.{
  no_parked, has_parked, try_lock, try_lock_from, try_clear_unpark_bit_from, try_clear_unpark_bit,
}
use swym.Epoch.Lock.Laws.{Locked, try_lock_from-Locked}
use swym.Bloom
use swym.Bloom.{bloom_bit, no_key, maybe_key, contained, insert_inline}
use swym.Bloom.Bits.{test_bit, set_bit}
use swym.Tests.Sample.{three_IsTime}

takes_a_free_lock : try_lock 3 3 ≡ (some no_parked, 3 + 2 ^ 63)
unfolding try_lock try_lock_from
takes_a_free_lock = refl

refuses_a_later_epoch : try_lock 3 5 ≡ (none, 5)
unfolding try_lock try_lock_from
refuses_a_later_epoch = refl

sees_parked_threads : try_lock 5 2 ≡ (some has_parked, 2 + 2 ^ 63)
unfolding try_lock try_lock_from
sees_parked_threads = refl

takes_from : try_lock_from 3 3 3 ≡ (some no_parked, 3 + 2 ^ 63)
unfolding try_lock_from
takes_from = refl

try_lock_from-Locked_example : Locked 3 3 (3 + 2 ^ 63) no_parked
try_lock_from-Locked_example =
    try_lock_from-Locked 3 3 3 (3 + 2 ^ 63) no_parked three_IsTime takes_from

clears_the_bit : try_clear_unpark_bit 5 5 ≡ (some no_parked, 4)
unfolding try_clear_unpark_bit try_clear_unpark_bit_from
clears_the_bit = refl

takes_16 : insert_inline 16 Bloom.new ≡ (no_key, record { filter = 2; overflow = [] })
unfolding insert_inline test_bit set_bit
takes_16 = refl
