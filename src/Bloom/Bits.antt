-- ===== src/Bloom/Bits.antt =====
-- src/internal/bloom.rs: `filter & bit` and `filter | bit` for a `bit` that is one power of two.
use native.Mathlib.Nat.{pow-suc}
use swym.Shared.{
  ℕ, zero, suc, ◌+◌, ◌-◌, ◌*◌, ◌/◌, ◌%◌, ◌^◌, ◌<◌, ◌≡◌, ◌≢◌, Bool, true, false, arith, ◌==◌,
  if◌then◌else◌, refl,
}

-- filter & (1 << k) != 0
unfoldable pub test_bit : ℕ → ℕ → Bool
test_bit f zero = f % 2 == 1
test_bit f (suc k) = test_bit (f / 2) k

-- filter | (1 << k)
unfoldable pub set_bit : ℕ → ℕ → ℕ
set_bit f zero = f - f % 2 + 1
set_bit f (suc k) = 2 * set_bit (f / 2) k + f % 2

half-set_bit : (x f : ℕ) → (2 * x + f % 2) / 2 ≡ x
half-set_bit x f = omega arith

half_even : (f : ℕ) → (f - f % 2 + 1) / 2 ≡ f / 2
half_even f = omega arith

-- Setting a bit changes the test of that bit, and of no other.
pub test_bit-set_bit :
    (f k j : ℕ) → test_bit (set_bit f k) j ≡ (if k == j then true else test_bit f j)
unfolding test_bit set_bit
test_bit-set_bit f zero zero = ground arith
test_bit-set_bit f zero (suc j) = rw (half_even f) (ground arith)
test_bit-set_bit f (suc k) zero = ground arith
test_bit-set_bit f (suc k) (suc j) =
    rw (half-set_bit (set_bit (f / 2) k) f) (ground (arith, test_bit-set_bit (f / 2) k j))

two_pow_pos : (n : ℕ) → 0 < 2 ^ n
two_pow_pos zero = omega arith
two_pow_pos (suc n) = omega (arith, two_pow_pos n, pow-suc 2 n)

half_ones : (n : ℕ) → (2 ^ suc n - 1) / 2 ≡ 2 ^ n - 1
half_ones n = omega (arith, two_pow_pos n, pow-suc 2 n)

-- A bit that is set in a word of `n` bits stays below 2 ^ n.
pub set_bit-lt : (n f k : ℕ) → f < 2 ^ n → k < n → set_bit f k < 2 ^ n
unfolding set_bit
set_bit-lt zero f k hf hk = elim hk [ ]
set_bit-lt (suc n) f zero hf hk = omega (arith, pow-suc 2 n)
set_bit-lt (suc n) f (suc k) hf hk =
    omega (arith, pow-suc 2 n, set_bit-lt n (f / 2) k (omega (arith, pow-suc 2 n)) (omega arith))

-- The word of all ones has every bit.
pub test_bit-ones : (n k : ℕ) → k < n → test_bit (2 ^ n - 1) k ≡ true
unfolding test_bit
test_bit-ones zero k h = elim h [ ]
test_bit-ones (suc n) zero h = ground (arith, two_pow_pos n, pow-suc 2 n)
test_bit-ones (suc n) (suc k) h = rw (half_ones n) (test_bit-ones n k (omega arith))

-- Zero has no bit.
pub test_bit-zero : (k : ℕ) → test_bit 0 k ≡ false
unfolding test_bit
test_bit-zero zero = refl
test_bit-zero (suc k) = test_bit-zero k

-- A word with a bit is not zero.
pub set_bit-ne_zero : (f k : ℕ) → set_bit f k ≢ 0
unfolding set_bit
set_bit-ne_zero f zero = ground arith
set_bit-ne_zero f (suc k) = ground (arith, set_bit-ne_zero (f / 2) k)
