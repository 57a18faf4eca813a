-- ===== src/Bloom/Laws.antt =====
-- src/internal/bloom.rs: the laws of the filter and of the hash map.
use swym.Shared.{ℕ, ◌≡◌, ◌≢◌, some, [], ◌∷◌, arith, ◌==◌, if◌then◌else◌, refl}
use swym.Bloom.Bits.{test_bit-set_bit, test_bit-ones, set_bit-ne_zero}
use swym.Bloom.{
  Bloom, Overflow, no_key, maybe_key, overflowed, lookup, insert, bloom_bit, contained,
  insert_inline,
}

pub lookup-insert :
    (key other index : ℕ) (entries : Overflow)
    → lookup other (insert key index entries)
      ≡ (if key == other then some index else lookup other entries)
unfolding lookup insert
lookup-insert key other index [] = refl
lookup-insert key other index ((stored, old) ∷ rest) =
    ground (arith, lookup-insert key other index rest)

-- A filter of all ones may contain every key.
pub contained-overflowed : (k : ℕ) (b : Bloom) → b.filter ≡ overflowed → contained k b ≡ maybe_key
unfolding contained
contained-overflowed k b h = rw (h, test_bit-ones 64 (bloom_bit k) (omega arith))

-- A new key that goes into the filter is found there, and every key found before stays found.
pub insert_inline-contained :
    (k j : ℕ) (b b' : Bloom)
    → insert_inline k b ≡ (no_key, b')
    → contained j b' ≡ (if bloom_bit k == bloom_bit j then maybe_key else contained j b)
unfolding insert_inline contained
insert_inline-contained k j b b' h =
    ground (arith, test_bit-set_bit b.filter (bloom_bit k) (bloom_bit j))

-- A key that the filter refuses changes nothing.
pub insert_inline_refused : (k : ℕ) (b b' : Bloom) → insert_inline k b ≡ (maybe_key, b') → b' ≡ b
unfolding insert_inline
insert_inline_refused k b b' h = ground arith

-- A key that goes in leaves the filter a word that is neither empty nor overflowed.
pub insert_inline_filter :
    (k : ℕ) (b b' : Bloom)
    → insert_inline k b ≡ (no_key, b')
    → (b'.filter ≢ 0)
      × (b'.filter ≢ overflowed)
      × (b.filter ≢ overflowed)
      × (b'.overflow ≡ b.overflow)
unfolding insert_inline
insert_inline_filter k b b' h = ground (
  arith,
  set_bit-ne_zero b.filter (bloom_bit k),
  contained-overflowed k b,
  test_bit-ones 64 (bloom_bit k),
)

-- A key goes into the filter only if the filter did not have it.
pub insert_inline_fresh :
    (k : ℕ) (b b' : Bloom) → insert_inline k b ≡ (no_key, b') → contained k b ≡ no_key
unfolding insert_inline contained
insert_inline_fresh k b b' h = ground arith
