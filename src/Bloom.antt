-- ===== src/Bloom.antt =====
-- src/internal/bloom.rs: a filter of one word that falls back to a hash map.
-- A key is the address of a cell. The hash map is an association list with at most one entry for
-- a key; the order of its entries is never observed.
pub mod Bits
pub mod Laws
use swym.Shared.{
  ℕ, ◌+◌, ◌-◌, ◌*◌, ◌/◌, ◌%◌, ◌^◌, Bool, true, false, not, Option, none, some, List, [], ◌∷◌, ◌==◌,
  if◌then◌else◌,
}
use Bits.{test_bit, set_bit}

pub data Contained : Type 0 where
  no_key : Contained
  maybe_key : Contained

-- !0 on a 64-bit platform
abbrev pub overflowed : ℕ
overflowed = 2 ^ 64 - 1

-- The entries of the hash map, from an address to a word offset in the write log.
abbrev pub Overflow : Type 0
Overflow = List (ℕ × ℕ)

unfoldable pub lookup : ℕ → Overflow → Option ℕ
lookup key [] = none
lookup key ((stored, index) ∷ rest) = if stored == key then some index else lookup key rest

unfoldable pub insert : ℕ → ℕ → Overflow → Overflow
insert key index [] = (key, index) ∷ []
insert key index ((stored, old) ∷ rest) =
    if stored == key then (key, index) ∷ rest else (stored, old) ∷ insert key index rest

-- `HashMap::extend`
unfoldable pub extend : Overflow → List (ℕ × ℕ) → Overflow
extend m [] = m
extend m ((k, v) ∷ offsets) = extend (insert k v m) offsets

pub record Bloom : Type 0 where
  pub filter : ℕ
  pub overflow : Overflow

abbrev pub new : Bloom
new = record { filter = 0; overflow = [] }

-- `calc_shift` at `TCellErased`, whose alignment is that of one word, 8 bytes: 1 + 1 + 1 + 0 + 1
abbrev pub shift : ℕ
shift = 4

-- The position of the one bit that `bloom_bit` sets: (value >> shift) & 63
abbrev pub bloom_bit : ℕ → ℕ
bloom_bit key = key / 2 ^ shift % 64

abbrev pub has_overflowed : Bloom → Bool
has_overflowed b = b.filter == overflowed

unfoldable pub clear : Bloom → Bloom
clear b = record { filter = 0; overflow = if b.filter == overflowed then [] else b.overflow }

abbrev pub is_empty : Bloom → Bool
is_empty b = b.filter == 0

unfoldable pub run_overflow : List (ℕ × ℕ) → Bloom → Bloom
run_overflow offsets b = record { filter = overflowed; overflow = extend b.overflow offsets }

unfoldable pub to_overflow : List (ℕ × ℕ) → Bloom → Bloom
unfolding run_overflow
to_overflow offsets b = if not (b.filter == overflowed) then run_overflow offsets b else b

unfoldable pub contained : ℕ → Bloom → Contained
contained key b = if test_bit b.filter (bloom_bit key) then maybe_key else no_key

unfoldable pub insert_inline : ℕ → Bloom → Contained × Bloom
insert_inline key b =
    if test_bit b.filter (bloom_bit key)
    then (maybe_key, b)
    else (let new_filter = set_bit b.filter (bloom_bit key) in
        if not (new_filter == overflowed)
        then (no_key, record b { filter = new_filter })
        else (maybe_key, b))

abbrev pub overflow_get : ℕ → Bloom → Option ℕ
overflow_get key b = lookup key b.overflow
