-- ===== src/WriteLog.antt =====
-- src/internal/write_log.rs: the write log of a transaction.
-- The vector of entries has a capacity in words; growth is left to the allocator: a push that does
-- not fit takes the capacity that `grow` gives.
pub mod Entries
pub mod Layout
pub mod Edits
pub mod Refine
pub mod Writes
pub mod Slow
pub mod Stale
use swym.Shared.{
  ℕ, ◌+◌, Bool, true, false, Option, none, some, List, [], ◌∷◌, ◌++◌, length, ltb, leb, ◌==◌,
  if◌then◌else◌,
}
use swym.Bloom
use swym.Bloom.{Bloom, Contained, no_key, maybe_key}
use Entries.{WriteEntry, elem_words, word_len, word_index, word_index_set, epoch_locks, offsets}

pub record WriteLog : Type 0 where
  pub bloom : Bloom
  pub entries : List WriteEntry
  pub capacity : ℕ

abbrev pub new : WriteLog
new = record { bloom = Bloom.new; entries = []; capacity = 0 }

abbrev pub contained : ℕ → WriteLog → Contained
contained k l = Bloom.contained k l.bloom

unfoldable pub contained_set : ℕ → WriteLog → Contained × WriteLog
contained_set k l = let (c, b) = Bloom.insert_inline k l.bloom in (c, record l { bloom = b })

-- `clear` and `clear_no_drop`: the capacity stays.
unfoldable pub clear : WriteLog → WriteLog
clear l = record l { bloom = Bloom.clear l.bloom; entries = [] }

abbrev pub is_empty : WriteLog → Bool
is_empty l = word_len l.entries == 0

unfoldable pub overflow : WriteLog → WriteLog
overflow l = record l { bloom = Bloom.to_overflow (offsets 0 l.entries) l.bloom }

abbrev pub index_entry : List WriteEntry → Option ℕ → Option WriteEntry
index_entry es none = none
index_entry es (some i) = word_index es i

unfoldable pub find_skip_filter : ℕ → WriteLog → Option WriteEntry × WriteLog
find_skip_filter k l =
    let l' = overflow l in (index_entry l'.entries (Bloom.overflow_get k l'.bloom), l')

abbrev pub find_contained : Contained → ℕ → WriteLog → Option WriteEntry × WriteLog
find_contained no_key k l = (none, l)
find_contained maybe_key k l = find_skip_filter k l

unfoldable pub find : ℕ → WriteLog → Option WriteEntry × WriteLog
find k l = find_contained (contained k l) k l

-- `Entry`, with the word that the hash map holds for an occupied one.
pub data Entry : Type 0 where
  vacant : Entry
  occupied : ℕ → Entry

abbrev pub entry_at : Option ℕ → ℕ → WriteLog → Entry × WriteLog
entry_at (some i) k l = (occupied i, l)
entry_at none k l = (
  vacant,
  record l {
    bloom = record l.bloom { overflow = Bloom.insert k (word_len l.entries) l.bloom.overflow };
  },
)

unfoldable pub entry : ℕ → WriteLog → Entry × WriteLog
entry k l = let l' = overflow l in entry_at (Bloom.overflow_get k l'.bloom) k l'

-- `next_push_allocates`, for a value of `n` words
abbrev pub next_push_allocates : ℕ → WriteLog → Bool
next_push_allocates n l = ltb l.capacity (word_len l.entries + (2 + n))

-- `DynVec::push`, with the capacity after it.
unfoldable pub push : WriteEntry → ℕ → WriteLog → WriteLog
push e grow l = record l {
  entries = l.entries ++ e ∷ [];
  capacity = if ltb l.capacity (word_len l.entries + elem_words e) then grow else l.capacity;
}

-- `record`; `record_unchecked` is the same where the push fits.
unfoldable pub record_write : ℕ → List ℕ → ℕ → WriteLog → WriteLog
record_write k val grow l = push (record { dest = some k; pending = val }) grow l

-- `OccupiedEntry::overwrite`
unfoldable pub overwrite : ℕ → ℕ → List ℕ → WriteLog → WriteLog
overwrite i k val l = record l {
  entries = word_index_set l.entries i (record { dest = some k; pending = val });
}

-- *entry.tcell_mut() = None
abbrev pub tombstone_at : Option WriteEntry → List WriteEntry → ℕ → List WriteEntry
tombstone_at none es i = es
tombstone_at (some e) es i = word_index_set es i (record e { dest = none })

-- `OccupiedEntry::tombstone_replace`
unfoldable pub tombstone_replace : ℕ → ℕ → List ℕ → ℕ → WriteLog → WriteLog
tombstone_replace i k val grow l =
    let es = tombstone_at (word_index l.entries i) l.entries i in
    let b = record l.bloom { overflow = Bloom.insert k (word_len l.entries) l.bloom.overflow } in
    push (record { dest = some k; pending = val }) grow (record l { bloom = b; entries = es })
