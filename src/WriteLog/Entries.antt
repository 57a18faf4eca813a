-- ===== src/WriteLog/Entries.antt =====
-- src/internal/write_log.rs, src/internal/alloc/dyn_vec.rs: the entries of a write log in one
-- vector of words. An entry takes a word for its vtable, one for `dest`, and those of `pending`.
use swym.Shared.{ℕ, ◌+◌, ◌-◌, Option, none, some, List, [], ◌∷◌, length, ltb, ◌==◌, if◌then◌else◌}

-- `WriteEntryImpl`: the address of the cell, or nothing in a tombstone, and the words of the value.
pub record WriteEntry : Type 0 where
  pub dest : Option ℕ
  pub pending : List ℕ

-- size_of::<Elem<U>>() / size_of::<usize>()
abbrev pub elem_words : WriteEntry → ℕ
elem_words e = 2 + length e.pending

-- `word_len`
unfoldable pub word_len : List WriteEntry → ℕ
word_len [] = 0
word_len (e ∷ es) = elem_words e + word_len es

-- `word_index_unchecked`: the entry that begins at a word; `none` where none begins, which is
-- undefined behaviour in the source.
unfoldable pub word_index : List WriteEntry → ℕ → Option WriteEntry
word_index [] i = none
word_index (e ∷ es) i =
    if i == 0
    then some e
    else if ltb i (elem_words e)
    then none
    else word_index es (i - elem_words e)

-- A write through `word_index_unchecked_mut`.
unfoldable pub word_index_set : List WriteEntry → ℕ → WriteEntry → List WriteEntry
word_index_set [] i new = []
word_index_set (e ∷ es) i new =
    if i == 0
    then new ∷ es
    else (if ltb i (elem_words e) then e ∷ es else e ∷ word_index_set es (i - elem_words e) new)

-- `epoch_locks`: the cells of the entries that are no tombstones, in order.
abbrev pub cons_some : Option ℕ → List ℕ → List ℕ
cons_some none ks = ks
cons_some (some k) ks = k ∷ ks

unfoldable pub epoch_locks : List WriteEntry → List ℕ
epoch_locks [] = []
epoch_locks (e ∷ es) = cons_some e.dest (epoch_locks es)

-- The iterator of `WriteLog::overflow`: each cell with the word at which its entry begins.
abbrev pub cons_offset : Option ℕ → ℕ → List (ℕ × ℕ) → List (ℕ × ℕ)
cons_offset none base l = l
cons_offset (some k) base l = (k, base) ∷ l

unfoldable pub offsets : ℕ → List WriteEntry → List (ℕ × ℕ)
offsets base [] = []
offsets base (e ∷ es) = cons_offset e.dest base (offsets (base + elem_words e) es)
