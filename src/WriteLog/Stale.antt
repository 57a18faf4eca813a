-- ===== src/WriteLog/Stale.antt =====
-- src/internal/write_log.rs: what a failed write leaves in the hash map.
-- `WriteLog::entry` puts a new cell into the hash map before the caller has validated the cell, and
-- `RwTxImpl::set_slow` returns an error without taking it out.
use swym.Shared.{ℕ, ◌+◌, ◌-◌, ◌≡◌, ◌≢◌, some, List, [], ◌∷◌, ◌++◌, arith, refl, ◌∙◌}
use swym.Bloom
use swym.Bloom.{lookup, overflowed, maybe_key}
use swym.Bloom.Laws.{lookup-insert, contained-overflowed}
use swym.WriteLog.Entries.{WriteEntry, elem_words, word_len, word_index}
use swym.WriteLog.Refine.{IsSynced, overflow-IsSynced}
use swym.WriteLog.Slow.{entry_vacant}
use swym.WriteLog.{
  WriteLog, overflow, find_skip_filter, find, vacant, occupied, entry, push, record_write,
}

word_index-append_last :
    (es : List WriteEntry) (e : WriteEntry) → word_index (es ++ e ∷ []) (word_len es) ≡ some e
unfolding word_index word_len
word_index-append_last [] e = refl
word_index-append_last (d ∷ es) e =
    let z : elem_words d + word_len es - elem_words d ≡ word_len es = omega arith in
    rw z (ground (arith, word_index-append_last es e))

overflow_full : (l : WriteLog) → l.bloom.filter ≡ overflowed → overflow l ≡ l
unfolding overflow Bloom.to_overflow
overflow_full l h = ground arith

-- After a write of `k` that found no entry and went no further, the hash map sends a lookup of `k`
-- to the end of the vector, where no entry begins.
pub entry_stale :
    (k : ℕ) (l l' : WriteLog)
    → IsSynced l
    → entry k l ≡ (vacant, l')
    → (l'.bloom.filter ≡ overflowed) × (Bloom.overflow_get k l'.bloom ≡ some (word_len l'.entries))
entry_stale k l l' s h =
    let (absent, same, filter, stored) = entry_vacant k l l' h in
    let (synced, full, _) = overflow-IsSynced l s in
    (
      filter ∙ full,
      rw (stored, same)
          (ground
            (arith, lookup-insert k k (word_len (overflow l).entries) (overflow l).bloom.overflow)),
    )

find_at :
    (k i : ℕ) (e : WriteEntry) (l : WriteLog)
    → l.bloom.filter ≡ overflowed
    → lookup k l.bloom.overflow ≡ some i
    → word_index l.entries i ≡ some e
    → (find k l).0 ≡ some e
unfolding find find_skip_filter
find_at k i e l full stored at =
    rw (contained-overflowed k l.bloom full) (rw (overflow_full l full, stored) at)

-- A failed write of `k` followed by the write of another cell `j`: a lookup of `k` finds the entry
-- of `j`.
pub find_confused :
    (k j : ℕ) (v : List ℕ) (grow : ℕ) (l l' l'' : WriteLog)
    → IsSynced l
    → k ≢ j
    → entry k l ≡ (vacant, l')
    → entry j l' ≡ (vacant, l'')
    → (find k (record_write j v grow l'')).0 ≡ some (record { dest = some j; pending = v })
unfolding record_write push
find_confused k j v grow l l' l'' s n h h' =
    let (full, stored) = entry_stale k l l' s h in
    let (absent, same, filter, stored') = entry_vacant j l' l'' h' in
    let whole = overflow_full l' full in
    find_at k (word_len l'.entries) (record { dest = some j; pending = v }) _
      (filter ∙ (rw whole full))
      (rw (stored', whole)
        (ground (arith, lookup-insert j k (word_len l'.entries) l'.bloom.overflow, stored)))
      (rw (same, whole) (word_index-append_last l'.entries (record { dest = some j; pending = v })))

-- A second write of a cell whose first write failed is told that the cell has an entry, at the end
-- of the vector, so it reports success and validates nothing.
pub entry_again :
    (k : ℕ) (l l' : WriteLog)
    → IsSynced l
    → entry k l ≡ (vacant, l')
    → entry k l' ≡ (occupied (word_len l'.entries), l')
unfolding entry
entry_again k l l' s h =
    let (full, stored) = entry_stale k l l' s h in rw (overflow_full l' full, stored)
