-- ===== src/WriteLog/Slow.antt =====
-- src/internal/write_log.rs: the writes that go through `WriteLog::entry` and the hash map.
use swym.Shared.{ℕ, ◌-◌, ◌≡◌, ◌≢◌, none, some, List, length, arith, refl, sym, ◌∙◌}
use swym.Bloom
use swym.Bloom.{Contained, Bloom, no_key, maybe_key, overflowed, lookup}
use swym.Bloom.Laws.{lookup-insert, contained-overflowed}
use swym.WriteLog.Entries.{WriteEntry, word_len, word_index}
use swym.WriteLog.Layout.{position, view, word_index-position, view-position}
use swym.WriteLog.Edits.{
  subst_entry, word_index_set-position, view-subst_entry, position-subst_entry,
  epoch_locks-subst_entry, bury, subst_entry-bury, view-bury, position-bury, Distinct-bury,
  word_len-bury,
}
use swym.WriteLog.Refine.{IsSynced, overflow-IsSynced}
use swym.WriteLog.Writes.{Writes, IsReady, push-Writes}
use swym.WriteLog.{
  tombstone_at, WriteLog, overflow, vacant, occupied, entry, record_write, overwrite,
  tombstone_replace,
}

-- What `entry` did when the hash map does not have the cell.
pub entry_vacant :
    (k : ℕ) (l l' : WriteLog)
    → entry k l ≡ (vacant, l')
    → (lookup k (overflow l).bloom.overflow ≡ none)
      × (l'.entries ≡ (overflow l).entries)
      × (l'.bloom.filter ≡ (overflow l).bloom.filter)
      × (l'.bloom.overflow
          ≡ Bloom.insert k (word_len (overflow l).entries) (overflow l).bloom.overflow)
unfolding entry
entry_vacant k l l' h = ground arith

pub entry_occupied :
    (k i : ℕ) (l l' : WriteLog)
    → entry k l ≡ (occupied i, l')
    → (lookup k (overflow l).bloom.overflow ≡ some i) × (l' ≡ overflow l)
unfolding entry
entry_occupied k i l l' h = ground arith

pub vacant-IsReady :
    (k : ℕ) (l l' : WriteLog)
    → IsSynced l
    → entry k l ≡ (vacant, l')
    → IsReady k l'.entries l'.bloom
vacant-IsReady k l l' s h =
    let (absent, same, filter, stored) = entry_vacant k l l' h in
    let (synced, full, _) = overflow-IsSynced l s in
    let all_ones : l'.bloom.filter ≡ overflowed = filter ∙ full in
    record {
      distinct = rw same synced.distinct;
      fresh =
          rw same
            (ground (arith, view-position k 0 (overflow l).entries, synced.indexed full k, absent));
      inline_empty = λ n. absurd (n all_ones);
      own = contained-overflowed k _ all_ones;
      others = λ j v. contained-overflowed j _ all_ones;
      indexed = λ q j.
          rw (stored, same)
            (ground (
              arith,
              lookup-insert k j (word_len (overflow l).entries) (overflow l).bloom.overflow,
              synced.indexed full j,
            ));
    }

-- The slow path of a write, for a cell with no pending value: it is recorded, no other cell is
-- touched, and the hash map holds the word at which the new entry begins.
pub vacant-Writes :
    (k : ℕ) (v : List ℕ) (grow : ℕ) (l l' : WriteLog)
    → IsSynced l
    → entry k l ≡ (vacant, l')
    → Writes k v l (record_write k v grow l')
vacant-Writes k v grow l l' s h =
    let ready = vacant-IsReady k l l' s h in
    let same : l'.entries ≡ l.entries = (entry_vacant k l l' h).1 ∙ (overflow-IsSynced l s).2 in
    let (synced, views) =
      push-Writes k v grow l' l.entries ready
        (λ j. rw same (ground (arith, rw same at ready.fresh))) in
    record { synced = synced; views = views }

-- The word that an occupied entry holds is that of the cell's entry.
record Occupied (k i : ℕ) (l l' : WriteLog) : Type 0 where
  at : position k 0 l'.entries ≡ some i
  synced : IsSynced l'
  full : l'.bloom.filter ≡ overflowed
  same : l'.entries ≡ l.entries

entry-Occupied :
    (k i : ℕ) (l l' : WriteLog) → IsSynced l → entry k l ≡ (occupied i, l') → Occupied k i l l'
entry-Occupied k i l l' s h =
    let (stored, same) = entry_occupied k i l l' h in
    let (synced, full, kept) = overflow-IsSynced l s in
    rw same (record {
      at = sym (synced.indexed full k) ∙ stored;
      synced = synced;
      full = full;
      same = kept;
    })

view-Occupied : (k i : ℕ) (es : List WriteEntry) → position k 0 es ≡ some i → view k es ≢ none
view-Occupied k i es h = let at = word_index-position k 0 i es h in ground (arith, at.viewed)

overwrite-IsSynced :
    (k : ℕ) (v w : List ℕ) (l : WriteLog)
    → IsSynced l
    → l.bloom.filter ≡ overflowed
    → view k l.entries ≡ some w
    → length v ≡ length w
    → IsSynced
        (record l { entries = subst_entry k (record { dest = some k; pending = v }) l.entries })
overwrite-IsSynced k v w l s full q size = record {
  distinct = rw epoch_locks-subst_entry s.distinct;
  inline_empty = λ n. absurd (n full);
  filtered = λ j n. contained-overflowed j l.bloom full;
  indexed = λ n j. s.indexed n j ∙ sym (position-subst_entry k j 0 v w l.entries q size);
}

-- A write to a cell with a pending value of the same size replaces that value in place.
pub overwrite-Writes :
    (k i : ℕ) (v w : List ℕ) (l l' : WriteLog)
    → IsSynced l
    → entry k l ≡ (occupied i, l')
    → view k l.entries ≡ some w
    → length v ≡ length w
    → Writes k v l (overwrite i k v l')
unfolding overwrite
overwrite-Writes k i v w l l' s h q size =
    let o = entry-Occupied k i l l' s h in
    let z : i - 0 ≡ i = omega arith in
    let q' : view k l'.entries ≡ some w = rw o.same q in
    let moved =
      rw z at
        (word_index_set-position k 0 i (record { dest = some k; pending = v }) l'.entries o.at) in
    rw moved (record {
      synced = overwrite-IsSynced k v w l' o.synced o.full q' size;
      views = λ j. view-subst_entry k j v l'.entries (ground arith) ∙ (rw o.same refl);
    })

tombstone-bury :
    (k i : ℕ) (es : List WriteEntry)
    → position k 0 es ≡ some i
    → tombstone_at (word_index es i) es i ≡ bury k es
tombstone-bury k i es h =
    let at = word_index-position k 0 i es h in
    let z : i - 0 ≡ i = omega arith in
    rw (rw z at at.indexed) (
      rw z at (word_index_set-position k 0 i (record { dest = none; pending = at.value }) es h)
      ∙ subst_entry-bury k at.value es at.viewed)

bury-IsReady :
    (k : ℕ) (l : WriteLog)
    → IsSynced l
    → l.bloom.filter ≡ overflowed
    → IsReady k
        (bury k l.entries)
        (record l.bloom { overflow = Bloom.insert k (word_len l.entries) l.bloom.overflow })
bury-IsReady k l s full = record {
  distinct = Distinct-bury k l.entries s.distinct;
  fresh = ground (arith, view-bury k k l.entries s.distinct);
  inline_empty = λ n. absurd (n full);
  own = contained-overflowed k _ full;
  others = λ j v. contained-overflowed j _ full;
  indexed = λ q j. ground (
    arith,
    lookup-insert k j (word_len l.entries) l.bloom.overflow,
    word_len-bury k l.entries,
    position-bury k j 0 l.entries s.distinct,
    s.indexed full j,
  );
}

-- A write that must keep the cell alive buries the old entry and pushes a new one: it sets the
-- pending value of its cell and of no other, and keeps the agreement of the filter, the hash map
-- and the entries. Conditions: before the entry was looked up, the filter and the hash map of the
-- write log agree with its entries, which may fail once a write has returned SetError and the
-- transaction has gone on; and the hash map had the cell.
pub tombstone_replace-Writes :
    (k i : ℕ) (v : List ℕ) (grow : ℕ) (l l' : WriteLog)
    → IsSynced l
    → entry k l ≡ (occupied i, l')
    → Writes k v l (tombstone_replace i k v grow l')
unfolding tombstone_replace record_write
tombstone_replace-Writes k i v grow l l' s h =
    let o = entry-Occupied k i l l' s h in
    rw (tombstone-bury k i l'.entries o.at) (
      let (synced, views) =
        push-Writes k v grow
          (record {
            bloom = record l'.bloom {
              overflow = Bloom.insert k (word_len l'.entries) l'.bloom.overflow;
            };
            entries = bury k l'.entries;
            capacity = l'.capacity;
          })
          l.entries (bury-IsReady k l' o.synced o.full)
          (λ j. rw o.same (view-bury k j l.entries s.distinct)) in
      record { synced = synced; views = views })

-- An occupied entry has a pending value.
pub occupied-view :
    (k i : ℕ) (l l' : WriteLog)
    → IsSynced l
    → entry k l ≡ (occupied i, l')
    → (w : List ℕ) × (view k l.entries ≡ some w)
occupied-view k i l l' s h =
    let o = entry-Occupied k i l l' s h in
    let at = word_index-position k 0 i l'.entries o.at in (at.value, rw o.same at at.viewed)

-- A vacant entry has none.
pub vacant-view :
    (k : ℕ) (l l' : WriteLog)
    → IsSynced l
    → entry k l ≡ (vacant, l')
    → (view k l.entries ≡ none) × (l'.entries ≡ l.entries)
vacant-view k l l' s h =
    let same : l'.entries ≡ l.entries = (entry_vacant k l l' h).1 ∙ (overflow-IsSynced l s).2 in
    (rw same at (vacant-IsReady k l l' s h).fresh, same)
