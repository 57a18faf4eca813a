-- ===== src/WriteLog/Writes.antt =====
-- src/internal/write_log.rs: every way to write a cell sets its pending value and no other.
use mathlib.Core.Option.{or_else}
use swym.Shared.{
  ℕ, ◌+◌, ◌≡◌, ◌≢◌, none, some, List, [], ◌∷◌, ◌++◌, ◌==◌, if◌then◌else◌, arith, Distinct, sym, ◌∙◌,
}
use swym.Bloom
use swym.Bloom.{Contained, Bloom, no_key, maybe_key, overflowed, lookup}
use swym.Bloom.Laws.{insert_inline-contained, insert_inline_filter, insert_inline_fresh}
use swym.WriteLog.Entries.{WriteEntry, word_len, epoch_locks}
use swym.WriteLog.Layout.{position, view, position-member, member-view}
use swym.WriteLog.Edits.{view-append, position-append, epoch_locks-append, Distinct-append_one}
use swym.WriteLog.Refine.{IsSynced}
use swym.WriteLog.{WriteLog, contained_set, push, record_write}

-- A log in which the cell `k` has the pending value `v`, and all else is as in `l`.
pub record Writes (k : ℕ) (v : List ℕ) (l l' : WriteLog) : Type 0 where
  pub synced : IsSynced l'
  pub views : (j : ℕ) → view j l'.entries ≡ (if k == j then some v else view j l.entries)

-- What a filter and a hash map must hold for an entry of `k` to be pushed behind `es`.
pub record IsReady (k : ℕ) (es : List WriteEntry) (b : Bloom) : Type 0 where
  pub distinct : Distinct (epoch_locks es)
  pub fresh : view k es ≡ none
  pub inline_empty : b.filter ≢ overflowed → b.overflow ≡ []
  pub own : Bloom.contained k b ≡ maybe_key
  pub others : (j : ℕ) → view j es ≢ none → Bloom.contained j b ≡ maybe_key
  pub indexed :
      b.filter ≡ overflowed
      → (j : ℕ) → lookup j b.overflow ≡ (if k == j then some (word_len es) else position j 0 es)

module _ (k : ℕ) (v : List ℕ) where
  abbrev written : WriteEntry
  written = record { dest = some k; pending = v }

  view-push :
      (es : List WriteEntry)
      → view k es ≡ none
      → (j : ℕ) → view j (es ++ written ∷ []) ≡ (if k == j then some v else view j es)
  unfolding view or_else
  view-push es h j = rw (view-append j es (written ∷ [])) (ground arith)

  position-push :
      (es : List WriteEntry)
      → view k es ≡ none
      → (j : ℕ)
      → position j 0 (es ++ written ∷ []) ≡ (if k == j then some (word_len es) else position j 0 es)
  unfolding position or_else
  position-push es h j =
      let z : 0 + word_len es ≡ word_len es = omega arith in
      rw (position-append j 0 es (written ∷ []))
        (ground (arith, z, position-member k 0 es, member-view k es))

  Distinct-push :
      (es : List WriteEntry)
      → view k es ≡ none
      → Distinct (epoch_locks es)
      → Distinct (epoch_locks (es ++ written ∷ []))
  unfolding epoch_locks
  Distinct-push es h d =
      rw (epoch_locks-append es (written ∷ []))
        (Distinct-append_one (epoch_locks es) k d (member-view k es h))

  IsReady-IsSynced :
      (b : Bloom) (es : List WriteEntry) (capacity : ℕ)
      → IsReady k es b
      → IsSynced (record { bloom = b; entries = es ++ written ∷ []; capacity = capacity })
  IsReady-IsSynced b es capacity r = record {
    distinct = Distinct-push es r.fresh r.distinct;
    inline_empty = r.inline_empty;
    filtered = λ j h. ground (arith, view-push es r.fresh j, r.own, r.others j);
    indexed = λ q j. r.indexed q j ∙ sym (position-push es r.fresh j);
  }

  pub push-Writes :
      (grow : ℕ) (l : WriteLog) (es : List WriteEntry)
      → IsReady k l.entries l.bloom
      → ((j : ℕ) → view j l.entries ≡ (if k == j then none else view j es))
      → IsSynced (record_write k v grow l)
        × ((j : ℕ)
            → view j (record_write k v grow l).entries ≡ (if k == j then some v else view j es))
  unfolding record_write push
  push-Writes grow l es r old = (
    IsReady-IsSynced l.bloom l.entries _ r,
    λ j. ground (arith, view-push l.entries r.fresh j, old j),
  )

-- The filter took the key.
pub contained_set-parts :
    (k : ℕ) (l l' : WriteLog)
    → contained_set k l ≡ (no_key, l')
    → (Bloom.insert_inline k l.bloom ≡ (no_key, l'.bloom)) × (l'.entries ≡ l.entries)
unfolding contained_set
contained_set-parts k l l' h = ground arith

contained_set-IsReady :
    (k : ℕ) (l : WriteLog) (b : Bloom)
    → IsSynced l
    → Bloom.insert_inline k l.bloom ≡ (no_key, b)
    → IsReady k l.entries b
contained_set-IsReady k l b s h =
    let (_, small, was_small, same) = insert_inline_filter k l.bloom b h in
    record {
      distinct = s.distinct;
      fresh = ground (arith, insert_inline_fresh k l.bloom b h, s.filtered k);
      inline_empty = λ n. same ∙ s.inline_empty was_small;
      own = ground (arith, insert_inline-contained k k l.bloom b h);
      others = λ j v. ground (arith, insert_inline-contained k j l.bloom b h, s.filtered j v);
      indexed = λ q. absurd (small q);
    }

-- The fast path of a write: a key that the filter takes is recorded, its value is what a lookup
-- of it finds, no other cell is touched, and the filter and the hash map stay in agreement.
pub record_write-Writes :
    (k : ℕ) (v : List ℕ) (grow : ℕ) (l l' : WriteLog)
    → IsSynced l
    → contained_set k l ≡ (no_key, l')
    → Writes k v l (record_write k v grow l')
record_write-Writes k v grow l l' s h =
    let (inserted, same) = contained_set-parts k l l' h in
    let ready = contained_set-IsReady k l l'.bloom s inserted in
    let ready' : IsReady k l'.entries l'.bloom = rw same ready in
    let (synced, views) =
      push-Writes k v grow l' l.entries ready' (λ j. rw same (ground (arith, ready.fresh))) in
    record { synced = synced; views = views }
