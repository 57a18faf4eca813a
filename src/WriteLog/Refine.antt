-- ===== src/WriteLog/Refine.antt =====
-- src/internal/write_log.rs: the write log implements a map from cells to pending values.
use mathlib.Core.Option.{or_else}
use swym.Shared.{
  ℕ, ◌-◌, ◌≡◌, ◌≢◌, Option, none, some, List, [], ◌==◌, arith, refl, Distinct, Option-cases, inl,
  inr, Bool-cases, ap, ◌∙◌,
}
use swym.Bloom
use swym.Bloom.{Contained, Bloom, no_key, maybe_key, overflowed, lookup}
use swym.Bloom.Laws.{contained-overflowed}
use swym.WriteLog.Entries.{WriteEntry, epoch_locks, offsets}
use swym.WriteLog.Layout.{position, view, word_index-position, lookup-extend-offsets, view-position}
use swym.WriteLog
use swym.WriteLog.{
  WriteLog, find_contained, contained, clear, overflow, index_entry, find_skip_filter, find,
}

-- The filter and the hash map agree with the entries.
pub record IsSynced (l : WriteLog) : Type 0 where
  pub distinct : Distinct (epoch_locks l.entries)
  pub inline_empty : l.bloom.filter ≢ overflowed → l.bloom.overflow ≡ []
  pub filtered : (k : ℕ) → view k l.entries ≢ none → contained k l ≡ maybe_key
  pub indexed :
      l.bloom.filter ≡ overflowed → (k : ℕ) → lookup k l.bloom.overflow ≡ position k 0 l.entries

pub run_overflow-indexed :
    (l : WriteLog)
    → IsSynced l
    → l.bloom.filter ≢ overflowed
    → (k : ℕ)
    → lookup k (Bloom.run_overflow (offsets 0 l.entries) l.bloom).overflow ≡ position k 0 l.entries
unfolding Bloom.run_overflow or_else lookup
run_overflow-indexed l s n k =
    ground (arith, s.inline_empty n, lookup-extend-offsets k 0 l.entries [] s.distinct)

pub overflow-IsSynced :
    (l : WriteLog)
    → IsSynced l
    → IsSynced (overflow l)
      × ((overflow l).bloom.filter ≡ overflowed)
      × ((overflow l).entries ≡ l.entries)
unfolding overflow Bloom.to_overflow
overflow-IsSynced l s = elim (Bool-cases (l.bloom.filter == overflowed)) [
  | inl done ↦ (rw done s, ground arith, refl)
  | inr fresh ↦ (
    rw fresh (record {
      distinct = s.distinct;
      inline_empty = λ n. absurd (n (unfold Bloom.run_overflow in refl));
      filtered = λ k h. contained-overflowed k _ (unfold Bloom.run_overflow in refl);
      indexed = λ q k. run_overflow-indexed l s (ground arith) k;
    }),
    unfold Bloom.run_overflow in rw fresh,
    refl,
  )
]

-- The value of an entry that was found.
abbrev pub pending_of : Option WriteEntry → Option (List ℕ)
pending_of none = none
pending_of (some e) = some e.pending

index_entry-position :
    (k : ℕ) (es : List WriteEntry) → pending_of (index_entry es (position k 0 es)) ≡ view k es
index_entry-position k es = elim (Option-cases (position k 0 es)) [
  | inl absent ↦ rw absent (ground (arith, view-position k 0 es))
  | inr (i, here) ↦
      let at = word_index-position k 0 i es here in
      let z : i - 0 ≡ i = omega arith in rw here (ground (arith, at.indexed, at.viewed, z))
]

-- A lookup through the hash map.
pub record Finds (k : ℕ) (l : WriteLog) (r : Option WriteEntry × WriteLog) : Type 0 where
  pub found : pending_of r.0 ≡ view k l.entries
  pub synced : IsSynced r.1
  pub same : r.1.entries ≡ l.entries

pub find_skip_filter-Finds : (k : ℕ) (l : WriteLog) → IsSynced l → Finds k l (find_skip_filter k l)
unfolding find_skip_filter
find_skip_filter-Finds k l s =
    let o = overflow-IsSynced l s in
    record {
      found =
          rw (o.0.indexed o.1 k) (index_entry-position k (overflow l).entries ∙ ap (view k) o.2);
      synced = o.0;
      same = o.2;
    }

-- A lookup finds exactly the value that is pending for the cell, whichever of the filter and the
-- hash map answers it, changes no entry, and leaves the filter and the hash map in agreement.
pub find-Finds : (k : ℕ) (l : WriteLog) → IsSynced l → Finds k l (find k l)
unfolding find
find-Finds k l s = by_filter (contained k l) refl
  where
    by_filter : (c : Contained) → contained k l ≡ c → Finds k l (find_contained c k l)
    by_filter maybe_key q = find_skip_filter-Finds k l s
    by_filter no_key q = record { found = ground (arith, s.filtered k); synced = s; same = refl }

-- A log that is cleared holds nothing, and the filter and the hash map agree with that, if the hash
-- map was empty or in use.
pub clear_ready-IsSynced :
    (l : WriteLog)
    → (l.bloom.filter ≢ overflowed → l.bloom.overflow ≡ [])
    → IsSynced (clear l) × ((clear l).entries ≡ [])
unfolding clear Bloom.clear
clear_ready-IsSynced l s = (
  record {
    distinct = unfold epoch_locks in tt;
    inline_empty = λ n. ground (arith, s);
    filtered = λ k h. absurd (h (unfold view in refl));
    indexed = λ q k. absurd (omega arith);
  },
  refl,
)

pub clear-IsSynced : (l : WriteLog) → IsSynced l → IsSynced (clear l) × ((clear l).entries ≡ [])
clear-IsSynced l s = clear_ready-IsSynced l s.inline_empty

-- A transaction begins with a log that holds nothing.
pub new-IsSynced : IsSynced WriteLog.new
new-IsSynced = record {
  distinct = unfold epoch_locks in tt;
  inline_empty = λ n. refl;
  filtered = λ k h. absurd (h (unfold view in refl));
  indexed = λ q k. absurd (omega arith);
}
