-- ===== src/WriteLog/Layout.antt =====
-- src/internal/write_log.rs: where the entry of a cell begins in the vector, and what reads and
-- writes at that word do to the cells' entries.
use mathlib.Core.Option.{or_else}
use swym.Shared.{
  ℕ, ◌+◌, ◌-◌, ◌≤◌, ◌≡◌, ◌≢◌, Bool, true, false, Option, none, some, List, [], ◌∷◌, ◌==◌,
  if◌then◌else◌, arith, refl, member, Distinct, ◌⊎◌, inl, inr, Bool-cases,
}
use swym.Bloom.{Overflow, lookup, insert, extend}
use swym.Bloom.Laws.{lookup-insert}
use swym.WriteLog.Entries.{
  WriteEntry, elem_words, word_index, epoch_locks, offsets, cons_some, cons_offset,
}

-- Whether an entry is the live one of a cell.
abbrev pub dest_is : Option ℕ → ℕ → Bool
dest_is none k = false
dest_is (some j) k = j == k

-- The word at which the entry of a cell begins, counted from `base`.
unfoldable pub position : ℕ → ℕ → List WriteEntry → Option ℕ
position k base [] = none
position k base (e ∷ es) =
    if dest_is e.dest k then some base else position k (base + elem_words e) es

-- The value that a transaction has pending for a cell.
unfoldable pub view : ℕ → List WriteEntry → Option (List ℕ)
view k [] = none
view k (e ∷ es) = if dest_is e.dest k then some e.pending else view k es

pub Distinct-cons_some : (ks : List ℕ) (o : Option ℕ) → Distinct (cons_some o ks) → Distinct ks
Distinct-cons_some ks none d = d
Distinct-cons_some ks (some k) d = d.1

pub position-member :
    (k base : ℕ) (es : List WriteEntry)
    → member k (epoch_locks es) ≡ false
    → position k base es ≡ none
unfolding position epoch_locks
position-member k base [] h = refl
position-member k base (e ∷ es) h = ground (arith, position-member k (base + elem_words e) es)

pub view-member :
    (k : ℕ) (es : List WriteEntry) → member k (epoch_locks es) ≡ false → view k es ≡ none
unfolding view epoch_locks
view-member k [] h = refl
view-member k (e ∷ es) h = ground (arith, view-member k es)

pub member-view :
    (k : ℕ) (es : List WriteEntry) → view k es ≡ none → member k (epoch_locks es) ≡ false
unfolding view epoch_locks
member-view k [] h = refl
member-view k (e ∷ es) h = ground (arith, member-view k es)

pub view-position :
    (k base : ℕ) (es : List WriteEntry) → (view k es ≡ none) ⊎ (position k base es ≢ none)
unfolding position view
view-position k base [] = inl refl
view-position k base (e ∷ es) = ground (arith, view-position k (base + elem_words e) es)

lookup-extend-cons :
    (k base : ℕ) (o : Option ℕ) (ks : List ℕ) (l : List (ℕ × ℕ)) (later : Option ℕ) (m : Overflow)
    → ((m' : Overflow) → lookup k (extend m' l) ≡ or_else later (lookup k m'))
    → (member k ks ≡ false → later ≡ none)
    → Distinct (cons_some o ks)
    → lookup k (extend m (cons_offset o base l))
      ≡ or_else (if dest_is o k then some base else later) (lookup k m)
unfolding extend or_else
lookup-extend-cons k base none ks l later m ih absent d = ih m
lookup-extend-cons k base (some j) ks l later m ih absent d =
    ground (arith, ih (insert j base m), lookup-insert j k base m)

-- A hash map that is filled from the entries holds the words at which they begin.
pub lookup-extend-offsets :
    (k base : ℕ) (es : List WriteEntry) (m : Overflow)
    → Distinct (epoch_locks es)
    → lookup k (extend m (offsets base es)) ≡ or_else (position k base es) (lookup k m)
unfolding position epoch_locks extend offsets or_else
lookup-extend-offsets k base [] m d = refl
lookup-extend-offsets k base (e ∷ es) m d =
    lookup-extend-cons k base e.dest (epoch_locks es) (offsets (base + elem_words e) es)
      (position k (base + elem_words e) es) m
      (λ m'. lookup-extend-offsets k (base + elem_words e) es m' (Distinct-cons_some _ e.dest d))
      (position-member k (base + elem_words e) es) d

-- The entry that begins at the position of a cell is that of the cell.
pub record EntryAt (k base i : ℕ) (es : List WriteEntry) : Type 0 where
  pub value : List ℕ
  pub after : base ≤ i
  pub viewed : view k es ≡ some value
  pub indexed : word_index es (i - base) ≡ some (record { dest = some k; pending = value })

EntryAt-here :
    (k base i : ℕ) (e : WriteEntry) (es : List WriteEntry)
    → dest_is e.dest k ≡ true
    → some base ≡ some i
    → EntryAt k base i (e ∷ es)
unfolding view word_index
EntryAt-here k base i e es h q = record {
  value = e.pending;
  after = ground arith;
  viewed = rw h;
  indexed = ground arith;
}

EntryAt-there :
    (k base i : ℕ) (e : WriteEntry) (es : List WriteEntry)
    → dest_is e.dest k ≡ false
    → EntryAt k (base + elem_words e) i es
    → EntryAt k base i (e ∷ es)
unfolding view word_index
EntryAt-there k base i e es h r =
    let q : i - base - elem_words e ≡ i - (base + elem_words e) = omega arith in
    record {
      value = r.value;
      after = omega (arith, r.after);
      viewed = rw h r.viewed;
      indexed = rw q (ground (arith, r.after, r.indexed));
    }

pub word_index-position :
    (k base i : ℕ) (es : List WriteEntry) → position k base es ≡ some i → EntryAt k base i es
unfolding position
word_index-position k base i [] h = absurd (cc)
word_index-position k base i (e ∷ es) h = elim (Bool-cases (dest_is e.dest k)) [
  | inl here ↦ EntryAt-here k base i e es here (rw here at h)
  | inr there ↦
      EntryAt-there k base i e es there
        (word_index-position k (base + elem_words e) i es (rw there at h))
]
