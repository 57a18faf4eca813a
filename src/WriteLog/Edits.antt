-- ===== src/WriteLog/Edits.antt =====
-- src/internal/write_log.rs: what an overwrite, a tombstone and a push do to the cells' entries.
use mathlib.Core.Option.{or_else}
use swym.Shared.{
  ℕ, ◌+◌, ◌-◌, ◌≤◌, ◌≡◌, ◌≢◌, false, Option, none, some, List, [], ◌∷◌, ◌++◌, length, ◌==◌,
  if◌then◌else◌, arith, refl, member, Distinct, inl, inr, Bool-cases, member-append,
}
use swym.WriteLog.Entries.{WriteEntry, elem_words, word_len, word_index_set, epoch_locks, cons_some}
use swym.WriteLog.Layout.{
  dest_is, position, view, position-member, view-member, word_index-position, Distinct-cons_some,
}

-- The entries with the live entry of a cell replaced.
pub subst_entry : ℕ → WriteEntry → List WriteEntry → List WriteEntry
subst_entry k new [] = []
subst_entry k new (e ∷ es) = if dest_is e.dest k then new ∷ es else e ∷ subst_entry k new es

word_index_set-skip :
    (base i : ℕ) (e new : WriteEntry) (es rest : List WriteEntry)
    → base + elem_words e ≤ i
    → word_index_set es (i - (base + elem_words e)) new ≡ rest
    → word_index_set (e ∷ es) (i - base) new ≡ e ∷ rest
unfolding word_index_set
word_index_set-skip base i e new es rest h q =
    let s : i - base - elem_words e ≡ i - (base + elem_words e) = omega arith in rw s (ground arith)

position_after : (k base i : ℕ) (es : List WriteEntry) → position k base es ≡ some i → base ≤ i
position_after k base i es h = (word_index-position k base i es h).after

-- A write at the position of a cell replaces its entry.
pub word_index_set-position :
    (k base i : ℕ) (new : WriteEntry) (es : List WriteEntry)
    → position k base es ≡ some i
    → word_index_set es (i - base) new ≡ subst_entry k new es
unfolding position word_index_set subst_entry
word_index_set-position k base i new [] h = refl
word_index_set-position k base i new (e ∷ es) h = elim (Bool-cases (dest_is e.dest k)) [
  | inl here ↦ ground arith
  | inr there ↦
      let h' : position k (base + elem_words e) es ≡ some i = rw there at h in
      rw there (
        word_index_set-skip base i e new es _ (position_after k _ i es h')
          (word_index_set-position k (base + elem_words e) i new es h'))
]

-- An overwrite changes the value of its cell alone.
pub view-subst_entry :
    (k j : ℕ) (v : List ℕ) (es : List WriteEntry)
    → view k es ≢ none
    → view j (subst_entry k (record { dest = some k; pending = v }) es)
      ≡ (if k == j then some v else view j es)
unfolding view subst_entry
view-subst_entry k j v [] h = absurd (h refl)
view-subst_entry k j v (e ∷ es) h = ground (arith, view-subst_entry k j v es)

-- An overwrite by a value of the same size moves no entry.
pub position-subst_entry :
    (k j base : ℕ) (v w : List ℕ) (es : List WriteEntry)
    → view k es ≡ some w
    → length v ≡ length w
    → position j base (subst_entry k (record { dest = some k; pending = v }) es)
      ≡ position j base es
unfolding view position subst_entry
position-subst_entry k j base v w [] h s = refl
position-subst_entry k j base v w (e ∷ es) h s =
    ground (arith, position-subst_entry k j (base + elem_words e) v w es)

pub epoch_locks-subst_entry :
    (k : ℕ) (v : List ℕ) (es : List WriteEntry)
    → epoch_locks (subst_entry k (record { dest = some k; pending = v }) es) ≡ epoch_locks es
unfolding epoch_locks subst_entry
epoch_locks-subst_entry k v [] = refl
epoch_locks-subst_entry k v (e ∷ es) = ground (arith, epoch_locks-subst_entry k v es)

-- The tombstone that takes the place of an entry has its size and no cell.
abbrev pub buried : WriteEntry → WriteEntry
buried e = record e { dest = none }

-- The entries with the live entry of a cell turned into a tombstone.
pub bury : ℕ → List WriteEntry → List WriteEntry
bury k [] = []
bury k (e ∷ es) = if dest_is e.dest k then buried e ∷ es else e ∷ bury k es

pub subst_entry-bury :
    (k : ℕ) (v : List ℕ) (es : List WriteEntry)
    → view k es ≡ some v
    → subst_entry k (record { dest = none; pending = v }) es ≡ bury k es
unfolding view subst_entry bury
subst_entry-bury k v [] h = refl
subst_entry-bury k v (e ∷ es) h = ground (arith, subst_entry-bury k v es)

-- A tombstone hides its cell alone.
pub view-bury :
    (k j : ℕ) (es : List WriteEntry)
    → Distinct (epoch_locks es)
    → view j (bury k es) ≡ (if k == j then none else view j es)
unfolding view bury epoch_locks
view-bury k j [] d = ground arith
view-bury k j (e ∷ es) d = ground (arith, view-bury k j es, view-member j es)

pub position-bury :
    (k j base : ℕ) (es : List WriteEntry)
    → Distinct (epoch_locks es)
    → position j base (bury k es) ≡ (if k == j then none else position j base es)
unfolding position bury epoch_locks
position-bury k j base [] d = ground arith
position-bury k j base (e ∷ es) d =
    ground (
      arith,
      position-bury k j (base + elem_words e) es,
      position-member j (base + elem_words e) es,
    )

pub member-bury :
    (k j : ℕ) (es : List WriteEntry)
    → Distinct (epoch_locks es)
    → member j (epoch_locks (bury k es)) ≡ (if k == j then false else member j (epoch_locks es))
unfolding bury epoch_locks
member-bury k j [] d = ground arith
member-bury k j (e ∷ es) d = ground (arith, member-bury k j es)

Distinct-fewer :
    (ks js : List ℕ) (o : Option ℕ)
    → Distinct (cons_some o ks)
    → Distinct js
    → ((j : ℕ) → member j ks ≡ false → member j js ≡ false)
    → Distinct (cons_some o js)
Distinct-fewer ks js none d dj h = dj
Distinct-fewer ks js (some k) d dj h = (h k d.0, dj)

pub Distinct-bury :
    (k : ℕ) (es : List WriteEntry) → Distinct (epoch_locks es) → Distinct (epoch_locks (bury k es))
unfolding bury epoch_locks
Distinct-bury k [] d = d
Distinct-bury k (e ∷ es) d = elim (Bool-cases (dest_is e.dest k)) [
  | inl here ↦ rw here (Distinct-cons_some _ e.dest d)
  | inr there ↦ rw there (
      Distinct-fewer _ _ e.dest d (Distinct-bury k es (Distinct-cons_some _ e.dest d))
        (λ j h. ground (arith, member-bury k j es, Distinct-cons_some (epoch_locks es) e.dest d)))
]

pub word_len-bury : (k : ℕ) (es : List WriteEntry) → word_len (bury k es) ≡ word_len es
unfolding bury word_len
word_len-bury k [] = refl
word_len-bury k (e ∷ es) = ground (arith, word_len-bury k es)

-- A push at the end.
pub view-append :
    (j : ℕ) (es fs : List WriteEntry) → view j (es ++ fs) ≡ or_else (view j es) (view j fs)
unfolding view or_else
view-append j [] fs = refl
view-append j (e ∷ es) fs = ground (arith, view-append j es fs)

pub position-append :
    (j base : ℕ) (es fs : List WriteEntry)
    → position j base (es ++ fs) ≡ or_else (position j base es) (position j (base + word_len es) fs)
unfolding position or_else word_len
position-append j base [] fs = let z : base + 0 ≡ base = omega arith in rw z
position-append j base (e ∷ es) fs =
    let z : base + (elem_words e + word_len es) ≡ base + elem_words e + word_len es = omega arith in
    rw z (ground (arith, position-append j (base + elem_words e) es fs))

pub epoch_locks-append :
    (es fs : List WriteEntry) → epoch_locks (es ++ fs) ≡ epoch_locks es ++ epoch_locks fs
unfolding epoch_locks
epoch_locks-append [] fs = refl
epoch_locks-append (e ∷ es) fs = ground (arith, epoch_locks-append es fs)

pub Distinct-append_one :
    (ks : List ℕ) (k : ℕ) → Distinct ks → member k ks ≡ false → Distinct (ks ++ k ∷ [])
Distinct-append_one [] k d h = ground arith
Distinct-append_one (j ∷ ks) k d h =
    (ground (arith, member-append j ks (k ∷ [])), Distinct-append_one ks k d.1 (ground arith))
