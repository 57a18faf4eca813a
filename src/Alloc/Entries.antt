-- ===== src/Alloc/Entries.antt =====
-- src/internal/write_log.rs, src/internal/alloc/dyn_vec.rs: the list of entries that the model of the
-- write log keeps, as words of the vector in which the source keeps them.
use mathlib.Core.List.{append_assoc}
use swym.Shared.{
  ℕ, zero, suc, ◌+◌, ◌-◌, ◌≡◌, ◌==◌, Bool-cases, Option, none, some, List, [], ◌∷◌, ◌++◌, map,
  length, length-append, take, drop, arith, refl, ap, ◌∙◌, ltb, true, inl, inr,
}
use swym.WriteLog.Entries
use swym.WriteLog.Entries.{WriteEntry, elem_words, word_index, word_index_set}
use swym.Alloc.DynVec.{Elem, as_slice, DynVec, from_flat, word_index_unchecked, assign_unchecked}
use swym.Alloc.RoundTrip.{IsSized, flat, from_flat-as_slice}

-- The word of `dest`: an address, or 0 in a tombstone.
abbrev pub dest_word : Option ℕ → ℕ
dest_word none = 0
dest_word (some k) = k

module _ (vtable_of : WriteEntry → ℕ) where
  abbrev pub encode : WriteEntry → Elem
  encode e = record { vtable = vtable_of e; elem = dest_word e.dest ∷ e.pending }

  abbrev pub encoded : List WriteEntry → List ℕ
  encoded es = flat (map encode es)

drop-past : (xs ys : List ℕ) (i j : ℕ) → i ≡ length xs + j → drop i (xs ++ ys) ≡ drop j ys
drop-past [] ys i j h = ap (λ (n : ℕ). drop n ys) (omega arith)
drop-past (x ∷ xs) ys zero j h = absurd (omega arith)
drop-past (x ∷ xs) ys (suc i) j h = drop-past xs ys i j (omega arith)

take-past : (xs ys : List ℕ) (i j : ℕ) → i ≡ length xs + j → take i (xs ++ ys) ≡ xs ++ take j ys
take-past [] ys i j h = ap (λ (n : ℕ). take n ys) (omega arith)
take-past (x ∷ xs) ys zero j h = absurd (omega arith)
take-past (x ∷ xs) ys (suc i) j h = ap (λ (l : List ℕ). x ∷ l) (take-past xs ys i j (omega arith))

-- The words of an entry that begins at a word, and what replaces them.
record At (vtable_of : WriteEntry → ℕ) (es : List WriteEntry) (i : ℕ) (e : WriteEntry)
    : Type 0 where
  behind : List ℕ
  found : drop i (encoded vtable_of es) ≡ as_slice (encode vtable_of e) ++ behind
  replaced :
      (e' : WriteEntry)
      → take i (encoded vtable_of es) ++ (as_slice (encode vtable_of e') ++ behind)
        ≡ encoded vtable_of (word_index_set es i e')

At-behind :
    (vtable_of : WriteEntry → ℕ) (x : WriteEntry) (es : List WriteEntry) (i j : ℕ) (e : WriteEntry)
    → i ≡ elem_words x + j
    → ((e' : WriteEntry) → word_index_set (x ∷ es) i e' ≡ x ∷ word_index_set es j e')
    → At vtable_of es j e
    → At vtable_of (x ∷ es) i e
unfolding flat
At-behind vtable_of x es i j e far set rest =
    let shape : i ≡ length (as_slice (encode vtable_of x)) + j = omega arith in
    record {
      behind = rest.behind;
      found =
          drop-past (as_slice (encode vtable_of x)) (encoded vtable_of es) i j shape ∙ rest.found;
      replaced = λ e'.
          rw (set e', take-past (as_slice (encode vtable_of x)) (encoded vtable_of es) i j shape)
            (append_assoc (as_slice (encode vtable_of x)) (take j (encoded vtable_of es))
                (as_slice (encode vtable_of e') ++ rest.behind)
              ∙ ap (λ (l : List ℕ). as_slice (encode vtable_of x) ++ l) (rest.replaced e'));
    }

word_index-At :
    (vtable_of : WriteEntry → ℕ) (es : List WriteEntry) (i : ℕ) (e : WriteEntry)
    → word_index es i ≡ some e
    → At vtable_of es i e
unfolding word_index word_index_set flat
word_index-At vtable_of [] i e h = absurd (cc)
word_index-At vtable_of (x ∷ es) i e h = elim (Bool-cases (i == 0)) [
  | inl begins ↦
      let q : x ≡ e = ground arith in
      let start : i ≡ 0 = ground arith in
      rw (start, ← q)
        (record { behind = encoded vtable_of es; found = refl; replaced = λ e'. refl })
  | inr past ↦ elim (Bool-cases (ltb i (elem_words x))) [
    | inl inside ↦ absurd (ground arith)
    | inr beyond ↦
        At-behind vtable_of x es i (i - elem_words x) e (ground arith) (λ e'. rw (past, beyond))
          (word_index-At vtable_of es (i - elem_words x) e (rw (past, beyond) at h))
  ]
]

-- The number of words of a list of entries.
pub length-encoded :
    (vtable_of : WriteEntry → ℕ) (es : List WriteEntry)
    → length (encoded vtable_of es) ≡ Entries.word_len es
unfolding flat Entries.word_len
length-encoded vtable_of [] = refl
length-encoded vtable_of (e ∷ es) =
    omega (arith, length-append e.pending (encoded vtable_of es), length-encoded vtable_of es)

module _ (size_of : ℕ → ℕ) (vtable_of : WriteEntry → ℕ)
    (vtables : (e : WriteEntry) → size_of (vtable_of e) ≡ 1 + length e.pending) where
  -- Where the list has an entry that begins at a word, the vector of its encoded, seen through the
  -- vtable that stands at that word, has that entry too; and assigning an entry as large through it
  -- makes the vector that of the list with the entry replaced.
  pub assign_unchecked-word_index_set :
      (v : DynVec) (es : List WriteEntry) (i : ℕ) (old new : WriteEntry)
      → v.items ≡ encoded vtable_of es
      → word_index es i ≡ some old
      → length new.pending ≡ length old.pending
      → (word_index_unchecked size_of v i ≡ some (encode vtable_of old))
        × (assign_unchecked size_of v i (encode vtable_of new)
            ≡ some (record v { items = encoded vtable_of (word_index_set es i new) }))
  unfolding word_index_unchecked assign_unchecked
  assign_unchecked-word_index_set v es i old new q h same =
      let at = word_index-At vtable_of es i old h in
      let sized : IsSized size_of (encode vtable_of old) = omega (arith, vtables old) in
      let read : from_flat size_of (drop i v.items) ≡ some (encode vtable_of old, at.behind) =
        rw (q, at.found) (from_flat-as_slice size_of (encode vtable_of old) at.behind sized) in
      let size : (length (encode vtable_of old).elem == length (encode vtable_of new).elem) ≡ true =
        ground arith in
      let made : take i v.items ++ (as_slice (encode vtable_of new) ++ at.behind)
          ≡ encoded vtable_of (word_index_set es i new) =
        rw q (at.replaced new) in
      (rw read, rw (read, size, made))
