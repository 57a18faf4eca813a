-- ===== src/Gc/SynchList/Laws.antt =====
-- src/internal/gc/quiesce/synch_list.rs: the list as a bag of threads.
use swym.Shared.{
  ℕ, zero, suc, ◌+◌, ◌≡◌, true, false, Option, none, some, List, [], ◌∷◌, ◌==◌, if◌then◌else◌,
  member, arith, refl, inl, inr, Option-cases, Bool-cases, ◌||◌, ◌&&◌,
}
use swym.Gc.SynchList.{
  SynchList, next_index, position, last_first, without_first, swap_remove, unregister,
}

-- How often a thread is in the list; the order is never observed.
abbrev pub count : ℕ → SynchList → ℕ
count j [] = 0
count j (x ∷ xs) = if x == j then suc (count j xs) else count j xs

count-last_first :
    (j x : ℕ) (xs : List ℕ) → count j ((last_first x xs).1 ∷ (last_first x xs).0) ≡ count j (x ∷ xs)
unfolding last_first
count-last_first j x [] = refl
count-last_first j x (y ∷ xs) = ground (arith, count-last_first j y xs)

count-without_first : (j : ℕ) (xs : List ℕ) → count j (without_first xs) ≡ count j xs
count-without_first j [] = refl
count-without_first j (x ∷ xs) = count-last_first j x xs

-- What is removed, and what is not.
record Removed (k : ℕ) (xs ys : SynchList) : Type 0 where
  was_in : member k xs ≡ true
  counts : (j : ℕ) → count j ys + (if k == j then 1 else 0) ≡ count j xs

swap_remove-Removed :
    (k i : ℕ) (xs : SynchList) → position k xs ≡ some i → Removed k xs (swap_remove i xs)
unfolding position swap_remove
swap_remove-Removed k i [] h = absurd (cc)
swap_remove-Removed k i (x ∷ xs) h = elim (Bool-cases (x == k)) [
  | inl same ↦
      let z : i ≡ zero = ground arith in
      rw z
        (record { was_in = ground arith; counts = λ j. ground (arith, count-without_first j xs) })
  | inr other ↦
      by_rest i (position k xs) (λ n q. swap_remove-Removed k n xs q) other (rw other at h)
]
  where
    by_rest :
        (i : ℕ) (o : Option ℕ)
        → ((n : ℕ) → o ≡ some n → Removed k xs (swap_remove n xs))
        → x == k ≡ false
        → next_index o ≡ some i
        → Removed k (x ∷ xs) (swap_remove i (x ∷ xs))
    by_rest i none ih other q = absurd (cc)
    by_rest zero (some n) ih other q = absurd (ground arith)
    by_rest (suc i) (some n) ih other q =
        let same : n ≡ i = ground arith in
        let r = ih n refl in
        rw (← same)
          (record { was_in = ground (arith, r.was_in); counts = λ j. ground (arith, r.counts j) })

position-none : (k : ℕ) (xs : SynchList) → position k xs ≡ none → member k xs ≡ false
unfolding position
position-none k [] h = refl
position-none k (x ∷ xs) h = elim (Bool-cases (x == k)) [
  | inl same ↦ absurd (ground arith)
  | inr other ↦ by_rest (position k xs) (λ q. position-none k xs q) other (rw other at h)
]
  where
    by_rest :
        (o : Option ℕ)
        → (o ≡ none → member k xs ≡ false)
        → x == k ≡ false
        → next_index o ≡ none
        → (x == k) || member k xs ≡ false
    by_rest none ih other q = ground (arith, ih refl)
    by_rest (some n) ih other q = absurd (cc)

-- A thread that leaves is found exactly if it is in the list; then it is taken out once, and every
-- other thread stays in the list as often as it was. Otherwise nothing is changed.
pub unregister-count :
    (k : ℕ) (xs : SynchList)
    → ((unregister k xs).0 ≡ member k xs)
      × ((j : ℕ)
          → count j (unregister k xs).1 + (if (k == j) && (unregister k xs).0 then 1 else 0)
            ≡ count j xs)
unfolding unregister
unregister-count k xs = elim (Option-cases (position k xs)) [
  | inl absent ↦ rw absent (ground (arith, position-none k xs absent), λ j. ground arith)
  | inr (i, found) ↦
      let r = swap_remove-Removed k i xs found in
      rw found (ground (arith, r.was_in), λ j. ground (arith, r.counts j))
]
