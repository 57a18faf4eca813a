-- ===== src/Alloc/DynVec.antt =====
-- src/internal/alloc/dyn_vec.rs: values of different sizes in one vector of words. An element is a
-- word for its vtable, and then the words of its value; the vtable says how many those are, which is
-- a parameter, as the compiler makes the vtables.
use swym.Shared.{
  ℕ, zero, suc, ◌+◌, Bool, Option, none, some, List, [], ◌∷◌, ◌++◌, length, take, drop, ltb, ◌==◌,
  if◌then◌else◌,
}
use swym.Alloc.FVec
use swym.Alloc.FVec.{FVec}

-- `Elem`
pub record Elem : Type 0 where
  pub vtable : ℕ
  pub elem : List ℕ

-- `Elem::as_slice`
abbrev pub as_slice : Elem → List ℕ
as_slice e = e.vtable ∷ e.elem

abbrev pub DynVec : Type 0
DynVec = FVec ℕ

abbrev pub is_empty : DynVec → Bool
is_empty v = length v.items == 0

abbrev pub word_len : DynVec → ℕ
word_len v = length v.items

-- `next_push_allocates`, for a value of `n` words
abbrev pub next_push_allocates : ℕ → DynVec → Bool
next_push_allocates n v = FVec.next_n_pushes_allocates (1 + n) v

unfoldable pub push : Elem → ℕ → DynVec → DynVec
push e grow v = FVec.extend (as_slice e) grow v

unfoldable pub push_unchecked : Elem → DynVec → Option DynVec
push_unchecked e v = FVec.extend_unchecked (as_slice e) v

abbrev pub clear_no_drop : DynVec → DynVec
clear_no_drop v = record v { items = [] }

abbrev pub cons_item : Elem → Option (List Elem) → Option (List Elem)
cons_item e none = none
cons_item e (some es) = some (e ∷ es)

module _ (size_of : ℕ → ℕ) where
  -- The value that a vtable and the words behind it make, and the words behind the value; `none` is
  -- the undefined behaviour of a read past the end.
  unfoldable pub from_flat : List ℕ → Option (Elem × List ℕ)
  from_flat [] = none
  from_flat (vtable ∷ words) =
      if ltb (length words) (size_of vtable)
      then none
      else some (
        record { vtable = vtable; elem = take (size_of vtable) words },
        drop (size_of vtable) words,
      )

  abbrev pub first_of : Option (Elem × List ℕ) → Option Elem
  first_of none = none
  first_of (some (e, rest)) = some e

  unfoldable pub word_index_unchecked : DynVec → ℕ → Option Elem
  word_index_unchecked v i = first_of (from_flat (drop i v.items))

  abbrev pub assign_at : Option (Elem × List ℕ) → Elem → List ℕ → Option (List ℕ)
  assign_at none new before = none
  assign_at (some (old, rest)) new before =
      if length old.elem == length new.elem then some (before ++ (as_slice new ++ rest)) else none

  abbrev pub with_items : DynVec → Option (List ℕ) → Option DynVec
  with_items v none = none
  with_items v (some items) = some (record v { items = items })

  -- `assign_unchecked`, through `word_index_unchecked_mut`; a value of another size is undefined
  -- behaviour.
  unfoldable pub assign_unchecked : DynVec → ℕ → Elem → Option DynVec
  assign_unchecked v i new =
      with_items v (assign_at (from_flat (drop i v.items)) new (take i v.items))

  -- A loop over `Iter`, `IterMut` or `Drain`: `next` until no word is left. The fuel is the number of
  -- words, each turn takes one at least; `none` is the undefined behaviour of `next`, or no fuel.
  abbrev pub cons_next : Option (Elem × List ℕ) → (List ℕ → Option (List Elem)) → Option (List Elem)
  cons_next none rest = none
  cons_next (some (e, words)) rest = cons_item e (rest words)

  unfoldable pub iterate : ℕ → List ℕ → Option (List Elem)
  iterate fuel [] = some []
  iterate zero (w ∷ words) = none
  iterate (suc fuel) (w ∷ words) = cons_next (from_flat (w ∷ words)) (λ rest. iterate fuel rest)

  unfoldable pub iter : DynVec → Option (List Elem)
  iter v = iterate (length v.items) v.items

  abbrev pub drained : Option (List Elem) → DynVec → Option (List Elem × DynVec)
  drained none v = none
  drained (some es) v = some (es, clear_no_drop v)

  -- `drain`, and `clear` by it
  unfoldable pub drain : DynVec → Option (List Elem × DynVec)
  drain v = drained (iter v) v
