-- ===== src/Tests/Vectors.antt =====
-- src/internal/alloc.
use swym.Shared.{ℕ, ◌+◌, ◌-◌, ◌≡◌, some, none, List, [], ◌∷◌, refl, arith, length}
use swym.WriteLog.Entries.{WriteEntry, word_index, word_index_set}
use swym.Alloc.FVec
use swym.Alloc.FVec.{FVec, swap_remove_unchecked, back_unchecked, pop_unchecked, push_unchecked}
use swym.Alloc.DynVec.{
  Elem, DynVec, iter, drain, clear_no_drop, word_index_unchecked, assign_unchecked,
}
use swym.Alloc.RoundTrip.{push_all, pushed, push_all-iter}
use swym.Alloc.Entries.{encode, encoded, assign_unchecked-word_index_set}

-- Two values, of two words and of none; a vtable is the size, with 100 added.
abbrev sizes : ℕ → ℕ
sizes vtable = vtable - 100

abbrev two : List (Elem × ℕ)
two = (record { vtable = 102; elem = 7 ∷ 8 ∷ [] }, 4) ∷ (record { vtable = 100; elem = [] }, 4) ∷ []

push_all-iter_example :
    (iter sizes (push_all two FVec.new) ≡ some (pushed two))
    × (drain sizes (push_all two FVec.new)
        ≡ some (pushed two, clear_no_drop (push_all two FVec.new)))
push_all-iter_example = push_all-iter sizes two (refl, (refl, tt))

abbrev vtable_of : WriteEntry → ℕ
vtable_of e = 101 + length e.pending

vtables : (e : WriteEntry) → sizes (vtable_of e) ≡ 1 + length e.pending
vtables e = omega arith

abbrev entries : List WriteEntry
entries =
    record { dest = some 16; pending = 7 ∷ [] } ∷ record { dest = none; pending = 8 ∷ 9 ∷ [] } ∷ []

abbrev newer : WriteEntry
newer = record { dest = some 32; pending = 1 ∷ 2 ∷ [] }

abbrev vector : DynVec
vector = record { items = encoded vtable_of entries; capacity = 8 }

second_found : word_index entries 3 ≡ some (record { dest = none; pending = 8 ∷ 9 ∷ [] })
unfolding word_index
second_found = refl

assign_unchecked-word_index_set_example :
    (word_index_unchecked sizes vector 3
      ≡ some (encode vtable_of (record { dest = none; pending = 8 ∷ 9 ∷ [] })))
    × (assign_unchecked sizes vector 3 (encode vtable_of newer)
        ≡ some (record vector { items = encoded vtable_of (word_index_set entries 3 newer) }))
assign_unchecked-word_index_set_example =
    assign_unchecked-word_index_set sizes vtable_of vtables vector entries 3
      (record { dest = none; pending = 8 ∷ 9 ∷ [] }) newer refl second_found refl

abbrev three_items : FVec ℕ
three_items = record { items = 4 ∷ 5 ∷ 6 ∷ []; capacity = 3 }

swap_first :
    swap_remove_unchecked 0 three_items ≡ some (4, record { items = 6 ∷ 5 ∷ []; capacity = 3 })
unfolding swap_remove_unchecked back_unchecked
swap_first = refl

pop_last : pop_unchecked three_items ≡ some (6, record { items = 4 ∷ 5 ∷ []; capacity = 3 })
unfolding pop_unchecked
pop_last = refl

push_full : push_unchecked 7 three_items ≡ none
unfolding push_unchecked
push_full = refl
