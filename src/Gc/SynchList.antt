-- ===== src/Gc/SynchList.antt =====
-- src/internal/gc/quiesce/synch_list.rs: the list of the threads that take part.
-- A `Synch` is named by its address.
pub mod Laws
use swym.Shared.{
  ℕ, zero, suc, Bool, true, false, Option, none, some, List, [], ◌∷◌, ◌++◌, ◌==◌, if◌then◌else◌,
}

abbrev pub SynchList : Type 0
SynchList = List ℕ

-- `SynchList::register`
unfoldable pub register : ℕ → SynchList → SynchList
register to_add synchs = synchs ++ to_add ∷ []

-- `position`: the index of the first match
abbrev pub next_index : Option ℕ → Option ℕ
next_index none = none
next_index (some i) = some (suc i)

unfoldable pub position : ℕ → SynchList → Option ℕ
position to_remove [] = none
position to_remove (synch ∷ synchs) =
    let rest = position to_remove synchs in if synch == to_remove then some 0 else next_index rest

-- `Vec::swap_remove`: the last element takes the place of the one that is removed.
unfoldable pub last_first : ℕ → List ℕ → List ℕ × ℕ
last_first last [] = ([], last)
last_first last (x ∷ xs) = let (front, back) = last_first x xs in (last ∷ front, back)

abbrev pub without_first : List ℕ → List ℕ
without_first [] = []
without_first (x ∷ xs) = let (front, back) = last_first x xs in back ∷ front

unfoldable pub swap_remove : ℕ → List ℕ → List ℕ
swap_remove index [] = []
swap_remove zero (x ∷ xs) = without_first xs
swap_remove (suc index) (x ∷ xs) = x ∷ swap_remove index xs

abbrev pub remove_at : Option ℕ → SynchList → Bool × SynchList
remove_at none synchs = (false, synchs)
remove_at (some index) synchs = (true, swap_remove index synchs)

-- `SynchList::unregister`
unfoldable pub unregister : ℕ → SynchList → Bool × SynchList
unregister to_remove synchs = remove_at (position to_remove synchs) synchs
