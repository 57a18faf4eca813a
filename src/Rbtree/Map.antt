-- ===== src/Rbtree/Map.antt =====
-- swym-rbtree/src/lib.rs: the map over the tree. The value of a node is a cell of its own, which is
-- read and replaced as in Tcell.
pub mod Laws
pub mod View
pub mod Refines
use swym.Shared.{ℕ, List, Bool, Option, none, some, ◌==◌, if◌then◌else◌}
use swym.Rbtree.Store.{Heap, Tx, Call, pure, ◌>>=◌, ◌>>◌, get, put}
use swym.Rbtree.Find
use swym.Rbtree.Find.{VacantLocation, Location, vacant, occupied, location}
use swym.Rbtree.Insert
use swym.Rbtree.Remove

-- `TCell::borrow` and `TCell::replace`, of the value of a node
abbrev pub borrow_value : Tx → ℕ → Call (List ℕ)
borrow_value tx a = get tx λ h. h.value a

abbrev pub with_value : ℕ → List ℕ → Heap → Heap
with_value a v h = record h { value = λ b. if a == b then v else h.value b }

abbrev pub replace_value : Tx → ℕ → List ℕ → Call (List ℕ)
replace_value tx a v = do prev ← borrow_value tx a; put tx (with_value a v); pure prev

-- `RBTreeMapRaw::get`
abbrev pub get_at : Tx → Location → Call (Option (List ℕ))
get_at tx (vacant l) = pure none
get_at tx (occupied node) = do v ← borrow_value tx node; pure (some v)

unfoldable pub get_key : ℕ → Tx → ℕ → Call (Option (List ℕ))
unfolding location
get_key fuel tx key = do l ← location fuel tx key; get_at tx l

-- `RBTreeMapRaw::insert`, with the address of the new node
abbrev pub insert_at : ℕ → Tx → ℕ → List ℕ → Location → Call (Option (List ℕ))
insert_at fuel tx n value (vacant l) = do Insert.insert fuel tx n value l; pure none
insert_at fuel tx n value (occupied node) = do prev ← replace_value tx node value; pure (some prev)

unfoldable pub insert : ℕ → Tx → ℕ → List ℕ → Call (Option (List ℕ))
unfolding location Insert.insert
insert fuel tx n value = do l ← location fuel tx (tx.key n); insert_at fuel tx n value l

-- `RBTreeMapRaw::remove`
abbrev pub remove_found : ℕ → Tx → Location → Call (Option (List ℕ))
remove_found fuel tx (vacant l) = pure none
remove_found fuel tx (occupied node) = do
  Remove.remove fuel tx node
  v ← borrow_value tx node
  pure (some v)

unfoldable pub remove : ℕ → Tx → ℕ → Call (Option (List ℕ))
unfolding location Remove.remove
remove fuel tx key = do l ← location fuel tx key; remove_found fuel tx l
