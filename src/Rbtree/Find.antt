-- ===== src/Rbtree/Find.antt =====
-- swym-rbtree/src/base.rs: the search for a key.
pub mod Laws
use swym.Shared.{ℕ, suc, zero, Bool, true, false, ltb, ◌==◌, if◌then◌else◌}
use swym.Rbtree.Store.{
  Side, left, right, RbRef, null, valid, Heap, Tx, Call, out_of_fuel, pure, ◌>>=◌, get, as_ref,
}

-- `VacantLocation` and `Location`
pub data VacantLocation : Type 0 where
  empty : VacantLocation
  below : Side → ℕ → VacantLocation

pub data Location : Type 0 where
  vacant : VacantLocation → Location
  occupied : ℕ → Location

-- `RBNode::find_impl`, at a link that may be null: a loop that is given `fuel` rounds.
abbrev pub next_round : Side → ℕ → RbRef → (ℕ → Call Location) → Call Location
next_round s this null next = pure (vacant (below s this))
next_round s this (valid child) next = next child

unfoldable pub find_impl : ℕ → Tx → ℕ → ℕ → Call Location
find_impl zero tx key this = λ h. out_of_fuel
find_impl (suc fuel) tx key this =
    if ltb key (tx.key this)
    then (do p ← as_ref tx left this; next_round left this p (find_impl fuel tx key))
    else if ltb (tx.key this) key
    then (do p ← as_ref tx right this; next_round right this p (find_impl fuel tx key))
    else pure (occupied this)

-- `RBRoot::location_read`, `location_readwrite` and `location`, which differ in the ordering
abbrev pub find_root : ℕ → Tx → ℕ → RbRef → Call Location
find_root fuel tx key null = pure (vacant empty)
find_root fuel tx key (valid root) = find_impl fuel tx key root

unfoldable pub location : ℕ → Tx → ℕ → Call Location
unfolding find_impl
location fuel tx key = do p ← get tx (λ h. h.root); find_root fuel tx key p

abbrev pub is_occupied : Location → Bool
is_occupied (vacant l) = false
is_occupied (occupied a) = true

-- `RBRoot::contains_key`
unfoldable pub contains_key : ℕ → Tx → ℕ → Call Bool
unfolding location
contains_key fuel tx key = do l ← location fuel tx key; pure (is_occupied l)
