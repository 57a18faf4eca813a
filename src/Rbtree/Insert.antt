-- ===== src/Rbtree/Insert.antt =====
-- swym-rbtree/src/base.rs: the insertion. The new node stands at an address that the allocator
-- gave; its key is the key there.
pub mod Colors
pub mod Fixed
pub mod Pending
pub mod Case4
pub mod Partial
pub mod Inner
pub mod Round
pub mod Climb
pub mod Loop
pub mod First
pub mod Lifted
pub mod FirstInner
pub mod Fixup
use swym.Shared.{
  ℕ, zero, suc, Bool, true, false, List, Option, none, some, ltb, ◌==◌, if◌then◌else◌,
}
use swym.Rbtree.Store.{
  Side, left, right, opposite, same_side, RbRef, null, valid, same_ref, Color, black, red, is_red,
  Heap, Tx, Call, out_of_fuel, pure, ◌>>=◌, ◌>>◌, modify, with_child, with_parent_color, as_ref,
  set_child, as_ref_color, set_parent_color, color, black_parent, unwrap, set_root,
}
use swym.Rbtree.Find.{VacantLocation, empty, below}
use swym.Rbtree.Rotate.{side_below, partial_rotate_red_helper, rotate_red_helper}

-- `RepairResult`
pub data RepairResult : Type 0 where
  new_root : ℕ → RepairResult
  publish_root : ℕ → RepairResult
  root_unchanged : RepairResult

-- The node of `VacantLocation::insert`, before it is published
abbrev pub new_node : ℕ → List ℕ → Heap → Heap
new_node n value h = record h {
  child = λ s b. if n == b then null else h.child s b;
  parent_color = λ b. if n == b then (null, black) else h.parent_color b;
  value = λ b. if n == b then value else h.value b;
}

abbrev pub repaired : Option ℕ → RepairResult
repaired none = root_unchanged
repaired (some root) = new_root root

-- The end of `insert_case4_mut` in its inner case, by the parent of the grandparent
abbrev pub publish_below : Tx → ℕ → ℕ → RbRef → Call RepairResult
publish_below tx n gp null = pure (publish_root n)
publish_below tx n gp (valid p) = do
  modify (with_parent_color n (valid p) black)
  set_child tx (side_below tx gp p) p (valid n)
  pure root_unchanged

-- `insert_case4_mut`, with the side of the uncle and the side of the new node
unfoldable pub insert_case4_mut : Tx → ℕ → ℕ → ℕ → Side → Side → Call RepairResult
unfolding rotate_red_helper
insert_case4_mut tx n parent gp uncle_side insert_side =
    if same_side uncle_side insert_side
    then (do
      modify (with_child (opposite uncle_side) n (valid parent))
      modify (with_child uncle_side n (valid gp))
      set_parent_color tx parent (valid n) red
      p ← black_parent tx gp
      set_parent_color tx gp (valid n) red
      set_child tx (opposite uncle_side) gp null
      publish_below tx n gp p)
    else do
      modify (with_parent_color n (valid parent) red)
      set_child tx (opposite uncle_side) parent (valid n)
      inner ← as_ref tx uncle_side parent
      root ← rotate_red_helper uncle_side tx gp parent inner
      pure (repaired root)

-- Of the two children that are still to be blackened, the one on a side
abbrev pub at_side : Side → ℕ → ℕ → ℕ
at_side left l r = l
at_side right l r = r

-- `insert_case4`
abbrev pub blacken : Tx → ℕ → ℕ → ℕ → Call (Unit {0})
blacken tx this l r = do
  set_parent_color tx l (valid this) black
  set_parent_color tx r (valid this) black

-- `insert_case4` from the test on: whether the node is the inner child of its parent
abbrev pub case4_inner :
    Tx → (this parent gp : ℕ) → Side → (l r : ℕ) → RbRef → Bool → Call (Option ℕ)
case4_inner tx this parent gp uncle_side l r inner true = do
  partial_rotate_red_helper (opposite uncle_side) tx parent this (at_side (opposite uncle_side) l r)
  rotate_red_helper uncle_side tx gp this (valid (at_side uncle_side l r))
case4_inner tx this parent gp uncle_side l r inner false = do
  blacken tx this l r
  set_parent_color tx this (valid parent) red
  rotate_red_helper uncle_side tx gp parent inner

unfoldable pub insert_case4 : Tx → (this parent gp : ℕ) → Side → (l r : ℕ) → Call (Option ℕ)
unfolding rotate_red_helper partial_rotate_red_helper
insert_case4 tx this parent gp uncle_side l r = do
  inner ← as_ref tx uncle_side parent
  case4_inner tx this parent gp uncle_side l r inner (same_ref inner (valid this))

-- `match uncle { Valid(uncle) if uncle's color is red }`
abbrev pub is_red_ref : Tx → RbRef → Call Bool
is_red_ref tx null = pure false
is_red_ref tx (valid a) = do c ← color tx a; pure (is_red c)

-- The loop of `insert_fixup`, from the uncle on: `l` and `r` are to become black and `this` red.
-- `next` is the next round.
abbrev pub round_uncle :
    (ℕ → ℕ → ℕ → Call RepairResult)
    → Tx
    → (this l r parent gp : ℕ) → Side
    → RbRef
    → Bool
    → Call RepairResult
round_uncle next tx this l r parent gp uncle_side uncle true = do
  u ← unwrap uncle
  blacken tx this l r
  set_parent_color tx this (valid parent) red
  next gp (at_side uncle_side u parent) (at_side uncle_side parent u)
round_uncle next tx this l r parent gp uncle_side uncle false = do
  root ← insert_case4 tx this parent gp uncle_side l r
  pure (repaired root)

abbrev pub round_parent :
    (ℕ → ℕ → ℕ → Call RepairResult) → Tx → (this l r parent : ℕ) → RbRef × Color → Call RepairResult
round_parent next tx this l r parent (g, black) = do
  blacken tx this l r
  set_parent_color tx this (valid parent) red
  pure root_unchanged
round_parent next tx this l r parent (g, red) = do
  gp ← unwrap g
  uncle ← as_ref tx (side_below tx gp parent) gp
  u ← is_red_ref tx uncle
  round_uncle next tx this l r parent gp (side_below tx gp parent) uncle u

abbrev pub round_above :
    (ℕ → ℕ → ℕ → Call RepairResult) → Tx → (this l r : ℕ) → RbRef → Call RepairResult
round_above next tx this l r null = do blacken tx this l r; pure root_unchanged
round_above next tx this l r (valid parent) = do
  pc ← as_ref_color tx parent
  round_parent next tx this l r parent pc

-- The loop, on `fuel` rounds
unfoldable pub fixup_loop : ℕ → Tx → ℕ → ℕ → ℕ → Call RepairResult
unfolding insert_case4
fixup_loop zero tx this l r = λ h. out_of_fuel
fixup_loop (suc fuel) tx this l r = do
  above ← black_parent tx this
  round_above (fixup_loop fuel tx) tx this l r above

-- `insert_fixup`: the first round, in which the new node is published.
abbrev pub publish : Tx → ℕ → ℕ → Side → Call (Unit {0})
publish tx n parent s = do
  modify (with_parent_color n (valid parent) red)
  set_child tx s parent (valid n)

abbrev pub first_uncle : ℕ → Tx → (n parent gp : ℕ) → Side → Side → RbRef → Bool → Call RepairResult
first_uncle fuel tx n parent gp uncle_side s uncle true = do
  u ← unwrap uncle
  publish tx n parent s
  fixup_loop fuel tx gp (at_side uncle_side u parent) (at_side uncle_side parent u)
first_uncle fuel tx n parent gp uncle_side s uncle false =
    insert_case4_mut tx n parent gp uncle_side s

abbrev pub first_parent : ℕ → Tx → (n parent : ℕ) → Side → RbRef × Color → Call RepairResult
first_parent fuel tx n parent s (g, black) = do publish tx n parent s; pure root_unchanged
first_parent fuel tx n parent s (g, red) = do
  gp ← unwrap g
  uncle ← as_ref tx (side_below tx gp parent) gp
  u ← is_red_ref tx uncle
  first_uncle fuel tx n parent gp (side_below tx gp parent) s uncle u

unfoldable pub insert_fixup : ℕ → Tx → ℕ → ℕ → Side → Call RepairResult
unfolding fixup_loop insert_case4_mut
insert_fixup fuel tx n parent s = do pc ← as_ref_color tx parent; first_parent fuel tx n parent s pc

-- `RBRoot::insert`, at the location that the search found
abbrev pub repair_root : Tx → RepairResult → Call (Unit {0})
repair_root tx (new_root root) = set_root tx (valid root)
repair_root tx (publish_root root) = set_root tx (valid root)
repair_root tx root_unchanged = pure tt

abbrev pub insert_at : ℕ → Tx → ℕ → VacantLocation → Call (Unit {0})
insert_at fuel tx n empty = set_root tx (valid n)
insert_at fuel tx n (below s parent) = do
  root ← insert_fixup fuel tx n parent s
  repair_root tx root

unfoldable pub insert : ℕ → Tx → ℕ → List ℕ → VacantLocation → Call (Unit {0})
unfolding insert_fixup
insert fuel tx n value location = do modify (new_node n value); insert_at fuel tx n location
