-- ===== src/Rbtree/Remove/Nofix.antt =====
-- swym-rbtree/src/base.rs: the removal of a node, without its repairs.
use swym.Shared.{ℕ, zero, suc, Option, none, some, ◌∷◌, if◌then◌else◌}
use swym.Rbtree.Store.{
  left, right, RbRef, null, valid, Color, black, red, is_red, Heap, Tx, Call, out_of_fuel, pure,
  ◌>>=◌, ◌>>◌, modify, as_ref, set_child, as_ref_color, set_parent_color, color, unwrap,
}
use swym.Rbtree.Rotate.{side_below}

-- The link that led to `self` leads to `p`; the result is the root, where it changes.
abbrev pub relink : Tx → ℕ → RbRef → RbRef → Call (Option RbRef)
relink tx self null p = pure (some p)
relink tx self (valid parent) p = do set_child tx (side_below tx self parent) parent p; pure none

-- The node has no left child.
abbrev pub only_right : Tx → RbRef × Color → RbRef → Call RbRef
only_right tx (parent, c) (valid node_right) = do set_parent_color tx node_right parent c; pure null
only_right tx (parent, black) null = pure parent
only_right tx (parent, red) null = pure null

abbrev pub remove_no_left : Tx → ℕ → RbRef → Call (Option RbRef × RbRef)
remove_no_left tx self node_right = do
  pc ← as_ref_color tx self
  root ← relink tx self pc.0 node_right
  rebalance ← only_right tx pc node_right
  pure (root, rebalance)

-- The node has no right child.
abbrev pub remove_no_right : Tx → ℕ → ℕ → Call (Option RbRef × RbRef)
remove_no_right tx self node_left = do
  pc ← as_ref_color tx self
  set_parent_color tx node_left pc.0 pc.1
  root ← relink tx self pc.0 (valid node_left)
  pure (root, null)

-- The walk to the leftmost node: its parent, itself, on `fuel` rounds
abbrev pub leftmost_next : (ℕ → ℕ → Call (ℕ × ℕ)) → (parent successor : ℕ) → RbRef → Call (ℕ × ℕ)
leftmost_next next parent successor null = pure (parent, successor)
leftmost_next next parent successor (valid further) = next successor further

unfoldable pub leftmost : ℕ → Tx → (parent successor : ℕ) → Call (ℕ × ℕ)
leftmost zero tx parent successor = λ h. out_of_fuel
leftmost (suc fuel) tx parent successor = do
  p ← as_ref tx left successor
  leftmost_next (leftmost fuel tx) parent successor p

-- The successor with its parent after the move, and its right child. It is the right child itself, or
-- the leftmost node below that, which is taken out.
abbrev pub take_successor : ℕ → Tx → ℕ → RbRef → Call (ℕ × ℕ × RbRef)
take_successor fuel tx child null = do child2 ← as_ref tx right child; pure (child, child, child2)
take_successor fuel tx child (valid first) = do
  found ← leftmost fuel tx child first
  child2 ← as_ref tx right found.1
  set_child tx left found.0 child2
  set_child tx right found.1 (valid child)
  c ← color tx child
  set_parent_color tx child (valid found.1) c
  pure (found.0, found.1, child2)

abbrev pub recolor_successor : Tx → ℕ → ℕ → RbRef × Color → RbRef → Call RbRef
recolor_successor tx parent successor pc (valid child2) = do
  set_parent_color tx successor pc.0 pc.1
  set_parent_color tx child2 (valid parent) black
  pure null
recolor_successor tx parent successor pc null = do
  pc2 ← as_ref_color tx successor
  set_parent_color tx successor pc.0 pc.1
  pure (if is_red pc2.1 then null else valid parent)

-- The node has two children: its successor takes its place.
abbrev pub remove_both : ℕ → Tx → ℕ → ℕ → Call (Option RbRef × RbRef)
remove_both fuel tx self child = do
  first ← as_ref tx left child
  found ← take_successor fuel tx child first
  node_left ← as_ref tx left self
  set_child tx left found.1 node_left
  l ← unwrap node_left
  c ← color tx l
  set_parent_color tx l (valid found.1) c
  pc ← as_ref_color tx self
  root ← relink tx self pc.0 (valid found.1)
  rebalance ← recolor_successor tx found.0 found.1 pc found.2
  pure (root, rebalance)

abbrev pub remove_links : ℕ → Tx → ℕ → RbRef → RbRef → Call (Option RbRef × RbRef)
remove_links fuel tx self null node_right = remove_no_left tx self node_right
remove_links fuel tx self (valid node_left) null = remove_no_right tx self node_left
remove_links fuel tx self (valid node_left) (valid child) = remove_both fuel tx self child

-- `remove_nofix`: the new root, if it changes, and where to rebalance. The node is queued up for
-- being freed.
abbrev pub privatize : ℕ → Heap → Heap
privatize a h = record h { privatized = a ∷ h.privatized }

unfoldable pub remove_nofix : ℕ → Tx → ℕ → Call (Option RbRef × RbRef)
unfolding leftmost
remove_nofix fuel tx self = do
  node_right ← as_ref tx right self
  node_left ← as_ref tx left self
  result ← remove_links fuel tx self node_left node_right
  modify (privatize self)
  pure result
