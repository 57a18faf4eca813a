-- ===== src/Rbtree/Rotate.antt =====
-- swym-rbtree/src/base.rs: the rotations. A function and its mirror image are one, which takes the
-- side.
pub mod Turn
pub mod Relink
pub mod Laws
pub mod Whole
use swym.Shared.{ℕ, ltb, Option, none, some, if◌then◌else◌}
use swym.Rbtree.Store.{
  Side, left, right, opposite, RbRef, null, valid, black, red, Tx, Call, pure, ◌>>=◌, ◌>>◌,
  set_child, set_parent_color, black_parent, if_valid,
}

-- Which link of a parent leads to a node, by their keys.
abbrev pub side_below : Tx → ℕ → ℕ → Side
side_below tx a p = if ltb (tx.key a) (tx.key p) then left else right

-- `partial_rotate_right_red_helper` at the side `right`, and `partial_rotate_left_red_helper` at
-- `left`
unfoldable pub partial_rotate_red_helper : Side → Tx → ℕ → ℕ → ℕ → Call (Unit {0})
partial_rotate_red_helper s tx self up inner = do
  set_child tx (opposite s) self (valid inner)
  set_parent_color tx self (valid up) red
  set_child tx s up (valid self)
  set_parent_color tx inner (valid self) black

-- The link that led to the rotated node: the parent's, or the root's, which the caller sets.
abbrev pub replace_below : Tx → ℕ → RbRef → ℕ → Call (Option ℕ)
replace_below tx self null up = pure (some up)
replace_below tx self (valid p) up = do set_child tx (side_below tx self p) p (valid up); pure none

-- `rotate_left_red_helper` at the side `left`, and `rotate_right_red_helper` at `right`
unfoldable pub rotate_red_helper : Side → Tx → ℕ → ℕ → RbRef → Call (Option ℕ)
rotate_red_helper s tx self up inner = do
  parent ← black_parent tx self
  set_parent_color tx self (valid up) red
  set_child tx (opposite s) self inner
  set_child tx s up (valid self)
  set_parent_color tx up parent black
  if_valid inner (λ a. set_parent_color tx a (valid self) black)
  replace_below tx self parent up

abbrev pub rotate_left_red_helper : Tx → ℕ → ℕ → RbRef → Call (Option ℕ)
rotate_left_red_helper = rotate_red_helper left

abbrev pub rotate_right_red_helper : Tx → ℕ → ℕ → RbRef → Call (Option ℕ)
rotate_right_red_helper = rotate_red_helper right
