-- ===== src/Rbtree/Remove.antt =====
-- swym-rbtree/src/base.rs: the removal. The two branches of `remove_fixup` are mirror images but
-- for the order of some writes to cells that differ; here they are one, which takes the side.
pub mod Nofix
use swym.Shared.{ℕ, zero, suc, Bool, true, false, Option, none, some, ◌∷◌, if◌then◌else◌}
use swym.Rbtree.Store.{
  Side, left, right, opposite, RbRef, null, valid, same_ref, Color, black, red, is_red, Heap, Tx,
  Call, out_of_fuel, pure, ◌>>=◌, ◌>>◌, modify, as_ref, set_child, as_ref_color, set_parent_color,
  color, unwrap, if_valid, set_root,
}
use swym.Rbtree.Rotate.{side_below, rotate_red_helper}
use swym.Rbtree.Insert.{is_red_ref}
use swym.Rbtree.Remove.Nofix.{remove_nofix}

-- `remove_fixup`, from its end to its start. `s` is the side of the node that is black; its sibling
-- is at the opposite side. First the last rotation.
abbrev pub keep_color : Tx → ℕ → ℕ → Call (Unit {0})
keep_color tx parent a = do c ← color tx a; set_parent_color tx a (valid parent) c

abbrev pub rotated_root : Option ℕ → ℕ → RbRef → Option ℕ
rotated_root result sibling null = some sibling
rotated_root result sibling (valid gp) = result

abbrev pub link_sibling : Tx → ℕ → RbRef → Call (Unit {0})
link_sibling tx sibling gp =
    if_valid gp λ g. set_child tx (side_below tx sibling g) g (valid sibling)

abbrev pub last_rotation : Tx → Side → Option ℕ → (parent sibling outer : ℕ) → Call (Option ℕ)
last_rotation tx s result parent sibling outer = do
  inner ← as_ref tx s sibling
  set_child tx s sibling (valid parent)
  pc ← as_ref_color tx parent
  set_parent_color tx parent (valid sibling) black
  set_child tx (opposite s) parent inner
  if_valid inner (keep_color tx parent)
  set_parent_color tx outer (valid sibling) black
  set_parent_color tx sibling pc.0 pc.1
  link_sibling tx sibling pc.0
  pure (rotated_root result sibling pc.0)

-- The inner child of the sibling is red: it is rotated above the sibling.
abbrev pub inner_rotation : Tx → Side → Option ℕ → (parent sibling inner : ℕ) → Call (Option ℕ)
inner_rotation tx s result parent sibling inner = do
  p ← as_ref tx (opposite s) inner
  set_child tx s sibling p
  set_child tx (opposite s) inner (valid sibling)
  set_child tx (opposite s) parent (valid inner)
  if_valid p (λ a. set_parent_color tx a (valid sibling) black)
  last_rotation tx s result parent inner sibling

-- Both children of the sibling are black: it becomes red, and the loop goes up past a black parent.
abbrev pub go_up :
    (RbRef → ℕ → Option ℕ → Call (Option ℕ)) → Tx → Option ℕ → ℕ → RbRef × Color → Call (Option ℕ)
go_up next tx result parent (gp, red) = do set_parent_color tx parent gp black; pure result
go_up next tx result parent (valid gp, black) = next (valid parent) gp result
go_up next tx result parent (null, black) = pure result

abbrev pub at_inner :
    (RbRef → ℕ → Option ℕ → Call (Option ℕ))
    → Tx
    → Side
    → Option ℕ
    → (parent sibling : ℕ) → RbRef
    → Bool
    → Call (Option ℕ)
at_inner next tx s result parent sibling inner true = do
  i ← unwrap inner
  inner_rotation tx s result parent sibling i
at_inner next tx s result parent sibling inner false = do
  set_parent_color tx sibling (valid parent) red
  pc ← as_ref_color tx parent
  go_up next tx result parent pc

abbrev pub at_outer :
    (RbRef → ℕ → Option ℕ → Call (Option ℕ))
    → Tx
    → Side
    → Option ℕ
    → (parent sibling : ℕ) → RbRef
    → Bool
    → Call (Option ℕ)
at_outer next tx s result parent sibling outer true = do
  o ← unwrap outer
  last_rotation tx s result parent sibling o
at_outer next tx s result parent sibling outer false = do
  inner ← as_ref tx s sibling
  i ← is_red_ref tx inner
  at_inner next tx s result parent sibling inner i

-- `result.or(new_root)`
abbrev pub or_root : Option ℕ → Option ℕ → Option ℕ
or_root none root = root
or_root (some a) root = some a

-- A red sibling is rotated above the parent first.
abbrev pub black_sibling : Tx → Side → Option ℕ → (parent sibling : ℕ) → Color → Call (Option ℕ × ℕ)
black_sibling tx s result parent sibling black = pure (result, sibling)
black_sibling tx s result parent sibling red = do
  p ← as_ref tx s sibling
  inner ← unwrap p
  root ← rotate_red_helper s tx parent sibling (valid inner)
  pure (or_root result root, inner)

abbrev pub at_sibling :
    (RbRef → ℕ → Option ℕ → Call (Option ℕ)) → Tx → Side → Option ℕ → ℕ → RbRef → Call (Option ℕ)
at_sibling next tx s result parent p = do
  red_sibling ← unwrap p
  c ← color tx red_sibling
  rotated ← black_sibling tx s result parent red_sibling c
  outer ← as_ref tx (opposite s) rotated.1
  o ← is_red_ref tx outer
  at_outer next tx s rotated.0 parent rotated.1 outer o

-- The side of the node, from the right child of the parent
abbrev pub at_side :
    (RbRef → ℕ → Option ℕ → Call (Option ℕ)) → Tx → Option ℕ → ℕ → RbRef → Bool → Call (Option ℕ)
at_side next tx result parent sibling false = at_sibling next tx left result parent sibling
at_side next tx result parent node true = do
  sibling ← as_ref tx left parent
  at_sibling next tx right result parent sibling

-- The loop of `remove_fixup`, on `fuel` rounds
unfoldable pub remove_fixup_loop : ℕ → Tx → RbRef → ℕ → Option ℕ → Call (Option ℕ)
unfolding rotate_red_helper
remove_fixup_loop zero tx node parent result = λ h. out_of_fuel
remove_fixup_loop (suc fuel) tx node parent result = do
  p ← as_ref tx right parent
  at_side (remove_fixup_loop fuel tx) tx result parent p (same_ref p node)

unfoldable pub remove_fixup : ℕ → Tx → ℕ → Call (Option ℕ)
unfolding remove_fixup_loop
remove_fixup fuel tx parent = remove_fixup_loop fuel tx null parent none

-- `RBRoot::remove`
abbrev pub or_ref : Option ℕ → Option RbRef → Option RbRef
or_ref none root = root
or_ref (some a) root = some (valid a)

abbrev pub rebalance_root : ℕ → Tx → Option RbRef → RbRef → Call (Option RbRef)
rebalance_root fuel tx root null = pure root
rebalance_root fuel tx root (valid parent) = do
  fixed ← remove_fixup fuel tx parent
  pure (or_ref fixed root)

abbrev pub store_root : Tx → Option RbRef → Call (Unit {0})
store_root tx none = pure tt
store_root tx (some root) = set_root tx root

unfoldable pub remove : ℕ → Tx → ℕ → Call (Unit {0})
unfolding remove_nofix remove_fixup
remove fuel tx node = do
  taken ← remove_nofix fuel tx node
  root ← rebalance_root fuel tx taken.0 taken.1
  store_root tx root
