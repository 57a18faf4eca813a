-- ===== src/Rbtree/Insert/Partial.antt =====
-- swym-rbtree/src/base.rs: the partial rotation of `insert_case4`, when the node is the inner child
-- of its red parent. It leaves the heap between two trees: the pieces are listed here.
use swym.Shared.{ℕ, ◌≡◌, ◌≢◌, arith, refl}
use swym.Rbtree.Store.{
  Side, left, right, opposite, Color, black, red, valid, Heap, Tx, tick, with_child,
}
use swym.Rbtree.Runs.{Ends, write, last_write}
use swym.Rbtree.Shape.{Tree, join, Spine, step, IsOrderedPath}
use swym.Rbtree.Shape.Frame.{Same}
use swym.Rbtree.Shape.Balance.{Joined, join-Joined, rotation-Joined}
use swym.Rbtree.Rotate.{partial_rotate_red_helper}
use swym.Rbtree.Insert.Colors.{recolored}

pub opposite-opposite : (s : Side) → opposite (opposite s) ≡ s
opposite-opposite left = refl
opposite-opposite right = refl

pub join-opposite :
    (s : Side) (a : ℕ) (c : Color) (x y : Tree) → join (opposite s) a c x y ≡ join s a c y x
join-opposite left a c x y = refl
join-opposite right a c x y = refl

abbrev pub half_turned : Side → (parent this a : ℕ) → Heap → Heap
half_turned s parent this a h = recolored a (valid parent) black (
    tick (
      with_child s this (valid parent)
        (recolored parent (valid this) red (tick (with_child (opposite s) parent (valid a) h)))))

pub partial-half_turned :
    (tx : Tx) (s : Side) (parent this a : ℕ) (h : Heap)
    → Ends tx
        (λ u g. g ≡ half_turned s parent this a h)
        (partial_rotate_red_helper s tx parent this a h)
unfolding partial_rotate_red_helper
partial-half_turned tx s parent this a h =
    write _ _ _ (write _ _ _ (write _ _ _ (last_write _ _ refl)))

pub half_turned-Same :
    (s : Side) (parent this a : ℕ) (h : Heap) (b : ℕ)
    → parent ≢ b
    → this ≢ b
    → a ≢ b
    → Same h (half_turned s parent this a h) b
half_turned-Same s parent this a h b m n o = record {
  children = λ t. ground arith;
  parent_color = ground arith;
}

pub record Halves (s : Side) (parent this a : ℕ) (h g : Heap) : Type 0 where
  pub parent_inner : g.child (opposite s) parent ≡ valid a
  pub parent_outer : g.child s parent ≡ h.child s parent
  pub parent_color : g.parent_color parent ≡ (valid this, red)
  pub this_outer : g.child s this ≡ valid parent
  pub child_color : g.parent_color a ≡ (valid parent, black)
  pub child_links : (t : Side) → g.child t a ≡ h.child t a

pub half_turned-Halves :
    (s : Side) (parent this a : ℕ) (h : Heap)
    → parent ≢ this
    → parent ≢ a
    → this ≢ a
    → Halves s parent this a h (half_turned s parent this a h)
half_turned-Halves left parent this a h m n o = record {
  parent_inner = ground arith;
  parent_outer = ground arith;
  parent_color = ground arith;
  this_outer = ground arith;
  child_color = ground arith;
  child_links = λ t. ground arith;
}
half_turned-Halves right parent this a h m n o = record {
  parent_inner = ground arith;
  parent_outer = ground arith;
  parent_color = ground arith;
  this_outer = ground arith;
  child_color = ground arith;
  child_links = λ t. ground arith;
}

-- The two rotations together, as far as the order goes
pub double-Joined :
    (tx : Tx) (s : Side) (parent gp this : ℕ) (sib uncle x y : Tree) (up : Spine)
    → IsOrderedPath tx (step (opposite s) parent red sib (step s gp black uncle up))
    → Joined tx
        (step (opposite s) parent red sib (step s gp black uncle up))
        (join s this black x y)
    → Joined tx up
        (join (opposite s) this black (join (opposite s) gp red uncle y) (join s parent red sib x))
double-Joined tx s parent gp this sib uncle x y up o j =
    let below =
      join-Joined tx (opposite s) parent red red sib (step s gp black uncle up)
        (join s this black x y) o j in
    let swapped = join-opposite s this black y x in
    let first =
      rotation-Joined tx (step s gp black uncle up) (opposite s) parent this red black black red y x
        sib (rw swapped below) in
    let back = opposite-opposite s in
    rotation-Joined tx up s gp this black black black red (join s parent red sib x) y uncle (
      join-Joined tx s gp black black uncle up (join s this black (join s parent red sib x) y) o.4
        (rw back at first))
