-- ===== src/Rbtree/Insert/Inner.antt =====
-- swym-rbtree/src/base.rs: `insert_case4` when the node is the inner child of its red parent: two
-- rotations.
use swym.Shared.{ℕ, ◌≡◌, ◌≢◌, refl, sym, ◌∙◌}
use swym.Rbtree.Store.{Side, left, right, opposite, black, red, valid, Heap, Tx}
use swym.Rbtree.Runs.{Ends}
use swym.Rbtree.Shape.{
  Tree, node, join, Every, Rep, Spine, step, parent_of, At, Beside, Fits, IsOrderedPath,
}
use swym.Rbtree.Shape.Frame.{Every-imp, Every-both, Along-imp, Same, Rep-frame, At-frame}
use swym.Rbtree.Shape.Sides.{
  Beside-step, Beside-flip_back, Beside-apart, Split, IsOrdered-split, Every-split, Rep-split,
  split-Rep, Along-both,
}
use swym.Rbtree.Shape.Balance.{Joined}
use swym.Rbtree.Rotate.{rotate_red_helper}
use swym.Rbtree.Rotate.Laws.{rotate_red_helper-Turned}
use swym.Rbtree.Rotate.Relink.{Turned, Fits-apart_nodes}
use swym.Rbtree.Insert.Colors.{before-apart, after-apart}
use swym.Rbtree.Insert.Partial.{
  opposite-opposite, half_turned, half_turned-Same, Halves, half_turned-Halves, double-Joined,
}

module _ (tx : Tx) (s : Side) (parent gp this a b : ℕ) (x1 x2 y1 y2 sib uncle : Tree) (up : Spine)
    (h : Heap)
    (ordered_path : IsOrderedPath tx (step (opposite s) parent red sib (step s gp black uncle up)))
    (joined : Joined tx
      (step (opposite s) parent red sib (step s gp black uncle up))
      (join s this black (node a black x1 x2) (node b black y1 y2)))
    (rep : Rep h
      (valid parent)
      (join s this black (node a red x1 x2) (node b red y1 y2))
      (valid this))
    (at : At h (step (opposite s) parent red sib (step s gp black uncle up)) (valid this)) where
  g : Heap
  g = half_turned s parent this a h

  -- The nodes in order, from the side `s`: the parent, the child on that side, the node, the other
  -- child, the grandparent.
  split : Split tx s this (node a black x1 x2) (node b black y1 y2)
  split = IsOrdered-split tx s this black (node a black x1 x2) (node b black y1 y2) joined.ordered

  inside :
      Every
        (λ k. Fits tx (step (opposite s) parent red sib (step s gp black uncle up)) (tx.key k))
        (node a black x1 x2)
      × Every
          (λ k. Fits tx (step (opposite s) parent red sib (step s gp black uncle up)) (tx.key k))
          (node b black y1 y2)
      × Fits tx (step (opposite s) parent red sib (step s gp black uncle up)) (tx.key this)
  inside =
      let (t, x, y) =
        Every-split
          (λ k. Fits tx (step (opposite s) parent red sib (step s gp black uncle up)) (tx.key k)) s
          this black (node a black x1 x2) (node b black y1 y2) joined.inside in
      (x, y, t)

  parent_a : Beside s (tx.key parent) (tx.key a)
  parent_a = Beside-flip_back s (tx.key a) (tx.key parent) inside.0.0.0

  a_this : Beside s (tx.key a) (tx.key this)
  a_this = split.near.0

  this_gp : Beside s (tx.key this) (tx.key gp)
  this_gp = inside.2.1.0

  -- A node before the parent, or after the node, keeps its cells.
  before : (k : ℕ) → Beside s (tx.key k) (tx.key parent) → Same h g k
  unfolding g
  before k f =
      half_turned-Same s parent this a h k (λ e. Beside-apart tx s k parent f (sym e))
        (λ e.
          Beside-apart tx s k this (Beside-step s _ _ _ f (Beside-step s _ _ _ parent_a a_this))
            (sym e))
        (λ e. Beside-apart tx s k a (Beside-step s _ _ _ f parent_a) (sym e))

  after : (k : ℕ) → Beside s (tx.key this) (tx.key k) → Same h g k
  unfolding g
  after k f =
      half_turned-Same s parent this a h k
        (Beside-apart tx s parent k (Beside-step s _ _ _ (Beside-step s _ _ _ parent_a a_this) f))
        (Beside-apart tx s this k f) (Beside-apart tx s a k (Beside-step s _ _ _ a_this f))

  between :
      (k : ℕ)
      → Beside (opposite s) (tx.key k) (tx.key parent)
      → Beside s (tx.key k) (tx.key this)
      → a ≢ k
      → Same h g k
  unfolding g
  between k f f' n =
      half_turned-Same s parent this a h k (Beside-apart tx s parent k (Beside-flip_back s _ _ f))
        (λ e. Beside-apart tx s k this f' (sym e)) n

  halves : Halves s parent this a h g
  unfolding g
  halves =
      half_turned-Halves s parent this a h
        (Beside-apart tx s parent this (Beside-step s _ _ _ parent_a a_this))
        (Beside-apart tx s parent a parent_a) (λ e. Beside-apart tx s a this a_this (sym e))

  parts :
      (valid this ≡ valid this)
      × (h.parent_color this ≡ (valid parent, black))
      × Rep h (valid this) (node a red x1 x2) (h.child s this)
      × Rep h (valid this) (node b red y1 y2) (h.child (opposite s) this)
  parts =
      Rep-split h (valid parent) s this black (node a red x1 x2) (node b red y1 y2) (valid this) rep

  child-Rep : Rep g (valid parent) (node a black x1 x2) (valid a)
  child-Rep = (
    refl,
    halves.child_color,
    rw (halves.child_links left) (
        Rep-frame h g (valid a) x1 (h.child left a)
          (Every-imp _ _ x1 (λ k e. between k e.1.0.0 e.1.1 (before-apart tx a k e.0))
            (Every-both _ _ x1 split.near_ordered.0 (Every-both _ _ x1 inside.0.1 split.near.1)))
          parts.2.2),
    rw (halves.child_links right) (
        Rep-frame h g (valid a) x2 (h.child right a)
          (Every-imp _ _ x2 (λ k e. between k e.1.0.0 e.1.1 (after-apart tx a k e.0))
            (Every-both _ _ x2 split.near_ordered.1 (Every-both _ _ x2 inside.0.2 split.near.2)))
          parts.2.3),
  )

  other_same : Every (Same h g) (node b black y1 y2)
  other_same =
      Every-imp _ _ (node b black y1 y2) (λ k f. after k (Beside-flip_back s _ _ f)) split.far

  middle :
      (valid b ≡ valid b)
      × Rep g (valid b) y1 (g.child left b)
      × Rep g (valid b) y2 (g.child right b)
  middle = (
    refl,
    rw (other_same.0.children left)
        (Rep-frame h g (valid b) y1 (h.child left b) other_same.1 parts.3.2),
    rw (other_same.0.children right)
        (Rep-frame h g (valid b) y2 (h.child right b) other_same.2 parts.3.3),
  )

  sib-Rep : Rep g (valid parent) sib (g.child s parent)
  sib-Rep = rw halves.parent_outer (
      Rep-frame h g (valid parent) sib (h.child s parent)
        (Every-imp _ _ sib (λ k f. before k (let back = opposite-opposite s in rw back at f))
          ordered_path.2)
        (let back = opposite-opposite s in rw back at at.2))

  gp_same : Same h g gp
  gp_same = after gp this_gp

  uncle-Rep : Rep g (valid gp) uncle (g.child (opposite s) gp)
  uncle-Rep = rw (gp_same.children (opposite s)) (
      Rep-frame h g (valid gp) uncle (h.child (opposite s) gp)
        (Every-imp _ _ uncle
          (λ k f. after k (Beside-step s _ _ _ this_gp (Beside-flip_back s _ _ f)))
          ordered_path.4.2)
        at.3.2)

  whole : Joined tx up (
      join
        (opposite s)
        this
        black
        (join (opposite s) gp red uncle (node b black y1 y2))
        (join s parent red sib (node a black x1 x2)))
  whole =
      double-Joined tx s parent gp this sib uncle (node a black x1 x2) (node b black y1 y2) up
        ordered_path joined

  parent-Rep :
      Rep g
        (valid this)
        (join s parent red sib (node a black x1 x2))
        (g.child (opposite (opposite s)) this)
  parent-Rep =
      let back = opposite-opposite s in
      rw back (
        split-Rep g (valid this) s parent red sib (node a black x1 x2) (g.child s this)
          halves.this_outer halves.parent_color sib-Rep (rw halves.parent_inner child-Rep))

  above : At g up (valid gp)
  unfolding g
  above =
      At-frame h (half_turned s parent this a h) up (valid gp) refl
        (Along-imp _ _ up (λ k e. half_turned-Same s parent this a h k e.0 e.1.0 e.1.1)
          (Along-both _ _ up (Fits-apart_nodes tx up parent ordered_path.4.4 ordered_path.0.1) (
            Along-both _ _ up (Fits-apart_nodes tx up this ordered_path.4.4 inside.2.1.1)
              (Fits-apart_nodes tx up a ordered_path.4.4 inside.0.0.1.1))))
        at.3.3

  -- The second rotation makes of the pieces a tree that hangs where the grandparent hung.
  pub second_turn :
      Ends tx
        (Turned
          (parent_of up)
          (join
            (opposite s)
            this
            black
            (join (opposite s) gp red uncle (node b black y1 y2))
            (join s parent red sib (node a black x1 x2)))
          up
          this
          (half_turned s parent this a h))
        (rotate_red_helper (opposite s) tx gp this (valid b) (half_turned s parent this a h))
  unfolding g
  second_turn =
      rotate_red_helper-Turned tx (opposite s) gp this uncle (node b black y1 y2)
        (join s parent red sib (node a black x1 x2)) up (valid b) (half_turned s parent this a h)
        whole.ordered whole.inside ordered_path.4.4 (gp_same.parent_color ∙ at.3.1) uncle-Rep middle
        refl parent-Rep above
