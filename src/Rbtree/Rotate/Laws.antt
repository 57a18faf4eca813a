-- ===== src/Rbtree/Rotate/Laws.antt =====
-- swym-rbtree/src/base.rs: what a rotation does to the tree.
use swym.Shared.{ℕ, ◌<◌, ◌≡◌, ◌≢◌, arith, refl, sym, ap, ◌∙◌}
use swym.Rbtree.Store.{Side, left, right, opposite, black, red, RbRef, valid, Heap, Tx}
use swym.Rbtree.Runs.{Ends, read_black, write}
use swym.Rbtree.Shape.{
  Tree, leaf, node, join, Every, Rep, Orphan, IsOrdered, Spine, parent_of, Along, At, Beside, Fits,
  IsOrderedPath,
}
use swym.Rbtree.Shape.Frame.{
  Every-imp, Every-both, Along-imp, Along-trivial, Same, Rep-frame, At-frame,
}
use swym.Rbtree.Shape.Sides.{
  Beside-step, Beside-flip_back, Beside-apart, Split, IsOrdered-split, Every-split, split-Rep,
  Along-both,
}
use swym.Rbtree.Shape.Balance.{HasBlackRoot}
use swym.Rbtree.Rotate.{rotate_red_helper}
use swym.Rbtree.Rotate.Turn.{
  rotated, adopted, if_valid-adopted, turned-Same, Cells, turned-Cells, turned-inner, turned-rest,
}
use swym.Rbtree.Rotate.Relink.{Fits-apart_nodes, Orphan-root, Turned, replace_below-Turned}

-- The root of a tree that hangs at a link
module _ (tx : Tx) (s : Side) (self up : ℕ) (x y z : Tree) (path : Spine) (inner : RbRef) (h : Heap)
    (ordered : IsOrdered tx (join s up black (join s self red x y) z))
    (fits : Every (λ b. Fits tx path (tx.key b)) (join s up black (join s self red x y) z))
    (ordered_path : IsOrderedPath tx path) (color : h.parent_color self ≡ (parent_of path, black))
    (near : Rep h (valid self) x (h.child s self)) (middle : Orphan h y inner)
    (black_root : HasBlackRoot y) (far : Rep h (valid up) z (h.child (opposite s) up))
    (at : At h path (valid self)) where
  outer : Split tx s up (join s self red x y) z
  outer = IsOrdered-split tx s up black (join s self red x y) z ordered

  lower : Split tx s self x y
  lower = IsOrdered-split tx s self red x y outer.near_ordered

  before_up :
      Beside s (tx.key self) (tx.key up)
      × Every (λ b. Beside s (tx.key b) (tx.key up)) x
      × Every (λ b. Beside s (tx.key b) (tx.key up)) y
  before_up = Every-split (λ b. Beside s (tx.key b) (tx.key up)) s self red x y outer.near

  self_up : self ≢ up
  self_up = Beside-apart tx s self up before_up.0

  inner_before_up : (b : ℕ) → inner ≡ valid b → Beside s (tx.key b) (tx.key up)
  inner_before_up b = Orphan-root h _ y inner b middle before_up.2

  inner_after_self : (b : ℕ) → inner ≡ valid b → Beside s (tx.key self) (tx.key b)
  inner_after_self b e =
      Beside-flip_back s (tx.key b) (tx.key self) (Orphan-root h _ y inner b middle lower.far e)

  final : Heap
  final = adopted inner self (rotated s self up (parent_of path) inner h)

  cells : Cells s self up (parent_of path) inner h final
  unfolding final
  cells =
      turned-Cells s self up (parent_of path) inner h self_up
        (λ e. Beside-apart tx s self self (inner_after_self self e) refl)
        (λ e. Beside-apart tx s up up (inner_before_up up e) refl)

  untouched : (b : ℕ) → self ≢ b → up ≢ b → inner ≢ valid b → Same h final b
  unfolding final
  untouched = turned-Same s self up (parent_of path) inner h

  near-Rep : Rep final (valid self) x (h.child s self)
  near-Rep =
      Rep-frame h final (valid self) x (h.child s self) (Every-imp _ _ x apart lower.near) near
    where
      apart : (b : ℕ) → Beside s (tx.key b) (tx.key self) → Same h final b
      apart b f =
          untouched b (λ e. Beside-apart tx s b self f (sym e))
            (λ e. Beside-apart tx s b up (Beside-step s _ _ _ f before_up.0) (sym e))
            (λ e. Beside-apart tx s b b (Beside-step s _ _ _ f (inner_after_self b e)) refl)

  far-Rep : Rep final (valid up) z (h.child (opposite s) up)
  far-Rep =
      Rep-frame h final (valid up) z (h.child (opposite s) up) (Every-imp _ _ z apart outer.far) far
    where
      apart : (b : ℕ) → Beside (opposite s) (tx.key b) (tx.key up) → Same h final b
      apart b f =
          let g = Beside-flip_back s (tx.key b) (tx.key up) f in
          untouched b (Beside-apart tx s self b (Beside-step s _ _ _ before_up.0 g))
            (Beside-apart tx s up b g)
            (λ e. Beside-apart tx s b b (Beside-step s _ _ _ (inner_before_up b e) g) refl)

  inner_cells :
      (a : ℕ)
      → inner ≡ valid a
      → ((t : Side) → final.child t a ≡ h.child t a) × (final.parent_color a ≡ (valid self, black))
  unfolding final
  inner_cells a e = rw e (
      turned-inner s self up (parent_of path) a h (Beside-apart tx s self a (inner_after_self a e))
        (λ q. Beside-apart tx s a up (inner_before_up a e) (sym q)))

  middle-Rep : Rep final (valid self) y inner
  middle-Rep = by_tree y middle black_root before_up.2 lower.far lower.far_ordered
    where
      apart :
          (b : ℕ)
          → Beside s (tx.key b) (tx.key up)
          → Beside (opposite s) (tx.key b) (tx.key self)
          → inner ≢ valid b
          → Same h final b
      apart b f g n =
          untouched b (Beside-apart tx s self b (Beside-flip_back s (tx.key b) (tx.key self) g))
            (λ e. Beside-apart tx s b up f (sym e)) n

      by_tree :
          (y : Tree)
          → Orphan h y inner
          → HasBlackRoot y
          → Every (λ b. Beside s (tx.key b) (tx.key up)) y
          → Every (λ b. Beside (opposite s) (tx.key b) (tx.key self)) y
          → IsOrdered tx y
          → Rep final (valid self) y inner
      by_tree leaf o c f g i = o
      by_tree (node a c l r) o same f g i =
          let (children, color) = inner_cells a o.0 in
          let root = o.0 in
          (
            o.0,
            color ∙ ap (λ c. (valid self, c)) (sym same),
            rw (children left) (
                Rep-frame h final (valid a) l (h.child left a)
                  (Every-imp _ _ l (λ b e. apart b e.1.0 e.1.1 (λ q. below b e.0 (ground arith)))
                    (Every-both _ _ l i.0 (Every-both _ _ l f.1 g.1)))
                  o.1),
            rw (children right) (
                Rep-frame h final (valid a) r (h.child right a)
                  (Every-imp _ _ r (λ b e. apart b e.1.0 e.1.1 (λ q. above b e.0 (ground arith)))
                    (Every-both _ _ r i.1 (Every-both _ _ r f.2 g.2)))
                  o.2),
          )
        where
          below : (b : ℕ) → tx.key b < tx.key a → a ≢ b
          below b k e = absurd (ground arith)

          above : (b : ℕ) → tx.key a < tx.key b → a ≢ b
          above b k e = absurd (ground arith)

  rep : Rep final (parent_of path) (join s up black (join s self red x y) z) (valid up)
  rep =
      split-Rep final (parent_of path) s up black (join s self red x y) z (valid up) refl
        cells.up_color
        (split-Rep final (valid up) s self red x y (final.child s up) cells.up_inner
          cells.self_color (rw cells.self_outer near-Rep) (rw cells.self_inner middle-Rep))
        (rw cells.up_outer far-Rep)

  all-Fits :
      Fits tx path (tx.key up)
      × Every (λ b. Fits tx path (tx.key b)) (join s self red x y)
      × Every (λ b. Fits tx path (tx.key b)) z
  all-Fits = Every-split (λ b. Fits tx path (tx.key b)) s up black (join s self red x y) z fits

  lower-Fits :
      Fits tx path (tx.key self)
      × Every (λ b. Fits tx path (tx.key b)) x
      × Every (λ b. Fits tx path (tx.key b)) y
  lower-Fits = Every-split (λ b. Fits tx path (tx.key b)) s self red x y all-Fits.1

  inner_apart :
      (y : Tree)
      → Orphan h y inner
      → Every (λ b. Fits tx path (tx.key b)) y
      → Along (λ b. inner ≢ valid b) path
  inner_apart leaf o f = Along-trivial _ path λ b e. absurd (cc)
  inner_apart (node a c l r) o f =
      Along-imp _ _ path (λ b n e. n (ground arith)) (Fits-apart_nodes tx path a ordered_path f.0)

  path_apart :
      Along (λ b. self ≢ b) path × Along (λ b. up ≢ b) path × Along (λ b. inner ≢ valid b) path
  path_apart = (
    Fits-apart_nodes tx path self ordered_path lower-Fits.0,
    Fits-apart_nodes tx path up ordered_path all-Fits.0,
    inner_apart y middle lower-Fits.2,
  )

  path-At : At final path (valid self)
  unfolding final
  path-At =
      At-frame h final path (valid self) (turned-rest s self up (parent_of path) inner h).0
        (Along-imp _ _ path (λ b e. untouched b e.0 e.1.0 e.1.1)
          (Along-both _ _ path path_apart.0 (Along-both _ _ path path_apart.1 path_apart.2)))
        at

  -- A rotation of a black node under a red child, with the subtrees `x`, `y` and `z` in this order seen
  -- from the side of the rotation, makes the child black and the node red: the tree that is joined
  -- anew hangs at the same place, or is the new root, every node of it points back to its parent,
  -- and nothing else of the tree has changed. The root of `y` is black.
  pub rotate_red_helper-Turned :
      Ends tx
        (Turned (parent_of path) (join s up black (join s self red x y) z) path up h)
        (rotate_red_helper s tx self up inner h)
  unfolding rotate_red_helper final
  rotate_red_helper-Turned = read_black _ _ color (
      write _ _ _ (
        write _ _ _ (
          write _ _ _ (
            write _ _ _ (
              if_valid-adopted tx inner self _ _ (
                replace_below-Turned tx self up (join s up black (join s self red x y) z) path h
                  final rep path-At ordered_path fits lower-Fits.0
                  (turned-rest s self up (parent_of path) inner h).1
                  (turned-rest s self up (parent_of path) inner h).0))))))
