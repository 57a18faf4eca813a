-- ===== src/Rbtree/Insert/FirstInner.antt =====
-- swym-rbtree/src/base.rs: `insert_case4_mut` when the new node is the inner child of a red parent:
-- it is published above its parent and its grandparent at once.
use swym.Shared.{ℕ, ◌≡◌, ◌≢◌, Bool, arith, refl, sym, ◌∙◌}
use swym.Rbtree.Store.{
  Side, left, right, opposite, black, red, null, valid, Heap, Tx, with_child, with_parent_color,
}
use swym.Rbtree.Runs.{Ends, read_black, write}
use swym.Rbtree.Shape.{Tree, leaf, join, has, Rep, Spine, step, plug, parent_of, Every, At, Beside}
use swym.Rbtree.Shape.Frame.{Every-imp, Along-imp, Same, Rep-frame, At-frame}
use swym.Rbtree.Shape.Sides.{
  Beside-step, Beside-flip_back, Beside-apart, split-Rep, split-Every, Along-both,
}
use swym.Rbtree.Shape.Balance.{HasBlackRoot, Joined, IsRb-below_red, red-IsRb, plug-has}
use swym.Rbtree.Rotate.Relink.{Fits-apart_nodes}
use swym.Rbtree.Insert.{insert_case4_mut}
use swym.Rbtree.Insert.Partial.{opposite-opposite, double-Joined}
use swym.Rbtree.Insert.Fixed.{Fixed}
use swym.Rbtree.Insert.First.{Vacant, new_leaf}
use swym.Rbtree.Insert.Lifted.{
  lifted, lifted-Same, Lifted, lifted-Lifted, publish_below-Fixed, inner-has, same_side-same,
}

module _ (tx : Tx) (nodes : ℕ → Bool) (k : Heap) (s : Side) (n parent gp : ℕ) (sib uncle : Tree)
    (up : Spine) (black_uncle : HasBlackRoot uncle) (h : Heap)
    (w : Vacant tx h (step (opposite s) parent red sib (step s gp black uncle up)) n) where
  g : Heap
  g = lifted s n parent gp h

  lower : Tree
  lower = join s parent red sib leaf

  upper : Tree
  upper = join (opposite s) gp red uncle leaf

  -- The tree after it, in order
  whole : Joined tx up (join (opposite s) n black upper lower)
  unfolding upper lower
  whole = double-Joined tx s parent gp n sib uncle leaf leaf up w.ordered_path (by_side s)
    where
      by_side :
          (t : Side)
          → Joined tx
              (step (opposite s) parent red sib (step s gp black uncle up))
              (join t n black leaf leaf)
      by_side left = record { ordered = (tt, tt, tt, tt); inside = (w.fits, tt, tt) }
      by_side right = record { ordered = (tt, tt, tt, tt); inside = (w.fits, tt, tt) }

  parent_n : Beside s (tx.key parent) (tx.key n)
  parent_n = Beside-flip_back s (tx.key n) (tx.key parent) w.fits.0

  n_gp : Beside s (tx.key n) (tx.key gp)
  n_gp = w.fits.1.0

  before : (b : ℕ) → Beside s (tx.key b) (tx.key parent) → Same h g b
  unfolding g
  before b f =
      lifted-Same s n parent gp h b
        (λ e. Beside-apart tx s b n (Beside-step s _ _ _ f parent_n) (sym e))
        (λ e. Beside-apart tx s b parent f (sym e))
        (λ e.
          Beside-apart tx s b gp (Beside-step s _ _ _ f (Beside-step s _ _ _ parent_n n_gp))
            (sym e))

  after : (b : ℕ) → Beside s (tx.key gp) (tx.key b) → Same h g b
  unfolding g
  after b f =
      lifted-Same s n parent gp h b (Beside-apart tx s n b (Beside-step s _ _ _ n_gp f))
        (Beside-apart tx s parent b (Beside-step s _ _ _ parent_n (Beside-step s _ _ _ n_gp f)))
        (Beside-apart tx s gp b f)

  cells : Lifted s n parent gp h g
  unfolding g
  cells =
      lifted-Lifted s n parent gp h (λ e. Beside-apart tx s parent n parent_n (sym e))
        (Beside-apart tx s n gp n_gp)
        (Beside-apart tx s parent gp (Beside-step s _ _ _ parent_n n_gp))

  sib-Rep : Rep g (valid parent) sib (g.child s parent)
  sib-Rep = rw (cells.parent_links s) (
      Rep-frame h g (valid parent) sib (h.child s parent)
        (Every-imp _ _ sib (λ b f. before b (let back = opposite-opposite s in rw back at f))
          w.ordered_path.2)
        (let back = opposite-opposite s in rw back at w.at.2))

  uncle-Rep : Rep g (valid gp) uncle (g.child (opposite s) gp)
  uncle-Rep = rw cells.gp_outer (
      Rep-frame h g (valid gp) uncle (h.child (opposite s) gp)
        (Every-imp _ _ uncle (λ b f. after b (Beside-flip_back s _ _ f)) w.ordered_path.4.2)
        w.at.3.2)

  lower-Rep : Rep g (valid n) lower (g.child (opposite (opposite s)) n)
  unfolding lower
  lower-Rep =
      let back = opposite-opposite s in
      rw back (
        split-Rep g (valid n) s parent red sib leaf (g.child s n) cells.to_parent cells.parent_color
          sib-Rep (cells.parent_links (opposite s) ∙ w.at.0))

  upper-Rep : Rep g (valid n) upper (g.child (opposite s) n)
  unfolding upper
  upper-Rep =
      split-Rep g (valid n) (opposite s) gp red uncle leaf (g.child (opposite s) n) cells.to_gp
        cells.gp_color uncle-Rep (let back = opposite-opposite s in rw back cells.gp_inner)

  above : At g up (valid gp)
  unfolding g
  above =
      At-frame h (lifted s n parent gp h) up (valid gp) refl
        (Along-imp _ _ up (λ b e. lifted-Same s n parent gp h b e.0 e.1.0 e.1.1)
          (Along-both _ _ up (Fits-apart_nodes tx up n w.ordered_path.4.4 w.fits.1.1) (
            Along-both _ _ up (Fits-apart_nodes tx up parent w.ordered_path.4.4 w.ordered_path.0.1)
              (Fits-apart_nodes tx up gp w.ordered_path.4.4 w.ordered_path.4.0))))
        w.at.3.3

  rep :
      h.parent_color n ≡ (null, black)
      → Rep g null (join (opposite s) n black upper lower) (valid n)
  rep new =
      split-Rep g null (opposite s) n black upper lower (valid n) refl (cells.color ∙ new) upper-Rep
        lower-Rep

  lower_apart : Every (λ b. n ≢ b) lower
  unfolding lower
  lower_apart =
      split-Every (λ b. n ≢ b) s parent red sib leaf
        (λ e. Beside-apart tx s parent n parent_n (sym e))
        (Every-imp _ _ sib
          (λ b f e.
            Beside-apart tx s b n
              (Beside-step s _ _ _ (let back = opposite-opposite s in rw back at f) parent_n)
              (sym e))
          w.ordered_path.2)
        tt

  upper_apart : Every (λ b. n ≢ b) upper
  unfolding upper
  upper_apart =
      split-Every (λ b. n ≢ b) (opposite s) gp red uncle leaf (Beside-apart tx s n gp n_gp)
        (Every-imp _ _ uncle
          (λ b f. Beside-apart tx s n b (Beside-step s _ _ _ n_gp (Beside-flip_back s _ _ f)))
          w.ordered_path.4.2)
        tt

  pub publish_inner :
      h.parent_color n ≡ (null, black)
      → h.value ≡ k.value
      → ((b : ℕ)
          → has b (plug (step (opposite s) parent red sib (step s gp black uncle up)) (new_leaf n))
            ≡ nodes b)
      → Ends tx (Fixed tx nodes k) (insert_case4_mut tx n parent gp (opposite s) (opposite s) h)
  unfolding insert_case4_mut g upper lower
  publish_inner new v m =
      let sides = same_side-same s in
      rw sides (
        write _ _ _ (
          read_black _ _ gp_color (
            write _ _ _ (
              write _ _ _ (
                publish_below-Fixed tx nodes k (opposite s) n gp upper lower up g (rep new) above
                  whole w.ordered_path.4.4 w.path.2.1
                  (red-IsRb (opposite s) 0 gp uncle leaf
                    (IsRb-below_red 0 uncle w.path.2.0 black_uncle) refl)
                  (red-IsRb s 0 parent sib leaf w.path.0 refl) w.ordered_path.4.0 upper_apart
                  lower_apart
                  (λ b.
                    plug-has b up (join (opposite s) n black upper lower)
                      (join s gp black (join (opposite s) parent red (new_leaf n) sib) uncle)
                      (inner-has b s n parent gp sib uncle)
                    ∙ m b)
                  v)))))
    where
      gp_color :
          (with_parent_color parent (valid n) red (
              with_child
                (opposite s)
                n
                (valid gp)
                (with_child (opposite (opposite s)) n (valid parent) h))).parent_color
            gp
          ≡ (parent_of up, black)
      gp_color =
          let apart = Beside-apart tx s parent gp (Beside-step s _ _ _ parent_n n_gp) in
          ground (arith, w.at.3.1)
