-- ===== src/Rbtree/Insert/First.antt =====
-- swym-rbtree/src/base.rs: the first round of `insert_fixup`, which publishes the new node.
use swym.Shared.{ℕ, ◌≡◌, ◌≢◌, Bool, false, arith, refl, ◌∙◌}
use swym.Rbtree.Store.{
  Side, left, right, opposite, same_side, Color, black, red, null, valid, Heap, Tx, tick,
  with_child, with_parent_color,
}
use swym.Rbtree.Runs.{Ends, ended, read, write, chain}
use swym.Rbtree.Shape.{
  Tree, leaf, node, join, has, Spine, step, plug, Along, At, Beside, Fits, IsOrderedPath,
}
use swym.Rbtree.Shape.Frame.{Every-imp, Along-imp, Same, At-frame}
use swym.Rbtree.Shape.Balance.{
  HasBlackRoot, IsRbPath, IsRb-below_red, black-IsRb, red-IsRb, hole_color, plug-has,
  rotation-Joined, rotation-has, IsRb-black_root,
}
use swym.Rbtree.Rotate.Relink.{Fits-apart_nodes, At-relink}
use swym.Rbtree.Rotate.Whole.{rotate_red_helper-Hung}
use swym.Rbtree.Insert.{root_unchanged, insert_case4_mut}
use swym.Rbtree.Insert.Colors.{Hung}
use swym.Rbtree.Insert.Pending.{Hung-tick}
use swym.Rbtree.Insert.Partial.{opposite-opposite}
use swym.Rbtree.Insert.Fixed.{Fixed, Hung-Fixed, Turned-Fixed, up-Hung}

-- The new node, red and without children
abbrev pub new_leaf : ℕ → Tree
new_leaf n = node n red leaf leaf

-- Where the new node belongs: nothing hangs there, and the node has no children.
pub record Vacant (tx : Tx) (h : Heap) (place : Spine) (n : ℕ) : Type 0 where
  pub at : At h place null
  pub ordered_path : IsOrderedPath tx place
  pub fits : Fits tx place (tx.key n)
  pub path : IsRbPath place 0
  pub no_children : (s : Side) → h.child s n ≡ null

abbrev pub published : Side → (n parent : ℕ) → Heap → Heap
published s n parent h =
    tick (with_child s parent (valid n) (with_parent_color n (valid parent) red h))

pub published-Hung :
    (tx : Tx) (h : Heap) (s : Side) (parent : ℕ) (c : Color) (sib : Tree) (up : Spine) (n : ℕ)
    → Vacant tx h (step s parent c sib up) n
    → Hung tx (published s n parent h) (step s parent c sib up) (new_leaf n) (valid n)
published-Hung tx h s parent c sib up n w = record {
  rep = (
    refl,
    ground arith,
    ground (arith, away.0, w.no_children left),
    ground (arith, away.0, w.no_children right),
  );
  at =
      At-relink (with_parent_color n (valid parent) red h) s parent c sib up null (valid n)
        (Every-imp _ _ sib side_apart w.ordered_path.2)
        (Fits-apart_nodes tx up parent w.ordered_path.4 w.ordered_path.0)
        (At-frame h (with_parent_color n (valid parent) red h) (step s parent c sib up) null refl
          (Along-imp _ _ (step s parent c sib up) untouched away) w.at);
  joined = record { ordered = (tt, tt, tt, tt); inside = (w.fits, tt, tt) };
  ordered_path = w.ordered_path;
}
  where
    away : Along (λ b. n ≢ b) (step s parent c sib up)
    away = Fits-apart_nodes tx (step s parent c sib up) n w.ordered_path w.fits

    untouched : (b : ℕ) → n ≢ b → Same h (with_parent_color n (valid parent) red h) b
    untouched b m = record { children = λ t. refl; parent_color = ground arith }

    side_apart : (b : ℕ) → Beside (opposite s) (tx.key b) (tx.key parent) → parent ≢ b
    side_apart b f = by_side s f
      where
        by_side : (s : Side) → Beside (opposite s) (tx.key b) (tx.key parent) → parent ≢ b
        by_side left f e = absurd (ground arith)
        by_side right f e = absurd (ground arith)

same_side-opposite : (s : Side) → same_side (opposite s) s ≡ false
same_side-opposite left = refl
same_side-opposite right = refl

module _ (tx : Tx) (nodes : ℕ → Bool) (k : Heap) (n parent : ℕ) (sib : Tree) where
  -- Below a black parent, that is all.
  pub publish-Fixed :
      (h : Heap) (s : Side) (up : Spine)
      → Vacant tx h (step s parent black sib up) n
      → h.value ≡ k.value
      → ((b : ℕ) → has b (plug (step s parent black sib up) (new_leaf n)) ≡ nodes b)
      → Fixed tx nodes k root_unchanged (published s n parent h)
  publish-Fixed h s up w v m =
      Hung-Fixed tx nodes (step s parent black sib up) 0 (new_leaf n) k (published s n parent h)
        (valid n) (published-Hung tx h s parent black sib up n w) w.path (refl, refl) m v

  -- The new node is the outer child of a red parent, and the uncle is black: one rotation.
  pub publish_outer :
      (h : Heap) (s : Side) (gp : ℕ) (uncle : Tree) (up : Spine)
      → HasBlackRoot uncle
      → Vacant tx h (step s parent red sib (step s gp black uncle up)) n
      → h.value ≡ k.value
      → ((b : ℕ)
          → has b (plug (step s parent red sib (step s gp black uncle up)) (new_leaf n)) ≡ nodes b)
      → Ends tx (Fixed tx nodes k) (insert_case4_mut tx n parent gp (opposite s) s h)
  unfolding insert_case4_mut
  publish_outer h s gp uncle up black_uncle w v m =
      let leaf_red = new_leaf n in
      let back = opposite-opposite s in
      let sides = same_side-opposite s in
      let g = published (opposite (opposite s)) n parent h in
      let hung : Hung tx g (step s parent red sib (step s gp black uncle up)) leaf_red (valid n) =
        rw back (published-Hung tx h s parent red sib (step s gp black uncle up) n w) in
      let whole =
        up-Hung tx (tick g) s gp black uncle up (join s parent red leaf_red sib) (valid parent) (
          up-Hung tx (tick g) s parent red sib (step s gp black uncle up) leaf_red (valid n) (
            Hung-tick tx g (step s parent red sib (step s gp black uncle up)) leaf_red (valid n)
              hung)) in
      rw sides (
        write _ _ _ (
          read _ _ _ (
            chain
              (rotate_red_helper-Hung tx s gp parent uncle sib leaf_red up (tick g) (valid gp) whole
                (IsRb-black_root 0 sib w.path.0))
              λ o g' t. ended (
                Turned-Fixed tx nodes up 1 parent
                  (join (opposite s) parent black (join (opposite s) gp red uncle sib) leaf_red)
                  (tick g) k g' o
                  (rotation-Joined tx up s gp parent black red black red leaf_red sib uncle
                    whole.joined)
                  whole.ordered_path w.path.2.1
                  (black-IsRb (hole_color up) (opposite s) 0 parent
                    (join (opposite s) gp red uncle sib) leaf_red
                    (red-IsRb (opposite s) 0 gp uncle sib
                      (IsRb-below_red 0 uncle w.path.2.0 black_uncle) w.path.0)
                    (refl, refl))
                  (λ b.
                    plug-has b up
                      (join (opposite s) parent black (join (opposite s) gp red uncle sib) leaf_red)
                      (join s gp black (join s parent red leaf_red sib) uncle)
                      (rotation-has b s gp parent black red black red leaf_red sib uncle)
                    ∙ m b)
                  v t))))
