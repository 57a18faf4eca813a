-- ===== src/Rbtree/Insert/Round.antt =====
-- swym-rbtree/src/base.rs: `insert_case4`, on either side and for either child.
use swym.Shared.{ℕ, suc, ◌<◌, ◌≡◌, ◌≢◌, Bool, true, arith, refl, ◌∙◌}
use swym.Rbtree.Store.{
  Side, left, right, opposite, Color, black, red, RbRef, valid, same_ref, Heap, Tx, tick, continue,
}
use swym.Rbtree.Runs.{Ends, read, chain, weaken}
use swym.Rbtree.Shape.{Tree, node, join, has, Spine, step, plug, IsRb}
use swym.Rbtree.Shape.Frame.{Every-imp}
use swym.Rbtree.Shape.Balance.{
  Joined, HasBlackRoot, IsRbPath, IsRb-below_red, black-IsRb, red-IsRb, hole_color, plug-has,
}
use swym.Rbtree.Rotate.{rotate_red_helper, partial_rotate_red_helper}
use swym.Rbtree.Insert.Colors.{Hung}
use swym.Rbtree.Insert.{insert_case4, repaired}
use swym.Rbtree.Insert.Fixed.{Fixed, Turned-Fixed}
use swym.Rbtree.Insert.Pending.{Pending, trio, Pending-tick, sibling-apart}
use swym.Rbtree.Insert.Case4.{outer_turn}
use swym.Rbtree.Insert.Partial.{half_turned, partial-half_turned, double-Joined}
use swym.Rbtree.Insert.Inner.{second_turn}

after-apart_flip : (tx : Tx) (a b : ℕ) → tx.key a < tx.key b → b ≢ a
after-apart_flip tx a b k e = absurd (ground arith)

before-apart_flip : (tx : Tx) (a b : ℕ) → tx.key b < tx.key a → b ≢ a
before-apart_flip tx a b k e = absurd (ground arith)

same_ref-valid : (p : RbRef) (a : ℕ) → p ≡ valid a → same_ref p (valid a) ≡ true
same_ref-valid p a e = rw e (ground arith)

double-has :
    (k : ℕ) (s : Side) (parent gp this : ℕ) (c d c' d' e f : Color) (sib uncle x y : Tree)
    → has k (join (opposite s) this c (join (opposite s) gp d uncle y) (join s parent e sib x))
      ≡ has k (join s gp c' (join (opposite s) parent d' (join s this f x y) sib) uncle)
double-has k left parent gp this c d c' d' e f sib uncle x y = ground arith
double-has k right parent gp this c d c' d' e f sib uncle x y = ground arith

module _ (tx : Tx) (nodes : ℕ → Bool) (k : Heap) (parent gp n this : ℕ) (sib uncle : Tree)
    (up : Spine) (black_uncle : HasBlackRoot uncle) where
  -- The two rotations, with the child `a` on the side of the parent
  inner_turn :
      (s : Side) (a b : ℕ) (x1 x2 y1 y2 : Tree) (h : Heap)
      → Hung tx h
          (step (opposite s) parent red sib (step s gp black uncle up))
          (join s this black (node a red x1 x2) (node b red y1 y2))
          (valid this)
      → Joined tx
          (step (opposite s) parent red sib (step s gp black uncle up))
          (join s this black (node a black x1 x2) (node b black y1 y2))
      → IsRb red (suc n) (node a black x1 x2)
      → IsRb red (suc n) (node b black y1 y2)
      → IsRbPath (step (opposite s) parent red sib (step s gp black uncle up)) (suc n)
      → ((i : ℕ)
          → has i (
              plug
                (step (opposite s) parent red sib (step s gp black uncle up))
                (join s this black (node a black x1 x2) (node b black y1 y2)))
            ≡ nodes i)
      → h.value ≡ k.value
      → Ends tx
          (λ o g. Fixed tx nodes k (repaired o) g)
          (continue
            (partial_rotate_red_helper s tx parent this a h)
            (λ u. rotate_red_helper (opposite s) tx gp this (valid b)))
  inner_turn s a b x1 x2 y1 y2 h w below ha hb path members v =
      chain (partial-half_turned tx s parent this a h) λ u g same. rw same (
        weaken
          (second_turn tx s parent gp this a b x1 x2 y1 y2 sib uncle up h w.ordered_path below w.rep
            w.at)
          λ o g t.
            Turned-Fixed tx nodes up (suc (suc n)) this
              (join (opposite s) this black (join (opposite s) gp red uncle (node b black y1 y2))
                (join s parent red sib (node a black x1 x2)))
              (half_turned s parent this a h) k g o
              (double-Joined tx s parent gp this sib uncle (node a black x1 x2) (node b black y1 y2)
                up w.ordered_path below)
              w.ordered_path.4.4 path.2.1
              (black-IsRb (hole_color up) (opposite s) (suc n) this
                (join (opposite s) gp red uncle (node b black y1 y2))
                (join s parent red sib (node a black x1 x2))
                (red-IsRb (opposite s) (suc n) gp uncle (node b black y1 y2)
                  (IsRb-below_red (suc n) uncle path.2.0 black_uncle) hb)
                (red-IsRb s (suc n) parent sib (node a black x1 x2) path.0 ha))
              (λ i.
                plug-has i up
                  (join (opposite s) this black
                    (join (opposite s) gp red uncle (node b black y1 y2))
                    (join s parent red sib (node a black x1 x2)))
                  (join s gp black
                    (join (opposite s) parent red
                      (join s this black (node a black x1 x2) (node b black y1 y2)) sib)
                    uncle)
                  (double-has i s parent gp this black red black red red black sib uncle
                    (node a black x1 x2) (node b black y1 y2))
                ∙ members i)
              v t)

module _ (tx : Tx) (nodes : ℕ → Bool) (k : Heap) (parent gp n this l r : ℕ)
    (la lb ra rb sib uncle : Tree) (up : Spine) (black_uncle : HasBlackRoot uncle) where
  recolored_members :
      (path : Spine)
      → ((b : ℕ) → has b (plug path (trio black red this l r la lb ra rb)) ≡ nodes b)
      → ((b : ℕ) → has b (plug path (trio black black this l r la lb ra rb)) ≡ nodes b)
  recolored_members path m b =
      plug-has b path (trio black black this l r la lb ra rb) (trio black red this l r la lb ra rb)
        refl
      ∙ m b

  -- The case of two red nodes in a row with a black uncle: the tree is repaired, on either side and
  -- whichever child the node is.
  pub insert_case4-Fixed :
      (s side : Side) (h : Heap)
      → Pending tx h (step s parent red sib (step side gp black uncle up)) n this l r la lb ra rb
      → h.value ≡ k.value
      → ((b : ℕ)
          → has b (
              plug
                (step s parent red sib (step side gp black uncle up))
                (trio black red this l r la lb ra rb))
            ≡ nodes b)
      → Ends tx
          (λ o g. Fixed tx nodes k (repaired o) g)
          (insert_case4 tx this parent gp (opposite side) l r h)
  unfolding insert_case4
  insert_case4-Fixed left left h w v m =
      let other = sibling-apart h (valid parent) sib (h.child right parent) this w.hung.at.2 (
        Every-imp _ _ sib
          (λ b f. after-apart_flip tx this b (omega (arith, f, w.hung.joined.inside.0.0)))
          w.hung.ordered_path.2) in
      read _ _ _ (
        rw other (
          outer_turn tx nodes k left parent gp n this l r la lb ra rb sib uncle up black_uncle m
            (tick h)
            (Pending-tick tx h (step left parent red sib (step left gp black uncle up)) n this l r
              la lb ra rb w)
            v))
  insert_case4-Fixed right right h w v m =
      let other = sibling-apart h (valid parent) sib (h.child left parent) this w.hung.at.2 (
        Every-imp _ _ sib
          (λ b f. before-apart_flip tx this b (omega (arith, f, w.hung.joined.inside.0.0)))
          w.hung.ordered_path.2) in
      read _ _ _ (
        rw other (
          outer_turn tx nodes k right parent gp n this l r la lb ra rb sib uncle up black_uncle m
            (tick h)
            (Pending-tick tx h (step right parent red sib (step right gp black uncle up)) n this l r
              la lb ra rb w)
            v))
  insert_case4-Fixed right left h w v m =
      let inner : same_ref (h.child right parent) (valid this) ≡ true =
        same_ref-valid (h.child right parent) this w.hung.at.0 in
      let w' =
        Pending-tick tx h (step right parent red sib (step left gp black uncle up)) n this l r la lb
          ra rb w in
      read _ _ _ (
        rw inner (
          inner_turn tx nodes k parent gp n this sib uncle up black_uncle left l r la lb ra rb
            (tick h) w'.hung
            (record { ordered = w.hung.joined.ordered; inside = w.hung.joined.inside }) w.heights.0
            w.heights.1 w.path
            (recolored_members (step right parent red sib (step left gp black uncle up)) m) v))
  insert_case4-Fixed left right h w v m =
      let inner : same_ref (h.child left parent) (valid this) ≡ true =
        same_ref-valid (h.child left parent) this w.hung.at.0 in
      let w' =
        Pending-tick tx h (step left parent red sib (step right gp black uncle up)) n this l r la lb
          ra rb w in
      read _ _ _ (
        rw inner (
          inner_turn tx nodes k parent gp n this sib uncle up black_uncle right r l ra rb la lb
            (tick h) w'.hung
            (record { ordered = w.hung.joined.ordered; inside = w.hung.joined.inside }) w.heights.1
            w.heights.0 w.path
            (recolored_members (step left parent red sib (step right gp black uncle up)) m) v))
