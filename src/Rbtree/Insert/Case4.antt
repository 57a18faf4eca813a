-- ===== src/Rbtree/Insert/Case4.antt =====
-- swym-rbtree/src/base.rs: `insert_case4` when the node is the outer child of its red parent: one
-- rotation.
use swym.Shared.{ℕ, suc, ◌≡◌, Bool, false, refl, ◌∙◌}
use swym.Rbtree.Store.{Side, opposite, black, red, valid, Heap, Tx}
use swym.Rbtree.Runs.{Ends, write, chain, weaken}
use swym.Rbtree.Shape.{Tree, join, has, Spine, step, plug}
use swym.Rbtree.Shape.Balance.{
  HasBlackRoot, IsRb-black_root, IsRb-below_red, black-IsRb, red-IsRb, hole_color, plug-has,
  rotation-Joined, rotation-has,
}
use swym.Rbtree.Rotate.Whole.{rotate_red_helper-Hung}
use swym.Rbtree.Insert.{case4_inner, repaired}
use swym.Rbtree.Insert.Colors.{Hung, recolored}
use swym.Rbtree.Insert.Fixed.{Fixed, Turned-Fixed, up-Hung}
use swym.Rbtree.Insert.Pending.{
  Pending, trio, blackened, blacken-blackened, reddened-Hung, reddened-IsRb,
}

module _ (tx : Tx) (nodes : ℕ → Bool) (k : Heap) (s : Side) (parent gp n this l r : ℕ)
    (la lb ra rb sib uncle : Tree) (up : Spine) (black_uncle : HasBlackRoot uncle)
    (members : (b : ℕ)
      → has b (
          plug
            (step s parent red sib (step s gp black uncle up))
            (trio black red this l r la lb ra rb))
        ≡ nodes b) where
  abbrev pub outer_path : Spine
  outer_path = step s parent red sib (step s gp black uncle up)

  abbrev pub rotated : Tree
  rotated =
      join (opposite s) parent black (join (opposite s) gp red uncle sib)
        (trio red black this l r la lb ra rb)

  -- The parent is rotated above the grandparent.
  pub outer_turn :
      (h : Heap)
      → Pending tx h outer_path n this l r la lb ra rb
      → h.value ≡ k.value
      → Ends tx
          (λ o g. Fixed tx nodes k (repaired o) g)
          (case4_inner tx this parent gp (opposite s) l r (h.child (opposite s) parent) false h)
  outer_turn h w v = chain (blacken-blackened tx this l r h) λ u g same. rw same (
      write _ _ _ (
        weaken
          (rotate_red_helper-Hung tx s gp parent uncle sib (trio red black this l r la lb ra rb) up
            turned_heap (valid gp) whole (IsRb-black_root (suc n) sib w.path.0))
          λ o g t.
            Turned-Fixed tx nodes up (suc (suc n)) parent rotated turned_heap k g o
              (rotation-Joined tx up s gp parent black red black red
                (trio red black this l r la lb ra rb) sib uncle whole.joined)
              whole.ordered_path w.path.2.1
              (black-IsRb (hole_color up) (opposite s) (suc n) parent
                (join (opposite s) gp red uncle sib) (trio red black this l r la lb ra rb)
                (red-IsRb (opposite s) (suc n) gp uncle sib
                  (IsRb-below_red (suc n) uncle w.path.2.0 black_uncle) w.path.0)
                (reddened-IsRb tx h outer_path n this l r la lb ra rb w))
              (λ b.
                plug-has b up rotated
                  (join s gp black (join s parent red (trio red black this l r la lb ra rb) sib)
                    uncle)
                  (rotation-has b s gp parent black red black red
                    (trio red black this l r la lb ra rb) sib uncle)
                ∙ (plug-has b outer_path (trio red black this l r la lb ra rb)
                      (trio black red this l r la lb ra rb) refl
                    ∙ members b))
              v t))
    where
      turned_heap : Heap
      turned_heap = recolored this (valid parent) red (blackened this l r h)

      whole :
          Hung tx turned_heap up
            (join s gp black (join s parent red (trio red black this l r la lb ra rb) sib) uncle)
            (valid gp)
      whole =
          up-Hung tx turned_heap s gp black uncle up
            (join s parent red (trio red black this l r la lb ra rb) sib) (valid parent)
            (up-Hung tx turned_heap s parent red sib (step s gp black uncle up)
              (trio red black this l r la lb ra rb) (valid this)
              (reddened-Hung tx h outer_path n this l r la lb ra rb w))
