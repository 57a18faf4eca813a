-- ===== src/Rbtree/Insert/Loop.antt =====
-- swym-rbtree/src/base.rs: the loop of `insert_fixup`.
use swym.Shared.{ℕ, zero, suc, ◌<◌, ◌≡◌, Bool, arith, refl, ◌∙◌}
use swym.Rbtree.Store.{opposite, black, red, valid, Heap, Tx, tick}
use swym.Rbtree.Runs.{Ends, ended, read, read_black, write, chain}
use swym.Rbtree.Shape.{Tree, has, Spine, top, step, plug, parent_of}
use swym.Rbtree.Shape.Balance.{plug-has}
use swym.Rbtree.Insert.{fixup_loop}
use swym.Rbtree.Insert.Colors.{recolored}
use swym.Rbtree.Insert.Fixed.{Fixed, Hung-Fixed}
use swym.Rbtree.Insert.Pending.{
  Pending, trio, blackened, blacken-blackened, Pending-tick, blackened-Hung, reddened-Hung,
  reddened-IsRb, blackened-IsRb,
}
use swym.Rbtree.Insert.Climb.{steps, parent_color_of, side_below-opposite, at_uncle}

module _ (tx : Tx) (nodes : ℕ → Bool) (k : Heap) where
  -- The loop ends, repairs the tree, and says what the root is, if it changes. A round goes two steps
  -- up.
  pub fixup_loop-Fixed :
      (fuel : ℕ) (h : Heap) (up : Spine) (n this l r : ℕ) (la lb ra rb : Tree)
      → Pending tx h up n this l r la lb ra rb
      → h.value ≡ k.value
      → ((b : ℕ) → has b (plug up (trio black red this l r la lb ra rb)) ≡ nodes b)
      → steps up < fuel
      → Ends tx (Fixed tx nodes k) (fixup_loop fuel tx this l r h)
  unfolding fixup_loop
  fixup_loop-Fixed zero h up n this l r la lb ra rb w v m enough = absurd (omega arith)
  fixup_loop-Fixed (suc fuel) h top n this l r la lb ra rb w v m enough =
      let w1 = Pending-tick tx h top n this l r la lb ra rb w in
      read_black _ _ w.hung.rep.1 (
        chain (blacken-blackened tx this l r (tick h)) λ x g same. rw same (
          ended (
            Hung-Fixed tx nodes top (suc (suc n)) (trio black black this l r la lb ra rb) k
              (blackened this l r (tick h)) (valid this)
              (blackened-Hung tx (tick h) top n this l r la lb ra rb w1) tt
              (blackened-IsRb tx h top n this l r la lb ra rb w red)
              (λ b.
                plug-has b top (trio black black this l r la lb ra rb)
                  (trio black red this l r la lb ra rb) refl
                ∙ m b)
              v)))
  fixup_loop-Fixed (suc fuel) h (step s parent black sib up) n this l r la lb ra rb w v m enough =
      let path = step s parent black sib up in
      let w1 = Pending-tick tx h path n this l r la lb ra rb w in
      let w2 = Pending-tick tx (tick h) path n this l r la lb ra rb w1 in
      read_black _ _ w.hung.rep.1 (
        chain (parent_color_of (tick h) parent (parent_of up) black w.hung.at.1) λ pc g same.
          rw (same.0, same.1)
            (chain (blacken-blackened tx this l r (tick (tick h))) λ x g' same'. rw same' (
              write _ _ _ (
                ended (
                  Hung-Fixed tx nodes path (suc n) (trio red black this l r la lb ra rb) k
                    (recolored this (valid parent) red (blackened this l r (tick (tick h))))
                    (valid this) (reddened-Hung tx (tick (tick h)) path n this l r la lb ra rb w2)
                    w.path (reddened-IsRb tx h path n this l r la lb ra rb w)
                    (λ b.
                      plug-has b path (trio red black this l r la lb ra rb)
                        (trio black red this l r la lb ra rb) refl
                      ∙ m b)
                    v)))))
  fixup_loop-Fixed (suc fuel) h (step s parent red sib top) n this l r la lb ra rb w v m enough =
      absurd (ground (arith, w.path.1))
  fixup_loop-Fixed (suc fuel) h (step s parent red sib (step side gp red uncle up)) n this l r la lb
        ra rb w v m enough =
      absurd (ground (arith, w.path.1))
  fixup_loop-Fixed (suc fuel) h (step s parent red sib (step side gp black uncle up)) n this l r la
        lb ra rb w v m enough =
      let path = step s parent red sib (step side gp black uncle up) in
      let w1 = Pending-tick tx h path n this l r la lb ra rb w in
      let w2 = Pending-tick tx (tick h) path n this l r la lb ra rb w1 in
      let w3 = Pending-tick tx (tick (tick h)) path n this l r la lb ra rb w2 in
      let uncle_side = side_below-opposite tx side parent gp w.hung.ordered_path.0.0 in
      read_black _ _ w.hung.rep.1 (
        chain (parent_color_of (tick h) parent (valid gp) red w.hung.at.1) λ pc g same.
          rw (same.0, same.1, uncle_side)
            (read _ _ _ (
              at_uncle tx nodes k n this l r la lb ra rb fuel (fixup_loop fuel tx) s side parent gp
                sib uncle up (h.child (opposite side) gp) (tick (tick (tick h)))
                (fixup_loop-Fixed fuel) refl w3.hung.at.3.2 w3 v m (omega (arith, enough)))))
