-- ===== src/Rbtree/Insert/Fixup.antt =====
-- swym-rbtree/src/base.rs: `insert_fixup` as a whole.
use swym.Shared.{ℕ, ◌<◌, ◌≡◌, Bool, true, arith, refl, ap}
use swym.Rbtree.Store.{
  Side, left, right, opposite, Color, black, red, RbRef, null, valid, Heap, Tx, tick, continue,
}
use swym.Rbtree.Runs.{Ends, ended, read, write, chain}
use swym.Rbtree.Shape.{Tree, leaf, node, has, Rep, Spine, top, step, plug, parent_of}
use swym.Rbtree.Shape.Frame.{At-frame, Along-trivial}
use swym.Rbtree.Shape.Balance.{HasBlackRoot}
use swym.Rbtree.Insert.{at_side, is_red_ref, first_uncle, insert_fixup, insert_case4_mut}
use swym.Rbtree.Insert.Fixed.{Fixed}
use swym.Rbtree.Insert.Climb.{
  steps, parent_color_of, color_of, side_below-opposite, grandparent-Pending,
}
use swym.Rbtree.Insert.Loop.{fixup_loop-Fixed}
use swym.Rbtree.Insert.First.{
  Vacant, new_leaf, published, published-Hung, publish-Fixed, publish_outer,
}
use swym.Rbtree.Insert.FirstInner.{publish_inner}

Vacant-tick :
    (tx : Tx) (h : Heap) (place : Spine) (n : ℕ) → Vacant tx h place n → Vacant tx (tick h) place n
Vacant-tick tx h place n w = record {
  at =
      At-frame h (tick h) place null refl
        (Along-trivial _ place λ b. record { children = λ s. refl; parent_color = refl }) w.at;
  ordered_path = w.ordered_path;
  fits = w.fits;
  path = w.path;
  no_children = w.no_children;
}

module _ (tx : Tx) (nodes : ℕ → Bool) (k : Heap) (n parent gp : ℕ) (sib : Tree) (up : Spine) where
  -- What is known at the new node's place
  abbrev Known : Side → Side → Tree → Heap → Type 0
  Known s side uncle h =
      Vacant tx h (step s parent red sib (step side gp black uncle up)) n
      × (h.parent_color n ≡ (null, black))
      × (h.value ≡ k.value)
      × ((b : ℕ)
          → has b (plug (step s parent red sib (step side gp black uncle up)) (new_leaf n))
            ≡ nodes b)

  black_uncle :
      (s side : Side) (uncle : Tree) (h : Heap)
      → HasBlackRoot uncle
      → Known s side uncle h
      → Ends tx (Fixed tx nodes k) (insert_case4_mut tx n parent gp (opposite side) s h)
  black_uncle left left uncle h r w =
      publish_outer tx nodes k n parent sib h left gp uncle up r w.0 w.2 w.3
  black_uncle right right uncle h r w =
      publish_outer tx nodes k n parent sib h right gp uncle up r w.0 w.2 w.3
  black_uncle right left uncle h r w =
      publish_inner tx nodes k left n parent gp sib uncle up r h w.0 w.1 w.2 w.3
  black_uncle left right uncle h r w =
      publish_inner tx nodes k right n parent gp sib uncle up r h w.0 w.1 w.2 w.3

  red_uncle :
      (fuel : ℕ) (s side : Side) (u : ℕ) (ua ub : Tree) (h : Heap)
      → Known s side (node u red ua ub) h
      → steps up < fuel
      → Ends tx
          (Fixed tx nodes k)
          (first_uncle fuel tx n parent gp (opposite side) s (valid u) true h)
  red_uncle fuel s side u ua ub h w enough =
      let g = published s n parent h in
      let (pa, pb, qa, qb, pending, same_tree) =
        grandparent-Pending tx nodes k s side 0 parent gp u n (new_leaf n) sib ua ub up g
          (published-Hung tx h s parent red sib (step side gp black (node u red ua ub) up) n w.0)
          (refl, refl) w.0.path in
      write _ _ _ (
        fixup_loop-Fixed tx nodes k fuel g up 0 gp (at_side (opposite side) u parent)
          (at_side (opposite side) parent u) pa pb qa qb pending w.2 (λ b. rw same_tree (w.3 b))
          enough)

  at_uncle :
      (fuel : ℕ) (s side : Side) (uncle : Tree) (p : RbRef) (h : Heap)
      → Rep h (valid gp) uncle p
      → Known s side uncle h
      → Known s side uncle (tick h)
      → steps up < fuel
      → Ends tx
          (Fixed tx nodes k)
          (continue (is_red_ref tx p h) (first_uncle fuel tx n parent gp (opposite side) s p))
  at_uncle fuel s side leaf p h rep w w1 enough =
      let nothing = rep in rw nothing (black_uncle s side leaf h tt w)
  at_uncle fuel s side (node u black ua ub) p h rep w w1 enough =
      let here = rep.0 in
      let color = rep.1 in
      rw here (
        chain (color_of h u black (ap (λ x. x.1) color)) λ b g same.
          rw (same.0, same.1) (black_uncle s side (node u black ua ub) (tick h) refl w1))
  at_uncle fuel s side (node u red ua ub) p h rep w w1 enough =
      let here = rep.0 in
      let color = rep.1 in
      rw here (
        chain (color_of h u red (ap (λ x. x.1) color))
          λ b g same. rw (same.0, same.1) (red_uncle fuel s side u ua ub (tick h) w1 enough))

module _ (tx : Tx) (nodes : ℕ → Bool) (k : Heap) (n parent : ℕ) (sib : Tree) where
  -- A new node is inserted below a node of a red-black search tree, at a side where nothing hangs and
  -- where its key belongs, with fuel for more rounds than there are nodes above that one: the call
  -- ends in an access that conflicts, or it leaves a red-black search tree at the root that it
  -- reports, or at the old one if it reports none. The nodes are those of the tree with the new one,
  -- every node points back to its parent, and no value has changed.
  pub insert_fixup-Fixed :
      (fuel : ℕ) (s : Side) (c : Color) (up : Spine) (h : Heap)
      → Vacant tx h (step s parent c sib up) n
      → h.parent_color n ≡ (null, black)
      → h.value ≡ k.value
      → ((b : ℕ) → has b (plug (step s parent c sib up) (new_leaf n)) ≡ nodes b)
      → steps up < fuel
      → Ends tx (Fixed tx nodes k) (insert_fixup fuel tx n parent s h)
  unfolding insert_fixup
  insert_fixup-Fixed fuel s black up h w new v m enough =
      chain (parent_color_of h parent (parent_of up) black w.at.1) λ pc g same.
        rw (same.0, same.1)
          (write _ _ _ (
            ended (
              publish-Fixed tx nodes k n parent sib (tick h) s up
                (Vacant-tick tx h (step s parent black sib up) n w) v m)))
  insert_fixup-Fixed fuel s red top h w new v m enough = absurd (ground (arith, w.path.1))
  insert_fixup-Fixed fuel s red (step side gp red uncle up) h w new v m enough =
      absurd (ground (arith, w.path.1))
  insert_fixup-Fixed fuel s red (step side gp black uncle up) h w new v m enough =
      let place = step s parent red sib (step side gp black uncle up) in
      let w1 = Vacant-tick tx h place n w in
      let w2 = Vacant-tick tx (tick h) place n w1 in
      let w3 = Vacant-tick tx (tick (tick h)) place n w2 in
      let uncle_side = side_below-opposite tx side parent gp w.ordered_path.0.0 in
      chain (parent_color_of h parent (valid gp) red w.at.1) λ pc g same.
        rw (same.0, same.1, uncle_side)
          (read _ _ _ (
            at_uncle tx nodes k n parent gp sib up fuel s side uncle (h.child (opposite side) gp)
              (tick (tick h)) w2.at.3.2 (w2, new, v, m) (w3, new, v, m) (omega (arith, enough))))
