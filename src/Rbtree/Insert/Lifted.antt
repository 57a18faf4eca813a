-- ===== src/Rbtree/Insert/Lifted.antt =====
-- swym-rbtree/src/base.rs: the cells that `insert_case4_mut` writes for an inner child, and how the
-- new node is published.
use swym.Shared.{ℕ, ◌≡◌, ◌≢◌, Bool, true, arith, refl, sym}
use swym.Rbtree.Store.{
  Side, left, right, opposite, same_side, Color, black, red, RbRef, null, valid, Heap, Tx, tick,
  with_child, with_parent_color,
}
use swym.Rbtree.Runs.{Ends, ended, write}
use swym.Rbtree.Shape.{
  Tree, leaf, node, join, has, Rep, Spine, top, step, plug, parent_of, IsRb, Every, At, Fits,
  IsOrderedPath,
}
use swym.Rbtree.Shape.Frame.{Every-trivial, Every-imp, Along-imp, Same, Rep-frame, At-frame}
use swym.Rbtree.Shape.Sides.{Beside-apart, Every-split}
use swym.Rbtree.Shape.Balance.{Joined, IsRbPath, black-IsRb}
use swym.Rbtree.Rotate.Relink.{Fits-apart_nodes, At-relink, side_below-fits}
use swym.Rbtree.Insert.{publish_below}
use swym.Rbtree.Insert.Colors.{recolored, Rep-recolored}
use swym.Rbtree.Insert.Fixed.{Fixed, Hung-Fixed}
use swym.Rbtree.Insert.First.{new_leaf}

-- The heap before the new node is published; `s` is the side of the parent.
abbrev pub lifted : Side → (n parent gp : ℕ) → Heap → Heap
lifted s n parent gp h = tick (
    with_child (opposite (opposite s)) gp null (
      tick (
        with_parent_color gp (valid n) red (
          tick (
            tick (
              with_parent_color parent (valid n) red (
                with_child (opposite s) n (valid gp)
                  (with_child (opposite (opposite s)) n (valid parent) h))))))))

pub lifted-Same :
    (s : Side) (n parent gp : ℕ) (h : Heap) (b : ℕ)
    → n ≢ b
    → parent ≢ b
    → gp ≢ b
    → Same h (lifted s n parent gp h) b
lifted-Same s n parent gp h b i j k = record {
  children = λ t. ground arith;
  parent_color = ground arith;
}

pub record Lifted (s : Side) (n parent gp : ℕ) (h g : Heap) : Type 0 where
  pub to_gp : g.child (opposite s) n ≡ valid gp
  pub to_parent : g.child s n ≡ valid parent
  pub color : g.parent_color n ≡ h.parent_color n
  pub parent_color : g.parent_color parent ≡ (valid n, red)
  pub parent_links : (t : Side) → g.child t parent ≡ h.child t parent
  pub gp_color : g.parent_color gp ≡ (valid n, red)
  pub gp_outer : g.child (opposite s) gp ≡ h.child (opposite s) gp
  pub gp_inner : g.child s gp ≡ null

pub lifted-Lifted :
    (s : Side) (n parent gp : ℕ) (h : Heap)
    → n ≢ parent
    → n ≢ gp
    → parent ≢ gp
    → Lifted s n parent gp h (lifted s n parent gp h)
lifted-Lifted left n parent gp h i j k = record {
  to_gp = ground arith;
  to_parent = ground arith;
  color = ground arith;
  parent_color = ground arith;
  parent_links = λ t. ground arith;
  gp_color = ground arith;
  gp_outer = ground arith;
  gp_inner = ground arith;
}
lifted-Lifted right n parent gp h i j k = record {
  to_gp = ground arith;
  to_parent = ground arith;
  color = ground arith;
  parent_color = ground arith;
  parent_links = λ t. ground arith;
  gp_color = ground arith;
  gp_outer = ground arith;
  gp_inner = ground arith;
}

pub Rep-recolored_join :
    (h : Heap) (q q' : RbRef) (s : Side) (a : ℕ) (c d : Color) (x y : Tree) (p : RbRef)
    → Every (λ b. a ≢ b) x
    → Every (λ b. a ≢ b) y
    → Rep h q (join s a c x y) p
    → Rep (with_parent_color a q' d h) q' (join s a d x y) p
Rep-recolored_join h q q' left a c d x y p e f r =
    Rep-frame (recolored a q' d h) (with_parent_color a q' d h) q' (node a d x y) p
      (Every-trivial _ (node a d x y) λ b. record { children = λ t. refl; parent_color = refl })
      (Rep-recolored h q q' a c d x y p e f r)
Rep-recolored_join h q q' right a c d x y p e f r =
    Rep-frame (recolored a q' d h) (with_parent_color a q' d h) q' (node a d y x) p
      (Every-trivial _ (node a d y x) λ b. record { children = λ t. refl; parent_color = refl })
      (Rep-recolored h q q' a c d y x p f e r)

-- The new node is published where the grandparent hung, or is the new root.
pub publish_below-Fixed :
    (tx : Tx) (nodes : ℕ → Bool) (k : Heap) (o : Side) (n gp : ℕ) (x y : Tree) (up : Spine)
    (g : Heap)
    → Rep g null (join o n black x y) (valid n)
    → At g up (valid gp)
    → Joined tx up (join o n black x y)
    → IsOrderedPath tx up
    → IsRbPath up 1
    → IsRb black 0 x
    → IsRb black 0 y
    → Fits tx up (tx.key gp)
    → Every (λ b. n ≢ b) x
    → Every (λ b. n ≢ b) y
    → ((b : ℕ) → has b (plug up (join o n black x y)) ≡ nodes b)
    → g.value ≡ k.value
    → Ends tx (Fixed tx nodes k) (publish_below tx n gp (parent_of up) g)
publish_below-Fixed tx nodes k o n gp x y top g rep at j op path hx hy f ax ay m v = ended (record {
  tree = join o n black x y;
  rep = rep;
  ordered = j.ordered;
  balanced = (1, black-IsRb red o 0 n x y hx hy);
  members = m;
  same_values = v;
})
publish_below-Fixed tx nodes k o n gp x y (step s a c sib up) g rep at j op path hx hy f ax ay m v =
    let t = join o n black x y in
    let colored = with_parent_color n (valid a) black g in
    let side = side_below-fits tx s gp a f.0 in
    let n_fits = Every-split (λ b. Fits tx (step s a c sib up) (tx.key b)) o n black x y j.inside in
    rw side (
      write _ _ _ (
        ended (
          Hung-Fixed tx nodes (step s a c sib up) 1 t k (tick (with_child s a (valid n) colored))
            (valid n)
            (record {
              rep =
                  Rep-frame colored (tick (with_child s a (valid n) colored)) (valid a) t (valid n)
                    (Every-imp _ _ t (λ b fit. linked b (λ e. Beside-apart tx s b a fit.0 (sym e)))
                      j.inside)
                    (Rep-recolored_join g null (valid a) o n black black x y (valid n) ax ay rep);
              at =
                  At-relink colored s a c sib up (valid gp) (valid n)
                    (Every-imp _ _ sib (λ b fit e. Beside-apart tx (opposite s) b a fit (sym e))
                      op.2)
                    (Fits-apart_nodes tx up a op.4 op.0)
                    (At-frame g colored (step s a c sib up) (valid gp) refl
                      (Along-imp _ _ (step s a c sib up) recolored_Same
                        (Fits-apart_nodes tx (step s a c sib up) n op n_fits.0))
                      at);
              joined = j;
              ordered_path = op;
            })
            path (black-IsRb c o 0 n x y hx hy) m v)))
  where
    linked :
        (b : ℕ)
        → a ≢ b
        → Same
            (with_parent_color n (valid a) black g)
            (tick (with_child s a (valid n) (with_parent_color n (valid a) black g)))
            b
    linked b i = record { children = λ t. ground arith; parent_color = refl }

    recolored_Same : (b : ℕ) → n ≢ b → Same g (with_parent_color n (valid a) black g) b
    recolored_Same b i = record { children = λ t. refl; parent_color = ground arith }

pub inner-has :
    (b : ℕ) (s : Side) (n parent gp : ℕ) (sib uncle : Tree)
    → has b (
        join
          (opposite s)
          n
          black
          (join (opposite s) gp red uncle leaf)
          (join s parent red sib leaf))
      ≡ has b (join s gp black (join (opposite s) parent red (new_leaf n) sib) uncle)
inner-has b left n parent gp sib uncle = ground arith
inner-has b right n parent gp sib uncle = ground arith

pub same_side-same : (s : Side) → same_side (opposite s) (opposite s) ≡ true
same_side-same left = refl
same_side-same right = refl
