-- ===== src/Rbtree/Insert/Colors.antt =====
-- swym-rbtree/src/base.rs: the recoloring of a node and of its two children.
use swym.Shared.{ℕ, ◌<◌, ◌≢◌, arith, refl}
use swym.Rbtree.Store.{left, right, Color, RbRef, valid, Heap, Tx, tick, with_parent_color}
use swym.Rbtree.Shape.{Tree, node, Every, Rep, Spine, parent_of, At, IsOrderedPath}
use swym.Rbtree.Shape.Frame.{Every-imp, Along-imp, Same, Rep-frame, At-frame}
use swym.Rbtree.Shape.Balance.{Joined}
use swym.Rbtree.Rotate.Relink.{Fits-apart_nodes}

abbrev pub recolored : ℕ → RbRef → Color → Heap → Heap
recolored a q c h = tick (with_parent_color a q c h)

pub Same-recolored :
    (a : ℕ) (q : RbRef) (c : Color) (h : Heap) (b : ℕ) → a ≢ b → Same h (recolored a q c h) b
Same-recolored a q c h b n = record { children = λ s. refl; parent_color = ground arith }

-- The root of a tree is recolored.
pub Rep-recolored :
    (h : Heap) (q q' : RbRef) (a : ℕ) (c d : Color) (x y : Tree) (p : RbRef)
    → Every (λ b. a ≢ b) x
    → Every (λ b. a ≢ b) y
    → Rep h q (node a c x y) p
    → Rep (recolored a q' d h) q' (node a d x y) p
Rep-recolored h q q' a c d x y p e f r = (
  r.0,
  ground arith,
  Rep-frame h (recolored a q' d h) (valid a) x (h.child left a)
      (Every-imp _ _ x (Same-recolored a q' d h) e) r.2,
  Rep-frame h (recolored a q' d h) (valid a) y (h.child right a)
      (Every-imp _ _ y (Same-recolored a q' d h) f) r.3,
)

-- A subtree at the end of a path, in a heap
pub record Hung (tx : Tx) (h : Heap) (up : Spine) (t : Tree) (p : RbRef) : Type 0 where
  pub rep : Rep h (parent_of up) t p
  pub at : At h up p
  pub joined : Joined tx up t
  pub ordered_path : IsOrderedPath tx up

pub before-apart : (tx : Tx) (a b : ℕ) → tx.key b < tx.key a → a ≢ b
before-apart tx a b k e = absurd (ground arith)

pub after-apart : (tx : Tx) (a b : ℕ) → tx.key a < tx.key b → a ≢ b
after-apart tx a b k e = absurd (ground arith)

-- The root is recolored, under the same parent.
pub recolored-Hung :
    (tx : Tx) (h : Heap) (up : Spine) (a : ℕ) (c d : Color) (x y : Tree) (p : RbRef)
    → Hung tx h up (node a c x y) p
    → Hung tx (recolored a (parent_of up) d h) up (node a d x y) p
recolored-Hung tx h up a c d x y p w = record {
  rep =
      Rep-recolored h (parent_of up) (parent_of up) a c d x y p
        (Every-imp _ _ x (before-apart tx a) w.joined.ordered.0)
        (Every-imp _ _ y (after-apart tx a) w.joined.ordered.1) w.rep;
  at =
      At-frame h (recolored a (parent_of up) d h) up p refl
        (Along-imp _ _ up (Same-recolored a (parent_of up) d h)
          (Fits-apart_nodes tx up a w.ordered_path w.joined.inside.0))
        w.at;
  joined = record { ordered = w.joined.ordered; inside = w.joined.inside };
  ordered_path = w.ordered_path;
}

-- The left child is recolored, and the right child.
pub recolored-Hung_left :
    (tx : Tx) (h : Heap) (up : Spine) (a l : ℕ) (c d e : Color) (lx ly y : Tree) (p : RbRef)
    → Hung tx h up (node a c (node l d lx ly) y) p
    → Hung tx (recolored l (valid a) e h) up (node a c (node l e lx ly) y) p
recolored-Hung_left tx h up a l c d e lx ly y p w =
    let o = w.joined.ordered in
    record {
      rep = (
        w.rep.0,
        ground (arith, w.rep.1, before-apart tx a l o.0.0),
        Rep-recolored h (valid a) (valid a) l d e lx ly (h.child left a)
            (Every-imp _ _ lx (before-apart tx l) o.2.0) (Every-imp _ _ ly (after-apart tx l) o.2.1)
            w.rep.2,
        Rep-frame h (recolored l (valid a) e h) (valid a) y (h.child right a)
            (Every-imp _ _ y
              (λ b k.
                Same-recolored l (valid a) e h b (after-apart tx l b (omega (arith, k, o.0.0))))
              o.1)
            w.rep.3,
      );
      at =
          At-frame h (recolored l (valid a) e h) up p refl
            (Along-imp _ _ up (Same-recolored l (valid a) e h)
              (Fits-apart_nodes tx up l w.ordered_path w.joined.inside.1.0))
            w.at;
      joined = record { ordered = w.joined.ordered; inside = w.joined.inside };
      ordered_path = w.ordered_path;
    }

pub recolored-Hung_right :
    (tx : Tx) (h : Heap) (up : Spine) (a r : ℕ) (c d e : Color) (x rx ry : Tree) (p : RbRef)
    → Hung tx h up (node a c x (node r d rx ry)) p
    → Hung tx (recolored r (valid a) e h) up (node a c x (node r e rx ry)) p
recolored-Hung_right tx h up a r c d e x rx ry p w =
    let o = w.joined.ordered in
    record {
      rep = (
        w.rep.0,
        ground (arith, w.rep.1, after-apart tx a r o.1.0),
        Rep-frame h (recolored r (valid a) e h) (valid a) x (h.child left a)
            (Every-imp _ _ x
              (λ b k.
                Same-recolored r (valid a) e h b (before-apart tx r b (omega (arith, k, o.1.0))))
              o.0)
            w.rep.2,
        Rep-recolored h (valid a) (valid a) r d e rx ry (h.child right a)
            (Every-imp _ _ rx (before-apart tx r) o.3.0) (Every-imp _ _ ry (after-apart tx r) o.3.1)
            w.rep.3,
      );
      at =
          At-frame h (recolored r (valid a) e h) up p refl
            (Along-imp _ _ up (Same-recolored r (valid a) e h)
              (Fits-apart_nodes tx up r w.ordered_path w.joined.inside.2.0))
            w.at;
      joined = record { ordered = w.joined.ordered; inside = w.joined.inside };
      ordered_path = w.ordered_path;
    }
