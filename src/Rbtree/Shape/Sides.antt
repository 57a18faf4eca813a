-- ===== src/Rbtree/Shape/Sides.antt =====
-- swym-rbtree: trees and orders, seen from either side.
use swym.Shared.{ℕ, ◌≡◌, ◌≢◌, ◌||◌, arith, refl, ◌==◌}
use swym.Rbtree.Store.{Side, left, right, opposite, Color, RbRef, null, valid, Heap, Tx}
use swym.Rbtree.Shape.{
  Tree, leaf, node, join, has, Every, Rep, IsOrdered, Spine, top, step, plug, parent_of, Along, At,
  Beside, Fits, IsOrderedPath,
}
use swym.Rbtree.Shape.Frame.{Every-imp}

pub Beside-step : (s : Side) (i j k : ℕ) → Beside s i j → Beside s j k → Beside s i k
Beside-step left i j k a b = omega arith
Beside-step right i j k a b = omega arith

pub Beside-flip : (s : Side) (i j : ℕ) → Beside s i j → Beside (opposite s) j i
Beside-flip left i j a = a
Beside-flip right i j a = a

pub Beside-flip_back : (s : Side) (i j : ℕ) → Beside (opposite s) i j → Beside s j i
Beside-flip_back left i j a = a
Beside-flip_back right i j a = a

pub Beside-apart : (tx : Tx) (s : Side) (a b : ℕ) → Beside s (tx.key a) (tx.key b) → a ≢ b
Beside-apart tx left a b f e = absurd (ground arith)
Beside-apart tx right a b f e = absurd (ground arith)

-- What a search tree says of its root and subtrees
pub record Split (tx : Tx) (s : Side) (a : ℕ) (x y : Tree) : Type 0 where
  pub near : Every (λ b. Beside s (tx.key b) (tx.key a)) x
  pub far : Every (λ b. Beside (opposite s) (tx.key b) (tx.key a)) y
  pub near_ordered : IsOrdered tx x
  pub far_ordered : IsOrdered tx y

pub IsOrdered-split :
    (tx : Tx) (s : Side) (a : ℕ) (c : Color) (x y : Tree)
    → IsOrdered tx (join s a c x y)
    → Split tx s a x y
IsOrdered-split tx left a c x y o = record {
  near = o.0;
  far = o.1;
  near_ordered = o.2;
  far_ordered = o.3;
}
IsOrdered-split tx right a c x y o = record {
  near = o.1;
  far = o.0;
  near_ordered = o.3;
  far_ordered = o.2;
}

pub split-IsOrdered :
    (tx : Tx) (s : Side) (a : ℕ) (c : Color) (x y : Tree)
    → Split tx s a x y
    → IsOrdered tx (join s a c x y)
split-IsOrdered tx left a c x y o = (o.near, o.far, o.near_ordered, o.far_ordered)
split-IsOrdered tx right a c x y o = (o.far, o.near, o.far_ordered, o.near_ordered)

pub Every-split :
    (P : ℕ → Type 0) (s : Side) (a : ℕ) (c : Color) (x y : Tree)
    → Every P (join s a c x y)
    → P a × Every P x × Every P y
Every-split P left a c x y e = e
Every-split P right a c x y e = (e.0, e.2, e.1)

pub split-Every :
    (P : ℕ → Type 0) (s : Side) (a : ℕ) (c : Color) (x y : Tree)
    → P a
    → Every P x
    → Every P y
    → Every P (join s a c x y)
split-Every P left a c x y e f g = (e, f, g)
split-Every P right a c x y e f g = (e, g, f)

pub Rep-split :
    (h : Heap) (q : RbRef) (s : Side) (a : ℕ) (c : Color) (x y : Tree) (p : RbRef)
    → Rep h q (join s a c x y) p
    → (p ≡ valid a)
      × (h.parent_color a ≡ (q, c))
      × Rep h (valid a) x (h.child s a)
      × Rep h (valid a) y (h.child (opposite s) a)
Rep-split h q left a c x y p r = r
Rep-split h q right a c x y p r = (r.0, r.1, r.3, r.2)

pub split-Rep :
    (h : Heap) (q : RbRef) (s : Side) (a : ℕ) (c : Color) (x y : Tree) (p : RbRef)
    → p ≡ valid a
    → h.parent_color a ≡ (q, c)
    → Rep h (valid a) x (h.child s a)
    → Rep h (valid a) y (h.child (opposite s) a)
    → Rep h q (join s a c x y) p
split-Rep h q left a c x y p e f l r = (e, f, l, r)
split-Rep h q right a c x y p e f l r = (e, f, r, l)

pub has-join :
    (b : ℕ) (s : Side) (a : ℕ) (c : Color) (x y : Tree)
    → has b (join s a c x y) ≡ ((a == b) || (has b x || has b y))
has-join b left a c x y = refl
has-join b right a c x y = ground arith

-- A tree that is plugged into a path
pub plug-Rep :
    (h : Heap) (up : Spine) (t : Tree) (p : RbRef)
    → Rep h (parent_of up) t p
    → At h up p
    → Rep h null (plug up t) h.root
plug-Rep h top t p r at = rw at r
plug-Rep h (step s a c sib up) t p r at =
    plug-Rep h up (join s a c t sib) (valid a)
      (split-Rep h (parent_of up) s a c t sib (valid a) refl at.1 (rw at.0 r) at.2) at.3

pub Along-both :
    (P Q : ℕ → Type 0) (up : Spine) → Along P up → Along Q up → Along (λ b. P b × Q b) up
Along-both P Q top e f = tt
Along-both P Q (step s a c sib up) e f = ((e.0, f.0), both sib e.1 f.1, Along-both P Q up e.2 f.2)
  where
    both : (t : Tree) → Every P t → Every Q t → Every (λ b. P b × Q b) t
    both leaf e f = tt
    both (node a c l r) e f = ((e.0, f.0), both l e.1 f.1, both r e.2 f.2)

pub plug-IsOrdered :
    (tx : Tx) (up : Spine) (t : Tree)
    → IsOrderedPath tx up
    → IsOrdered tx t
    → Every (λ b. Fits tx up (tx.key b)) t
    → IsOrdered tx (plug up t)
plug-IsOrdered tx top t o i f = i
plug-IsOrdered tx (step s a c sib up) t o i f =
    plug-IsOrdered tx up (join s a c t sib) o.4
      (split-IsOrdered tx s a c t sib (record {
        near = Every-imp _ _ t (λ b g. g.0) f;
        far = o.2;
        near_ordered = i;
        far_ordered = o.3;
      }))
      (split-Every (λ b. Fits tx up (tx.key b)) s a c t sib o.0 (Every-imp _ _ t (λ b g. g.1) f)
        o.1)
