-- ===== src/Rbtree/Shape/Frame.antt =====
-- swym-rbtree: what a tree and a path survive.
use swym.Shared.{ℕ, ◌≡◌, ◌≢◌, arith, ◌∙◌}
use swym.Rbtree.Store.{Side, left, right, opposite, RbRef, valid, Heap, Tx}
use swym.Rbtree.Shape.{
  Tree, leaf, node, Every, Rep, Spine, top, step, Along, At, Beside, Fits, IsOrderedPath,
}

pub Every-imp : (P Q : ℕ → Type 0) (t : Tree) → ((b : ℕ) → P b → Q b) → Every P t → Every Q t
Every-imp P Q leaf f e = tt
Every-imp P Q (node a c l r) f e = (f a e.0, Every-imp P Q l f e.1, Every-imp P Q r f e.2)

pub Along-imp : (P Q : ℕ → Type 0) (up : Spine) → ((b : ℕ) → P b → Q b) → Along P up → Along Q up
Along-imp P Q top f e = tt
Along-imp P Q (step s a c sib up) f e = (f a e.0, Every-imp P Q sib f e.1, Along-imp P Q up f e.2)

pub Every-both : (P Q : ℕ → Type 0) (t : Tree) → Every P t → Every Q t → Every (λ b. P b × Q b) t
Every-both P Q leaf e f = tt
Every-both P Q (node a c l r) e f = ((e.0, f.0), Every-both P Q l e.1 f.1, Every-both P Q r e.2 f.2)

pub Every-trivial : (P : ℕ → Type 0) (t : Tree) → ((b : ℕ) → P b) → Every P t
Every-trivial P leaf f = tt
Every-trivial P (node a c l r) f = (f a, Every-trivial P l f, Every-trivial P r f)

pub Along-trivial : (P : ℕ → Type 0) (up : Spine) → ((b : ℕ) → P b) → Along P up
Along-trivial P top f = tt
Along-trivial P (step s a c sib up) f = (f a, Every-trivial P sib f, Along-trivial P up f)

-- A node has the same cells in two heaps.
pub record Same (h g : Heap) (b : ℕ) : Type 0 where
  pub children : (s : Side) → g.child s b ≡ h.child s b
  pub parent_color : g.parent_color b ≡ h.parent_color b

pub Rep-frame :
    (h g : Heap) (q : RbRef) (t : Tree) (p : RbRef) → Every (Same h g) t → Rep h q t p → Rep g q t p
Rep-frame h g q leaf p e r = r
Rep-frame h g q (node a c x y) p e r = (
  r.0,
  e.0.parent_color ∙ r.1,
  rw (e.0.children left) (Rep-frame h g (valid a) x (h.child left a) e.1 r.2),
  rw (e.0.children right) (Rep-frame h g (valid a) y (h.child right a) e.2 r.3),
)

pub At-frame :
    (h g : Heap) (up : Spine) (p : RbRef)
    → g.root ≡ h.root
    → Along (Same h g) up
    → At h up p
    → At g up p
At-frame h g top p root e r = root ∙ r
At-frame h g (step s a c sib up) p root e r = (
  e.0.children s ∙ r.0,
  e.0.parent_color ∙ r.1,
  rw (e.0.children (opposite s)) (Rep-frame h g (valid a) sib (h.child (opposite s) a) e.1 r.2),
  At-frame h g up (valid a) root e.2 r.3,
)

Beside-trans :
    (tx : Tx) (s : Side) (k m : ℕ) (t : Tree)
    → Beside s k m
    → Every (λ b. Beside (opposite s) (tx.key b) m) t
    → Every (λ b. tx.key b ≢ k) t
Beside-trans tx left k m t f e = Every-imp _ _ t (λ b below. ground arith) e
Beside-trans tx right k m t f e = Every-imp _ _ t (λ b below. ground arith) e

Beside-ne : (s : Side) (k m : ℕ) → Beside s k m → m ≢ k
Beside-ne left k m f = omega arith
Beside-ne right k m f = omega arith

-- A key that fits below a path is the key of no node of it.
pub Fits-apart :
    (tx : Tx) (up : Spine) (k : ℕ)
    → IsOrderedPath tx up
    → Fits tx up k
    → Along (λ b. tx.key b ≢ k) up
Fits-apart tx top k o f = tt
Fits-apart tx (step s a c sib up) k o f = (
  Beside-ne s k (tx.key a) f.0,
  Beside-trans tx s k (tx.key a) sib f.0 o.2,
  Fits-apart tx up k o.4 f.1,
)
