-- ===== src/Rbtree/Rotate/Relink.antt =====
-- swym-rbtree/src/base.rs: how a rotated tree is linked to what is above it.
use swym.Shared.{ℕ, ◌≡◌, ◌≢◌, Option, none, some, arith, refl, sym, ap}
use swym.Rbtree.Store.{Side, left, right, opposite, Color, RbRef, valid, Heap, Tx, tick, with_child}
use swym.Rbtree.Runs.{Ends, ended, write}
use swym.Rbtree.Shape.{
  Tree, leaf, node, Every, Rep, Orphan, Spine, top, step, parent_of, Along, At, Beside, Fits,
  IsOrderedPath,
}
use swym.Rbtree.Shape.Frame.{Every-imp, Along-imp, Same, Rep-frame, At-frame, Fits-apart}
use swym.Rbtree.Shape.Sides.{Beside-apart}
use swym.Rbtree.Rotate.{side_below, replace_below}

pub Orphan-root :
    (h : Heap) (P : ℕ → Type 0) (t : Tree) (p : RbRef) (b : ℕ)
    → Orphan h t p
    → Every P t
    → p ≡ valid b
    → P b
Orphan-root h P leaf p b o e q = absurd (cc)
Orphan-root h P (node a c l r) p b o e q = let same : a ≡ b = ground arith in rw (← same) e.0

pub Rep-Orphan : (h : Heap) (q : RbRef) (t : Tree) (p : RbRef) → Rep h q t p → Orphan h t p
Rep-Orphan h q leaf p r = r
Rep-Orphan h q (node a c l r) p e = (e.0, e.2, e.3)

-- The link that led to the rotated node leads to the one above it now; at the root, that is left to
-- the caller.
abbrev pub Linked : Heap → Spine → ℕ → Option ℕ → Type 0
Linked g top up r = r ≡ some up
Linked g (step s a c sib rest) up r = (r ≡ none) × At g (step s a c sib rest) (valid up)

-- What a rotation leaves: the tree, below the same path, and the values as they were.
pub record Turned (q : RbRef) (t : Tree) (path : Spine) (up : ℕ) (h : Heap) (r : Option ℕ)
    (g : Heap) : Type 0 where
  pub rep : Rep g q t (valid up)
  pub link : Linked g path up r
  pub same_values : g.value ≡ h.value
  pub same_root : g.root ≡ h.root

pub side_below-fits :
    (tx : Tx) (s : Side) (a p : ℕ) → Beside s (tx.key a) (tx.key p) → side_below tx a p ≡ s
side_below-fits tx left a p f = ground arith
side_below-fits tx right a p f = ground arith

-- Another tree is hung at the end of a path.
pub At-relink :
    (h : Heap) (s : Side) (a : ℕ) (c : Color) (sib : Tree) (up : Spine) (p : RbRef) (q : RbRef)
    → Every (λ b. a ≢ b) sib
    → Along (λ b. a ≢ b) up
    → At h (step s a c sib up) p
    → At (tick (with_child s a q h)) (step s a c sib up) q
At-relink h s a c sib up p q e f at = (
  here s,
  at.1,
  rw (there s) (
      Rep-frame h (tick (with_child s a q h)) (valid a) sib (h.child (opposite s) a)
        (Every-imp _ _ sib other e) at.2),
  At-frame h (tick (with_child s a q h)) up (valid a) refl (Along-imp _ _ up other f) at.3,
)
  where
    other : (b : ℕ) → a ≢ b → Same h (tick (with_child s a q h)) b
    other b n = record { children = λ t. ground arith; parent_color = refl }

    here : (s : Side) → (tick (with_child s a q h)).child s a ≡ q
    here left = ground arith
    here right = ground arith

    there : (s : Side) → (tick (with_child s a q h)).child (opposite s) a ≡ h.child (opposite s) a
    there left = refl
    there right = refl

pub Fits-apart_nodes :
    (tx : Tx) (path : Spine) (k : ℕ)
    → IsOrderedPath tx path
    → Fits tx path (tx.key k)
    → Along (λ b. k ≢ b) path
Fits-apart_nodes tx path k o f =
    Along-imp _ _ path (λ b n e. n (ap tx.key (sym e))) (Fits-apart tx path (tx.key k) o f)

-- The end of a rotation: the link that led to the rotated node.
pub replace_below-Turned :
    (tx : Tx) (self up : ℕ) (t : Tree) (path : Spine) (h g : Heap)
    → Rep g (parent_of path) t (valid up)
    → At g path (valid self)
    → IsOrderedPath tx path
    → Every (λ b. Fits tx path (tx.key b)) t
    → Fits tx path (tx.key self)
    → g.value ≡ h.value
    → g.root ≡ h.root
    → Ends tx (Turned (parent_of path) t path up h) (replace_below tx self (parent_of path) up g)
replace_below-Turned tx self up t top h g rep at o f k v r =
    ended (record { rep = rep; link = refl; same_values = v; same_root = r })
replace_below-Turned tx self up t (step s a c sib rest) h g rep at o f k v r =
    let side = side_below-fits tx s self a k.0 in
    rw side (
      write _ _ _ (
        ended (record {
          rep =
              Rep-frame g (tick (with_child s a (valid up) g)) (valid a) t (valid up)
                (Every-imp _ _ t (λ b fit. other b (λ e. Beside-apart tx s b a fit.0 (sym e))) f)
                rep;
          link = (
            refl,
            At-relink g s a c sib rest (valid self) (valid up)
                (Every-imp _ _ sib (λ b fit e. Beside-apart tx (opposite s) b a fit (sym e)) o.2)
                (Fits-apart_nodes tx rest a o.4 o.0) at,
          );
          same_values = v;
          same_root = r;
        })))
  where
    other : (b : ℕ) → a ≢ b → Same g (tick (with_child s a (valid up) g)) b
    other b n = record { children = λ t. ground arith; parent_color = refl }
