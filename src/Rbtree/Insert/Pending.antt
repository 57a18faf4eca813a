-- ===== src/Rbtree/Insert/Pending.antt =====
-- swym-rbtree/src/base.rs: where a round of `insert_fixup` stands. A black node has two red
-- children, of which one has a red child; the node is to become red and its children black.
use swym.Shared.{ℕ, suc, ◌≡◌, ◌≢◌, false, arith, refl}
use swym.Rbtree.Store.{Color, black, red, RbRef, valid, same_ref, Heap, Tx, tick}
use swym.Rbtree.Runs.{Ends, write, last_write}
use swym.Rbtree.Shape.{Tree, leaf, node, Rep, Spine, parent_of, IsRb, Every}
use swym.Rbtree.Shape.Frame.{Same, Rep-frame, At-frame, Every-trivial, Along-trivial}
use swym.Rbtree.Shape.Balance.{IsRbPath}
use swym.Rbtree.Insert.{blacken}
use swym.Rbtree.Insert.Colors.{
  recolored, Hung, recolored-Hung, recolored-Hung_left, recolored-Hung_right,
}

pub Hung-tick :
    (tx : Tx) (h : Heap) (up : Spine) (t : Tree) (p : RbRef)
    → Hung tx h up t p
    → Hung tx (tick h) up t p
Hung-tick tx h up t p w = record {
  rep = Rep-frame h (tick h) (parent_of up) t p (Every-trivial _ t same) w.rep;
  at = At-frame h (tick h) up p refl (Along-trivial _ up same) w.at;
  joined = w.joined;
  ordered_path = w.ordered_path;
}
  where
    same : (b : ℕ) → Same h (tick h) b
    same b = record { children = λ s. refl; parent_color = refl }

-- The node with its two children, in these colors
abbrev pub trio : Color → Color → (this l r : ℕ) → (la lb ra rb : Tree) → Tree
trio c d this l r la lb ra rb = node this c (node l d la lb) (node r d ra rb)

pub record Pending (tx : Tx) (h : Heap) (up : Spine) (n this l r : ℕ) (la lb ra rb : Tree)
    : Type 0 where
  pub hung : Hung tx h up (trio black red this l r la lb ra rb) (valid this)
  pub heights : (IsRb black n la × IsRb black n lb) × (IsRb black n ra × IsRb black n rb)
  pub path : IsRbPath up (suc n)

abbrev pub blackened : (this l r : ℕ) → Heap → Heap
blackened this l r h = recolored r (valid this) black (recolored l (valid this) black h)

pub blacken-blackened :
    (tx : Tx) (this l r : ℕ) (h : Heap)
    → Ends tx (λ u g. g ≡ blackened this l r h) (blacken tx this l r h)
blacken-blackened tx this l r h = write _ _ _ (last_write _ _ refl)

module _ (tx : Tx) (h : Heap) (up : Spine) (n this l r : ℕ) (la lb ra rb : Tree)
    (w : Pending tx h up n this l r la lb ra rb) where
  pub Pending-tick : Pending tx (tick h) up n this l r la lb ra rb
  Pending-tick = record {
    hung = Hung-tick tx h up (trio black red this l r la lb ra rb) (valid this) w.hung;
    heights = w.heights;
    path = w.path;
  }

  pub blackened-Hung :
      Hung tx (blackened this l r h) up (trio black black this l r la lb ra rb) (valid this)
  blackened-Hung =
      recolored-Hung_right tx (recolored l (valid this) black h) up this r black red black
        (node l black la lb) ra rb (valid this)
        (recolored-Hung_left tx h up this l black red black la lb (node r red ra rb) (valid this)
          w.hung)

  pub reddened-Hung :
      Hung tx
        (recolored this (parent_of up) red (blackened this l r h))
        up
        (trio red black this l r la lb ra rb)
        (valid this)
  reddened-Hung =
      recolored-Hung tx (blackened this l r h) up this black red (node l black la lb)
        (node r black ra rb) (valid this) blackened-Hung

  pub reddened-IsRb : IsRb black (suc n) (trio red black this l r la lb ra rb)
  reddened-IsRb = w.heights

  pub blackened-IsRb : (c : Color) → IsRb c (suc (suc n)) (trio black black this l r la lb ra rb)
  blackened-IsRb black = w.heights
  blackened-IsRb red = w.heights

-- The inner child of the parent, if it is not the node itself
pub sibling-apart :
    (h : Heap) (q : RbRef) (sib : Tree) (p : RbRef) (this : ℕ)
    → Rep h q sib p
    → Every (λ b. b ≢ this) sib
    → same_ref p (valid this) ≡ false
sibling-apart h q leaf p this r e = rw r refl
sibling-apart h q (node a c l y) p this r e = let root = r.0 in rw root (ground (arith, e.0))
