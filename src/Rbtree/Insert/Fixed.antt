-- ===== src/Rbtree/Insert/Fixed.antt =====
-- swym-rbtree/src/base.rs: what an insertion leaves when it is done.
use swym.Shared.{ℕ, ◌≡◌, Bool, Option, refl, ◌∙◌}
use swym.Rbtree.Store.{Side, RbRef, null, valid, Color, red, Heap, Tx}
use swym.Rbtree.Shape.{
  IsOrderedPath, join, Tree, has, Rep, Spine, top, step, plug, parent_of, IsOrdered, IsRb,
}
use swym.Rbtree.Shape.Sides.{plug-Rep, plug-IsOrdered, split-Rep}
use swym.Rbtree.Shape.Balance.{Joined, join-Joined, IsRbPath, hole_color, plug-IsRb}
use swym.Rbtree.Rotate.Relink.{Turned, Linked}
use swym.Rbtree.Insert.{RepairResult, new_root, publish_root, root_unchanged, repaired}
use swym.Rbtree.Insert.Colors.{Hung}

-- The root that the caller is told of, or that was there
abbrev pub root_of : RepairResult → Heap → RbRef
root_of (new_root a) g = valid a
root_of (publish_root a) g = valid a
root_of root_unchanged g = g.root

-- A red-black tree hangs at the root, with these nodes; no value has changed.
pub record Fixed (tx : Tx) (nodes : ℕ → Bool) (h : Heap) (r : RepairResult) (g : Heap)
    : Type 0 where
  pub tree : Tree
  pub rep : Rep g null tree (root_of r g)
  pub ordered : IsOrdered tx tree
  pub balanced : (n : ℕ) × IsRb red n tree
  pub members : (b : ℕ) → has b tree ≡ nodes b
  pub same_values : g.value ≡ h.value

Linked-root :
    (g : Heap) (path : Spine) (up : ℕ) (t : Tree) (r : Option ℕ)
    → Rep g (parent_of path) t (valid up)
    → Linked g path up r
    → Rep g null (plug path t) (root_of (repaired r) g)
Linked-root g top up t r rep link = rw link rep
Linked-root g (step s a c sib rest) up t r rep link =
    let unchanged = link.0 in
    rw unchanged (plug-Rep g (step s a c sib rest) t (valid up) rep link.1)

-- After a rotation
pub Turned-Fixed :
    (tx : Tx) (nodes : ℕ → Bool) (path : Spine) (n up : ℕ) (t : Tree) (h k g : Heap) (r : Option ℕ)
    → Joined tx path t
    → IsOrderedPath tx path
    → IsRbPath path n
    → IsRb (hole_color path) n t
    → ((b : ℕ) → has b (plug path t) ≡ nodes b)
    → h.value ≡ k.value
    → Turned (parent_of path) t path up h r g
    → Fixed tx nodes k (repaired r) g
Turned-Fixed tx nodes path n up t h k g r j o b i m v w = record {
  tree = plug path t;
  rep = Linked-root g path up t r w.rep w.link;
  ordered = plug-IsOrdered tx path t o j.ordered j.inside;
  balanced = plug-IsRb path n t b i;
  members = m;
  same_values = w.same_values ∙ v;
}

-- After a change that ends below a path
pub Hung-Fixed :
    (tx : Tx) (nodes : ℕ → Bool) (path : Spine) (n : ℕ) (t : Tree) (k g : Heap) (p : RbRef)
    → Hung tx g path t p
    → IsRbPath path n
    → IsRb (hole_color path) n t
    → ((b : ℕ) → has b (plug path t) ≡ nodes b)
    → g.value ≡ k.value
    → Fixed tx nodes k root_unchanged g
Hung-Fixed tx nodes path n t k g p w b i m v = record {
  tree = plug path t;
  rep = plug-Rep g path t p w.rep w.at;
  ordered = plug-IsOrdered tx path t w.ordered_path w.joined.ordered w.joined.inside;
  balanced = plug-IsRb path n t b i;
  members = m;
  same_values = v;
}

-- One step up
pub up-Hung :
    (tx : Tx) (h : Heap) (s : Side) (a : ℕ) (c : Color) (sib : Tree) (up : Spine) (t : Tree)
    (p : RbRef)
    → Hung tx h (step s a c sib up) t p
    → Hung tx h up (join s a c t sib) (valid a)
up-Hung tx h s a c sib up t p w = record {
  rep =
      split-Rep h (parent_of up) s a c t sib (valid a) refl w.at.1
        (let here = w.at.0 in rw here w.rep) w.at.2;
  at = w.at.3;
  joined = join-Joined tx s a c c sib up t w.ordered_path w.joined;
  ordered_path = w.ordered_path.4;
}
