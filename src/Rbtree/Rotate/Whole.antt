-- ===== src/Rbtree/Rotate/Whole.antt =====
-- swym-rbtree/src/base.rs: a rotation of a tree that hangs at the end of a path.
use swym.Shared.{ℕ}
use swym.Rbtree.Store.{Side, left, right, opposite, black, red, RbRef, valid, Heap, Tx}
use swym.Rbtree.Runs.{Ends}
use swym.Rbtree.Shape.{Tree, join, Rep, Spine, parent_of}
use swym.Rbtree.Shape.Sides.{Rep-split}
use swym.Rbtree.Shape.Balance.{HasBlackRoot, rotation-Joined}
use swym.Rbtree.Rotate.{rotate_red_helper}
use swym.Rbtree.Rotate.Laws.{rotate_red_helper-Turned}
use swym.Rbtree.Rotate.Relink.{Turned, Rep-Orphan}
use swym.Rbtree.Insert.Colors.{Hung}

-- The red child `up` of the black node `self`, on the side `o`, is rotated above it.
pub rotate_red_helper-Hung :
    (tx : Tx) (o : Side) (self up : ℕ) (x y z : Tree) (path : Spine) (h : Heap) (p : RbRef)
    → Hung tx h path (join o self black (join o up red z y) x) p
    → HasBlackRoot y
    → Ends tx
        (Turned
          (parent_of path)
          (join (opposite o) up black (join (opposite o) self red x y) z)
          path
          up
          h)
        (rotate_red_helper (opposite o) tx self up (h.child (opposite o) up) h)
rotate_red_helper-Hung tx o self up x y z path h p w b =
    let (here, color, down, near) =
      Rep-split h (parent_of path) o self black (join o up red z y) x p w.rep in
    let (there, red_color, far, middle) =
      Rep-split h (valid self) o up red z y (h.child o self) down in
    let j = rotation-Joined tx path o self up black red black red z y x w.joined in
    rotate_red_helper-Turned tx (opposite o) self up x y z path (h.child (opposite o) up) h
      j.ordered j.inside w.ordered_path color near
      (Rep-Orphan h (valid up) y (h.child (opposite o) up) middle) b (twice o far)
      (let same = here in rw (← same) w.at)
  where
    twice :
        (o : Side)
        → Rep h (valid up) z (h.child o up)
        → Rep h (valid up) z (h.child (opposite (opposite o)) up)
    twice left r = r
    twice right r = r
