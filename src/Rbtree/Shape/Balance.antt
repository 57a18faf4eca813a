-- ===== src/Rbtree/Shape/Balance.antt =====
-- swym-rbtree: the colors of a tree, and of a path that a subtree is plugged into.
use swym.Shared.{ℕ, zero, suc, ◌≡◌, ◌||◌, ◌==◌, arith, refl, sym, ap, ◌∙◌}
use swym.Rbtree.Store.{Side, left, right, opposite, Color, black, red, Tx}
use swym.Rbtree.Shape.{
  Tree, leaf, node, join, has, Every, IsOrdered, IsRb, Spine, top, step, plug, Beside, Fits,
  IsOrderedPath,
}
use swym.Rbtree.Shape.Frame.{Every-imp}
use swym.Rbtree.Shape.Sides.{
  Beside-step, Beside-flip, IsOrdered-split, split-IsOrdered, Every-split, split-Every, has-join,
}

-- The color of the parent, for a subtree at the end of a path. The root is black, as if it hung below
-- a red node.
abbrev pub hole_color : Spine → Color
hole_color top = red
hole_color (step s a c sib up) = c

-- A subtree with `n` black nodes on each way down fits here.
abbrev pub IsRbPath : Spine → ℕ → Type 0
IsRbPath top n = Unit
IsRbPath (step s a black sib up) n = IsRb black n sib × IsRbPath up (suc n)
IsRbPath (step s a red sib up) n = IsRb red n sib × (hole_color up ≡ black) × IsRbPath up n

-- A tree whose root is not red
abbrev pub HasBlackRoot : Tree → Type 0
HasBlackRoot leaf = Unit
HasBlackRoot (node a c l r) = c ≡ black

-- Below a red parent, a tree has a black root; below a black parent, either will do.
pub IsRb-weaken : (n : ℕ) (t : Tree) → IsRb red n t → IsRb black n t
IsRb-weaken n leaf h = h
IsRb-weaken zero (node a black l r) h = h
IsRb-weaken (suc n) (node a black l r) h = h
IsRb-weaken n (node a red l r) h = absurd (cc)

pub IsRb-black_root : (n : ℕ) (t : Tree) → IsRb red n t → HasBlackRoot t
IsRb-black_root n leaf h = tt
IsRb-black_root n (node a black l r) h = refl
IsRb-black_root n (node a red l r) h = absurd (cc)

pub IsRb-below_red : (n : ℕ) (t : Tree) → IsRb black n t → HasBlackRoot t → IsRb red n t
IsRb-below_red n leaf h r = h
IsRb-below_red zero (node a black l r) h b = h
IsRb-below_red (suc n) (node a black l r) h b = h
IsRb-below_red n (node a red l r) h b = absurd (ground arith)

pub black-IsRb :
    (c : Color) (s : Side) (n a : ℕ) (x y : Tree)
    → IsRb black n x
    → IsRb black n y
    → IsRb c (suc n) (join s a black x y)
black-IsRb black left n a x y h i = (h, i)
black-IsRb black right n a x y h i = (i, h)
black-IsRb red left n a x y h i = (h, i)
black-IsRb red right n a x y h i = (i, h)

pub red-IsRb :
    (s : Side) (n a : ℕ) (x y : Tree)
    → IsRb red n x
    → IsRb red n y
    → IsRb black n (join s a red x y)
red-IsRb left zero a x y h i = (h, i)
red-IsRb right zero a x y h i = (i, h)
red-IsRb left (suc n) a x y h i = (h, i)
red-IsRb right (suc n) a x y h i = (i, h)

pub plug-IsRb :
    (up : Spine) (n : ℕ) (t : Tree)
    → IsRbPath up n
    → IsRb (hole_color up) n t
    → (m : ℕ) × IsRb red m (plug up t)
plug-IsRb top n t p h = (n, h)
plug-IsRb (step s a black sib up) n t p h =
    plug-IsRb up (suc n) (join s a black t sib) p.1 (black-IsRb (hole_color up) s n a t sib h p.0)
plug-IsRb (step s a red sib up) n t p h =
    plug-IsRb up n (join s a red t sib) p.2 (rw p.1 (red-IsRb s n a t sib h p.0))

-- The same nodes in a subtree are the same nodes in the tree.
pub plug-has :
    (b : ℕ) (up : Spine) (x y : Tree) → has b x ≡ has b y → has b (plug up x) ≡ has b (plug up y)
plug-has b top x y e = e
plug-has b (step s a c sib up) x y e = plug-has b up (join s a c x sib) (join s a c y sib) (
    has-join b s a c x sib
    ∙ ap (λ v. (a == b) || (v || has b sib)) e
    ∙ sym (has-join b s a c y sib))

-- One step up: the subtree with its parent and its sibling.
pub record Joined (tx : Tx) (up : Spine) (t : Tree) : Type 0 where
  pub ordered : IsOrdered tx t
  pub inside : Every (λ b. Fits tx up (tx.key b)) t

pub join-Joined :
    (tx : Tx) (s : Side) (a : ℕ) (c d : Color) (sib : Tree) (up : Spine) (t : Tree)
    → IsOrderedPath tx (step s a c sib up)
    → Joined tx (step s a c sib up) t
    → Joined tx up (join s a d t sib)
join-Joined tx s a c d sib up t o i = record {
  ordered = split-IsOrdered tx s a d t sib (record {
    near = Every-imp _ _ t (λ b g. g.0) i.inside;
    far = o.2;
    near_ordered = i.ordered;
    far_ordered = o.3;
  });
  inside =
      split-Every (λ b. Fits tx up (tx.key b)) s a d t sib o.0
        (Every-imp _ _ t (λ b g. g.1) i.inside) o.1;
}

-- A rotation keeps the order and the nodes: `a` over `b` becomes `b` over `a`.
pub rotation-Joined :
    (tx : Tx) (up : Spine) (s : Side) (a b : ℕ) (c d c' d' : Color) (x y z : Tree)
    → Joined tx up (join s a c (join s b d x y) z)
    → Joined tx up (join (opposite s) b c' (join (opposite s) a d' z y) x)
rotation-Joined tx up s a b c d c' d' x y z j =
    let o = IsOrdered-split tx s a c (join s b d x y) z j.ordered in
    let i = IsOrdered-split tx s b d x y o.near_ordered in
    let (b_near, x_near, y_near) =
      Every-split (λ k. Beside s (tx.key k) (tx.key a)) s b d x y o.near in
    let (fa, fb, fz) = Every-split (λ k. Fits tx up (tx.key k)) s a c (join s b d x y) z j.inside in
    let (gb, fx, fy) = Every-split (λ k. Fits tx up (tx.key k)) s b d x y fb in
    record {
      ordered = split-IsOrdered tx (opposite s) b c' (join (opposite s) a d' z y) x (record {
        near =
            split-Every (λ k. Beside (opposite s) (tx.key k) (tx.key b)) (opposite s) a d' z y
              (Beside-flip s _ _ b_near)
              (Every-imp _ _ z (λ k f. Beside-step (opposite s) _ _ _ f (Beside-flip s _ _ b_near))
                o.far)
              i.far;
        far = Every-imp _ _ x (λ k f. twice s _ _ f) i.near;
        near_ordered = split-IsOrdered tx (opposite s) a d' z y (record {
          near = o.far;
          far = Every-imp _ _ y (λ k f. twice s _ _ f) y_near;
          near_ordered = o.far_ordered;
          far_ordered = i.far_ordered;
        });
        far_ordered = i.near_ordered;
      });
      inside =
          split-Every (λ k. Fits tx up (tx.key k)) (opposite s) b c' (join (opposite s) a d' z y) x
            gb (split-Every (λ k. Fits tx up (tx.key k)) (opposite s) a d' z y fa fz fy) fx;
    }
  where
    twice : (s : Side) (i j : ℕ) → Beside s i j → Beside (opposite (opposite s)) i j
    twice left i j f = f
    twice right i j f = f

pub rotation-has :
    (k : ℕ) (s : Side) (a b : ℕ) (c d c' d' : Color) (x y z : Tree)
    → has k (join (opposite s) b c' (join (opposite s) a d' z y) x)
      ≡ has k (join s a c (join s b d x y) z)
rotation-has k left a b c d c' d' x y z = ground arith
rotation-has k right a b c d c' d' x y z = ground arith
