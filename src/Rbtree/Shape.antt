-- ===== src/Rbtree/Shape.antt =====
-- swym-rbtree: the trees that a heap of nodes stands for.
pub mod Frame
pub mod Sides
pub mod Balance
use swym.Shared.{ℕ, zero, suc, ◌+◌, ◌<◌, ◌≡◌, Bool, true, false, ◌||◌, ◌==◌, max}
use swym.Rbtree.Store.{Side, left, right, opposite, Color, black, red, RbRef, null, valid, Heap, Tx}

-- A node is named by its address.
pub data Tree : Type 0 where
  leaf : Tree
  node : ℕ → Color → Tree → Tree → Tree

-- A node with the subtree of one side first
abbrev pub join : Side → ℕ → Color → Tree → Tree → Tree
join left a c x y = node a c x y
join right a c x y = node a c y x

abbrev pub has : ℕ → Tree → Bool
has b leaf = false
has b (node a c l r) = (a == b) || (has b l || has b r)

abbrev pub depth : Tree → ℕ
depth leaf = 0
depth (node a c l r) = suc (max (depth l) (depth r))

abbrev pub Every : (ℕ → Type 0) → Tree → Type 0
Every P leaf = Unit
Every P (node a c l r) = P a × Every P l × Every P r

-- The tree that hangs at the link `p`, below the parent `up`: the links lead down through it, and each
-- node points back to its parent.
abbrev pub Rep : Heap → RbRef → Tree → RbRef → Type 0
Rep h up leaf p = p ≡ null
Rep h up (node a c l r) p =
    (p ≡ valid a)
    × (h.parent_color a ≡ (up, c))
    × Rep h (valid a) l (h.child left a)
    × Rep h (valid a) r (h.child right a)

-- The same, but for where the root of the tree points back to.
abbrev pub Orphan : Heap → Tree → RbRef → Type 0
Orphan h leaf p = p ≡ null
Orphan h (node a c l r) p =
    (p ≡ valid a) × Rep h (valid a) l (h.child left a) × Rep h (valid a) r (h.child right a)

-- A search tree
abbrev pub IsOrdered : Tx → Tree → Type 0
IsOrdered tx leaf = Unit
IsOrdered tx (node a c l r) =
    Every (λ b. tx.key b < tx.key a) l
    × Every (λ b. tx.key a < tx.key b) r
    × IsOrdered tx l
    × IsOrdered tx r

-- A red-black tree below a parent of the color `c`: no red node below a red one, and `n` black nodes
-- on every way down.
abbrev pub IsRb : Color → ℕ → Tree → Type 0
IsRb c n leaf = n ≡ 0
IsRb c zero (node a black l r) = false ≡ true
IsRb c (suc n) (node a black l r) = IsRb black n l × IsRb black n r
IsRb black n (node a red l r) = IsRb red n l × IsRb red n r
IsRb red n (node a red l r) = false ≡ true

-- The way from a subtree up to the root: at each node the side it came from, and the other subtree.
pub data Spine : Type 0 where
  top : Spine
  step : Side → ℕ → Color → Tree → Spine → Spine

abbrev pub plug : Spine → Tree → Tree
plug top t = t
plug (step s a c sib up) t = plug up (join s a c t sib)

abbrev pub parent_of : Spine → RbRef
parent_of top = null
parent_of (step s a c sib up) = valid a

abbrev pub Along : (ℕ → Type 0) → Spine → Type 0
Along P top = Unit
Along P (step s a c sib up) = P a × Every P sib × Along P up

-- The link `p` hangs at the end of the path.
abbrev pub At : Heap → Spine → RbRef → Type 0
At h top p = h.root ≡ p
At h (step s a c sib up) p =
    (h.child s a ≡ p)
    × (h.parent_color a ≡ (parent_of up, c))
    × Rep h (valid a) sib (h.child (opposite s) a)
    × At h up (valid a)

-- A key that belongs at the end of the path
abbrev pub Beside : Side → ℕ → ℕ → Type 0
Beside left k m = k < m
Beside right k m = m < k

abbrev pub Fits : Tx → Spine → ℕ → Type 0
Fits tx top k = Unit
Fits tx (step s a c sib up) k = Beside s k (tx.key a) × Fits tx up k

-- The nodes of a path, and the subtrees beside it, are in order.
abbrev pub IsOrderedPath : Tx → Spine → Type 0
IsOrderedPath tx top = Unit
IsOrderedPath tx (step s a c sib up) =
    Fits tx up (tx.key a)
    × Every (λ b. Fits tx up (tx.key b)) sib
    × Every (λ b. Beside (opposite s) (tx.key b) (tx.key a)) sib
    × IsOrdered tx sib
    × IsOrderedPath tx up
