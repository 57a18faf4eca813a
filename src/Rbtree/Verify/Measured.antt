-- ===== src/Rbtree/Verify/Measured.antt =====
-- swym-rbtree/src/base.rs: what the check of a tree measures of a red-black tree.
use swym.Shared.{
  ℕ, suc, ◌+◌, ◌*◌, ◌<◌, ◌≤◌, ◌≡◌, ◌==◌, true, Option, none, some, arith, refl, ap, leb, max, min,
}
use swym.Rbtree.Store.{Color, black, red, Tx}
use swym.Rbtree.Shape.{Tree, leaf, node, Every, IsOrdered}
use swym.Rbtree.Verify.{Verified, is_below, is_above, or_key, verified}

abbrev pub least_key : Tx → Tree → Option ℕ
least_key tx leaf = none
least_key tx (node a c l r) = or_key (least_key tx l) (tx.key a)

abbrev pub greatest_key : Tx → Tree → Option ℕ
greatest_key tx leaf = none
greatest_key tx (node a c l r) = or_key (greatest_key tx r) (tx.key a)

or_key-is_below :
    (o : Option ℕ) (m k : ℕ) → is_below o k ≡ true → m < k → is_below (or_key o m) k ≡ true
or_key-is_below none m k h l = ground arith
or_key-is_below (some x) m k h l = h

or_key-is_above :
    (o : Option ℕ) (m k : ℕ) → is_above o k ≡ true → k < m → is_above (or_key o m) k ≡ true
or_key-is_above none m k h l = ground arith
or_key-is_above (some x) m k h l = h

is_below-greatest_key :
    (tx : Tx) (t : Tree) (k : ℕ)
    → Every (λ b. tx.key b < k) t
    → is_below (greatest_key tx t) k ≡ true
is_below-greatest_key tx leaf k e = refl
is_below-greatest_key tx (node a c l r) k e =
    or_key-is_below (greatest_key tx r) (tx.key a) k (is_below-greatest_key tx r k e.2) e.0

is_above-least_key :
    (tx : Tx) (t : Tree) (k : ℕ) → Every (λ b. k < tx.key b) t → is_above (least_key tx t) k ≡ true
is_above-least_key tx leaf k e = refl
is_above-least_key tx (node a c l r) k e =
    or_key-is_above (least_key tx l) (tx.key a) k (is_above-least_key tx l k e.1) e.0

-- Below a black node a red one may stand, which makes a way down longer.
abbrev pub slack : Color → ℕ
slack black = 2
slack red = 1

-- What the check has measured of a subtree with `n` black nodes on each way down, below a node of the
-- color `c`
pub record Measured (tx : Tx) (c : Color) (n : ℕ) (t : Tree) (v : Verified) : Type 0 where
  pub black_depth : v.black_depth ≡ suc n
  pub least : v.least ≡ least_key tx t
  pub greatest : v.greatest ≡ greatest_key tx t
  pub shortest : suc n ≤ v.min_depth
  pub longest : v.max_depth ≤ n * 2 + slack c

-- The assertions about the two subtrees of a node, and what is measured of the node
pub record Passed (tx : Tx) (d : Color) (n a : ℕ) (c : Color) (l r : Tree) (x y : Verified)
    : Type 0 where
  pub same_depth : (x.black_depth == y.black_depth) ≡ true
  pub left_below : is_below x.greatest (tx.key a) ≡ true
  pub right_above : is_above y.least (tx.key a) ≡ true
  pub short : leb (max x.max_depth y.max_depth + 1) ((min x.min_depth y.min_depth + 1) * 2) ≡ true
  pub measured : Measured tx d n (node a c l r) (verified c (tx.key a) x y)

module _ (tx : Tx) (a : ℕ) (l r : Tree) (x y : Verified) where
  pub black-Passed :
      (d : Color) (m : ℕ)
      → IsOrdered tx (node a black l r)
      → Measured tx black m l x
      → Measured tx black m r y
      → Passed tx d (suc m) a black l r x y
  black-Passed d m o w z = record {
    same_depth = ground (arith, w.black_depth, z.black_depth);
    left_below = rw w.greatest (is_below-greatest_key tx l (tx.key a) o.0);
    right_above = rw z.least (is_above-least_key tx r (tx.key a) o.1);
    short = ground (arith, w.shortest, z.shortest, w.longest, z.longest);
    measured = record {
      black_depth = omega (arith, w.black_depth);
      least = ap (λ q. or_key q (tx.key a)) w.least;
      greatest = ap (λ q. or_key q (tx.key a)) z.greatest;
      shortest = omega (arith, w.shortest, z.shortest);
      longest = longest d;
    };
  }
    where
      longest : (d : Color) → max x.max_depth y.max_depth + 1 ≤ suc m * 2 + slack d
      longest black = omega (arith, w.longest, z.longest)
      longest red = omega (arith, w.longest, z.longest)

  pub red-Passed :
      (n : ℕ)
      → IsOrdered tx (node a red l r)
      → Measured tx red n l x
      → Measured tx red n r y
      → Passed tx black n a red l r x y
  red-Passed n o w z = record {
    same_depth = ground (arith, w.black_depth, z.black_depth);
    left_below = rw w.greatest (is_below-greatest_key tx l (tx.key a) o.0);
    right_above = rw z.least (is_above-least_key tx r (tx.key a) o.1);
    short = ground (arith, w.shortest, z.shortest, w.longest, z.longest);
    measured = record {
      black_depth = omega (arith, w.black_depth);
      least = ap (λ q. or_key q (tx.key a)) w.least;
      greatest = ap (λ q. or_key q (tx.key a)) z.greatest;
      shortest = omega (arith, w.shortest, z.shortest);
      longest = omega (arith, w.longest, z.longest);
    };
  }
