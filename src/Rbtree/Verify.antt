-- ===== src/Rbtree/Verify.antt =====
-- swym-rbtree/src/base.rs: the check of all of a tree's properties, with its assertions.
pub mod Measured
pub mod Laws
use swym.Shared.{
  ℕ, zero, suc, ◌+◌, ◌*◌, min, max, Bool, true, false, ◌||◌, not, Option, none, some, ltb, leb,
  ◌==◌, if◌then◌else◌,
}
use swym.Rbtree.Store.{
  left, right, RbRef, null, valid, Color, is_red, Tx, Call, panic, out_of_fuel, pure, ◌>>=◌, ◌>>◌,
  get, as_ref, as_ref_color, unwrap,
}

-- `Verify`; the bounds of the keys are called `least` and `greatest`.
pub record Verified : Type 0 where
  pub black_depth : ℕ
  pub min_depth : ℕ
  pub max_depth : ℕ
  pub least : Option ℕ
  pub greatest : Option ℕ

-- What a missing child counts for
abbrev pub no_child : Verified
no_child = record { black_depth = 1; min_depth = 1; max_depth = 1; least = none; greatest = none }

abbrev pub assert : Bool → Call (Unit {0})
assert true = pure tt
assert false = λ h. panic

-- left_verify.max.map(|m| m < self.key).unwrap_or(true), and the like for the right
abbrev pub is_below : Option ℕ → ℕ → Bool
is_below none k = true
is_below (some m) k = ltb m k

abbrev pub is_above : Option ℕ → ℕ → Bool
is_above none k = true
is_above (some m) k = ltb k m

abbrev pub or_key : Option ℕ → ℕ → Option ℕ
or_key none k = some k
or_key (some m) k = some m

abbrev pub verified : Color → ℕ → Verified → Verified → Verified
verified c k l r = record {
  black_depth = l.black_depth + (if is_red c then 0 else 1);
  min_depth = min l.min_depth r.min_depth + 1;
  max_depth = max l.max_depth r.max_depth + 1;
  least = or_key l.least k;
  greatest = or_key r.greatest k;
}

-- A child: a red node has no red child, and each child points back. `next` verifies the child.
abbrev pub verify_child : (ℕ → Call Verified) → Tx → ℕ → Color → RbRef → Call Verified
verify_child next tx this c null = pure no_child
verify_child next tx this c (valid child) = do
  pc ← as_ref_color tx child
  assert (not (is_red c) || not (is_red pc.1))
  p ← unwrap pc.0
  assert (p == this)
  next child

unfoldable pub verify_node : ℕ → Tx → ℕ → Call Verified
verify_node zero tx this = λ h. out_of_fuel
verify_node (suc fuel) tx this = do
  pc ← as_ref_color tx this
  l ← as_ref tx left this
  lv ← verify_child (verify_node fuel tx) tx this pc.1 l
  r ← as_ref tx right this
  rv ← verify_child (verify_node fuel tx) tx this pc.1 r
  assert (lv.black_depth == rv.black_depth)
  assert (is_below lv.greatest (tx.key this))
  assert (is_above rv.least (tx.key this))
  assert (
      leb (verified pc.1 (tx.key this) lv rv).max_depth
        ((verified pc.1 (tx.key this) lv rv).min_depth * 2))
  pure (verified pc.1 (tx.key this) lv rv)

-- `RBRoot::verify`
abbrev pub verify_root : ℕ → Tx → RbRef → Call (Unit {0})
verify_root fuel tx null = pure tt
verify_root fuel tx (valid root) = do v ← verify_node fuel tx root; pure tt

unfoldable pub verify : ℕ → Tx → Call (Unit {0})
unfolding verify_node
verify fuel tx = do p ← get tx (λ h. h.root); verify_root fuel tx p
