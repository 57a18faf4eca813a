-- ===== src/Rbtree/Verify/Laws.antt =====
-- swym-rbtree/src/base.rs: the check of a tree, and the trees that it finds in order.
use swym.Shared.{
  ℕ, zero, suc, ◌+◌, ◌*◌, ◌≤◌, ◌≡◌, true, arith, refl, sym, ap, ◌∙◌, inl, inr, Bool-cases, ==_refl,
  not, ◌||◌,
}
use swym.Rbtree.Store.{left, right, Color, black, red, is_red, RbRef, null, valid, Heap, Tx, get}
use swym.Rbtree.Runs.{Ends, ended, conflicted, chain, weaken}
use swym.Rbtree.Shape.{Tree, leaf, node, depth, Rep, IsOrdered, IsRb}
use swym.Rbtree.Shape.Frame.{Same, Rep-frame, Every-trivial}
use swym.Rbtree.Verify.{Verified, verify_child, verify_node, verify_root, verify}
use swym.Rbtree.Map.Laws.{IsMap, searched-IsMap}
use swym.Rbtree.Verify.Measured.{Measured, Passed, slack, black-Passed, red-Passed}

abbrev with_ops : ℕ → Heap → Heap
with_ops n h = record h { ops = n }

-- A heap of which cells have only been read
abbrev Kept : Heap → Heap → Type 0
Kept h g = g ≡ with_ops g.ops h

reads :
    {T : Type 0} (tx : Tx) (f : Heap → T) (h : Heap)
    → Ends tx (λ y g. (y ≡ f h) × Kept h g) (get tx f h)
unfolding get
reads tx f h = elim (Bool-cases (tx.conflicts h.ops)) [
  | inl c ↦ rw c (conflicted h.ops c)
  | inr c ↦ rw c (ended (refl, refl))
]

Kept-trans : (h g k : Heap) → Kept h g → Kept g k → Kept h k
Kept-trans h g k p q = q ∙ ap (with_ops k.ops) p

Kept-Same : (h g : Heap) → Kept h g → (b : ℕ) → Same h g b
Kept-Same h g e b = record {
  children = λ s. ap (λ x. x.child s b) e;
  parent_color = ap (λ x. x.parent_color b) e;
}

Rep-Kept :
    (h g : Heap) (up : RbRef) (t : Tree) (p q : RbRef)
    → Kept h g
    → q ≡ p
    → Rep h up t p
    → Rep g up t q
Rep-Kept h g up t p q same e r =
    rw e (Rep-frame h g up t p (Every-trivial _ t (Kept-Same h g same)) r)

module _ (tx : Tx) where
  -- The check of a subtree passes, and writes nothing.
  abbrev Checked : Color → ℕ → Tree → Heap → Verified → Heap → Type 0
  Checked c n t h v g = Measured tx c n t v × Kept h g

  abbrev ChildChecked : ℕ → ℕ → Color → ℕ → Tree → Type 0
  ChildChecked fuel a c n t =
      (p : RbRef) (h : Heap)
      → Rep h (valid a) t p
      → Ends tx (Checked c n t h) (verify_child (verify_node fuel tx) tx a c p h)

  verify_node-Checked :
      (fuel a : ℕ) (c d : Color) (m n : ℕ) (l r : Tree) (up : RbRef) (h : Heap)
      → ChildChecked fuel a c m l
      → ChildChecked fuel a c m r
      → ((x y : Verified) → Measured tx c m l x → Measured tx c m r y → Passed tx d n a c l r x y)
      → Rep h up (node a c l r) (valid a)
      → Ends tx (Checked d n (node a c l r) h) (verify_node (suc fuel) tx a h)
  unfolding verify_node
  verify_node-Checked fuel a c d m n l r up h check_l check_r combine rep =
      chain (reads tx (λ h. h.parent_color a) h) λ pc g0 w0.
        rw (w0.0, rep.1)
          (chain (reads tx (λ h. h.child left a) g0) λ p g1 w1.
            let s1 = Kept-trans h g0 g1 w0.1 w1.1 in
            chain
              (check_l p g1 (
                Rep-Kept h g1 (valid a) l (h.child left a) p s1
                  (w1.0 ∙ (Kept-Same h g0 w0.1 a).children left) rep.2))
              λ x g2 w2.
                let s2 = Kept-trans h g1 g2 s1 w2.1 in
                chain (reads tx (λ h. h.child right a) g2) λ q g3 w3.
                  let s3 = Kept-trans h g2 g3 s2 w3.1 in
                  chain
                    (check_r q g3 (
                      Rep-Kept h g3 (valid a) r (h.child right a) q s3
                        (w3.0 ∙ (Kept-Same h g2 s2 a).children right) rep.3))
                    λ y g4 w4.
                      let s4 = Kept-trans h g3 g4 s3 w4.1 in
                      let w = combine x y w2.0 w4.0 in
                      rw (w.same_depth, w.left_below, w.right_above, w.short)
                        (ended (w.measured, s4)))

  not_red_twice : (c : Color) → (not (is_red c) || true) ≡ true
  not_red_twice black = refl
  not_red_twice red = refl

  -- From a node to its child
  verify_child-ChildChecked :
      (fuel a b : ℕ) (c k : Color) (n : ℕ) (x y : Tree)
      → (not (is_red c) || not (is_red k)) ≡ true
      → ((g : Heap)
          → Rep g (valid a) (node b k x y) (valid b)
          → Ends tx (Checked c n (node b k x y) g) (verify_node fuel tx b g))
      → ChildChecked fuel a c n (node b k x y)
  verify_child-ChildChecked fuel a b c k n x y allowed check p h rep =
      let here = rep.0 in
      rw here (
        chain (reads tx (λ h. h.parent_color b) h) λ pc g w.
          rw (w.0, rep.1, allowed, ==_refl a)
            (weaken (check g (Rep-Kept h g (valid a) (node b k x y) p (valid b) w.1 (sym here) rep))
              λ v g2 z. (z.0, Kept-trans h g g2 w.1 z.1)))

  leaf-ChildChecked : (fuel a : ℕ) (c : Color) (n : ℕ) → n ≡ 0 → ChildChecked fuel a c n leaf
  leaf-ChildChecked fuel a c n i p h rep =
      let none = rep in
      rw none (
        ended (
          record {
            black_depth = omega (arith, i);
            least = refl;
            greatest = refl;
            shortest = omega (arith, i);
            longest = at_least c;
          },
          refl,
        ))
    where
      at_least : (c : Color) → 1 ≤ n * 2 + slack c
      at_least black = omega arith
      at_least red = omega arith

  child-ChildChecked :
      (fuel : ℕ) (t : Tree) (a : ℕ) (c : Color) (n : ℕ)
      → IsOrdered tx t
      → IsRb c n t
      → depth t ≤ fuel
      → ChildChecked fuel a c n t
  child-ChildChecked fuel leaf a c n o i enough = leaf-ChildChecked fuel a c n i
  child-ChildChecked zero (node b k x y) a c n o i enough = absurd (omega (arith, enough))
  child-ChildChecked (suc fuel) (node b black x y) a c zero o i enough = absurd (ground (arith, i))
  child-ChildChecked (suc fuel) (node b black x y) a c (suc m) o i enough =
      verify_child-ChildChecked (suc fuel) a b c black (suc m) x y (not_red_twice c) λ g rep.
        verify_node-Checked fuel b black c m (suc m) x y (valid a) g
          (child-ChildChecked fuel x b black m o.2 i.0 (omega (arith, enough)))
          (child-ChildChecked fuel y b black m o.3 i.1 (omega (arith, enough)))
          (λ v w. black-Passed tx b x y v w c m o) rep
  child-ChildChecked (suc fuel) (node b red x y) a black n o i enough =
      verify_child-ChildChecked (suc fuel) a b black red n x y refl λ g rep.
        verify_node-Checked fuel b red black n n x y (valid a) g
          (child-ChildChecked fuel x b red n o.2 i.0 (omega (arith, enough)))
          (child-ChildChecked fuel y b red n o.3 i.1 (omega (arith, enough)))
          (λ v w. red-Passed tx b x y v w n o) rep
  child-ChildChecked (suc fuel) (node b red x y) a red n o i enough = absurd (ground (arith, i))

  verify_root-Kept :
      (fuel : ℕ) (t : Tree) (n : ℕ) (p : RbRef) (h : Heap)
      → Rep h null t p
      → IsOrdered tx t
      → IsRb red n t
      → depth t ≤ fuel
      → Ends tx (λ u g. Kept h g) (verify_root fuel tx p h)
  verify_root-Kept fuel leaf n p h rep o i enough = let none = rep in rw none (ended refl)
  verify_root-Kept zero (node b k x y) n p h rep o i enough = absurd (omega (arith, enough))
  verify_root-Kept (suc fuel) (node b red x y) n p h rep o i enough = absurd (ground (arith, i))
  verify_root-Kept (suc fuel) (node b black x y) zero p h rep o i enough =
      absurd (ground (arith, i))
  verify_root-Kept (suc fuel) (node b black x y) (suc m) p h rep o i enough =
      let here = rep.0 in
      rw here (
        chain
          (verify_node-Checked fuel b black red m (suc m) x y null h
            (child-ChildChecked fuel x b black m o.2 i.0 (omega (arith, enough)))
            (child-ChildChecked fuel y b black m o.3 i.1 (omega (arith, enough)))
            (λ v w. black-Passed tx b x y v w red m o) (rw here at rep))
          λ v g z. ended z.1)

  -- The check of a map, with at least as many rounds as its tree is deep, ends in an access that
  -- conflicts, or it returns: none of its assertions fails, and the map is as it was.
  pub verify-IsMap :
      (fuel : ℕ) (t : Tree) (h : Heap)
      → IsMap tx h t
      → depth t ≤ fuel
      → Ends tx (λ u g. IsMap tx g t) (verify fuel tx h)
  unfolding verify
  verify-IsMap fuel t h m enough = chain (reads tx (λ h. h.root) h) λ p g w.
      weaken
        (verify_root-Kept fuel t m.balanced.0 p g (Rep-Kept h g null t h.root p w.1 w.0 m.rep)
          m.ordered m.balanced.1 enough)
        λ u k z. searched-IsMap tx h k t (Kept-trans h g k w.1 z) m
