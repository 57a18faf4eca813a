-- ===== src/Rbtree/Find/Laws.antt =====
-- swym-rbtree/src/base.rs: what a search returns.
use swym.Shared.{
  ℕ, zero, suc, ◌<◌, ◌≤◌, ◌≡◌, ◌≢◌, true, arith, refl, ◌∙◌, inl, inr, ltb, Bool-cases, ltb→lt,
}
use swym.Rbtree.Store.{Side, left, right, RbRef, null, valid, Heap, Tx, Color, tick}
use swym.Rbtree.Runs.{Ends, ended, read, weaken}
use swym.Rbtree.Shape.{
  Tree, leaf, node, has, depth, Every, Rep, IsOrdered, Spine, top, step, plug, parent_of, Along, At,
  Fits, IsOrderedPath,
}
use swym.Rbtree.Shape.Frame.{
  Every-both, Every-trivial, Along-trivial, Fits-apart, Same, Rep-frame, At-frame,
}
use swym.Rbtree.Find.{
  empty, below, Location, vacant, occupied, next_round, find_impl, find_root, location,
}

-- What a search in a tree finds: a node of the tree with the key; or the place of the key, at the end
-- of a path of the tree, where nothing hangs.
pub data Found (tx : Tx) (key : ℕ) (t : Tree) (h : Heap) : Location → Type 0 where
  hit : (a : ℕ) → tx.key a ≡ key → has a t ≡ true → Found tx key t h (occupied a)
  tree_empty : t ≡ leaf → h.root ≡ null → Found tx key t h (vacant empty)
  place :
      (s : Side) (a : ℕ) (c : Color) (sib : Tree) (up : Spine)
      → plug (step s a c sib up) leaf ≡ t
      → Fits tx (step s a c sib up) key
      → IsOrderedPath tx (step s a c sib up)
      → At h (step s a c sib up) null
      → Every (λ b. tx.key b ≢ key) t
      → Found tx key t h (vacant (below s a))

-- A search writes nothing: it only counts its accesses.
pub record Searched (tx : Tx) (key : ℕ) (t : Tree) (h : Heap) (l : Location) (g : Heap)
    : Type 0 where
  pub found : Found tx key t g l
  pub unchanged : g ≡ record h { ops = g.ops }

has-plug : (b : ℕ) (up : Spine) (t : Tree) → has b t ≡ true → has b (plug up t) ≡ true
has-plug b top t h = h
has-plug b (step left a c sib up) t h = has-plug b up (node a c t sib) (ground arith)
has-plug b (step right a c sib up) t h = has-plug b up (node a c sib t) (ground arith)

pub Every-plug :
    (P : ℕ → Type 0) (up : Spine) (t : Tree) → Along P up → Every P t → Every P (plug up t)
Every-plug P top t e f = f
Every-plug P (step left a c sib up) t e f = Every-plug P up (node a c t sib) e.2 (e.0, f, e.1)
Every-plug P (step right a c sib up) t e f = Every-plug P up (node a c sib t) e.2 (e.0, e.1, f)

module _ (tx : Tx) (key : ℕ) (t : Tree) where
  -- Where a search stands: at a subtree of the tree.
  record Here (h : Heap) (up : Spine) (x : Tree) (p : RbRef) : Type 0 where
    whole : plug up x ≡ t
    rep : Rep h (parent_of up) x p
    at : At h up p
    ordered : IsOrdered tx x
    ordered_path : IsOrderedPath tx up
    inside : Every (λ b. Fits tx up (tx.key b)) x
    fits : Fits tx up key

  go_left :
      (h : Heap) (up : Spine) (a : ℕ) (c : Color) (l r : Tree)
      → Here h up (node a c l r) (valid a)
      → key < tx.key a
      → Here h (step left a c r up) l (h.child left a)
  go_left h up a c l r w small = record {
    whole = w.whole;
    rep = w.rep.2;
    at = (refl, w.rep.1, w.rep.3, w.at);
    ordered = w.ordered.2;
    ordered_path = (w.inside.0, w.inside.2, w.ordered.1, w.ordered.3, w.ordered_path);
    inside = Every-both _ _ l w.ordered.0 w.inside.1;
    fits = (small, w.fits);
  }

  go_right :
      (h : Heap) (up : Spine) (a : ℕ) (c : Color) (l r : Tree)
      → Here h up (node a c l r) (valid a)
      → tx.key a < key
      → Here h (step right a c l up) r (h.child right a)
  go_right h up a c l r w large = record {
    whole = w.whole;
    rep = w.rep.3;
    at = (refl, w.rep.1, w.rep.2, w.at);
    ordered = w.ordered.3;
    ordered_path = (w.inside.0, w.inside.1, w.ordered.0, w.ordered.2, w.ordered_path);
    inside = Every-both _ _ r w.ordered.1 w.inside.2;
    fits = (large, w.fits);
  }

  Here-tick : (h : Heap) (up : Spine) (x : Tree) (p : RbRef) → Here h up x p → Here (tick h) up x p
  Here-tick h up x p w = record {
    whole = w.whole;
    rep = Rep-frame h (tick h) (parent_of up) x p (Every-trivial _ x λ b. untouched b) w.rep;
    at = At-frame h (tick h) up p refl (Along-trivial _ up λ b. untouched b) w.at;
    ordered = w.ordered;
    ordered_path = w.ordered_path;
    inside = w.inside;
    fits = w.fits;
  }
    where
      untouched : (b : ℕ) → Same h (tick h) b
      untouched b = record { children = λ s. refl; parent_color = refl }

  child-Found :
      (fuel : ℕ) (a : ℕ) (h : Heap) (s : Side) (c : Color) (sib : Tree) (up : Spine) (x : Tree)
      (p : RbRef)
      → ((b : ℕ) (d : Color) (y z : Tree)
          → Here (tick h) (step s a c sib up) (node b d y z) (valid b)
          → depth (node b d y z) ≤ fuel
          → Ends tx (Searched tx key t (tick h)) (find_impl fuel tx key b (tick h)))
      → Here h (step s a c sib up) x p
      → depth x ≤ fuel
      → Ends tx (Searched tx key t h) (next_round s a p (find_impl fuel tx key) (tick h))
  child-Found fuel a h s c sib up leaf p next w enough =
      let nothing = w.rep in
      rw nothing (
        ended (record {
          found = place s a c sib up w.whole w.fits w.ordered_path (rw nothing at w.at) (
              rw (← w.whole) (
                Every-plug _ (step s a c sib up) leaf
                  (Fits-apart tx (step s a c sib up) key w.ordered_path w.fits) tt));
          unchanged = refl;
        }))
  child-Found fuel a h s c sib up (node b d y z) p next w enough =
      let there = w.rep.0 in
      rw there (
        weaken
          (next b d y z (Here-tick h (step s a c sib up) (node b d y z) (valid b) (rw there at w))
            enough)
          (λ l g r. record { found = r.found; unchanged = r.unchanged }))

  find_impl-Found :
      (fuel : ℕ) (h : Heap) (up : Spine) (a : ℕ) (c : Color) (l r : Tree)
      → Here h up (node a c l r) (valid a)
      → depth (node a c l r) ≤ fuel
      → Ends tx (Searched tx key t h) (find_impl fuel tx key a h)
  unfolding find_impl
  find_impl-Found zero h up a c l r w enough = absurd (omega arith)
  find_impl-Found (suc fuel) h up a c l r w enough = elim (Bool-cases (ltb key (tx.key a))) [
    | inl small ↦ rw small (
        read _ _ _ (
          child-Found fuel a h left c r up l (h.child left a)
            (λ b d y z. find_impl-Found fuel (tick h) (step left a c r up) b d y z)
            (go_left h up a c l r w (ltb→lt _ _ small)) (omega arith)))
    | inr not_small ↦ elim (Bool-cases (ltb (tx.key a) key)) [
      | inl large ↦
          rw (not_small, large)
            (read _ _ _ (
              child-Found fuel a h right c l up r (h.child right a)
                (λ b d y z. find_impl-Found fuel (tick h) (step right a c l up) b d y z)
                (go_right h up a c l r w (ltb→lt _ _ large)) (omega arith)))
      | inr not_large ↦
          rw (not_small, not_large)
            (ended (record {
              found =
                  hit a (ground arith)
                    (rw (← w.whole) (has-plug a up (node a c l r) (ground arith)));
              unchanged = refl;
            }))
    ]
  ]

root-Found :
    (fuel : ℕ) (tx : Tx) (key : ℕ) (t : Tree) (h : Heap) (p : RbRef)
    → h.root ≡ p
    → Rep h null t p
    → IsOrdered tx t
    → depth t ≤ fuel
    → Ends tx (Searched tx key t h) (find_root fuel tx key p (tick h))
root-Found fuel tx key leaf h p q r o enough =
    rw r (ended (record { found = tree_empty refl (q ∙ r); unchanged = refl }))
root-Found fuel tx key (node a c x y) h p q r o enough =
    let here : Here tx key (node a c x y) (tick h) top (node a c x y) (valid a) = record {
      whole = refl;
      rep = (refl, r.1, r.2, r.3);
      at = q ∙ r.0;
      ordered = o;
      ordered_path = tt;
      inside = Every-trivial _ (node a c x y) λ b. tt;
      fits = tt;
    } in
    let there = r.0 in
    rw there (
      weaken (find_impl-Found tx key (node a c x y) fuel (tick h) top a c x y here enough)
        (λ l g r. record { found = r.found; unchanged = r.unchanged }))

-- A search in a search tree, with at least as many rounds as the tree is deep, ends in an access that
-- conflicts, or returns a node of the tree that has the key, if there is one; else a place where
-- nothing hangs and where the key belongs. It writes nothing.
pub location-Found :
    (fuel : ℕ) (tx : Tx) (key : ℕ) (t : Tree) (h : Heap)
    → Rep h null t h.root
    → IsOrdered tx t
    → depth t ≤ fuel
    → Ends tx (Searched tx key t h) (location fuel tx key h)
unfolding location
location-Found fuel tx key t h r o enough =
    read _ _ _ (root-Found fuel tx key t h h.root refl r o enough)
