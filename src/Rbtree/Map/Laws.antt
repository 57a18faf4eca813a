-- ===== src/Rbtree/Map/Laws.antt =====
-- swym-rbtree/src/lib.rs: the insertion into a map.
use swym.Shared.{
  ℕ, zero, suc, ◌+◌, ◌≤◌, ◌≡◌, ◌≢◌, ◌==◌, ◌||◌, if◌then◌else◌, List, arith, refl, sym, ap, ◌∙◌,
}
use swym.Rbtree.Store.{Side, left, right, Color, black, red, null, valid, Heap, Tx, tick}
use swym.Rbtree.Runs.{Ends, ended, last_write, chain}
use swym.Rbtree.Shape.{
  Tree, leaf, node, join, has, depth, Rep, IsOrdered, IsRb, Spine, top, step, plug,
}
use swym.Rbtree.Shape.Frame.{Along-imp, Same, Rep-frame, At-frame, Every-trivial}
use swym.Rbtree.Shape.Sides.{has-join}
use swym.Rbtree.Shape.Balance.{IsRbPath, hole_color}
use swym.Rbtree.Rotate.Relink.{Fits-apart_nodes}
use swym.Rbtree.Find.{VacantLocation, empty, below, vacant}
use swym.Rbtree.Find.Laws.{Found, tree_empty, place}
use swym.Rbtree.Insert
use swym.Rbtree.Insert.{
  RepairResult, new_root, publish_root, root_unchanged, new_node, repair_root, insert_at,
}
use swym.Rbtree.Insert.Fixed.{Fixed, root_of}
use swym.Rbtree.Insert.Climb.{steps}
use swym.Rbtree.Insert.First.{new_leaf}
use swym.Rbtree.Insert.Fixup.{insert_fixup-Fixed}

-- A map: a red-black tree hangs at the root.
pub record IsMap (tx : Tx) (h : Heap) (t : Tree) : Type 0 where
  pub rep : Rep h null t h.root
  pub ordered : IsOrdered tx t
  pub balanced : (n : ℕ) × IsRb red n t

-- A balanced tree is balanced around each of its places.
unjoin_black :
    (s : Side) (c : Color) (n a : ℕ) (x y : Tree)
    → IsRb c n (join s a black x y)
    → (m : ℕ) × (n ≡ suc m) × IsRb black m x × IsRb black m y
unjoin_black left black zero a x y h = absurd (cc)
unjoin_black left red zero a x y h = absurd (cc)
unjoin_black right black zero a x y h = absurd (cc)
unjoin_black right red zero a x y h = absurd (cc)
unjoin_black left black (suc n) a x y h = (n, refl, h.0, h.1)
unjoin_black left red (suc n) a x y h = (n, refl, h.0, h.1)
unjoin_black right black (suc n) a x y h = (n, refl, h.1, h.0)
unjoin_black right red (suc n) a x y h = (n, refl, h.1, h.0)

unjoin_red :
    (s : Side) (c : Color) (n a : ℕ) (x y : Tree)
    → IsRb c n (join s a red x y)
    → (c ≡ black) × IsRb red n x × IsRb red n y
unjoin_red left red zero a x y h = absurd (cc)
unjoin_red left red (suc n) a x y h = absurd (cc)
unjoin_red right red zero a x y h = absurd (cc)
unjoin_red right red (suc n) a x y h = absurd (cc)
unjoin_red left black zero a x y h = (refl, h.0, h.1)
unjoin_red left black (suc n) a x y h = (refl, h.0, h.1)
unjoin_red right black zero a x y h = (refl, h.1, h.0)
unjoin_red right black (suc n) a x y h = (refl, h.1, h.0)

unplug-IsRb :
    (up : Spine) (m : ℕ) (t : Tree)
    → IsRb red m (plug up t)
    → (n : ℕ) × IsRbPath up n × IsRb (hole_color up) n t
unplug-IsRb top m t h = (m, tt, h)
unplug-IsRb (step s a black sib up) m t h =
    let (n, path, i) = unplug-IsRb up m (join s a black t sib) h in
    let (n', same, inner, beside) = unjoin_black s (hole_color up) n a t sib i in
    (n', (beside, rw (← same) path), inner)
unplug-IsRb (step s a red sib up) m t h =
    let (n, path, i) = unplug-IsRb up m (join s a red t sib) h in
    let (color, inner, beside) = unjoin_red s (hole_color up) n a t sib i in
    (n, (beside, color, path), inner)

steps-depth : (up : Spine) (t : Tree) → steps up + depth t ≤ depth (plug up t)
steps-depth top t = omega arith
steps-depth (step left a c sib up) t = omega (arith, steps-depth up (node a c t sib))
steps-depth (step right a c sib up) t = omega (arith, steps-depth up (node a c sib t))

plug-has_leaf :
    (b n : ℕ) (up : Spine) (t : Tree)
    → has b (plug up (node n red leaf leaf)) ≡ ((n == b) || has b (plug up leaf))
plug-has_leaf b n top t = ground arith
plug-has_leaf b n (step s a c sib up) t =
    has_or b n up (join s a c (new_leaf n) sib) (join s a c leaf sib) (
      has-join b s a c (new_leaf n) sib
      ∙ (ground arith ∙ ap (λ v. (n == b) || v) (sym (has-join b s a c leaf sib))))
  where
    has_or :
        (b n : ℕ) (up : Spine) (x y : Tree)
        → has b x ≡ ((n == b) || has b y)
        → has b (plug up x) ≡ ((n == b) || has b (plug up y))
    has_or b n top x y e = e
    has_or b n (step s a c sib up) x y e = has_or b n up (join s a c x sib) (join s a c y sib) (
        has-join b s a c x sib
        ∙ (ground (arith, e) ∙ ap (λ v. (n == b) || v) (sym (has-join b s a c y sib))))

-- The new node touches no node of the tree.
new_node-Same : (n : ℕ) (value : List ℕ) (h : Heap) (b : ℕ) → n ≢ b → Same h (new_node n value h) b
new_node-Same n value h b m = record { children = λ t. ground arith; parent_color = ground arith }

-- A search leaves the map as it is.
pub searched-IsMap :
    (tx : Tx) (h g : Heap) (t : Tree) → g ≡ record h { ops = g.ops } → IsMap tx h t → IsMap tx g t
searched-IsMap tx h g t e m = record {
  rep = rw (ap (λ x. x.root) e) (
      Rep-frame h g null t h.root
        (Every-trivial _ t λ b. record {
          children = λ s. ap (λ x. x.child s b) e;
          parent_color = ap (λ x. x.parent_color b) e;
        })
        m.rep);
  ordered = m.ordered;
  balanced = m.balanced;
}

-- A node was added to the map.
pub record Added (tx : Tx) (n : ℕ) (value : List ℕ) (t : Tree) (h : Heap) (g : Heap) : Type 0 where
  pub tree : Tree
  pub map : IsMap tx g tree
  pub members : (b : ℕ) → has b tree ≡ ((n == b) || has b t)
  pub values : g.value ≡ (λ b. if n == b then value else h.value b)

module _ (tx : Tx) (n : ℕ) (value : List ℕ) (t : Tree) (h : Heap) where
  repair_root-Added :
      (r : RepairResult) (g : Heap)
      → Fixed tx (λ b. (n == b) || has b t) (new_node n value h) r g
      → Ends tx (λ u g'. Added tx n value t h g') (repair_root tx r g)
  repair_root-Added r g f = by_result r f.rep
    where
      rooted :
          (a : ℕ)
          → Rep g null f.tree (valid a)
          → Added tx n value t h (tick (record g { root = valid a }))
      rooted a rep = record {
        tree = f.tree;
        map = record {
          rep =
              Rep-frame g (tick (record g { root = valid a })) null f.tree (valid a)
                (Every-trivial _ f.tree λ b. record { children = λ s. refl; parent_color = refl })
                rep;
          ordered = f.ordered;
          balanced = f.balanced;
        };
        members = f.members;
        values = f.same_values;
      }

      by_result :
          (r : RepairResult)
          → Rep g null f.tree (root_of r g)
          → Ends tx (λ u g'. Added tx n value t h g') (repair_root tx r g)
      by_result (new_root a) rep = last_write _ _ (rooted a rep)
      by_result (publish_root a) rep = last_write _ _ (rooted a rep)
      by_result root_unchanged rep = ended (record {
        tree = f.tree;
        map = record { rep = rep; ordered = f.ordered; balanced = f.balanced };
        members = f.members;
        values = f.same_values;
      })

  -- The insertion at the place that a search has found
  pub insert-Added :
      (fuel : ℕ) (l : VacantLocation)
      → IsMap tx h t
      → Found tx (tx.key n) t h (vacant l)
      → depth t ≤ fuel
      → Ends tx (λ u g. Added tx n value t h g) (Insert.insert fuel tx n value l h)
  unfolding Insert.insert
  insert-Added fuel empty m (tree_empty e r) enough = last_write _ _ (record {
    tree = node n black leaf leaf;
    map = record {
      rep = (refl, ground arith, ground arith, ground arith);
      ordered = (tt, tt, tt, tt);
      balanced = (1, (refl, refl));
    };
    members = λ b. rw e (ground arith);
    values = refl;
  })
  insert-Added fuel (below _ _) m (place s a c sib up whole fits ordered at absent) enough =
      let (i, path, bottom) =
        unplug-IsRb (step s a c sib up) m.balanced.0 leaf (rw (← whole) at m.balanced.1) in
      let away = Fits-apart_nodes tx (step s a c sib up) n ordered fits in
      chain
        (insert_fixup-Fixed tx (λ b. (n == b) || has b t) (new_node n value h) n a sib fuel s c up
          (new_node n value h)
          (record {
            at =
                At-frame h (new_node n value h) (step s a c sib up) null refl
                  (Along-imp _ _ (step s a c sib up) (new_node-Same n value h) away) at;
            ordered_path = ordered;
            fits = fits;
            path = rw bottom at path;
            no_children = λ s. ground arith;
          })
          (ground arith) refl
          (λ b. plug-has_leaf b n (step s a c sib up) leaf ∙ ap (λ v. (n == b) || has b v) whole)
          (omega (arith, enough, ap depth whole, steps-depth (step s a c sib up) leaf)))
        λ r g f. repair_root-Added r g f
