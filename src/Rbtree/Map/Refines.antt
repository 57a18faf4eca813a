-- ===== src/Rbtree/Map/Refines.antt =====
-- swym-rbtree/src/lib.rs: the lookup and the insertion are those of a finite map.
use swym.Shared.{
  ℕ, ◌≤◌, ◌≡◌, ◌==◌, ◌||◌, if◌then◌else◌, true, List, Option, none, some, arith, refl, sym, ap, ◌∙◌,
  Bool-cases, inl, inr,
}
use swym.Rbtree.Store.{Heap, Tx, tick, null}
use swym.Rbtree.Runs.{Ends, ended, read, write, chain, weaken}
use swym.Rbtree.Shape.{Tree, has, depth}
use swym.Rbtree.Shape.Frame.{Rep-frame, Every-trivial}
use swym.Rbtree.Find.{VacantLocation, Location, vacant, occupied}
use swym.Rbtree.Find.Laws.{Found, hit, tree_empty, place, location-Found}
use swym.Rbtree.Map.{get_at, get_key, insert_at, insert, with_value, replace_value}
use swym.Rbtree.Map.Laws.{IsMap, searched-IsMap, insert-Added}
use swym.Rbtree.Map.View.{lookup, lookup-none, lookup-has, lookup-overwritten}

-- The map as it was, and the value of a key in it
pub record Looked (tx : Tx) (key : ℕ) (t : Tree) (h : Heap) (r : Option (List ℕ)) (g : Heap)
    : Type 0 where
  pub map : IsMap tx g t
  pub same_values : g.value ≡ h.value
  pub result : r ≡ lookup tx h.value t key

-- A map in which the key of the node `n` has the value, and every other key the value it had.
pub record Inserted (tx : Tx) (n : ℕ) (value : List ℕ) (t : Tree) (h : Heap) (r : Option (List ℕ))
    (g : Heap) : Type 0 where
  pub tree : Tree
  pub map : IsMap tx g tree
  pub result : r ≡ lookup tx h.value t (tx.key n)
  pub entries :
      (k : ℕ)
      → lookup tx g.value tree k ≡ (if tx.key n == k then some value else lookup tx h.value t k)

module _ (tx : Tx) (t : Tree) where
  vacant-lookup :
      (key : ℕ) (h : Heap) (l : VacantLocation)
      → Found tx key t h (vacant l)
      → lookup tx h.value t key ≡ none
  vacant-lookup key h l (tree_empty e r) = rw e refl
  vacant-lookup key h l (place s a c sib up whole fits ordered at absent) =
      lookup-none tx h.value t key absent

  get_at-Looked :
      (key : ℕ) (h : Heap) (l : Location)
      → IsMap tx h t
      → Found tx key t h l
      → Ends tx (Looked tx key t h) (get_at tx l h)
  get_at-Looked key h (vacant l) m f =
      ended (record { map = m; same_values = refl; result = sym (vacant-lookup key h l f) })
  get_at-Looked key h (occupied _) m (hit a same there) = read _ _ _ (
      ended (record {
        map = searched-IsMap tx h (tick h) t refl m;
        same_values = refl;
        result = sym (lookup-has tx h.value t a m.ordered there) ∙ ap (lookup tx h.value t) same;
      }))

  -- A lookup in a map, with at least as many rounds as its tree is deep, ends in an access that
  -- conflicts, or returns what the finite map has for the key, none if nothing, and leaves the map and
  -- its values as they were.
  pub get_key-Looked :
      (fuel key : ℕ) (h : Heap)
      → IsMap tx h t
      → depth t ≤ fuel
      → Ends tx (Looked tx key t h) (get_key fuel tx key h)
  unfolding get_key
  get_key-Looked fuel key h m enough =
      chain (location-Found fuel tx key t h m.rep m.ordered enough) λ l g s.
        weaken (get_at-Looked key g l (searched-IsMap tx h g t s.unchanged m) s.found) λ r k w.
          let values = ap (λ x. x.value) s.unchanged in
          record {
            map = w.map;
            same_values = w.same_values ∙ values;
            result = w.result ∙ ap (λ v. lookup tx v t key) values;
          }

  replaced-IsMap :
      (a : ℕ) (v : List ℕ) (h : Heap) → IsMap tx h t → IsMap tx (tick (with_value a v h)) t
  replaced-IsMap a v h m = record {
    rep =
        Rep-frame h (tick (with_value a v h)) null t h.root
          (Every-trivial _ t λ b. record { children = λ s. refl; parent_color = refl }) m.rep;
    ordered = m.ordered;
    balanced = m.balanced;
  }

  replaced :
      (a : ℕ) (v : List ℕ) (h : Heap)
      → Ends tx
          (λ prev g. (prev ≡ h.value a) × (g ≡ tick (with_value a v (tick h))))
          (replace_value tx a v h)
  replaced a v h = read _ _ _ (write _ _ _ (ended (refl, refl)))

  written : (b a : ℕ) → has a t ≡ true → has b t ≡ ((a == b) || has b t)
  written b a there = elim (Bool-cases (a == b)) [
    | inl same ↦
        (let e : a ≡ b = ground (arith, same) in
          let h : has b t ≡ true = rw (← e) there in ground (arith, h))
    | inr differs ↦ ground (arith, differs)
  ]

  insert_at-Inserted :
      (fuel n : ℕ) (value : List ℕ) (h : Heap) (l : Location)
      → IsMap tx h t
      → Found tx (tx.key n) t h l
      → depth t ≤ fuel
      → Ends tx (Inserted tx n value t h) (insert_at fuel tx n value l h)
  insert_at-Inserted fuel n value h (vacant l) m f enough =
      chain (insert-Added tx n value t h fuel l m f enough) λ u g w. ended (record {
        tree = w.tree;
        map = w.map;
        result = sym (vacant-lookup (tx.key n) h l f);
        entries = λ k.
            ap (λ v. lookup tx v w.tree k) w.values
            ∙ lookup-overwritten tx n value h.value t w.tree m.ordered w.map.ordered w.members k;
      })
  insert_at-Inserted fuel n value h (occupied _) m (hit a same there) enough =
      chain (replaced a value h) λ prev g e.
        rw (e.0, e.1)
          (ended (record {
            tree = t;
            map = replaced-IsMap a value (tick h) (searched-IsMap tx h (tick h) t refl m);
            result =
                sym (lookup-has tx h.value t a m.ordered there) ∙ ap (lookup tx h.value t) same;
            entries = λ k.
                lookup-overwritten tx a value h.value t t m.ordered m.ordered
                  (λ b. written b a there) k
                ∙ ap (λ x. if x == k then some value else lookup tx h.value t k) same;
          }))

  -- An insertion into a map, with at least as many rounds as its tree is deep, ends in an access that
  -- conflicts, or returns what the finite map had for the key of the new node, none if nothing, and
  -- leaves a red-black search tree at the root, whose finite map has the new value for that key and
  -- for every other key what it had. No assertion fails on the way, and no null reference is
  -- unwrapped.
  pub insert-Inserted :
      (fuel n : ℕ) (value : List ℕ) (h : Heap)
      → IsMap tx h t
      → depth t ≤ fuel
      → Ends tx (Inserted tx n value t h) (insert fuel tx n value h)
  unfolding insert
  insert-Inserted fuel n value h m enough =
      chain (location-Found fuel tx (tx.key n) t h m.rep m.ordered enough) λ l g s.
        weaken
          (insert_at-Inserted fuel n value g l (searched-IsMap tx h g t s.unchanged m) s.found
            enough)
          λ r k w.
            let values = ap (λ x. x.value) s.unchanged in
            record {
              tree = w.tree;
              map = w.map;
              result = w.result ∙ ap (λ v. lookup tx v t (tx.key n)) values;
              entries = λ q.
                  w.entries q
                  ∙ ap (λ v. if tx.key n == q then some value else lookup tx v t q) values;
            }
