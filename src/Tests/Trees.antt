-- ===== src/Tests/Trees.antt =====
-- Red-black trees that are built, searched and taken apart.
use swym.Shared.{
  ℕ, ◌+◌, ◌==◌, if◌then◌else◌, List, [], ◌∷◌, false, Option, none, some, refl, ◌≡◌, arith,
}
use swym.Rbtree.Store.{
  Side, left, right, RbRef, null, valid, black, red, Heap, Tx, End, done, Call, pure, ◌>>◌,
}
use swym.Rbtree.Runs.{Ends}
use swym.Rbtree.Shape.{Tree, leaf, node, has, Spine, top, step, plug}
use swym.Rbtree.Find.{location}
use swym.Rbtree.Find.Laws.{Searched, location-Found}
use swym.Rbtree.Insert
use swym.Rbtree.Insert.{new_node, insert_fixup, fixup_loop, insert_case4, insert_case4_mut}
use swym.Rbtree.Rotate.{rotate_red_helper, partial_rotate_red_helper}
use swym.Rbtree.Remove
use swym.Rbtree.Remove.{remove_fixup, remove_fixup_loop}
use swym.Rbtree.Remove.Nofix.{remove_nofix, leftmost}
use swym.Rbtree.Store.{get, put}
use swym.Rbtree.Find.{find_impl}
use swym.Rbtree.Verify.{verify_node}
use swym.Rbtree.Insert.Fixed.{Fixed}
use swym.Rbtree.Insert.First.{Vacant, new_leaf}
use swym.Rbtree.Insert.Fixup.{insert_fixup-Fixed}
use swym.Rbtree.Verify.{verify}
use swym.Rbtree.Verify.Laws.{verify-IsMap}
use swym.Rbtree.Map
use swym.Rbtree.Map.{get_key}
use swym.Rbtree.Map.Laws.{IsMap}
use swym.Rbtree.Map.Refines.{Looked, Inserted, get_key-Looked, insert-Inserted}

-- No access conflicts, and each node has its address for key.
abbrev tx : Tx
tx = record { conflicts = λ n. false; key = λ a. a }

abbrev no_nodes : Heap
no_nodes = record {
  child = λ s a. null;
  parent_color = λ a. (null, black);
  value = λ a. [];
  root = null;
  privatized = [];
  ops = 0;
}

-- The black root 5 with the red child 3
abbrev two_nodes : Heap
two_nodes = record {
  child = λ s a. same_child s a;
  parent_color = λ a. if a == 3 then (valid 5, red) else (null, black);
  value = λ a. (a + 10) ∷ [];
  root = valid 5;
  privatized = [];
  ops = 0;
}
  where
    same_child : Side → ℕ → RbRef
    same_child left a = if a == 5 then valid 3 else null
    same_child right a = null

abbrev two : Tree
two = node 5 black (node 3 red leaf leaf) leaf

two-IsMap : IsMap tx two_nodes two
two-IsMap = record {
  rep = (refl, refl, (refl, refl, refl, refl), refl);
  ordered = ((ground arith, tt, tt), tt, (tt, tt, tt, tt), tt);
  balanced = (1, ((refl, refl), refl));
}

location-Found_example : Ends tx (Searched tx 4 two two_nodes) (location 2 tx 4 two_nodes)
location-Found_example =
    location-Found 2 tx 4 two two_nodes two-IsMap.rep two-IsMap.ordered (ground arith)

insert-Inserted_example :
    Ends tx (Inserted tx 1 (7 ∷ []) two two_nodes) (Map.insert 2 tx 1 (7 ∷ []) two_nodes)
insert-Inserted_example = insert-Inserted tx two 2 1 (7 ∷ []) two_nodes two-IsMap (ground arith)

get_key-Looked_example : Ends tx (Looked tx 3 two two_nodes) (get_key 2 tx 3 two_nodes)
get_key-Looked_example = get_key-Looked tx two 2 3 two_nodes two-IsMap (ground arith)

verify-IsMap_example : Ends tx (λ u g. IsMap tx g two) (verify 2 tx two_nodes)
verify-IsMap_example = verify-IsMap tx 2 two two_nodes two-IsMap (ground arith)

-- The node 1, new, below the node 3
abbrev below_three : Spine
below_three = step left 3 red leaf (step left 5 black leaf top)

abbrev with_one : Heap
with_one = new_node 1 (7 ∷ []) two_nodes

one-Vacant : Vacant tx with_one below_three 1
one-Vacant = record {
  at = (refl, refl, refl, (refl, refl, refl, refl));
  ordered_path = ((ground arith, tt), tt, tt, tt, (tt, tt, tt, tt, tt));
  fits = (ground arith, (ground arith, tt));
  path = (refl, refl, (refl, tt));
  no_children = no_child;
}
  where
    no_child : (s : Side) → with_one.child s 1 ≡ null
    no_child left = refl
    no_child right = refl

insert_fixup-Fixed_example :
    Ends tx
      (Fixed tx (λ b. has b (plug below_three (new_leaf 1))) with_one)
      (insert_fixup 2 tx 1 3 left with_one)
insert_fixup-Fixed_example =
    insert_fixup-Fixed tx (λ b. has b (plug below_three (new_leaf 1))) with_one 1 3 leaf 2 left red
      (step left 5 black leaf top) with_one one-Vacant refl refl (λ b. refl) (ground arith)

insert_all : List ℕ → Call (Unit {0})
insert_all [] = pure tt
insert_all (k ∷ ks) = do Map.insert 20 tx k (k ∷ []); verify 20 tx; insert_all ks

remove_all : List ℕ → Call (Unit {0})
remove_all [] = pure tt
remove_all (k ∷ ks) = do Map.remove 20 tx k; verify 20 tx; remove_all ks

abbrev privatized_by : End (Unit {0}) → Option (List ℕ)
privatized_by (done u h) = some h.privatized
privatized_by r = none

-- After each insertion and each removal, the tree passes its own check.
insert_remove_checked : Option (List ℕ)
insert_remove_checked = privatized_by (
    (insert_all (5 ∷ 3 ∷ 8 ∷ 9 ∷ 12 ∷ 1 ∷ 4 ∷ 2 ∷ 10 ∷ 11 ∷ [])
        >> remove_all (5 ∷ 9 ∷ 1 ∷ 3 ∷ 12 ∷ 8 ∷ 4 ∷ 2 ∷ 10 ∷ 11 ∷ []))
      no_nodes)

insert_remove_order : insert_remove_checked ≡ some (11 ∷ 10 ∷ 2 ∷ 4 ∷ 8 ∷ 12 ∷ 3 ∷ 1 ∷ 9 ∷ 5 ∷ [])
unfolding Map.insert Map.remove verify verify_node location find_impl Insert.insert insert_fixup
    fixup_loop insert_case4 insert_case4_mut rotate_red_helper partial_rotate_red_helper
    Remove.remove remove_nofix remove_fixup remove_fixup_loop leftmost get put insert_remove_checked
    insert_all remove_all
insert_remove_order = refl
