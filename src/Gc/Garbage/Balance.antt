-- ===== src/Gc/Garbage/Balance.antt =====
-- src/internal/gc/thread_garbage.rs: no bag is lost, and a commit always finds an unused bag.
use swym.Shared.{
  ℕ, zero, suc, ◌+◌, ◌≤◌, ◌≡◌, List, [], ◌∷◌, All, arith, refl, length, take, drop, length-take,
  length-drop, replicate, length-replicate,
}
use swym.Epoch.Word.{QuiesceEpoch}
use swym.Gc.Garbage
use swym.Gc.Garbage.{new_bag, Bag, SealedBag, ThreadGarbage, max_idx, recycle, collect}

-- The sealed bags stand in the order of their epochs, none before `lower`.
abbrev pub Ordered : QuiesceEpoch → List SealedBag → Type 0
Ordered lower [] = Unit
Ordered lower (b ∷ bs) = (lower ≤ b.quiesce_epoch) × Ordered b.quiesce_epoch bs

abbrev pub IsUnused : Bag → Type 0
IsUnused b = b.queued ≡ []

-- All 64 bags are there, those in reserve are empty, and the sealed ones stand in order.
pub record IsBalanced (g : ThreadGarbage) : Type 0 where
  pub counted : length g.sealed_bags + length g.unused_bags + 1 ≡ 64
  pub unused : All IsUnused g.unused_bags
  pub ordered : Ordered 0 g.sealed_bags

max_idx-le : (m : QuiesceEpoch) (bs : List SealedBag) → max_idx m bs ≤ length bs
unfolding max_idx
max_idx-le m [] = omega arith
max_idx-le m (b ∷ bs) = ground (arith, max_idx-le m bs)

length-recycle :
    (bs : List SealedBag) (unused : List Bag)
    → length (recycle bs unused) ≡ length bs + length unused
unfolding recycle
length-recycle [] unused = omega arith
length-recycle (b ∷ bs) unused =
    omega (arith, length-recycle bs (record b.bag { queued = [] } ∷ unused))

recycle-IsUnused :
    (bs : List SealedBag) (unused : List Bag)
    → All IsUnused unused
    → All IsUnused (recycle bs unused)
unfolding recycle
recycle-IsUnused [] unused a = a
recycle-IsUnused (b ∷ bs) unused a =
    recycle-IsUnused bs (record b.bag { queued = [] } ∷ unused) (refl, a)

Ordered-le : (a b : QuiesceEpoch) (bs : List SealedBag) → a ≤ b → Ordered b bs → Ordered a bs
Ordered-le a b [] h o = tt
Ordered-le a b (c ∷ bs) h o = (omega arith, o.1)

Ordered-drop :
    (lower : QuiesceEpoch) (n : ℕ) (bs : List SealedBag)
    → Ordered lower bs
    → Ordered lower (drop n bs)
Ordered-drop lower zero bs o = o
Ordered-drop lower (suc n) [] o = o
Ordered-drop lower (suc n) (b ∷ bs) o =
    Ordered-drop lower n bs (Ordered-le lower b.quiesce_epoch bs o.0 o.1)

-- A collection loses no bag.
pub collect-IsBalanced :
    (m : QuiesceEpoch) (g : ThreadGarbage) → IsBalanced g → IsBalanced (collect m g).0
unfolding collect
collect-IsBalanced m g i =
    let n = max_idx m g.sealed_bags in
    record {
      counted = omega (
        arith,
        i.counted,
        max_idx-le m g.sealed_bags,
        length-recycle (take n g.sealed_bags) g.unused_bags,
        length-take n g.sealed_bags,
        length-drop n g.sealed_bags,
      );
      unused = recycle-IsUnused (take n g.sealed_bags) g.unused_bags i.unused;
      ordered = Ordered-drop 0 n g.sealed_bags i.ordered;
    }

-- Bags that are made new are unused.
pub replicate-IsUnused : (n : ℕ) → All IsUnused (replicate n new_bag)
replicate-IsUnused zero = tt
replicate-IsUnused (suc n) = (refl, replicate-IsUnused n)

-- A thread begins with all of its bags.
pub new-IsBalanced : IsBalanced Garbage.new
unfolding Garbage.new
new-IsBalanced = record {
  counted = omega (arith, length-replicate 63 new_bag);
  unused = replicate-IsUnused 63;
  ordered = tt;
}
