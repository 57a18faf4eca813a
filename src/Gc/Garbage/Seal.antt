-- ===== src/Gc/Garbage/Seal.antt =====
-- src/internal/gc/thread_garbage.rs: what sealing the bag of a committed transaction does.
use mathlib.Core.List.{append-nil, append_assoc}
use swym.Shared.{
  ◌≤◌, ◌<◌, ◌≡◌, some, List, [], ◌∷◌, ◌++◌, if◌then◌else◌, All, arith, inl, inr, refl, sym, length,
  take, drop, length-drop, length-append, Bool-cases, take-append-drop, ◌==◌, ◌∙◌, ap,
}
use swym.Epoch.Word.{QuiesceEpoch, max_value}
use swym.Gc.Quiesce.{Visit}
use swym.Gc.Quiesce.Laws.{Ends, IsWord, quiesce-Quiesced, quiesce_total}
use swym.Gc.Garbage.{
  Bag, SealedBag, ThreadGarbage, Trash, is_empty, max_idx, trash_of, collect,
  synch_and_collect_impl, latest, collect_first, seal_into, collect_if_full, seal_with_epoch_slow,
  seal_with_epoch,
}
use swym.Gc.Garbage.Balance.{Ordered, IsUnused, IsBalanced, collect-IsBalanced}

trash_of-append : (xs ys : List SealedBag) → trash_of (xs ++ ys) ≡ trash_of xs ++ trash_of ys
unfolding trash_of
trash_of-append [] ys = refl
trash_of-append (b ∷ xs) ys = rw (trash_of-append xs ys) (sym (append_assoc b.bag.queued _ _))

Ordered-append_one :
    (lower : QuiesceEpoch) (bs : List SealedBag) (b : SealedBag)
    → Ordered lower bs
    → latest lower bs ≤ b.quiesce_epoch
    → Ordered lower (bs ++ b ∷ [])
Ordered-append_one lower [] b o h = (h, tt)
Ordered-append_one lower (c ∷ bs) b o h = (o.0, Ordered-append_one c.quiesce_epoch bs b o.1 h)

-- What a collection drops and what it keeps are, in order, what was queued.
pub collect-conserved :
    (m : QuiesceEpoch) (g : ThreadGarbage)
    → (collect m g).1 ++ trash_of (collect m g).0.sealed_bags ≡ trash_of g.sealed_bags
unfolding collect
collect-conserved m g =
    let n = max_idx m g.sealed_bags in
    sym (trash_of-append (take n g.sealed_bags) (drop n g.sealed_bags))
    ∙ ap trash_of (take-append-drop n g.sealed_bags)

-- A collection up to an epoch after that of the first bag frees at least that bag.
collect-fewer :
    (m : QuiesceEpoch) (b : SealedBag) (bs : List SealedBag) (g : ThreadGarbage)
    → g.sealed_bags ≡ b ∷ bs
    → b.quiesce_epoch < m
    → length (collect m g).0.sealed_bags ≤ length bs
unfolding collect max_idx
collect-fewer m b bs g q h = rw q (ground (arith, length-drop (max_idx m bs) bs))

-- The outcome of sealing: the bags are balanced with room for the next commit, the speculative bag
-- is empty again, and every piece of trash was either dropped or is still queued, in order.
pub record Sealed (g g' : ThreadGarbage) (dropped : List Trash) : Type 0 where
  pub balanced : IsBalanced g'
  pub room : length g'.sealed_bags < 63
  pub fresh : g'.speculative_bag.queued ≡ []
  pub conserved :
      dropped ++ trash_of g'.sealed_bags ≡ trash_of g.sealed_bags ++ g.speculative_bag.queued

latest-append_one :
    (lower : QuiesceEpoch) (bs : List SealedBag) (b : SealedBag)
    → latest lower (bs ++ b ∷ []) ≡ b.quiesce_epoch
latest-append_one lower [] b = refl
latest-append_one lower (c ∷ bs) b = latest-append_one c.quiesce_epoch bs b

pub le-latest :
    (lower : QuiesceEpoch) (bs : List SealedBag) → Ordered lower bs → lower ≤ latest lower bs
le-latest lower [] o = omega arith
le-latest lower (b ∷ bs) o = omega (arith, le-latest b.quiesce_epoch bs o.1)

-- The current bag, sealed with an epoch, and a bag from the reserve in its place.
abbrev sealed_bag : QuiesceEpoch → ThreadGarbage → SealedBag
sealed_bag epoch g = record { quiesce_epoch = epoch; bag = g.speculative_bag }

abbrev after_seal : Bag → List Bag → QuiesceEpoch → ThreadGarbage → ThreadGarbage
after_seal b bs epoch g = record {
  speculative_bag = b;
  sealed_bags = g.sealed_bags ++ sealed_bag epoch g ∷ [];
  unused_bags = bs;
}

trash_of-after_seal :
    (epoch : QuiesceEpoch) (g : ThreadGarbage)
    → trash_of (g.sealed_bags ++ sealed_bag epoch g ∷ [])
      ≡ trash_of g.sealed_bags ++ g.speculative_bag.queued
unfolding trash_of
trash_of-after_seal epoch g =
    rw (trash_of-append g.sealed_bags (sealed_bag epoch g ∷ []))
      (ap (λ t. trash_of g.sealed_bags ++ t) (append-nil g.speculative_bag.queued))

module _ (visits : List Visit) (epoch : QuiesceEpoch) (g : ThreadGarbage) (balanced : IsBalanced g)
    (later : latest 0 g.sealed_bags ≤ epoch) (small : epoch < max_value) (words : All IsWord visits)
    (ends : (e : QuiesceEpoch) → e ≤ epoch → All (Ends e) visits) where
  after_seal-IsBalanced :
      (b : Bag) (bs : List Bag)
      → g.unused_bags ≡ b ∷ bs
      → IsBalanced (after_seal b bs epoch g) × IsUnused b
  after_seal-IsBalanced b bs q = (
    record {
      counted = omega (
        arith,
        balanced.counted,
        ap (λ (l : List Bag). length l) q,
        length-append g.sealed_bags (sealed_bag epoch g ∷ []),
      );
      unused = (rw q at balanced.unused).1;
      ordered = Ordered-append_one 0 g.sealed_bags (sealed_bag epoch g) balanced.ordered later;
    },
    (rw q at balanced.unused).0,
  )

  collect_first-Sealed :
      (b : Bag) (bs : List Bag) (c : SealedBag) (cs : List SealedBag)
      → g.unused_bags ≡ b ∷ bs
      → (after_seal b bs epoch g).sealed_bags ≡ c ∷ cs
      → length cs < 63
      → (g' : ThreadGarbage) × (dropped : List Trash) × (collect_first
            (c ∷ cs)
            visits
            (after_seal b bs epoch g)
          ≡ some (g', dropped))
        × Sealed g g' dropped
  unfolding synch_and_collect_impl
  collect_first-Sealed b bs c cs q q' lt =
      let g₁ = after_seal b bs epoch g in
      let (ok, unused) = after_seal-IsBalanced b bs q in
      let first : c.quiesce_epoch ≤ epoch = omega (
        arith,
        le-latest c.quiesce_epoch cs (rw q' at ok.ordered).1,
        ap (latest 0) q',
        latest-append_one 0 g.sealed_bags (sealed_bag epoch g),
      ) in
      let (r, run) = quiesce_total c.quiesce_epoch visits (ends c.quiesce_epoch first) in
      let past = quiesce-Quiesced c.quiesce_epoch r visits (omega arith) words run in
      (
        (collect r g₁).0,
        (collect r g₁).1,
        rw run,
        record {
          balanced = collect-IsBalanced r g₁ ok;
          room = omega (arith, collect-fewer r c cs g₁ q' past.later);
          fresh = unfold collect in unused;
          conserved = collect-conserved r g₁ ∙ trash_of-after_seal epoch g;
        },
      )

  seal_into-Sealed :
      (b : Bag) (bs : List Bag) (room : length g.sealed_bags < 63)
      → g.unused_bags ≡ b ∷ bs
      → (g' : ThreadGarbage) × (dropped : List Trash) × (collect_if_full visits
            (some (after_seal b bs epoch g))
          ≡ some (g', dropped))
        × Sealed g g' dropped
  seal_into-Sealed b bs room q =
      let g₁ = after_seal b bs epoch g in
      let long = length-append g.sealed_bags (sealed_bag epoch g ∷ []) in
      elim (Bool-cases (length g₁.sealed_bags == 63)) [
        | inl full ↦ rw full (at_first g₁.sealed_bags refl (omega (arith, long)))
        | inr not_full ↦
            let (ok, unused) = after_seal-IsBalanced b bs q in
            (
              g₁,
              [],
              rw not_full,
              record {
                balanced = ok;
                room = ground (arith, long);
                fresh = unused;
                conserved = trash_of-after_seal epoch g;
              },
            )
      ]
    where
      at_first :
          (l : List SealedBag)
          → (after_seal b bs epoch g).sealed_bags ≡ l
          → length l ≤ 63
          → (g' : ThreadGarbage) × (dropped : List Trash) × (collect_first l visits
                (after_seal b bs epoch g)
              ≡ some (g', dropped))
            × Sealed g g' dropped
      at_first [] e le = absurd (
          omega (
            arith,
            ap (λ (s : List SealedBag). length s) e,
            length-append g.sealed_bags (sealed_bag epoch g ∷ []),
          ))
      at_first (c ∷ cs) e le = collect_first-Sealed b bs c cs q e (omega arith)

  -- Sealing after a commit always finds an unused bag and always ends, provided the waits for the
  -- threads that are behind end: the bags stay balanced with room for the next commit, and every
  -- piece of trash is dropped or still queued, once and in order.
  pub seal_with_epoch-Sealed :
      length g.sealed_bags < 63
      → (g' : ThreadGarbage) × (dropped : List Trash) × (seal_with_epoch visits epoch g
          ≡ some (g', dropped))
        × Sealed g g' dropped
  unfolding seal_with_epoch seal_with_epoch_slow
  seal_with_epoch-Sealed room =
      by_queue g.speculative_bag.queued refl (by_unused g.unused_bags refl)
    where
      by_unused :
          (l : List Bag)
          → g.unused_bags ≡ l
          → (g' : ThreadGarbage) × (dropped : List Trash) × (collect_if_full visits
                (seal_into l epoch g)
              ≡ some (g', dropped))
            × Sealed g g' dropped
      by_unused [] q = absurd (omega (arith, balanced.counted, ap (λ (l : List Bag). length l) q))
      by_unused (b ∷ bs) q = seal_into-Sealed b bs room q

      by_queue :
          (l : List Trash)
          → g.speculative_bag.queued ≡ l
          → ((g' : ThreadGarbage) × (dropped : List Trash) × (collect_if_full visits
                  (seal_into g.unused_bags epoch g)
                ≡ some (g', dropped))
              × Sealed g g' dropped)
          → (g' : ThreadGarbage) × (dropped : List Trash) × ((if is_empty l
                then some (g, [])
                else collect_if_full visits (seal_into g.unused_bags epoch g))
              ≡ some (g', dropped))
            × Sealed g g' dropped
      by_queue [] q slow = (
        g,
        [],
        refl,
        record {
          balanced = balanced;
          room = room;
          fresh = q;
          conserved = rw q (sym (append-nil (trash_of g.sealed_bags)));
        },
      )
      by_queue (t ∷ ts) q slow = slow
