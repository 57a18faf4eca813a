-- ===== src/Gc/Garbage/Safety.antt =====
-- src/internal/gc/thread_garbage.rs: a collection drops nothing that a thread may still read.
use mathlib.Core.List.{append-nil}
use swym.Shared.{
  ◌≤◌, ◌<◌, ◌≡◌, some, List, [], ◌∷◌, ◌++◌, ◌⊎◌, leb, All, arith, inl, inr, refl, sym, take, drop,
  Bool-cases, leb→le, ap, ◌∙◌,
}
use swym.Epoch.Word.{QuiesceEpoch, max_value}
use swym.Gc.Quiesce.{Visit}
use swym.Gc.Quiesce.Laws.{Waited, Ends, IsWord, quiesce_total, quiesce-Quiesced}
use swym.Gc.Garbage.{
  SealedBag, ThreadGarbage, Trash, max_idx, trash_of, collect, synch_and_collect_impl, latest,
  collect_last, synch_and_collect_all,
}
use swym.Gc.Garbage.Balance.{Ordered}
use swym.Gc.Garbage.Seal.{le-latest, collect-conserved}

abbrev pub IsBefore : QuiesceEpoch → SealedBag → Type 0
IsBefore m b = b.quiesce_epoch < m

abbrev pub IsNotBefore : QuiesceEpoch → SealedBag → Type 0
IsNotBefore m b = m ≤ b.quiesce_epoch

-- The drained bags are those before the epoch.
pub drained-IsBefore :
    (m : QuiesceEpoch) (bs : List SealedBag) → All (IsBefore m) (take (max_idx m bs) bs)
unfolding max_idx
drained-IsBefore m [] = tt
drained-IsBefore m (b ∷ bs) = elim (Bool-cases (leb m b.quiesce_epoch)) [
  | inl stop ↦ rw stop tt
  | inr go ↦ rw go (ground arith, drained-IsBefore m bs)
]

Ordered-IsNotBefore :
    (m lower : QuiesceEpoch) (bs : List SealedBag)
    → m ≤ lower
    → Ordered lower bs
    → All (IsNotBefore m) bs
Ordered-IsNotBefore m lower [] h o = tt
Ordered-IsNotBefore m lower (b ∷ bs) h o =
    (omega arith, Ordered-IsNotBefore m b.quiesce_epoch bs (omega arith) o.1)

-- The bags that stay are those not before it.
pub kept-IsNotBefore :
    (m lower : QuiesceEpoch) (bs : List SealedBag)
    → Ordered lower bs
    → All (IsNotBefore m) (drop (max_idx m bs) bs)
unfolding max_idx
kept-IsNotBefore m lower [] o = tt
kept-IsNotBefore m lower (b ∷ bs) o = elim (Bool-cases (leb m b.quiesce_epoch)) [
  | inl stop ↦ rw stop (ground arith, Ordered-IsNotBefore m b.quiesce_epoch bs (ground arith) o.1)
  | inr go ↦ rw go (kept-IsNotBefore m b.quiesce_epoch bs o.1)
]

-- What the other threads owe: a thread pins an epoch of the clock, which is not behind the bags when it
-- goes past the requested epoch. So every load in the waiting loop that is past that epoch is past the
-- bags too.
abbrev pub TookFromClock : QuiesceEpoch → List SealedBag → Visit → Type 0
TookFromClock epoch bs v = All (λ e. epoch < e → All (λ b. b.quiesce_epoch < e) bs) v.loads

-- The thread of a visit was found past the epoch of a bag, at once or as it was waited for.
abbrev pub Passed : QuiesceEpoch → SealedBag → Visit → Type 0
Passed epoch b v =
    ((epoch < v.td_epoch) × (b.quiesce_epoch < v.td_epoch))
    ⊎ ((seen : QuiesceEpoch) × Waited epoch seen v.loads × (b.quiesce_epoch < seen))

-- `synch_and_collect_all` drops every bag: with the bags in order and the epoch of the last one
-- requested, none is left.
pub collect-all :
    (r : QuiesceEpoch) (lower : QuiesceEpoch) (bs : List SealedBag)
    → Ordered lower bs
    → latest lower bs < r
    → drop (max_idx r bs) bs ≡ []
unfolding max_idx
collect-all r lower [] o h = refl
collect-all r lower (b ∷ bs) o h = elim (Bool-cases (leb r b.quiesce_epoch)) [
  | inl stop ↦ absurd (omega (arith, leb→le _ _ stop, le-latest b.quiesce_epoch bs o.1))
  | inr go ↦ rw go (collect-all r b.quiesce_epoch bs o.1 h)
]

-- When a thread leaves, the wait and the collection up to its last bag leave no sealed bag behind
-- and drop all of its trash.
pub synch_and_collect_all-empties :
    (visits : List Visit) (g : ThreadGarbage)
    → Ordered 0 g.sealed_bags
    → latest 0 g.sealed_bags < max_value
    → All IsWord visits
    → All (Ends (latest 0 g.sealed_bags)) visits
    → (g' : ThreadGarbage) × (dropped : List Trash) × (synch_and_collect_all visits g
        ≡ some (g', dropped))
      × (g'.sealed_bags ≡ [])
      × (dropped ≡ trash_of g.sealed_bags)
unfolding synch_and_collect_all synch_and_collect_impl collect trash_of
synch_and_collect_all-empties visits g o small words ends = by_bags g.sealed_bags refl
  where
    by_bags :
        (l : List SealedBag)
        → g.sealed_bags ≡ l
        → (g' : ThreadGarbage) × (dropped : List Trash) × (collect_last l visits g
            ≡ some (g', dropped))
          × (g'.sealed_bags ≡ [])
          × (dropped ≡ trash_of g.sealed_bags)
    by_bags [] q = (g, [], refl, q, rw q)
    by_bags (b ∷ bs) q =
        let (r, run) = quiesce_total (latest 0 g.sealed_bags) visits ends in
        let past = quiesce-Quiesced (latest 0 g.sealed_bags) r visits small words run in
        let none_left = collect-all r 0 g.sealed_bags o past.later in
        let here : latest b.quiesce_epoch bs ≡ latest 0 g.sealed_bags = sym (ap (latest 0) q) in
        let (g', dropped) = collect r g in
        (
          g',
          dropped,
          rw (here, run),
          none_left,
          sym (append-nil dropped)
              ∙ ap (λ l. dropped ++ trash_of l) (sym none_left)
              ∙ collect-conserved r g,
        )
