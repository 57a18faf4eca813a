-- ===== src/Tests/Collection.antt =====
-- src/internal/gc.
use swym.Shared.{◌<◌}
use swym.Epoch.Word.{word_mod}
use swym.Gc.Garbage.Balance.{Ordered}
use swym.Logs
use swym.Thread
use swym.Thread.{Thread}
use swym.Thread.Registered.{Registry, Unsubscribed, Gone, subscribe, unsubscribe, unsubscribe-Gone}
use swym.Gc.SynchList.{unregister, position, swap_remove, last_first}
use swym.Shared.{
  true, ◌≡◌, ◌↔◌, inl, inr, ltb, Bool-cases, ◌≤◌, some, List, [], ◌∷◌, refl, arith, All, replicate,
}
use swym.Epoch.Word.{QuiesceEpoch}
use swym.Gc.Quiesce.{Visit, quiesce, min_epochs, local_quiesce}
use swym.Gc.Quiesce.Laws.{Ends, Quiesced, quiesce-Quiesced, quiesce_iff}
use swym.Gc.Garbage.{ThreadGarbage, Trash, new_bag, collect, seal_with_epoch, SealedBag}
use swym.Gc.Garbage.Balance.{IsBalanced, collect-IsBalanced, replicate-IsUnused}
use swym.Gc.Garbage.Seal.{Sealed, seal_with_epoch-Sealed}

-- One thread past epoch 5, and one that is waited for.
abbrev visits : List Visit
visits = record { td_epoch = 7; loads = [] } ∷ record { td_epoch = 3; loads = 3 ∷ 9 ∷ [] } ∷ []

quiesces : quiesce 5 visits ≡ some 7
unfolding quiesce min_epochs local_quiesce
quiesces = refl

quiesce-Quiesced_example : Quiesced 5 7 visits
quiesce-Quiesced_example =
    quiesce-Quiesced 5 7 visits (omega arith) (omega arith, (omega arith, tt)) quiesces

quiesce_iff_example :
    ((result : QuiesceEpoch) × (quiesce 5 visits ≡ some result)) ↔ All (Ends 5) visits
quiesce_iff_example = quiesce_iff 5 visits (omega arith) (omega arith, (omega arith, tt))

abbrev bags : List SealedBag
bags =
    record { quiesce_epoch = 3; bag = record { queued = (1 ∷ []) ∷ []; capacity = 4 } }
    ∷ record { quiesce_epoch = 5; bag = record { queued = (2 ∷ []) ∷ []; capacity = 4 } }
    ∷ []

-- Two bags are sealed, at the epochs 3 and 5, and one is being filled.
abbrev garbage : ThreadGarbage
garbage = record {
  speculative_bag = record { queued = (4 ∷ []) ∷ []; capacity = 4 };
  sealed_bags = bags;
  unused_bags = replicate 61 new_bag;
}

garbage-IsBalanced : IsBalanced garbage
garbage-IsBalanced = record {
  counted = refl;
  unused = replicate-IsUnused 61;
  ordered = (omega arith, (omega arith, tt));
}

collect-IsBalanced_example : IsBalanced (collect 4 garbage).0
collect-IsBalanced_example = collect-IsBalanced 4 garbage garbage-IsBalanced

later_visits : (e : QuiesceEpoch) → e ≤ 6 → All (Ends e) visits
later_visits e h = (
  inl (omega arith),
  (
    elim (Bool-cases (ltb e 3)) [
      | inl past ↦ inl (ground (arith, past))
      | inr behind ↦ inr (
        9,
        record {
          before = 3 ∷ [];
          after = [];
          in_order = refl;
          behind = (ground (arith, behind), tt);
          past = omega arith;
        },
      )
    ],
    tt,
  ),
)

seal_with_epoch-Sealed_example :
    (g' : ThreadGarbage) × (dropped : List Trash) × (seal_with_epoch visits 6 garbage
      ≡ some (g', dropped))
    × Sealed garbage g' dropped
seal_with_epoch-Sealed_example =
    seal_with_epoch-Sealed visits 6 garbage garbage-IsBalanced (omega arith) (omega arith)
      (omega arith, (omega arith, tt)) later_visits (omega arith)

leaves : unregister 2 (1 ∷ 2 ∷ 3 ∷ 4 ∷ []) ≡ (true, 1 ∷ 4 ∷ 3 ∷ [])
unfolding unregister position swap_remove last_first
leaves = refl

-- A thread with two sealed bags, and the list that it is in.
abbrev leaver : Thread
leaver = record Thread.new { logs = record Logs.new { garbage = garbage } }

abbrev registry : Registry
registry = subscribe 2 (record { synchs = 1 ∷ 3 ∷ []; max_elapsed = 1024 })

registry_small : registry.max_elapsed < word_mod
unfolding subscribe
registry_small = omega arith

leaver-Ordered : Ordered 0 leaver.logs.garbage.sealed_bags
leaver-Ordered = (omega arith, (omega arith, tt))

unsubscribe-Gone_example :
    (u : Unsubscribed) × (unsubscribe 2 visits leaver registry ≡ some u) × Gone 2 leaver registry u
unsubscribe-Gone_example =
    unsubscribe-Gone 2 visits leaver registry leaver-Ordered (omega arith)
      (omega arith, (omega arith, tt)) (later_visits 5 (omega arith)) registry_small
