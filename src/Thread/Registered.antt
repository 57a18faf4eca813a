-- ===== src/Thread/Registered.antt =====
-- src/internal/thread.rs: a thread comes and goes, its `PhoenixTarget`.
-- The list of threads and the estimate of their number are global; they are changed while no other
-- thread reads the list.
use swym.Shared.{
  ℕ, ◌+◌, ◌<◌, ◌≡◌, Bool, Option, none, some, List, [], ◌∷◌, ◌==◌, ◌&&◌, if◌then◌else◌, All, arith,
  ap, member,
}
use swym.Epoch.Word.{QuiesceEpoch, max_value, word_mod}
use swym.Epoch.Clock.{set_collect_epoch}
use swym.Gc.Quiesce.{Visit}
use swym.Gc.Quiesce.Laws.{IsWord, Ends}
use swym.Gc.SynchList.{SynchList, register, unregister}
use swym.Gc.SynchList.Laws.{count, unregister-count}
use swym.Gc.Garbage.{SealedBag, ThreadGarbage, Trash, trash_of, latest, synch_and_collect_all}
use swym.Gc.Garbage.Balance.{Ordered}
use swym.Gc.Garbage.Safety.{synch_and_collect_all-empties}
use swym.Starvation.{inc_thread_estimate, dec_thread_estimate}
use swym.Thread.{Thread}

pub record Registry : Type 0 where
  pub synchs : SynchList
  pub max_elapsed : ℕ

-- `Thread::subscribe`; the thread is named by the address of its `Synch`.
unfoldable pub subscribe : ℕ → Registry → Registry
subscribe k r = record {
  synchs = register k r.synchs;
  max_elapsed = inc_thread_estimate r.max_elapsed;
}

-- A thread that has sealed bags takes on the epoch of a collection, to freeze the list.
abbrev pub epoch_after : List SealedBag → QuiesceEpoch → QuiesceEpoch
epoch_after [] epoch = epoch
epoch_after (b ∷ bs) epoch = set_collect_epoch epoch

-- What a thread that has left leaves behind, and whether it was found in the list.
pub record Unsubscribed : Type 0 where
  pub did_remove : Bool
  pub registry : Registry
  pub thread : Thread
  pub dropped : List Trash

abbrev pub left_with : ℕ → Thread → Registry → ThreadGarbage → List Trash → Unsubscribed
left_with k t r garbage dropped = record {
  did_remove = (unregister k r.synchs).0;
  registry = record {
    synchs = (unregister k r.synchs).1;
    max_elapsed = dec_thread_estimate r.max_elapsed;
  };
  thread = record t {
    logs = record t.logs { garbage = garbage };
    current_epoch = epoch_after t.logs.garbage.sealed_bags t.current_epoch;
  };
  dropped = dropped;
}

abbrev pub after_collection :
    ℕ → Thread → Registry → Option (ThreadGarbage × List Trash) → Option Unsubscribed
after_collection k t r none = none
after_collection k t r (some (garbage, dropped)) = some (left_with k t r garbage dropped)

-- `Thread::unsubscribe`; `none` is a wait that is not over.
unfoldable pub unsubscribe : ℕ → List Visit → Thread → Registry → Option Unsubscribed
unsubscribe k visits t r = after_collection k t r (synch_and_collect_all visits t.logs.garbage)

-- What is true once a thread has left.
pub record Gone (k : ℕ) (t : Thread) (r : Registry) (u : Unsubscribed) : Type 0 where
  pub found : u.did_remove ≡ member k r.synchs
  pub counts :
      (j : ℕ)
      → count j u.registry.synchs + (if (k == j) && member k r.synchs then 1 else 0)
        ≡ count j r.synchs
  pub estimate : inc_thread_estimate u.registry.max_elapsed ≡ r.max_elapsed
  pub no_bags : u.thread.logs.garbage.sealed_bags ≡ []
  pub all_dropped : u.dropped ≡ trash_of t.logs.garbage.sealed_bags

inc-dec : (w : ℕ) → w < word_mod → inc_thread_estimate (dec_thread_estimate w) ≡ w
inc-dec w h = omega arith

-- A thread leaves, provided that the waits for the other threads end: it is found exactly if it is
-- in the list, and is taken out of it once, with every other thread left in; the estimate is what a
-- new thread would bring back to what it was; all of its sealed garbage is dropped, and no bag is
-- left. Its bags are taken to be in order.
pub unsubscribe-Gone :
    (k : ℕ) (visits : List Visit) (t : Thread) (r : Registry)
    → Ordered 0 t.logs.garbage.sealed_bags
    → latest 0 t.logs.garbage.sealed_bags < max_value
    → All IsWord visits
    → All (Ends (latest 0 t.logs.garbage.sealed_bags)) visits
    → r.max_elapsed < word_mod
    → (u : Unsubscribed) × (unsubscribe k visits t r ≡ some u) × Gone k t r u
unfolding unsubscribe
unsubscribe-Gone k visits t r ordered small words ends w =
    let (g, dropped, collected, none_left, all_dropped) =
      synch_and_collect_all-empties visits t.logs.garbage ordered small words ends in
    let (found, counts) = unregister-count k r.synchs in
    (
      left_with k t r g dropped,
      ap (after_collection k t r) collected,
      record {
        found = found;
        counts = rw (← found) counts;
        estimate = inc-dec r.max_elapsed w;
        no_bags = none_left;
        all_dropped = all_dropped;
      },
    )
