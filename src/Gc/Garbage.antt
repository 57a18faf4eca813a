-- ===== src/Gc/Garbage.antt =====
-- src/internal/gc/thread_garbage.rs: the bags of one thread.
-- A piece of trash is the words of the value that is dropped. The unchecked pushes and pops of the
-- source are undefined behaviour out of bounds: here the result is then `none`.
pub mod Balance
pub mod Seal
pub mod Safety
use swym.Shared.{
  ℕ, zero, suc, ◌+◌, Bool, true, false, Option, none, some, List, [], ◌∷◌, ◌++◌, length, take, drop,
  replicate, ltb, leb, ◌==◌, if◌then◌else◌,
}
use swym.Epoch.Word.{QuiesceEpoch}
use swym.Gc.Quiesce.{Visit, quiesce}

abbrev pub unused_bag_count : ℕ
unused_bag_count = 64

abbrev pub Trash : Type 0
Trash = List ℕ

-- `Bag`: the queued trash, in a vector of words with a capacity. A piece takes a word for its
-- vtable and those of its value.
pub record Bag : Type 0 where
  pub queued : List Trash
  pub capacity : ℕ

abbrev pub new_bag : Bag
new_bag = record { queued = []; capacity = 0 }

pub record SealedBag : Type 0 where
  pub quiesce_epoch : QuiesceEpoch
  pub bag : Bag

pub record ThreadGarbage : Type 0 where
  pub speculative_bag : Bag
  pub sealed_bags : List SealedBag
  pub unused_bags : List Bag

unfoldable pub queued_words : List Trash → ℕ
queued_words [] = 0
queued_words (t ∷ ts) = 1 + length t + queued_words ts

-- `ThreadGarbage::new`, after one bag is opened
unfoldable pub new : ThreadGarbage
new = record { speculative_bag = new_bag; sealed_bags = []; unused_bags = replicate 63 new_bag }

abbrev pub is_empty : List Trash → Bool
is_empty [] = true
is_empty (t ∷ ts) = false

abbrev pub is_speculative_bag_empty : ThreadGarbage → Bool
is_speculative_bag_empty g = is_empty g.speculative_bag.queued

unfoldable pub abort_speculative_garbage : ThreadGarbage → ThreadGarbage
abort_speculative_garbage g = record g {
  speculative_bag = record g.speculative_bag { queued = [] };
}

-- `next_dispose_allocates`, for a value of `n` words
abbrev pub next_dispose_allocates : ℕ → ThreadGarbage → Bool
next_dispose_allocates n g =
    ltb g.speculative_bag.capacity (queued_words g.speculative_bag.queued + (1 + n))

-- `dispose`, where a push that does not fit takes the capacity `grow`; `dispose_unchecked` is the
-- same where the push fits.
unfoldable pub dispose : Trash → ℕ → ThreadGarbage → ThreadGarbage
dispose t grow g = record g {
  speculative_bag = record {
    queued = g.speculative_bag.queued ++ t ∷ [];
    capacity = if next_dispose_allocates (length t) g then grow else g.speculative_bag.capacity;
  };
}

-- The index of the first bag whose epoch is not before `max_epoch`, or the number of bags.
unfoldable pub max_idx : QuiesceEpoch → List SealedBag → ℕ
max_idx max_epoch [] = 0
max_idx max_epoch (b ∷ bs) = if leb max_epoch b.quiesce_epoch then 0 else suc (max_idx max_epoch bs)

-- `recycle_bag_unchecked` on each drained bag: the bag goes back empty, and its trash is dropped.
unfoldable pub recycle : List SealedBag → List Bag → List Bag
recycle [] unused = unused
recycle (b ∷ bs) unused = recycle bs (record b.bag { queued = [] } ∷ unused)

unfoldable pub trash_of : List SealedBag → List Trash
trash_of [] = []
trash_of (b ∷ bs) = b.bag.queued ++ trash_of bs

-- `collect`, with the trash that it drops, in order.
unfoldable pub collect : QuiesceEpoch → ThreadGarbage → ThreadGarbage × List Trash
collect max_epoch g =
    let n = max_idx max_epoch g.sealed_bags in
    let drained = take n g.sealed_bags in
    (
      record g { sealed_bags = drop n g.sealed_bags; unused_bags = recycle drained g.unused_bags },
      trash_of drained,
    )

abbrev pub collect_through :
    Option QuiesceEpoch → ThreadGarbage → Option (ThreadGarbage × List Trash)
collect_through none g = none
collect_through (some max_epoch) g = some (collect max_epoch g)

-- `synch_and_collect_impl`; `none` is a wait that is not over.
unfoldable pub synch_and_collect_impl :
    List Visit → QuiesceEpoch → ThreadGarbage → Option (ThreadGarbage × List Trash)
synch_and_collect_impl visits epoch g = collect_through (quiesce epoch visits) g

abbrev pub latest : QuiesceEpoch → List SealedBag → QuiesceEpoch
latest e [] = e
latest e (b ∷ bs) = latest b.quiesce_epoch bs

-- `synch_and_collect`, at the epoch of the first bag
abbrev pub collect_first :
    List SealedBag → List Visit → ThreadGarbage → Option (ThreadGarbage × List Trash)
collect_first [] visits g = none
collect_first (b ∷ bs) visits g = synch_and_collect_impl visits b.quiesce_epoch g

-- `synch_and_collect_all`, at the epoch of the last bag
abbrev pub collect_last :
    List SealedBag → List Visit → ThreadGarbage → Option (ThreadGarbage × List Trash)
collect_last [] visits g = some (g, [])
collect_last (b ∷ bs) visits g = synch_and_collect_impl visits (latest b.quiesce_epoch bs) g

unfoldable pub synch_and_collect_all :
    List Visit → ThreadGarbage → Option (ThreadGarbage × List Trash)
synch_and_collect_all visits g = collect_last g.sealed_bags visits g

-- The bag that `open_bag_unchecked` pops becomes the speculative bag; the old one is sealed.
abbrev pub seal_into : List Bag → QuiesceEpoch → ThreadGarbage → Option ThreadGarbage
seal_into [] epoch g = none
seal_into (b ∷ bs) epoch g = some (record {
  speculative_bag = b;
  sealed_bags = g.sealed_bags ++ record { quiesce_epoch = epoch; bag = g.speculative_bag } ∷ [];
  unused_bags = bs;
})

abbrev pub collect_if_full : List Visit → Option ThreadGarbage → Option (ThreadGarbage × List Trash)
collect_if_full visits none = none
collect_if_full visits (some g) =
    if length g.sealed_bags == 63 then collect_first g.sealed_bags visits g else some (g, [])

unfoldable pub seal_with_epoch_slow :
    List Visit → QuiesceEpoch → ThreadGarbage → Option (ThreadGarbage × List Trash)
seal_with_epoch_slow visits epoch g = collect_if_full visits (seal_into g.unused_bags epoch g)

-- `seal_with_epoch`
unfoldable pub seal_with_epoch :
    List Visit → QuiesceEpoch → ThreadGarbage → Option (ThreadGarbage × List Trash)
seal_with_epoch visits epoch g =
    if is_speculative_bag_empty g then some (g, []) else seal_with_epoch_slow visits epoch g
