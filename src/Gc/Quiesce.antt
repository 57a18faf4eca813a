-- ===== src/Gc/Quiesce.antt =====
-- src/internal/gc/quiesce: the list of threads and the wait for those that are behind.
-- Other threads change their epochs during the wait. A visit of a thread therefore carries what
-- was loaded from its epoch: the first load, and the loads of the waiting loop, in order.
pub mod Laws
use swym.Shared.{
  ℕ, zero, suc, Bool, true, false, Option, none, some, List, [], ◌∷◌, ltb, leb, if◌then◌else◌, min,
}
use swym.Epoch.Word.{QuiesceEpoch, max_value}
use swym.Epoch.Clock.{is_quiesced}

-- The loads from one thread's epoch: `current_epoch.get`, and those of `local_quiesce`.
pub record Visit : Type 0 where
  pub td_epoch : QuiesceEpoch
  pub loads : List QuiesceEpoch

-- `Synch::local_quiesce`: it ends at the first load that is past the epoch; `none` is a wait that
-- is not over after these loads.
unfoldable pub local_quiesce : QuiesceEpoch → List QuiesceEpoch → Option QuiesceEpoch
local_quiesce epoch [] = none
local_quiesce epoch (e ∷ loads) =
    let rest = local_quiesce epoch loads in if is_quiesced e epoch then some e else rest

-- `Iterator::min` with `unwrap_or(QuiesceEpoch::max_value())`
abbrev pub min_or_max : Option QuiesceEpoch → QuiesceEpoch
min_or_max none = max_value
min_or_max (some e) = e

abbrev pub min_some : QuiesceEpoch → Option QuiesceEpoch → Option QuiesceEpoch
min_some e none = some e
min_some e (some e') = some (min e e')

-- What the wait for one thread does to the minimum of the rest; `none` is a wait that is not over.
abbrev pub after_wait :
    Option QuiesceEpoch → Option (Option QuiesceEpoch) → Option (Option QuiesceEpoch)
after_wait none rest = none
after_wait (some e) rest = rest

abbrev pub with_epoch : QuiesceEpoch → Option (Option QuiesceEpoch) → Option (Option QuiesceEpoch)
with_epoch e none = none
with_epoch e (some least) = some (min_some e least)

unfoldable pub min_epochs : QuiesceEpoch → List Visit → Option (Option QuiesceEpoch)
min_epochs epoch [] = some none
min_epochs epoch (v ∷ visits) =
    let rest = min_epochs epoch visits in
    if ltb epoch v.td_epoch
    then with_epoch v.td_epoch rest
    else after_wait (local_quiesce epoch v.loads) rest

abbrev pub finish : Option (Option QuiesceEpoch) → Option QuiesceEpoch
finish none = none
finish (some least) = some (min_or_max least)

-- `FreezeList::quiesce`
unfoldable pub quiesce : QuiesceEpoch → List Visit → Option QuiesceEpoch
unfolding min_epochs
quiesce epoch visits = finish (min_epochs epoch visits)
