-- ===== src/ReadLog.antt =====
-- src/internal/read_log.rs: the cells that a transaction has read.
pub mod Laws
use swym.Shared.{
  ℕ, ◌+◌, Bool, true, false, not, Option, none, some, List, [], ◌∷◌, ◌++◌, length, ◌==◌, ◌&&◌,
  if◌then◌else◌,
}
use swym.Epoch.Word.{QuiesceEpoch, read_write_valid}
use swym.Memory.{Memory}

pub record ReadLog : Type 0 where
  pub entries : List (Option ℕ)
  pub capacity : ℕ

abbrev pub new : ReadLog
new = record { entries = []; capacity = 0 }

abbrev pub next_push_allocates : ReadLog → Bool
next_push_allocates l = l.capacity == length l.entries

-- `record`, where a push that does not fit takes the capacity `grow`; `record_unchecked` is the same
-- where the push fits.
unfoldable pub record_read : ℕ → ℕ → ReadLog → ReadLog
record_read k grow l = record {
  entries = l.entries ++ some k ∷ [];
  capacity = if next_push_allocates l then grow else l.capacity;
}

abbrev pub clear : ReadLog → ReadLog
clear l = record l { entries = [] }

-- The iterator of `epoch_locks`: `flatten` drops what was filtered out.
abbrev pub cons_read : Option ℕ → List ℕ → List ℕ
cons_read none ks = ks
cons_read (some k) ks = k ∷ ks

unfoldable pub epoch_locks : List (Option ℕ) → List ℕ
epoch_locks [] = []
epoch_locks (o ∷ os) = cons_read o (epoch_locks os)

-- `read_write_valid_lockable` of the cell's lock
abbrev pub valid_at : QuiesceEpoch → Memory → ℕ → Bool
valid_at e m k = read_write_valid e (m k).current_epoch

-- The loop of `validate_reads` and of `WriteLog::validate_writes`.
unfoldable pub all_valid : QuiesceEpoch → Memory → List ℕ → Bool
all_valid e m [] = true
all_valid e m (k ∷ ks) = if not (valid_at e m k) then false else all_valid e m ks

abbrev pub validate_reads : QuiesceEpoch → Memory → ReadLog → Bool
validate_reads e m l = all_valid e m (epoch_locks l.entries)
