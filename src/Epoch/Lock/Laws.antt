-- ===== src/Epoch/Lock/Laws.antt =====
-- src/internal/epoch.rs: what the operations of `EpochLock` do to the word.
use swym.Shared.{ℕ, ◌<◌, ◌≤◌, ◌≡◌, ◌↔◌, ◌≢◌, true, false, Option, none, some, arith, refl}
use swym.Epoch.Word.{
  IsTime, word_mod, as_unlocked, toggle_lock_bit, unpark_bit_set, read_write_valid,
}
use swym.Epoch.Lock.{
  ParkStatus, no_parked, has_parked, park_status, try_lock_from, try_lock, try_lock_htm,
  unlock_undo, is_locked, try_clear_unpark_bit, try_clear_unpark_bit_from, set_unpark_bit,
  clear_unpark_bit_htm,
}

-- A locked word is later than every time, so no epoch that is a time can read it.
pub locked-not-valid :
    (e w : ℕ) → IsTime e → w < word_mod → is_locked w ≡ true → read_write_valid e w ≡ false
locked-not-valid e w t h l = ground arith

-- For an epoch with no lock bit, `try_lock` succeeds exactly when the lock is free and its epoch
-- is not later than that epoch.
pub try_lock_iff :
    (e w : ℕ)
    → IsTime e
    → w < word_mod
    → ((try_lock e w).0 ≢ none) ↔ ((is_locked w ≡ false) × (as_unlocked w ≤ e))
unfolding try_lock
try_lock_iff e w t h = ground arith

-- What holds when the exchange of `try_lock` succeeded, from the word `w` to `w'`.
pub record Locked (e w w' : ℕ) (status : ParkStatus) : Type 0 where
  pub was_free : is_locked w ≡ false
  pub not_later : w ≤ e
  pub toggled : w' ≡ toggle_lock_bit w
  pub now_locked : is_locked w' ≡ true
  pub kept : as_unlocked w' ≡ w
  pub undone : unlock_undo w' ≡ w
  pub fits : w' < word_mod
  pub status_read : status ≡ park_status w

-- A `try_lock` that succeeds, whatever word it loaded first, found the lock free and not later
-- than the epoch, sets the lock bit and keeps every other bit, is undone by `unlock_undo`, and
-- reports the unpark bit of the word that it replaced.
pub try_lock_from-Locked :
    (e actual w w' : ℕ) (status : ParkStatus)
    → IsTime e
    → try_lock_from e actual w ≡ (some status, w')
    → Locked e w w' status
unfolding try_lock_from
try_lock_from-Locked e actual w w' status t h = ground arith

-- The same of a `try_lock` with no other thread in between.
pub try_lock-Locked :
    (e w w' : ℕ) (status : ParkStatus)
    → IsTime e
    → try_lock e w ≡ (some status, w')
    → Locked e w w' status
unfolding try_lock
try_lock-Locked e w w' status t h = try_lock_from-Locked e w w w' status t h

pub try_lock-refused :
    (e w w' : ℕ) → try_lock e w ≡ (none, w') → ¬ ((is_locked w ≡ false) × (w ≤ e))
unfolding try_lock
try_lock-refused e w w' h = ground arith

-- A `try_lock` that fails leaves the word as it is.
pub try_lock_from_failed : (e actual w w' : ℕ) → try_lock_from e actual w ≡ (none, w') → w' ≡ w
unfolding try_lock_from
try_lock_from_failed e actual w w' h = ground arith

-- In hardware and in software the lock has the same outcome.
pub try_lock_htm-try_lock :
    (e w w' : ℕ) (status : ParkStatus)
    → (try_lock_htm e w ≡ some (status, w')) ↔ (try_lock e w ≡ (some status, w'))
unfolding try_lock_htm try_lock
try_lock_htm-try_lock e w w' status = ground arith

-- The outcome of `try_clear_unpark_bit`, with the word after it. One that reports `NoParked` found
-- the bit set, in a word not later than the epoch, and cleared it, which `set_unpark_bit` undoes; one
-- that reports `HasParked` changed nothing, as one that failed.
abbrev pub Cleared : ℕ → ℕ → ℕ → Option ParkStatus × ℕ → Type 0
Cleared e actual w (none, w') = w' ≡ w
Cleared e actual w (some has_parked, w') = (w' ≡ w) × (unpark_bit_set actual ≡ false) × (actual ≤ e)
Cleared e actual w (some no_parked, w') =
    (actual ≡ w)
    × (w ≤ e)
    × (unpark_bit_set w ≡ true)
    × (unpark_bit_set w' ≡ false)
    × (set_unpark_bit w' ≡ w)

Cleared-exchange :
    (e actual w : ℕ) (r : Option ParkStatus × ℕ)
    → try_clear_unpark_bit_from e actual w ≡ r
    → Cleared e actual w r
unfolding try_clear_unpark_bit_from
Cleared-exchange e actual w (none, w') h = ground arith
Cleared-exchange e actual w (some has_parked, w') h = ground arith
Cleared-exchange e actual w (some no_parked, w') h = ground arith

-- Whatever word it loaded first, a `try_clear_unpark_bit` that reports `NoParked` found that word
-- in place, not later than the epoch and with its bit set, and cleared that bit alone, so that
-- `set_unpark_bit` restores the word; one that reports `HasParked` loaded a word with the bit clear,
-- not later than the epoch, and like one that failed it changed nothing.
pub try_clear_unpark_bit_from-Cleared :
    (e actual w : ℕ) → Cleared e actual w (try_clear_unpark_bit_from e actual w)
try_clear_unpark_bit_from-Cleared e actual w = Cleared-exchange e actual w _ refl

-- In hardware and in software the bit is cleared alike.
pub clear_unpark_bit_htm-try_clear_unpark_bit :
    (e w : ℕ)
    → clear_unpark_bit_htm e w ≢ none
    → clear_unpark_bit_htm e w ≡ some (try_clear_unpark_bit e w).1
unfolding clear_unpark_bit_htm try_clear_unpark_bit
clear_unpark_bit_htm-try_clear_unpark_bit e w h = ground arith
