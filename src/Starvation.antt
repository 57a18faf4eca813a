-- ===== src/Starvation.antt =====
-- src/internal/starvation.rs: the backoff of a thread whose transactions fail, and the lock that a
-- starving thread takes. Each thread's `Progress`, and the operations on the state of the lock.
-- A thread's token is the address of its `Progress`; here it is one more than the thread's number.
pub mod Queue
pub mod Machine
pub mod Invariant
pub mod Local
pub mod Handoff
pub mod Release
pub mod Steps
pub mod Backoff
use swym.Shared.{
  ℕ, suc, ◌+◌, ◌-◌, ◌*◌, ◌/◌, ◌%◌, ◌^◌, Bool, true, false, not, Option, none, some, leb, ◌==◌,
  if◌then◌else◌, ◌&&◌,
}
use swym.Epoch.Word.{QuiesceEpoch, word_mod, tick_size}
use swym.Epoch.Clock.{now}

abbrev pub epoch_buffer_room : ℕ
epoch_buffer_room = 2

abbrev pub no_starvers : ℕ
no_starvers = 0

abbrev pub spin_limit : ℕ
spin_limit = 6

abbrev pub yield_limit : ℕ
yield_limit = 10

abbrev pub locked_bit : ℕ
locked_bit = 1

abbrev pub parked_bit : ℕ
parked_bit = 2

-- `inc_thread_estimate` and `dec_thread_estimate`, on the word MAX_ELAPSED_EPOCHS
abbrev pub inc_thread_estimate : ℕ → ℕ
inc_thread_estimate max_elapsed = (max_elapsed + tick_size * epoch_buffer_room) % word_mod

abbrev pub dec_thread_estimate : ℕ → ℕ
dec_thread_estimate max_elapsed =
    (max_elapsed + word_mod - tick_size * epoch_buffer_room) % word_mod

-- `Token::unpark_token`, of the thread's `Progress`
abbrev pub unpark_token : ℕ → ℕ
unpark_token t = suc t

-- state & PARKED_BIT != 0, and state | PARKED_BIT
abbrev pub parked_bit_set : ℕ → Bool
parked_bit_set state = state / parked_bit % 2 == 1

abbrev pub with_parked_bit : ℕ → ℕ
with_parked_bit state = if parked_bit_set state then state else state + parked_bit

pub data Progress : Type 0 where
  not_starving : Option QuiesceEpoch → ℕ → Progress
  starving : Progress

-- `ProgressImpl::new`
abbrev pub new : Progress
new = not_starving none 0

-- a - b on words
abbrev pub elapsed : ℕ → ℕ → ℕ
elapsed a b = (a + word_mod - b) % word_mod

abbrev pub waited_long : Option QuiesceEpoch → QuiesceEpoch → ℕ → Option Bool
waited_long none epoch max_elapsed = none
waited_long (some time) epoch max_elapsed = some (leb max_elapsed (elapsed time epoch))

-- `should_upgrade`, at a clock; `none` is the abort on a clock that has run out.
unfoldable pub should_upgrade : ℕ → ℕ → Progress → Option Bool
should_upgrade clock max_elapsed (not_starving (some epoch) backoff) =
    if leb yield_limit backoff then some true else waited_long (now clock) epoch max_elapsed
should_upgrade clock max_elapsed (not_starving none backoff) = some false
should_upgrade clock max_elapsed starving = some false

-- What a thread does when it failed: so many `spin_loop_hint`s, or `yield_now`, before it goes on
-- with its new progress; or `yield_now`, before it takes the lock.
pub data Failure : Type 0 where
  spins : ℕ → Progress → Failure
  yields : Progress → Failure
  starve_locks : Failure

abbrev pub first_or : Option QuiesceEpoch → QuiesceEpoch → QuiesceEpoch
first_or none epoch = epoch
first_or (some first_epoch) epoch = first_epoch

abbrev pub back_off : ℕ → QuiesceEpoch → QuiesceEpoch → ℕ → Failure
back_off max_elapsed epoch first_failed backoff =
    if leb backoff spin_limit
    then if leb max_elapsed (elapsed epoch first_failed)
      then yields (not_starving (some first_failed) (spin_limit + 1))
      else spins (2 ^ backoff) (not_starving (some first_failed) (backoff + 1))
    else yields (not_starving (some first_failed) (backoff + 1))

unfoldable pub failed_to_progress : ℕ → QuiesceEpoch → Progress → Failure
failed_to_progress max_elapsed epoch (not_starving first_failed backoff) =
    if leb backoff yield_limit
    then back_off max_elapsed epoch (first_or first_failed epoch) backoff
    else starve_locks
failed_to_progress max_elapsed epoch starving = yields starving

-- Where a thread stands: out of the calls that may block; in `starve_lock`; in `wait_for_starvers`;
-- with the lock, before it marks itself as starving; or in `starve_unlock`. In a loop, the value of
-- the local `state`; woken, the token that it was given.
pub data Pc : Type 0 where
  out : Pc
  lock_fast : Pc
  lock_load : Pc
  lock_loop : ℕ → Pc
  lock_park : Pc
  lock_asleep : Pc
  lock_woken : ℕ → Pc
  wait_fast : Pc
  wait_load : Pc
  wait_loop : ℕ → Pc
  wait_park : Pc
  wait_asleep : Pc
  wait_woken : ℕ → Pc
  granted : Pc
  unlocking : Pc
  unlocking_slow : Pc

-- One atomic operation: where the thread stands after it, and the state of the lock. A weak
-- compare-and-exchange may fail though the state is the expected one: `spurious`.
-- `starve_lock`
unfoldable pub starve_lock : Bool → ℕ → Pc × ℕ
starve_lock spurious state =
    if state == 0 && not spurious then (granted, locked_bit) else (lock_load, state)

-- One turn of the loop of `starve_lock_slow`, whose local `state` is `seen`
unfoldable pub starve_lock_slow : Bool → ℕ → ℕ → Pc × ℕ
starve_lock_slow spurious seen state =
    if seen == 0
    then (if state == 0 && not spurious then (granted, locked_bit) else (lock_loop state, state))
    else if parked_bit_set seen
    then (lock_park, state)
    else if state == seen && not spurious
    then (lock_park, with_parked_bit seen)
    else (lock_loop state, state)

-- `wait_for_starvers`
unfoldable pub wait_for_starvers : ℕ → Pc × ℕ
wait_for_starvers state = if state == 0 then (out, state) else (wait_load, state)

-- One turn of the loop of `wait_for_starvers_slow`
unfoldable pub wait_for_starvers_slow : Bool → ℕ → ℕ → Pc × ℕ
wait_for_starvers_slow spurious seen state =
    if seen == 0
    then (out, state)
    else if parked_bit_set seen
    then (wait_park, state)
    else if state == seen && not spurious
    then (wait_park, with_parked_bit seen)
    else (wait_loop state, state)

-- The compare-and-exchange of `starve_unlock`
unfoldable pub starve_unlock : ℕ → Pc × ℕ
starve_unlock state = if state == locked_bit then (out, 0) else (unlocking_slow, state)

-- What the loops do when `park` returns with the token of the thread that woke them
unfoldable pub after_lock_park : ℕ → Pc
after_lock_park token = granted

unfoldable pub after_wait_park : ℕ → ℕ → Pc
after_wait_park t token =
    if token == no_starvers then out else if token == unpark_token t then out else wait_load

-- `Progress::wait_for_starvers`
unfoldable pub enter_wait : Progress → Pc
enter_wait (not_starving first_failed backoff) = wait_fast
enter_wait starving = out

-- `progressed` and `progressed_slow`, up to the call of `starve_unlock`
unfoldable pub progressed : Progress → Progress × Pc
progressed (not_starving none backoff) = (not_starving none backoff, out)
progressed (not_starving (some epoch) backoff) = (new, out)
progressed starving = (starving, unlocking)
