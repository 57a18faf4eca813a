-- ===== src/Starvation/Machine.antt =====
-- src/internal/starvation.rs: many threads that fail, starve, wait and make progress. Each step is
-- one atomic operation of one thread, and the steps are interleaved in any order.
use swym.Shared.{
  ℕ, ◌≡◌, Bool, Option, none, some, List, [], ◌∷◌, ◌++◌, member, update, if◌then◌else◌,
}
use swym.Starvation.{
  Progress, new, starving, should_upgrade, Failure, spins, yields, starve_locks, failed_to_progress,
  Pc, out, granted, unlocking, unlocking_slow, lock_asleep, wait_asleep, parked_bit_set,
  starve_lock, starve_lock_slow, wait_for_starvers, wait_for_starvers_slow, starve_unlock,
  after_lock_park, after_wait_park, enter_wait, progressed,
}
use swym.Starvation.Queue.{ParkingLot, filter, callback}

-- The state of the lock; each thread's `Progress` and where it stands; the threads that sleep, in
-- the order in which they went to sleep; and the thread that has the lock.
pub record Machine : Type 0 where
  pub state : ℕ
  pub progress : ℕ → Progress
  pub pc : ℕ → Pc
  pub queue : List ℕ
  pub holder : Option ℕ

abbrev pub goes : ℕ → Pc → Machine → Machine
goes t p s = record s { pc = update s.pc t p }

abbrev pub becomes : ℕ → Progress → Pc → Machine → Machine
becomes t g p s = record s { progress = update s.progress t g; pc = update s.pc t p }

-- A thread that comes to `granted` by its own operation has taken the lock.
abbrev pub taken : ℕ → Pc → Option ℕ → Option ℕ
taken t Pc.granted held = some t
taken t p held = held

-- A thread after an operation on the state of the lock
abbrev pub turned : ℕ → Pc × ℕ → Machine → Machine
turned t (p, state) s = record s {
  state = state;
  pc = update s.pc t p;
  holder = taken t p s.holder;
}

abbrev pub after_failure : ℕ → Failure → Machine → Machine
after_failure t (spins count g) s = becomes t g out s
after_failure t (yields g) s = becomes t g out s
after_failure t starve_locks s = goes t Pc.lock_fast s

-- `park`, at the sleeping point and at the point to which an invalid call of it returns. The bit is
-- tested and the thread is queued while parking_lot holds the lock of the queue.
unfoldable pub park : ℕ → Pc → Pc → Machine → Machine
park t asleep again s =
    if parked_bit_set s.state
    then record s { pc = update s.pc t asleep; queue = s.queue ++ (t ∷ []) }
    else goes t again s

abbrev pub progress_made : ℕ → Progress × Pc → Machine → Machine
progress_made t (g, p) s = becomes t g p s

-- The end of `starve_unlock` that gives the lock up, or the way to the slow path
abbrev pub unlock_tried : ℕ → Pc × ℕ → Machine → Machine
unlock_tried t (Pc.unlocking_slow, state) s = record (goes t unlocking_slow s) { state = state }
unlock_tried t (p, state) s = record (becomes t new p s) { state = state; holder = none }

-- A thread that is taken out of the queue is given the token.
abbrev pub wake : ℕ → Pc → Pc
wake token Pc.lock_asleep = Pc.lock_woken token
wake token Pc.wait_asleep = Pc.wait_woken token
wake token p = p

abbrev pub upgrade : Option ℕ → (ℕ → Progress) → ℕ → Progress
upgrade none progress = progress
upgrade (some u) progress = update progress u starving

-- `starve_unlock_slow`, and the end of `progressed_slow`, with the answers of `should_upgrade`. The
-- filter and the callback run while parking_lot holds the lock of the queue.
unfoldable pub starve_unlock_slow : ParkingLot → (ℕ → Bool) → ℕ → Machine → Machine
starve_unlock_slow lot answers t s =
    let r = lot.unpark_filter (filter answers) none s.queue in
    let (state, token) = callback r s.state in
    record {
      state = state;
      progress = update (upgrade r.next_starved s.progress) t new;
      pc = update (λ j. if member j r.unparked then wake token (s.pc j) else s.pc j) t out;
      queue = r.remaining;
      holder = r.next_starved;
    }

-- One atomic operation of one thread.
pub data Step (lot : ParkingLot) (s : Machine) : Machine → Type 0 where
  -- `failed_to_progress`, up to the call of `starve_lock`
  fail :
      (t max_elapsed epoch : ℕ)
      → s.pc t ≡ out
      → Step lot s (after_failure t (failed_to_progress max_elapsed epoch (s.progress t)) s)
  -- `starve_lock` and the loop of `starve_lock_slow`
  lock :
      (t : ℕ) (spurious : Bool)
      → s.pc t ≡ Pc.lock_fast
      → Step lot s (turned t (starve_lock spurious s.state) s)
  lock_reads : (t : ℕ) → s.pc t ≡ Pc.lock_load → Step lot s (goes t (Pc.lock_loop s.state) s)
  lock_turns :
      (t seen : ℕ) (spurious : Bool)
      → s.pc t ≡ Pc.lock_loop seen
      → Step lot s (turned t (starve_lock_slow spurious seen s.state) s)
  lock_parks : (t : ℕ) → s.pc t ≡ Pc.lock_park → Step lot s (park t lock_asleep Pc.lock_load s)
  lock_wakes :
      (t token : ℕ) → s.pc t ≡ Pc.lock_woken token → Step lot s (goes t (after_lock_park token) s)
  -- the end of `failed_to_progress`, with the lock
  starves : (t : ℕ) → s.pc t ≡ granted → Step lot s (becomes t starving out s)
  -- `wait_for_starvers` and the loop of `wait_for_starvers_slow`
  enters : (t : ℕ) → s.pc t ≡ out → Step lot s (goes t (enter_wait (s.progress t)) s)
  wait : (t : ℕ) → s.pc t ≡ Pc.wait_fast → Step lot s (turned t (wait_for_starvers s.state) s)
  wait_reads : (t : ℕ) → s.pc t ≡ Pc.wait_load → Step lot s (goes t (Pc.wait_loop s.state) s)
  wait_turns :
      (t seen : ℕ) (spurious : Bool)
      → s.pc t ≡ Pc.wait_loop seen
      → Step lot s (turned t (wait_for_starvers_slow spurious seen s.state) s)
  wait_parks : (t : ℕ) → s.pc t ≡ Pc.wait_park → Step lot s (park t wait_asleep Pc.wait_load s)
  wait_wakes :
      (t token : ℕ) → s.pc t ≡ Pc.wait_woken token → Step lot s (goes t (after_wait_park t token) s)
  -- `progressed`, up to the call of `starve_unlock`
  progresses : (t : ℕ) → s.pc t ≡ out → Step lot s (progress_made t (progressed (s.progress t)) s)
  unlock : (t : ℕ) → s.pc t ≡ unlocking → Step lot s (unlock_tried t (starve_unlock s.state) s)
  -- Each sleeping thread is asked at the clock and the estimate of that moment.
  unlock_slow :
      (t : ℕ) (clock max_elapsed : ℕ → ℕ) (answers : ℕ → Bool)
      → s.pc t ≡ unlocking_slow
      → ((j : ℕ) → should_upgrade (clock j) (max_elapsed j) (s.progress j) ≡ some (answers j))
      → Step lot s (starve_unlock_slow lot answers t s)

-- Any number of steps.
pub data Steps (lot : ParkingLot) (s : Machine) : Machine → Type 0 where
  stay : Steps lot s s
  next : {u v : Machine} → Steps lot s u → Step lot u v → Steps lot s v

-- Every thread out of the calls, with a new `Progress`, and the lock free.
abbrev pub start : Machine
start = record { state = 0; progress = λ t. new; pc = λ t. out; queue = []; holder = none }
