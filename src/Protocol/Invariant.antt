-- ===== src/Protocol/Invariant.antt =====
-- src/internal/commit.rs: which locks are held, and which epochs the cells carry.
use swym.Shared.{
  ℕ, ◌≡◌, ◌≤◌, ◌<◌, ◌==◌, true, false, Option, none, some, List, update, arith, refl, inl, inr,
  Bool-cases, if◌then◌else◌,
}
use swym.Epoch.Word.{QuiesceEpoch, IsTime, word_mod, next_epoch, as_unlocked, lock_bit}
use swym.Epoch.Lock
use swym.Epoch.Lock.{is_locked, unlock_undo, ParkStatus, try_lock}
use swym.Epoch.Lock.Laws.{try_lock-Locked}
use swym.Epoch.Clock.{fetch_and_tick}
use swym.Memory.{Memory, store_value}
use swym.Protocol.{Phase, Machine, word, to_phase, with_lock, Step, Steps, start, stay, next}

-- The word of a cell: free, it is an epoch that the clock has reached; held, it is locked, over such
-- an epoch.
abbrev pub CellOk : ℕ → Option ℕ → ℕ → Type 0
CellOk clock none w = (is_locked w ≡ false) × (w ≤ clock)
CellOk clock (some t) w = (is_locked w ≡ true) × (w < word_mod) × (as_unlocked w ≤ clock)

-- What a thread remembers: a pinned epoch is a time, and the epoch that it publishes is reached.
abbrev pub PhaseOk : ℕ → Phase → Type 0
PhaseOk clock Phase.idle = Unit
PhaseOk clock (Phase.locking p) = IsTime p
PhaseOk clock Phase.writing = Unit
PhaseOk clock (Phase.publishing sync) = (sync < next_epoch sync) × (next_epoch sync ≤ clock)

pub record Inv (s : Machine) : Type 0 where
  pub time : IsTime s.clock
  pub cells : (k : ℕ) → CellOk s.clock (s.held k) (word s k)
  pub phases : (t : ℕ) → PhaseOk s.clock (s.phase t)

CellOk-later : (c c' : ℕ) (o : Option ℕ) (w : ℕ) → c ≤ c' → CellOk c o w → CellOk c' o w
CellOk-later c c' none w h (free, le) = (free, omega arith)
CellOk-later c c' (some t) w h (l, q, le) = (l, q, omega arith)

PhaseOk-later : (c c' : ℕ) (p : Phase) → c ≤ c' → PhaseOk c p → PhaseOk c' p
PhaseOk-later c c' Phase.idle h o = tt
PhaseOk-later c c' (Phase.locking p) h o = o
PhaseOk-later c c' Phase.writing h o = tt
PhaseOk-later c c' (Phase.publishing sync) h o = (o.0, omega arith)

PhaseOk-update :
    (c t : ℕ) (phase : ℕ → Phase) (p : Phase)
    → ((t : ℕ) → PhaseOk c (phase t))
    → PhaseOk c p
    → (j : ℕ) → PhaseOk c (update phase t p j)
PhaseOk-update c t phase p old new j = elim (Bool-cases (t == j)) [
  | inl here ↦ rw here new
  | inr there ↦ rw there (old j)
]

pub word-with_lock :
    (s : Machine) (k w j : ℕ) (o : Option ℕ)
    → word (with_lock s k w o) j ≡ (if k == j then w else word s j)
word-with_lock s k w j o = ground arith

pub word-store_value :
    (k j : ℕ) (v : List ℕ) (m : Memory) → (store_value k v m j).current_epoch ≡ (m j).current_epoch
word-store_value k j v m = ground arith

with_lock-Inv :
    (s : Machine) (k w : ℕ) (o : Option ℕ) → Inv s → CellOk s.clock o w → Inv (with_lock s k w o)
with_lock-Inv s k w o i new = record { time = i.time; cells = cells; phases = i.phases }
  where
    cells : (j : ℕ) → CellOk s.clock (update s.held k o j) (word (with_lock s k w o) j)
    cells j = elim (Bool-cases (k == j)) [
      | inl here ↦ rw (word-with_lock s k w j o, here) new
      | inr there ↦ rw (word-with_lock s k w j o, there) (i.cells j)
    ]

to_phase-Inv : (s : Machine) (t : ℕ) (p : Phase) → Inv s → PhaseOk s.clock p → Inv (to_phase s t p)
to_phase-Inv s t p i new = record {
  time = i.time;
  cells = i.cells;
  phases = PhaseOk-update s.clock t s.phase p i.phases new;
}

pub locking-IsTime :
    (s : Machine) (t : ℕ) (p : QuiesceEpoch) → Inv s → s.phase t ≡ Phase.locking p → IsTime p
locking-IsTime s t p i h = rw h at (i.phases t)

pub held-CellOk :
    (s : Machine) (k t : ℕ) → Inv s → s.held k ≡ some t → CellOk s.clock (some t) (word s k)
held-CellOk s k t i h = rw h at (i.cells k)

lock-CellOk :
    (s : Machine) (t : ℕ) (p : QuiesceEpoch) (k w : ℕ) (status : ParkStatus)
    → Inv s
    → s.phase t ≡ Phase.locking p
    → try_lock p (word s k) ≡ (some status, w)
    → CellOk s.clock (some t) w
lock-CellOk s t p k w status i h q =
    let l = try_lock-Locked p (word s k) w status (locking-IsTime s t p i h) q in
    (l.now_locked, l.fits, by_held (s.held k) (i.cells k))
  where
    by_held : (o : Option ℕ) → CellOk s.clock o (word s k) → as_unlocked w ≤ s.clock
    by_held none (free, le) =
        let l = try_lock-Locked p (word s k) w status (locking-IsTime s t p i h) q in
        omega (arith, l.kept)
    by_held (some t') (taken, fits, rest) =
        let l = try_lock-Locked p (word s k) w status (locking-IsTime s t p i h) q in
        absurd (ground (arith, l.was_free))

undo-CellOk : (c t w : ℕ) → IsTime c → CellOk c (some t) w → CellOk c none (Lock.unlock_undo w)
undo-CellOk c t w time (taken, fits, le) = ground (arith, time.unlocked)

publish-CellOk :
    (s : Machine) (t : ℕ) (sync : QuiesceEpoch)
    → Inv s
    → s.phase t ≡ Phase.publishing sync
    → CellOk s.clock none (next_epoch sync)
publish-CellOk s t sync i h =
    let (up, le) : PhaseOk s.clock (Phase.publishing sync) = rw h at (i.phases t) in
    let small : s.clock < lock_bit = i.time.unlocked in ground arith

write-Inv :
    (s : Machine) (k : ℕ) (v : List ℕ)
    → Inv s
    → Inv (record s { memory = store_value k v s.memory })
write-Inv s k v i = record { time = i.time; cells = cells; phases = i.phases }
  where
    cells : (j : ℕ) → CellOk s.clock (s.held j) (store_value k v s.memory j).current_epoch
    cells j = rw (word-store_value k j v s.memory) (i.cells j)

tick-Inv :
    (s : Machine) (t : ℕ) (sync : QuiesceEpoch) (clock : ℕ)
    → Inv s
    → fetch_and_tick s.clock ≡ (sync, clock)
    → clock < lock_bit
    → Inv (record s { clock = clock; phase = update s.phase t (Phase.publishing sync) })
tick-Inv s t sync clock i q small =
    let begun = i.time.begun in
    let unlocked = i.time.unlocked in
    let later : s.clock ≤ clock = ground arith in
    let up : sync < next_epoch sync = ground arith in
    let reached : next_epoch sync ≤ clock = ground arith in
    record {
      time = record { begun = omega arith; unlocked = small };
      cells = λ k. CellOk-later s.clock clock (s.held k) (word s k) later (i.cells k);
      phases =
          PhaseOk-update clock t s.phase (Phase.publishing sync)
            (λ j. PhaseOk-later s.clock clock (s.phase j) later (i.phases j)) (up, reached);
    }

-- Every step of every thread keeps the invariant.
pub Step-Inv : (s s' : Machine) → Step s s' → Inv s → Inv s'
Step-Inv s _ (Step.pin t p h q) i =
    let same : s.clock ≡ p = ground arith in
    to_phase-Inv s t (Phase.locking p) i (rw same at i.time)
Step-Inv s _ (Step.lock t p k w status h q) i =
    with_lock-Inv s k w (some t) i (lock-CellOk s t p k w status i h q)
Step-Inv s _ (Step.undo t p k h o) i =
    with_lock-Inv s k _ none i (undo-CellOk s.clock t (word s k) i.time (held-CellOk s k t i o))
Step-Inv s _ (Step.fail t p h n) i = to_phase-Inv s t Phase.idle i tt
Step-Inv s _ (Step.validate t p h) i = to_phase-Inv s t Phase.writing i tt
Step-Inv s _ (Step.write t k v h o) i = write-Inv s k v i
Step-Inv s _ (Step.tick t sync clock h q small) i = tick-Inv s t sync clock i q small
Step-Inv s _ (Step.release t sync k h o) i =
    with_lock-Inv s k _ none i (publish-CellOk s t sync i h)
Step-Inv s _ (Step.leave t sync h n) i = to_phase-Inv s t Phase.idle i tt

pub Steps-Inv : (s s' : Machine) → Steps s s' → Inv s → Inv s'
Steps-Inv s _ stay i = i
Steps-Inv s _ (next {u} {v} more last) i = Step-Inv u v last (Steps-Inv s u more i)

pub start-Inv : (values : ℕ → List ℕ) → Inv (start values)
start-Inv values = record {
  time = record { begun = omega arith; unlocked = omega arith };
  cells = λ k. (refl, omega arith);
  phases = λ t. tt;
}
