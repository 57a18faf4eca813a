-- ===== src/Protocol/Snapshot.antt =====
-- src/internal/commit.rs, src/read.rs, src/rw.rs: what a transaction reads is a snapshot of the
-- memory at the time that it pinned.
use swym.Shared.{
  ℕ, ◌≡◌, ◌≤◌, ◌<◌, ◌==◌, ◌⊎◌, true, false, Option, none, some, List, update, arith, refl, inl, inr,
  Bool-cases,
}
use swym.Epoch.Word.{QuiesceEpoch, next_epoch, as_unlocked, lock_bit}
use swym.Epoch.Lock
use swym.Epoch.Lock.{is_locked, unlock_undo, ParkStatus, try_lock}
use swym.Epoch.Lock.Laws.{try_lock-Locked}
use swym.Epoch.Clock.{now}
use swym.ReadLog.{valid_at}
use swym.Protocol.{Phase, Machine, word, with_lock, Step, Steps, stay, next}
use swym.Protocol.Invariant.{
  Inv, CellOk, PhaseOk, word-with_lock, word-store_value, locking-IsTime, held-CellOk, Steps-Inv,
}

-- A cell that no transaction pinned at `e` will ever read again: it has a later epoch, or it is
-- locked by a thread that writes, or that publishes a later epoch.
abbrev pub DeadIn : QuiesceEpoch → Phase → ℕ → Type 0
DeadIn e Phase.idle w = e < as_unlocked w
DeadIn e (Phase.locking p) w = e < as_unlocked w
DeadIn e Phase.writing w = Unit
DeadIn e (Phase.publishing sync) w = e ≤ sync

abbrev pub Dead : QuiesceEpoch → Option ℕ → (ℕ → Phase) → ℕ → Type 0
Dead e none phase w = e < w
Dead e (some t) phase w = DeadIn e (phase t) w

abbrev pub IsDead : QuiesceEpoch → Machine → ℕ → Type 0
IsDead e s k = Dead e (s.held k) s.phase (word s k)

-- A thread that goes to another phase.
Dead-to_phase :
    (e w t : ℕ) (o : Option ℕ) (phase : ℕ → Phase) (p : Phase)
    → (o ≡ some t → DeadIn e (phase t) w → DeadIn e p w)
    → Dead e o phase w
    → Dead e o (update phase t p) w
Dead-to_phase e w t none phase p keep d = d
Dead-to_phase e w t (some j) phase p keep d = elim (Bool-cases (t == j)) [
  | inl same ↦ let q : j ≡ t = ground arith in rw same (keep (rw q) (rw q at d))
  | inr other ↦ rw other d
]

-- A lock that changes hands.
Dead-with_lock :
    (e k w j : ℕ) (o : Option ℕ) (s : Machine)
    → (k ≡ j → IsDead e s j → Dead e o s.phase w)
    → IsDead e s j
    → IsDead e (with_lock s k w o) j
Dead-with_lock e k w j o s keep d = elim (Bool-cases (k == j)) [
  | inl same ↦ rw (word-with_lock s k w j o, same) (keep (ground arith) d)
  | inr other ↦ rw (word-with_lock s k w j o, other) d
]

lock-Dead :
    (e : QuiesceEpoch) (s : Machine) (t p k w : ℕ) (status : ParkStatus)
    → Inv s
    → s.phase t ≡ Phase.locking p
    → try_lock p (word s k) ≡ (some status, w)
    → IsDead e s k
    → Dead e (some t) s.phase w
lock-Dead e s t p k w status i h q d = rw h (by_held (s.held k) (i.cells k) d)
  where
    by_held :
        (o : Option ℕ)
        → CellOk s.clock o (word s k)
        → Dead e o s.phase (word s k)
        → e < as_unlocked w
    by_held none free late =
        let l = try_lock-Locked p (word s k) w status (locking-IsTime s t p i h) q in
        omega (arith, l.kept)
    by_held (some t') taken late =
        let l = try_lock-Locked p (word s k) w status (locking-IsTime s t p i h) q in
        absurd (ground (arith, l.was_free, taken.0))

undo-Dead :
    (e : QuiesceEpoch) (s : Machine) (t p k : ℕ)
    → Inv s
    → s.phase t ≡ Phase.locking p
    → s.held k ≡ some t
    → IsDead e s k
    → e < Lock.unlock_undo (word s k)
undo-Dead e s t p k i h o d =
    let d' : e < as_unlocked (word s k) = rw (o, h) at d in
    let (taken, fits, le) = held-CellOk s k t i o in ground arith

publish-Dead :
    (e : QuiesceEpoch) (s : Machine) (t sync k : ℕ)
    → Inv s
    → s.phase t ≡ Phase.publishing sync
    → s.held k ≡ some t
    → IsDead e s k
    → e < next_epoch sync
publish-Dead e s t sync k i h o d =
    let d' : e ≤ sync = rw (o, h) at d in
    let (up, le) : PhaseOk s.clock (Phase.publishing sync) = rw h at (i.phases t) in omega arith

-- A cell that is dead stays so.
pub Step-IsDead :
    (e : QuiesceEpoch) (s s' : Machine) (j : ℕ)
    → Step s s'
    → Inv s
    → e ≤ s.clock
    → IsDead e s j
    → IsDead e s' j
Step-IsDead e s _ j (Step.pin t p h q) i c d =
    Dead-to_phase e (word s j) t (s.held j) s.phase _ (λ o x. rw h at x) d
Step-IsDead e s _ j (Step.lock t p k w status h q) i c d =
    Dead-with_lock e k w j (some t) s
      (λ same x. lock-Dead e s t p k w status i h q (rw (← same) at x)) d
Step-IsDead e s _ j (Step.undo t p k h o) i c d =
    Dead-with_lock e k _ j none s (λ same x. undo-Dead e s t p k i h o (rw (← same) at x)) d
Step-IsDead e s _ j (Step.fail t p h n) i c d =
    Dead-to_phase e (word s j) t (s.held j) s.phase _ (λ o x. absurd (n j o)) d
Step-IsDead e s _ j (Step.validate t p h) i c d =
    Dead-to_phase e (word s j) t (s.held j) s.phase _ (λ o x. tt) d
Step-IsDead e s _ j (Step.write t k v h o) i c d = rw (word-store_value k j v s.memory) d
Step-IsDead e s _ j (Step.tick t sync clock h q small) i c d =
    Dead-to_phase e (word s j) t (s.held j) s.phase _ (λ o x. ground arith) d
Step-IsDead e s _ j (Step.release t sync k h o) i c d =
    Dead-with_lock e k _ j none s (λ same x. publish-Dead e s t sync k i h o (rw (← same) at x)) d
Step-IsDead e s _ j (Step.leave t sync h n) i c d =
    Dead-to_phase e (word s j) t (s.held j) s.phase _ (λ o x. absurd (n j o)) d

-- The value of a cell is as in `v`, or the cell is dead.
abbrev pub SameOrDead : QuiesceEpoch → List ℕ → Machine → ℕ → Type 0
SameOrDead e v s k = ((s.memory k).value ≡ v) ⊎ IsDead e s k

value-with_lock :
    (s : Machine) (k w j : ℕ) (o : Option ℕ)
    → ((with_lock s k w o).memory j).value ≡ (s.memory j).value
value-with_lock s k w j o = ground arith

-- No step changes the value of a cell, unless it leaves the cell dead.
Step-value :
    (e : QuiesceEpoch) (s s' : Machine) (j : ℕ) → Step s s' → SameOrDead e (s.memory j).value s' j
Step-value e s _ j (Step.pin t p h q) = inl refl
Step-value e s _ j (Step.lock t p k w status h q) = inl (value-with_lock s k w j (some t))
Step-value e s _ j (Step.undo t p k h o) = inl (value-with_lock s k _ j none)
Step-value e s _ j (Step.fail t p h n) = inl refl
Step-value e s _ j (Step.validate t p h) = inl refl
Step-value e s _ j (Step.write t k v h o) = elim (Bool-cases (k == j)) [
  | inl same ↦ let q : j ≡ k = ground arith in inr (rw (q, o, h) tt)
  | inr other ↦ inl (ground arith)
]
Step-value e s _ j (Step.tick t sync clock h q small) = inl refl
Step-value e s _ j (Step.release t sync k h o) = inl (value-with_lock s k _ j none)
Step-value e s _ j (Step.leave t sync h n) = inl refl

Step-clock : (s s' : Machine) → Step s s' → Inv s → s.clock ≤ s'.clock
Step-clock s _ (Step.pin t p h q) i = omega arith
Step-clock s _ (Step.lock t p k w status h q) i = omega arith
Step-clock s _ (Step.undo t p k h o) i = omega arith
Step-clock s _ (Step.fail t p h n) i = omega arith
Step-clock s _ (Step.validate t p h) i = omega arith
Step-clock s _ (Step.write t k v h o) i = omega arith
Step-clock s _ (Step.tick t sync clock h q small) i = let unlocked = i.time.unlocked in ground arith
Step-clock s _ (Step.release t sync k h o) i = omega arith
Step-clock s _ (Step.leave t sync h n) i = omega arith

pub Steps-clock : (s s' : Machine) → Steps s s' → Inv s → s.clock ≤ s'.clock
Steps-clock s _ stay i = omega arith
Steps-clock s _ (next {u} {v} more last) i =
    omega (arith, Steps-clock s u more i, Step-clock u v last (Steps-Inv s u more i))

pub Steps-IsDead :
    (e : QuiesceEpoch) (s s' : Machine) (j : ℕ)
    → Steps s s'
    → Inv s
    → e ≤ s.clock
    → IsDead e s j
    → IsDead e s' j
Steps-IsDead e s _ j stay i c d = d
Steps-IsDead e s _ j (next {u} {v} more last) i c d =
    Step-IsDead e u v j last (Steps-Inv s u more i) (omega (arith, Steps-clock s u more i))
      (Steps-IsDead e s u j more i c d)

Steps-value :
    (e : QuiesceEpoch) (s s' : Machine) (j : ℕ)
    → Steps s s'
    → Inv s
    → e ≤ s.clock
    → SameOrDead e (s.memory j).value s' j
Steps-value e s _ j stay i c = inl refl
Steps-value e s _ j (next {u} {v} more last) i c = elim (Steps-value e s u j more i c) [
  | inl same ↦ rw (← same) (Step-value e u v j last)
  | inr dead ↦
      inr (
        Step-IsDead e u v j last (Steps-Inv s u more i) (omega (arith, Steps-clock s u more i))
          dead)
]

-- A dead cell is not readable at the epoch.
IsDead-valid_at :
    (e : QuiesceEpoch) (s : Machine) (k : ℕ)
    → Inv s
    → e < lock_bit
    → IsDead e s k
    → valid_at e s.memory k ≡ false
IsDead-valid_at e s k i small d = by_held (s.held k) (i.cells k) d
  where
    by_held :
        (o : Option ℕ)
        → CellOk s.clock o (word s k)
        → Dead e o s.phase (word s k)
        → valid_at e s.memory k ≡ false
    by_held none free late = ground arith
    by_held (some t) (taken, fits, le) late = ground arith

-- Whatever steps other threads take in between, a value that a transaction loads from a cell, and
-- whose lock it later finds readable at its pinned epoch, is the value that the cell had when the
-- transaction pinned that epoch: all its reads are of one snapshot.
pub read_snapshot :
    (pinned loaded checked : Machine) (e : QuiesceEpoch) (k : ℕ)
    → Inv pinned
    → now pinned.clock ≡ some e
    → Steps pinned loaded
    → Steps loaded checked
    → valid_at e checked.memory k ≡ true
    → (loaded.memory k).value ≡ (pinned.memory k).value
read_snapshot pinned loaded checked e k i q before after valid =
    let c : pinned.clock ≡ e = ground arith in
    let small : e < lock_bit = omega (arith, i.time.unlocked) in
    let i' = Steps-Inv pinned loaded before i in
    elim (Steps-value e pinned loaded k before i (omega arith)) [
      | inl same ↦ same
      | inr dead ↦
          let still =
            Steps-IsDead e loaded checked k after i'
              (omega (arith, Steps-clock pinned loaded before i)) dead in
          let no = IsDead-valid_at e checked k (Steps-Inv loaded checked after i') small still in
          absurd (cc)
    ]
