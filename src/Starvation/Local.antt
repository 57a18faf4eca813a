-- ===== src/Starvation/Local.antt =====
-- src/internal/starvation.rs: operations of one thread that wake no other thread.
use swym.Shared.{
  ℕ, ◌≡◌, ◌==◌, true, false, Option, none, some, List, [], ◌∷◌, ◌++◌, member, Distinct, ◌≢◌, ◌∙◌,
  sym, ap, update, arith, refl, inl, inr, Bool-cases, member-append,
}
use swym.Starvation.{Progress, new, Pc, out, granted, locked_bit}
use swym.Starvation.Machine.{Machine, goes, becomes, turned}
use swym.Starvation.Invariant.{
  holds, asleep, is_holder, Stands, IsBounded, StateOk, QueueOk, Inv, update-All, update-All_both,
}

-- A thread that changes its progress and where it stands, and neither takes the lock nor sleeps.
pub becomes-Inv :
    (s : Machine) (t : ℕ) (g : Progress) (p : Pc)
    → Inv s
    → holds t p g ≡ holds t (s.pc t) (s.progress t)
    → asleep p ≡ asleep (s.pc t)
    → Stands t p g
    → IsBounded g
    → Inv (becomes t g p s)
becomes-Inv s t g p i same_hold same_sleep stands bounded = record {
  state_ok = i.state_ok;
  queue_ok = i.queue_ok;
  distinct = i.distinct;
  held_by =
      update-All_both (λ j p' g'. holds j p' g' ≡ is_holder s.holder j) s.pc s.progress t p g
        i.held_by (same_hold ∙ i.held_by t);
  sleeps =
      update-All (λ j p'. asleep p' ≡ member j s.queue) s.pc t p i.sleeps (same_sleep ∙ i.sleeps t);
  stands = update-All_both Stands s.pc s.progress t p g i.stands stands;
  bounded = update-All (λ _ g'. IsBounded g') s.progress t g i.bounded bounded;
}

-- A thread that only goes on.
pub goes-Inv :
    (s : Machine) (t : ℕ) (p : Pc)
    → Inv s
    → holds t p (s.progress t) ≡ holds t (s.pc t) (s.progress t)
    → asleep p ≡ asleep (s.pc t)
    → Stands t p (s.progress t)
    → Inv (goes t p s)
goes-Inv s t p i same_hold same_sleep stands = record {
  state_ok = i.state_ok;
  queue_ok = i.queue_ok;
  distinct = i.distinct;
  held_by =
      update-All (λ j p'. holds j p' (s.progress j) ≡ is_holder s.holder j) s.pc t p i.held_by
        (same_hold ∙ i.held_by t);
  sleeps =
      update-All (λ j p'. asleep p' ≡ member j s.queue) s.pc t p i.sleeps (same_sleep ∙ i.sleeps t);
  stands = update-All (λ j p'. Stands j p' (s.progress j)) s.pc t p i.stands stands;
  bounded = i.bounded;
}

no_holder : (s : Machine) → Inv s → s.state ≡ 0 → s.holder ≡ none
no_holder s i h = by_holder s.holder i.state_ok refl
  where
    by_holder : (o : Option ℕ) → StateOk o s.state → s.holder ≡ o → s.holder ≡ none
    by_holder none ok q = q
    by_holder (some u) (inl one) q = absurd (omega arith)
    by_holder (some u) (inr both) q = absurd (omega arith)

empty_queue : (s : Machine) → Inv s → s.state ≢ 3 → s.queue ≡ []
empty_queue s i h = by_queue s.queue i.queue_ok refl
  where
    by_queue : (q : List ℕ) → QueueOk q s.state → s.queue ≡ q → s.queue ≡ []
    by_queue [] ok same = same
    by_queue (u ∷ q) ok same = absurd (h ok)

-- A thread that finds the lock free takes it.
pub takes-Inv :
    (s : Machine) (t : ℕ)
    → Inv s
    → s.state ≡ 0
    → asleep (s.pc t) ≡ false
    → Inv (turned t (granted, locked_bit) s)
takes-Inv s t i free awake =
    let empty = empty_queue s i (omega arith) in
    let nobody = no_holder s i free in
    record {
      state_ok = inl refl;
      queue_ok = rw empty tt;
      distinct = i.distinct;
      held_by = λ j. elim (Bool-cases (t == j)) [
        | inl same ↦ rw same
        | inr other ↦ rw other (i.held_by j ∙ ap (λ (o : Option ℕ). is_holder o j) nobody)
      ];
      sleeps = λ j. elim (Bool-cases (t == j)) [
        | inl same ↦ let q : t ≡ j = ground arith in rw same (rw q at (sym awake ∙ i.sleeps t))
        | inr other ↦ rw other (i.sleeps j)
      ];
      stands = λ j. elim (Bool-cases (t == j)) [
        | inl same ↦ rw same tt
        | inr other ↦ rw other (i.stands j)
      ];
      bounded = i.bounded;
    }

-- A thread that finds the lock taken sets the parked bit.
pub marks-Inv :
    (s : Machine) (t : ℕ) (p : Pc)
    → Inv s
    → s.state ≡ 1
    → holds t p (s.progress t) ≡ holds t (s.pc t) (s.progress t)
    → asleep p ≡ asleep (s.pc t)
    → Stands t p (s.progress t)
    → Inv (record (goes t p s) { state = 3 })
marks-Inv s t p i one same_hold same_sleep stands =
    let g = goes-Inv s t p i same_hold same_sleep stands in
    record {
      state_ok = by_holder s.holder i.state_ok;
      queue_ok = rw (empty_queue s i (omega arith)) tt;
      distinct = g.distinct;
      held_by = g.held_by;
      sleeps = g.sleeps;
      stands = g.stands;
      bounded = g.bounded;
    }
  where
    by_holder : (o : Option ℕ) → StateOk o s.state → StateOk o 3
    by_holder none ok = absurd (omega arith)
    by_holder (some u) ok = inr refl

Distinct-snoc : (t : ℕ) (q : List ℕ) → Distinct q → member t q ≡ false → Distinct (q ++ (t ∷ []))
Distinct-snoc t [] d out_of = (refl, tt)
Distinct-snoc t (u ∷ q) d out_of =
    (ground (arith, member-append u q (t ∷ [])), Distinct-snoc t q d.1 (ground arith))

-- A thread that finds both bits set goes to sleep at the end of the queue.
pub falls_asleep-Inv :
    (s : Machine) (t : ℕ) (p : Pc)
    → Inv s
    → s.state ≡ 3
    → asleep (s.pc t) ≡ false
    → holds t p (s.progress t) ≡ holds t (s.pc t) (s.progress t)
    → asleep p ≡ true
    → Stands t p (s.progress t)
    → Inv (record s { pc = update s.pc t p; queue = s.queue ++ (t ∷ []) })
falls_asleep-Inv s t p i both awake same_hold sleeping stands = record {
  state_ok = i.state_ok;
  queue_ok = by_queue s.queue;
  distinct = Distinct-snoc t s.queue i.distinct (sym (i.sleeps t) ∙ awake);
  held_by =
      update-All (λ j p'. holds j p' (s.progress j) ≡ is_holder s.holder j) s.pc t p i.held_by
        (same_hold ∙ i.held_by t);
  sleeps = λ j. elim (Bool-cases (t == j)) [
    | inl same ↦ rw same (ground (arith, member-append j s.queue (t ∷ [])))
    | inr other ↦ rw other (ground (arith, i.sleeps j, member-append j s.queue (t ∷ [])))
  ];
  stands = update-All (λ j p'. Stands j p' (s.progress j)) s.pc t p i.stands stands;
  bounded = i.bounded;
}
  where
    by_queue : (q : List ℕ) → QueueOk (q ++ (t ∷ [])) s.state
    by_queue [] = both
    by_queue (u ∷ q) = both

-- The thread that has the lock.
pub owner :
    (s : Machine) (t : ℕ) → Inv s → holds t (s.pc t) (s.progress t) ≡ true → s.holder ≡ some t
owner s t i h = by_holder s.holder (sym h ∙ i.held_by t)
  where
    by_holder : (o : Option ℕ) → true ≡ is_holder o t → o ≡ some t
    by_holder none q = absurd (cc)
    by_holder (some u) q = ground arith

-- The thread that has the lock gives it up, while no thread sleeps.
pub frees-Inv :
    (s : Machine) (t : ℕ)
    → Inv s
    → s.state ≡ 1
    → holds t (s.pc t) (s.progress t) ≡ true
    → asleep (s.pc t) ≡ false
    → Inv (record (becomes t new out s) { state = 0; holder = none })
frees-Inv s t i one held awake =
    let empty = empty_queue s i (omega arith) in
    let mine = owner s t i held in
    record {
      state_ok = refl;
      queue_ok = rw empty tt;
      distinct = i.distinct;
      held_by = λ j. elim (Bool-cases (t == j)) [
        | inl same ↦ rw same
        | inr other ↦ rw other (i.held_by j ∙ ap (λ (o : Option ℕ). is_holder o j) mine ∙ other)
      ];
      sleeps =
          update-All (λ j p. asleep p ≡ member j s.queue) s.pc t out i.sleeps
            (sym awake ∙ i.sleeps t);
      stands = update-All_both Stands s.pc s.progress t out new i.stands tt;
      bounded = update-All (λ _ g. IsBounded g) s.progress t new i.bounded refl;
    }
