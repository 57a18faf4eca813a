-- ===== src/Starvation/Release.antt =====
-- src/internal/starvation.rs: `starve_unlock_slow` keeps the invariant.
use swym.Shared.{
  ℕ, ◌≡◌, ◌==◌, Bool, true, false, Option, none, some, List, [], ◌∷◌, ◌++◌, member, ◌∙◌, sym, ap,
  update, arith, refl, inl, inr, Bool-cases, if◌then◌else◌,
}
use swym.Starvation.{
  Progress, new, not_starving, starving, Pc, out, unlocking_slow, unpark_token, locked_bit,
  should_upgrade,
}
use swym.Starvation.Queue.{ParkingLot, Scan, filter, callback, token_of, no_more}
use swym.Starvation.Machine.{Machine, wake, upgrade, starve_unlock_slow}
use swym.Starvation.Invariant.{
  is_starving, holds, asleep, is_holder, WantsLock, Stands, IsBounded, StateOk, QueueOk, Inv,
  update-All,
}
use swym.Starvation.Handoff.{Handoff, HandedOver, HandedOver-Handoff, unpark_filter-HandedOver}

-- A thread in `starve_lock` is always to be upgraded.
pub should_upgrade-WantsLock :
    (clock max_elapsed : ℕ) (g : Progress)
    → WantsLock g
    → should_upgrade clock max_elapsed g ≡ some true
unfolding should_upgrade
should_upgrade-WantsLock clock max_elapsed (not_starving (some epoch) backoff) w = ground arith
should_upgrade-WantsLock clock max_elapsed (not_starving none backoff) w = absurd w
should_upgrade-WantsLock clock max_elapsed starving w = absurd w

-- The thread of a token is the one to which the lock is handed.
token_heir : (o : Option ℕ) (j : ℕ) → (token_of o == unpark_token j) ≡ is_holder o j
token_heir none j = ground arith
token_heir (some u) j = ground arith

heir_token : (o : Option ℕ) (j : ℕ) → is_holder o j ≡ true → token_of o ≡ unpark_token j
heir_token o j h = ground (arith, token_heir o j)

upgrade-heir :
    (o : Option ℕ) (progress : ℕ → Progress) (j : ℕ)
    → is_holder o j ≡ true
    → upgrade o progress j ≡ starving
upgrade-heir none progress j h = absurd (cc)
upgrade-heir (some u) progress j h = rw h

upgrade-other :
    (o : Option ℕ) (progress : ℕ → Progress) (j : ℕ)
    → is_holder o j ≡ false
    → upgrade o progress j ≡ progress j
upgrade-other none progress j h = refl
upgrade-other (some u) progress j h = rw h

upgrade-IsBounded :
    (o : Option ℕ) (progress : ℕ → Progress)
    → ((j : ℕ) → IsBounded (progress j))
    → (j : ℕ) → IsBounded (upgrade o progress j)
upgrade-IsBounded none progress b j = b j
upgrade-IsBounded (some u) progress b j = update-All (λ _ g. IsBounded g) progress u starving b tt j

-- A thread that was asleep, woken with the token: it has the lock just when it is the heir, and a
-- thread in `starve_lock` is.
pub record Woken (t : ℕ) (heir : Bool) (p : Pc) (g : Progress) : Type 0 where
  pub held : holds t p g ≡ heir
  pub awake : asleep p ≡ false
  pub stands : Stands t p g

wake-Woken :
    (o : Option ℕ) (j : ℕ) (p : Pc) (g g' : Progress)
    → asleep p ≡ true
    → Stands j p g
    → (WantsLock g → is_holder o j ≡ true)
    → (is_holder o j ≡ true → g' ≡ starving)
    → (is_holder o j ≡ false → g' ≡ g)
    → Woken j (is_holder o j) (wake (token_of o) p) g'
wake-Woken o j Pc.lock_asleep g g' a st heir up same = record {
  held = token_heir o j;
  awake = refl;
  stands = (heir_token o j (heir st), ap is_starving (up (heir st)));
}
wake-Woken o j Pc.wait_asleep g g' a st heir up same = record {
  held = token_heir o j;
  awake = refl;
  stands = by_heir (is_holder o j) refl ∙ sym (token_heir o j);
}
  where
    by_heir : (b : Bool) → is_holder o j ≡ b → is_starving g' ≡ is_holder o j
    by_heir true h = ap is_starving (up h) ∙ sym h
    by_heir false h = ap is_starving (same h) ∙ st ∙ sym h
wake-Woken o j Pc.out g g' a st heir up same = absurd (cc)
wake-Woken o j Pc.lock_fast g g' a st heir up same = absurd (cc)
wake-Woken o j Pc.lock_load g g' a st heir up same = absurd (cc)
wake-Woken o j (Pc.lock_loop seen) g g' a st heir up same = absurd (cc)
wake-Woken o j Pc.lock_park g g' a st heir up same = absurd (cc)
wake-Woken o j (Pc.lock_woken token) g g' a st heir up same = absurd (cc)
wake-Woken o j Pc.wait_fast g g' a st heir up same = absurd (cc)
wake-Woken o j Pc.wait_load g g' a st heir up same = absurd (cc)
wake-Woken o j (Pc.wait_loop seen) g g' a st heir up same = absurd (cc)
wake-Woken o j Pc.wait_park g g' a st heir up same = absurd (cc)
wake-Woken o j (Pc.wait_woken token) g g' a st heir up same = absurd (cc)
wake-Woken o j Pc.granted g g' a st heir up same = absurd (cc)
wake-Woken o j Pc.unlocking g g' a st heir up same = absurd (cc)
wake-Woken o j Pc.unlocking_slow g g' a st heir up same = absurd (cc)

-- The state after the callback.
state_after :
    (answers : ℕ → Bool) (queue : List ℕ) (r : Scan) (state : ℕ)
    → HandedOver answers queue r
    → QueueOk queue state
    → StateOk r.next_starved (callback r state).0 × QueueOk r.remaining (callback r state).0
unfolding callback
state_after answers queue r state (HandedOver.nobody all found woken rest) ok =
    rw (found, rest) (refl, tt)
state_after answers queue r state (HandedOver.somebody u earlier all yes_u split found woken) ok =
    rw found (by_rest r.remaining split)
  where
    full : (xs ys : List ℕ) → queue ≡ xs ++ (u ∷ ys) → QueueOk queue state → state ≡ 3
    full [] ys q o = rw q at o
    full (x ∷ xs) ys q o = rw q at o

    by_rest :
        (l : List ℕ)
        → queue ≡ earlier ++ (u ∷ l)
        → StateOk (some u) (if no_more l then locked_bit else state)
          × QueueOk l (if no_more l then locked_bit else state)
    by_rest [] q = (inl refl, tt)
    by_rest (x ∷ l) q = (inr (full earlier (x ∷ l) q ok), full earlier (x ∷ l) q ok)

-- The other threads, after the scan: the heir has the lock, and those that stay in the queue sleep.
module _ (answers : ℕ → Bool) (t : ℕ) (s : Machine) (i : Inv s) (r : Scan)
    (h : Handoff answers s.queue r) (held : s.holder ≡ some t)
    (upgrades : (j : ℕ) → WantsLock (s.progress j) → answers j ≡ true) where
  abbrev after_pc : ℕ → Pc
  after_pc j = if member j r.unparked then wake (token_of r.next_starved) (s.pc j) else s.pc j

  abbrev after_progress : ℕ → Progress
  after_progress j = upgrade r.next_starved s.progress j

  other_thread :
      (j : ℕ)
      → (t == j) ≡ false
      → (holds j (after_pc j) (after_progress j) ≡ is_holder r.next_starved j)
        × (asleep (after_pc j) ≡ member j r.remaining)
        × Stands j (after_pc j) (after_progress j)
  other_thread j other = elim (Bool-cases (member j r.unparked)) [
    | inl woken ↦
        let w =
          wake-Woken r.next_starved j (s.pc j) (s.progress j) (after_progress j)
            (ground (arith, i.sleeps j, h.split j)) (i.stands j)
            (λ w. sym (h.answered j woken) ∙ upgrades j w)
            (λ e. upgrade-heir r.next_starved s.progress j e)
            (λ e. upgrade-other r.next_starved s.progress j e) in
        rw woken (w.held, w.awake ∙ sym (h.apart j woken), w.stands)
    | inr stays ↦
        let not_heir : is_holder r.next_starved j ≡ false =
          elim (Bool-cases (is_holder r.next_starved j)) [
            | inl heir ↦ let w = h.heir_woken j heir in absurd (cc)
            | inr e ↦ e
          ] in
        let same = upgrade-other r.next_starved s.progress j not_heir in
        rw (stays, same, not_heir)
          (
            i.held_by j ∙ ap (λ (o : Option ℕ). is_holder o j) held ∙ other,
            i.sleeps j ∙ ground (arith, h.split j),
            i.stands j,
          )
  ]

pub unlock_slow-Inv :
    (lot : ParkingLot) (answers : ℕ → Bool) (clock max_elapsed : ℕ → ℕ) (t : ℕ) (s : Machine)
    → Inv s
    → s.pc t ≡ unlocking_slow
    → ((j : ℕ) → should_upgrade (clock j) (max_elapsed j) (s.progress j) ≡ some (answers j))
    → Inv (starve_unlock_slow lot answers t s)
unfolding starve_unlock_slow callback
unlock_slow-Inv lot answers clock max_elapsed t s i at_slow asked =
    let scanned = unpark_filter-HandedOver lot answers s.queue in
    by_scan (lot.unpark_filter (filter answers) none s.queue) scanned
      (HandedOver-Handoff answers s.queue _ i.distinct scanned)
  where
    owner : s.holder ≡ some t
    owner =
        by_holder s.holder (ap (λ (p : Pc). holds t p (s.progress t)) (sym at_slow) ∙ i.held_by t)
      where
        by_holder : (o : Option ℕ) → true ≡ is_holder o t → o ≡ some t
        by_holder none q = absurd (cc)
        by_holder (some u) q = ground arith

    upgrades : (j : ℕ) → WantsLock (s.progress j) → answers j ≡ true
    upgrades j w =
        ground (arith, asked j, should_upgrade-WantsLock (clock j) (max_elapsed j) (s.progress j) w)

    by_scan :
        (r : Scan)
        → HandedOver answers s.queue r
        → Handoff answers s.queue r
        → Inv (record {
          state = (callback r s.state).0;
          progress = update (upgrade r.next_starved s.progress) t new;
          pc =
              update
                (λ j.
                  if member j r.unparked then wake (token_of r.next_starved) (s.pc j) else s.pc j)
                t
                out;
          queue = r.remaining;
          holder = r.next_starved;
        })
    by_scan r scanned h =
        let out_of : member t s.queue ≡ false = sym (i.sleeps t) ∙ ap asleep at_slow in
        let others = other_thread answers t s i r h owner upgrades in
        let ok = state_after answers s.queue r s.state scanned i.queue_ok in
        let not_heir : is_holder r.next_starved t ≡ false =
          elim (Bool-cases (is_holder r.next_starved t)) [
            | inl heir ↦ absurd (ground (arith, h.heir_woken t heir, h.split t))
            | inr e ↦ e
          ] in
        record {
          state_ok = ok.0;
          queue_ok = ok.1;
          distinct = h.distinct;
          held_by = λ j. elim (Bool-cases (t == j)) [
            | inl same ↦ let q : t ≡ j = ground arith in rw same (rw q at (sym not_heir))
            | inr other ↦ rw other (others j other).0
          ];
          sleeps = λ j. elim (Bool-cases (t == j)) [
            | inl same ↦
                let q : t ≡ j = ground arith in
                let gone : false ≡ member t r.remaining = ground (arith, h.split t) in
                rw same (rw q at gone)
            | inr other ↦ rw other (others j other).1
          ];
          stands = λ j. elim (Bool-cases (t == j)) [
            | inl same ↦ rw same tt
            | inr other ↦ rw other (others j other).2
          ];
          bounded =
              update-All (λ _ g. IsBounded g) (upgrade r.next_starved s.progress) t new
                (upgrade-IsBounded r.next_starved s.progress i.bounded) refl;
        }
