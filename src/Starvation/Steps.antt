-- ===== src/Starvation/Steps.antt =====
-- src/internal/starvation.rs: every operation of every thread keeps the invariant.
use swym.Shared.{
  ℕ, ◌+◌, ◌≡◌, ◌≢◌, ◌==◌, Bool, true, false, Option, none, some, List, [], ◌∷◌, member, ◌∙◌, sym,
  ap, arith, refl, inl, inr, Bool-cases, ◌⊎◌, ◌&&◌, not,
}
use swym.Starvation.{
  Progress, new, not_starving, starving, Pc, out, granted, unlocking, unlocking_slow, unpark_token,
  locked_bit, Failure, spins, yields, starve_locks, failed_to_progress, progressed, enter_wait,
  starve_lock, starve_lock_slow, wait_for_starvers, wait_for_starvers_slow, starve_unlock,
  after_lock_park, after_wait_park, parked_bit_set, lock_asleep, wait_asleep,
}
use swym.Starvation.Queue.{ParkingLot}
use swym.Starvation.Machine.{
  Machine, goes, turned, after_failure, park, progress_made, unlock_tried, Step, Steps, stay, next,
  start,
}
use swym.Starvation.Invariant.{
  is_starving, holds, asleep, is_holder, WantsLock, Stands, IsBounded, StateOk, QueueOk, Inv,
}
use swym.Starvation.Local.{
  becomes-Inv, goes-Inv, takes-Inv, marks-Inv, falls_asleep-Inv, frees-Inv, owner,
}
use swym.Starvation.Release.{unlock_slow-Inv}

-- What a failure leaves: the thread is not starving, with a bounded backoff; or it still is; or it
-- takes the lock after it has failed often.
abbrev pub FailureOk : Progress → Failure → Type 0
FailureOk g (spins count g') = (is_starving g' ≡ is_starving g) × IsBounded g'
FailureOk g (yields g') = (is_starving g' ≡ is_starving g) × IsBounded g'
FailureOk g starve_locks = WantsLock g

pub failed_to_progress-FailureOk :
    (max_elapsed epoch : ℕ) (g : Progress)
    → IsBounded g
    → FailureOk g (failed_to_progress max_elapsed epoch g)
unfolding failed_to_progress
failed_to_progress-FailureOk max_elapsed epoch (not_starving none backoff) b = ground arith
failed_to_progress-FailureOk max_elapsed epoch (not_starving (some first) backoff) b = ground arith
failed_to_progress-FailureOk max_elapsed epoch starving b = (refl, tt)

fail-Inv :
    (s : Machine) (t : ℕ) (f : Failure)
    → Inv s
    → s.pc t ≡ out
    → FailureOk (s.progress t) f
    → Inv (after_failure t f s)
fail-Inv s t (spins count g) i at_out ok =
    becomes-Inv s t g out i (rw at_out ok.0) (rw at_out) tt ok.1
fail-Inv s t (yields g) i at_out ok = becomes-Inv s t g out i (rw at_out ok.0) (rw at_out) tt ok.1
fail-Inv s t starve_locks i at_out ok =
    goes-Inv s t Pc.lock_fast i (rw at_out (sym (WantsLock-awake (s.progress t) ok))) (rw at_out) ok
  where
    WantsLock-awake : (g : Progress) → WantsLock g → is_starving g ≡ false
    WantsLock-awake (not_starving first_failed backoff) w = refl
    WantsLock-awake starving w = absurd w

state_one : (s : Machine) → Inv s → s.state ≢ 0 → parked_bit_set s.state ≡ false → s.state ≡ 1
state_one s i taken clear = by_holder s.holder i.state_ok
  where
    by_holder : (o : Option ℕ) → StateOk o s.state → s.state ≡ 1
    by_holder none ok = absurd (taken ok)
    by_holder (some u) (inl one) = one
    by_holder (some u) (inr both) = absurd (ground arith)

state_both : (s : Machine) → Inv s → parked_bit_set s.state ≡ true → s.state ≡ 3
state_both s i set = by_holder s.holder i.state_ok
  where
    by_holder : (o : Option ℕ) → StateOk o s.state → s.state ≡ 3
    by_holder none ok = absurd (ground arith)
    by_holder (some u) (inl one) = absurd (ground arith)
    by_holder (some u) (inr both) = both

lock-Inv :
    (s : Machine) (t : ℕ) (spurious : Bool)
    → Inv s
    → s.pc t ≡ Pc.lock_fast
    → Inv (turned t (starve_lock spurious s.state) s)
unfolding starve_lock
lock-Inv s t spurious i at_fast =
    let wants : WantsLock (s.progress t) = rw at_fast at (i.stands t) in
    elim (Bool-cases (s.state == 0 && not spurious)) [
      | inl free ↦ rw free (takes-Inv s t i (ground arith) (rw at_fast))
      | inr busy ↦ rw busy (goes-Inv s t Pc.lock_load i (rw at_fast) (rw at_fast) wants)
    ]

lock_turns-Inv :
    (s : Machine) (t seen : ℕ) (spurious : Bool)
    → Inv s
    → s.pc t ≡ Pc.lock_loop seen
    → Inv (turned t (starve_lock_slow spurious seen s.state) s)
unfolding starve_lock_slow
lock_turns-Inv s t seen spurious i at_loop =
    let wants : WantsLock (s.progress t) = rw at_loop at (i.stands t) in
    let again = goes-Inv s t (Pc.lock_loop s.state) i (rw at_loop) (rw at_loop) wants in
    elim (Bool-cases (seen == 0)) [
      | inl nothing ↦ rw nothing (elim (Bool-cases (s.state == 0 && not spurious)) [
        | inl free ↦ rw free (takes-Inv s t i (ground arith) (rw at_loop))
        | inr busy ↦ rw busy again
      ])
      | inr something ↦ rw something (elim (Bool-cases (parked_bit_set seen)) [
        | inl set ↦ rw set (goes-Inv s t Pc.lock_park i (rw at_loop) (rw at_loop) wants)
        | inr clear ↦ rw clear (elim (Bool-cases (s.state == seen && not spurious)) [
          | inl same ↦
              let q : seen ≡ s.state = ground arith in
              let one = state_one s i (ground arith) (rw q at clear) in
              let three : seen + 2 ≡ 3 = omega arith in
              rw (same, three) (marks-Inv s t Pc.lock_park i one (rw at_loop) (rw at_loop) wants)
          | inr other ↦ rw other again
        ])
      ])
    ]

wait-Inv :
    (s : Machine) (t : ℕ)
    → Inv s
    → s.pc t ≡ Pc.wait_fast
    → Inv (turned t (wait_for_starvers s.state) s)
unfolding wait_for_starvers
wait-Inv s t i at_fast =
    let awake : is_starving (s.progress t) ≡ false = rw at_fast at (i.stands t) in
    elim (Bool-cases (s.state == 0)) [
      | inl free ↦ rw free (goes-Inv s t out i (rw at_fast awake) (rw at_fast) tt)
      | inr busy ↦ rw busy (goes-Inv s t Pc.wait_load i (rw at_fast) (rw at_fast) awake)
    ]

wait_turns-Inv :
    (s : Machine) (t seen : ℕ) (spurious : Bool)
    → Inv s
    → s.pc t ≡ Pc.wait_loop seen
    → Inv (turned t (wait_for_starvers_slow spurious seen s.state) s)
unfolding wait_for_starvers_slow
wait_turns-Inv s t seen spurious i at_loop =
    let awake : is_starving (s.progress t) ≡ false = rw at_loop at (i.stands t) in
    elim (Bool-cases (seen == 0)) [
      | inl nothing ↦ rw nothing (goes-Inv s t out i (rw at_loop awake) (rw at_loop) tt)
      | inr something ↦ rw something (elim (Bool-cases (parked_bit_set seen)) [
        | inl set ↦ rw set (goes-Inv s t Pc.wait_park i (rw at_loop) (rw at_loop) awake)
        | inr clear ↦ rw clear (elim (Bool-cases (s.state == seen && not spurious)) [
          | inl same ↦
              let q : seen ≡ s.state = ground arith in
              let one = state_one s i (ground arith) (rw q at clear) in
              let three : seen + 2 ≡ 3 = omega arith in
              rw (same, three) (marks-Inv s t Pc.wait_park i one (rw at_loop) (rw at_loop) awake)
          | inr other ↦
              rw other (goes-Inv s t (Pc.wait_loop s.state) i (rw at_loop) (rw at_loop) awake)
        ])
      ])
    ]

park-Inv :
    (s : Machine) (t : ℕ) (sleeping again : Pc)
    → Inv s
    → asleep (s.pc t) ≡ false
    → holds t sleeping (s.progress t) ≡ holds t (s.pc t) (s.progress t)
    → holds t again (s.progress t) ≡ holds t (s.pc t) (s.progress t)
    → asleep sleeping ≡ true
    → asleep again ≡ false
    → Stands t sleeping (s.progress t)
    → Stands t again (s.progress t)
    → Inv (park t sleeping again s)
unfolding park
park-Inv s t sleeping again i awake h h' a a' st st' = elim (Bool-cases (parked_bit_set s.state)) [
  | inl set ↦ rw set (falls_asleep-Inv s t sleeping i (state_both s i set) awake h a st)
  | inr clear ↦ rw clear (goes-Inv s t again i h' (a' ∙ sym awake) st')
]

wait_wakes-Inv :
    (s : Machine) (t token : ℕ)
    → Inv s
    → s.pc t ≡ Pc.wait_woken token
    → Inv (goes t (after_wait_park t token) s)
unfolding after_wait_park
wait_wakes-Inv s t token i woken =
    let st : is_starving (s.progress t) ≡ (token == unpark_token t) = rw woken at (i.stands t) in
    elim (Bool-cases (token == 0)) [
      | inl nobody ↦ rw nobody (goes-Inv s t out i (rw woken st) (rw woken) tt)
      | inr somebody ↦ rw somebody (elim (Bool-cases (token == unpark_token t)) [
        | inl mine ↦ rw mine (goes-Inv s t out i (rw woken st) (rw woken) tt)
        | inr other ↦
            rw other (goes-Inv s t Pc.wait_load i (rw woken (sym other)) (rw woken) (st ∙ other))
      ])
    ]

progresses-Inv :
    (s : Machine) (t : ℕ) (g : Progress)
    → Inv s
    → s.pc t ≡ out
    → s.progress t ≡ g
    → Inv (progress_made t (progressed g) s)
unfolding progressed
progresses-Inv s t (not_starving none backoff) i at_out q =
    becomes-Inv s t (not_starving none backoff) out i (rw (at_out, q)) (rw at_out) tt
      (rw q at (i.bounded t))
progresses-Inv s t (not_starving (some epoch) backoff) i at_out q =
    becomes-Inv s t new out i (rw (at_out, q)) (rw at_out) tt refl
progresses-Inv s t starving i at_out q =
    becomes-Inv s t starving unlocking i (rw (at_out, q)) (rw at_out) refl tt

enters-Inv :
    (s : Machine) (t : ℕ) (g : Progress)
    → Inv s
    → s.pc t ≡ out
    → s.progress t ≡ g
    → Inv (goes t (enter_wait g) s)
unfolding enter_wait
enters-Inv s t (not_starving first_failed backoff) i at_out q =
    goes-Inv s t Pc.wait_fast i (rw (at_out, q)) (rw at_out) (rw q)
enters-Inv s t starving i at_out q = goes-Inv s t out i (rw at_out) (rw at_out) tt

unlock-Inv :
    (s : Machine) (t : ℕ)
    → Inv s
    → s.pc t ≡ unlocking
    → Inv (unlock_tried t (starve_unlock s.state) s)
unfolding starve_unlock
unlock-Inv s t i at_unlock = elim (Bool-cases (s.state == locked_bit)) [
  | inl alone ↦ rw alone (frees-Inv s t i (ground arith) (rw at_unlock) (rw at_unlock))
  | inr marked ↦
      let stands : is_starving (s.progress t) ≡ true = rw at_unlock at (i.stands t) in
      rw marked (goes-Inv s t unlocking_slow i (rw at_unlock) (rw at_unlock) stands)
]

-- Every step of every thread keeps the invariant.
pub Step-Inv : (lot : ParkingLot) (s s' : Machine) → Step lot s s' → Inv s → Inv s'
unfolding after_lock_park
Step-Inv lot s _ (Step.fail t max_elapsed epoch h) i =
    fail-Inv s t (failed_to_progress max_elapsed epoch (s.progress t)) i h
      (failed_to_progress-FailureOk max_elapsed epoch (s.progress t) (i.bounded t))
Step-Inv lot s _ (Step.lock t spurious h) i = lock-Inv s t spurious i h
Step-Inv lot s _ (Step.lock_reads t h) i =
    goes-Inv s t (Pc.lock_loop s.state) i (rw h) (rw h) (rw h at (i.stands t))
Step-Inv lot s _ (Step.lock_turns t seen spurious h) i = lock_turns-Inv s t seen spurious i h
Step-Inv lot s _ (Step.lock_parks t h) i =
    let wants : WantsLock (s.progress t) = rw h at (i.stands t) in
    park-Inv s t lock_asleep Pc.lock_load i (rw h) (rw h) (rw h) refl refl wants wants
Step-Inv lot s _ (Step.lock_wakes t token h) i =
    let woken : (token ≡ unpark_token t) × (is_starving (s.progress t) ≡ true) =
      rw h at (i.stands t) in
    goes-Inv s t granted i (rw h (ground arith)) (rw h) tt
Step-Inv lot s _ (Step.starves t h) i = becomes-Inv s t starving out i (rw h) (rw h) tt tt
Step-Inv lot s _ (Step.enters t h) i = enters-Inv s t (s.progress t) i h refl
Step-Inv lot s _ (Step.wait t h) i = wait-Inv s t i h
Step-Inv lot s _ (Step.wait_reads t h) i =
    goes-Inv s t (Pc.wait_loop s.state) i (rw h) (rw h) (rw h at (i.stands t))
Step-Inv lot s _ (Step.wait_turns t seen spurious h) i = wait_turns-Inv s t seen spurious i h
Step-Inv lot s _ (Step.wait_parks t h) i =
    let awake : is_starving (s.progress t) ≡ false = rw h at (i.stands t) in
    park-Inv s t wait_asleep Pc.wait_load i (rw h) (rw h) (rw h) refl refl awake awake
Step-Inv lot s _ (Step.wait_wakes t token h) i = wait_wakes-Inv s t token i h
Step-Inv lot s _ (Step.progresses t h) i = progresses-Inv s t (s.progress t) i h refl
Step-Inv lot s _ (Step.unlock t h) i = unlock-Inv s t i h
Step-Inv lot s _ (Step.unlock_slow t clock max_elapsed answers h asked) i =
    unlock_slow-Inv lot answers clock max_elapsed t s i h asked

pub Steps-Inv : (lot : ParkingLot) (s s' : Machine) → Steps lot s s' → Inv s → Inv s'
Steps-Inv lot s _ stay i = i
Steps-Inv lot s _ (next {u} {v} more last) i = Step-Inv lot u v last (Steps-Inv lot s u more i)

pub start-Inv : Inv start
start-Inv = record {
  state_ok = refl;
  queue_ok = tt;
  distinct = tt;
  held_by = λ t. refl;
  sleeps = λ t. refl;
  stands = λ t. tt;
  bounded = λ t. refl;
}

starving_held :
    (s : Machine) (t : ℕ) → Inv s → is_starving (s.progress t) ≡ true → s.holder ≡ some t
starving_held s t i g = owner s t i (by_pc (s.pc t) (s.progress t) (i.stands t) g)
  where
    by_pc : (p : Pc) (g : Progress) → Stands t p g → is_starving g ≡ true → holds t p g ≡ true
    by_pc Pc.out g st h = h
    by_pc Pc.granted g st h = refl
    by_pc Pc.unlocking g st h = refl
    by_pc Pc.unlocking_slow g st h = refl
    by_pc (Pc.lock_woken token) g st h = ground (arith, st.0)
    by_pc (Pc.wait_woken token) g st h = sym st ∙ h
    by_pc Pc.lock_fast (not_starving e b) st h = absurd (cc)
    by_pc Pc.lock_load (not_starving e b) st h = absurd (cc)
    by_pc (Pc.lock_loop seen) (not_starving e b) st h = absurd (cc)
    by_pc Pc.lock_park (not_starving e b) st h = absurd (cc)
    by_pc Pc.lock_asleep (not_starving e b) st h = absurd (cc)
    by_pc Pc.lock_fast starving st h = absurd st
    by_pc Pc.lock_load starving st h = absurd st
    by_pc (Pc.lock_loop seen) starving st h = absurd st
    by_pc Pc.lock_park starving st h = absurd st
    by_pc Pc.lock_asleep starving st h = absurd st
    by_pc Pc.wait_fast g st h = absurd (cc)
    by_pc Pc.wait_load g st h = absurd (cc)
    by_pc (Pc.wait_loop seen) g st h = absurd (cc)
    by_pc Pc.wait_park g st h = absurd (cc)
    by_pc Pc.wait_asleep g st h = absurd (cc)

-- However the operations of any number of threads are interleaved, at most one thread is starving.
pub starving_unique :
    (lot : ParkingLot) (s : Machine) (t u : ℕ)
    → Steps lot start s
    → is_starving (s.progress t) ≡ true
    → is_starving (s.progress u) ≡ true
    → t ≡ u
starving_unique lot s t u steps g g' =
    let i = Steps-Inv lot start s steps start-Inv in
    ground (arith, starving_held s t i g, starving_held s u i g')

-- No wake-up is lost: while a thread sleeps, in `starve_lock` or in `wait_for_starvers`, it stands in
-- the queue, both bits of the state are set, and some thread has the lock; when that thread comes
-- to `starve_unlock` it takes the slow path, which scans the queue.
pub asleep_guarded :
    (lot : ParkingLot) (s : Machine) (t : ℕ)
    → Steps lot start s
    → asleep (s.pc t) ≡ true
    → (member t s.queue ≡ true)
      × (s.state ≡ 3)
      × ((u : ℕ) × (s.holder ≡ some u) × (holds u (s.pc u) (s.progress u) ≡ true))
      × (starve_unlock s.state ≡ (unlocking_slow, s.state))
unfolding starve_unlock
asleep_guarded lot s t steps sleeping =
    let i = Steps-Inv lot start s steps start-Inv in
    let queued = sym (i.sleeps t) ∙ sleeping in
    let both = by_queue s.queue queued i.queue_ok in
    (queued, both, by_holder s.holder refl i.state_ok both i, rw both)
  where
    by_queue : (q : List ℕ) → member t q ≡ true → QueueOk q s.state → s.state ≡ 3
    by_queue [] m ok = absurd (cc)
    by_queue (x ∷ q) m ok = ok

    by_holder :
        (o : Option ℕ)
        → s.holder ≡ o
        → StateOk o s.state
        → s.state ≡ 3
        → Inv s
        → (u : ℕ) × (s.holder ≡ some u) × (holds u (s.pc u) (s.progress u) ≡ true)
    by_holder none q ok both i = absurd (omega arith)
    by_holder (some u) q ok both i =
        (u, q, i.held_by u ∙ ap (λ (h : Option ℕ). is_holder h u) q ∙ ground arith)

-- A thread that wakes in `starve_lock` was given its own token and is the one that has the lock: it
-- is never woken while the lock is another's or free.
pub lock_woken-fair :
    (lot : ParkingLot) (s : Machine) (t token : ℕ)
    → Steps lot start s
    → s.pc t ≡ Pc.lock_woken token
    → (token ≡ unpark_token t) × (s.holder ≡ some t) × (s.state ≡ 1 ⊎ s.state ≡ 3)
lock_woken-fair lot s t token steps woken =
    let i = Steps-Inv lot start s steps start-Inv in
    let st : (token ≡ unpark_token t) × (is_starving (s.progress t) ≡ true) =
      rw woken at (i.stands t) in
    let mine = starving_held s t i st.1 in (st.0, mine, rw mine at i.state_ok)
