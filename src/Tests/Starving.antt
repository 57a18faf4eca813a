-- ===== src/Tests/Starving.antt =====
-- src/internal/starvation.rs.
use swym.Shared.{
  ℕ, ◌≡◌, ◌⊎◌, ◌==◌, true, false, none, some, List, [], ◌∷◌, refl, arith, member, Bool,
}
use swym.Starvation.{
  new, not_starving, starving, Pc, failed_to_progress, starve_lock, starve_lock_slow, starve_unlock,
  progressed, should_upgrade, unlocking_slow, unpark_token,
}
use swym.Starvation.Queue.{in_order, filter, callback}
use swym.Starvation.Machine.{
  Machine, Step, Steps, stay, next, start, goes, becomes, turned, after_failure, park,
  progress_made, unlock_tried, starve_unlock_slow,
}
use swym.Starvation.Invariant.{holds}
use swym.Starvation.Handoff.{HandedOver, unpark_filter-HandedOver}
use swym.Starvation.Backoff.{fail_all, fail_all_first, fail_all_enough, BacksOff}
use swym.Starvation.Steps.{starving_unique, asleep_guarded, lock_woken-fair}

fail_all_first_example :
    (fail_all 4 (3 ∷ 5 ∷ 9 ∷ []) new ≡ none) ⊎ BacksOff 3 3 (fail_all 4 (3 ∷ 5 ∷ 9 ∷ []) new)
fail_all_first_example = fail_all_first 4 3 (5 ∷ 9 ∷ [])

-- The third failed_at comes four epochs after the first, and the thread stops spinning.
fail_all_thrice : fail_all 4 (3 ∷ 5 ∷ 9 ∷ []) new ≡ some (not_starving (some 3) 7)
unfolding fail_all failed_to_progress
fail_all_thrice = refl

abbrev twelve : List ℕ
twelve = 3 ∷ 3 ∷ 3 ∷ 3 ∷ 5 ∷ 5 ∷ 5 ∷ 5 ∷ 5 ∷ 7 ∷ 7 ∷ 7 ∷ []

fail_all-twelve : fail_all 100 twelve new ≡ none
fail_all-twelve = fail_all_enough 100 twelve (omega arith)

abbrev second : ℕ → Bool
second j = j == 2

unpark_filter-HandedOver_example :
    HandedOver second
      (1 ∷ 2 ∷ 3 ∷ [])
      (in_order.unpark_filter (filter second) none (1 ∷ 2 ∷ 3 ∷ []))
unpark_filter-HandedOver_example = unpark_filter-HandedOver in_order second (1 ∷ 2 ∷ 3 ∷ [])

-- A thread fails six times in a long transaction, and comes to take the lock.
abbrev failed_at : ℕ → Machine → Machine
failed_at t s = after_failure t (failed_to_progress 0 3 (s.progress t)) s

abbrev m1 : Machine
m1 = failed_at 1 start

abbrev m2 : Machine
m2 = failed_at 1 m1

abbrev m3 : Machine
m3 = failed_at 1 m2

abbrev m4 : Machine
m4 = failed_at 1 m3

abbrev m5 : Machine
m5 = failed_at 1 m4

abbrev m6 : Machine
m6 = failed_at 1 m5

abbrev m7 : Machine
m7 = turned 1 (starve_lock false m6.state) m6

abbrev m8 : Machine
m8 = becomes 1 starving Pc.out m7

abbrev m9 : Machine
m9 = failed_at 2 m8

abbrev m10 : Machine
m10 = failed_at 2 m9

abbrev m11 : Machine
m11 = failed_at 2 m10

abbrev m12 : Machine
m12 = failed_at 2 m11

abbrev m13 : Machine
m13 = failed_at 2 m12

abbrev m14 : Machine
m14 = failed_at 2 m13

abbrev m15 : Machine
m15 = turned 2 (starve_lock false m14.state) m14

abbrev m16 : Machine
m16 = goes 2 (Pc.lock_loop m15.state) m15

abbrev m17 : Machine
m17 = turned 2 (starve_lock_slow false 1 m16.state) m16

abbrev m18 : Machine
m18 = park 2 Pc.lock_asleep Pc.lock_load m17

abbrev m19 : Machine
m19 = progress_made 1 (progressed (m18.progress 1)) m18

abbrev m20 : Machine
m20 = unlock_tried 1 (starve_unlock m19.state) m19

abbrev m21 : Machine
m21 = starve_unlock_slow in_order second 1 m20

steps : Steps in_order start m18
unfolding failed_to_progress starve_lock starve_lock_slow park progressed starve_unlock
steps =
    next
      (next
        (next
          (next
            (next
              (next
                (next
                  (next
                    (next
                      (next
                        (next
                          (next
                            (next
                              (next
                                (next
                                  (next
                                    (next (next (stay) (Step.fail 1 0 3 refl))
                                      (Step.fail 1 0 3 refl))
                                    (Step.fail 1 0 3 refl))
                                  (Step.fail 1 0 3 refl))
                                (Step.fail 1 0 3 refl))
                              (Step.fail 1 0 3 refl))
                            (Step.lock 1 false refl))
                          (Step.starves 1 refl))
                        (Step.fail 2 0 3 refl))
                      (Step.fail 2 0 3 refl))
                    (Step.fail 2 0 3 refl))
                  (Step.fail 2 0 3 refl))
                (Step.fail 2 0 3 refl))
              (Step.fail 2 0 3 refl))
            (Step.lock 2 false refl))
          (Step.lock_reads 2 refl))
        (Step.lock_turns 2 1 false refl))
      (Step.lock_parks 2 refl)

-- Thread 1 has the lock, and thread 2 sleeps until it gets it.
asleep_guarded_example :
    (member 2 m18.queue ≡ true)
    × (m18.state ≡ 3)
    × ((u : ℕ) × (m18.holder ≡ some u) × (holds u (m18.pc u) (m18.progress u) ≡ true))
    × (starve_unlock m18.state ≡ (unlocking_slow, m18.state))
asleep_guarded_example =
    asleep_guarded in_order m18 2 steps
      (unfold failed_to_progress starve_lock starve_lock_slow park in refl)

starving_unique_example : ◌≡◌ {A = ℕ} 1 1
starving_unique_example =
    starving_unique in_order m18 1 1 steps
      (unfold failed_to_progress starve_lock starve_lock_slow park in refl)
      (unfold failed_to_progress starve_lock starve_lock_slow park in refl)

asked : (j : ℕ) → should_upgrade 3 0 (m20.progress j) ≡ some (second j)
unfolding should_upgrade failed_to_progress starve_lock starve_lock_slow park progressed
    starve_unlock
asked j = ground arith

handed_on : Steps in_order start m21
unfolding failed_to_progress starve_lock starve_lock_slow park progressed starve_unlock
handed_on =
    next (next (next steps (Step.progresses 1 refl)) (Step.unlock 1 refl))
      (Step.unlock_slow 1 (λ j. 3) (λ j. 0) second refl asked)

lock_woken-fair_example :
    (◌≡◌ {A = ℕ} 3 (unpark_token 2)) × (m21.holder ≡ some 2) × (m21.state ≡ 1 ⊎ m21.state ≡ 3)
lock_woken-fair_example = lock_woken-fair in_order m21 2 3 handed_on (
    unfold failed_to_progress starve_lock starve_lock_slow park progressed starve_unlock
      starve_unlock_slow filter callback in
    refl)
