-- ===== src/Starvation/Backoff.antt =====
-- src/internal/starvation.rs: how often a thread fail_all before it takes the lock.
use swym.Shared.{
  ℕ, suc, ◌+◌, ◌≡◌, ◌≤◌, ◌<◌, Option, none, some, List, [], ◌∷◌, length, arith, refl, inl, inr, ◌⊎◌,
  Bool-cases, leb,
}
use swym.Epoch.Word.{QuiesceEpoch}
use swym.Starvation.{
  Progress, new, not_starving, Failure, spins, yields, starve_locks, failed_to_progress,
  yield_limit, spin_limit, elapsed,
}

-- The failures of a thread at one epoch after another, until it is to take the lock: `none`.
abbrev pub after : Failure → (Progress → Option Progress) → Option Progress
after (spins count g) rest = rest g
after (yields g) rest = rest g
after starve_locks rest = none

unfoldable pub fail_all : ℕ → List QuiesceEpoch → Progress → Option Progress
fail_all max_elapsed [] g = some g
fail_all max_elapsed (e ∷ es) g =
    after (failed_to_progress max_elapsed e g) (λ g'. fail_all max_elapsed es g')

-- The thread is still backing off, from the epoch at which it first failed.
pub record BacksOff (first : QuiesceEpoch) (failures : ℕ) (o : Option Progress) : Type 0 where
  pub backoff : ℕ
  pub still : o ≡ some (not_starving (some first) backoff)
  pub counted : failures ≤ backoff
  pub capped : backoff ≤ yield_limit + 1

BacksOff-more :
    (first : QuiesceEpoch) (n m : ℕ) (o : Option Progress)
    → n ≤ m
    → BacksOff first m o
    → BacksOff first n o
BacksOff-more first n m o le b = record {
  backoff = b.backoff;
  still = b.still;
  counted = omega (arith, b.counted);
  capped = b.capped;
}

-- One failure after the first raises the backoff, and keeps the epoch of the first.
failed_again :
    (max_elapsed epoch first backoff : ℕ)
    → backoff ≤ yield_limit
    → (g : Progress → Option Progress)
    → (b : ℕ) × (after (failed_to_progress max_elapsed epoch (not_starving (some first) backoff)) g
        ≡ g (not_starving (some first) b))
      × (backoff < b)
      × (b ≤ yield_limit + 1)
unfolding failed_to_progress
failed_again max_elapsed epoch first backoff le g = elim (Bool-cases (leb backoff spin_limit)) [
  | inl small ↦ elim (Bool-cases (leb max_elapsed (elapsed epoch first))) [
    | inl long ↦ (spin_limit + 1, ground arith, ground arith, ground arith)
    | inr short ↦ (backoff + 1, ground arith, ground arith, ground arith)
  ]
  | inr large ↦ (backoff + 1, ground arith, ground arith, ground arith)
]

gives_up :
    (max_elapsed epoch first backoff : ℕ)
    → yield_limit < backoff
    → failed_to_progress max_elapsed epoch (not_starving (some first) backoff) ≡ starve_locks
unfolding failed_to_progress
gives_up max_elapsed epoch first backoff h = ground arith

fail_all_from :
    (max_elapsed : ℕ) (first : QuiesceEpoch) (backoff : ℕ) (es : List QuiesceEpoch)
    → backoff ≤ yield_limit + 1
    → (fail_all max_elapsed es (not_starving (some first) backoff) ≡ none)
      ⊎ BacksOff first
          (length es + backoff)
          (fail_all max_elapsed es (not_starving (some first) backoff))
unfolding fail_all
fail_all_from max_elapsed first backoff [] le =
    inr (record { backoff = backoff; still = refl; counted = omega arith; capped = le })
fail_all_from max_elapsed first backoff (e ∷ es) le = elim (Bool-cases (leb backoff yield_limit)) [
  | inl more ↦
      by_failure
        (failed_again max_elapsed e first backoff (ground arith) (λ g. fail_all max_elapsed es g))
        (λ b h. fail_all_from max_elapsed first b es h)
  | inr enough ↦ inl (rw (gives_up max_elapsed e first backoff (ground arith)))
]
  where
    by_failure :
        ((b : ℕ) × (after
              (failed_to_progress max_elapsed e (not_starving (some first) backoff))
              (λ g. fail_all max_elapsed es g)
            ≡ fail_all max_elapsed es (not_starving (some first) b))
          × (backoff < b)
          × (b ≤ yield_limit + 1))
        → ((b : ℕ)
            → b ≤ yield_limit + 1
            → (fail_all max_elapsed es (not_starving (some first) b) ≡ none)
              ⊎ BacksOff first
                  (length es + b)
                  (fail_all max_elapsed es (not_starving (some first) b)))
        → (after
              (failed_to_progress max_elapsed e (not_starving (some first) backoff))
              (λ g. fail_all max_elapsed es g)
            ≡ none)
          ⊎ BacksOff first (suc (length es) + backoff) (
              after
                (failed_to_progress max_elapsed e (not_starving (some first) backoff))
                (λ g. fail_all max_elapsed es g))
    by_failure (b, q, up, top) rest = rw q (elim (rest b top) [
      | inl stops ↦ inl stops
      | inr off ↦
          inr (BacksOff-more first (suc (length es) + backoff) (length es + b) _ (omega arith) off)
    ])

first_failure :
    (max_elapsed first : ℕ) (g : Progress → Option Progress)
    → (b : ℕ) × (after (failed_to_progress max_elapsed first new) g
        ≡ g (not_starving (some first) b))
      × (0 < b)
      × (b ≤ yield_limit + 1)
unfolding failed_to_progress
first_failure max_elapsed first g = elim (Bool-cases (leb max_elapsed (elapsed first first))) [
  | inl long ↦ (spin_limit + 1, ground arith, omega arith, omega arith)
  | inr short ↦ (1, ground arith, omega arith, omega arith)
]

-- A thread that made progress and then fail_all at one epoch after another either has come to take the
-- lock, or it remembers the epoch at which it first failed, its backoff is at least the number of
-- its failures, and at most one more than the limit.
pub fail_all_first :
    (max_elapsed : ℕ) (first : QuiesceEpoch) (es : List QuiesceEpoch)
    → (fail_all max_elapsed (first ∷ es) new ≡ none)
      ⊎ BacksOff first (length (first ∷ es)) (fail_all max_elapsed (first ∷ es) new)
unfolding fail_all
fail_all_first max_elapsed first es =
    by_failure (first_failure max_elapsed first (λ g. fail_all max_elapsed es g))
  where
    by_failure :
        ((b : ℕ) × (after
              (failed_to_progress max_elapsed first new)
              (λ g. fail_all max_elapsed es g)
            ≡ fail_all max_elapsed es (not_starving (some first) b))
          × (0 < b)
          × (b ≤ yield_limit + 1))
        → (after (failed_to_progress max_elapsed first new) (λ g. fail_all max_elapsed es g) ≡ none)
          ⊎ BacksOff first
              (suc (length es))
              (after (failed_to_progress max_elapsed first new) (λ g. fail_all max_elapsed es g))
    by_failure (b, q, up, top) = rw q (elim (fail_all_from max_elapsed first b es top) [
      | inl stops ↦ inl stops
      | inr off ↦ inr (BacksOff-more first (suc (length es)) (length es + b) _ (omega arith) off)
    ])

-- A thread that fail_all twelve times without progress takes the lock, whatever the clock does.
pub fail_all_enough :
    (max_elapsed : ℕ) (es : List QuiesceEpoch)
    → yield_limit + 2 ≤ length es
    → fail_all max_elapsed es new ≡ none
fail_all_enough max_elapsed [] h = absurd (omega arith)
fail_all_enough max_elapsed (first ∷ es) h = elim (fail_all_first max_elapsed first es) [
  | inl stops ↦ stops
  | inr off ↦ absurd (omega (arith, off.counted, off.capped))
]
