-- ===== src/Starvation/Invariant.antt =====
-- src/internal/starvation.rs: who has the lock, who sleeps, and what the state of the lock says.
use swym.Shared.{
  ℕ, ◌+◌, ◌≡◌, ◌≤◌, ◌<◌, ◌==◌, Bool, true, false, Option, none, some, List, [], ◌∷◌, member,
  Distinct, update, arith, inl, inr, Bool-cases, ◌⊎◌,
}
use swym.Starvation.{Progress, not_starving, starving, Pc, yield_limit, unpark_token}
use swym.Starvation.Machine.{Machine}

abbrev pub is_starving : Progress → Bool
is_starving (not_starving first_failed backoff) = false
is_starving starving = true

-- Whether a thread has the lock, from where it stands.
abbrev pub holds : ℕ → Pc → Progress → Bool
holds t Pc.out g = is_starving g
holds t Pc.granted g = true
holds t Pc.unlocking g = true
holds t Pc.unlocking_slow g = true
holds t (Pc.lock_woken token) g = token == unpark_token t
holds t (Pc.wait_woken token) g = token == unpark_token t
holds t p g = false

abbrev pub asleep : Pc → Bool
asleep Pc.lock_asleep = true
asleep Pc.wait_asleep = true
asleep p = false

abbrev pub is_holder : Option ℕ → ℕ → Bool
is_holder none t = false
is_holder (some u) t = u == t

-- A thread that calls `starve_lock` has failed often.
abbrev pub WantsLock : Progress → Type 0
WantsLock (not_starving (some epoch) backoff) = yield_limit < backoff
WantsLock g = ⊥

-- What a thread's progress is where it stands.
abbrev pub Stands : ℕ → Pc → Progress → Type 0
Stands t Pc.out g = Unit
Stands t Pc.granted g = Unit
Stands t Pc.unlocking g = is_starving g ≡ true
Stands t Pc.unlocking_slow g = is_starving g ≡ true
Stands t Pc.lock_fast g = WantsLock g
Stands t Pc.lock_load g = WantsLock g
Stands t (Pc.lock_loop seen) g = WantsLock g
Stands t Pc.lock_park g = WantsLock g
Stands t Pc.lock_asleep g = WantsLock g
Stands t (Pc.lock_woken token) g = (token ≡ unpark_token t) × (is_starving g ≡ true)
Stands t (Pc.wait_woken token) g = is_starving g ≡ (token == unpark_token t)
Stands t p g = is_starving g ≡ false

-- The backoff is at most one more than its limit, and it is 0 until the thread fails.
abbrev pub IsBounded : Progress → Type 0
IsBounded (not_starving none backoff) = backoff ≡ 0
IsBounded (not_starving (some epoch) backoff) = backoff ≤ yield_limit + 1
IsBounded starving = Unit

-- Free, the state has no bit; held, it has the locked bit, and perhaps the parked bit.
abbrev pub StateOk : Option ℕ → ℕ → Type 0
StateOk none state = state ≡ 0
StateOk (some t) state = (state ≡ 1) ⊎ (state ≡ 3)

-- While a thread sleeps, both bits are set.
abbrev pub QueueOk : List ℕ → ℕ → Type 0
QueueOk [] state = Unit
QueueOk (t ∷ queue) state = state ≡ 3

pub record Inv (s : Machine) : Type 0 where
  pub state_ok : StateOk s.holder s.state
  pub queue_ok : QueueOk s.queue s.state
  pub distinct : Distinct s.queue
  pub held_by : (t : ℕ) → holds t (s.pc t) (s.progress t) ≡ is_holder s.holder t
  pub sleeps : (t : ℕ) → asleep (s.pc t) ≡ member t s.queue
  pub stands : (t : ℕ) → Stands t (s.pc t) (s.progress t)
  pub bounded : (t : ℕ) → IsBounded (s.progress t)

pub update-All {ℓ κ} :
    {A : Type ℓ} (P : ℕ → A → Type κ) (f : ℕ → A) (t : ℕ) (a : A)
    → ((j : ℕ) → P j (f j))
    → P t a
    → (j : ℕ) → P j (update f t a j)
update-All P f t a old new_one j = elim (Bool-cases (t == j)) [
  | inl same ↦ let q : t ≡ j = ground arith in rw same (rw q at new_one)
  | inr other ↦ rw other (old j)
]

pub update-All_both {ℓ κ} :
    {A B : Type ℓ} (P : ℕ → A → B → Type κ) (f : ℕ → A) (g : ℕ → B) (t : ℕ) (a : A) (b : B)
    → ((j : ℕ) → P j (f j) (g j))
    → P t a b
    → (j : ℕ) → P j (update f t a j) (update g t b j)
update-All_both P f g t a b old new_one j = elim (Bool-cases (t == j)) [
  | inl same ↦ let q : t ≡ j = ground arith in rw same (rw q at new_one)
  | inr other ↦ rw other (old j)
]
