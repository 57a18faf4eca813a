-- ===== src/Starvation/Queue.antt =====
-- src/internal/starvation.rs: `starve_unlock_slow`, and what it asks of the parking_lot library.
use swym.Shared.{ℕ, ◌≡◌, refl, Bool, true, false, Option, none, some, List, [], ◌∷◌, if◌then◌else◌}
use swym.Starvation.{locked_bit, no_starvers, unpark_token}

-- What the filter answers for a thread of the queue.
pub data FilterOp : Type 0 where
  unpark : FilterOp
  stop : FilterOp

-- The cell that the filter writes, the threads that are woken, and those that stay in the queue.
pub record Scan : Type 0 where
  pub next_starved : Option ℕ
  pub unparked : List ℕ
  pub remaining : List ℕ

abbrev pub Filter : Type 0
Filter = Option ℕ → ℕ → Option ℕ × FilterOp

abbrev pub also_unparked : ℕ → Scan → Scan
also_unparked t r = record r { unparked = t ∷ r.unparked }

-- parking_lot's `unpark_filter`: the filter is called for the threads of the queue, in their order,
-- until it answers `stop`; the threads for which it answers `unpark` leave the queue.
pub record ParkingLot : Type 0 where
  pub unpark_filter : Filter → Option ℕ → List ℕ → Scan
  pub filter_none :
      (f : Filter) (cell : Option ℕ)
      → unpark_filter f cell [] ≡ record { next_starved = cell; unparked = []; remaining = [] }
  pub filter_unpark :
      (f : Filter) (cell cell' : Option ℕ) (t : ℕ) (queue : List ℕ)
      → f cell t ≡ (cell', unpark)
      → unpark_filter f cell (t ∷ queue) ≡ also_unparked t (unpark_filter f cell' queue)
  pub filter_stop :
      (f : Filter) (cell cell' : Option ℕ) (t : ℕ) (queue : List ℕ)
      → f cell t ≡ (cell', stop)
      → unpark_filter f cell (t ∷ queue)
        ≡ record { next_starved = cell'; unparked = []; remaining = t ∷ queue }

-- The closure `filter`, over its cell
unfoldable pub filter : (ℕ → Bool) → Filter
filter should_upgrade none t = if should_upgrade t then (some t, unpark) else (none, unpark)
filter should_upgrade (some u) t = (some u, stop)

abbrev pub no_more : List ℕ → Bool
no_more [] = true
no_more (t ∷ queue) = false

-- The closure `callback`: the state of the lock, and the token that the woken threads are given.
abbrev pub token_of : Option ℕ → ℕ
token_of none = no_starvers
token_of (some t) = unpark_token t

abbrev pub next_state : Option ℕ → ℕ
next_state none = 0
next_state (some t) = locked_bit

unfoldable pub callback : Scan → ℕ → ℕ × ℕ
callback r state =
    (if no_more r.remaining then next_state r.next_starved else state, token_of r.next_starved)

-- A parking_lot that does what is documented, for runs.
abbrev after_answer : Option ℕ × FilterOp → ℕ → List ℕ → (Option ℕ → Scan) → Scan
after_answer (cell, unpark) t queue rest = also_unparked t (rest cell)
after_answer (cell, stop) t queue rest = record {
  next_starved = cell;
  unparked = [];
  remaining = t ∷ queue;
}

abbrev scan_queue : Filter → Option ℕ → List ℕ → Scan
scan_queue f cell [] = record { next_starved = cell; unparked = []; remaining = [] }
scan_queue f cell (t ∷ queue) = after_answer (f cell t) t queue (λ c. scan_queue f c queue)

pub scan_queue_unpark :
    (f : Filter) (cell cell' : Option ℕ) (t : ℕ) (queue : List ℕ)
    → f cell t ≡ (cell', unpark)
    → scan_queue f cell (t ∷ queue) ≡ also_unparked t (scan_queue f cell' queue)
scan_queue_unpark f cell cell' t queue h = rw h

pub scan_queue_stop :
    (f : Filter) (cell cell' : Option ℕ) (t : ℕ) (queue : List ℕ)
    → f cell t ≡ (cell', stop)
    → scan_queue f cell (t ∷ queue)
      ≡ record { next_starved = cell'; unparked = []; remaining = t ∷ queue }
scan_queue_stop f cell cell' t queue h = rw h

abbrev pub in_order : ParkingLot
in_order = record {
  unpark_filter = scan_queue;
  filter_none = λ f cell. refl;
  filter_unpark = scan_queue_unpark;
  filter_stop = scan_queue_stop;
}
