-- ===== src/Parking/Bits.antt =====
-- src/internal/parking.rs: which bits a thread that parks leaves cleared.
use swym.Shared.{
  ℕ, ◌≡◌, ◌≤◌, ◌↔◌, Bool, true, false, Option, none, some, List, [], ◌∷◌, ◌==◌, if◌then◌else◌, All,
  member, arith, refl, ◌||◌, ◌∙◌,
}
use swym.Epoch.Word.{QuiesceEpoch, clear_unpark_bit}
use swym.Epoch.Lock.{
  ParkStatus, no_parked, has_parked, try_clear_unpark_bit, try_clear_unpark_bit_from,
  clear_unpark_bit_htm, set_unpark_bit,
}
use swym.Memory.{Memory, store_epoch}
use swym.ReadLog.Laws.{IsReadable}
use swym.Logs.{Logs}
use swym.Commit.Loops.{with_epoch}
use swym.Commit.Hard.{Bounded, BeginCode}
use swym.Parking.{
  logged, Cleared, clear_step, clear_all, cleanup_step, park_failure_cleanup, clear_soft,
  clear_htm_step, clear_all_htm, begin_htx_park, after_htm, clear_started, try_clear_unpark_bits,
}

-- The unpark bit of each cell of a list cleared, and all else as it was.
abbrev pub ClearedAt : List ℕ → Memory → Memory → Type 0
ClearedAt ks m m' =
    (j : ℕ) → m' j ≡ (if member j ks then with_epoch clear_unpark_bit (m j) else m j)

-- What one cell's clearing says.
step_some :
    (e w w' : ℕ) (status : ParkStatus)
    → try_clear_unpark_bit e w ≡ (some status, w')
    → (w ≤ e) × (w' ≡ clear_unpark_bit w)
unfolding try_clear_unpark_bit try_clear_unpark_bit_from
step_some e w w' status h = ground arith

step_none : (e w w' : ℕ) → try_clear_unpark_bit e w ≡ (none, w') → ¬ (w ≤ e)
unfolding try_clear_unpark_bit try_clear_unpark_bit_from
step_none e w w' h = ground arith

step_restored :
    (e w w' : ℕ) → try_clear_unpark_bit e w ≡ (some no_parked, w') → set_unpark_bit w' ≡ w
unfolding try_clear_unpark_bit try_clear_unpark_bit_from
step_restored e w w' h = ground arith

step_already : (e w w' : ℕ) → try_clear_unpark_bit e w ≡ (some has_parked, w') → w' ≡ w
unfolding try_clear_unpark_bit try_clear_unpark_bit_from
step_already e w w' h = ground arith

IsReadable-store :
    (e k : ℕ) (m : Memory) (ks : List ℕ)
    → (m k).current_epoch ≤ e
    → All (IsReadable e m) ks
      ↔ All (IsReadable e (store_epoch k (clear_unpark_bit (m k).current_epoch) m)) ks
IsReadable-store e k m [] h = ((λ a. tt), λ a. tt)
IsReadable-store e k m (j ∷ ks) h =
    let rest = IsReadable-store e k m ks h in
    ((λ a. (ground (arith, a.0), rest.0 a.1)), (λ a. (ground (arith, a.0), rest.1 a.1)))

-- Whether the clean-up sets the bit of a cell.
abbrev sets : ParkStatus → Bool
sets no_parked = true
sets has_parked = false

touched : List ℕ → List ParkStatus → ℕ → Bool
touched [] statuses j = false
touched (k ∷ ks) [] j = false
touched (k ∷ ks) (s ∷ statuses) j = (if k == j then sets s else false) || touched ks statuses j

cleanup-at :
    (ks : List ℕ) (statuses : List ParkStatus) (m : Memory) (j : ℕ)
    → park_failure_cleanup ks statuses m j
      ≡ (if touched ks statuses j then with_epoch set_unpark_bit (m j) else m j)
unfolding park_failure_cleanup touched
cleanup-at [] statuses m j = refl
cleanup-at (k ∷ ks) [] m j = refl
cleanup-at (k ∷ ks) (no_parked ∷ statuses) m j =
    rw (cleanup-at ks statuses (cleanup_step no_parked k m) j) (ground arith)
cleanup-at (k ∷ ks) (has_parked ∷ statuses) m j = rw (cleanup-at ks statuses m j) (ground arith)

-- What the loop says of the memory after it, or, if it stopped, after the clean-up.
abbrev Loop : QuiesceEpoch → List ℕ → Memory → Bool → List ParkStatus → Memory → Type 0
Loop e ks m true statuses m' = All (IsReadable e m) ks × ClearedAt ks m m'
Loop e ks m false statuses m' =
    (¬ All (IsReadable e m) ks)
    × ((j : ℕ) → (if touched ks statuses j then with_epoch set_unpark_bit (m' j) else m' j) ≡ m j)

Loop-cons :
    (e k w : ℕ) (ks : List ℕ) (m m' : Memory) (status : ParkStatus) (all : Bool)
    (statuses : List ParkStatus)
    → try_clear_unpark_bit e (m k).current_epoch ≡ (some status, w)
    → Loop e ks (store_epoch k w m) all statuses m'
    → Loop e (k ∷ ks) m all (status ∷ statuses) m'
unfolding touched
Loop-cons e k w ks m m' status true statuses q (reads, cleared) =
    let (le, bit) = step_some e (m k).current_epoch w status q in
    ((le, (IsReadable-store e k m ks le).1 (rw bit at reads)), (λ j. ground (arith, cleared j)))
Loop-cons e k w ks m m' no_parked false statuses q (cannot, restored) =
    let (le, bit) = step_some e (m k).current_epoch w no_parked q in
    let set = step_restored e (m k).current_epoch w q in
    (
      (λ a. (rw bit at cannot) ((IsReadable-store e k m ks le).0 a.1)),
      (λ j. ground (arith, restored j)),
    )
Loop-cons e k w ks m m' has_parked false statuses q (cannot, restored) =
    let (le, bit) = step_some e (m k).current_epoch w has_parked q in
    let same = step_already e (m k).current_epoch w q in
    (
      (λ a. (rw bit at cannot) ((IsReadable-store e k m ks le).0 a.1)),
      (λ j. ground (arith, restored j)),
    )

clear_all-Loop :
    (e : QuiesceEpoch) (ks : List ℕ) (m : Memory)
    → Loop e ks m (clear_all e ks m).all (clear_all e ks m).park_statuses (clear_all e ks m).memory
unfolding clear_all touched
clear_all-Loop e [] m = (tt, λ j. refl)
clear_all-Loop e (k ∷ ks) m =
    by_step (try_clear_unpark_bit e (m k).current_epoch) refl (λ m'. clear_all-Loop e ks m')
  where
    by_step :
        (r : Option ParkStatus × ℕ)
        → try_clear_unpark_bit e (m k).current_epoch ≡ r
        → ((m' : Memory)
            → Loop e ks m'
                (clear_all e ks m').all
                (clear_all e ks m').park_statuses
                (clear_all e ks m').memory)
        → (let c : Cleared = clear_step r k m (λ m'. clear_all e ks m') in
            Loop e (k ∷ ks) m c.all c.park_statuses c.memory)
    by_step (none, w) q rest = ((λ a. step_none e (m k).current_epoch w q a.0), λ j. refl)
    by_step (some status, w) q rest = Loop-cons e k w ks m _ status _ _ q (rest (store_epoch k w m))

-- How `try_clear_unpark_bits` may end.
abbrev pub Bits : QuiesceEpoch → List ℕ → Memory → Bool × Memory → Type 0
Bits e ks m (true, m') = All (IsReadable e m) ks × ClearedAt ks m m'
Bits e ks m (false, m') = (j : ℕ) → m' j ≡ m j

clear_soft-Bits : (e : QuiesceEpoch) (ks : List ℕ) (m : Memory) → Bits e ks m (clear_soft e ks m)
unfolding clear_soft
clear_soft-Bits e ks m = by_end (clear_all e ks m).all (clear_all-Loop e ks m)
  where
    by_end :
        (all : Bool)
        → Loop e ks m all (clear_all e ks m).park_statuses (clear_all e ks m).memory
        → Bits e ks m (
            if all then (true, (clear_all e ks m).memory) else (
              false,
              park_failure_cleanup ks (clear_all e ks m).park_statuses (clear_all e ks m).memory,
            ))
    by_end true l = l
    by_end false l = λ j. cleanup-at ks _ _ j ∙ l.1 j

htm_some : (e w w' : ℕ) → clear_unpark_bit_htm e w ≡ some w' → (w ≤ e) × (w' ≡ clear_unpark_bit w)
unfolding clear_unpark_bit_htm
htm_some e w w' h = ground arith

abbrev HtmBits : QuiesceEpoch → List ℕ → Memory → Option Memory → Type 0
HtmBits e ks m none = Unit
HtmBits e ks m (some m') = All (IsReadable e m) ks × ClearedAt ks m m'

clear_all_htm-HtmBits :
    (e : QuiesceEpoch) (ks : List ℕ) (m : Memory) → HtmBits e ks m (clear_all_htm e ks m)
unfolding clear_all_htm
clear_all_htm-HtmBits e [] m = (tt, λ j. refl)
clear_all_htm-HtmBits e (k ∷ ks) m =
    by_step (clear_unpark_bit_htm e (m k).current_epoch) refl (λ m'. clear_all_htm-HtmBits e ks m')
  where
    by_rest :
        (w : ℕ) (r : Option Memory)
        → clear_unpark_bit_htm e (m k).current_epoch ≡ some w
        → HtmBits e ks (store_epoch k w m) r
        → HtmBits e (k ∷ ks) m r
    by_rest w none q rest = tt
    by_rest w (some m') q (reads, cleared) =
        let (le, bit) = htm_some e (m k).current_epoch w q in
        ((le, (IsReadable-store e k m ks le).1 (rw bit at reads)), (λ j. ground (arith, cleared j)))

    by_step :
        (o : Option ℕ)
        → clear_unpark_bit_htm e (m k).current_epoch ≡ o
        → ((m' : Memory) → HtmBits e ks m' (clear_all_htm e ks m'))
        → HtmBits e (k ∷ ks) m (clear_htm_step o k m (λ m'. clear_all_htm e ks m'))
    by_step none q rest = tt
    by_step (some w) q rest = by_rest w _ q (rest (store_epoch k w m))

clear_started-Bits :
    (b : Bounded) (e : QuiesceEpoch) (ks : List ℕ) (m : Memory)
    → Bits e ks m (clear_started b e ks m)
clear_started-Bits Bounded.started e ks m =
    by_htm (clear_all_htm e ks m) (clear_all_htm-HtmBits e ks m)
  where
    by_htm : (o : Option Memory) → HtmBits e ks m o → Bits e ks m (after_htm o m)
    by_htm none h = λ j. refl
    by_htm (some m') h = h
clear_started-Bits Bounded.software_fallback e ks m = clear_soft-Bits e ks m
clear_started-Bits Bounded.abort_or_conflict e ks m = λ j. refl

-- Before a thread sleeps, in hardware or in software, either every cell that it has read or written
-- is readable at its epoch, and then exactly their unpark bits are cleared; or the thread does not
-- sleep, and every cell is as it was, whatever bits had been cleared on the way.
pub try_clear_unpark_bits-Bits :
    (supported : Bool) (codes : List BeginCode) (e : QuiesceEpoch) (logs : Logs) (m : Memory)
    → Bits e (logged logs) m (try_clear_unpark_bits supported codes e logs m)
unfolding try_clear_unpark_bits
try_clear_unpark_bits-Bits supported codes e logs m =
    clear_started-Bits (begin_htx_park supported codes logs) e (logged logs) m
