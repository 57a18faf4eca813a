-- ===== src/Commit/Hard/Laws.antt =====
-- src/internal/commit.rs: a commit in hardware succeeds when one in software would, with the same
-- memory.
use swym.Shared.{
  ℕ, ◌≤◌, ◌≡◌, true, false, Option, none, some, List, [], ◌∷◌, ◌==◌, if◌then◌else◌, All, member,
  Distinct, arith, refl, inl, inr, Bool-cases, ◌∙◌, map, sym, ap,
}
use swym.Epoch.Word.{QuiesceEpoch, IsTime, toggle_lock_bit}
use swym.Epoch.Lock.{ParkStatus, no_parked, has_parked, merge, try_lock_htm, is_locked}
use swym.Epoch.Lock.Laws.{Locked, try_lock-Locked, try_lock_htm-try_lock}
use swym.Memory.{Memory, store_epoch, store_value}
use swym.ReadLog.{all_valid}
use swym.WriteLog.Entries.{WriteEntry, epoch_locks}
use swym.WriteLog.Layout.{view, view-member}
use swym.Commit.Loops.{with_epoch, with_value, IsLockable, status_of}
use swym.Commit.Hard.{
  validate_reads_htm, locked_htm, entry_lock_htm, after_entry, write_and_lock_htm,
}
use swym.Commit.{perform_write}

-- A validation in hardware goes through the reads from the last to the first, with the same result.
pub validate_reads_htm-all_valid :
    (e : QuiesceEpoch) (m : Memory) (ks : List ℕ)
    → validate_reads_htm e m (map some ks) ≡ some (all_valid e m ks)
unfolding validate_reads_htm all_valid
validate_reads_htm-all_valid e m [] = refl
validate_reads_htm-all_valid e m (k ∷ ks) =
    rw (validate_reads_htm-all_valid e m ks) (elim (Bool-cases (all_valid e m ks)) [
      | inl t ↦ rw t (ground arith)
      | inr f ↦ rw f (ground arith)
    ])

-- Memories with the same words at the cells of a list.
SameWords : List ℕ → Memory → Memory → Type 0
SameWords ks m m' = (j : ℕ) → member j ks ≡ true → (m' j).current_epoch ≡ (m j).current_epoch

SameWords-tail : (k : ℕ) (ks : List ℕ) (m m' : Memory) → SameWords (k ∷ ks) m m' → SameWords ks m m'
unfolding SameWords
SameWords-tail k ks m m' s j h = s j (ground arith)

SameWords-sym : (ks : List ℕ) (m m' : Memory) → SameWords ks m m' → SameWords ks m' m
unfolding SameWords
SameWords-sym ks m m' s j h = sym (s j h)

IsLockable-SameWords :
    (e : QuiesceEpoch) (m m' : Memory) (ks : List ℕ)
    → SameWords ks m m'
    → All (IsLockable e m') ks
    → All (IsLockable e m) ks
unfolding SameWords
IsLockable-SameWords e m m' [] s a = tt
IsLockable-SameWords e m m' (k ∷ ks) s a =
    let same : (m' k).current_epoch ≡ (m k).current_epoch = s k (ground arith) in
    ((rw (← same) a.0), IsLockable-SameWords e m m' ks (SameWords-tail k ks m m' s) a.1)

status_of-SameWords :
    (m m' : Memory) (ks : List ℕ) (status : ParkStatus)
    → SameWords ks m m'
    → status_of ks m' status ≡ status_of ks m status
unfolding SameWords
status_of-SameWords m m' [] status s = refl
status_of-SameWords m m' (k ∷ ks) status s =
    let same : (m' k).current_epoch ≡ (m k).current_epoch = s k (ground arith) in
    rw same (status_of-SameWords m m' ks _ (SameWords-tail k ks m m' s))

stored-SameWords :
    (k w : ℕ) (v : List ℕ) (m : Memory) (ks : List ℕ)
    → member k ks ≡ false
    → SameWords ks m (store_epoch k w (store_value k v m))
unfolding SameWords
stored-SameWords k w v m ks absent j h = elim (Bool-cases (k == j)) [
  | inl same ↦ let q : k ≡ j = ground arith in absurd (ground arith)
  | inr other ↦ ground arith
]

merge_no_parked : (s : ParkStatus) → merge s no_parked ≡ s
merge_no_parked no_parked = refl
merge_no_parked has_parked = refl

-- The cells of the entries after the writes, locked.
abbrev pub WrittenAt : List WriteEntry → Memory → Memory → Type 0
WrittenAt es m m' =
    (j : ℕ)
    → m' j
      ≡ with_value (view j es)
          (if member j (epoch_locks es) then with_epoch toggle_lock_bit (m j) else m j)

abbrev pub HtmOutcome :
    QuiesceEpoch → List WriteEntry → ParkStatus → Memory → Option (ParkStatus × Memory) → Type 0
HtmOutcome e es status m none = ¬ All (IsLockable e m) (epoch_locks es)
HtmOutcome e es status m (some (status', m')) =
    All (IsLockable e m) (epoch_locks es)
    × WrittenAt es m m'
    × (status' ≡ status_of (epoch_locks es) m status)

try_lock_htm-refused : (e w : ℕ) → try_lock_htm e w ≡ none → ¬ ((is_locked w ≡ false) × (w ≤ e))
unfolding try_lock_htm
try_lock_htm-refused e w h = ground arith

module _ (k : ℕ) (v : List ℕ) (e : QuiesceEpoch) (es : List WriteEntry) (status : ParkStatus)
    (m : Memory) (time : IsTime e)
    (distinct : (member k (epoch_locks es) ≡ false) × Distinct (epoch_locks es)) where
  abbrev first : WriteEntry
  first = record { dest = some k; pending = v }

  -- The cell of the first entry, written and locked.
  abbrev stored : ℕ → Memory
  stored w = store_epoch k w (store_value k v m)

  by_rest :
      (w : ℕ) (cur : ParkStatus) (r : Option (ParkStatus × Memory))
      → Locked e (m k).current_epoch w cur
      → HtmOutcome e es (merge status cur) (stored w) r
      → HtmOutcome e (first ∷ es) status m r
  unfolding epoch_locks view
  by_rest w cur none l o =
      let same = stored-SameWords k w v m (epoch_locks es) distinct.0 in
      λ a. o (
        IsLockable-SameWords e (stored w) m (epoch_locks es)
          (SameWords-sym (epoch_locks es) m (stored w) same) a.1)
  by_rest w cur (some (status', m')) l (a, written, st) =
      let same = stored-SameWords k w v m (epoch_locks es) distinct.0 in
      (
        ((l.was_free, l.not_later), IsLockable-SameWords e m (stored w) (epoch_locks es) same a),
        (λ j. ground (arith, written j, l.toggled, distinct.0, view-member k es)),
        st
            ∙ (status_of-SameWords m (stored w) (epoch_locks es) (merge status cur) same
                ∙ ap (λ x. status_of (epoch_locks es) m (merge status x)) l.status_read),
      )

  by_lock :
      ((s : ParkStatus) (m' : Memory)
        → Distinct (epoch_locks es)
        → HtmOutcome e es s m' (write_and_lock_htm e es s m'))
      → (r : Option (ParkStatus × ℕ)) → try_lock_htm e (m k).current_epoch ≡ r
      → HtmOutcome e (first ∷ es) status m (
          after_entry
            (locked_htm k (store_value k v m) r)
            status
            (λ s m'. write_and_lock_htm e es s m'))
  unfolding epoch_locks
  by_lock rest none q = λ a. try_lock_htm-refused e (m k).current_epoch q a.0
  by_lock rest (some (cur, w)) q =
      let q' = (try_lock_htm-try_lock e (m k).current_epoch w cur).0 q in
      by_rest w cur (write_and_lock_htm e es (merge status cur) (stored w))
        (try_lock-Locked e (m k).current_epoch w cur time q')
        (rest (merge status cur) (stored w) distinct.1)

-- The loop over the entries either writes and locks every cell, each of which was free and not later
-- than the epoch, or aborts, and then some cell was not.
pub write_and_lock_htm-HtmOutcome :
    (e : QuiesceEpoch) (es : List WriteEntry) (status : ParkStatus) (m : Memory)
    → IsTime e
    → Distinct (epoch_locks es)
    → HtmOutcome e es status m (write_and_lock_htm e es status m)
unfolding write_and_lock_htm epoch_locks view
write_and_lock_htm-HtmOutcome e [] status m t d = (tt, (λ j. refl), refl)
write_and_lock_htm-HtmOutcome e (w ∷ es) status m t d =
    by_dest w.dest d (λ s m' d'. write_and_lock_htm-HtmOutcome e es s m' t d')
  where
    by_dest :
        (o : Option ℕ)
        → Distinct (epoch_locks (record { dest = o; pending = w.pending } ∷ es))
        → ((s : ParkStatus) (m' : Memory)
            → Distinct (epoch_locks es)
            → HtmOutcome e es s m' (write_and_lock_htm e es s m'))
        → HtmOutcome e (record { dest = o; pending = w.pending } ∷ es) status m (
            after_entry
              (entry_lock_htm o e (perform_write o w.pending m))
              status
              (λ s m'. write_and_lock_htm e es s m'))
    by_dest none d' rest = rw (merge_no_parked status) (rest status m d')
    by_dest (some k) d' rest =
        let same : (store_value k w.pending m k).current_epoch ≡ (m k).current_epoch =
          ground arith in
        rw same
          (by_lock k w.pending e es status m t d' rest (try_lock_htm e (m k).current_epoch) refl)
