-- ===== src/Thread/Calls.antt =====
-- src/rw.rs: what the calls of a closure leave of the logs.
use swym.Shared.{
  ℕ, ◌==◌, ◌≡◌, ◌≢◌, ◌⊎◌, ◌&&◌, not, Option, none, some, List, [], ◌∷◌, ◌++◌, arith, refl, ◌∙◌, sym,
  ap, map, length, Bool-cases, inl, inr,
}
use swym.Epoch.Word.{QuiesceEpoch}
use swym.Bloom.{overflowed}
use swym.ReadLog.{record_read, next_push_allocates, valid_at}
use swym.WriteLog
use swym.WriteLog.{WriteLog}
use swym.WriteLog.Entries.{WriteEntry}
use swym.WriteLog.Layout.{view}
use swym.WriteLog.Refine.{IsSynced}
use swym.Gc.Garbage.{ThreadGarbage, dispose}
use swym.Logs.{Logs}
use swym.Rw.{
  Loads, Result, ok, conflict, Growth, Write, borrow_impl, borrow_unlogged_impl, set_impl,
  dispose_old, is_no, borrow_slow, borrow_found, with_write_log,
}
use swym.Rw.Borrow.{borrow_impl-Keeps}
use swym.Rw.Set
use swym.Rw.Set.{set_impl-Outcome, SetOk, SetFailed, Disposed, again, first}
use swym.Tcell.Replace.{unlogged-Left}
use swym.Thread.Closure.{Body, Tried, conflicts, run_body}

-- A closure that writes values of the cells' types, and returns the conflict that a write reports.
abbrev pub Obeys : {O : Type 0} → (ℕ → ℕ) → Body O → Type 0
Obeys size (Body.returns r) = Unit
Obeys size (Body.borrows k m grow rest) = (r : Result (List ℕ)) → Obeys size (rest r)
Obeys size (Body.borrows_unlogged k m rest) = (r : Result (List ℕ)) → Obeys size (rest r)
Obeys size (Body.sets k v m grow rest) =
    (length v.val ≡ size k) × (rest conflict ≡ Body.returns conflicts) × Obeys size (rest (ok tt))

-- The logs of a transaction that has met no conflict, begun with the garbage `g`.
pub record InTx (size : ℕ → ℕ) (g : ThreadGarbage) (logs : Logs) : Type 0 where
  pub synced : IsSynced logs.write_log
  pub sized : (k : ℕ) (v : List ℕ) → view k logs.write_log.entries ≡ some v → length v ≡ size k
  pub reads : (ks : List ℕ) × (logs.read_log.entries ≡ map some ks)
  pub same_sealed : logs.garbage.sealed_bags ≡ g.sealed_bags
  pub same_unused : logs.garbage.unused_bags ≡ g.unused_bags
  pub no_trash : logs.write_log.entries ≡ [] → logs.garbage.speculative_bag.queued ≡ []

-- The logs that a closure leaves: those of a transaction that can commit, unless it met a conflict.
pub record Left {O : Type 0} (size : ℕ → ℕ) (g : ThreadGarbage) (r : Tried O × Logs) : Type 0 where
  pub clearable : r.1.write_log.bloom.filter ≢ overflowed → r.1.write_log.bloom.overflow ≡ []
  pub same_sealed : r.1.garbage.sealed_bags ≡ g.sealed_bags
  pub same_unused : r.1.garbage.unused_bags ≡ g.unused_bags
  pub whole : r.0 ≢ conflicts → InTx size g r.1

map-append_one : (ks : List ℕ) (k : ℕ) → map some ks ++ (some k ∷ []) ≡ map some (ks ++ (k ∷ []))
map-append_one [] k = refl
map-append_one (j ∷ ks) k = ap (λ l. some j ∷ l) (map-append_one ks k)

borrow_impl-reads :
    (e : QuiesceEpoch) (k : ℕ) (m : Loads) (grow : Growth) (logs : Logs)
    → ((borrow_impl e k m grow logs).1.read_log.entries ≡ logs.read_log.entries)
      ⊎ ((borrow_impl e k m grow logs).1.read_log.entries ≡ logs.read_log.entries ++ (some k ∷ []))
unfolding borrow_impl borrow_slow record_read
borrow_impl-reads e k m grow logs =
    elim (Bool-cases (
      not (next_push_allocates logs.read_log)
      && is_no (WriteLog.contained k logs.write_log)
      && valid_at e m.fast_check k)) [
        | inl fast ↦ rw fast (inr refl)
        | inr slow ↦
            rw slow (by_found (WriteLog.find k logs.write_log).0 (WriteLog.find k logs.write_log).1)
      ]
  where
    by_found :
        (o : Option WriteEntry) (w : WriteLog)
        → ((borrow_found o e k m grow (with_write_log logs w)).1.read_log.entries
            ≡ logs.read_log.entries)
          ⊎ ((borrow_found o e k m grow (with_write_log logs w)).1.read_log.entries
              ≡ logs.read_log.entries ++ (some k ∷ []))
    by_found none w = elim (Bool-cases (valid_at e m.slow_check k)) [
      | inl valid ↦ rw valid (inr refl)
      | inr stale ↦ rw stale (inl refl)
    ]
    by_found (some x) w = elim (Bool-cases (valid_at e m.slow_check k)) [
      | inl valid ↦ rw valid (inl refl)
      | inr stale ↦ rw stale (inl refl)
    ]

borrow_impl-InTx :
    (size : ℕ → ℕ) (g : ThreadGarbage) (e : QuiesceEpoch) (k : ℕ) (m : Loads) (grow : Growth)
    (logs : Logs)
    → InTx size g logs
    → InTx size g (borrow_impl e k m grow logs).1
borrow_impl-InTx size g e k m grow logs i =
    let kept = borrow_impl-Keeps e k m grow logs i.synced in
    record {
      synced = kept.synced;
      sized = λ j v h. i.sized j v (rw kept.same_writes at h);
      reads = elim (borrow_impl-reads e k m grow logs) [
        | inl same ↦ (i.reads.0, same ∙ i.reads.1)
        | inr more ↦ (
          i.reads.0 ++ (k ∷ []),
          more ∙ ap (λ l. l ++ (some k ∷ [])) i.reads.1 ∙ map-append_one i.reads.0 k,
        )
      ];
      same_sealed = ap (λ (x : ThreadGarbage). x.sealed_bags) kept.same_garbage ∙ i.same_sealed;
      same_unused = ap (λ (x : ThreadGarbage). x.unused_bags) kept.same_garbage ∙ i.same_unused;
      no_trash = λ h.
          ap (λ (x : ThreadGarbage). x.speculative_bag.queued) kept.same_garbage
          ∙ i.no_trash (sym kept.same_writes ∙ h);
    }

borrow_unlogged_impl-InTx :
    (size : ℕ → ℕ) (g : ThreadGarbage) (e : QuiesceEpoch) (k : ℕ) (m : Loads) (logs : Logs)
    → InTx size g logs
    → InTx size g (borrow_unlogged_impl e k m logs).1
borrow_unlogged_impl-InTx size g e k m logs i =
    let left = unlogged-Left e k m logs i.synced in
    let only = left.only_that in
    rw only (record {
      synced = left.synced;
      sized = λ j v h. i.sized j v (rw left.same at h);
      reads = i.reads;
      same_sealed = i.same_sealed;
      same_unused = i.same_unused;
      no_trash = λ h. i.no_trash (sym left.same ∙ h);
    })

view-some : (k : ℕ) (v : List ℕ) (es : List WriteEntry) → view k es ≡ some v → es ≢ []
view-some k v es h none_written =
    let absent : view k [] ≡ some v = rw none_written at h in absurd (unfold view in cc absent)

dispose_old-bags :
    (k : ℕ) (v : Write) (old : List ℕ) (grow : Growth) (g : ThreadGarbage)
    → ((dispose_old k v old grow g).sealed_bags ≡ g.sealed_bags)
      × ((dispose_old k v old grow g).unused_bags ≡ g.unused_bags)
unfolding dispose
dispose_old-bags k v old grow g = elim (Bool-cases v.needs_drop) [
  | inl drops ↦ rw drops (refl, refl)
  | inr plain ↦ rw plain (refl, refl)
]

Disposed-bags :
    (e : QuiesceEpoch) (k : ℕ) (v : Write) (m : Loads) (grow : Growth) (logs logs' : Logs)
    → Disposed e k v m grow logs logs'
    → (logs'.garbage.sealed_bags ≡ logs.garbage.sealed_bags)
      × (logs'.garbage.unused_bags ≡ logs.garbage.unused_bags)
Disposed-bags e k v m grow logs logs' (again p same) = rw same (refl, refl)
Disposed-bags e k v m grow logs logs' (first old p loaded same) =
    rw same (dispose_old-bags k v old grow logs.garbage)

SetOk-InTx :
    (size : ℕ → ℕ) (g : ThreadGarbage) (e : QuiesceEpoch) (k : ℕ) (v : Write) (m : Loads)
    (grow : Growth) (logs logs' : Logs)
    → InTx size g logs
    → length v.val ≡ size k
    → SetOk e k v m grow logs logs'
    → InTx size g logs'
SetOk-InTx size g e k v m grow logs logs' i fits o =
    let bags = Disposed-bags e k v m grow logs logs' o.disposed in
    record {
      synced = o.writes.synced;
      sized = λ j w h. elim (Bool-cases (k == j)) [
        | inl same ↦ ground (arith, o.writes.views j)
        | inr other ↦ i.sized j w (ground (arith, o.writes.views j))
      ];
      reads = rw o.same_reads i.reads;
      same_sealed = bags.0 ∙ i.same_sealed;
      same_unused = bags.1 ∙ i.same_unused;
      no_trash = λ h.
          absurd (view-some k v.val logs'.write_log.entries (ground (arith, o.writes.views k)) h);
    }

-- The logs that the calls of a closure leave.
pub run_body-Left :
    {O : Type 0} (size : ℕ → ℕ) (g : ThreadGarbage) (e : QuiesceEpoch) (b : Body O) (logs : Logs)
    → Obeys size b
    → InTx size g logs
    → Left size g (run_body e b logs)
unfolding run_body
run_body-Left size g e (Body.returns r) logs ob i = record {
  clearable = i.synced.inline_empty;
  same_sealed = i.same_sealed;
  same_unused = i.same_unused;
  whole = λ n. i;
}
run_body-Left size g e (Body.borrows k m grow rest) logs ob i =
    run_body-Left size g e (rest (borrow_impl e k m grow logs).0) (borrow_impl e k m grow logs).1
      (ob (borrow_impl e k m grow logs).0) (borrow_impl-InTx size g e k m grow logs i)
run_body-Left size g e (Body.borrows_unlogged k m rest) logs ob i =
    run_body-Left size g e (rest (borrow_unlogged_impl e k m logs).0)
      (borrow_unlogged_impl e k m logs).1 (ob (borrow_unlogged_impl e k m logs).0)
      (borrow_unlogged_impl-InTx size g e k m logs i)
run_body-Left {O} size g e (Body.sets k v m grow rest) logs (fits, stops, ob) i =
    by_result (set_impl e k v m grow logs)
      (set_impl-Outcome e k v m grow logs i.synced (λ w h. fits ∙ sym (i.sized k w h)))
      (λ logs' i'. run_body-Left size g e (rest (ok tt)) logs' ob i')
  where
    by_result :
        (r : Result (Unit {0}) × Logs)
        → Set.Outcome e k v m grow logs r
        → ((logs' : Logs) → InTx size g logs' → Left size g (run_body e (rest (ok tt)) logs'))
        → Left size g (run_body e (rest r.0) r.1)
    by_result (ok tt, logs') o next_calls =
        next_calls logs' (SetOk-InTx size g e k v m grow logs logs' i fits o)
    by_result (conflict, logs') o next_calls = rw stops (record {
      clearable = o.clearable;
      same_sealed = ap (λ (x : ThreadGarbage). x.sealed_bags) o.same_garbage ∙ i.same_sealed;
      same_unused = ap (λ (x : ThreadGarbage). x.unused_bags) o.same_garbage ∙ i.same_unused;
      whole = λ n. absurd (n refl);
    })
