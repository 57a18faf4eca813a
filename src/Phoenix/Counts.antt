-- ===== src/Phoenix/Counts.antt =====
-- src/internal/phoenix_tls.rs: every operation keeps the counts.
use swym.Shared.{
  ℕ, ◌+◌, ◌-◌, ◌≡◌, ◌≢◌, ◌≤◌, ◌<◌, true, false, Option, none, some, ◌==◌, ltb, update, arith, refl,
  inl, inr, Bool-cases, ==_refl,
}
use swym.Phoenix.{
  PhoenixImpl, Slow, Tls, new, set_count, clone, drop, With, init, with_fast, handed, after_clone,
  get, cloned, clone_handle, drop_handle, destroy, Step, Steps, stay, next, start,
}
use swym.Phoenix.Laws.{
  slow_handle, ObjectOk, FastOk, Inv, FastOk-update, object-Inv, clone-Inv, drop-Inv,
}

held_live :
    (s : Tls) (p : ℕ) → Inv s → 0 < s.handles p + slow_handle s.slow p → (s.heap p).live ≡ true
held_live s p i held = elim (Bool-cases (s.heap p).live) [
  | inl live ↦ live
  | inr dead ↦ absurd (ground (arith, (i.objects p).1 dead))
]

drop_handle-Inv : (s : Tls) (p : ℕ) → Inv s → 0 < s.handles p → Inv (drop_handle p s)
unfolding drop_handle
drop_handle-Inv s p i held =
    let live = held_live s p i (omega arith) in
    let o = (i.objects p).0 live in
    let made : ltb p s.allocated ≡ true = o.4 in
    drop-Inv p (record s { handles = update s.handles p (s.handles p - 1) })
      (record {
        live = live;
        counted = rw (==_refl p) (ground (arith, o));
        below = o.2;
        subscribed = o.3;
        made = made;
        once = ground (arith, (i.objects p).2);
        others = λ j other. rw other (i.objects j);
        fast_ok = i.fast_ok;
        slow_clears = i.slow_clears;
      })

destroy-Inv : (s : Tls) (l : Slow) → s.slow ≡ l → Inv s → Inv (destroy l s)
destroy-Inv s Slow.unmade q i = record {
  objects = λ j. rw q at (i.objects j);
  fast_ok = i.fast_ok;
  slow_clears = λ j h. absurd (omega arith);
}
destroy-Inv s (Slow.holds p) q i =
    let held : slow_handle s.slow p ≡ 1 = rw (q, ==_refl p) refl in
    let live = held_live s p i (omega (arith, held)) in
    let o = (i.objects p).0 live in
    let made : ltb p s.allocated ≡ true = o.4 in
    drop-Inv p (record s { slow = Slow.destroyed })
      (record {
        live = live;
        counted = omega (arith, o.0, held);
        below = o.2;
        subscribed = o.3;
        made = made;
        once = ground (arith, (i.objects p).2);
        others = λ j other.
            let unheld : slow_handle s.slow j ≡ 0 = rw (q, other) refl in
            rw unheld at (i.objects j);
        fast_ok = i.fast_ok;
        slow_clears = λ j h. absurd (omega arith);
      })
destroy-Inv s Slow.destroyed q i = i

clone_handle-Inv :
    (s : Tls) (p : ℕ) (o : Option Tls) (s' : Tls)
    → Inv s
    → (s.heap p).live ≡ true
    → clone p s ≡ o
    → cloned p o ≡ some s'
    → Inv s'
clone_handle-Inv s p none s' i live q h = absurd (cc)
clone_handle-Inv s p (some s2) s' i live q h =
    let e : handed p s2 ≡ s' = cc in rw (← e) (clone-Inv p s s2 i live q)

-- The object whose number is next has never been allocated.
unmade_ok :
    (s : Tls) (i : Inv s)
    → (s.handles s.allocated + slow_handle s.slow s.allocated ≡ 0)
      × (s.unsubscribes s.allocated ≡ 0)
      × (s.subscribes s.allocated ≡ 0)
      × ((s.heap s.allocated).live ≡ false)
unmade_ok s i =
    let o = i.objects s.allocated in
    elim (Bool-cases (s.heap s.allocated).live) [
      | inl live ↦ absurd (ground (arith, o.0 live))
      | inr dead ↦ (ground (arith, o.1 dead), ground (arith, o.1 dead), ground (arith, o.2), dead)
    ]

FastOk-allocated :
    (s : Tls) (f : Option ℕ) (o : PhoenixImpl)
    → (s.heap s.allocated).live ≡ false
    → FastOk f s.heap
    → FastOk f (update s.heap s.allocated o)
FastOk-allocated s none o dead ok = tt
FastOk-allocated s (some k) o dead ok = elim (Bool-cases (s.allocated == k)) [
  | inl same ↦ let e : s.allocated ≡ k = ground arith in absurd (let k' = rw e at dead in cc)
  | inr other ↦ rw other ok
]

-- An object that is allocated, and the slow thread local that holds it.
made-Inv :
    (s : Tls)
    → Inv s
    → s.slow ≡ Slow.unmade
    → Inv (record (new true s) { slow = Slow.holds s.allocated; fast = some s.allocated })
unfolding new
made-Inv s i q =
    let none_yet = unmade_ok s i in
    let empty : s.handles s.allocated ≡ 0 = omega arith in
    let below : ltb s.allocated (s.allocated + 1) ≡ true = ground arith in
    let own : ObjectOk (record { ref_count = 1; clear_tls = true; live = true })
        (s.handles s.allocated + 1) (s.subscribes s.allocated + 1) (s.unsubscribes s.allocated)
        true =
      (
        λ l. (omega arith, omega arith, omega arith, omega arith, refl),
        λ l. absurd (cc),
        omega arith,
      ) in
    object-Inv s.allocated s
      (record (new true s) { slow = Slow.holds s.allocated; fast = some s.allocated })
      (λ j other. i.objects j) (rw (==_refl s.allocated, below) own) (λ j other. rw other)
      (λ j other. rw (other, q) (refl, refl, refl, ground arith))
      (rw (==_refl s.allocated) (refl, refl)) (λ j h. ground arith)

handed-drop : (p : ℕ) (s : Tls) → handed p (drop p s) ≡ drop p (handed p s)
unfolding drop
handed-drop p s = elim (Bool-cases ((s.heap p).ref_count == 1)) [
  | inl last ↦ rw last refl
  | inr more ↦ rw more refl
]

-- A temporary: it is allocated, the closure clones it, and it is dropped.
temporary-Inv :
    (s s2 : Tls)
    → Inv s
    → s.slow ≡ Slow.destroyed
    → clone s.allocated (new false s) ≡ some s2
    → Inv (handed s.allocated (drop s.allocated s2))
unfolding new clone
temporary-Inv s s2 i q h =
    let none_yet = unmade_ok s i in
    let e : s2 ≡ set_count s.allocated 2 (new false s) =
      let h' = rw (==_refl s.allocated) at h in ground arith in
    let empty : s.handles s.allocated ≡ 0 = omega arith in
    let below : ltb s.allocated (s.allocated + 1) ≡ true = ground arith in
    let dead : (s.heap s.allocated).live ≡ false = none_yet.3 in
    rw (handed-drop s.allocated s2, e)
      (drop-Inv s.allocated (handed s.allocated (set_count s.allocated 2 (new false s))) (record {
        live = rw (==_refl s.allocated) refl;
        counted = rw (==_refl s.allocated, q, empty) refl;
        below = rw (==_refl s.allocated) (omega arith);
        subscribed = none_yet.1;
        made = below;
        once = rw (==_refl s.allocated) (omega arith);
        others = λ j other.
            let same : ltb j (s.allocated + 1) ≡ ltb j s.allocated = ground arith in
            rw (other, same) (i.objects j);
        fast_ok =
            FastOk-update s.fast (new false s).heap s.allocated _
              (FastOk-allocated s s.fast _ dead i.fast_ok) refl refl;
        slow_clears = λ j held. absurd (let held' = rw q at held in omega arith);
      }))

-- What a closure is given: an object that is allocated, with the counts kept, or a temporary.
data WithOk (s : Tls) (w : With) : Type 0 where
  kept : w.temporary ≡ false → Inv w.during → (w.during.heap w.object).live ≡ true → WithOk s w
  made :
      w.temporary ≡ true
      → w.object ≡ s.allocated
      → w.during ≡ new false s
      → s.slow ≡ Slow.destroyed
      → WithOk s w

init-WithOk : (s : Tls) (l : Slow) → Inv s → s.slow ≡ l → WithOk s (init l s)
init-WithOk s Slow.unmade i q =
    kept refl (made-Inv s i q) (unfold new in rw (==_refl s.allocated) refl)
init-WithOk s (Slow.holds p) i q =
    let held : slow_handle s.slow p ≡ 1 = rw (q, ==_refl p) refl in
    let live = held_live s p i (omega (arith, held)) in
    kept refl
      (record {
        objects = i.objects;
        fast_ok = (live, i.slow_clears p held);
        slow_clears = i.slow_clears;
      })
      live
init-WithOk s Slow.destroyed i q = made refl refl refl q

with_fast-WithOk : (s : Tls) (f : Option ℕ) → Inv s → s.fast ≡ f → WithOk s (with_fast f s)
with_fast-WithOk s none i q = init-WithOk s s.slow i refl
with_fast-WithOk s (some p) i q =
    let ok : FastOk (some p) s.heap = rw q at i.fast_ok in kept refl i ok.0

after_clone-Inv :
    (s s' : Tls) (w : With) (o : Option Tls)
    → Inv s
    → WithOk s w
    → clone w.object w.during ≡ o
    → after_clone w o ≡ some s'
    → Inv s'
after_clone-Inv s s' w none i ok q h = absurd (cc)
after_clone-Inv s s' w (some s2) i (kept stays counted live) q h =
    let e : handed w.object s2 ≡ s' = ground (arith, stays) in
    rw (← e) (clone-Inv w.object w.during s2 counted live q)
after_clone-Inv s s' w (some s2) i (made temporary object during gone) q h =
    let q' : clone s.allocated (new false s) ≡ some s2 = rw (object, during) at q in
    let h' : some (handed s.allocated (drop s.allocated s2)) ≡ some s' =
      rw (temporary, object) at h in
    let e : handed s.allocated (drop s.allocated s2) ≡ s' = cc in
    rw (← e) (temporary-Inv s s2 i gone q')

-- Every operation keeps the counts.
pub Step-Inv : (s s' : Tls) → Step s s' → Inv s → Inv s'
unfolding get clone_handle
Step-Inv s s' (Step.gets _ h) i =
    let w = with_fast s.fast s in
    after_clone-Inv s s' w (clone w.object w.during) i (with_fast-WithOk s s.fast i refl) refl h
Step-Inv s s' (Step.clones p _ held h) i =
    clone_handle-Inv s p (clone p s) s' i (held_live s p i (omega arith)) refl h
Step-Inv s _ (Step.drops p held) i = drop_handle-Inv s p i held
Step-Inv s _ Step.ends i = destroy-Inv s s.slow refl i

pub Steps-Inv : (s s' : Tls) → Steps s s' → Inv s → Inv s'
Steps-Inv s _ stay i = i
Steps-Inv s _ (next {u} {v} more last) i = Step-Inv u v last (Steps-Inv s u more i)

pub start-Inv : Inv start
start-Inv = record {
  objects = λ p. ((λ l. absurd (cc)), (λ l. (refl, ground arith)), ground arith);
  fast_ok = tt;
  slow_clears = λ p h. absurd (omega arith);
}

-- What there is to an object.
pub data Counted (s : Tls) (p : ℕ) : Type 0 where
  alive :
      (s.heap p).live ≡ true
      → (s.heap p).ref_count ≡ s.handles p + slow_handle s.slow p
      → 0 < (s.heap p).ref_count
      → s.subscribes p ≡ 1
      → s.unsubscribes p ≡ 0
      → Counted s p
  gone :
      (s.heap p).live ≡ false
      → s.handles p + slow_handle s.slow p ≡ 0
      → s.fast ≢ some p
      → s.subscribes p ≡ 1
      → s.unsubscribes p ≡ 1
      → Counted s p
  unborn :
      s.allocated ≤ p
      → s.handles p + slow_handle s.slow p ≡ 0
      → s.fast ≢ some p
      → s.subscribes p ≡ 0
      → s.unsubscribes p ≡ 0
      → Counted s p

-- Whatever a thread does with its handles, and whenever it ends, an object is in one of three
-- states. It is allocated: its count is the number of its handles, that of the slow thread local
-- included, and not 0; it has been told to subscribe once, and not to unsubscribe. Or it is gone: it
-- has no handle, the cached pointer does not lead to it, and it was told each once. Or it is still to
-- be made, and has no handle, no pointer and was told nothing.
pub handles-Counted : (s : Tls) (p : ℕ) → Steps start s → Counted s p
handles-Counted s p steps =
    let i = Steps-Inv start s steps start-Inv in
    let o = i.objects p in
    elim (Bool-cases (s.heap p).live) [
      | inl live ↦ let l = o.0 live in alive live l.0 l.1 (ground (arith, l.4, o.2)) l.3
      | inr dead ↦
          let unheld : s.handles p + slow_handle s.slow p ≡ 0 = (o.1 dead).0 in
          let uncached : s.fast ≢ some p =
            λ q. let ok : FastOk (some p) s.heap = rw q at i.fast_ok in cc ok.0 in
          elim (Bool-cases (ltb p s.allocated)) [
            | inl made_once ↦
                gone dead unheld uncached (ground (arith, o.2)) (ground (arith, o.1 dead))
            | inr later ↦
                unborn (ground arith) unheld uncached (ground (arith, o.2))
                  (ground (arith, o.1 dead))
          ]
    ]
