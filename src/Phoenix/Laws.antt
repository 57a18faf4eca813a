-- ===== src/Phoenix/Laws.antt =====
-- src/internal/phoenix_tls.rs: the count is the number of handles, and no handle dangles.
use swym.Shared.{
  ℕ, ◌+◌, ◌-◌, ◌%◌, ◌≡◌, ◌<◌, Bool, true, false, Option, none, some, ◌==◌, ltb, if◌then◌else◌,
  update, arith, refl, inl, inr, Bool-cases, ==_refl,
}
use swym.Epoch.Word.{word_mod}
use swym.Phoenix.{max_count, PhoenixImpl, Slow, Tls, set_count, clone, dealloc, drop, handed}

abbrev pub slow_handle : Slow → ℕ → ℕ
slow_handle Slow.unmade p = 0
slow_handle (Slow.holds q) p = if q == p then 1 else 0
slow_handle Slow.destroyed p = 0

-- An object that is allocated has as many handles as its count says, one at least, and has not been
-- told to unsubscribe; one that is gone has none, and was told once; one to come has none.
abbrev pub ObjectOk : PhoenixImpl → ℕ → ℕ → ℕ → Bool → Type 0
ObjectOk o handles subscribes unsubscribes made =
    (o.live ≡ true
      → (o.ref_count ≡ handles)
        × (0 < o.ref_count)
        × (o.ref_count < max_count)
        × (unsubscribes ≡ 0)
        × (made ≡ true))
    × (o.live ≡ false → (handles ≡ 0) × (unsubscribes ≡ (if made then 1 else 0)))
    × (subscribes ≡ (if made then 1 else 0))

abbrev pub FastOk : Option ℕ → (ℕ → PhoenixImpl) → Type 0
FastOk none heap = Unit
FastOk (some p) heap = ((heap p).live ≡ true) × ((heap p).clear_tls ≡ true)

pub record Inv (s : Tls) : Type 0 where
  pub objects :
      (p : ℕ)
      → ObjectOk
          (s.heap p)
          (s.handles p + slow_handle s.slow p)
          (s.subscribes p)
          (s.unsubscribes p)
          (ltb p s.allocated)
  pub fast_ok : FastOk s.fast s.heap
  pub slow_clears : (p : ℕ) → slow_handle s.slow p ≡ 1 → (s.heap p).clear_tls ≡ true

each : (P : ℕ → Type 0) (p : ℕ) → P p → ((j : ℕ) → (p == j) ≡ false → P j) → (j : ℕ) → P j
each P p here others j = elim (Bool-cases (p == j)) [
  | inl same ↦ let e : p ≡ j = ground arith in rw e at here
  | inr other ↦ others j other
]

abbrev pub Others : ℕ → Tls → Type 0
Others p s =
    (j : ℕ)
    → (p == j) ≡ false
    → ObjectOk (s.heap j) (s.handles j + slow_handle s.slow j) (s.subscribes j) (s.unsubscribes j)
        (ltb j s.allocated)

-- What is done to one object leaves the others, and the cached pointer if it stays valid.
pub object-Inv :
    (p : ℕ) (s s' : Tls)
    → Others p s
    → ObjectOk
        (s'.heap p)
        (s'.handles p + slow_handle s'.slow p)
        (s'.subscribes p)
        (s'.unsubscribes p)
        (ltb p s'.allocated)
    → ((j : ℕ) → (p == j) ≡ false → s'.heap j ≡ s.heap j)
    → ((j : ℕ)
        → (p == j) ≡ false
        → (s'.handles j + slow_handle s'.slow j ≡ s.handles j + slow_handle s.slow j)
          × (s'.subscribes j ≡ s.subscribes j)
          × (s'.unsubscribes j ≡ s.unsubscribes j)
          × (ltb j s'.allocated ≡ ltb j s.allocated))
    → FastOk s'.fast s'.heap
    → ((j : ℕ) → slow_handle s'.slow j ≡ 1 → (s'.heap j).clear_tls ≡ true)
    → Inv s'
object-Inv p s s' i own heap counts fast clears = record {
  objects =
      each
        (λ j.
          ObjectOk (s'.heap j) (s'.handles j + slow_handle s'.slow j) (s'.subscribes j)
            (s'.unsubscribes j) (ltb j s'.allocated))
        p own
        (λ j other. let c = counts j other in rw (heap j other, c.0, c.1, c.2, c.3) (i j other));
  fast_ok = fast;
  slow_clears = clears;
}

pub FastOk-update :
    (f : Option ℕ) (heap : ℕ → PhoenixImpl) (p : ℕ) (o : PhoenixImpl)
    → FastOk f heap
    → o.live ≡ (heap p).live
    → o.clear_tls ≡ (heap p).clear_tls
    → FastOk f (update heap p o)
FastOk-update none heap p o ok l c = tt
FastOk-update (some k) heap p o ok l c = (ground arith, ground arith)

-- A handle more of an object that is allocated.
pub clone-Inv :
    (p : ℕ) (s s' : Tls) → Inv s → (s.heap p).live ≡ true → clone p s ≡ some s' → Inv (handed p s')
unfolding clone
clone-Inv p s s' i live h =
    let o = i.objects p in
    let counted = o.0 live in
    let q : s' ≡ set_count p ((s.heap p).ref_count + 1) s = ground arith in
    let own : ObjectOk (record (s.heap p) { ref_count = (s.heap p).ref_count + 1 })
        (s.handles p + 1 + slow_handle s.slow p) (s.subscribes p) (s.unsubscribes p)
        (ltb p s.allocated) =
      (λ l. ground (arith, counted), λ l. absurd (cc), o.2) in
    rw q (
      object-Inv p s (handed p (set_count p ((s.heap p).ref_count + 1) s)) (λ j other. i.objects j)
        (rw (==_refl p) own) (λ j other. rw other) (λ j other. rw other (refl, refl, refl, refl))
        (FastOk-update s.fast s.heap p _ i.fast_ok refl refl)
        (λ j held. ground (arith, i.slow_clears j held)))

-- A state in which a handle of an object is being dropped: its count is one too high.
pub record Dropping (p : ℕ) (s : Tls) : Type 0 where
  pub live : (s.heap p).live ≡ true
  pub counted : (s.heap p).ref_count ≡ s.handles p + slow_handle s.slow p + 1
  pub below : (s.heap p).ref_count < max_count
  pub subscribed : s.unsubscribes p ≡ 0
  pub made : ltb p s.allocated ≡ true
  pub once : s.subscribes p ≡ 1
  pub others : Others p s
  pub fast_ok : FastOk s.fast s.heap
  pub slow_clears : (j : ℕ) → slow_handle s.slow j ≡ 1 → (s.heap j).clear_tls ≡ true

FastOk-dealloc :
    (f : Option ℕ) (heap : ℕ → PhoenixImpl) (p : ℕ) (o : PhoenixImpl)
    → FastOk f heap
    → o.clear_tls ≡ (heap p).clear_tls
    → FastOk (if (heap p).clear_tls then none else f) (update heap p o)
FastOk-dealloc f heap p o ok c = elim (Bool-cases (heap p).clear_tls) [
  | inl clears ↦ rw clears tt
  | inr keeps ↦ rw keeps (by_fast f ok keeps)
]
  where
    by_fast :
        (f : Option ℕ) → FastOk f heap → (heap p).clear_tls ≡ false → FastOk f (update heap p o)
    by_fast none ok keeps = tt
    by_fast (some k) ok keeps = elim (Bool-cases (p == k)) [
      | inl same ↦ let e : p ≡ k = ground arith in absurd (let k' = rw e at keeps in cc k')
      | inr other ↦ rw other ok
    ]

dealloc-Inv :
    (p : ℕ) (s : Tls)
    → s.handles p + slow_handle s.slow p ≡ 0
    → s.unsubscribes p ≡ 0
    → ltb p s.allocated ≡ true
    → s.subscribes p ≡ 1
    → Others p s
    → FastOk s.fast s.heap
    → ((j : ℕ) → slow_handle s.slow j ≡ 1 → (s.heap j).clear_tls ≡ true)
    → Inv (dealloc p s)
dealloc-Inv p s unheld subscribed made once others fast clears =
    let own : ObjectOk (record (s.heap p) { live = false }) (s.handles p + slow_handle s.slow p)
        (s.subscribes p) (s.unsubscribes p + 1) (ltb p s.allocated) =
      (λ l. absurd (cc), λ l. (unheld, rw made (omega arith)), rw made once) in
    object-Inv p s (dealloc p s) others (rw (==_refl p) own) (λ j other. rw other)
      (λ j other. rw other (refl, refl, refl, refl)) (FastOk-dealloc s.fast s.heap p _ fast refl)
      (λ j held. ground (arith, clears j held))

pub drop-Inv : (p : ℕ) (s : Tls) → Dropping p s → Inv (drop p s)
unfolding drop
drop-Inv p s d =
    let counted = d.counted in
    let below = d.below in
    let less : ((s.heap p).ref_count + word_mod - 1) % word_mod ≡ (s.heap p).ref_count - 1 =
      omega arith in
    let s' : Tls = set_count p ((s.heap p).ref_count - 1) s in
    let fast =
      FastOk-update s.fast s.heap p (record (s.heap p) { ref_count = (s.heap p).ref_count - 1 })
        d.fast_ok refl refl in
    let clears : (j : ℕ) → slow_handle s'.slow j ≡ 1 → (s'.heap j).clear_tls ≡ true =
      λ j held. ground (arith, d.slow_clears j held) in
    rw less (elim (Bool-cases ((s.heap p).ref_count == 1)) [
      | inl last ↦ rw last (
          dealloc-Inv p s' (ground arith) d.subscribed d.made d.once
            (λ j other. rw other (d.others j other)) fast clears)
      | inr more ↦
          let own : ObjectOk (record (s.heap p) { ref_count = (s.heap p).ref_count - 1 })
              (s.handles p + slow_handle s.slow p) (s.subscribes p) (s.unsubscribes p)
              (ltb p s.allocated) =
            (
              λ l. (omega arith, ground arith, omega arith, d.subscribed, d.made),
              λ l. absurd (let l' = d.live in cc),
              rw (d.made) (d.once),
            ) in
          rw more (
            object-Inv p s s' d.others (rw (==_refl p) own) (λ j other. rw other)
              (λ j other. (refl, refl, refl, refl)) fast clears)
    ])
