-- ===== src/Starvation/Handoff.antt =====
-- src/internal/starvation.rs: `starve_unlock_slow` hands the lock to the first sleeping thread that
-- is to be upgraded.
use mathlib.Core.List.{append-nil}
use swym.Shared.{
  ℕ, ◌≡◌, ◌==◌, Bool, true, false, Option, none, some, List, [], ◌∷◌, ◌++◌, member, Distinct, All,
  arith, refl, inl, inr, Bool-cases, ◌∙◌, ap, sym, member-append, ◌||◌,
}
use swym.Starvation.Queue.{ParkingLot, Scan, filter, unpark, also_unparked}
use swym.Starvation.Invariant.{is_holder}

-- What becomes of the queue: nobody is to be upgraded, and every thread is woken; or the first
-- thread that is to be upgraded gets the lock, it and those before it are woken, and those after it
-- sleep on.
pub data HandedOver (answers : ℕ → Bool) (queue : List ℕ) (r : Scan) : Type 0 where
  nobody :
      All (λ j. answers j ≡ false) queue
      → r.next_starved ≡ none
      → r.unparked ≡ queue
      → r.remaining ≡ []
      → HandedOver answers queue r
  somebody :
      (u : ℕ) (earlier : List ℕ)
      → All (λ j. answers j ≡ false) earlier
      → answers u ≡ true
      → queue ≡ earlier ++ (u ∷ r.remaining)
      → r.next_starved ≡ some u
      → r.unparked ≡ earlier ++ (u ∷ [])
      → HandedOver answers queue r

filter_found :
    (lot : ParkingLot) (answers : ℕ → Bool) (u : ℕ) (queue : List ℕ)
    → lot.unpark_filter (filter answers) (some u) queue
      ≡ record { next_starved = some u; unparked = []; remaining = queue }
unfolding filter
filter_found lot answers u [] = lot.filter_none (filter answers) (some u)
filter_found lot answers u (t ∷ queue) =
    lot.filter_stop (filter answers) (some u) (some u) t queue refl

-- The scan of the queue, with any library that does what is documented.
pub unpark_filter-HandedOver :
    (lot : ParkingLot) (answers : ℕ → Bool) (queue : List ℕ)
    → HandedOver answers queue (lot.unpark_filter (filter answers) none queue)
unfolding filter
unpark_filter-HandedOver lot answers [] =
    let e = lot.filter_none (filter answers) none in rw e (HandedOver.nobody tt refl refl refl)
unpark_filter-HandedOver lot answers (t ∷ queue) = elim (Bool-cases (answers t)) [
  | inl upgrades ↦
      let e = lot.filter_unpark (filter answers) none (some t) t queue (first t upgrades) in
      rw (e, filter_found lot answers t queue) (HandedOver.somebody t [] tt upgrades refl refl refl)
  | inr waits ↦
      let e = lot.filter_unpark (filter answers) none none t queue (passed t waits) in
      rw e (also t queue _ waits (unpark_filter-HandedOver lot answers queue))
]
  where
    first : (t : ℕ) → answers t ≡ true → filter answers none t ≡ (some t, unpark)
    first t h = rw (filter, h)

    passed : (t : ℕ) → answers t ≡ false → filter answers none t ≡ (none, unpark)
    passed t h = rw (filter, h)

    also :
        (t : ℕ) (queue : List ℕ) (r : Scan)
        → answers t ≡ false
        → HandedOver answers queue r
        → HandedOver answers (t ∷ queue) (also_unparked t r)
    also t queue r h (HandedOver.nobody all found woken rest) =
        HandedOver.nobody (h, all) found (ap (λ (l : List ℕ). t ∷ l) woken) rest
    also t queue r h (HandedOver.somebody u earlier all yes_u split found woken) =
        HandedOver.somebody u (t ∷ earlier) (h, all) yes_u (ap (λ (l : List ℕ). t ∷ l) split) found
          (ap (λ (l : List ℕ). t ∷ l) woken)

-- What the hand-over means for each thread of the queue.
pub record Handoff (answers : ℕ → Bool) (queue : List ℕ) (r : Scan) : Type 0 where
  pub split : (j : ℕ) → member j queue ≡ member j r.unparked || member j r.remaining
  pub apart : (j : ℕ) → member j r.unparked ≡ true → member j r.remaining ≡ false
  pub distinct : Distinct r.remaining
  pub answered : (j : ℕ) → member j r.unparked ≡ true → answers j ≡ is_holder r.next_starved j
  pub heir_woken : (j : ℕ) → is_holder r.next_starved j ≡ true → member j r.unparked ≡ true

All-member :
    (answers : ℕ → Bool) (js : List ℕ) (j : ℕ)
    → All (λ j. answers j ≡ false) js
    → member j js ≡ true
    → answers j ≡ false
All-member answers [] j all h = absurd (cc)
All-member answers (k ∷ js) j all h = elim (Bool-cases (k == j)) [
  | inl same ↦ let q : k ≡ j = ground arith in rw (← q) all.0
  | inr other ↦ All-member answers js j all.1 (rw other at h)
]

Distinct-append :
    (xs ys : List ℕ)
    → Distinct (xs ++ ys)
    → Distinct ys × ((j : ℕ) → member j xs ≡ true → member j ys ≡ false)
Distinct-append [] ys d = (d, λ j h. absurd (cc))
Distinct-append (x ∷ xs) ys d =
    let rest = Distinct-append xs ys d.1 in
    (
      rest.0,
      λ j h. elim (Bool-cases (x == j)) [
        | inl same ↦
            let q : x ≡ j = ground arith in rw (← q) (ground (arith, d.0, member-append x xs ys))
        | inr other ↦ rest.1 j (rw other at h)
      ],
    )

append_one : (xs : List ℕ) (u : ℕ) (ys : List ℕ) → (xs ++ (u ∷ [])) ++ ys ≡ xs ++ (u ∷ ys)
append_one [] u ys = refl
append_one (x ∷ xs) u ys = ap (λ (l : List ℕ). x ∷ l) (append_one xs u ys)

whole :
    (answers : ℕ → Bool) (queue : List ℕ) (r : Scan)
    → HandedOver answers queue r
    → queue ≡ r.unparked ++ r.remaining
whole answers queue r (HandedOver.nobody all found woken rest) =
    rw (woken, rest) (sym (append-nil queue))
whole answers queue r (HandedOver.somebody u earlier all yes_u split found woken) =
    split ∙ sym (ap (λ (l : List ℕ). l ++ r.remaining) woken ∙ append_one earlier u r.remaining)

pub HandedOver-Handoff :
    (answers : ℕ → Bool) (queue : List ℕ) (r : Scan)
    → Distinct queue
    → HandedOver answers queue r
    → Handoff answers queue r
HandedOver-Handoff answers queue r d h =
    let q = whole answers queue r h in
    let parts = Distinct-append r.unparked r.remaining (rw q at d) in
    record {
      split = λ j. ap (member j) q ∙ member-append j r.unparked r.remaining;
      apart = parts.1;
      distinct = parts.0;
      answered = λ j. by_case j h;
      heir_woken = λ j. woken_case j h;
    }
  where
    by_case :
        (j : ℕ)
        → HandedOver answers queue r
        → member j r.unparked ≡ true
        → answers j ≡ is_holder r.next_starved j
    by_case j (HandedOver.nobody all found woken rest) m =
        All-member answers queue j all (rw woken at m)
        ∙ sym (ap (λ (o : Option ℕ). is_holder o j) found)
    by_case j (HandedOver.somebody u earlier all yes_u split found woken) m =
        rw found (elim (Bool-cases (u == j)) [
          | inl same ↦ let q : u ≡ j = ground arith in rw same (rw q at yes_u)
          | inr other ↦
              let m' : member j (earlier ++ (u ∷ [])) ≡ true = rw woken at m in
              rw other (
                All-member answers earlier j all (ground (arith, member-append j earlier (u ∷ []))))
        ])

    woken_case :
        (j : ℕ)
        → HandedOver answers queue r
        → is_holder r.next_starved j ≡ true
        → member j r.unparked ≡ true
    woken_case j (HandedOver.nobody all found woken rest) m = absurd (ground arith)
    woken_case j (HandedOver.somebody u earlier all yes_u split found woken) m =
        let same : (u == j) ≡ true = rw found at m in
        rw woken (ground (arith, member-append j earlier (u ∷ [])))
