-- ===== src/Gc/Quiesce/Laws.antt =====
-- src/internal/gc/quiesce: what the result of `quiesce` says of the threads it visited.
use swym.Shared.{
  ◌≤◌, ◌<◌, ◌≡◌, false, Option, none, some, List, [], ◌∷◌, ◌++◌, ◌⊎◌, ◌↔◌, ltb, if◌then◌else◌, All,
  arith, Bool-cases, ltb→lt, inl, inr, refl, ap,
}
use swym.Epoch.Word.{QuiesceEpoch, max_value}
use swym.Epoch.Clock.{is_quiesced}
use swym.Gc.Quiesce.{
  Visit, local_quiesce, min_epochs, finish, quiesce, min_some, after_wait, with_epoch, min_or_max,
}

-- The visit of a thread bounds the result, unless the thread was waited for.
abbrev pub Bounded : QuiesceEpoch → QuiesceEpoch → Visit → Type 0
Bounded epoch result v = epoch < v.td_epoch → result ≤ v.td_epoch

-- A wait that is over: of the loads, in order, `seen` is the first that is past the epoch.
pub record Waited (epoch seen : QuiesceEpoch) (loads : List QuiesceEpoch) : Type 0 where
  pub before : List QuiesceEpoch
  pub after : List QuiesceEpoch
  pub in_order : loads ≡ before ++ seen ∷ after
  pub behind : All (λ e. e ≤ epoch) before
  pub past : epoch < seen

-- A visit that is over: the thread is past the epoch, or it was waited for until it was.
abbrev pub Ends : QuiesceEpoch → Visit → Type 0
Ends epoch v = (epoch < v.td_epoch) ⊎ ((seen : QuiesceEpoch) × Waited epoch seen v.loads)

local_quiesce-Waited :
    (epoch e : QuiesceEpoch) (loads : List QuiesceEpoch)
    → local_quiesce epoch loads ≡ some e
    → Waited epoch e loads
unfolding local_quiesce
local_quiesce-Waited epoch e [] h = absurd (cc)
local_quiesce-Waited epoch e (l ∷ loads) h = elim (Bool-cases (is_quiesced l epoch)) [
  | inl past ↦
      let same : l ≡ e = ground arith in
      record {
        before = [];
        after = loads;
        in_order = ap (λ x. x ∷ loads) same;
        behind = tt;
        past = ground arith;
      }
  | inr waits ↦
      let later = local_quiesce-Waited epoch e loads (ground arith) in
      record {
        before = l ∷ later.before;
        after = later.after;
        in_order = ap (λ x. l ∷ x) later.in_order;
        behind = (ground arith, later.behind);
        past = later.past;
      }
]

Waited-local_quiesce :
    (epoch e : QuiesceEpoch) (loads before after : List QuiesceEpoch)
    → loads ≡ before ++ e ∷ after
    → All (λ l. l ≤ epoch) before
    → epoch < e
    → local_quiesce epoch loads ≡ some e
unfolding local_quiesce
Waited-local_quiesce epoch e loads [] after q b p = rw q (ground arith)
Waited-local_quiesce epoch e loads (l ∷ before) after q b p =
    let next = Waited-local_quiesce epoch e (before ++ e ∷ after) before after refl b.1 p in
    rw q (ground (arith, next, b.0))

min_or_max-min_some :
    (td : QuiesceEpoch) (least : Option QuiesceEpoch)
    → td ≤ max_value
    → (min_or_max (min_some td least) ≤ td) × (min_or_max (min_some td least) ≤ min_or_max least)
min_or_max-min_some td none h = omega arith
min_or_max-min_some td (some e) h = omega arith

All-Bounded :
    (epoch r r' : QuiesceEpoch) (visits : List Visit)
    → r' ≤ r
    → All (Bounded epoch r) visits
    → All (Bounded epoch r') visits
All-Bounded epoch r r' [] h a = tt
All-Bounded epoch r r' (v ∷ visits) h a =
    ((λ p. omega (arith, a.0 p)), All-Bounded epoch r r' visits h a.1)

abbrev pub IsWord : Visit → Type 0
IsWord v = v.td_epoch ≤ max_value

-- What the minimum says of the visits.
record Least (epoch : QuiesceEpoch) (least : Option QuiesceEpoch) (visits : List Visit)
    : Type 0 where
  past : (e : QuiesceEpoch) → least ≡ some e → epoch < e
  bounded : All (Bounded epoch (min_or_max least)) visits
  ends : All (Ends epoch) visits

Least-with_epoch :
    (epoch : QuiesceEpoch) (least : Option QuiesceEpoch) (v : Visit) (visits : List Visit)
    → IsWord v
    → epoch < v.td_epoch
    → Least epoch least visits
    → Least epoch (min_some v.td_epoch least) (v ∷ visits)
Least-with_epoch epoch least v visits w p l =
    let (below, kept) = min_or_max-min_some v.td_epoch least w in
    record {
      past = λ e h. min_some-past least e l.past h;
      bounded = ((λ _. below), All-Bounded epoch _ _ visits kept l.bounded);
      ends = (inl p, l.ends);
    }
  where
    min_some-past :
        (o : Option QuiesceEpoch) (e : QuiesceEpoch)
        → ((e' : QuiesceEpoch) → o ≡ some e' → epoch < e')
        → min_some v.td_epoch o ≡ some e
        → epoch < e
    min_some-past none e ih h = ground arith
    min_some-past (some e') e ih h = ground (arith, ih e' refl)

Least-after_wait :
    (epoch e : QuiesceEpoch) (least : Option QuiesceEpoch) (v : Visit) (visits : List Visit)
    → ltb epoch v.td_epoch ≡ false
    → local_quiesce epoch v.loads ≡ some e
    → Least epoch least visits
    → Least epoch least (v ∷ visits)
Least-after_wait epoch e least v visits p q l = record {
  past = l.past;
  bounded = ((λ h. absurd (ground arith)), l.bounded);
  ends = (inr (e, local_quiesce-Waited epoch e v.loads q), l.ends);
}

min_epochs-Least :
    (epoch : QuiesceEpoch) (least : Option QuiesceEpoch) (visits : List Visit)
    → All IsWord visits
    → min_epochs epoch visits ≡ some least
    → Least epoch least visits
unfolding min_epochs
min_epochs-Least epoch least [] w h = record { past = λ e q. ground arith; bounded = tt; ends = tt }
min_epochs-Least epoch least (v ∷ visits) w h =
    by_rest (min_epochs epoch visits) (λ l q. min_epochs-Least epoch l visits w.1 q) h
  where
    waited :
        (seen : Option QuiesceEpoch) (l : Option QuiesceEpoch)
        → ltb epoch v.td_epoch ≡ false
        → local_quiesce epoch v.loads ≡ seen
        → Least epoch l visits
        → after_wait seen (some l) ≡ some least
        → Least epoch least (v ∷ visits)
    waited none l p q ih h' = absurd (cc)
    waited (some e) l p q ih h' =
        let same : l ≡ least = ground arith in
        rw (← same) (Least-after_wait epoch e l v visits p q ih)

    by_rest :
        (rest : Option (Option QuiesceEpoch))
        → ((l : Option QuiesceEpoch) → rest ≡ some l → Least epoch l visits)
        → (if ltb epoch v.td_epoch
            then with_epoch v.td_epoch rest
            else after_wait (local_quiesce epoch v.loads) rest)
          ≡ some least
        → Least epoch least (v ∷ visits)
    by_rest none ih h' = absurd (ground arith)
    by_rest (some l) ih h' = elim (Bool-cases (ltb epoch v.td_epoch)) [
      | inl past ↦
          let same : min_some v.td_epoch l ≡ least = ground arith in
          rw (← same) (Least-with_epoch epoch l v visits w.0 (ltb→lt _ _ past) (ih l refl))
      | inr behind ↦
          waited (local_quiesce epoch v.loads) l behind refl (ih l refl) (rw behind at h')
    ]

pub record Quiesced (epoch result : QuiesceEpoch) (visits : List Visit) : Type 0 where
  pub later : epoch < result
  pub bounded : All (Bounded epoch result) visits
  pub ends : All (Ends epoch) visits

-- The result of `quiesce` is later than the requested epoch and at most the epoch of every thread
-- that was already past it; and every other thread was waited for: of the loads of its epoch there
-- is a first one that is past the requested epoch, and all before it were not. Conditions: the
-- requested epoch is below the largest, and the epochs of the threads are words.
pub quiesce-Quiesced :
    (epoch result : QuiesceEpoch) (visits : List Visit)
    → epoch < max_value
    → All IsWord visits
    → quiesce epoch visits ≡ some result
    → Quiesced epoch result visits
unfolding quiesce
quiesce-Quiesced epoch result visits small w h =
    by_least (min_epochs epoch visits) (λ l q. min_epochs-Least epoch l visits w q) h
  where
    by_least :
        (least : Option (Option QuiesceEpoch))
        → ((l : Option QuiesceEpoch) → least ≡ some l → Least epoch l visits)
        → finish least ≡ some result
        → Quiesced epoch result visits
    by_least none ih q = absurd (cc)
    by_least (some none) ih q =
        let same : max_value ≡ result = ground arith in
        let l = ih none refl in
        rw (← same) (record { later = small; bounded = l.bounded; ends = l.ends })
    by_least (some (some e)) ih q =
        let same : e ≡ result = ground arith in
        let l = ih (some e) refl in
        rw (← same) (record { later = l.past e refl; bounded = l.bounded; ends = l.ends })

min_epochs_total :
    (epoch : QuiesceEpoch) (visits : List Visit)
    → All (Ends epoch) visits
    → (least : Option QuiesceEpoch) × (min_epochs epoch visits ≡ some least)
unfolding min_epochs
min_epochs_total epoch [] a = (none, refl)
min_epochs_total epoch (v ∷ visits) a =
    let (least, q) = min_epochs_total epoch visits a.1 in
    elim (Bool-cases (ltb epoch v.td_epoch)) [
      | inl past ↦ (min_some v.td_epoch least, rw (past, q))
      | inr behind ↦ (least, rw (behind, q) (waited least behind a.0))
    ]
  where
    waited :
        (least : Option QuiesceEpoch)
        → ltb epoch v.td_epoch ≡ false
        → Ends epoch v
        → after_wait (local_quiesce epoch v.loads) (some least) ≡ some least
    waited least behind (inl past) = absurd (ground arith)
    waited least behind (inr (e, w)) =
        let seen =
          Waited-local_quiesce epoch e v.loads w.before w.after w.in_order w.behind w.past in
        rw seen refl

-- `quiesce` returns as soon as every thread that was not past the requested epoch has been seen
-- past it, and not before. Conditions: the requested epoch is below the largest, and the epochs of
-- the threads are words.
pub quiesce_iff :
    (epoch : QuiesceEpoch) (visits : List Visit)
    → epoch < max_value
    → All IsWord visits
    → ((result : QuiesceEpoch) × (quiesce epoch visits ≡ some result)) ↔ All (Ends epoch) visits
unfolding quiesce
quiesce_iff epoch visits small w = (
  (λ (result, h). (quiesce-Quiesced epoch result visits small w h).ends),
  (λ a. let (least, q) = min_epochs_total epoch visits a in (min_or_max least, rw q)),
)

-- Its use: if every visit is over, so is `quiesce`.
pub quiesce_total :
    (epoch : QuiesceEpoch) (visits : List Visit)
    → All (Ends epoch) visits
    → (result : QuiesceEpoch) × (quiesce epoch visits ≡ some result)
unfolding quiesce
quiesce_total epoch visits a =
    let (least, q) = min_epochs_total epoch visits a in (min_or_max least, rw q)
