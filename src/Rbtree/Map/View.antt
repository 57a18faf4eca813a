-- ===== src/Rbtree/Map/View.antt =====
-- swym-rbtree/src/lib.rs: the finite map that a tree stands for, whatever its shape.
use swym.Shared.{
  ℕ, ◌<◌, ◌≡◌, ◌≢◌, ◌==◌, ◌||◌, if◌then◌else◌, true, false, List, Option, none, some, arith, refl,
  sym, ap, ◌∙◌, inl, inr, ◌⊎◌, Bool-cases,
}
use swym.Rbtree.Store.{Color, Tx}
use swym.Rbtree.Shape.{Tree, leaf, node, has, Every, IsOrdered}
use swym.Rbtree.Shape.Frame.{Every-imp}

abbrev or_else : Option (List ℕ) → Option (List ℕ) → Option (List ℕ)
or_else none y = y
or_else (some v) y = some v

-- The value of a key, among the nodes of a tree
abbrev pub lookup : Tx → (ℕ → List ℕ) → Tree → ℕ → Option (List ℕ)
lookup tx value leaf k = none
lookup tx value (node a c l r) k =
    if tx.key a == k then some (value a) else or_else (lookup tx value l k) (lookup tx value r k)

Every-has : (P : ℕ → Type 0) (t : Tree) (a : ℕ) → Every P t → has a t ≡ true → P a
Every-has P leaf a e h = absurd (ground arith)
Every-has P (node b c l r) a e h = elim (Bool-cases (b == a)) [
  | inl same ↦ (let eq : b ≡ a = ground (arith, same) in rw eq at e.0)
  | inr other ↦ (elim (Bool-cases (has a l)) [
    | inl there ↦ Every-has P l a e.1 there
    | inr away ↦ Every-has P r a e.2 (ground (arith, other, away, h))
  ])
]

pub lookup-none :
    (tx : Tx) (value : ℕ → List ℕ) (t : Tree) (k : ℕ)
    → Every (λ b. tx.key b ≢ k) t
    → lookup tx value t k ≡ none
lookup-none tx value leaf k e = refl
lookup-none tx value (node a c l r) k e =
    let away : (tx.key a == k) ≡ false = ground (arith, e.0) in
    rw (away, lookup-none tx value l k e.1) (lookup-none tx value r k e.2)

pub lookup-has :
    (tx : Tx) (value : ℕ → List ℕ) (t : Tree) (a : ℕ)
    → IsOrdered tx t
    → has a t ≡ true
    → lookup tx value t (tx.key a) ≡ some (value a)
lookup-has tx value leaf a o h = absurd (ground arith)
lookup-has tx value (node b c l r) a o h = elim (Bool-cases (b == a)) [
  | inl same ↦
      (let eq : b ≡ a = ground (arith, same) in
        let here : (tx.key b == tx.key a) ≡ true = ground (arith, ap tx.key eq) in
        rw here (ap (λ x. some (value x)) eq))
  | inr other ↦ (elim (Bool-cases (has a l)) [
    | inl there ↦
        (let lower = Every-has (λ x. tx.key x < tx.key b) l a o.0 there in
          let away : (tx.key b == tx.key a) ≡ false = ground (arith, lower) in
          rw (away, lookup-has tx value l a o.2 there) refl)
    | inr away ↦
        (let there : has a r ≡ true = ground (arith, other, away, h) in
          let higher = Every-has (λ x. tx.key b < tx.key x) r a o.1 there in
          let differ : (tx.key b == tx.key a) ≡ false = ground (arith, higher) in
          let none_left : Every (λ x. tx.key x ≢ tx.key a) l =
            Every-imp _ _ l (λ x lower. ground (arith, lower, higher)) o.0 in
          rw (differ, lookup-none tx value l (tx.key a) none_left)
            (lookup-has tx value r a o.3 there))
  ])
]

-- A key is a node's, or it is none's.
has-cases :
    (tx : Tx) (t : Tree) (k : ℕ)
    → ((a : ℕ) × (has a t ≡ true) × (tx.key a ≡ k)) ⊎ ((b : ℕ) → has b t ≡ true → tx.key b ≢ k)
has-cases tx leaf k = inr (λ b h. absurd (ground arith))
has-cases tx (node a c l r) k = elim (Bool-cases (tx.key a == k)) [
  | inl here ↦ inl (a, ground arith, ground (arith, here))
  | inr away ↦ (elim (has-cases tx l k) [
    | inl found ↦ inl (found.0, ground (arith, found.1), found.2)
    | inr not_left ↦ (elim (has-cases tx r k) [
      | inl found ↦ inl (found.0, ground (arith, found.1), found.2)
      | inr not_right ↦ inr (not_here a c l r k away not_left not_right)
    ])
  ])
]
  where
    not_here :
        (a : ℕ) (c : Color) (l r : Tree) (k : ℕ)
        → (tx.key a == k) ≡ false
        → ((b : ℕ) → has b l ≡ true → tx.key b ≢ k)
        → ((b : ℕ) → has b r ≡ true → tx.key b ≢ k)
        → (b : ℕ) → has b (node a c l r) ≡ true
        → tx.key b ≢ k
    not_here a c l r k away p q b h = elim (Bool-cases (a == b)) [
      | inl same ↦
          (let eq : a ≡ b = ground (arith, same) in
            let d : tx.key a ≢ k = ground (arith, away) in rw eq at d)
      | inr other ↦ (elim (Bool-cases (has b l)) [
        | inl there ↦ p b there
        | inr not_there ↦ q b (ground (arith, other, not_there, h))
      ])
    ]

Every-of : (P : ℕ → Type 0) (t : Tree) → ((b : ℕ) → has b t ≡ true → P b) → Every P t
Every-of P leaf f = tt
Every-of P (node a c l r) f = (
  f a (ground arith),
  Every-of P l (λ b h. f b (ground (arith, h))),
  Every-of P r (λ b h. f b (ground (arith, h))),
)

-- A tree with the node `n` besides, whose value has been written, stands for the map with its key
-- overwritten.
pub lookup-overwritten :
    (tx : Tx) (n : ℕ) (value : List ℕ) (old : ℕ → List ℕ) (t u : Tree)
    → IsOrdered tx t
    → IsOrdered tx u
    → ((b : ℕ) → has b u ≡ ((n == b) || has b t))
    → (k : ℕ)
    → lookup tx (λ b. if n == b then value else old b) u k
      ≡ (if tx.key n == k then some value else lookup tx old t k)
lookup-overwritten tx n value old t u o p m k = elim (Bool-cases (tx.key n == k)) [
  | inl here ↦
      (let eq : tx.key n ≡ k = ground (arith, here) in
        let new : (if n == n then value else old n) ≡ value = ground arith in
        rw (here, ← eq) (lookup-has tx written_value u n p (m n ∙ ground arith) ∙ ap some new))
  | inr away ↦ rw away (elim (has-cases tx t k) [
    | inl found ↦ kept away found.0 found.1 found.2
    | inr absent ↦
        lookup-none tx written_value u k (Every-of _ u (still_absent away absent))
        ∙ sym (lookup-none tx old t k (Every-of _ t absent))
  ])
]
  where
    written_value : ℕ → List ℕ
    written_value b = if n == b then value else old b

    kept :
        (tx.key n == k) ≡ false
        → (a : ℕ) → has a t ≡ true
        → tx.key a ≡ k
        → lookup tx written_value u k ≡ lookup tx old t k
    kept away a there eq =
        let other : (n == a) ≡ false = elim (Bool-cases (n == a)) [
          | inl same ↦
              (let e : n ≡ a = ground (arith, same) in
                absurd (ground (arith, away, ap tx.key e, eq)))
          | inr differs ↦ differs
        ] in
        rw (← eq) (
          lookup-has tx written_value u a p (m a ∙ ground (arith, there))
          ∙ (rw other refl ∙ sym (lookup-has tx old t a o there)))

    still_absent :
        (tx.key n == k) ≡ false
        → ((b : ℕ) → has b t ≡ true → tx.key b ≢ k)
        → (b : ℕ) → has b u ≡ true
        → tx.key b ≢ k
    still_absent away absent b h = elim (Bool-cases (n == b)) [
      | inl same ↦
          (let e : n ≡ b = ground (arith, same) in
            let d : tx.key n ≢ k = ground (arith, away) in rw e at d)
      | inr differs ↦ absent b (ground (arith, sym (m b) ∙ h, differs))
    ]
