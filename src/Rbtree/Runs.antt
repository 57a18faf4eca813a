-- ===== src/Rbtree/Runs.antt =====
-- swym-rbtree: what a call does when it ends, access by access. A call that ends early has met an
-- access that conflicts: it unwraps no null reference, fails no assertion and ends its loops.
use swym.Shared.{ℕ, true, ◌≡◌, inl, inr, Bool-cases}
use swym.Rbtree.Store.{
  RbRef, black, Heap, Tx, End, done, conflict, Call, continue, tick, get, put, black_parent,
}

pub data Ends (tx : Tx) {T : Type 0} (Post : T → Heap → Type 0) : End T → Type 0 where
  conflicted : (n : ℕ) → tx.conflicts n ≡ true → Ends tx Post conflict
  ended : {x : T} {g : Heap} → Post x g → Ends tx Post (done x g)

module _ {tx : Tx} where
  pub weaken :
      {T : Type 0} {Strong Weak : T → Heap → Type 0} {e : End T}
      → Ends tx Strong e
      → ((x : T) (g : Heap) → Strong x g → Weak x g)
      → Ends tx Weak e
  weaken (conflicted n c) imp = conflicted n c
  weaken (ended p) imp = ended (imp _ _ p)

  pub chain :
      {S T : Type 0} {Mid : S → Heap → Type 0} {Post : T → Heap → Type 0} {e : End S}
      {next : S → Call T}
      → Ends tx Mid e
      → ((x : S) (g : Heap) → Mid x g → Ends tx Post (next x g))
      → Ends tx Post (continue e next)
  chain (conflicted n c) rest = conflicted n c
  chain (ended p) rest = rest _ _ p

  pub read :
      {A B : Type 0} {Q : B → Heap → Type 0} (f : Heap → A) (k : A → Call B) (h : Heap)
      → Ends tx Q (k (f h) (tick h))
      → Ends tx Q (continue (get tx f h) k)
  unfolding get
  read f k h next = elim (Bool-cases (tx.conflicts h.ops)) [
    | inl c ↦ rw c (conflicted h.ops c)
    | inr c ↦ rw c next
  ]

  pub write :
      {B : Type 0} {Q : B → Heap → Type 0} (f : Heap → Heap) (k : Unit {0} → Call B) (h : Heap)
      → Ends tx Q (k tt (tick (f h)))
      → Ends tx Q (continue (put tx f h) k)
  unfolding put
  write f k h next = elim (Bool-cases (tx.conflicts h.ops)) [
    | inl c ↦ rw c (conflicted h.ops c)
    | inr c ↦ rw c next
  ]

  pub last_write :
      {Q : Unit {0} → Heap → Type 0} (f : Heap → Heap) (h : Heap)
      → Q tt (tick (f h))
      → Ends tx Q (put tx f h)
  unfolding put
  last_write f h q = elim (Bool-cases (tx.conflicts h.ops)) [
    | inl c ↦ rw c (conflicted h.ops c)
    | inr c ↦ rw c (ended q)
  ]

  -- A node that is black has its parent read.
  pub read_black :
      {B : Type 0} {Q : B → Heap → Type 0} (k : RbRef → Call B) (h : Heap) {a : ℕ} {p : RbRef}
      → h.parent_color a ≡ (p, black)
      → Ends tx Q (k p (tick h))
      → Ends tx Q (continue (black_parent tx a h) k)
  unfolding get
  read_black k h {a} e next = elim (Bool-cases (tx.conflicts h.ops)) [
    | inl c ↦ rw c (conflicted h.ops c)
    | inr c ↦ rw (c, e) next
  ]
