-- ===== src/Rbtree/Rotate/Turn.antt =====
-- swym-rbtree/src/base.rs: the cells that a rotation writes.
use swym.Shared.{ℕ, ◌≡◌, ◌≢◌, arith, refl, ap}
use swym.Rbtree.Store.{
  Side, left, right, opposite, black, red, RbRef, null, valid, Heap, Tx, Call, continue, tick,
  with_child, with_parent_color, if_valid, set_parent_color,
}
use swym.Rbtree.Runs.{Ends, write}
use swym.Rbtree.Shape.Frame.{Same}

-- The heap after the first four writes of a rotation, and after the fifth.
abbrev pub rotated : Side → (self up : ℕ) → (parent inner : RbRef) → Heap → Heap
rotated s self up parent inner h = tick (
    with_parent_color up parent black (
      tick (
        with_child s up (valid self) (
          tick (
            with_child (opposite s) self inner
              (tick (with_parent_color self (valid up) red (tick h))))))))

abbrev pub adopted : RbRef → ℕ → Heap → Heap
adopted null self h = h
adopted (valid a) self h = tick (with_parent_color a (valid self) black h)

pub if_valid-adopted :
    (tx : Tx) {B : Type 0} {Q : B → Heap → Type 0} (inner : RbRef) (self : ℕ)
    (k : Unit {0} → Call B) (h : Heap)
    → Ends tx Q (k tt (adopted inner self h))
    → Ends tx Q (continue (if_valid inner (λ a. set_parent_color tx a (valid self) black) h) k)
if_valid-adopted tx null self k h r = r
if_valid-adopted tx (valid a) self k h r = write _ _ _ r

module _ (s : Side) (self up : ℕ) (parent inner : RbRef) (h : Heap) where
  pub turned-Same :
      (b : ℕ)
      → self ≢ b
      → up ≢ b
      → inner ≢ valid b
      → Same h (adopted inner self (rotated s self up parent inner h)) b
  turned-Same b n m i = by_inner inner i
    where
      by_inner :
          (p : RbRef) → p ≢ valid b → Same h (adopted p self (rotated s self up parent inner h)) b
      by_inner null i = record { children = λ t. ground arith; parent_color = ground arith }
      by_inner (valid a) i = record {
        children = λ t. ground arith;
        parent_color = by_address (λ e. i (ap valid e));
      }
        where
          by_address :
              a ≢ b
              → (with_parent_color a
                    (valid self)
                    black
                    (rotated s self up parent inner h)).parent_color
                  b
                ≡ h.parent_color b
          by_address other = ground arith

  -- The cells of the two nodes that are rotated
  pub record Cells (g : Heap) : Type 0 where
    pub self_color : g.parent_color self ≡ (valid up, red)
    pub up_color : g.parent_color up ≡ (parent, black)
    pub self_inner : g.child (opposite s) self ≡ inner
    pub self_outer : g.child s self ≡ h.child s self
    pub up_inner : g.child s up ≡ valid self
    pub up_outer : g.child (opposite s) up ≡ h.child (opposite s) up

pub turned-Cells :
    (s : Side) (self up : ℕ) (parent inner : RbRef) (h : Heap)
    → self ≢ up
    → inner ≢ valid self
    → inner ≢ valid up
    → Cells s self up parent inner h (adopted inner self (rotated s self up parent inner h))
turned-Cells left self up parent null h n i j = record {
  self_color = ground arith;
  up_color = ground arith;
  self_inner = ground arith;
  self_outer = ground arith;
  up_inner = ground arith;
  up_outer = ground arith;
}
turned-Cells right self up parent null h n i j = record {
  self_color = ground arith;
  up_color = ground arith;
  self_inner = ground arith;
  self_outer = ground arith;
  up_inner = ground arith;
  up_outer = ground arith;
}
turned-Cells left self up parent (valid a) h n i j =
    let o : a ≢ self = λ e. i (ap valid e) in
    let p : a ≢ up = λ e. j (ap valid e) in
    record {
      self_color = ground arith;
      up_color = ground arith;
      self_inner = ground arith;
      self_outer = ground arith;
      up_inner = ground arith;
      up_outer = ground arith;
    }
turned-Cells right self up parent (valid a) h n i j =
    let o : a ≢ self = λ e. i (ap valid e) in
    let p : a ≢ up = λ e. j (ap valid e) in
    record {
      self_color = ground arith;
      up_color = ground arith;
      self_inner = ground arith;
      self_outer = ground arith;
      up_inner = ground arith;
      up_outer = ground arith;
    }

pub turned-inner :
    (s : Side) (self up : ℕ) (parent : RbRef) (a : ℕ) (h : Heap)
    → self ≢ a
    → up ≢ a
    → ((t : Side)
        → (adopted (valid a) self (rotated s self up parent (valid a) h)).child t a ≡ h.child t a)
      × ((adopted (valid a) self (rotated s self up parent (valid a) h)).parent_color a
          ≡ (valid self, black))
turned-inner s self up parent a h n m = ((λ t. ground arith), ground arith)

pub turned-rest :
    (s : Side) (self up : ℕ) (parent inner : RbRef) (h : Heap)
    → ((adopted inner self (rotated s self up parent inner h)).root ≡ h.root)
      × ((adopted inner self (rotated s self up parent inner h)).value ≡ h.value)
turned-rest s self up parent null h = (refl, refl)
turned-rest s self up parent (valid a) h = (refl, refl)
