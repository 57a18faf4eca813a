-- ===== src/Rbtree/Store.antt =====
-- swym-rbtree/src/base.rs: the nodes of a tree, and the accesses of a transaction to them.
-- A node is named by its address. Its links are cells of a transaction; its key never changes. An
-- access either conflicts, which ends the call with an error, or reads or writes the transaction's
-- own view. What a view is, and what becomes of it, is in Rw, Tcell and Commit.
use swym.Shared.{ℕ, ◌+◌, Bool, true, false, List, ◌==◌, ◌&&◌, if◌then◌else◌}

pub data Side : Type 0 where
  left : Side
  right : Side

abbrev pub opposite : Side → Side
opposite left = right
opposite right = left

abbrev pub same_side : Side → Side → Bool
same_side left left = true
same_side left right = false
same_side right left = false
same_side right right = true

pub data Color : Type 0 where
  black : Color
  red : Color

abbrev pub is_red : Color → Bool
is_red black = false
is_red red = true

pub data RbRef : Type 0 where
  null : RbRef
  valid : ℕ → RbRef

-- `RBRef::eq`
abbrev pub same_ref : RbRef → RbRef → Bool
same_ref null null = true
same_ref null (valid b) = false
same_ref (valid a) null = false
same_ref (valid a) (valid b) = a == b

-- The cells of the nodes, as the transaction sees them, and the cell of the root. `ops` counts the
-- accesses.
pub record Heap : Type 0 where
  pub child : Side → ℕ → RbRef
  pub parent_color : ℕ → RbRef × Color
  pub value : ℕ → List ℕ
  pub root : RbRef
  pub privatized : List ℕ
  pub ops : ℕ

-- What is fixed during a call: which of the accesses conflict, and the keys of the nodes.
pub record Tx : Type 0 where
  pub conflicts : ℕ → Bool
  pub key : ℕ → ℕ

-- The end of a call. `undefined` is the unwrapping of a null reference, or a pointer whose color bit
-- was taken for an address bit; `panic` a failed assertion.
pub data End (A : Type 0) : Type 0 where
  conflict : End A
  panic : End A
  undefined : End A
  out_of_fuel : End A
  done : A → Heap → End A

abbrev pub Call : Type 0 → Type 0
Call T = Heap → End T

infixl 5 ◌>>=◌ ◌>>◌
abbrev pub continue : {S T : Type 0} → End S → (S → Call T) → End T
continue conflict next = conflict
continue panic next = panic
continue undefined next = undefined
continue out_of_fuel next = out_of_fuel
continue (done x g) next = next x g

abbrev pub pure : {T : Type 0} → T → Call T
pure x g = done x g

abbrev pub ◌>>=◌ : {S T : Type 0} → Call S → (S → Call T) → Call T
(first >>= next) g = continue (first g) next

abbrev pub ◌>>◌ : {S T : Type 0} → Call S → Call T → Call T
(first >> second) g = continue (first g) (λ x. second)

abbrev pub tick : Heap → Heap
tick h = record h { ops = h.ops + 1 }

abbrev pub access : {A : Type 0} → Bool → A → Heap → End A
access true a h = conflict
access false a h = done a h

-- A read of a cell. Its ordering does not change what it returns.
unfoldable pub get : {A : Type 0} → Tx → (Heap → A) → Call A
get tx f h = access (tx.conflicts h.ops) (f h) (tick h)

-- A write of a cell
unfoldable pub put : Tx → (Heap → Heap) → Call (Unit {0})
put tx f h = access (tx.conflicts h.ops) tt (tick (f h))

-- A write to a node that no other thread can see yet.
abbrev pub modify : (Heap → Heap) → Call (Unit {0})
modify f h = done tt (f h)

abbrev pub with_child : Side → ℕ → RbRef → Heap → Heap
with_child s a p h = record h {
  child = λ t b. if same_side s t && (a == b) then p else h.child t b;
}

abbrev pub with_parent_color : ℕ → RbRef → Color → Heap → Heap
with_parent_color a p c h = record h {
  parent_color = λ b. if a == b then (p, c) else h.parent_color b;
}

-- `RBPtr::as_ref` and `RBPtr::set`, of the left or the right link of a node
abbrev pub as_ref : Tx → Side → ℕ → Call RbRef
as_ref tx s a = get tx λ h. h.child s a

abbrev pub set_child : Tx → Side → ℕ → RbRef → Call (Unit {0})
set_child tx s a p = put tx (with_child s a p)

-- `RBPtrColor::as_ref_color` and `RBPtrColor::set`
abbrev pub as_ref_color : Tx → ℕ → Call (RbRef × Color)
as_ref_color tx a = get tx λ h. h.parent_color a

abbrev pub set_parent_color : Tx → ℕ → RbRef → Color → Call (Unit {0})
set_parent_color tx a p c = put tx (with_parent_color a p c)

-- `RBPtrColor::color`
abbrev pub color : Tx → ℕ → Call Color
color tx a = get tx λ h. (h.parent_color a).1

-- `RBPtrColor::black_parent`: the color bit is taken to be 0.
abbrev pub parent_of_black : RbRef × Color → Call RbRef
parent_of_black (p, black) = pure p
parent_of_black (p, red) = λ h. undefined

abbrev pub black_parent : Tx → ℕ → Call RbRef
black_parent tx a = as_ref_color tx a >>= parent_of_black

-- `RBRef::unwrap`
abbrev pub unwrap : RbRef → Call ℕ
unwrap null = λ h. undefined
unwrap (valid a) = pure a

-- `if let Valid(a) = p`
abbrev pub if_valid : RbRef → (ℕ → Call (Unit {0})) → Call (Unit {0})
if_valid null f = pure tt
if_valid (valid a) f = f a

-- The root's cell
abbrev pub set_root : Tx → RbRef → Call (Unit {0})
set_root tx p = put tx λ h. record h { root = p }
