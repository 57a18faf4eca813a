-- ===== src/Alloc/RoundTrip.antt =====
-- src/internal/alloc/dyn_vec.rs: what is pushed is what an iteration yields.
use mathlib.Core.List.{append-nil, append_assoc}
use swym.Shared.{
  ℕ, zero, suc, ◌≡◌, ◌≤◌, some, List, false, [], ◌∷◌, ◌++◌, length, length-append, take, drop, All,
  arith, refl, ap, sym, ◌∙◌, ltb,
}
use swym.Alloc.FVec
use swym.Alloc.FVec.{FVec}
use swym.Alloc.DynVec.{Elem, as_slice, DynVec, push, from_flat, iterate, iter, drain, clear_no_drop}

-- A value has as many words as its vtable says.
abbrev pub IsSized : (ℕ → ℕ) → Elem → Type 0
IsSized size_of e = length e.elem ≡ size_of e.vtable

unfoldable pub flat : List Elem → List ℕ
flat [] = []
flat (e ∷ es) = as_slice e ++ flat es

take-append : (xs ys : List ℕ) → take (length xs) (xs ++ ys) ≡ xs
take-append [] ys = refl
take-append (x ∷ xs) ys = ap (λ (l : List ℕ). x ∷ l) (take-append xs ys)

drop-append : (xs ys : List ℕ) → drop (length xs) (xs ++ ys) ≡ ys
drop-append [] ys = refl
drop-append (x ∷ xs) ys = drop-append xs ys

-- An element is read back, with the words behind it.
pub from_flat-as_slice :
    (size_of : ℕ → ℕ) (e : Elem) (rest : List ℕ)
    → IsSized size_of e
    → from_flat size_of (as_slice e ++ rest) ≡ some (e, rest)
unfolding from_flat
from_flat-as_slice size_of e rest sized =
    let fits : ltb (length (e.elem ++ rest)) (size_of e.vtable) ≡ false =
      ground (arith, length-append e.elem rest) in
    rw (fits, ← sized, take-append e.elem rest, drop-append e.elem rest)

pub iterate-flat :
    (size_of : ℕ → ℕ) (es : List Elem) (fuel : ℕ)
    → All (IsSized size_of) es
    → length (flat es) ≤ fuel
    → iterate size_of fuel (flat es) ≡ some es
unfolding iterate flat
iterate-flat size_of [] fuel sized le = refl
iterate-flat size_of (e ∷ es) zero sized le = absurd (omega arith)
iterate-flat size_of (e ∷ es) (suc fuel) sized le = rw (
  from_flat-as_slice size_of e (flat es) sized.0,
  iterate-flat size_of es fuel sized.1 (omega (arith, length-append e.elem (flat es))),
)

-- A vector of words that holds the elements, in their order.
pub record Holds (size_of : ℕ → ℕ) (v : DynVec) (es : List Elem) : Type 0 where
  pub sized : All (IsSized size_of) es
  pub items : v.items ≡ flat es

flat-append : (es fs : List Elem) → flat (es ++ fs) ≡ flat es ++ flat fs
unfolding flat
flat-append [] fs = refl
flat-append (e ∷ es) fs =
    ap (λ (l : List ℕ). as_slice e ++ l) (flat-append es fs)
    ∙ sym (append_assoc (as_slice e) (flat es) (flat fs))

All-append_one :
    (size_of : ℕ → ℕ) (es : List Elem) (e : Elem)
    → All (IsSized size_of) es
    → IsSized size_of e
    → All (IsSized size_of) (es ++ e ∷ [])
All-append_one size_of [] e a h = (h, tt)
All-append_one size_of (f ∷ es) e a h = (a.0, All-append_one size_of es e a.1 h)

pub push-Holds :
    (size_of : ℕ → ℕ) (v : DynVec) (es : List Elem) (e : Elem) (grow : ℕ)
    → Holds size_of v es
    → IsSized size_of e
    → Holds size_of (push e grow v) (es ++ e ∷ [])
unfolding push FVec.extend flat
push-Holds size_of v es e grow h sized = record {
  sized = All-append_one size_of es e h.sized sized;
  items =
      ap (λ (l : List ℕ). l ++ as_slice e) h.items
      ∙ sym (flat-append es (e ∷ []) ∙ ap (λ (l : List ℕ). flat es ++ l) (append-nil (as_slice e)));
}

pub iter-Holds :
    (size_of : ℕ → ℕ) (v : DynVec) (es : List Elem) → Holds size_of v es → iter size_of v ≡ some es
unfolding iter
iter-Holds size_of v es h =
    rw h.items (iterate-flat size_of es (length (flat es)) h.sized (omega arith))

-- Pushes, each with the capacity that it takes if it has to grow the vector.
pub push_all : List (Elem × ℕ) → DynVec → DynVec
push_all [] v = v
push_all ((e, grow) ∷ more) v = push_all more (push e grow v)

abbrev pub pushed : List (Elem × ℕ) → List Elem
pushed [] = []
pushed ((e, grow) ∷ more) = e ∷ pushed more

push_all-Holds :
    (size_of : ℕ → ℕ) (v : DynVec) (es : List Elem) (more : List (Elem × ℕ))
    → Holds size_of v es
    → All (IsSized size_of) (pushed more)
    → Holds size_of (push_all more v) (es ++ pushed more)
unfolding push_all
push_all-Holds size_of v es [] h sized = rw (append-nil es) h
push_all-Holds size_of v es ((e, grow) ∷ more) h sized =
    rw (← append_assoc es (e ∷ []) (pushed more)) (
      push_all-Holds size_of (push e grow v) (es ++ e ∷ []) more
        (push-Holds size_of v es e grow h sized.0) sized.1)

-- Values of any sizes that are pushed to a new vector of words, each as large as its vtable says,
-- are what an iteration over the vector yields, in their order, with no read past the end; and what a
-- drain yields, which leaves no word.
pub push_all-iter :
    (size_of : ℕ → ℕ) (more : List (Elem × ℕ))
    → All (IsSized size_of) (pushed more)
    → (iter size_of (push_all more FVec.new) ≡ some (pushed more))
      × (drain size_of (push_all more FVec.new)
          ≡ some (pushed more, clear_no_drop (push_all more FVec.new)))
unfolding drain flat
push_all-iter size_of more sized =
    let all =
      iter-Holds size_of (push_all more FVec.new) (pushed more)
        (push_all-Holds size_of FVec.new [] more (record { sized = tt; items = refl }) sized) in
    (all, rw all)
