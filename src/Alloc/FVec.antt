-- ===== src/Alloc/FVec.antt =====
-- src/internal/alloc/fvec.rs: a vector whose unchecked operations do not grow it. Where one of them
-- is undefined behaviour, the result is `none`. A vector that grows takes the capacity `grow`.
use swym.Shared.{
  ℕ, zero, suc, ◌+◌, ◌-◌, Bool, Option, none, some, List, [], ◌∷◌, ◌++◌, length, get_elem?, take,
  ltb, ◌==◌, if◌then◌else◌,
}

pub record FVec {ℓ} (A : Type ℓ) : Type ℓ where
  pub items : List A
  pub capacity : ℕ

abbrev pub start_size : ℕ
start_size = 0

module _ {ℓ} {A : Type ℓ} where
  abbrev pub with_capacity : ℕ → FVec A
  with_capacity capacity = record { items = []; capacity = capacity }

  abbrev pub next_push_allocates : FVec A → Bool
  next_push_allocates v = v.capacity == length v.items

  abbrev pub next_n_pushes_allocates : ℕ → FVec A → Bool
  next_n_pushes_allocates n v = ltb v.capacity (length v.items + n)

  unfoldable pub push_unchecked : A → FVec A → Option (FVec A)
  push_unchecked t v =
      if next_push_allocates v then none else some (record v { items = v.items ++ t ∷ [] })

  abbrev pub popped : Option A → FVec A → Option (A × FVec A)
  popped none v = none
  popped (some t) v = some (t, record v { items = take (length v.items - 1) v.items })

  unfoldable pub pop_unchecked : FVec A → Option (A × FVec A)
  pop_unchecked v = popped (get_elem? v.items (length v.items - 1)) v

  unfoldable pub back_unchecked : FVec A → Option A
  back_unchecked v = get_elem? v.items (length v.items - 1)

  -- `Vec::swap_remove`: the last item takes the place of the one that is removed.
  abbrev pub put_at : ℕ → A → List A → List A
  put_at i t [] = []
  put_at zero t (x ∷ xs) = t ∷ xs
  put_at (suc i) t (x ∷ xs) = x ∷ put_at i t xs

  abbrev pub swapped : Option A → Option A → ℕ → FVec A → Option (A × FVec A)
  swapped (some t) (some last) index v =
      some (t, record v { items = take (length v.items - 1) (put_at index last v.items) })
  swapped t last index v = none

  unfoldable pub swap_remove_unchecked : ℕ → FVec A → Option (A × FVec A)
  swap_remove_unchecked index v =
      if ltb index (length v.items)
      then swapped (get_elem? v.items index) (back_unchecked v) index v
      else none

  -- `Vec::extend` on a slice, and `extend_unchecked`
  unfoldable pub extend : List A → ℕ → FVec A → FVec A
  extend slice grow v = record {
    items = v.items ++ slice;
    capacity = if next_n_pushes_allocates (length slice) v then grow else v.capacity;
  }

  unfoldable pub extend_unchecked : List A → FVec A → Option (FVec A)
  extend_unchecked slice v =
      if next_n_pushes_allocates (length slice) v
      then none
      else some (record v { items = v.items ++ slice })

abbrev pub new {ℓ} : {A : Type ℓ} → FVec A
new = with_capacity start_size
