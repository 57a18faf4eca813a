-- ===== src/Rbtree/Insert/Climb.antt =====
-- swym-rbtree/src/base.rs: one round of the loop of `insert_fixup`, from the uncle on.
use swym.Shared.{
  ℕ, zero, suc, ◌<◌, ◌≡◌, Bool, true, false, arith, refl, ap, ◌∙◌, inl, inr, Bool-cases,
}
use swym.Rbtree.Store.{
  Side, left, right, opposite, Color, black, red, RbRef, null, valid, Heap, Tx, Call, tick,
  continue, is_red, get,
}
use swym.Rbtree.Runs.{Ends, ended, conflicted, read, write, chain}
use swym.Rbtree.Shape.{Tree, leaf, node, join, has, Rep, Spine, top, step, plug, IsRb, Beside}
use swym.Rbtree.Shape.Balance.{HasBlackRoot, IsRbPath, plug-has, IsRb-weaken}
use swym.Rbtree.Rotate.{side_below}
use swym.Rbtree.Insert.{RepairResult, at_side, is_red_ref, round_uncle}
use swym.Rbtree.Insert.Colors.{Hung, recolored}
use swym.Rbtree.Insert.Fixed.{Fixed, up-Hung}
use swym.Rbtree.Insert.Pending.{
  Pending, trio, blackened, blacken-blackened, Pending-tick, reddened-Hung, reddened-IsRb,
}
use swym.Rbtree.Insert.Round.{insert_case4-Fixed}

pub parent_color_of :
    {tx : Tx} (h : Heap) (a : ℕ) (q : RbRef) (c : Color)
    → h.parent_color a ≡ (q, c)
    → Ends tx (λ b g. (b ≡ (q, c)) × (g ≡ tick h)) (get tx (λ h. h.parent_color a) h)
unfolding get
parent_color_of {tx} h a q c e = elim (Bool-cases (tx.conflicts h.ops)) [
  | inl stop ↦ rw stop (conflicted h.ops stop)
  | inr go ↦ rw go (ended (e, refl))
]

abbrev pub steps : Spine → ℕ
steps top = 0
steps (step s a c sib up) = suc (steps up)

pub side_below-opposite :
    (tx : Tx) (s : Side) (parent gp : ℕ)
    → Beside s (tx.key parent) (tx.key gp)
    → side_below tx gp parent ≡ opposite s
side_below-opposite tx left parent gp f = ground arith
side_below-opposite tx right parent gp f = ground arith

uncle_heights :
    (n u : ℕ) (ua ub : Tree) → IsRb black n (node u red ua ub) → IsRb black n ua × IsRb black n ub
uncle_heights zero u ua ub h = (IsRb-weaken 0 ua h.0, IsRb-weaken 0 ub h.1)
uncle_heights (suc n) u ua ub h = (IsRb-weaken (suc n) ua h.0, IsRb-weaken (suc n) ub h.1)

-- A color that is read
pub color_of :
    {tx : Tx} (h : Heap) (a : ℕ) (c : Color)
    → (h.parent_color a).1 ≡ c
    → Ends tx (λ b g. (b ≡ is_red c) × (g ≡ tick h)) (is_red_ref tx (valid a) h)
color_of h a c e = read _ _ _ (ended (ap is_red e, refl))

module _ (tx : Tx) (nodes : ℕ → Bool) (k : Heap) where
  abbrev pub Members : Spine → Tree → Type 0
  Members up t = (b : ℕ) → has b (plug up t) ≡ nodes b

  -- What the next round must do
  abbrev pub Next : ℕ → (ℕ → ℕ → ℕ → Call RepairResult) → Type 0
  Next fuel next =
      (h : Heap) (up : Spine) (n this l r : ℕ) (la lb ra rb : Tree)
      → Pending tx h up n this l r la lb ra rb
      → h.value ≡ k.value
      → Members up (trio black red this l r la lb ra rb)
      → steps up < fuel
      → Ends tx (Fixed tx nodes k) (next this l r h)

  -- The tree with the grandparent's children red, for the next round
  pub grandparent-Pending :
      (s side : Side) (n parent gp u this : ℕ) (t sib ua ub : Tree) (up : Spine) (h : Heap)
      → Hung tx h (step s parent red sib (step side gp black (node u red ua ub) up)) t (valid this)
      → IsRb black n t
      → IsRbPath (step s parent red sib (step side gp black (node u red ua ub) up)) n
      → (pa pb qa qb : Tree) × Pending tx h up n gp
          (at_side (opposite side) u parent)
          (at_side (opposite side) parent u)
          pa
          pb
          qa
          qb
        × (trio black red gp
              (at_side (opposite side) u parent)
              (at_side (opposite side) parent u)
              pa
              pb
              qa
              qb
            ≡ join side gp black (join s parent red t sib) (node u red ua ub))
  grandparent-Pending left left n parent gp u this t sib ua ub up h w i path = (
    t,
    sib,
    ua,
    ub,
    record {
      hung =
          up-Hung tx h left gp black (node u red ua ub) up (join left parent red t sib)
            (valid parent)
            (up-Hung tx h left parent red sib (step left gp black (node u red ua ub) up) t
              (valid this) w);
      heights = ((i, IsRb-weaken n sib path.0), uncle_heights n u ua ub path.2.0);
      path = path.2.1;
    },
    refl,
  )
  grandparent-Pending right left n parent gp u this t sib ua ub up h w i path = (
    sib,
    t,
    ua,
    ub,
    record {
      hung =
          up-Hung tx h left gp black (node u red ua ub) up (join right parent red t sib)
            (valid parent)
            (up-Hung tx h right parent red sib (step left gp black (node u red ua ub) up) t
              (valid this) w);
      heights = ((IsRb-weaken n sib path.0, i), uncle_heights n u ua ub path.2.0);
      path = path.2.1;
    },
    refl,
  )
  grandparent-Pending left right n parent gp u this t sib ua ub up h w i path = (
    ua,
    ub,
    t,
    sib,
    record {
      hung =
          up-Hung tx h right gp black (node u red ua ub) up (join left parent red t sib)
            (valid parent)
            (up-Hung tx h left parent red sib (step right gp black (node u red ua ub) up) t
              (valid this) w);
      heights = (uncle_heights n u ua ub path.2.0, (i, IsRb-weaken n sib path.0));
      path = path.2.1;
    },
    refl,
  )
  grandparent-Pending right right n parent gp u this t sib ua ub up h w i path = (
    ua,
    ub,
    sib,
    t,
    record {
      hung =
          up-Hung tx h right gp black (node u red ua ub) up (join right parent red t sib)
            (valid parent)
            (up-Hung tx h right parent red sib (step right gp black (node u red ua ub) up) t
              (valid this) w);
      heights = (uncle_heights n u ua ub path.2.0, (IsRb-weaken n sib path.0, i));
      path = path.2.1;
    },
    refl,
  )

  module _ (n this l r : ℕ) (la lb ra rb : Tree) where
    abbrev turned_heap : ℕ → Heap → Heap
    turned_heap parent h = recolored this (valid parent) red (blackened this l r h)

    -- A red uncle: the grandparent takes its turn.
    next_round :
        (fuel : ℕ) (next : ℕ → ℕ → ℕ → Call RepairResult) (s side : Side) (parent gp u : ℕ)
        (sib ua ub : Tree) (up : Spine) (h : Heap)
        → Next fuel next
        → Pending tx h
            (step s parent red sib (step side gp black (node u red ua ub) up))
            n
            this
            l
            r
            la
            lb
            ra
            rb
        → h.value ≡ k.value
        → Members
            (step s parent red sib (step side gp black (node u red ua ub) up))
            (trio black red this l r la lb ra rb)
        → steps up < fuel
        → Ends tx
            (Fixed tx nodes k)
            (round_uncle next tx this l r parent gp (opposite side) (valid u) true h)
    next_round fuel next s side parent gp u sib ua ub up h ih w v m enough =
        let path = step s parent red sib (step side gp black (node u red ua ub) up) in
        let (pa, pb, qa, qb, pending, same_tree) =
          grandparent-Pending s side (suc n) parent gp u this (trio red black this l r la lb ra rb)
            sib ua ub up (turned_heap parent h) (reddened-Hung tx h path n this l r la lb ra rb w)
            (reddened-IsRb tx h path n this l r la lb ra rb w) w.path in
        chain (blacken-blackened tx this l r h) λ x g same. rw same (
          write _ _ _ (
            ih (turned_heap parent h) up (suc n) gp (at_side (opposite side) u parent)
              (at_side (opposite side) parent u) pa pb qa qb pending v
              (λ b. rw same_tree (
                plug-has b path (trio red black this l r la lb ra rb)
                  (trio black red this l r la lb ra rb) refl
                ∙ m b))
              enough))

    -- A black uncle, or none: the rotations.
    last_round :
        (next : ℕ → ℕ → ℕ → Call RepairResult) (s side : Side) (parent gp : ℕ) (sib uncle : Tree)
        (up : Spine) (p : RbRef) (h : Heap)
        → HasBlackRoot uncle
        → Pending tx h (step s parent red sib (step side gp black uncle up)) n this l r la lb ra rb
        → h.value ≡ k.value
        → Members
            (step s parent red sib (step side gp black uncle up))
            (trio black red this l r la lb ra rb)
        → Ends tx
            (Fixed tx nodes k)
            (round_uncle next tx this l r parent gp (opposite side) p false h)
    last_round next s side parent gp sib uncle up p h black_root w v m =
        chain
          (insert_case4-Fixed tx nodes k parent gp n this l r la lb ra rb sib uncle up black_root s
            side h w v m)
          λ o g f. ended f

    pub at_uncle :
        (fuel : ℕ) (next : ℕ → ℕ → ℕ → Call RepairResult) (s side : Side) (parent gp : ℕ)
        (sib uncle : Tree) (up : Spine) (p : RbRef) (h : Heap)
        → Next fuel next
        → h.child (opposite side) gp ≡ p
        → Rep h (valid gp) uncle p
        → Pending tx h (step s parent red sib (step side gp black uncle up)) n this l r la lb ra rb
        → h.value ≡ k.value
        → Members
            (step s parent red sib (step side gp black uncle up))
            (trio black red this l r la lb ra rb)
        → steps up < fuel
        → Ends tx (Fixed tx nodes k) (
            continue (is_red_ref tx p h) (round_uncle next tx this l r parent gp (opposite side) p))
    at_uncle fuel next s side parent gp sib leaf up p h ih e rep w v m enough =
        let nothing = rep in
        rw nothing (last_round next s side parent gp sib leaf up null h tt w v m)
    at_uncle fuel next s side parent gp sib (node u black ua ub) up p h ih e rep w v m enough =
        let here = rep.0 in
        let color = rep.1 in
        rw here (
          chain (color_of h u black (ap (λ x. x.1) color)) λ b g same.
            rw (same.0, same.1)
              (last_round next s side parent gp sib (node u black ua ub) up (valid u) (tick h) refl
                (Pending-tick tx h
                  (step s parent red sib (step side gp black (node u black ua ub) up)) n this l r la
                  lb ra rb w)
                v m))
    at_uncle fuel next s side parent gp sib (node u red ua ub) up p h ih e rep w v m enough =
        let here = rep.0 in
        let color = rep.1 in
        rw here (
          chain (color_of h u red (ap (λ x. x.1) color)) λ b g same.
            rw (same.0, same.1)
              (next_round fuel next s side parent gp u sib ua ub up (tick h) ih
                (Pending-tick tx h
                  (step s parent red sib (step side gp black (node u red ua ub) up)) n this l r la
                  lb ra rb w)
                v m enough))
