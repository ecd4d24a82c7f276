-- ===== src/Balloc/Reserve/Gap.antt =====
-- The room between windows that find_next_reservable_window finds (balloc.c).
use k_rack.Common.{
  ◌^◌, add_int, add_int_lem, ℕ, zero, suc, ◌+◌, ◌-◌, ◌≤◌, ◌<◌, ◌≡◌, sym, ap, subst, ◌∙◌, ◌⊎◌, inl,
  inr, Option, none, some, List, [], ◌∷◌, ◌++◌, arith, ltb, leb, if◌then◌else◌, ltb→lt, lt→ltb,
  leb→le, le→leb, Bool-cases, length,
}
use mathlib.Core.List.{append_assoc}
use k_rack.Balloc.Reserve.{ReserveNode, inorder, RbTree, Windows, find_gap}
use k_rack.Balloc.Reserve.Order.{Ordered, Above, Ordered-Above, Ordered-split}
use k_rack.Balloc.Reserve.Place.{Clear}
use k_rack.Balloc.Reserve.Search.{RbLaws, successor, successor-at}

-- The room for `size` blocks from `cur'` on, behind the window `prev` of the list.
abbrev pub Room : (ℕ → ReserveNode) → List ℕ → ℕ → ℕ → ℕ → ℕ → ℕ → Type 0
Room at whole size last_block cur prev cur' =
    (xs : List ℕ) × (ys : List ℕ) × (whole ≡ xs ++ (prev ∷ ys))
    × ((at prev).rsv_end < cur')
    × (cur ≤ cur')
    × (cur' ≤ last_block)
    × Above at (cur' + size - 1) ys

-- No `size` blocks that start between two bounds are clear of the windows.
abbrev pub Full : (ℕ → ReserveNode) → List ℕ → ℕ → ℕ → ℕ → Type 0
Full at whole size cur last_block =
    (c : ℕ) → cur ≤ c → c ≤ last_block → Clear at c (c + size - 1) whole → ⊥

abbrev pub Gap : (ℕ → ReserveNode) → List ℕ → List ℕ → ℕ → ℕ → ℕ → Option (ℕ × ℕ) → Type 0
Gap at whole rest size last_block cur o =
    ((o ≡ none) × Full at rest size cur last_block)
    ⊎ ((prev : ℕ) × (cur' : ℕ) × (o ≡ some (prev, cur'))
        × Room at whole size last_block cur prev cur')

-- What is found from the next window on is found from this one on.
onwards :
    (at : ℕ → ReserveNode) (whole : List ℕ) (size last_block rsv n cur : ℕ) (ys : List ℕ) (cur' : ℕ)
    (rest : Option (ℕ × ℕ)) {here : Option (ℕ × ℕ)}
    → (at rsv).rsv_end < cur'
    → cur ≤ cur'
    → ((c : ℕ) → cur ≤ c → (at rsv).rsv_end < c → cur' ≤ c)
    → (at rsv).rsv_start < cur + size
    → 0 < size
    → here ≡ rest
    → Gap at whole (n ∷ ys) size last_block cur' rest
    → Gap at whole (rsv ∷ (n ∷ ys)) size last_block cur here
onwards at whole size last_block rsv n cur ys cur' rest before later least near some_size same
      (inl (e, full)) =
    inl (
      same ∙ e,
      λ c p q (h, hs). elim h [
        | inl past ↦ full c (least c p past) q hs
        | inr above ↦ absurd (omega arith)
      ],
    )
onwards at whole size last_block rsv n cur ys cur' rest before later least near some_size same
      (inr (prev, found, e, (xs, zs, f, a, b, c, d))) =
    inr (prev, found, same ∙ e, (xs, zs, f, a, omega arith, c, d))

module _ (rb : RbTree) (laws : RbLaws rb) (w : Windows) (size last_block low : ℕ)
    (some_size : 0 < size) (small : size < 2 ^ 31) (o : Ordered w.at low (inorder w.tree)) where
  -- With a tree that keeps the order of its nodes, windows in order, a size from 1 to below 2^31,
  -- fuel for the windows behind `rsv`, and `rsv` starting before the end of the run from `cur`: the
  -- loop finds none only if no run of that size that starts from `cur` to `last_block` is clear of
  -- `rsv` and the windows behind it. What it finds is a window and a block from `cur` to
  -- `last_block` behind its end, where a run of that size ends before the next window starts.
  pub find_gap-Gap :
      (fuel rsv cur : ℕ) (xs ys : List ℕ)
      → length ys < fuel
      → inorder w.tree ≡ xs ++ (rsv ∷ ys)
      → (w.at rsv).rsv_start < cur + size
      → Gap w.at
          (inorder w.tree)
          (rsv ∷ ys)
          size
          last_block
          cur
          (find_gap rb fuel w size last_block rsv cur)
  unfolding find_gap
  find_gap-Gap zero rsv cur xs ys f e l = absurd (omega arith)
  find_gap-Gap (suc fuel) rsv cur xs [] f e l =
      let end = (w.at rsv).rsv_end in
      let cur' = if leb cur end then end + 1 else cur in
      let next : rb.next w.tree rsv ≡ none =
        laws.next_is w.tree rsv
        ∙ (ap (successor rsv) e ∙ successor-at w.at low rsv xs [] (subst (Ordered w.at low) e o)) in
      elim (Bool-cases (ltb last_block cur')) [
        | inl out ↦
            inl
              (ground arith, λ c p q (h, _). ground (arith, leb→le cur end, ltb→lt last_block cur'))
        | inr fits ↦ inr (
          rsv,
          cur',
          ground (arith, next),
          (
            xs,
            [],
            e,
            ground (arith, le→leb cur end),
            ground (arith, leb→le cur end),
            ground (arith, lt→ltb last_block cur'),
            tt,
          ),
        )
      ]
  find_gap-Gap (suc fuel) rsv cur xs (n ∷ ys) f e l =
      let end = (w.at rsv).rsv_end in
      let cur' = if leb cur end then end + 1 else cur in
      let o' = subst (Ordered w.at low) e o in
      let next : rb.next w.tree rsv ≡ some n =
        laws.next_is w.tree rsv
        ∙ (ap (successor rsv) e ∙ successor-at w.at low rsv xs (n ∷ ys) o') in
      let (_, _, _, _, (on, om, or)) = Ordered-split w.at low xs rsv (n ∷ ys) o' in
      elim (Bool-cases (ltb last_block cur')) [
        | inl out ↦
            inl
              (ground arith, λ c p q (h, _). ground (arith, leb→le cur end, ltb→lt last_block cur'))
        | inr fits ↦
            let exact = add_int_lem cur' size small in
            elim (Bool-cases (leb (add_int cur' size) (w.at n).rsv_start)) [
              | inl wide ↦ inr (
                rsv,
                cur',
                ground (arith, next),
                (
                  xs,
                  n ∷ ys,
                  e,
                  ground (arith, le→leb cur end),
                  ground (arith, leb→le cur end),
                  ground (arith, lt→ltb last_block cur'),
                  (
                    ground (arith, exact, leb→le (add_int cur' size) (w.at n).rsv_start),
                    Ordered-Above w.at (cur' + size - 1) ((w.at n).rsv_end + 1) ys
                        (ground (arith, exact, leb→le (add_int cur' size) (w.at n).rsv_start)) or,
                  ),
                ),
              )
              | inr narrow ↦
                  onwards w.at (inorder w.tree) size last_block rsv n cur ys cur'
                    (find_gap rb fuel w size last_block n cur') (ground (arith, le→leb cur end))
                    (ground (arith, leb→le cur end)) (λ c p q. ground (arith, leb→le cur end)) l
                    some_size (ground (arith, next))
                    (find_gap-Gap fuel n cur' (xs ++ (rsv ∷ [])) ys (omega arith)
                      (e ∙ sym (append_assoc xs (rsv ∷ []) (n ∷ ys)))
                      (ground (arith, exact, le→leb (add_int cur' size) (w.at n).rsv_start)))
            ]
      ]
