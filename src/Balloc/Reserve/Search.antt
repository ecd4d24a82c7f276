-- ===== src/Balloc/Reserve/Search.antt =====
-- The tree of windows as the list of its windows: the search for a window, and for room between
-- them.
use k_rack.Common.{
  ℕ, ◌+◌, ◌≤◌, ◌<◌, ◌≡◌, refl, sym, ap, subst, ◌∙◌, ◌≢◌, ◌⊎◌, inl, inr, false, Option, none, some,
  List, [], ◌∷◌, ◌++◌, arith, ltb, ◌==◌, if◌then◌else◌, ltb→lt, lt→ltb,
}
use mathlib.Core.List.{append_assoc, append-nil}
use k_rack.Balloc.Reserve.{
  ReserveNode, Tree, leaf, node, inorder, RbTree, Windows, walk, search_in, search_reserve_window,
}
use k_rack.Balloc.Reserve.Order.{Ordered, Below, Above, Ordered-Above, Ordered-split}
use k_rack.Balloc.Reserve.Place.{Beside, Below-end, walk-Beside}

abbrev pub head? : List ℕ → Option ℕ
head? [] = none
head? (x ∷ xs) = some x

pub successor : ℕ → List ℕ → Option ℕ
successor x [] = none
successor x (y ∷ ys) = if x == y then head? ys else successor x ys

-- The element before `x`, or `last` if `x` is the first one.
pub predecessor : Option ℕ → ℕ → List ℕ → Option ℕ
predecessor last x [] = none
predecessor last x (y ∷ ys) = if x == y then last else predecessor (some y) x ys

pub remove : ℕ → List ℕ → List ℕ
remove x [] = []
remove x (y ∷ ys) = if x == y then ys else y ∷ remove x ys

-- What the kernel's tree functions do to the sequence of the nodes.
pub record RbLaws (rb : RbTree) : Type 0 where
  pub colored : (t : Tree) (x : ℕ) → inorder (rb.insert_color t x) ≡ inorder t
  pub erased : (t : Tree) (x : ℕ) → inorder (rb.erase t x) ≡ remove x (inorder t)
  pub next_is : (t : Tree) (x : ℕ) → rb.next t x ≡ successor x (inorder t)
  pub prev_is : (t : Tree) (x : ℕ) → rb.prev t x ≡ predecessor none x (inorder t)

module _ (at : ℕ → ReserveNode) where
  -- Windows in order are different ones.
  apart :
      (low a x : ℕ) (xs ys : List ℕ)
      → (at a).rsv_start ≤ (at a).rsv_end
      → Ordered at ((at a).rsv_end + 1) (xs ++ (x ∷ ys))
      → x ≢ a
  apart low a x xs ys l o e =
      let (_, _, m, _, _) = Ordered-split at ((at a).rsv_end + 1) xs x ys o in
      omega (arith, ap (λ k. (at k).rsv_start) e)

  pub successor-at :
      (low x : ℕ) (xs ys : List ℕ)
      → Ordered at low (xs ++ (x ∷ ys))
      → successor x (xs ++ (x ∷ ys)) ≡ head? ys
  unfolding successor
  successor-at low x [] ys o = ground arith
  successor-at low x (a ∷ xs) ys (p, q, o) =
      ground (arith, apart low a x xs ys q o, successor-at ((at a).rsv_end + 1) x xs ys o)

  pub remove-at :
      (low x : ℕ) (xs ys : List ℕ)
      → Ordered at low (xs ++ (x ∷ ys))
      → remove x (xs ++ (x ∷ ys)) ≡ xs ++ ys
  unfolding remove
  remove-at low x [] ys o = ground arith
  remove-at low x (a ∷ xs) ys (p, q, o) =
      ground (arith, apart low a x xs ys q o, remove-at ((at a).rsv_end + 1) x xs ys o)

  predecessor-first : (last : Option ℕ) (x : ℕ) (ys : List ℕ) → predecessor last x (x ∷ ys) ≡ last
  unfolding predecessor
  predecessor-first last x ys = ground arith

  pub predecessor-at :
      (low x z : ℕ) (last : Option ℕ) (xs ys : List ℕ)
      → Ordered at low (xs ++ (z ∷ (x ∷ ys)))
      → predecessor last x (xs ++ (z ∷ (x ∷ ys))) ≡ some z
  unfolding predecessor
  predecessor-at low x z last [] ys (p, q, o) = ground (arith, apart low z x [] ys q o)
  predecessor-at low x z last (a ∷ xs) ys (p, q, o) = ground (
    arith,
    predecessor-at ((at a).rsv_end + 1) x z (some a) xs ys o,
    apart low a x (xs ++ (z ∷ [])) ys q
        (subst (Ordered at ((at a).rsv_end + 1)) (sym (append_assoc xs (z ∷ []) (x ∷ ys))) o),
  )

snoc_cases : (xs : List ℕ) → (xs ≡ []) ⊎ ((z : ℕ) × (ys : List ℕ) × (xs ≡ ys ++ (z ∷ [])))
snoc_cases [] = inl refl
snoc_cases (x ∷ xs) = elim (snoc_cases xs) [
  | inl e ↦ inr (x, [], ap (λ k. x ∷ k) e)
  | inr (z, ys, e) ↦ inr (z, x ∷ ys, ap (λ k. x ∷ k) e)
]

-- The last window that starts no later than a block, if there is one.
abbrev pub Preceding : (ℕ → ReserveNode) → ℕ → List ℕ → Option ℕ → Type 0
Preceding at b whole o =
    ((o ≡ none) × Above at b whole)
    ⊎ ((r : ℕ) × (xs : List ℕ) × (ys : List ℕ) × (o ≡ some r)
        × (whole ≡ xs ++ (r ∷ ys))
        × ((at r).rsv_start ≤ b)
        × Above at b ys)

not_leaf : (l : Tree) (x : ℕ) (r : Tree) → node l x r ≡ leaf → ⊥
not_leaf l x r e = cc

module _ (rb : RbTree) (laws : RbLaws rb) where
  before_place :
      (at : ℕ → ReserveNode) (t : Tree) (b low r : ℕ) (xs ys : List ℕ)
      → Ordered at low (inorder t)
      → inorder t ≡ xs ++ (r ∷ ys)
      → b < (at r).rsv_start
      → Below at b xs
      → Preceding at b (inorder t) (rb.prev t r)
  before_place at t b low r xs ys o e l below =
      let o' = subst (Ordered at low) e o in
      let (_, _, _, m, or) = Ordered-split at low xs r ys o' in
      let above = Ordered-Above at b ((at r).rsv_end + 1) ys (omega arith) or in
      elim (snoc_cases xs) [
        | inl f ↦ inl (
          laws.prev_is t r
              ∙ (ap (predecessor none r) (e ∙ ap (λ k. k ++ (r ∷ ys)) f)
                  ∙ predecessor-first at none r ys),
          subst (Above at b) (sym (e ∙ ap (λ k. k ++ (r ∷ ys)) f)) (l, above),
        )
        | inr (z, zs, f) ↦
            let g : inorder t ≡ zs ++ (z ∷ (r ∷ ys)) =
              e ∙ (ap (λ k. k ++ (r ∷ ys)) f ∙ append_assoc zs (z ∷ []) (r ∷ ys)) in
            let (_, _, _, n, _) = Ordered-split at low zs z (r ∷ ys) (subst (Ordered at low) g o) in
            inr (
              z,
              zs,
              r ∷ ys,
              laws.prev_is t r
                  ∙ (ap (predecessor none r) g
                      ∙ predecessor-at at low r z none zs ys (subst (Ordered at low) g o)),
              g,
              omega (arith, Below-end at b z zs (subst (Below at b) f below)),
              (l, above),
            )
      ]

  found :
      (at : ℕ → ReserveNode) (t : Tree) (b low r : ℕ)
      → Ordered at low (inorder t)
      → Beside at b (inorder t) r
      → Preceding at b (inorder t) (if ltb b (at r).rsv_start then rb.prev t r else some r)
  found at t b low r o (xs, ys, e, c) =
      let (_, _, _, m, or) = Ordered-split at low xs r ys (subst (Ordered at low) e o) in
      elim c [
        | inl (l, h) ↦
            here (ground (arith, ltb→lt b (at r).rsv_start)) l
              (Ordered-Above at b ((at r).rsv_end + 1) ys (omega arith) or)
        | inr (inl (l, above)) ↦
            here (ground (arith, ltb→lt b (at r).rsv_start)) (omega arith) above
        | inr (inr (l, below)) ↦
            subst (Preceding at b (inorder t)) (ground (arith, lt→ltb b (at r).rsv_start))
              (before_place at t b low r xs ys o e l below)
      ]
    where
      here :
          ltb b (at r).rsv_start ≡ false
          → (at r).rsv_start ≤ b
          → Above at b ys
          → Preceding at b (inorder t) (if ltb b (at r).rsv_start then rb.prev t r else some r)
      here past l above = inr (r, xs, ys, ground arith, e, l, above)

  in_tree :
      (at : ℕ → ReserveNode) (t : Tree) (b low : ℕ)
      → Ordered at low (inorder t)
      → Preceding at b (inorder t) (search_in rb at t b)
  unfolding search_in
  in_tree at leaf b low o = inl (refl, tt)
  in_tree at (node l x r) b low o = found at (node l x r) b low (walk at b (node l x r) x) o (
      subst (λ k. Beside at b k (walk at b (node l x r) x)) (append-nil (inorder (node l x r)))
        (walk-Beside at b low (node l x r) x [] [] o tt tt (λ e. absurd (not_leaf l x r e))))

  -- With a tree that keeps the order of its nodes, and windows in order, `search_reserve_window`
  -- gives the last window that starts no later than the block, or NULL if all start behind it.
  pub search_reserve_window-Preceding :
      (w : Windows) (b low : ℕ)
      → Ordered w.at low (inorder w.tree)
      → Preceding w.at b (inorder w.tree) (search_reserve_window rb w b)
  search_reserve_window-Preceding w b low o = in_tree w.at w.tree b low o
