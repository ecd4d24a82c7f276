-- ===== src/Balloc/Reserve/Place.antt =====
-- A walk down the tree of windows ends beside the place of a block, and a new window is linked
-- there.
use k_rack.Common.{
  ℕ, ◌+◌, ◌≤◌, ◌<◌, ◌≡◌, refl, sym, ap, subst, ◌∙◌, ◌⊎◌, inl, inr, Option, some, List, [], ◌∷◌,
  ◌++◌, arith, ltb, ltb→lt, lt→ltb, Bool-cases,
}
use mathlib.Core.List.{append_assoc}
use k_rack.Balloc.Reserve.{ReserveNode, Tree, leaf, node, inorder, walk, link}
use k_rack.Balloc.Reserve.Order.{
  Ordered, Below, Above, Ordered-Above, Ordered-split, Below-append, Above-append, Below-weaken,
}

-- The list falls into the windows before the block and those behind it.
abbrev pub Split : (ℕ → ReserveNode) → ℕ → List ℕ → List ℕ → List ℕ → Type 0
Split at b whole xs ys = (whole ≡ xs ++ ys) × Below at b xs × Above at b ys

-- How the window at which a walk ends stands to the block: it holds the block, or it is the last
-- one before it, or the first one behind it.
abbrev pub Beside : (ℕ → ReserveNode) → ℕ → List ℕ → ℕ → Type 0
Beside at b whole r =
    (xs : List ℕ) × (ys : List ℕ) × (whole ≡ xs ++ (r ∷ ys))
    × ((((at r).rsv_start ≤ b) × (b ≤ (at r).rsv_end))
        ⊎ ((((at r).rsv_end < b) × Above at b ys) ⊎ ((b < (at r).rsv_start) × Below at b xs)))

-- The last window above a leaf is the one before it or the one behind it.
abbrev pub Last : ℕ → List ℕ → List ℕ → Type 0
Last last pre post =
    ((pre' : List ℕ) × (pre ≡ pre' ++ (last ∷ []))) ⊎ ((post' : List ℕ) × (post ≡ last ∷ post'))

pub Below-end :
    (at : ℕ → ReserveNode) (b x : ℕ) (xs : List ℕ)
    → Below at b (xs ++ (x ∷ []))
    → (at x).rsv_end < b
Below-end at b x [] (p, _) = p
Below-end at b x (y ∷ ys) (_, p) = Below-end at b x ys p

move :
    (at : ℕ → ReserveNode) (b : ℕ) {whole whole' : List ℕ} {r r' : ℕ}
    → whole ≡ whole'
    → r ≡ r'
    → Beside at b whole r
    → Beside at b whole' r'
move at b {r} p q s = subst (Beside at b _) q (subst (λ l. Beside at b l r) p s)

pub walk-Beside :
    (at : ℕ → ReserveNode) (b low : ℕ) (t : Tree) (last : ℕ) (pre post : List ℕ)
    → Ordered at low (inorder t)
    → Below at b pre
    → Above at b post
    → (t ≡ leaf → Last last pre post)
    → Beside at b (pre ++ (inorder t ++ post)) (walk at b t last)
unfolding walk
walk-Beside at b low leaf last pre post o p q h = elim (h refl) [
  | inl (pre', e) ↦ (
    pre',
    post,
    ap (λ l. l ++ post) e ∙ append_assoc pre' (last ∷ []) post,
    inr (inl (Below-end at b last pre' (subst (Below at b) e p), q)),
  )
  | inr (post', e) ↦ (pre, post', ap (λ l. pre ++ l) e, inr (inr ((subst (Above at b) e q).0, p)))
]
walk-Beside at b low (node l x r) last pre post o p q h =
    let (ol, bl, m, n, or) = Ordered-split at low (inorder l) x (inorder r) o in
    let start = (at x).rsv_start in
    let end = (at x).rsv_end in
    elim (Bool-cases (ltb b start)) [
      | inl before ↦
          let c : b < start = ltb→lt b start before in
          move at b (simp append_assoc) (ground arith) (
            walk-Beside at b low l x pre (x ∷ (inorder r ++ post)) ol p
              (
                c,
                Above-append at b (inorder r) post
                    (Ordered-Above at b (end + 1) (inorder r) (omega arith) or) q,
              )
              (λ _. inr (inorder r ++ post, refl)))
      | inr after ↦ elim (Bool-cases (ltb end b)) [
        | inl behind ↦
            let c : end < b = ltb→lt end b behind in
            move at b (simp append_assoc) (ground arith) (
              walk-Beside at b (end + 1) r x (pre ++ (inorder l ++ (x ∷ []))) post or
                (Below-append at b pre (inorder l ++ (x ∷ [])) p (
                  Below-append at b (inorder l) (x ∷ [])
                    (Below-weaken at start b (inorder l) (omega arith) bl) (c, tt)))
                q (λ _. inl (pre ++ inorder l, sym (append_assoc pre (inorder l) (x ∷ [])))))
        | inr within ↦
            let found : Beside at b ((pre ++ inorder l) ++ (x ∷ (inorder r ++ post))) x = (
              pre ++ inorder l,
              inorder r ++ post,
              refl,
              inl (ground (arith, lt→ltb b start), ground (arith, lt→ltb end b)),
            ) in
            move at b (simp append_assoc) (ground arith) found
      ]
    ]

-- No window of the list meets the blocks from `s` to `e`.
abbrev pub Clear : (ℕ → ReserveNode) → ℕ → ℕ → List ℕ → Type 0
Clear at s e [] = Unit {0}
Clear at s e (x ∷ xs) = (((at x).rsv_end < s) ⊎ (e < (at x).rsv_start)) × Clear at s e xs

pub Clear-split :
    (at : ℕ → ReserveNode) (s e : ℕ) (xs ys : List ℕ)
    → Clear at s e (xs ++ ys)
    → Clear at s e xs × Clear at s e ys
Clear-split at s e [] ys c = (tt, c)
Clear-split at s e (x ∷ xs) ys (c, cs) = let (p, q) = Clear-split at s e xs ys cs in ((c, p), q)

-- The tree with a new window for the blocks from `s` to `e`.
abbrev pub Linked : (ℕ → ReserveNode) → ℕ → ℕ → ℕ → Tree → Option Tree → Type 0
Linked at s e my t linked =
    (t' : Tree) × (xs : List ℕ) × (ys : List ℕ) × (linked ≡ some t')
    × (inorder t ≡ xs ++ ys)
    × (inorder t' ≡ xs ++ (my ∷ ys))
    × Below at s xs
    × Above at e ys

pub link-Linked :
    (at : ℕ → ReserveNode) (s e my low : ℕ) (t : Tree)
    → s ≤ e
    → Ordered at low (inorder t)
    → Clear at s e (inorder t)
    → Linked at s e my t (link at s my t)
unfolding link
link-Linked at s e my low leaf l o c = (node leaf my leaf, [], [], refl, refl, refl, tt, tt)
link-Linked at s e my low (node l x r) le o c =
    let (ol, bl, m, n, or) = Ordered-split at low (inorder l) x (inorder r) o in
    let (cl, (cx, cr)) = Clear-split at s e (inorder l) (x ∷ inorder r) c in
    let start = (at x).rsv_start in
    let end = (at x).rsv_end in
    elim cx [
      | inr behind ↦
          let (t', xs, ys, q, u, v, b, a) = link-Linked at s e my low l le ol cl in
          (
            node t' x r,
            xs,
            ys ++ (x ∷ inorder r),
            ground (arith, q, lt→ltb s start),
            ap (λ k. k ++ (x ∷ inorder r)) u ∙ append_assoc xs ys (x ∷ inorder r),
            ap (λ k. k ++ (x ∷ inorder r)) v ∙ append_assoc xs (my ∷ ys) (x ∷ inorder r),
            b,
            Above-append at e ys (x ∷ inorder r) a
                (behind, Ordered-Above at e (end + 1) (inorder r) (omega arith) or),
          )
      | inl before ↦
          let (t', xs, ys, q, u, v, b, a) = link-Linked at s e my (end + 1) r le or cr in
          (
            node l x t',
            inorder l ++ (x ∷ xs),
            ys,
            ground (arith, q, lt→ltb end s, ltb→lt s start),
            ap (λ k. inorder l ++ (x ∷ k)) u ∙ sym (append_assoc (inorder l) (x ∷ xs) ys),
            ap (λ k. inorder l ++ (x ∷ k)) v ∙ sym (append_assoc (inorder l) (x ∷ xs) (my ∷ ys)),
            Below-append at s (inorder l) (x ∷ xs)
                (Below-weaken at start s (inorder l) (omega arith) bl) (before, b),
            a,
          )
    ]
