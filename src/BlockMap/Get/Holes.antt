-- ===== src/BlockMap/Get/Holes.antt =====
-- kr_blks_to_allocate (inode.c): the blocks that it counts are holes.
use k_rack.Common.{
  ℕ, zero, suc, ◌+◌, ◌-◌, ◌≤◌, ◌<◌, min, ◌≡◌, sym, ap, subst, ◌∙◌, inl, inr, List, [], ◌∷◌, arith,
  ◌==◌, ltb→lt, ==_iff, Bool-cases, length,
}
use native.Mathlib.Decide.{ℕ_discrete}
use k_rack.BlockMap.{Tree, read, Indirect, add_chain}
use k_rack.BlockMap.Follow.{holder}
use k_rack.BlockMap.Alloc.{holes_from, blks_to_allocate}
use k_rack.BlockMap.Write.Laws.{span}

holes_from-zero : (f : ℕ → ℕ) (o n i : ℕ) → i < holes_from f o n → f (o + i) ≡ 0
unfolding holes_from
holes_from-zero f o zero i l = absurd (omega arith)
holes_from-zero f o (suc n) i l = elim (Bool-cases (f o == 0)) [
  | inr z ↦ absurd (ground (arith, z, l))
  | inl z ↦ elim (ℕ_discrete i 0) [
    | yes e ↦ ap f {x = o + i} {y = o} (omega arith) ∙ ground (arith, z, ==_iff (f o) 0)
    | no ne ↦
        ap f {x = o + i} {y = o + 1 + (i - 1)} (omega arith)
        ∙ holes_from-zero f (o + 1) n (i - 1) (ground (arith, z, l, ne))
  ]
]

holes_from-le : (f : ℕ → ℕ) (o n : ℕ) → holes_from f o n ≤ n
unfolding holes_from
holes_from-le f o zero = omega arith
holes_from-le f o (suc n) = ground (arith, holes_from-le f (o + 1) n)

pub blks_bounds :
    (d : Tree) (p : Indirect) (k blks boundary : ℕ)
    → 0 < blks
    → let n = blks_to_allocate d p k blks boundary in (0 < n) × (n ≤ blks) × (n ≤ boundary + 1)
unfolding blks_to_allocate
blks_bounds d p k blks boundary l = ground (
  arith,
  l,
  ltb→lt blks (boundary + 1),
  holes_from-le (read d p.bh) (p.p + 1) (min (blks - 1) boundary),
)

blks_holes :
    (d : Tree) (p : Indirect) (blks boundary i : ℕ)
    → read d p.bh p.p ≡ 0
    → i < blks_to_allocate d p 0 blks boundary
    → read d p.bh (p.p + i) ≡ 0
unfolding blks_to_allocate
blks_holes d p blks boundary i z l = elim (ℕ_discrete i 0) [
  | yes e ↦ ap (λ j. read d p.bh j) {x = p.p + i} {y = p.p} (omega arith) ∙ z
  | no ne ↦
      ap (λ j. read d p.bh j) {x = p.p + i} {y = p.p + 1 + (i - 1)} (omega arith)
      ∙ holes_from-zero (read d p.bh) (p.p + 1) (min (blks - 1) boundary) (i - 1)
          (ground (arith, l, ne))
]

pub missing_holes :
    (d : Tree) (p : Indirect) (x : ℕ) (q : List ℕ) (k blks boundary : ℕ) (inds : List ℕ) (num i : ℕ)
    → p ≡ add_chain d (holder d q) x
    → p.key ≡ 0
    → length inds ≡ k
    → num ≤ blks_to_allocate d p k blks boundary
    → i < span inds num
    → read d (holder d q) (x + i) ≡ 0
missing_holes d p x q k blks boundary inds num i pe z len le l =
    sym (ap (λ (c : Indirect). read d c.bh (c.p + i)) pe) ∙ go inds len l
  where
    empty : read d p.bh p.p ≡ 0
    empty = ap (λ (c : Indirect). read d c.bh c.p) pe ∙ sym (ap (λ (c : Indirect). c.key) pe) ∙ z

    go : (inds : List ℕ) → length inds ≡ k → i < span inds num → read d p.bh (p.p + i) ≡ 0
    go [] len l =
        blks_holes d p blks boundary i empty
          (subst (λ n. i < blks_to_allocate d p n blks boundary) (sym len) (omega (arith, l, le)))
    go (b ∷ bs) len l = ap (λ j. read d p.bh j) {x = p.p + i} {y = p.p} (ground (arith, l)) ∙ empty
