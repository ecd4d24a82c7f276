-- ===== src/BlockPath/Laws.antt =====
-- The paths of kr_block_to_path (inode.c) number a file's blocks.
use k_rack.Common.{
  ℕ, zero, suc, ◌+◌, ◌-◌, ◌*◌, ◌/◌, ◌%◌, ◌^◌, ◌≤◌, ◌<◌, ◌≡◌, refl, ap, ◌∙◌, inl, inr, List, [], ◌∷◌,
  arith, ltb, if◌then◌else◌, ltb→lt, lt→ltb, Bool-cases, pos, negsuc, sub_ℕ, rem, quot,
}
use native.Mathlib.Nat.{
  div-add-mod', mod-lt, le-div_iff_mul-le, two-pow-succ, div-div-eq-div-mul, mod-eq_of_lt,
}
use native.Mathlib.Decide.{dec_lt}
use k_rack.BlockPath.{Geometry, ndir_blocks, ind_block, dind_block, tind_block, block_to_path}

-- The block that a path leads to: the blocks under the inode's pointers to its left come first.
unfoldable pub block_of : ℕ → List ℕ → ℕ
block_of p [] = 0
block_of p (a ∷ []) = a
block_of p (_ ∷ a ∷ []) = ndir_blocks + a
block_of p (_ ∷ a ∷ b ∷ []) = ndir_blocks + p + (a * p + b)
block_of p (_ ∷ a ∷ b ∷ c ∷ r) = ndir_blocks + p + p * p + ((a * p + b) * p + c)

-- How many blocks the tree can hold.
abbrev pub capacity : ℕ → ℕ
capacity p = ndir_blocks + p + p * p + p * p * p

-- The paths that exist.
abbrev pub IsPath : ℕ → List ℕ → Type 0
IsPath p [] = ⊥
IsPath p (a ∷ []) = a < ndir_blocks
IsPath p (k ∷ a ∷ []) = (k ≡ ind_block) × (a < p)
IsPath p (k ∷ a ∷ b ∷ []) = (k ≡ dind_block) × (a < p) × (b < p)
IsPath p (k ∷ a ∷ b ∷ c ∷ []) = (k ≡ tind_block) × (a < p) × (b < p) × (c < p)
IsPath p (k ∷ a ∷ b ∷ c ∷ d ∷ r) = ⊥

square : (n : ℕ) → 2 ^ (n * 2) ≡ 2 ^ n * 2 ^ n
square zero = refl
square (suc n) = omega (
  arith,
  ap (λ m. 2 ^ m) (twice_suc n),
  two-pow-succ (suc (n * 2)),
  two-pow-succ (n * 2),
  two-pow-succ n,
  square n,
  double_square (2 ^ n) (2 ^ suc n) (two-pow-succ n),
)
  where
    twice_suc : (n : ℕ) → suc n * 2 ≡ suc (suc (n * 2))
    twice_suc n = omega arith

    double_square : (x y : ℕ) → y ≡ x + x → y * y ≡ 4 * (x * x)
    double_square x y e = rw e (omega arith)

-- The same function with the powers written as products.
plain : ℕ → ℕ → List ℕ
plain p i =
    if ltb i 12
    then i ∷ []
    else if ltb (i - 12) p
    then 12 ∷ (i - 12) ∷ []
    else if ltb (i - 12 - p) (p * p)
    then 13 ∷ (i - 12 - p) / p ∷ (i - 12 - p) % p ∷ []
    else if ltb ((i - 12 - p - p * p) / (p * p)) p
    then 14
      ∷ (i - 12 - p - p * p) / (p * p)
      ∷ (i - 12 - p - p * p) / p % p
      ∷ (i - 12 - p - p * p) % p
      ∷ []
    else []

offsets-plain :
    (g : Geometry) (i : ℕ)
    → g.ptrs ≡ 2 ^ g.ptrs_bits
    → (block_to_path g (pos i)).offsets ≡ plain g.ptrs i
unfolding block_to_path plain
offsets-plain g i h = rw (square g.ptrs_bits, ← h) (ground arith)

div-lt : (x a p : ℕ) → 0 < p → x < a * p → x / p < a
div-lt x a p h k = elim (dec_lt (x / p) a) [
  | yes q ↦ q
  | no q ↦ absurd (omega (arith, (le-div_iff_mul-le {x = a} {y = x} h).0 (omega arith)))
]

square_pos : (p : ℕ) → 0 < p → 0 < p * p
square_pos p h = grind arith

three_digits : (p y : ℕ) → 0 < p → (y / (p * p) * p + y / p % p) * p + y % p ≡ y
three_digits p y h = rw (← div-div-eq-div-mul y p p, div-add-mod' (y / p) p) (div-add-mod' y p)

block_of-plain :
    (p i : ℕ) → 0 < p → i < capacity p → IsPath p (plain p i) × (block_of p (plain p i) ≡ i)
unfolding block_of plain
block_of-plain p i h k = ground (
  arith,
  div-lt (i - 12 - p) p p h,
  div-add-mod' (i - 12 - p) p,
  mod-lt (i - 12 - p) h,
  div-lt (i - 12 - p - p * p) p (p * p) (square_pos p h),
  three_digits p (i - 12 - p - p * p) h,
  mod-lt (i - 12 - p - p * p) h,
  mod-lt ((i - 12 - p - p * p) / p) h,
)

two_digits_lt : (p a b : ℕ) → a < p → b < p → a * p + b < p * p
two_digits_lt p a b h k = grind arith

plain-block_of : (p : ℕ) (os : List ℕ) → IsPath p os → plain p (block_of p os) ≡ os
unfolding block_of plain
plain-block_of p [] h = absurd h
plain-block_of p (a ∷ []) h = ground arith
plain-block_of p (k ∷ a ∷ []) (e, h) = ground arith
plain-block_of p (k ∷ a ∷ b ∷ []) (e, h, h') =
    ground (arith, two_digits_lt p a b h h', quot p a b h', rem p a b h')
plain-block_of p (k ∷ a ∷ b ∷ c ∷ []) (e, h, h', h'') = ground (
  arith,
  quot p (a * p + b) c h'',
  rem p (a * p + b) c h'',
  quot p a b h',
  rem p a b h',
  div-div-eq-div-mul ((a * p + b) * p + c) p p,
)
plain-block_of p (k ∷ a ∷ b ∷ c ∷ d ∷ r) h = absurd h

plain-none : (p i : ℕ) → 0 < p → capacity p ≤ i → plain p i ≡ []
unfolding plain
plain-none p i h k =
    ground (arith, le-div_iff_mul-le {x = p} {y = i - 12 - p - p * p} (square_pos p h))

-- The blocks of one leaf: the path with its last offset moved on.
abbrev pub move_on : ℕ → List ℕ → List ℕ
move_on k [] = []
move_on k (a ∷ []) = (a + k) ∷ []
move_on k (a ∷ b ∷ r) = a ∷ move_on k (b ∷ r)

-- How many more blocks the leaf of a path has.
abbrev pub left_in_leaf : ℕ → List ℕ → ℕ
left_in_leaf p [] = 0
left_in_leaf p (a ∷ []) = ndir_blocks - 1 - a
left_in_leaf p (_ ∷ a ∷ []) = p - 1 - a
left_in_leaf p (_ ∷ _ ∷ a ∷ []) = p - 1 - a
left_in_leaf p (_ ∷ _ ∷ _ ∷ a ∷ r) = p - 1 - a

move_on-IsPath :
    (p k : ℕ) (os : List ℕ)
    → IsPath p os
    → k ≤ left_in_leaf p os
    → IsPath p (move_on k os) × (block_of p (move_on k os) ≡ block_of p os + k)
unfolding block_of
move_on-IsPath p k [] h le = absurd h
move_on-IsPath p k (a ∷ []) h le = omega arith
move_on-IsPath p k (e ∷ a ∷ []) h le = omega arith
move_on-IsPath p k (e ∷ a ∷ b ∷ []) h le = omega arith
move_on-IsPath p k (e ∷ a ∷ b ∷ c ∷ []) h le = omega arith
move_on-IsPath p k (e ∷ a ∷ b ∷ c ∷ d ∷ r) h le = absurd h

leaf : (p x : ℕ) → 0 < p → sub_ℕ p (1 + x % p) ≡ pos (p - 1 - x % p)
leaf p x h = ground (arith, mod-lt x h)

direct : (p i : ℕ) → 12 ≤ p → i < 12 → sub_ℕ 12 (1 + i % p) ≡ pos (11 - i)
direct p i h k = ground (arith, mod-eq_of_lt {n = i} {m = p} (omega arith))

boundary-left :
    (g : Geometry) (i : ℕ)
    → g.ptrs ≡ 2 ^ g.ptrs_bits
    → ndir_blocks ≤ g.ptrs
    → i < capacity g.ptrs
    → (block_to_path g (pos i)).boundary ≡ pos (left_in_leaf g.ptrs (plain g.ptrs i))
unfolding block_to_path plain
boundary-left g i h big k =
    rw (square g.ptrs_bits, ← h)
      (elim (Bool-cases (ltb i 12)) [
        | inl a ↦ rw a (direct g.ptrs i big (ground arith))
        | inr a ↦ rw a (elim (Bool-cases (ltb (i - 12) g.ptrs)) [
          | inl b ↦ rw b (
              leaf g.ptrs (i - 12) (omega arith)
              ∙ ap (λ n. pos (g.ptrs - 1 - n)) (mod-eq_of_lt (ltb→lt _ _ b)))
          | inr b ↦ rw b (elim (Bool-cases (ltb (i - 12 - g.ptrs) (g.ptrs * g.ptrs))) [
            | inl c ↦ rw c (leaf g.ptrs (i - 12 - g.ptrs) (omega arith))
            | inr c ↦
                rw
                  (
                    c,
                    lt→ltb _ _ (
                        div-lt (i - 12 - g.ptrs - g.ptrs * g.ptrs) g.ptrs (g.ptrs * g.ptrs)
                          (square_pos g.ptrs (omega arith)) (ground arith)),
                  )
                  (leaf g.ptrs (i - 12 - g.ptrs - g.ptrs * g.ptrs) (omega arith))
          ])
        ])
      ])

module _ (g : Geometry) (power : g.ptrs ≡ 2 ^ g.ptrs_bits) (big : ndir_blocks ≤ g.ptrs) where
  -- With a power of two of at least 12 pointers in a block: for a block number within the capacity
  -- of the tree, kr_block_to_path gives a path that exists, and it is the path to that block.
  pub block_to_path-block_of :
      (i : ℕ)
      → i < capacity g.ptrs
      → IsPath g.ptrs (block_to_path g (pos i)).offsets
        × (block_of g.ptrs (block_to_path g (pos i)).offsets ≡ i)
  block_to_path-block_of i h =
      rw (offsets-plain g i power) (block_of-plain g.ptrs i (omega arith) h)

  -- With a power of two of at least 12 pointers in a block: every path that exists is the result of
  -- kr_block_to_path at the block that it leads to.
  pub block_of-block_to_path :
      (os : List ℕ) → IsPath g.ptrs os → (block_to_path g (pos (block_of g.ptrs os))).offsets ≡ os
  block_of-block_to_path os h =
      rw (offsets-plain g (block_of g.ptrs os) power) (plain-block_of g.ptrs os h)

  -- With a power of two of at least 12 pointers in a block: outside the capacity, and for negative
  -- numbers, kr_block_to_path gives depth 0.
  pub block_to_path-none :
      (i : ℕ)
      → (capacity g.ptrs ≤ i → (block_to_path g (pos i)).offsets ≡ [])
        × ((block_to_path g (negsuc i)).offsets ≡ [])
  unfolding block_to_path
  block_to_path-none i = (λ h. offsets-plain g i power ∙ plain-none g.ptrs i (omega arith) h, refl)

  -- With a power of two of at least 12 pointers in a block: `*boundary` is not negative for a block
  -- within the capacity, and each of that many blocks behind it has the path of the block with the
  -- last offset moved on, in the same leaf.
  pub boundary-move_on :
      (i : ℕ)
      → i < capacity g.ptrs
      → (n : ℕ) × ((block_to_path g (pos i)).boundary ≡ pos n)
        × ((k : ℕ)
            → k ≤ n
            → (block_to_path g (pos (i + k))).offsets ≡ move_on k (block_to_path g (pos i)).offsets)
  boundary-move_on i h = (
    left_in_leaf g.ptrs (plain g.ptrs i),
    boundary-left g i power big h,
    λ k le.
        let (path, value) = block_of-plain g.ptrs i (omega arith) h in
        let (path', value') = move_on-IsPath g.ptrs k (plain g.ptrs i) path le in
        rw (offsets-plain g (i + k) power, offsets-plain g i power)
          (ap (plain g.ptrs) (omega (arith, value, value'))
            ∙ plain-block_of g.ptrs (move_on k (plain g.ptrs i)) path'),
  )
