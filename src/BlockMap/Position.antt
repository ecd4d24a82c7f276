-- ===== src/BlockMap/Position.antt =====
-- The positions of a file's blocks in its tree (inode.c): those of kr_block_to_path, last offset
-- first.
use k_rack.Common.{
  ℕ, ◌+◌, ◌-◌, ◌^◌, ◌≤◌, ◌<◌, ◌≡◌, refl, sym, ap, subst, ◌∙◌, ◌≢◌, Bool, true, List, [], ◌∷◌, ◌++◌,
  arith, ltb, if◌then◌else◌, length, length-append, pos,
}
use mathlib.Core.List.{append-nil}
use native.Mathlib.Decide.{dec_lt}
use k_rack.BlockPath.{Geometry, ndir_blocks, block_to_path}
use k_rack.BlockPath.Laws.{
  IsPath, block_of, capacity, move_on, block_to_path-block_of, block_to_path-none, boundary-move_on,
}
use k_rack.BlockMap.{Tree}
use k_rack.BlockMap.Follow.{key, rev_onto}
use k_rack.BlockMap.Lead.{ahead}

-- A position on the way to a block that a file can have.
abbrev pub Valid : ℕ → List ℕ → Type 0
Valid ptrs p = (os : List ℕ) × IsPath ptrs (rev_onto p os)

-- The position of a block of the file, and the block that the tree has there, or 0.
abbrev pub position : Geometry → ℕ → List ℕ
position g i = rev_onto (block_to_path g (pos i)).offsets []

abbrev pub block_at : Geometry → Tree → ℕ → ℕ
block_at g d i = key d (position g i)

-- Every pointer of the tree is to a block in use, and no two are to one block.
pub record TreeOk (ptrs : ℕ) (used : ℕ → Bool) (d : Tree) : Type 0 where
  pub in_use : (p : List ℕ) → Valid ptrs p → key d p ≢ 0 → used (key d p) ≡ true
  pub single :
      (p p' : List ℕ) → Valid ptrs p → Valid ptrs p' → key d p ≢ 0 → key d p ≡ key d p' → p ≡ p'

pub Valid-up : (ptrs o : ℕ) (p : List ℕ) → Valid ptrs (o ∷ p) → Valid ptrs p
Valid-up ptrs o p (os, h) = (o ∷ os, h)

pub rev_onto-rev_onto : (xs ys zs : List ℕ) → rev_onto (rev_onto xs ys) zs ≡ rev_onto ys (xs ++ zs)
rev_onto-rev_onto [] ys zs = refl
rev_onto-rev_onto (x ∷ xs) ys zs = rev_onto-rev_onto xs (x ∷ ys) zs

pub rev_onto-inj : (xs ys : List ℕ) → rev_onto xs [] ≡ rev_onto ys [] → xs ≡ ys
rev_onto-inj xs ys e =
    sym (append-nil xs)
    ∙ sym (rev_onto-rev_onto xs [] [])
    ∙ ap (λ l. rev_onto l []) e
    ∙ rev_onto-rev_onto ys [] []
    ∙ append-nil ys

-- How many offsets a path has, by its first.
levels : ℕ → ℕ
levels a = if ltb a ndir_blocks then 1 else a - 10

length-IsPath : (ptrs a : ℕ) (r : List ℕ) → IsPath ptrs (a ∷ r) → length (a ∷ r) ≡ levels a
unfolding levels
length-IsPath ptrs a [] h = ground (arith, h)
length-IsPath ptrs a (b ∷ []) h = ground (arith, h)
length-IsPath ptrs a (b ∷ c ∷ []) h = ground (arith, h)
length-IsPath ptrs a (b ∷ c ∷ d ∷ []) h = ground (arith, h)
length-IsPath ptrs a (b ∷ c ∷ d ∷ e ∷ r) h = absurd h

-- No path goes on behind the end of another.
pub path_end :
    (ptrs : ℕ) (xs : List ℕ) (y : ℕ) (ys : List ℕ)
    → IsPath ptrs xs
    → IsPath ptrs (xs ++ (y ∷ ys))
    → ⊥
path_end ptrs [] y ys h h' = h
path_end ptrs (a ∷ r) y ys h h' = omega (
  arith,
  length-IsPath ptrs a r h,
  length-IsPath ptrs a (r ++ (y ∷ ys)) h',
  length-append r (y ∷ ys),
)

pub ahead-rev_onto :
    (i x : ℕ) (xs ys : List ℕ) → ahead i (rev_onto (x ∷ xs) ys) ≡ rev_onto (move_on i (x ∷ xs)) ys
ahead-rev_onto i x [] ys = refl
ahead-rev_onto i x (y ∷ xs) ys = ahead-rev_onto i y xs (x ∷ ys)

module _ (g : Geometry) (power : g.ptrs ≡ 2 ^ g.ptrs_bits) (big : ndir_blocks ≤ g.ptrs) where
  -- The blocks up to the boundary stand one behind the other.
  pub position-ahead :
      (i : ℕ)
      → i < capacity g.ptrs
      → (n : ℕ) × ((block_to_path g (pos i)).boundary ≡ pos n)
        × ((k : ℕ)
            → k ≤ n
            → (i + k < capacity g.ptrs) × (position g (i + k) ≡ ahead k (position g i)))
  position-ahead i l =
      let (n, e, on) = boundary-move_on g power big i l in
      let (path, _) = block_to_path-block_of g power big i l in
      (n, e, λ k le. next k (block_to_path g (pos i)).offsets path (on k le))
    where
      cons_nil : (k x : ℕ) (xs : List ℕ) → move_on k (x ∷ xs) ≢ []
      cons_nil k x [] z = cc z
      cons_nil k x (y ∷ xs) z = cc z

      inside :
          (k : ℕ) (os : List ℕ)
          → move_on k os ≢ []
          → (block_to_path g (pos (i + k))).offsets ≡ move_on k os
          → i + k < capacity g.ptrs
      inside k os ne e = elim (dec_lt (i + k) (capacity g.ptrs)) [
        | yes l ↦ l
        | no m ↦ absurd (ne (sym e ∙ (block_to_path-none g power big (i + k)).0 (omega (arith, m))))
      ]

      next :
          (k : ℕ) (os : List ℕ)
          → IsPath g.ptrs os
          → (block_to_path g (pos (i + k))).offsets ≡ move_on k os
          → (i + k < capacity g.ptrs) × (position g (i + k) ≡ ahead k (rev_onto os []))
      next k [] h e = absurd h
      next k (x ∷ xs) h e = (
        inside k (x ∷ xs) (λ z. cons_nil k x xs z) e,
        ap (λ l. rev_onto l []) e ∙ sym (ahead-rev_onto k x xs []),
      )

  -- Two blocks have two positions, none of which is above the other.
  pub position-inj :
      (i j : ℕ) → i < capacity g.ptrs → j < capacity g.ptrs → position g i ≡ position g j → i ≡ j
  position-inj i j l m e =
      sym (block_to_path-block_of g power big i l).1
      ∙ ap (λ os. block_of g.ptrs os)
          (rev_onto-inj (block_to_path g (pos i)).offsets (block_to_path g (pos j)).offsets e)
      ∙ (block_to_path-block_of g power big j m).1

  position-IsPath : (i : ℕ) → i < capacity g.ptrs → IsPath g.ptrs (rev_onto (position g i) [])
  position-IsPath i l =
      subst (λ os. IsPath g.ptrs os)
        (sym (
          rev_onto-rev_onto (block_to_path g (pos i)).offsets [] []
          ∙ append-nil (block_to_path g (pos i)).offsets))
        (block_to_path-block_of g power big i l).0

  pub position-Valid : (i : ℕ) → i < capacity g.ptrs → Valid g.ptrs (position g i)
  position-Valid i l = ([], position-IsPath i l)

  -- The positions on the way to a block.
  pub above-Valid :
      (i : ℕ)
      → i < capacity g.ptrs
      → (os p : List ℕ) → position g i ≡ rev_onto os p
      → Valid g.ptrs p
  above-Valid i l os p e = (
    os ++ [],
    subst (λ s. IsPath g.ptrs s) (ap (λ s. rev_onto s []) e ∙ rev_onto-rev_onto os p [])
        (position-IsPath i l),
  )

  pub position_end : (i : ℕ) → i < capacity g.ptrs → (o : ℕ) → Valid g.ptrs (o ∷ position g i) → ⊥
  position_end i l o (os, h) =
      path_end g.ptrs (block_to_path g (pos i)).offsets o os
        (block_to_path-block_of g power big i l).0
        (subst (λ s. IsPath g.ptrs s)
          (rev_onto-rev_onto (block_to_path g (pos i)).offsets [] (o ∷ os)) h)
