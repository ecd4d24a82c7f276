-- ===== src/BlockMap/Lead.antt =====
-- Where the chain of new blocks of kr_alloc_branch (inode.c) leads, from a position of the tree on.
use k_rack.Common.{
  ℕ, ◌+◌, ◌-◌, ◌<◌, ◌≡◌, refl, sym, ap, subst, ◌∙◌, ◌≢◌, ◌⊎◌, inl, inr, Bool, true, false, ◌||◌,
  List, [], ◌∷◌, arith, ◌==◌, if◌then◌else◌, ltb→lt, lt→ltb, leb→le, le→leb, ==_iff, Bool-cases,
  length,
}
use k_rack.BlockMap.{Tree}
use k_rack.BlockMap.Follow.{key, rev_onto}
use k_rack.BlockMap.Write.{first_of}
use k_rack.BlockMap.Write.Laws.{mem, Distinct, in_run, span, Chain}

-- The position of a later pointer of the same block.
abbrev pub ahead : ℕ → List ℕ → List ℕ
ahead i [] = []
ahead i (o ∷ q) = (o + i) ∷ q

-- One of the new blocks.
abbrev pub is_new : List ℕ → ℕ → ℕ → ℕ → Bool
is_new inds first num y = mem y inds || in_run first num y

-- The pointers at and after a position lead to the first new blocks.
abbrev pub Led : Tree → List ℕ → ℕ → ℕ → List ℕ → Type 0
Led t inds first num r = (i : ℕ) → i < span inds num → key t (ahead i r) ≡ first_of inds first + i

-- A position that leads to a new block.
abbrev pub OnNew : List ℕ → ℕ → List ℕ → List ℕ → List ℕ → Type 0
OnNew [] num os r p = (i : ℕ) × (i < num) × (p ≡ ahead i r)
OnNew (b ∷ bs) num [] r p = ⊥
OnNew (b ∷ bs) num (o ∷ os) r p = (p ≡ r) ⊎ OnNew bs num os (o ∷ r) p

pub ahead_0 : (r : List ℕ) → ahead 0 r ≡ r
ahead_0 [] = refl
ahead_0 (o ∷ r) = ap (λ n. n ∷ r) {x = o + 0} {y = o} (omega arith)

pub Led-top :
    (t : Tree) (b : ℕ) (bs : List ℕ) (first num : ℕ) (r : List ℕ)
    → Led t (b ∷ bs) first num r
    → key t r ≡ b
Led-top t b bs first num r led = ground (arith, led 0 (ground arith), ap (λ p. key t p) (ahead_0 r))

-- The pointer below a block of the chain.
pub below_top :
    (t : Tree) (num : ℕ) (b : ℕ) (bs : List ℕ) (first o : ℕ) (os : List ℕ) (y : ℕ) (r : List ℕ)
    (j : ℕ)
    → Chain t num (b ∷ bs) first (o ∷ os)
    → Led t (b ∷ bs) first num (y ∷ r)
    → b ≢ 0
    → key t (j ∷ y ∷ r) ≡ (if in_run o (span bs num) j then first_of bs first + (j - o) else 0)
unfolding key
below_top t num b bs first o os y r j (h, hs) led nz =
    let e : key t (y ∷ r) ≡ b = Led-top t b bs first num (y ∷ r) led in
    ap (λ k. if k == 0 then 0 else t.block k j) e ∙ ground (arith, nz, ==_iff b 0) ∙ h j

pub Led-down :
    (t : Tree) (num : ℕ) (b : ℕ) (bs : List ℕ) (first o : ℕ) (os : List ℕ) (y : ℕ) (r : List ℕ)
    → Chain t num (b ∷ bs) first (o ∷ os)
    → Led t (b ∷ bs) first num (y ∷ r)
    → b ≢ 0
    → Led t bs first num (o ∷ y ∷ r)
Led-down t num b bs first o os y r chain led nz i l =
    ground (arith, below_top t num b bs first o os y r (o + i) chain led nz, l)

nonzero : (b : ℕ) (bs : List ℕ) → mem 0 (b ∷ bs) ≡ false → (b ≢ 0) × (mem 0 bs ≡ false)
unfolding mem
nonzero b bs h = ground (arith, h, ==_iff 0 b)

-- The whole path leads to the data.
pub arrives :
    (t : Tree) (num : ℕ) (bs : List ℕ) (first : ℕ) (os : List ℕ) (y : ℕ) (r : List ℕ)
    → Chain t num bs first os
    → Led t bs first num (y ∷ r)
    → mem 0 bs ≡ false
    → length bs ≡ length os
    → (i : ℕ) → i < num
    → key t (ahead i (rev_onto os (y ∷ r))) ≡ first + i
arrives t num [] first [] y r chain led nz l i less = led i less
arrives t num [] first (o ∷ os) y r chain led nz l i less = absurd (omega (arith, l))
arrives t num (b ∷ bs) first [] y r chain led nz l i less = absurd chain
arrives t num (b ∷ bs) first (o ∷ os) y r chain led nz l i less =
    let (bz, z) = nonzero b bs nz in
    arrives t num bs first os o (y ∷ r) chain.1 (Led-down t num b bs first o os y r chain led bz) z
      (omega (arith, l)) i less

-- The positions that lead to new blocks do.
pub at_new :
    (t : Tree) (num : ℕ) (bs : List ℕ) (first : ℕ) (os : List ℕ) (y : ℕ) (r : List ℕ) (p : List ℕ)
    → Chain t num bs first os
    → Led t bs first num (y ∷ r)
    → mem 0 bs ≡ false
    → OnNew bs num os (y ∷ r) p
    → is_new bs first num (key t p) ≡ true
unfolding mem
at_new t num [] first os y r p chain led nz (i, l, e) = ground (
  arith,
  ap (λ s. key t s) e ∙ led i l,
  l,
  lt→ltb (first + i) (first + num),
  le→leb first (first + i),
)
at_new t num (b ∷ bs) first [] y r p chain led nz h = absurd h
at_new t num (b ∷ bs) first (o ∷ os) y r p chain led nz (inl e) =
    ground (arith, ap (λ s. key t s) e ∙ Led-top t b bs first num (y ∷ r) led, ==_iff b b)
at_new t num (b ∷ bs) first (o ∷ os) y r p chain led nz (inr h) =
    let (bz, z) = nonzero b bs nz in
    ground (
      arith,
      at_new t num bs first os o (y ∷ r) p chain.1 (Led-down t num b bs first o os y r chain led bz)
          z h,
    )

-- The pointers that are written lead to new blocks.
pub run_new :
    (num : ℕ) (bs os : List ℕ) (o : ℕ) (r : List ℕ) (j : ℕ)
    → length bs ≡ length os
    → in_run o (span bs num) j ≡ true
    → OnNew bs num os (o ∷ r) (j ∷ r)
run_new num [] os o r j l s = (
  j - o,
  ground (arith, s, ltb→lt j (o + num), leb→le o j),
  ap (λ n. n ∷ r) {x = j} {y = o + (j - o)} (ground (arith, s, leb→le o j)),
)
run_new num (c ∷ cs) [] o r j l s = absurd (omega (arith, l))
run_new num (c ∷ cs) (k ∷ os) o r j l s =
    inl (ap (λ n. n ∷ r) {x = j} {y = o} (ground (arith, s, ltb→lt j (o + 1), leb→le o j)))

-- Such a position is at the end of the way, or on it.
pub new_place :
    (num : ℕ) (bs os : List ℕ) (r p : List ℕ)
    → length bs ≡ length os
    → OnNew bs num os r p
    → ((i : ℕ) × (i < num) × (p ≡ ahead i (rev_onto os r)))
      ⊎ ((o : ℕ) × (os' : List ℕ) × (rev_onto os r ≡ rev_onto os' (o ∷ p)))
new_place num [] [] r p l h = inl h
new_place num [] (o ∷ os) r p l h = absurd (omega (arith, l))
new_place num (b ∷ bs) [] r p l h = absurd h
new_place num (b ∷ bs) (o ∷ os) r p l (inl e) = inr (o, os, ap (λ s. rev_onto os (o ∷ s)) (sym e))
new_place num (b ∷ bs) (o ∷ os) r p l (inr h) = new_place num bs os (o ∷ r) p (omega (arith, l)) h

pub end_new :
    (num : ℕ) (bs os : List ℕ) (r : List ℕ) (i : ℕ)
    → length bs ≡ length os
    → i < num
    → OnNew bs num os r (ahead i (rev_onto os r))
end_new num [] [] r i l h = (i, h, refl)
end_new num [] (o ∷ os) r i l h = absurd (omega (arith, l))
end_new num (b ∷ bs) [] r i l h = absurd (omega (arith, l))
end_new num (b ∷ bs) (o ∷ os) r i l h = inr (end_new num bs os (o ∷ r) i (omega (arith, l)) h)

-- A position below a hole is a hole.
pub new_hole :
    (d : Tree) (num : ℕ) (bs os : List ℕ) (y : ℕ) (r : List ℕ) (p : List ℕ)
    → key d (y ∷ r) ≡ 0
    → (bs ≡ [] → (i : ℕ) → i < num → key d (ahead i (y ∷ r)) ≡ 0)
    → OnNew bs num os (y ∷ r) p
    → key d p ≡ 0
unfolding key
new_hole d num [] os y r p z run (i, l, e) = ap (λ s. key d s) e ∙ run refl i l
new_hole d num (b ∷ bs) [] y r p z run h = absurd h
new_hole d num (b ∷ bs) (o ∷ os) y r p z run (inl e) = ap (λ s. key d s) e ∙ z
new_hole d num (b ∷ bs) (o ∷ os) y r p z run (inr h) =
    new_hole d num bs os o (y ∷ r) p (ground (arith, z)) (λ _ i l. ground (arith, z)) h

-- The new blocks have one position each.
pub new_single :
    (t : Tree) (num : ℕ) (bs : List ℕ) (first : ℕ) (os : List ℕ) (y : ℕ) (r : List ℕ)
    (p p' : List ℕ)
    → Chain t num bs first os
    → Led t bs first num (y ∷ r)
    → mem 0 bs ≡ false
    → Distinct bs
    → ((b : ℕ) → mem b bs ≡ true → in_run first num b ≡ false)
    → OnNew bs num os (y ∷ r) p
    → OnNew bs num os (y ∷ r) p'
    → key t p ≡ key t p'
    → p ≡ p'
unfolding mem
new_single t num [] first os y r p p' chain led nz ds apart (i, l, e) (j, m, f) same =
    let k : i ≡ j =
      omega (arith, ap (λ s. key t s) e ∙ led i l, ap (λ s. key t s) f ∙ led j m, same) in
    e ∙ ap (λ n. ahead n (y ∷ r)) k ∙ sym f
new_single t num (b ∷ bs) first [] y r p p' chain led nz ds apart h h' same = absurd h
new_single t num (b ∷ bs) first (o ∷ os) y r p p' chain led nz (nb, ds) apart h h' same =
    let (bz, z) = nonzero b bs nz in
    let led' = Led-down t num b bs first o os y r chain led bz in
    let top = Led-top t b bs first num (y ∷ r) led in
    let old : is_new bs first num b ≡ false =
      ground (arith, nb, apart b (ground (arith, ==_iff b b))) in
    let below = λ (s : List ℕ) (n : OnNew bs num os (o ∷ y ∷ r) s).
      at_new t num bs first os o (y ∷ r) s chain.1 led' z n in
    let differ = λ (s : List ℕ) (n : OnNew bs num os (o ∷ y ∷ r) s) (k : key t s ≡ b).
      absurd {A = p ≡ p'} (cc (below s n, k, old)) in
    elim h [
      | inl e ↦ elim h' [
        | inl e' ↦ e ∙ sym e'
        | inr n' ↦ differ p' n' (sym same ∙ ap (λ s. key t s) e ∙ top)
      ]
      | inr n ↦ elim h' [
        | inl e' ↦ differ p n (same ∙ ap (λ s. key t s) e' ∙ top)
        | inr n' ↦
            new_single t num bs first os o (y ∷ r) p p' chain.1 led' z ds
              (λ c m. apart c (ground (arith, m))) n n' same
      ]
    ]

-- What stands below a new block is new, or 0.
pub under_new :
    (t : Tree) (num : ℕ) (bs : List ℕ) (first : ℕ) (os : List ℕ) (y : ℕ) (r : List ℕ) (j : ℕ)
    (p : List ℕ)
    → Chain t num bs first os
    → Led t bs first num (y ∷ r)
    → mem 0 bs ≡ false
    → length bs ≡ length os
    → ((i : ℕ) → i < num → p ≢ ahead i (rev_onto os (y ∷ r)))
    → OnNew bs num os (y ∷ r) p
    → OnNew bs num os (y ∷ r) (j ∷ p) ⊎ (key t (j ∷ p) ≡ 0)
under_new t num [] first [] y r j p chain led nz l leaf (i, less, e) = absurd (leaf i less e)
under_new t num [] first (o ∷ os) y r j p chain led nz l leaf h = absurd (omega (arith, l))
under_new t num (b ∷ bs) first [] y r j p chain led nz l leaf h = absurd h
under_new t num (b ∷ bs) first (o ∷ os) y r j p chain led nz l leaf (inl e) =
    let (bz, z) = nonzero b bs nz in
    let k = ap (λ s. key t (j ∷ s)) e ∙ below_top t num b bs first o os y r j chain led bz in
    elim (Bool-cases (in_run o (span bs num) j)) [
      | inr f ↦ inr (ground (arith, k, f))
      | inl s ↦ inl (
          inr (
            subst (λ s. OnNew bs num os (o ∷ y ∷ r) (j ∷ s)) (sym e)
              (run_new num bs os o (y ∷ r) j (omega (arith, l)) s)))
    ]
under_new t num (b ∷ bs) first (o ∷ os) y r j p chain led nz l leaf (inr h) =
    let (bz, z) = nonzero b bs nz in
    elim (under_new t num bs first os o (y ∷ r) j p chain.1
      (Led-down t num b bs first o os y r chain led bz) z (omega (arith, l)) leaf h) [
        | inl n ↦ inl (inr n)
        | inr e ↦ inr e
      ]
