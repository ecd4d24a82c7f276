-- ===== src/BlockMap/Get/Found.antt =====
-- kr_get_blocks (inode.c): blocks that are there.
use k_rack.Common.{
  ℕ, zero, suc, ◌+◌, ◌-◌, ◌≤◌, ◌<◌, min, ◌≡◌, refl, sym, ap, ◌∙◌, ◌≢◌, Bool, false, some, List, [],
  ◌∷◌, arith, ltb, pos_part,
}
use k_rack.BlockMap.{Tree, Indirect}
use k_rack.BlockMap.Follow.{key, rev_onto, OnPath}
use k_rack.BlockMap.Alloc.{AllocOps}
use k_rack.BlockMap.Alloc.Laws.{AllocLaws}
use k_rack.BlockMap.Lead.{ahead}
use k_rack.BlockMap.Position.{position, block_at, position-ahead}
use k_rack.BlockMap.Get.{File, Setting, mapped, map_more}
use k_rack.BlockMap.Get.Lookup.{OnPath-key, map_more-read}
use k_rack.BlockMap.Get.Extend.{Asked}
use k_rack.BlockMap.Get.Answers.{moment, FoundOk}

module _ {S : Type 0} (ops : AllocOps S) (used : S → ℕ → Bool) (Ok Sound Fresh : S → Type 0)
    (bound : ℕ) (laws : AllocLaws S ops used Ok Sound Fresh bound) (w : Setting) (f : File S)
    (iblock maxblocks boundary : ℕ) (o : ℕ) (os : List ℕ)
    (a : Asked used Ok Fresh w f bound iblock maxblocks boundary o os) where
  pub at_end :
      (d : Tree) (x : ℕ) (q : List ℕ)
      → rev_onto (o ∷ os) [] ≡ x ∷ q
      → block_at w.geometry d iblock ≡ key d (x ∷ q)
  at_end d x q e = ap (λ p. key d p) (ap (λ l. rev_onto l []) a.route ∙ e)

  ahead_at :
      (j : ℕ)
      → j ≤ boundary
      → position w.geometry (iblock + j) ≡ ahead j (position w.geometry iblock)
  ahead_at j l =
      let (n, e, on) = position-ahead w.geometry a.power a.big iblock a.in_file in
      let same : n ≡ boundary = ap pos_part (sym e ∙ a.to_boundary) in
      (on j (omega (arith, same, l))).1

  pub looked_up :
      (above : List Indirect) (p : Indirect) (x : ℕ) (q : List ℕ) (count : ℕ)
      → OnPath w.seen (p ∷ above) (x ∷ q)
      → rev_onto (o ∷ os) [] ≡ x ∷ q
      → p.key ≢ 0
      → map_more w.meanwhile above p 1 (min (maxblocks - 1) boundary) ≡ some count
      → FoundOk w f iblock maxblocks boundary
          (moment w)
          (f, mapped count p.key false (ltb boundary count))
  looked_up above p x q count on at nz e =
      let (least, most, rest) =
        map_more-read w.seen w.meanwhile above p x q 1 (min (maxblocks - 1) boundary) count on e in
      (
        count,
        p.key,
        refl,
        omega (arith, least),
        omega (arith, most, a.some_blocks),
        nz,
        each (omega (arith, most)) rest,
      )
    where
      each :
          count ≤ boundary + 1
          → ((j : ℕ) → 1 ≤ j → j < count → key (w.meanwhile j) (ahead j (x ∷ q)) ≡ p.key + j)
          → (j : ℕ) → j < count
          → block_at w.geometry (moment w j) (iblock + j) ≡ p.key + j
      each most rest zero l =
          ap (λ n. block_at w.geometry w.seen n) {x = iblock + 0} {y = iblock} (omega arith)
          ∙ at_end w.seen x q at
          ∙ sym (OnPath-key w.seen p above x q on)
          ∙ omega arith
      each most rest (suc j) l =
          ap (λ s. key (w.meanwhile (suc j)) s)
            (ahead_at (suc j) (omega (arith, most, l))
              ∙ ap (λ s. ahead (suc j) s) (ap (λ t. rev_onto t []) a.route ∙ at))
          ∙ rest (suc j) (omega arith) l
