-- ===== src/BlockMap/Get/Allocated.antt =====
-- What kr_get_blocks (inode.c) promises of new blocks for a file.
use k_rack.Common.{
  ℕ, ◌+◌, ◌-◌, ◌≤◌, ◌<◌, ◌≡◌, refl, sym, subst, ◌∙◌, ◌≢◌, ◌⊎◌, inl, Bool, true, false, not, List,
  [], ◌∷◌, ◌++◌, arith, ltb, if◌then◌else◌, ==_iff,
}
use k_rack.BlockPath.Laws.{capacity}
use k_rack.BlockMap.Follow.{key}
use k_rack.BlockMap.Alloc.Runs.{mem-append}
use k_rack.BlockMap.Write.Laws.{mem, Distinct, in_run}
use k_rack.BlockMap.Position.{Valid, block_at, TreeOk}
use k_rack.BlockMap.Get.{File, Setting, Answer, mapped, failed}

pub Distinct-split :
    (xs ys : List ℕ)
    → Distinct (xs ++ ys)
    → Distinct xs × ((x : ℕ) → mem x xs ≡ true → mem x ys ≡ false)
unfolding mem
Distinct-split [] ys h = (tt, λ x m. absurd (cc m))
Distinct-split (x ∷ xs) ys (nx, h) =
    let (ds, apart) = Distinct-split xs ys h in
    (
      (ground (arith, nx, mem-append x xs ys), ds),
      λ y m. ground (arith, m, apart y, nx, mem-append x xs ys, ==_iff y x),
    )

-- What new blocks for a file come to. An error leaves the tree as it was. Otherwise `count` blocks
-- of the file from `iblock` on, which were holes, lead to new blocks that follow one another, and
-- every other block of the file leads where it did. Blocks that were in use stay so.
abbrev pub AllocatedOk :
    {S : Type 0}
    → (S → ℕ → Bool)
    → (S → Type 0)
    → Setting
    → File S
    → ℕ
    → ℕ
    → ℕ
    → File S × Answer
    → Type 0
AllocatedOk used Ok w f iblock maxblocks boundary r =
    TreeOk w.geometry.ptrs (used r.0.space) r.0.tree
    × ((x : ℕ) → used f.space x ≡ true → used r.0.space x ≡ true)
    × (((err : ℕ) × (r.1 ≡ failed err)
          × ((p : List ℕ) → Valid w.geometry.ptrs p → key r.0.tree p ≡ key f.tree p))
        ⊎ ((count : ℕ) × (bno : ℕ) × (r.1 ≡ mapped count bno (not w.dax) (ltb boundary count))
            × (0 < count)
            × (count ≤ maxblocks)
            × (count ≤ boundary + 1)
            × Ok r.0.space
            × ((k : ℕ)
                → k < capacity w.geometry.ptrs
                → block_at w.geometry r.0.tree k ≡ (
                    if in_run iblock count k
                    then bno + (k - iblock)
                    else block_at w.geometry f.tree k))
            × ((k : ℕ)
                → in_run iblock count k ≡ true
                → (k < capacity w.geometry.ptrs) × (block_at w.geometry f.tree k ≡ 0))
            × ((x : ℕ) → in_run bno count x ≡ true → (used f.space x ≡ false) × (x ≢ 0))))

-- An error with a tree that shows the same blocks.
pub unseen :
    {S : Type 0}
    → (used : S → ℕ → Bool) (Ok : S → Type 0) (w : Setting) (f : File S)
      (iblock maxblocks boundary : ℕ) (ok : TreeOk w.geometry.ptrs (used f.space) f.tree)
      (f' : File S) (err : ℕ)
    → ((p : List ℕ) → Valid w.geometry.ptrs p → key f'.tree p ≡ key f.tree p)
    → ((y : ℕ) → used f.space y ≡ true → used f'.space y ≡ true)
    → AllocatedOk used Ok w f iblock maxblocks boundary (f', failed err)
unseen used Ok w f iblock maxblocks boundary ok f' err same stays = (
  record {
    in_use = λ p v nz.
        let e = same p v in
        subst (λ k. used f'.space k ≡ true) (sym e)
          (stays (key f.tree p) (ok.in_use p v (λ z. nz (e ∙ z))));
    single = λ p p' v v' nz e.
        ok.single p p' v v' (λ z. nz (same p v ∙ z)) (sym (same p v) ∙ e ∙ same p' v');
  },
  stays,
  inl (err, refl, same),
)
