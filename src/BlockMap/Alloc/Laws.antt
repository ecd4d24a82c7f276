-- ===== src/BlockMap/Alloc/Laws.antt =====
-- kr_alloc_blocks (inode.c) over what kr_new_blocks and kr_free_blocks promise.
use k_rack.Common.{
  ℕ, zero, suc, ◌+◌, ◌-◌, ◌^◌, ◌≤◌, ◌<◌, min, ◌≡◌, refl, sym, ap, subst, ◌∙◌, ◌≢◌, ◌⊎◌, inl, inr,
  Bool, true, false, ◌||◌, List, [], ◌∷◌, ◌++◌, arith, ltb, ltb→lt, lt→ltb, ==_iff, Bool-cases,
  length, length-append,
}
use mathlib.Core.List.{append_assoc}
use k_rack.BlockMap.Alloc.{
  NewRun, given, refused, AllocOps, run, NewBranch, got, lacking, free_each, alloc_loop,
  alloc_blocks,
}
use k_rack.BlockMap.Write.Laws.{mem, Distinct, in_run}
use k_rack.BlockMap.Alloc.Runs.{
  mem-append, mem-run, Distinct-run, Distinct-append, length-run, run_split,
}

-- What a run of new blocks is: free before, and in use after, like what was in use.
pub record GivenRun (before after : ℕ → Bool) (block num count : ℕ) : Type 0 where
  pub some_block : 0 < block
  pub some_num : 0 < num
  pub at_most : num ≤ count
  pub were_free : (x : ℕ) → in_run block num x ≡ true → before x ≡ false
  pub now_used : (x : ℕ) → after x ≡ (in_run block num x || before x)

-- The answers of kr_new_blocks.
abbrev pub NewRunOk : {S : Type 0} → (S → ℕ → Bool) → (S → Type 0) → S → ℕ → NewRun S → Type 0
NewRunOk {S} used Ok s count r =
    ((s' : S) × (err : ℕ) × (r ≡ refused s' err)
      × (err ≢ 0)
      × Ok s'
      × ((x : ℕ) → used s' x ≡ used s x))
    ⊎ ((s' : S) × (block : ℕ) × (num : ℕ) × (r ≡ given s' block num)
        × Ok s'
        × GivenRun (used s) (used s') block num count)

-- `Ok` is that the file system is in order, and `Sound` that its counts are, also when blocks are
-- freed; `Fresh` is that the file has no window.
pub record AllocLaws (S : Type 0) (ops : AllocOps S) (used : S → ℕ → Bool)
    (Ok Sound Fresh : S → Type 0) (bound : ℕ) : Type 0 where
  pub narrow : bound ≤ 2 ^ 32
  pub news :
      (s : S) (has : Bool) (goal count : ℕ)
      → Ok s
      → 0 < count
      → count < bound
      → NewRunOk used Ok s count (ops.new s has goal count)
  pub sound : (s : S) → Ok s → Sound s
  pub frees_Sound : (s : S) (block num : ℕ) → Sound s → Sound (ops.free s block num)
  pub frees :
      (s : S) (block num x : ℕ)
      → Sound s
      → in_run block num x ≡ false
      → used (ops.free s block num) x ≡ used s x
  pub inits : (s : S) → Ok s → Fresh s → Ok (ops.init s)
  pub inits_used : (s : S) (x : ℕ) → used (ops.init s) x ≡ used s x

-- The blocks that were taken since `s0`.
pub record Taken (before now : ℕ → Bool) (blocks : List ℕ) : Type 0 where
  pub distinct : Distinct blocks
  pub some_blocks : mem 0 blocks ≡ false
  pub were_free : (x : ℕ) → mem x blocks ≡ true → before x ≡ false
  pub now_used : (x : ℕ) → now x ≡ (mem x blocks || before x)

-- What kr_alloc_blocks comes to, for `k` indirect blocks and at most `blks` data blocks.
abbrev pub NewBranchOk :
    {S : Type 0} → (S → ℕ → Bool) → (S → Type 0) → S → ℕ → ℕ → NewBranch S → Type 0
NewBranchOk {S} used Ok s k blks r =
    ((s' : S) × (err : ℕ) × (r ≡ lacking s' err)
      × (err ≢ 0)
      × ((x : ℕ) → used s x ≡ true → used s' x ≡ true))
    ⊎ ((s' : S) × (inds : List ℕ) × (first : ℕ) × (num : ℕ) × (r ≡ got s' inds first num)
        × Ok s'
        × (length inds ≡ k)
        × Taken (used s) (used s') (inds ++ run first num)
        × (0 < num)
        × (num ≤ blks))

module _ {S : Type 0} (ops : AllocOps S) (used : S → ℕ → Bool) (Ok Sound Fresh : S → Type 0)
    (bound : ℕ) (laws : AllocLaws S ops used Ok Sound Fresh bound) where
  -- Freeing keeps what is not freed.
  pub free_each-keeps :
      (s : S) (bs : List ℕ) (x : ℕ)
      → Sound s
      → mem x bs ≡ false
      → used (free_each ops s bs) x ≡ used s x
  unfolding free_each mem
  free_each-keeps s [] x sd h = refl
  free_each-keeps s (b ∷ bs) x sd h =
      free_each-keeps (ops.free s b 1) bs x (laws.frees_Sound s b 1 sd) (ground (arith, h))
      ∙ laws.frees s b 1 x sd (ground (arith, h, ==_iff x b))

  pub free_each-Sound : (s : S) (bs : List ℕ) → Sound s → Sound (free_each ops s bs)
  unfolding free_each
  free_each-Sound s [] sd = sd
  free_each-Sound s (b ∷ bs) sd = free_each-Sound (ops.free s b 1) bs (laws.frees_Sound s b 1 sd)

  -- A run more.
  taken_more :
      (before : ℕ → Bool) (s s' : S) (blocks : List ℕ) (block num count : ℕ)
      → Taken before (used s) blocks
      → GivenRun (used s) (used s') block num count
      → Taken before (used s') (blocks ++ run block num)
  taken_more before s s' blocks block num count t g = record {
    distinct =
        Distinct-append blocks (run block num) t.distinct (Distinct-run block num)
          (λ x m. mem-run x block num ∙ not_again x m);
    some_blocks = ground (
      arith,
      mem-append 0 blocks (run block num),
      mem-run 0 block num,
      g.some_block,
      t.some_blocks,
    );
    were_free = λ x m. ground (
      arith,
      m,
      mem-append x blocks (run block num),
      mem-run x block num,
      t.were_free x,
      g.were_free x,
      t.now_used x,
    );
    now_used = λ x. ground (
      arith,
      g.now_used x,
      t.now_used x,
      mem-append x blocks (run block num),
      mem-run x block num,
    );
  }
    where
      not_again : (x : ℕ) → mem x blocks ≡ true → in_run block num x ≡ false
      not_again x m = ground (arith, m, t.now_used x, g.were_free x)

  loop_end :
      (before : ℕ → Bool) (s' : S) (blocks : List ℕ) (block num n k blks : ℕ) (s0 : S)
      → used s0 ≡ before
      → Ok s'
      → Taken before (used s') (blocks ++ run block num)
      → n ≤ num
      → n < num
      → length blocks + n ≡ k
      → num - n ≤ blks
      → NewBranchOk used Ok s0 k blks (got s' (blocks ++ run block n) (block + n) (num - n))
  loop_end before s' blocks block num n k blks s0 same ok t le lt l small = inr (
    s',
    blocks ++ run block n,
    block + n,
    num - n,
    refl,
    ok,
    length-append blocks (run block n) ∙ ap (λ m. length blocks + m) (length-run block n) ∙ l,
    subst (λ b. Taken b (used s') ((blocks ++ run block n) ++ run (block + n) (num - n))) (sym same)
        (subst (λ bs. Taken before (used s') bs)
          (ap (λ r. blocks ++ r) (run_split block n num le)
            ∙ sym (append_assoc blocks (run block n) (run (block + n) (num - n))))
          t),
    omega arith,
    small,
  )

  alloc_loop-NewBranchOk :
      (fuel : ℕ) (s0 s : S) (has : Bool) (goal k blks target : ℕ) (blocks : List ℕ)
      → Ok s
      → Taken (used s0) (used s) blocks
      → length blocks ≤ k
      → target + length blocks ≡ blks + k
      → 0 < blks
      → blks + k < bound
      → k < length blocks + fuel
      → NewBranchOk used Ok s0 k blks (alloc_loop ops fuel s has goal k target blocks)
  unfolding alloc_loop
  alloc_loop-NewBranchOk zero s0 s has goal k blks target blocks ok t le e some_blks small fuel_ok =
      absurd (omega (arith, le, fuel_ok))
  alloc_loop-NewBranchOk (suc fuel) s0 s has goal k blks target blocks ok t le e some_blks small
        fuel_ok =
      let NB = NewBranchOk used Ok s0 k blks in
      elim (laws.news s has goal target ok (omega (arith, le, e)) (omega (arith, e, small))) [
        | inl (s', err, r, nz, ok', same) ↦
            let e : lacking (free_each ops s' blocks) err
                ≡ alloc_loop ops (suc fuel) s has goal k target blocks =
              ground (arith, r) in
            subst NB e (
              inl (
                free_each ops s' blocks,
                err,
                refl,
                nz,
                λ x u.
                    free_each-keeps s' blocks x (laws.sound s' ok')
                      (ground (arith, t.were_free x, u))
                    ∙ same x
                    ∙ ground (arith, t.now_used x, u),
              ))
        | inr (s', block, num, r, ok', g) ↦
            let t' = taken_more (used s0) s s' blocks block num target t g in
            let some_num = g.some_num in
            let at_most = g.at_most in
            let n = min (k - length blocks) num in
            elim (Bool-cases (ltb 0 (num - n))) [
              | inl more ↦
                  let left = ltb→lt 0 (num - n) more in
                  let ended : got s' (blocks ++ run block n) (block + n) (num - n)
                      ≡ alloc_loop ops (suc fuel) s has goal k target blocks =
                    ground (arith, r, more) in
                  subst NB ended (
                    loop_end (used s0) s' blocks block num n k blks s0 refl ok' t'
                      (omega (arith, left)) (omega (arith, left)) (omega (arith, left, le))
                      (omega (arith, left, le, e, at_most)))
              | inr none_left ↦
                  let all : n ≡ num = ground (arith, none_left, lt→ltb 0 (num - n)) in
                  let same : alloc_loop ops fuel s' has goal k (target - num)
                        (blocks ++ run block n)
                      ≡ alloc_loop ops (suc fuel) s has goal k target blocks =
                    ground (arith, r, none_left) in
                  let more =
                    length-append blocks (run block n)
                    ∙ ap (λ m. length blocks + m) (length-run block n) in
                  subst NB same (
                    alloc_loop-NewBranchOk fuel s0 s' has goal k blks (target - num)
                      (blocks ++ run block n) ok'
                      (subst (λ m. Taken (used s0) (used s') (blocks ++ run block m)) (sym all) t')
                      (omega (arith, more, all, le)) (omega (arith, more, all, le, e, at_most))
                      some_blks small (omega (arith, more, all, some_num, fuel_ok)))
            ]
      ]

  -- Over an allocator that keeps its promises and whose state is in order, with at least one data
  -- block asked for and fewer blocks in all than its bound: kr_alloc_blocks ends within its fuel
  -- and meets no BUG. It fails, and the blocks that were in use still are; or it gives as many
  -- blocks as there are indirect blocks, and at least one and at most as many data blocks as asked
  -- for. Then all these blocks differ, none is 0, they were not in use, and after it exactly they
  -- and those in use before are in use.
  pub alloc_blocks-NewBranchOk :
      (s : S) (has : Bool) (goal k blks : ℕ)
      → Ok s
      → 0 < blks
      → blks + k < bound
      → NewBranchOk used Ok s k blks (alloc_blocks ops s has goal k blks)
  unfolding alloc_blocks mem
  alloc_blocks-NewBranchOk s has goal k blks ok some_blks small =
      alloc_loop-NewBranchOk (k + 1) s s has goal k blks (blks + k) [] ok
        (record {
          distinct = tt;
          some_blocks = refl;
          were_free = λ x m. absurd (cc m);
          now_used = λ x. refl;
        })
        (omega arith) (omega arith) some_blks small (omega arith)
