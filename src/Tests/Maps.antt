-- ===== src/Tests/Maps.antt =====
-- The theorems on a file's blocks, applied to a tree with one direct block, one indirect block and
-- one block below it, over an allocator that gives at most two blocks at a time.
use k_rack.Common.{
  ℕ, ◌+◌, ◌^◌, ◌<◌, min, ◌≡◌, refl, ap, ◌∙◌, ◌≢◌, ◌⊎◌, inl, inr, Bool, true, false, ◌&&◌, none,
  List, [], ◌∷◌, arith, ltb, ◌==◌, if◌then◌else◌, ltb→lt, leb→le, ==_iff,
}
use native.Mathlib.Decide.{ℕ_discrete}
use k_rack.BlockPath.{block_to_path}
use k_rack.BlockMap.{Tree, get_branch, branch_from, verify_chain}
use k_rack.BlockMap.Follow.{key, Followed, get_branch-Followed}
use k_rack.BlockMap.Alloc.{
  given, AllocOps, alloc_blocks, alloc_loop, run, blks_to_allocate, holes_from, find_goal,
  find_near, left_of, free_each,
}
use k_rack.BlockMap.Write.{write, wipe, write_run, link_chain, splice}
use k_rack.BlockMap.Alloc.Laws.{AllocLaws, NewRunOk, NewBranchOk, alloc_blocks-NewBranchOk}
use k_rack.BlockMap.Grow.{key-Held}
use k_rack.BlockMap.Truncate.Cleared.{Cleared}
use k_rack.BlockMap.Position.{TreeOk}
use k_rack.BlockMap.Get.{
  File, Setting, mapped, get_blocks, after_lookup, read_again, map_more, allocate, extend, attach,
  got_it,
}
use k_rack.BlockMap.Get.Answers.{GetOk}
use k_rack.BlockMap.Get.Laws.{boundary_of, get_blocks-GetOk}

-- The state is the first block that is free.
abbrev ops : AllocOps ℕ
ops = record {
  new = λ s has goal count. given (s + min 2 count) s (min 2 count);
  free = λ s block num. s;
  init = λ s. s;
}

abbrev used : ℕ → ℕ → Bool
used s x = ltb x s

abbrev InOrder : ℕ → Type 0
InOrder s = 0 < s

abbrev Any : ℕ → Type 0
Any s = Unit {0}

gives :
    (s count : ℕ)
    → 0 < s
    → 0 < count
    → NewRunOk used InOrder s count (given (s + min 2 count) s (min 2 count))
gives s count l m = inr (
  s + min 2 count,
  s,
  min 2 count,
  refl,
  omega arith,
  record {
    some_block = l;
    some_num = omega arith;
    at_most = omega arith;
    were_free = λ x h. ground (arith, h, leb→le s x, ltb→lt x s);
    now_used = λ x. ground arith;
  },
)

laws : AllocLaws ℕ ops used InOrder Any Any (2 ^ 32)
laws = record {
  narrow = omega arith;
  news = λ s has goal count l m k. gives s count l m;
  sound = λ s l. tt;
  frees_Sound = λ s block num h. tt;
  frees = λ s block num x h e. refl;
  inits = λ s l h. l;
  inits_used = λ s x. refl;
}

abbrev tree : Tree
tree = record {
  i_data = λ o. if o == 0 then 4 else if o == 12 then 5 else 0;
  block = λ b o. if b == 5 && o == 0 then 6 else 0;
}

-- The positions of the blocks 4, 5 and 6.
places :
    (p : List ℕ)
    → key tree p ≢ 0
    → ((p ≡ 0 ∷ []) × (key tree p ≡ 4))
      ⊎ ((p ≡ 12 ∷ []) × (key tree p ≡ 5))
      ⊎ ((p ≡ 0 ∷ (12 ∷ [])) × (key tree p ≡ 6))
unfolding key
places [] nz = absurd (nz refl)
places (o ∷ []) nz = elim (ℕ_discrete o 0) [
  | yes e ↦ inl (ap (λ n. n ∷ []) e, ground (arith, e))
  | no n ↦ elim (ℕ_discrete o 12) [
    | yes e ↦ inr (inl (ap (λ n. n ∷ []) e, ground (arith, e)))
    | no m ↦ absurd (nz (ground (arith, n, m, ==_iff o 0, ==_iff o 12)))
  ]
]
places (o ∷ y ∷ r) nz = elim (places (y ∷ r) (key-Held tree o (y ∷ r) nz)) [
  | inl (e, k) ↦ absurd (nz (ground (arith, k)))
  | inr h ↦ elim h [
    | inr (e, k) ↦ absurd (nz (ground (arith, k)))
    | inl (e, k) ↦ elim (ℕ_discrete o 0) [
      | no n ↦ absurd (nz (ground (arith, k, n, ==_iff o 0)))
      | yes z ↦
          inr (inr (ap (λ n. n ∷ y ∷ r) z ∙ ap (λ s. 0 ∷ s) e, ground (arith, k, z, ==_iff o 0)))
    ]
  ]
]

tree-TreeOk : TreeOk 16 (used 7) tree
tree-TreeOk = record {
  in_use = λ p v nz. ground (arith, places p nz);
  single = λ p p' v v' nz e. one p p' nz e (places p nz) (places p' (λ z. nz (e ∙ z)));
}
  where
    one :
        (p p' : List ℕ)
        → key tree p ≢ 0
        → key tree p ≡ key tree p'
        → ((p ≡ 0 ∷ []) × (key tree p ≡ 4))
          ⊎ ((p ≡ 12 ∷ []) × (key tree p ≡ 5))
          ⊎ ((p ≡ 0 ∷ (12 ∷ [])) × (key tree p ≡ 6))
        → ((p' ≡ 0 ∷ []) × (key tree p' ≡ 4))
          ⊎ ((p' ≡ 12 ∷ []) × (key tree p' ≡ 5))
          ⊎ ((p' ≡ 0 ∷ (12 ∷ [])) × (key tree p' ≡ 6))
        → p ≡ p'
    one p p' nz e h h' = ground (arith, nz, e, h, h')

abbrev file : File ℕ
file = record { tree = tree; info = none; space = 7 }

abbrev setting : Setting
setting = record {
  geometry = record { ptrs = 16; ptrs_bits = 4 };
  place = record { bg_start = 1; blocks_per_group = 64; pid = 5 };
  regular = true;
  dax = false;
  seen = tree;
  meanwhile = λ j. tree;
  broken = λ b. false;
  broken_again = λ b. false;
  kmalloc = true;
  no_memory = λ b. false;
  zeroout = λ b n. none;
}

-- Block 30 is the third of the first indirect block of the double indirect block.
get_blocks-GetOk_example :
    GetOk used InOrder setting file 30 3 true
      (boundary_of (record { ptrs = 16; ptrs_bits = 4 }) 30)
      (get_blocks ops setting file 30 3 true)
get_blocks-GetOk_example =
    get_blocks-GetOk ops used InOrder Any Any (2 ^ 32) laws setting file 30 3 true refl
      (omega arith) (omega arith) (omega arith) (omega arith) (omega arith) (λ e. tt) tree-TreeOk
      (λ b. refl)

alloc_blocks-NewBranchOk_example : NewBranchOk used InOrder 7 3 4 (alloc_blocks ops 7 true 20 3 4)
alloc_blocks-NewBranchOk_example =
    alloc_blocks-NewBranchOk ops used InOrder Any Any (2 ^ 32) laws 7 true 20 3 4 (omega arith)
      (omega arith) (omega arith)

get_branch-Followed_example :
    Followed tree (λ b. b == 6) (12 ∷ (1 ∷ [])) [] (get_branch tree (λ b. b == 6) 12 (1 ∷ []))
get_branch-Followed_example = get_branch-Followed tree (λ b. b == 6) 12 (1 ∷ [])

-- Two new indirect blocks, 7 and 8, and the data blocks 9 and 10.
thirty : (get_blocks ops setting file 30 3 true).1 ≡ mapped 2 9 true false
unfolding get_blocks block_to_path after_lookup get_branch branch_from read_again verify_chain
    map_more allocate extend alloc_blocks alloc_loop run blks_to_allocate holes_from find_goal
    find_near left_of attach link_chain write wipe write_run splice got_it free_each
thirty = refl
