-- ===== src/BlockMap/Alloc.antt =====
-- kr_find_near, kr_find_goal, kr_blks_to_allocate, kr_alloc_blocks, kr_alloc_branch and
-- kr_splice_branch (inode.c): new blocks for a file. `AllocOps` is what they take from balloc.c.
pub mod Runs
pub mod Laws
pub mod Kr
use k_rack.Common.{
  ℕ, zero, suc, ◌+◌, ◌-◌, ◌*◌, ◌/◌, ◌%◌, ◌^◌, ◌≤◌, ◌<◌, min, bit_and, ◌≡◌, refl, sym, ap, subst,
  ◌∙◌, ◌≢◌, ◌↔◌, ◌⊎◌, inl, inr, Bool, true, false, not, ◌&&◌, ◌||◌, Option, none, some, List, [],
  ◌∷◌, ◌++◌, arith, ltb, leb, ◌==◌, if◌then◌else◌, ltb→lt, lt→ltb, leb→le, le→leb, ==_iff,
  Bool-cases, Option-cases, length, get_elem?, get_or, set, take, drop, length-append, length-set,
  get_elem?-set_self, get_elem?-set_ne, sub32, sub32_lem, clear_flag, eperm, enoent, eio, eagain,
  enomem, eacces, efault, ebusy, eexist, einval, enotty, enospc, enametoolong, enotempty, ℤ, pos,
  negsuc, sub_ℕ, pos_part, neg_part, ◌+ℤ◌, Bitmap, write_bit, count_set, count_set-le,
  count_set-set, count_set-clear, count_set-ext, FindsZero, rem, quot, reach_place,
}
use k_rack.BlockMap.{Tree, read, Indirect}

-- kr_new_blocks gives a run of blocks, or an error, or meets a BUG.
pub data NewRun {ℓ} (S : Type ℓ) : Type ℓ where
  given : S → ℕ → ℕ → NewRun S
  refused : S → ℕ → NewRun S
  crashed : NewRun S

-- `new` takes whether the file has a `i_block_alloc_info`, the goal and the count.
pub record AllocOps (S : Type 0) : Type 0 where
  pub new : S → Bool → ℕ → ℕ → NewRun S
  pub free : S → ℕ → ℕ → S
  pub init : S → S

-- The part of `i_block_alloc_info` that is not the window.
pub record AllocInfo : Type 0 where
  pub last_alloc_logical_block : ℕ
  pub last_alloc_physical_block : ℕ

-- What kr_find_near takes from the inode, the super block and the task.
pub record Place : Type 0 where
  pub bg_start : ℕ
  pub blocks_per_group : ℕ
  pub pid : ℕ

-- The last pointer before an offset that is not 0, or 0.
unfoldable pub left_of : (ℕ → ℕ) → ℕ → ℕ
left_of f zero = 0
left_of f (suc o) = let rest = left_of f o in if f o == 0 then rest else f o

unfoldable pub find_near : Tree → Place → Indirect → ℕ
find_near d at ind =
    let left = left_of (read d ind.bh) ind.p in
    if left == 0
    then elim ind.bh [ some b ↦ b | none ↦ at.bg_start + at.pid % 16 * (at.blocks_per_group / 16) ]
    else left

unfoldable pub find_goal : Tree → Place → Option AllocInfo → ℕ → Indirect → ℕ
find_goal d at none block ind = find_near d at ind
find_goal d at (some i) block ind =
    if block == (i.last_alloc_logical_block + 1) % 2 ^ 32 && not (i.last_alloc_physical_block == 0)
    then i.last_alloc_physical_block + 1
    else find_near d at ind

-- How many of the `n` pointers from an offset on are 0, up to the first that is not.
unfoldable pub holes_from : (ℕ → ℕ) → ℕ → ℕ → ℕ
holes_from f o zero = 0
holes_from f o (suc n) = let rest = holes_from f (o + 1) n in if f o == 0 then suc rest else 0

-- In the loop `count` is below `blks` and at most `blocks_to_boundary`.
unfoldable pub blks_to_allocate : Tree → Indirect → ℕ → ℕ → ℕ → ℕ
blks_to_allocate d ind k blks blocks_to_boundary =
    if ltb 0 k
    then (if ltb blks (blocks_to_boundary + 1) then blks else blocks_to_boundary + 1)
    else 1 + holes_from (read d ind.bh) (ind.p + 1) (min (blks - 1) blocks_to_boundary)

-- The numbers that follow one another from a number on.
unfoldable pub run : ℕ → ℕ → List ℕ
run b zero = []
run b (suc n) = b ∷ run (b + 1) n

-- The blocks for indirect blocks, the first data block and the number of data blocks; or an error.
pub data NewBranch (S : Type 0) : Type 0 where
  got : S → List ℕ → ℕ → ℕ → NewBranch S
  lacking : S → ℕ → NewBranch S
  halted : NewBranch S

module _ {S : Type 0} (ops : AllocOps S) where
  unfoldable pub free_each : S → List ℕ → S
  free_each s [] = s
  free_each s (b ∷ bs) = free_each (ops.free s b 1) bs

  -- The loop of kr_alloc_blocks; `new_blocks` has the numbers up to `index`.
  unfoldable pub alloc_loop : ℕ → S → Bool → ℕ → ℕ → ℕ → List ℕ → NewBranch S
  alloc_loop zero s has goal indirect_blks target new_blocks = halted
  alloc_loop (suc fuel) s has goal indirect_blks target new_blocks =
      elim (ops.new s has goal target) [
        | crashed ↦ halted
        | refused s' err ↦ lacking (free_each s' new_blocks) err
        | given s' block count ↦
            let n = min (indirect_blks - length new_blocks) count in
            let taken = new_blocks ++ run block n in
            elim (ltb 0 (count - n)) [
              | true ↦ got s' taken (block + n) (count - n)
              | false ↦ alloc_loop fuel s' has goal indirect_blks (target - count) taken
            ]
      ]

  unfoldable pub alloc_blocks : S → Bool → ℕ → ℕ → ℕ → NewBranch S
  alloc_blocks s has goal indirect_blks blks =
      alloc_loop (indirect_blks + 1) s has goal indirect_blks (blks + indirect_blks) []
