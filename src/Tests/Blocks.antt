-- ===== src/Tests/Blocks.antt =====
-- The theorems on blocks applied to the group of `Inodes`, whose first eight blocks are in use.
use k_rack.Common.{
  ℕ, zero, suc, ◌+◌, ◌*◌, ◌^◌, ◌≤◌, ◌<◌, ◌≡◌, refl, ◌↔◌, ◌⊎◌, true, false, ◌&&◌, none, some, arith,
  ltb, leb, if◌then◌else◌, Bitmap, write_bit, count_set,
}
use k_rack.Super.{SbInfo, get_group_desc, put_bitmap}
use k_rack.Super.Counts.{data_blocks, Consistent, GroupOk}
use k_rack.Balloc.Search.{find_next_usable_block}
use k_rack.Balloc.Search.Laws.{find_next_usable_block-usable}
use k_rack.Balloc.Allocate.{
  try_to_allocate, allocation_range, first_goal, claim_in, claim_from, claim_run, blocks,
}
use k_rack.Balloc.Allocate.Run.{Claims}
use k_rack.Balloc.Allocate.Laws.{try_to_allocate-Claims}
use k_rack.Balloc.Free.Used.{block_used, free_in_group-block_used}
use k_rack.Balloc.Free.{
  read_block_bitmap, free_in_group, group_adjust_blocks, clear_run, free_from, free_blocks,
}
use k_rack.Balloc.Free.Laws.{free_from-fuel, free_blocks-Consistent}
use k_rack.Balloc.Sparse.{bg_has_super}
use k_rack.Balloc.Sparse.Laws.{bg_has_super-powers}
use k_rack.Tests.Kernel.{next_zero, next_zero-FindsZero, memscan, memscan-ScansBytes}
use k_rack.Tests.Inodes.{sb, desc}

abbrev pub bitmap : Bitmap
bitmap k = ltb k 8

one_group : (g : ℕ) → g < 1 → GroupOk data_blocks sb g
unfolding get_group_desc count_set
one_group zero l = (desc, bitmap, refl, refl, refl)
one_group (suc g) l = absurd (omega arith)

only : (g h : ℕ) → g < 1 → h < 1 → g ≡ h
only g h l m = omega arith

pub sb-Consistent : Consistent data_blocks sb
unfolding get_group_desc count_set
sb-Consistent = record {
  power = refl;
  some_desc = omega arith;
  some_bits = omega arith;
  small = omega arith;
  groups = one_group;
  apart = λ g h d o p q r. only g h (ground arith) (ground arith);
}

find_next_usable_block-usable_example :
    ((r : ℕ) × (find_next_usable_block next_zero memscan 3 bitmap 16 ≡ some r)
      × (3 ≤ r)
      × (r < 16)
      × (bitmap r ≡ false))
    ⊎ ((find_next_usable_block next_zero memscan 3 bitmap 16 ≡ none)
        × ((k : ℕ) → 3 ≤ k → k < 16 → bitmap k ≡ true))
find_next_usable_block-usable_example =
    find_next_usable_block-usable next_zero memscan next_zero-FindsZero memscan-ScansBytes 3 bitmap
      16

-- Three blocks from block 9 of the group on.
abbrev pub three : ℕ × Bitmap
three = claim_run 2 (write_bit bitmap 9 true) 16 10 1

claimed : try_to_allocate next_zero memscan sb 0 bitmap (some 9) 3 none ≡ blocks 9 3 three.1
unfolding try_to_allocate allocation_range first_goal claim_in claim_from claim_run
claimed = refl

inside : (g : ℕ) → some 9 ≡ some g → g < 16
inside g e = ground arith

try_to_allocate-Claims_example : (1 ≤ 3) × (3 ≤ 3) × (9 + 3 ≤ 16) × Claims bitmap three.1 9 3
try_to_allocate-Claims_example =
    try_to_allocate-Claims next_zero memscan next_zero-FindsZero memscan-ScansBytes sb 0 bitmap
      three.1 (some 9) 3 none 9 3 inside (omega arith) claimed

free_from-fuel_example : free_from 4 sb 8 2 0 ≡ free_from 3 sb 8 2 0
free_from-fuel_example = free_from-fuel 3 sb 8 2 0 sb-Consistent (omega arith)

free_blocks-Consistent_example : Consistent data_blocks (free_blocks sb 8 2)
free_blocks-Consistent_example = free_blocks-Consistent sb 8 2 sb-Consistent

bg_has_super-powers_example : (bg_has_super true 49 ≡ true) ↔ (
    (true ≡ false)
    ⊎ ((49 ≤ 1)
        ⊎ (((k : ℕ) × (49 ≡ 3 * 3 ^ k))
            ⊎ (((k : ℕ) × (49 ≡ 5 * 5 ^ k)) ⊎ ((k : ℕ) × (49 ≡ 7 * 7 ^ k))))))
bg_has_super-powers_example = bg_has_super-powers true 49 (omega arith)

-- The bitmap without blocks 8 and 9, of which 8 was in use, and the state with it.
abbrev two_freed : ℕ × Bitmap
two_freed = clear_run 2 bitmap 7

abbrev freed_state : SbInfo
freed_state = group_adjust_blocks (put_bitmap sb 3 two_freed.1) 0 desc two_freed.0

freed : free_in_group sb 0 7 8 2 ≡ some (freed_state, two_freed.0)
unfolding free_in_group read_block_bitmap get_group_desc
freed = refl

free_in_group-block_used_example :
    block_used freed_state 8 ≡ (if leb 8 8 && ltb 8 (8 + 2) then some false else block_used sb 8)
free_in_group-block_used_example =
    free_in_group-block_used sb freed_state 8 2 two_freed.0 8 sb-Consistent (omega arith)
      (omega arith) (omega arith) freed
