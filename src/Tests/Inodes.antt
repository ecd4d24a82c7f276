-- ===== src/Tests/Inodes.antt =====
-- One group of eight inodes, with the first two in use, and the theorems on inodes applied to it.
use k_rack.Common.{
  ◌≢◌, ℕ, zero, suc, ◌/◌, ◌≤◌, ◌<◌, ◌≡◌, refl, ap, true, false, ◌&&◌, none, some, arith, ltb, leb,
  ◌==◌, if◌then◌else◌, pos, Bitmap, count_set,
}
use k_rack.Super.{GroupDesc, SbInfo, get_group_desc}
use k_rack.Super.Counts.{inodes, Consistent, GroupOk}
use k_rack.Ialloc.Groups.{
  Parent, count_free_inodes, find_group_dir, has_inodes, has_both, find_group_other,
}
use k_rack.Ialloc.Groups.Laws.{find_group_other_total, find_group_dir-best}
use k_rack.Ialloc.Orlov.{find_group_orlov}
use k_rack.Ialloc.Orlov.Laws.{find_group_orlov-total}
use k_rack.Ialloc.Alloc.{
  Env, NewInode, Outcome, created, new_inode, first_group, search_groups, read_inode_bitmap, claim,
  take_inode, mask_flags,
}
use k_rack.Ialloc.Free.{free_inode}
use k_rack.Ialloc.Uses.{in_use}
use k_rack.Ialloc.Creates.{new_inode-Consistent, new_inode-in_use}
use k_rack.Ialloc.Laws.{unset, free_inode-Consistent, free_inode-in_use, new_inode-free_inode}
use k_rack.Tests.Kernel.{first_clear, next_zero, next_zero-FindsZero}

abbrev pub desc : GroupDesc
desc = record {
  bg_block_bitmap = 3;
  bg_inode_bitmap = 4;
  bg_inode_table = 5;
  bg_free_blocks_count = 8;
  bg_free_inodes_count = 6;
  bg_used_dirs_count = 1;
}

abbrev bitmap : Bitmap
bitmap k = ltb k 2

abbrev pub sb : SbInfo
sb = record {
  s_blocks_per_group = 16;
  s_inodes_per_group = 8;
  s_itb_per_group = 2;
  s_desc_per_block = 1;
  s_desc_per_block_bits = 0;
  s_groups_count = 1;
  s_group_desc = λ i. if i == 0 then some (λ _. desc) else none;
  s_first_ino = 2;
  s_next_generation = 7;
  s_debts = λ _. 0;
  s_freeblocks_counter = pos 8;
  s_freeinodes_counter = pos 6;
  s_dirs_counter = pos 1;
  s_first_data_block = 1;
  s_blocks_count = 17;
  s_r_blocks_count = 0;
  s_inodes_count = 8;
  s_sb_block = 1;
  bitmaps = λ k. if k == 4 then some bitmap else if k == 3 then some (λ n. ltb n 8) else none;
}

abbrev pub env : Env
env = record {
  has_memory = true;
  oldalloc = false;
  rand = 5;
  insert_ok = true;
  quota_init_err = 0;
  quota_alloc_err = 0;
}

abbrev pub root : Parent
root = record { i_ino = 2; i_flags = 0; i_block_group = 0; is_root = true }

-- A regular file.
abbrev mode : ℕ
mode = 0x81a4

one_group : (g : ℕ) → g < 1 → GroupOk inodes sb g
unfolding get_group_desc count_set
one_group zero l = (desc, bitmap, refl, refl, refl)
one_group (suc g) l = absurd (omega arith)

only : (g h : ℕ) → g < 1 → h < 1 → g ≡ h
only g h l m = omega arith

sb-Consistent : Consistent inodes sb
unfolding get_group_desc count_set
sb-Consistent = record {
  power = refl;
  some_desc = omega arith;
  some_bits = omega arith;
  small = omega arith;
  groups = one_group;
  apart = λ g h d o p q r. only g h (ground arith) (ground arith);
}

abbrev made : NewInode
made = record { i_ino = 3; i_mode = mode; i_flags = 0; i_block_group = 0; i_generation = 7 }

run : (new_inode next_zero sb env root mode).1 ≡ created made
unfolding new_inode next_zero first_group find_group_other has_both get_group_desc search_groups
    read_inode_bitmap claim first_clear take_inode mask_flags
run = refl

abbrev after : SbInfo × Outcome
after = new_inode next_zero sb env root mode

whole : new_inode next_zero sb env root mode ≡ (after.0, created made)
whole = ap (λ o. (after.0, o)) run

find_group_other_total_example :
    ((g : ℕ) → find_group_other sb root ≡ some g → (g < 1) × (has_inodes sb g ≡ true))
    × (find_group_other sb root ≡ none → (g : ℕ) → g < 1 → has_inodes sb g ≡ false)
find_group_other_total_example = find_group_other_total sb root (omega arith)

find_group_orlov-total_example :
    ((g : ℕ) → find_group_orlov sb root 5 ≡ some g → (g < 1) × (has_inodes sb g ≡ true))
    × (find_group_orlov sb root 5 ≡ none → (g : ℕ) → g < 1 → has_inodes sb g ≡ false)
find_group_orlov-total_example = find_group_orlov-total sb root 5 (omega arith)

find_group_dir-best_example :
    ((g : ℕ)
      → find_group_dir sb ≡ some g
      → (desc : GroupDesc) × (g < 1)
        × (get_group_desc sb g ≡ some desc)
        × (desc.bg_free_inodes_count ≢ 0)
        × (count_free_inodes sb / 1 ≤ desc.bg_free_inodes_count)
        × ((h : ℕ) (other : GroupDesc)
            → h < 1
            → get_group_desc sb h ≡ some other
            → other.bg_free_inodes_count ≢ 0
            → count_free_inodes sb / 1 ≤ other.bg_free_inodes_count
            → other.bg_free_blocks_count ≤ desc.bg_free_blocks_count))
    × (find_group_dir sb ≡ none
        → (h : ℕ) (other : GroupDesc) → h < 1
        → get_group_desc sb h ≡ some other
        → other.bg_free_inodes_count ≢ 0
        → other.bg_free_inodes_count < count_free_inodes sb / 1)
find_group_dir-best_example = find_group_dir-best sb

new_inode-Consistent_example : Consistent inodes after.0
new_inode-Consistent_example =
    new_inode-Consistent next_zero next_zero-FindsZero sb after.0 env root mode made sb-Consistent
      whole

new_inode-in_use_example :
    (2 ≤ 3)
    × (3 ≤ 8)
    × (in_use sb 3 ≡ some false)
    × ((k : ℕ) → 0 < k → in_use after.0 k ≡ (if k == 3 then some true else in_use sb k))
new_inode-in_use_example =
    new_inode-in_use next_zero next_zero-FindsZero sb after.0 env root mode made sb-Consistent whole

free_inode-Consistent_example : Consistent inodes (free_inode sb 2 false)
free_inode-Consistent_example = free_inode-Consistent sb 2 false sb-Consistent

free_inode-in_use_example :
    in_use (free_inode sb 2 false) 2
    ≡ (if 2 == 2 && (leb 2 2 && leb 2 8) then unset (in_use sb 2) else in_use sb 2)
free_inode-in_use_example = free_inode-in_use sb 2 2 false sb-Consistent (omega arith) (omega arith)

new_inode-free_inode_example : in_use (free_inode after.0 3 false) 3 ≡ in_use sb 3
new_inode-free_inode_example =
    new_inode-free_inode next_zero next_zero-FindsZero sb after.0 env root mode made sb-Consistent
      (omega arith) whole 3 (omega arith)
