-- ===== src/Super.antt =====
-- The mounted super block (`struct kr_sb_info` of kr.h, with what is used of the block on disk) and
-- the table of group descriptors: kr_get_group_desc (balloc.c).
pub mod Laws
pub mod Counts
use k_rack.Common.{
  ℕ, zero, suc, ◌+◌, ◌-◌, ◌*◌, ◌/◌, ◌%◌, ◌^◌, ◌≤◌, ◌<◌, min, bit_and, ◌≡◌, refl, sym, ap, subst,
  ◌∙◌, ◌≢◌, ◌↔◌, ◌⊎◌, inl, inr, Bool, true, false, not, ◌&&◌, ◌||◌, Option, none, some, List, [],
  ◌∷◌, ◌++◌, arith, ltb, leb, ◌==◌, if◌then◌else◌, ltb→lt, lt→ltb, leb→le, le→leb, ==_iff,
  Bool-cases, Option-cases, length, get_elem?, get_or, set, take, drop, length-append, length-set,
  get_elem?-set_self, get_elem?-set_ne, sub32, sub32_lem, clear_flag, eperm, enoent, eio, eagain,
  enomem, eacces, efault, ebusy, eexist, einval, enotty, enospc, enametoolong, enotempty, ℤ, pos,
  negsuc, sub_ℕ, pos_part, neg_part, ◌+ℤ◌, Bitmap, write_bit, count_set, count_set-le,
  count_set-set, count_set-clear, FindsZero,
}

-- `struct kr_group_desc`
pub record GroupDesc : Type 0 where
  pub bg_block_bitmap : ℕ
  pub bg_inode_bitmap : ℕ
  pub bg_inode_table : ℕ
  pub bg_free_blocks_count : ℕ
  pub bg_free_inodes_count : ℕ
  pub bg_used_dirs_count : ℕ

-- A block of group descriptors in memory.
abbrev pub DescBlock : Type 0
DescBlock = ℕ → GroupDesc

-- `s_group_desc` holds the descriptor blocks that are loaded; `bitmaps` is the buffer cache for
-- bitmap blocks, where `none` is a failed read.
pub record SbInfo : Type 0 where
  pub s_blocks_per_group : ℕ
  pub s_inodes_per_group : ℕ
  pub s_itb_per_group : ℕ
  pub s_desc_per_block : ℕ
  pub s_desc_per_block_bits : ℕ
  pub s_groups_count : ℕ
  pub s_group_desc : ℕ → Option DescBlock
  pub s_first_ino : ℕ
  pub s_next_generation : ℕ
  pub s_debts : ℕ → ℕ
  pub s_freeblocks_counter : ℤ
  pub s_freeinodes_counter : ℤ
  pub s_dirs_counter : ℤ
  pub s_first_data_block : ℕ
  pub s_blocks_count : ℕ
  pub s_r_blocks_count : ℕ
  pub s_inodes_count : ℕ
  pub s_sb_block : ℕ
  pub bitmaps : ℕ → Option Bitmap

-- With `s_desc_per_block` a power of two, `group & (s_desc_per_block - 1)` is the remainder.
unfoldable pub get_group_desc : SbInfo → ℕ → Option GroupDesc
get_group_desc sb group =
    if leb sb.s_groups_count group
    then none
    else elim (sb.s_group_desc (group / 2 ^ sb.s_desc_per_block_bits)) [
      | none ↦ none
      | some block ↦ some (block (group % sb.s_desc_per_block))
    ]

-- A store through the pointer that `get_group_desc` gives.
unfoldable pub put_group_desc : SbInfo → ℕ → GroupDesc → SbInfo
put_group_desc sb group desc = record sb {
  s_group_desc = λ i. elim (sb.s_group_desc i) [
    | none ↦ none
    | some block ↦ some (λ j.
        if i == group / 2 ^ sb.s_desc_per_block_bits && j == group % sb.s_desc_per_block
        then desc
        else block j)
  ];
}

abbrev pub put_bitmap : SbInfo → ℕ → Bitmap → SbInfo
put_bitmap sb block b = record sb { bitmaps = λ k. if k == block then some b else sb.bitmaps k }

unfoldable pub group_first_block_no : SbInfo → ℕ → ℕ
group_first_block_no sb group = group * sb.s_blocks_per_group + sb.s_first_data_block

-- The change of a 16-bit counter on disk.
abbrev pub add16 : ℕ → ℕ → ℕ
add16 a b = (a + b) % 2 ^ 16

abbrev pub sub16 : ℕ → ℕ → ℕ
sub16 a b = (a + 2 ^ 16 - b % 2 ^ 16) % 2 ^ 16
