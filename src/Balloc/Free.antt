-- ===== src/Balloc/Free.antt =====
-- kr_free_blocks (balloc.c): a run of blocks given back, group after group. The quota calls of the
-- code leave nothing here.
pub mod Group
pub mod Used
pub mod Frame
pub mod Laws
use k_rack.Common.{
  ℕ, zero, suc, ◌+◌, ◌-◌, ◌*◌, ◌/◌, ◌%◌, ◌^◌, ◌≤◌, ◌<◌, min, bit_and, ◌≡◌, refl, sym, ap, subst,
  ◌∙◌, ◌≢◌, ◌↔◌, ◌⊎◌, inl, inr, Bool, true, false, not, ◌&&◌, ◌||◌, Option, none, some, List, [],
  ◌∷◌, ◌++◌, arith, ltb, leb, ◌==◌, if◌then◌else◌, ltb→lt, lt→ltb, leb→le, le→leb, ==_iff,
  Bool-cases, Option-cases, length, get_elem?, get_or, set, take, drop, length-append, length-set,
  get_elem?-set_self, get_elem?-set_ne, sub32, sub32_lem, clear_flag, eperm, enoent, eio, eagain,
  enomem, eacces, efault, ebusy, eexist, einval, enotty, enospc, enametoolong, enotempty, ℤ, pos,
  negsuc, sub_ℕ, pos_part, neg_part, ◌+ℤ◌, Bitmap, write_bit, count_set, count_set-le,
  count_set-set, count_set-clear, FindsZero, rem, reach_place,
}
use k_rack.Super.{GroupDesc, SbInfo, get_group_desc, put_group_desc, put_bitmap}

-- read_block_bitmap; the code ignores the answer of `kr_valid_block_bitmap`.
unfoldable pub read_block_bitmap : SbInfo → ℕ → Option Bitmap
read_block_bitmap sb group = elim (get_group_desc sb group) [
  | none ↦ none
  | some desc ↦ sb.bitmaps desc.bg_block_bitmap
]

-- The numbers are of 64 bits, and `first + len - 1` wraps.
abbrev pub in_range : ℕ → ℕ → ℕ → Bool
in_range b first len = leb first b && leb b ((first + len + 2 ^ 64 - 1) % 2 ^ 64)

abbrev pub in_system_zone : SbInfo → GroupDesc → ℕ → ℕ → Bool
in_system_zone sb desc block count =
    (in_range desc.bg_block_bitmap block count || in_range desc.bg_inode_bitmap block count)
    || (in_range block desc.bg_inode_table sb.s_itb_per_group
        || in_range (block + count - 1) desc.bg_inode_table sb.s_itb_per_group)

-- How many of the bits were set, and the bitmap without them.
unfoldable pub clear_run : ℕ → Bitmap → ℕ → ℕ × Bitmap
clear_run zero b bit = (0, b)
clear_run (suc count) b bit =
    let (freed, b') = clear_run count (write_bit b bit false) (bit + 1) in
    ((if b bit then 1 else 0) + freed, b')

unfoldable pub group_adjust_blocks : SbInfo → ℕ → GroupDesc → ℕ → SbInfo
group_adjust_blocks sb group desc zero = sb
group_adjust_blocks sb group desc (suc count) =
    put_group_desc sb group
      (record desc { bg_free_blocks_count = (desc.bg_free_blocks_count + suc count) % 2 ^ 16 })

-- The blocks of one group; `none` is the code's jump to `error_return`.
unfoldable pub free_in_group : SbInfo → ℕ → ℕ → ℕ → ℕ → Option (SbInfo × ℕ)
free_in_group sb group bit block count = elim (read_block_bitmap sb group) [
  | none ↦ none
  | some b ↦ elim (get_group_desc sb group) [
    | none ↦ none
    | some desc ↦
        let (freed, b') = clear_run count b bit in
        if in_system_zone sb desc block count
        then none
        else some
            (group_adjust_blocks (put_bitmap sb desc.bg_block_bitmap b') group desc freed, freed)
  ]
]

-- `do_more`, which is entered at most once for each block.
unfoldable pub free_from : ℕ → SbInfo → ℕ → ℕ → ℕ → SbInfo × ℕ
free_from zero sb block count freed = (sb, freed)
free_from (suc fuel) sb block count freed =
    let group = (block - sb.s_first_data_block) / sb.s_blocks_per_group in
    let bit = (block - sb.s_first_data_block) % sb.s_blocks_per_group in
    let overflow = bit + count - sb.s_blocks_per_group in
    let here = count - overflow in
    elim (free_in_group sb group bit block here) [
      | none ↦ (sb, freed)
      | some (sb', n) ↦
          let rest = free_from fuel sb' (block + here) overflow (freed + n) in
          if overflow == 0 then (sb', freed + n) else rest
    ]

unfoldable pub free_blocks : SbInfo → ℕ → ℕ → SbInfo
free_blocks sb block count =
    let last = (block + count) % 2 ^ 64 in
    let (sb', freed) = free_from (count + 1) sb block count 0 in
    if ltb block sb.s_first_data_block || (ltb last block || ltb sb.s_blocks_count last)
    then sb
    else record sb' { s_freeblocks_counter = sb'.s_freeblocks_counter +ℤ pos freed }
