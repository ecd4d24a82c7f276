-- ===== src/Balloc/Sparse.antt =====
-- The groups with a copy of the super block, and the count of free blocks: test_root,
-- kr_group_sparse, kr_bg_has_super, kr_bg_num_gdb, kr_count_free_blocks, kr_data_block_valid
-- (balloc.c).
pub mod Laws
use k_rack.Common.{
  int_lt, ℕ, zero, suc, ◌+◌, ◌-◌, ◌*◌, ◌/◌, ◌%◌, ◌^◌, ◌≤◌, ◌<◌, min, bit_and, ◌≡◌, refl, sym, ap,
  subst, ◌∙◌, ◌≢◌, ◌↔◌, ◌⊎◌, inl, inr, Bool, true, false, not, ◌&&◌, ◌||◌, Option, none, some, List,
  [], ◌∷◌, ◌++◌, arith, ltb, leb, ◌==◌, if◌then◌else◌, ltb→lt, lt→ltb, leb→le, le→leb, ==_iff,
  Bool-cases, Option-cases, length, get_elem?, get_or, set, take, drop, length-append, length-set,
  get_elem?-set_self, get_elem?-set_ne, sub32, sub32_lem, clear_flag, eperm, enoent, eio, eagain,
  enomem, eacces, efault, ebusy, eexist, einval, enotty, enospc, enametoolong, enotempty, ℤ, pos,
  negsuc, sub_ℕ, pos_part, neg_part, ◌+ℤ◌, Bitmap, write_bit, count_set, count_set-le,
  count_set-set, count_set-clear, FindsZero, rem, reach_place,
}
use k_rack.Super.{GroupDesc, SbInfo, get_group_desc}

-- The loop of `test_root`; `a`, `b` and `num` are `int`s, given by their 32 bits.
unfoldable pub root_from : ℕ → ℕ → ℕ → ℕ → Bool
root_from zero a b num = num == a
root_from (suc fuel) a b num =
    let rest = root_from fuel a b (num * b % 2 ^ 32) in if int_lt num a then rest else num == a

-- As long as the product does not wrap and `b` is at least 2, `num` grows at each step.
unfoldable pub test_root : ℕ → ℕ → Bool
test_root a b = root_from a a b b

unfoldable pub group_sparse : ℕ → Bool
group_sparse group =
    if not (int_lt 1 group)
    then true
    else (test_root group 3 || (test_root group 5 || test_root group 7))

-- `sparse_super` is the feature RO_COMPAT_SPARSE_SUPER of the super block.
unfoldable pub bg_has_super : Bool → ℕ → Bool
bg_has_super sparse_super group = if sparse_super && not (group_sparse group) then false else true

unfoldable pub bg_num_gdb : Bool → ℕ → ℕ → ℕ
bg_num_gdb sparse_super s_gdb_count group =
    if bg_has_super sparse_super group then s_gdb_count else 0

-- The sum over the first groups.
unfoldable pub count_from : SbInfo → ℕ → ℕ
count_from sb zero = 0
count_from sb (suc n) =
    count_from sb n
    + (elim (get_group_desc sb n) [ none ↦ 0 | some desc ↦ desc.bg_free_blocks_count ])

unfoldable pub count_free_blocks : SbInfo → ℕ
count_free_blocks sb = count_from sb sb.s_groups_count

-- The numbers are of 64 bits.
unfoldable pub data_block_valid : SbInfo → ℕ → ℕ → Bool
data_block_valid sb start_blk count =
    let last = (start_blk + count) % 2 ^ 64 in
    if leb start_blk sb.s_first_data_block
      || (ltb last start_blk || ltb sb.s_blocks_count start_blk)
    then false
    else if leb start_blk sb.s_sb_block && leb sb.s_sb_block last
    then false
    else true
