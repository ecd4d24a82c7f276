-- ===== src/Balloc/Search.antt =====
-- bitmap_search_next_usable_block, find_next_usable_block (balloc.c): a clear bit near a goal.
-- `next_zero` is the kernel's `find_next_zero_bit` and `scan` is its `memscan` for a zero byte:
-- `scan b first count` is the number of the first byte without a set bit from `first` on, or `first
-- + count`.
pub mod Laws
use k_rack.Common.{
  ℕ, zero, suc, ◌+◌, ◌-◌, ◌*◌, ◌/◌, ◌%◌, ◌^◌, ◌≤◌, ◌<◌, min, bit_and, ◌≡◌, refl, sym, ap, subst,
  ◌∙◌, ◌≢◌, ◌↔◌, ◌⊎◌, inl, inr, Bool, true, false, not, ◌&&◌, ◌||◌, Option, none, some, List, [],
  ◌∷◌, ◌++◌, arith, ltb, leb, ◌==◌, if◌then◌else◌, ltb→lt, lt→ltb, leb→le, le→leb, ==_iff,
  Bool-cases, Option-cases, length, get_elem?, get_or, set, take, drop, length-append, length-set,
  get_elem?-set_self, get_elem?-set_ne, sub32, sub32_lem, clear_flag, eperm, enoent, eio, eagain,
  enomem, eacces, efault, ebusy, eexist, einval, enotty, enospc, enametoolong, enotempty, ℤ, pos,
  negsuc, sub_ℕ, pos_part, neg_part, ◌+ℤ◌, Bitmap, write_bit, count_set, count_set-le,
  count_set-set, count_set-clear, FindsZero, rem, reach_place,
}

module _ (next_zero : Bitmap → ℕ → ℕ → ℕ) where
  -- `none` is the code's -1.
  unfoldable pub bitmap_search_next_usable_block : ℕ → Bitmap → ℕ → Option ℕ
  bitmap_search_next_usable_block start b maxblocks =
      let next = next_zero b maxblocks start in if leb maxblocks next then none else some next

module _ (next_zero scan : Bitmap → ℕ → ℕ → ℕ) where
  -- From the first byte that holds no set bit, or else from the first clear bit.
  unfoldable pub search_bytes : ℕ → Bitmap → ℕ → Option ℕ
  search_bytes here b maxblocks =
      let next = scan b (here / 8) ((maxblocks + 7) / 8 - here / 8) * 8 in
      if ltb next maxblocks && leb here next
      then some next
      else bitmap_search_next_usable_block next_zero here b maxblocks

  unfoldable pub find_next_usable_block : ℕ → Bitmap → ℕ → Option ℕ
  find_next_usable_block start b maxblocks =
      let rounded = (start + 63) / 64 * 64 in
      let end_goal = if ltb maxblocks rounded then maxblocks else rounded in
      let here = next_zero b end_goal start in
      if ltb 0 start && ltb here end_goal then some here else search_bytes start b maxblocks
