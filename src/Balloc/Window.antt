-- ===== src/Balloc/Window.antt =====
-- A file's own reservation window (balloc.c): find_next_reservable_window, alloc_new_reservation,
-- try_to_extend_reservation. The lock on the windows is free when it is tried.
pub mod Members
pub mod Ok
pub mod Laws
pub mod Retry
pub mod Alloc
pub mod Extend
pub mod Keep
use k_rack.Common.{
  add_int, int_le, ℕ, zero, suc, ◌+◌, ◌-◌, ◌*◌, ◌/◌, ◌%◌, ◌^◌, ◌≤◌, ◌<◌, min, bit_and, ◌≡◌, refl,
  sym, ap, subst, ◌∙◌, ◌≢◌, ◌↔◌, ◌⊎◌, inl, inr, Bool, true, false, not, ◌&&◌, ◌||◌, Option, none,
  some, List, [], ◌∷◌, ◌++◌, arith, ltb, leb, ◌==◌, if◌then◌else◌, ltb→lt, lt→ltb, leb→le, le→leb,
  ==_iff, Bool-cases, Option-cases, length, get_elem?, get_or, set, take, drop, length-append,
  length-set, get_elem?-set_self, get_elem?-set_ne, sub32, sub32_lem, clear_flag, eperm, enoent,
  eio, eagain, enomem, eacces, efault, ebusy, eexist, einval, enotty, enospc, enametoolong,
  enotempty, ℤ, pos, negsuc, sub_ℕ, pos_part, neg_part, ◌+ℤ◌, Bitmap, write_bit, count_set,
  count_set-le, count_set-set, count_set-clear, count_set-ext, FindsZero, rem, quot, reach_place,
}
use k_rack.Super.{SbInfo, group_first_block_no}
use k_rack.Balloc.Search.{bitmap_search_next_usable_block}
use k_rack.Balloc.Reserve.{
  ReserveNode, inorder, RbTree, Windows, max_reserve_blocks, rsv_is_empty, put_node,
  search_reserve_window, rsv_window_add, rsv_window_remove, find_gap,
}

-- `refused` is -1, and `spent` is no answer of the code.
pub data Reserved : Type 0 where
  reserved refused : Windows → Reserved
  bug spent : Reserved

-- The block to start from, given the goal in a group.
abbrev pub goal_block : ℕ → Option ℕ → ℕ
goal_block group_first none = group_first
goal_block group_first (some g) = g + group_first

-- The window crosses the group's end, and the goal lies in it.
abbrev pub crosses : ReserveNode → ℕ → ℕ → Bool
crosses n group_end start_block =
    leb n.rsv_start group_end && (ltb group_end n.rsv_end && leb n.rsv_start start_block)

-- A window that was used by more than half is doubled.
unfoldable pub grown : ReserveNode → ReserveNode
grown n =
    let doubled = n.rsv_goal_size * 2 in
    if ltb ((n.rsv_end + 1 - n.rsv_start) / 2) n.rsv_alloc_hit
    then record n {
      rsv_goal_size = if ltb max_reserve_blocks doubled then max_reserve_blocks else doubled;
    }
    else n

module _ (rb : RbTree) where
  -- The window `my` taken out of the tree if it stands elsewhere, and put behind `prev`.
  unfoldable pub without : Windows → ℕ → ℕ → Windows
  without w my prev =
      if not (prev == my) && not (rsv_is_empty (w.at my)) then rsv_window_remove rb w my else w

  -- The goal size is read into an `int`.
  unfoldable pub place_window : Windows → ℕ → ℕ → ℕ → Reserved
  place_window w my prev cur =
      let size = (w.at my).rsv_goal_size in
      let placed : ReserveNode = record {
        rsv_start = cur;
        rsv_end = add_int cur size - 1;
        rsv_goal_size = size;
        rsv_alloc_hit = 0;
      } in
      let w' = put_node (without w my prev) my placed in
      if prev == my
      then reserved w'
      else elim (rsv_window_add rb w' my) [ none ↦ bug | some w'' ↦ reserved w'' ]

  unfoldable pub find_next_reservable_window : Windows → Option ℕ → ℕ → ℕ → ℕ → Reserved
  find_next_reservable_window w none my start_block last_block = refused w
  find_next_reservable_window w (some rsv) my start_block last_block =
      elim (find_gap rb (length (inorder w.tree)) w (w.at my).rsv_goal_size last_block rsv
        start_block) [ none ↦ refused w | some (prev, cur) ↦ place_window w my prev cur ]

  -- A failure of alloc_new_reservation gives the window up.
  unfoldable pub give_up : Windows → ℕ → Reserved
  give_up w my = refused (if rsv_is_empty (w.at my) then w else rsv_window_remove rb w my)

  -- `retry`
  unfoldable pub reserve_from :
      (Bitmap → ℕ → ℕ → ℕ) → ℕ → Windows → Option ℕ → ℕ → Bitmap → ℕ → ℕ → ℕ → Reserved
  reserve_from next_zero zero w head my b group_first group_end start_block = spent
  reserve_from next_zero (suc fuel) w head my b group_first group_end start_block =
      elim (find_next_reservable_window w head my start_block group_end) [
        | bug ↦ bug
        | spent ↦ spent
        | refused w' ↦ give_up w' my
        | reserved w' ↦
            elim (bitmap_search_next_usable_block next_zero ((w'.at my).rsv_start - group_first) b
              (group_end - group_first + 1)) [
                | none ↦ give_up w' my
                | some free ↦
                    let start' = free + group_first in
                    let again =
                      reserve_from next_zero fuel w' (some my) my b group_first group_end start' in
                    if leb (w'.at my).rsv_start start' && leb start' (w'.at my).rsv_end
                    then reserved w'
                    else again
              ]
      ]

  unfoldable pub alloc_new_reservation :
      (Bitmap → ℕ → ℕ → ℕ) → SbInfo → Windows → ℕ → Option ℕ → ℕ → Bitmap → Reserved
  alloc_new_reservation next_zero sb w my grp_goal group b =
      let group_first = group_first_block_no sb group in
      let group_end = group_first + (sb.s_blocks_per_group - 1) in
      let start_block = goal_block group_first grp_goal in
      let n = w.at my in
      let w' = if rsv_is_empty n then w else put_node w my (grown n) in
      if not (rsv_is_empty n) && crosses n group_end start_block
      then refused w
      else reserve_from next_zero (sb.s_blocks_per_group + 1) w'
          (search_reserve_window rb w' start_block) my b group_first group_end start_block

  -- `size` is an `int`.
  unfoldable pub try_to_extend_reservation : Windows → ℕ → ℕ → Windows
  try_to_extend_reservation w my size =
      let n = w.at my in
      elim (rb.next w.tree my) [
        | none ↦ put_node w my (record n { rsv_end = add_int n.rsv_end size })
        | some next ↦
            let room = (w.at next).rsv_start - n.rsv_end - 1 in
            let end =
              if int_le size room then add_int n.rsv_end size else (w.at next).rsv_start - 1 in
            put_node w my (record n { rsv_end = end })
      ]
