-- ===== src/Balloc/New/Try.antt =====
-- kr_try_to_allocate_with_rsv (balloc.c): blocks claimed in a group, in the file's window if it has
-- one. `none` as the window is NULL, and `none` as the goal is -1.
pub mod Claim
pub mod Fresh
pub mod Laws
use k_rack.Common.{
  ℕ, zero, suc, ◌+◌, ◌-◌, ◌*◌, ◌/◌, ◌%◌, ◌^◌, ◌≤◌, ◌<◌, min, bit_and, ◌≡◌, refl, sym, ap, subst,
  ◌∙◌, ◌≢◌, ◌↔◌, ◌⊎◌, inl, inr, Bool, true, false, not, ◌&&◌, ◌||◌, Option, none, some, List, [],
  ◌∷◌, ◌++◌, arith, ltb, leb, ◌==◌, if◌then◌else◌, ltb→lt, lt→ltb, leb→le, le→leb, ==_iff,
  Bool-cases, Option-cases, length, get_elem?, get_or, set, take, drop, length-append, length-set,
  get_elem?-set_self, get_elem?-set_ne, sub32, sub32_lem, clear_flag, eperm, enoent, eio, eagain,
  enomem, eacces, efault, ebusy, eexist, einval, enotty, enospc, enametoolong, enotempty, ℤ, pos,
  negsuc, sub_ℕ, pos_part, neg_part, ◌+ℤ◌, Bitmap, write_bit, count_set, count_set-le,
  count_set-set, count_set-clear, count_set-ext, FindsZero, rem, quot, reach_place,
}
use k_rack.Super.{SbInfo, group_first_block_no}
use k_rack.Balloc.Allocate.{ReserveWindow, Claimed, bug as bug_on, blocks, fail, try_to_allocate}
use k_rack.Balloc.Reserve.{
  ReserveNode, RbTree, Windows, rsv_is_empty, put_node, goal_in_my_reservation,
}
use k_rack.Balloc.Window.{
  Reserved, reserved, refused, bug as not_placed, spent as not_ended, alloc_new_reservation,
  try_to_extend_reservation,
}

-- `failed` has the count that is left in `*count`, and `spent` is no answer of the code.
pub data Tried : Type 0 where
  failed : Windows → ℕ → Tried
  claimed : ℕ → ℕ → Bitmap → Windows → Tried
  bug spent : Tried

-- A window to allocate from, and the goal.
pub data Ready : Type 0 where
  no_window : Windows → Ready
  ready : Windows → Option ℕ → Ready
  bug spent : Ready

abbrev pub window_of : ReserveNode → ReserveWindow
window_of n = record { rsv_start = n.rsv_start; rsv_end = n.rsv_end }

-- `rsv_goal_size` has 32 bits.
abbrev pub wanting : ReserveNode → ℕ → ReserveNode
wanting n count = record n {
  rsv_goal_size = if ltb n.rsv_goal_size count then count % 2 ^ 32 else n.rsv_goal_size;
}

abbrev pub hit : ReserveNode → ℕ → ReserveNode
hit n num = record n { rsv_alloc_hit = (n.rsv_alloc_hit + num) % 2 ^ 32 }

abbrev pub outside_group : ReserveNode → ℕ → ℕ → Bool
outside_group n first last = ltb last n.rsv_start || ltb n.rsv_end first

module _ (rb : RbTree) (next_zero scan : Bitmap → ℕ → ℕ → ℕ) (sb : SbInfo) (group : ℕ) (b : Bitmap)
    (count : ℕ) (my : ℕ) where
  unfoldable pub new_window : Windows → Option ℕ → Ready
  new_window w goal =
      elim (alloc_new_reservation rb next_zero sb (put_node w my (wanting (w.at my) count)) my goal
        group b) [
          | not_placed ↦ bug
          | not_ended ↦ spent
          | refused w' ↦ no_window w'
          | reserved w' ↦
              ready w' (if goal_in_my_reservation (w'.at my) goal group sb then goal else none)
        ]

  -- With a goal in the window, a window that ends too early is extended; the number of blocks
  -- becomes an `int` there.
  unfoldable pub extended : Windows → Option ℕ → Windows
  extended w none = w
  extended w (some g) =
      let curr = (w.at my).rsv_end + 1 - (g + group_first_block_no sb group) in
      if ltb curr count then try_to_extend_reservation rb w my (count - curr) else w

  -- `retried` is `ret < 0`.
  unfoldable pub get_window : Windows → Bool → Option ℕ → Ready
  get_window w retried goal =
      if rsv_is_empty (w.at my) || (retried || not (goal_in_my_reservation (w.at my) goal group sb))
      then new_window w goal
      else ready (extended w goal) goal

  -- The loop `while (1)`.
  unfoldable pub try_in_window : ℕ → Windows → Bool → Option ℕ → Tried
  try_in_window zero w retried goal = spent
  try_in_window (suc fuel) w retried goal =
      let first = group_first_block_no sb group in
      elim (get_window w retried goal) [
        | bug ↦ bug
        | spent ↦ spent
        | no_window w' ↦ failed w' count
        | ready w' goal' ↦
            elim (outside_group (w'.at my) first (first + (sb.s_blocks_per_group - 1))) [
              | true ↦ bug
              | false ↦
                  elim (try_to_allocate next_zero scan sb group b goal' count
                    (some (window_of (w'.at my)))) [
                      | bug_on ↦ bug
                      | fail ↦ try_in_window fuel w' true goal'
                      | blocks at num b' ↦ claimed at num b' (put_node w' my (hit (w'.at my) num))
                    ]
            ]
      ]

module _ (rb : RbTree) (next_zero scan : Bitmap → ℕ → ℕ → ℕ) where
  -- A try without a window that fails leaves no block in `*count`.
  unfoldable pub try_to_allocate_with_rsv :
      SbInfo → ℕ → Bitmap → Option ℕ → Windows → Option ℕ → ℕ → Tried
  try_to_allocate_with_rsv sb group b grp_goal w none count =
      elim (try_to_allocate next_zero scan sb group b grp_goal count none) [
        | bug_on ↦ bug
        | fail ↦ failed w 0
        | blocks at num b' ↦ claimed at num b' w
      ]
  try_to_allocate_with_rsv sb group b grp_goal w (some my) count =
      try_in_window rb next_zero scan sb group b count my 2 w false grp_goal
