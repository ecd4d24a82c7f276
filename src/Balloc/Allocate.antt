-- ===== src/Balloc/Allocate.antt =====
-- kr_try_to_allocate (balloc.c): blocks claimed in one group's bitmap. `none` as the goal is the
-- code's -1.
pub mod Run
pub mod Laws
use k_rack.Common.{
  ℕ, zero, suc, ◌+◌, ◌-◌, ◌*◌, ◌/◌, ◌%◌, ◌^◌, ◌≤◌, ◌<◌, min, bit_and, ◌≡◌, refl, sym, ap, subst,
  ◌∙◌, ◌≢◌, ◌↔◌, ◌⊎◌, inl, inr, Bool, true, false, not, ◌&&◌, ◌||◌, Option, none, some, List, [],
  ◌∷◌, ◌++◌, arith, ltb, leb, ◌==◌, if◌then◌else◌, ltb→lt, lt→ltb, leb→le, le→leb, ==_iff,
  Bool-cases, Option-cases, length, get_elem?, get_or, set, take, drop, length-append, length-set,
  get_elem?-set_self, get_elem?-set_ne, sub32, sub32_lem, clear_flag, eperm, enoent, eio, eagain,
  enomem, eacces, efault, ebusy, eexist, einval, enotty, enospc, enametoolong, enotempty, ℤ, pos,
  negsuc, sub_ℕ, pos_part, neg_part, ◌+ℤ◌, Bitmap, write_bit, count_set, count_set-le,
  count_set-set, count_set-clear, FindsZero, rem, reach_place,
}
use k_rack.Super.{SbInfo, group_first_block_no}
use k_rack.Balloc.Search.{find_next_usable_block}

-- `struct kr_reserve_window`
pub record ReserveWindow : Type 0 where
  pub rsv_start : ℕ
  pub rsv_end : ℕ

-- The part of the group to allocate from, and the goal if it lies in it.
pub record Range : Type 0 where
  pub start : ℕ
  pub end : ℕ
  pub goal : Option ℕ

-- The end of a window before the group is a negative number, and so larger than the group when it
-- is compared with `s_blocks_per_group`.
abbrev pub window_end : ℕ → ℕ → ℕ → ℕ
window_end first per_group rsv_end =
    if ltb (rsv_end + 1) first
    then per_group
    else if ltb per_group (rsv_end + 1 - first)
    then per_group
    else rsv_end + 1 - first

unfoldable pub allocation_range : SbInfo → ℕ → Option ℕ → Option ReserveWindow → Range
allocation_range sb group grp_goal none = record {
  start = (elim grp_goal [ none ↦ 0 | some g ↦ g ]);
  end = sb.s_blocks_per_group;
  goal = grp_goal;
}
allocation_range sb group grp_goal (some w) =
    let first = group_first_block_no sb group in
    let low = if leb first w.rsv_start then w.rsv_start - first else 0 in
    let high = window_end first sb.s_blocks_per_group w.rsv_end in
    elim grp_goal [
      | none ↦ record { start = low; end = high; goal = none }
      | some g ↦
          if leb low g && ltb g high
          then record { start = g; end = high; goal = some g }
          else record { start = low; end = high; goal = none }
    ]

-- The loop back over at most `steps` clear bits.
unfoldable pub step_back : ℕ → Bitmap → ℕ → ℕ → ℕ
step_back zero b start goal = goal
step_back (suc steps) b start goal =
    let rest = step_back steps b start (goal - 1) in
    if ltb start goal && not (b (goal - 1)) then rest else goal

-- `repeat`: the first bit from the goal on that is clear; `none` is `fail_access`.
unfoldable pub claim_from : ℕ → Bitmap → ℕ → ℕ → Option ℕ
claim_from zero b end goal = none
claim_from (suc fuel) b end goal =
    let rest = claim_from fuel b end (goal + 1) in
    if b goal then (if leb end (goal + 1) then none else rest) else some goal

-- The blocks claimed so far and the bitmap, until `more` blocks are claimed or a bit is set.
unfoldable pub claim_run : ℕ → Bitmap → ℕ → ℕ → ℕ → ℕ × Bitmap
claim_run zero b end goal num = (num, b)
claim_run (suc more) b end goal num =
    let rest = claim_run more (write_bit b goal true) end (goal + 1) (num + 1) in
    if ltb goal end && not (b goal) then rest else (num, b)

-- `bug` is the BUG_ON; `fail` leaves the bitmap as it was, with no block claimed.
pub data Claimed : Type 0 where
  bug fail : Claimed
  blocks : ℕ → ℕ → Bitmap → Claimed

abbrev pub is_some {ℓ} : {A : Type ℓ} → Option A → Bool
is_some none = false
is_some (some _) = true

module _ (next_zero scan : Bitmap → ℕ → ℕ → ℕ) where
  unfoldable pub first_goal : Range → Bitmap → Bool → Option ℕ
  first_goal r b windowed = elim (r.goal) [
    | some g ↦ some g
    | none ↦ elim (find_next_usable_block next_zero scan r.start b r.end) [
      | none ↦ none
      | some g ↦ some (if windowed then g else step_back 7 b r.start g)
    ]
  ]

  unfoldable pub claim_in : Range → Bitmap → Bool → ℕ → Claimed
  claim_in r b windowed count = elim (first_goal r b windowed) [
    | none ↦ fail
    | some g ↦ elim (claim_from (r.end + 1) b r.end g) [
      | none ↦ fail
      | some at ↦
          let (num, b') = claim_run (count - 1) (write_bit b at true) r.end (at + 1) 1 in
          blocks at num b'
    ]
  ]

  unfoldable pub try_to_allocate :
      SbInfo → ℕ → Bitmap → Option ℕ → ℕ → Option ReserveWindow → Claimed
  try_to_allocate sb group b grp_goal count my_rsv =
      let r = allocation_range sb group grp_goal my_rsv in
      if ltb sb.s_blocks_per_group r.start then bug else claim_in r b (is_some my_rsv) count
