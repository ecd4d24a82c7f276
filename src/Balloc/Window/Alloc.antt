-- ===== src/Balloc/Window/Alloc.antt =====
-- alloc_new_reservation (balloc.c): the new window meets no other one and has a free block.
use k_rack.Common.{
  ◌^◌, ℕ, ◌+◌, ◌-◌, ◌≤◌, ◌<◌, ◌≡◌, refl, subst, ◌≢◌, inl, inr, Option, none, some, arith, ==_iff,
  Bool-cases, Bitmap, FindsZero,
}
use k_rack.Super.{SbInfo, group_first_block_no}
use k_rack.Balloc.Reserve.{
  ReserveNode, inorder, RbTree, Windows, rsv_is_empty, put_node, search_reserve_window,
}
use k_rack.Balloc.Reserve.Search.{RbLaws, search_reserve_window-Preceding}
use k_rack.Balloc.Window.{goal_block, reserve_from, alloc_new_reservation, crosses, grown}
use k_rack.Balloc.Window.Members.{Above-elem}
use k_rack.Balloc.Window.Ok.{WindowsOk}
use k_rack.Balloc.Window.Keep.{keep_place-WindowsOk}
use k_rack.Balloc.Window.Retry.{Start, Ended, reserve_from-Ended}

-- The window's goal size is the only thing that `grown` changes.
grown-same :
    (n : ReserveNode) → ((grown n).rsv_start ≡ n.rsv_start) × ((grown n).rsv_end ≡ n.rsv_end)
unfolding grown
grown-same n = (ground arith, ground arith)

grown_small : (n : ReserveNode) → n.rsv_goal_size < 2 ^ 31 → (grown n).rsv_goal_size < 2 ^ 31
unfolding grown
grown_small n h = ground arith

grown_size : (n : ReserveNode) → 0 < n.rsv_goal_size → 0 < (grown n).rsv_goal_size
unfolding grown
grown_size n h = ground arith

module _ (rb : RbTree) (laws : RbLaws rb) (head my : ℕ) (other : my ≢ head) where
  module _ (next_zero : Bitmap → ℕ → ℕ → ℕ) (finds : FindsZero next_zero) (sb : SbInfo) (group : ℕ)
      (b : Bitmap) where
    -- The search starts at a window, since `head` starts at block 0.
    searched :
        (w : Windows) (start_block : ℕ)
        → WindowsOk head w
        → 0 < (w.at my).rsv_goal_size
        → (rsv : ℕ) × (search_reserve_window rb w start_block ≡ some rsv)
          × Start w (w.at my).rsv_goal_size start_block rsv
    searched w start_block ok some_size =
        elim (search_reserve_window-Preceding rb laws w start_block 0 ok.ordered) [
          | inl (e, above) ↦ absurd (
              cc (
                ok.head_in,
                Above-elem w.at start_block head (inorder w.tree) above
                    (omega (arith, ok.head_start)),
              ))
          | inr (r, xs, ys, e, f, l, above) ↦ (r, e, (xs, ys, f, omega arith))
        ]

    from_goal :
        (w w0 : Windows) (start_block : ℕ)
        → WindowsOk head w
        → ((k : ℕ) → k ≢ my → w.at k ≡ w0.at k)
        → 0 < (w.at my).rsv_goal_size
        → 0 < sb.s_blocks_per_group
        → group_first_block_no sb group ≤ start_block
        → start_block < group_first_block_no sb group + sb.s_blocks_per_group
        → Ended rb laws head my other w0 b
            (group_first_block_no sb group)
            (group_first_block_no sb group + (sb.s_blocks_per_group - 1))
            start_block
            (reserve_from rb next_zero
              (sb.s_blocks_per_group + 1)
              w
              (search_reserve_window rb w start_block)
              my
              b
              (group_first_block_no sb group)
              (group_first_block_no sb group + (sb.s_blocks_per_group - 1))
              start_block)
    from_goal w w0 start_block ok others some_size some_blocks low high =
        let first = group_first_block_no sb group in
        let (rsv, e, near) = searched w start_block ok some_size in
        rw e (
          reserve_from-Ended rb laws head my other next_zero finds b first
            (first + (sb.s_blocks_per_group - 1)) start_block (sb.s_blocks_per_group + 1) w w0 rsv
            start_block ok others some_size near low (omega arith) (omega arith) (omega arith))

    -- With a working tree and bit search, the windows in order (their goal sizes below 2^31), a
    -- group and a goal size that are not 0 and a goal (if any) within the group, a failure leaves
    -- the windows in order and all but this file's as they are. A success does too, and the file's
    -- new window is not empty, meets no other one, starts no earlier than the goal and holds a free
    -- block of the group.
    pub alloc_new_reservation-Ended :
        (w : Windows) (grp_goal : Option ℕ)
        → WindowsOk head w
        → 0 < (w.at my).rsv_goal_size
        → 0 < sb.s_blocks_per_group
        → ((g : ℕ) → grp_goal ≡ some g → g < sb.s_blocks_per_group)
        → Ended rb laws head my other w b
            (group_first_block_no sb group)
            (group_first_block_no sb group + (sb.s_blocks_per_group - 1))
            (goal_block (group_first_block_no sb group) grp_goal)
            (alloc_new_reservation rb next_zero sb w my grp_goal group b)
    unfolding alloc_new_reservation
    alloc_new_reservation-Ended w grp_goal ok some_size some_blocks in_group =
        let first = group_first_block_no sb group in
        let last = first + (sb.s_blocks_per_group - 1) in
        let n = w.at my in
        let start_block : ℕ = goal_block first grp_goal in
        let End = Ended rb laws head my other w b first last start_block in
        let (low, high) = goal_bounds grp_goal first in_group in
        elim (Bool-cases (rsv_is_empty n)) [
          | inl empty ↦
              subst End (ground (arith, empty))
                (from_goal w w start_block ok (λ k _. refl) some_size some_blocks low high)
          | inr full ↦ elim (Bool-cases (crosses n last start_block)) [
            | inl over ↦ inl (w, ground (arith, full, over), ok, λ k _. refl)
            | inr inside ↦ subst End (ground (arith, full, inside)) (
                from_goal (put_node w my (grown n)) w start_block
                  (keep_place-WindowsOk rb laws head my other w (grown n) ok (grown-same n).0
                    (grown-same n).1 (grown_small n (ok.sizes my)))
                  (λ k ne. ground (arith, ==_iff k my)) (ground (arith, grown_size n some_size))
                  some_blocks low high)
          ]
        ]
      where
        goal_bounds :
            (o : Option ℕ) (first : ℕ)
            → ((g : ℕ) → o ≡ some g → g < sb.s_blocks_per_group)
            → (first ≤ goal_block first o) × (goal_block first o < first + sb.s_blocks_per_group)
        goal_bounds none first h = (omega arith, omega arith)
        goal_bounds (some g) first h = (omega arith, omega (arith, h g refl))
