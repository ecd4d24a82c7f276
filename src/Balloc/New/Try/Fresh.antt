-- ===== src/Balloc/New/Try/Fresh.antt =====
-- The window that kr_try_to_allocate_with_rsv allocates from (balloc.c).
use k_rack.Common.{
  ℕ, ◌+◌, ◌-◌, ◌^◌, ◌≤◌, ◌<◌, ◌≡◌, refl, ap, subst, ◌∙◌, ◌≢◌, ◌⊎◌, inl, inr, Bool, true, false, not,
  ◌||◌, Option, none, some, arith, ltb, if◌then◌else◌, ltb→lt, lt→ltb, ==_iff, Bool-cases, Bitmap,
  FindsZero,
}
use k_rack.Super.{SbInfo, group_first_block_no}
use k_rack.Balloc.Search.Laws.{ScansBytes}
use k_rack.Balloc.Reserve.{
  ReserveNode, RbTree, Windows, rsv_is_empty, put_node, goal_in_my_reservation,
}
use k_rack.Balloc.Reserve.Search.{RbLaws}
use k_rack.Balloc.Window.{goal_block, try_to_extend_reservation}
use k_rack.Balloc.Window.Ok.{WindowsOk}
use k_rack.Balloc.Window.Keep.{keep_place-WindowsOk}
use k_rack.Balloc.Window.Alloc.{alloc_new_reservation-Ended}
use k_rack.Balloc.Window.Extend.{Extended, try_to_extend_reservation-Extended}
use k_rack.Balloc.New.Try.{Ready, ready, no_window, wanting, new_window, extended, get_window}

-- The goal, if there is one, is a block of the group.
abbrev pub GoalIn : SbInfo → Option ℕ → Type 0
GoalIn sb goal = (g : ℕ) → goal ≡ some g → g < sb.s_blocks_per_group

-- The window meets the group.
abbrev pub Meets : SbInfo → ℕ → ReserveNode → Type 0
Meets sb group n =
    (group_first_block_no sb group ≤ n.rsv_end)
    × (n.rsv_start < group_first_block_no sb group + sb.s_blocks_per_group)

goal_in_Meets :
    (n : ReserveNode) (goal : Option ℕ) (group : ℕ) (sb : SbInfo)
    → goal_in_my_reservation n goal group sb ≡ true
    → 0 < sb.s_blocks_per_group
    → Meets sb group n × ((g : ℕ) → goal ≡ some g → n.rsv_start ≤ g + group_first_block_no sb group)
unfolding goal_in_my_reservation
goal_in_Meets n goal group sb e p =
    let first = group_first_block_no sb group in
    let last = first + sb.s_blocks_per_group - 1 in
    (
      (ground (arith, lt→ltb n.rsv_end first), ground (arith, lt→ltb last n.rsv_start)),
      λ g q. ground (arith, q, lt→ltb (g + first) n.rsv_start),
    )

module _ (rb : RbTree) (laws : RbLaws rb) (head my : ℕ) (other : my ≢ head) where
  -- The windows are in order, and those of the other files as they were.
  abbrev pub Kept : Windows → Windows → Type 0
  Kept w w' = WindowsOk head w' × ((k : ℕ) → k ≢ my → w'.at k ≡ w.at k)

  module _ (next_zero scan : Bitmap → ℕ → ℕ → ℕ) (finds : FindsZero next_zero)
      (scans : ScansBytes scan) (sb : SbInfo) (group : ℕ) (b : Bitmap) (count : ℕ)
      (some_count : 0 < count) (small : count < 2 ^ 31)
      (some_blocks : 0 < sb.s_blocks_per_group) where
    -- A block of the window that is free and not before the goal.
    abbrev pub HasFree : ReserveNode → Option ℕ → Type 0
    HasFree n goal =
        (k : ℕ) × (b k ≡ false)
        × ((g : ℕ) → goal ≡ some g → g ≤ k)
        × (n.rsv_start ≤ k + group_first_block_no sb group)
        × (k + group_first_block_no sb group ≤ n.rsv_end)
        × (k < sb.s_blocks_per_group)

    -- What a search for a window comes to: `fresh` windows have a free block.
    abbrev pub Readied : Windows → Bool → Ready → Type 0
    Readied w fresh r =
        ((w' : Windows) × (r ≡ no_window w') × Kept w w')
        ⊎ ((w' : Windows) × (goal : Option ℕ) × (r ≡ ready w' goal)
            × Kept w w'
            × GoalIn sb goal
            × Meets sb group (w'.at my)
            × (fresh ≡ true → HasFree (w'.at my) goal))

    goal_kept : (t : Bool) (goal : Option ℕ) → GoalIn sb goal → GoalIn sb (if t then goal else none)
    goal_kept true goal inside = inside
    goal_kept false goal inside = λ g e. absurd (cc e)

    after_goal :
        (t : Bool) (goal : Option ℕ) (n : ReserveNode) (k : ℕ)
        → goal_in_my_reservation n goal group sb ≡ t
        → goal_block (group_first_block_no sb group) goal ≤ n.rsv_start
        → n.rsv_start ≤ k + group_first_block_no sb group
        → (g : ℕ) → (if t then goal else none) ≡ some g
        → g ≤ k
    after_goal true goal n k e l m g q =
        omega (arith, ap (goal_block (group_first_block_no sb group)) q)
    after_goal false goal n k e l m g q = absurd (cc q)

    new_window-Readied :
        (w : Windows) (fresh : Bool) (goal : Option ℕ)
        → WindowsOk head w
        → GoalIn sb goal
        → Readied w fresh (new_window rb next_zero scan sb group b count my w goal)
    unfolding new_window
    new_window-Readied w fresh goal ok inside =
        let first = group_first_block_no sb group in
        let n = wanting (w.at my) count in
        let w0 = put_node w my n in
        let ok0 =
          keep_place-WindowsOk rb laws head my other w n ok refl refl
            (ground (arith, ok.sizes my, ltb→lt (w.at my).rsv_goal_size count)) in
        let size : 0 < (w0.at my).rsv_goal_size =
          ground
            (arith, ltb→lt (w.at my).rsv_goal_size count, lt→ltb (w.at my).rsv_goal_size count) in
        elim (alloc_new_reservation-Ended rb laws head my other next_zero finds sb group b w0 goal
          ok0 size some_blocks inside) [
            | inl (w', e, ok', others) ↦
                inl
                  (w', ground (arith, e), (ok', λ k ne. others k ne ∙ ground (arith, ==_iff k my)))
            | inr (w', free, e, ok', others, full, origin, low, high, in_group, clear, _) ↦
                let t = goal_in_my_reservation (w'.at my) goal group sb in
                inr (
                  w',
                  (if t then goal else none),
                  ground (arith, e),
                  (ok', λ k ne. others k ne ∙ ground (arith, ==_iff k my)),
                  goal_kept t goal inside,
                  (omega arith, omega arith),
                  λ _. (
                    free,
                    clear,
                    after_goal t goal (w'.at my) free refl origin low,
                    low,
                    high,
                    omega arith,
                  ),
                )
          ]

    extended-Kept :
        (w : Windows) (goal : Option ℕ)
        → WindowsOk head w
        → rsv_is_empty (w.at my) ≡ false
        → let w' = extended rb next_zero scan sb group b count my w goal in
          Kept w w'
          × ((w'.at my).rsv_start ≡ (w.at my).rsv_start)
          × ((w.at my).rsv_end ≤ (w'.at my).rsv_end)
    unfolding extended
    extended-Kept w none ok full = ((ok, λ k _. refl), refl, omega arith)
    extended-Kept w (some g) ok full =
        let curr = (w.at my).rsv_end + 1 - (g + group_first_block_no sb group) in
        go (count - curr) (try_to_extend_reservation rb w my (count - curr)) (ltb curr count) (
          try_to_extend_reservation-Extended rb laws head my other w (count - curr) ok full
            (omega arith))
      where
        go :
            (size : ℕ) (u : Windows) (t : Bool)
            → Extended rb laws head my other w size u
            → let w' = if t then u else w in
              Kept w w'
              × ((w'.at my).rsv_start ≡ (w.at my).rsv_start)
              × ((w.at my).rsv_end ≤ (w'.at my).rsv_end)
        go _ u true (ok', same, more, _, others) = ((ok', others), same, more)
        go _ u false _ = ((ok, λ k _. refl), refl, omega arith)

    pub get_window-Readied :
        (w : Windows) (retried : Bool) (goal : Option ℕ)
        → WindowsOk head w
        → GoalIn sb goal
        → Readied w retried (get_window rb next_zero scan sb group b count my w retried goal)
    unfolding get_window
    get_window-Readied w retried goal ok inside =
        let new =
          rsv_is_empty (w.at my)
          || (retried || not (goal_in_my_reservation (w.at my) goal group sb)) in
        elim (Bool-cases new) [
          | inl yes_new ↦
              subst (Readied w retried) (ground (arith, yes_new))
                (new_window-Readied w retried goal ok inside)
          | inr old ↦
              let full : rsv_is_empty (w.at my) ≡ false = ground (arith, old) in
              let in_window : goal_in_my_reservation (w.at my) goal group sb ≡ true =
                ground (arith, old) in
              let ((low, high), _) = goal_in_Meets (w.at my) goal group sb in_window some_blocks in
              let (kept, same, more) = extended-Kept w goal ok full in
              inr (
                extended rb next_zero scan sb group b count my w goal,
                goal,
                ground (arith, old),
                kept,
                inside,
                (omega (arith, more), omega (arith, same)),
                λ r. absurd (ground (arith, old, r)),
              )
        ]
