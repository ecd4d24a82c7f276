-- ===== src/Balloc/New/Try/Laws.antt =====
-- kr_try_to_allocate_with_rsv (balloc.c): the loop ends, and a file's blocks come from its own
-- window.
use k_rack.Common.{
  ℕ, zero, suc, ◌+◌, ◌-◌, ◌^◌, ◌≤◌, ◌<◌, ◌≡◌, refl, sym, subst, ◌∙◌, ◌≢◌, ◌⊎◌, inl, inr, Bool, true,
  false, Option, some, arith, ltb→lt, ==_iff, Bool-cases, Bitmap, FindsZero,
}
use k_rack.Super.{SbInfo, group_first_block_no}
use k_rack.Balloc.Search.Laws.{ScansBytes}
use k_rack.Balloc.Allocate.{bug as bug_on, fail, blocks, try_to_allocate}
use k_rack.Balloc.Allocate.Run.{Claims}
use k_rack.Balloc.Allocate.Laws.{try_to_allocate-Claims}
use k_rack.Balloc.Reserve.{RbTree, Windows, put_node}
use k_rack.Balloc.Reserve.Search.{RbLaws}
use k_rack.Balloc.Window.Ok.{WindowsOk}
use k_rack.Balloc.Window.Keep.{keep_place-WindowsOk}
use k_rack.Balloc.New.Try.{
  Tried, failed, claimed, bug, window_of, hit, outside_group, try_in_window,
  try_to_allocate_with_rsv,
}
use k_rack.Balloc.New.Try.Fresh.{GoalIn, Meets, Kept, HasFree, get_window-Readied}
use k_rack.Balloc.New.Try.Claim.{try_to_allocate-Tries}

module _ (rb : RbTree) (laws : RbLaws rb) (head my : ℕ) (other : my ≢ head) where
  module _ (next_zero scan : Bitmap → ℕ → ℕ → ℕ) (finds : FindsZero next_zero)
      (scans : ScansBytes scan) (sb : SbInfo) (group : ℕ) (b : Bitmap) (count : ℕ)
      (some_count : 0 < count) (small : count < 2 ^ 31)
      (some_blocks : 0 < sb.s_blocks_per_group) where
    -- What the loop comes to: no window in the group, or free blocks of the file's window claimed.
    abbrev pub TriedOk : Windows → Tried → Type 0
    TriedOk w r =
        ((w' : Windows) × (r ≡ failed w' count) × Kept rb laws head my other w w')
        ⊎ ((at : ℕ) × (num : ℕ) × (b' : Bitmap) × (w' : Windows) × (r ≡ claimed at num b' w')
            × Kept rb laws head my other w w'
            × (1 ≤ num)
            × (num ≤ count)
            × (at + num ≤ sb.s_blocks_per_group)
            × Claims b b' at num
            × ((w'.at my).rsv_start ≤ at + group_first_block_no sb group)
            × (at + num + group_first_block_no sb group ≤ (w'.at my).rsv_end + 1))

    -- The window in hand is tried, and `rest` is what follows a failure.
    abbrev tried_then : Windows → Option ℕ → Tried → Tried
    tried_then w goal rest =
        let first = group_first_block_no sb group in
        elim (outside_group (w.at my) first (first + (sb.s_blocks_per_group - 1))) [
          | true ↦ bug
          | false ↦
              elim (try_to_allocate next_zero scan sb group b goal count
                (some (window_of (w.at my)))) [
                  | bug_on ↦ bug
                  | fail ↦ rest
                  | blocks at num b' ↦ claimed at num b' (put_node w my (hit (w.at my) num))
                ]
        ]

    tried_then-TriedOk :
        (w w' : Windows) (goal : Option ℕ) (rest : Tried)
        → Kept rb laws head my other w w'
        → GoalIn sb goal
        → Meets sb group (w'.at my)
        → ((HasFree rb laws head my other next_zero scan finds scans sb group b count some_count
                small some_blocks
                (w'.at my)
                goal
              → ⊥)
            → TriedOk w rest)
        → TriedOk w (tried_then w' goal rest)
    tried_then-TriedOk w w' goal rest (ok, others) inside (low, high) more =
        let first = group_first_block_no sb group in
        let n = w'.at my in
        let meets : outside_group n first (first + (sb.s_blocks_per_group - 1)) ≡ false = ground (
          arith,
          ltb→lt (first + (sb.s_blocks_per_group - 1)) n.rsv_start,
          ltb→lt n.rsv_end first,
        ) in
        elim (try_to_allocate-Tries next_zero scan finds scans sb group b goal count (window_of n)
          some_count low high inside) [
            | inl (e, taken) ↦ subst (TriedOk w) (ground (arith, meets, e)) (
                more (λ (k, clear, after, p, q, l). true_false (sym (taken k after p q l) ∙ clear)))
            | inr (at, num, b', e, one, fits, from, to) ↦
                let (_, most, _, claims) =
                  try_to_allocate-Claims next_zero scan finds scans sb group b b' goal count
                    (some (window_of n)) at num inside some_count e in
                inr (
                  at,
                  num,
                  b',
                  put_node w' my (hit n num),
                  ground (arith, meets, e),
                  (
                    keep_place-WindowsOk rb laws head my other w' (hit n num) ok refl refl
                        (ok.sizes my),
                    λ k ne. ground (arith, ==_iff k my, others k ne),
                  ),
                  one,
                  most,
                  fits,
                  claims,
                  ground (arith, from),
                  ground (arith, to),
                )
          ]
      where
        true_false : true ≡ false → ⊥
        true_false e = cc e

    -- A window that was found in this round has a free block, so no third round is needed.
    try_in_window-TriedOk :
        (fuel : ℕ) (w0 w : Windows) (retried : Bool) (goal : Option ℕ)
        → Kept rb laws head my other w0 w
        → GoalIn sb goal
        → (retried ≡ false → 1 < fuel)
        → 0 < fuel
        → TriedOk w0 (try_in_window rb next_zero scan sb group b count my fuel w retried goal)
    unfolding try_in_window
    try_in_window-TriedOk zero w0 w retried goal kept inside two one = absurd (omega arith)
    try_in_window-TriedOk (suc fuel) w0 w retried goal (ok, others) inside two one =
        elim (get_window-Readied rb laws head my other next_zero scan finds scans sb group b count
          some_count small some_blocks w retried goal ok inside) [
            | inl (w', e, (ok', others')) ↦
                inl (w', ground (arith, e), (ok', λ k ne. others' k ne ∙ others k ne))
            | inr (w', goal', e, (ok', others'), inside', meets, free) ↦
                let kept : Kept rb laws head my other w0 w' =
                  (ok', λ k ne. others' k ne ∙ others k ne) in
                subst (TriedOk w0) (ground (arith, e)) (
                  tried_then-TriedOk w0 w' goal'
                    (try_in_window rb next_zero scan sb group b count my fuel w' true goal') kept
                    inside' meets
                    (λ none_free. elim (Bool-cases retried) [
                      | inl again ↦ absurd (none_free (free again))
                      | inr once ↦
                          try_in_window-TriedOk fuel w0 w' true goal' kept inside'
                            (λ f. absurd (cc f)) (omega (arith, two once))
                    ]))
          ]

    -- With a working tree, bit search and byte search, the windows in order, a group that is not
    -- empty, a goal (if any) in the group and a count from 1 to below 2^31, a try in a file's
    -- window ends after at most two rounds, and never meets a BUG. Either no window is found, or
    -- blocks are claimed: at least one and at most as many as asked for, in the group and in the
    -- file's own window, that were free, and no other bit changes. The windows stay in order,
    -- and those of other files are as they were.
    pub try_to_allocate_with_rsv-TriedOk :
        (w : Windows) (goal : Option ℕ)
        → WindowsOk head w
        → GoalIn sb goal
        → TriedOk w (try_to_allocate_with_rsv rb next_zero scan sb group b goal w (some my) count)
    unfolding try_to_allocate_with_rsv
    try_to_allocate_with_rsv-TriedOk w goal ok inside =
        try_in_window-TriedOk 2 w w false goal (ok, λ k _. refl) inside (λ _. omega arith)
          (omega arith)
