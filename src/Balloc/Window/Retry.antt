-- ===== src/Balloc/Window/Retry.antt =====
-- The rounds of alloc_new_reservation (balloc.c), each from the free block that the last one found.
use k_rack.Common.{
  ℕ, zero, suc, ◌+◌, ◌-◌, ◌≤◌, ◌<◌, ◌≡◌, refl, sym, ap, subst, ◌∙◌, ◌≢◌, ◌⊎◌, inl, inr, false, not,
  Option, none, some, List, ◌∷◌, ◌++◌, arith, leb, leb→le, le→leb, ==_iff, Bool-cases, length,
  length-append, Bitmap, FindsZero,
}
use k_rack.Balloc.Search.Laws.{search_next}
use k_rack.Balloc.Reserve.{inorder, RbTree, Windows, rsv_is_empty, rsv_window_remove, find_gap}
use k_rack.Balloc.Reserve.Search.{RbLaws}
use k_rack.Balloc.Reserve.Gap.{Gap, Room, find_gap-Gap}
use k_rack.Balloc.Window.{
  Reserved, reserved, refused, place_window, find_next_reservable_window, give_up, reserve_from,
}
use k_rack.Balloc.Window.Members.{elem_split}
use k_rack.Balloc.Window.Ok.{WindowsOk, rsv_window_remove-WindowsOk}
use k_rack.Balloc.Window.Laws.{Made, placed_node, place_window-Made}

-- A window of the tree from which the search for room can start.
abbrev pub Start : Windows → ℕ → ℕ → ℕ → Type 0
Start w size start_block rsv =
    (xs : List ℕ) × (ys : List ℕ) × (inorder w.tree ≡ xs ++ (rsv ∷ ys))
    × ((w.at rsv).rsv_start < start_block + size)

length_tail : (xs : List ℕ) (x : ℕ) (ys : List ℕ) → length ys < length (xs ++ (x ∷ ys))
length_tail xs x ys = omega (arith, length-append xs (x ∷ ys))

module _ (rb : RbTree) (laws : RbLaws rb) (head my : ℕ) (other : my ≢ head) where
  abbrev Found : Windows → ℕ → ℕ → Reserved → Type 0
  Found w start_block last_block r =
      (r ≡ refused w)
      ⊎ ((cur : ℕ) × Made rb laws head my other w r (placed_node w my cur)
          × (0 < cur)
          × (start_block ≤ cur)
          × (cur ≤ last_block))

  find_next-Found :
      (w : Windows) (rsv start_block last_block : ℕ)
      → WindowsOk head w
      → 0 < (w.at my).rsv_goal_size
      → Start w (w.at my).rsv_goal_size start_block rsv
      → Found w start_block last_block
          (find_next_reservable_window rb w (some rsv) my start_block last_block)
  unfolding find_next_reservable_window
  find_next-Found w rsv start_block last_block ok some_size (xs, ys, e, near) =
      let size = (w.at my).rsv_goal_size in
      let fuel = length (inorder w.tree) in
      by_gap (find_gap rb fuel w size last_block rsv start_block) (
        find_gap-Gap rb laws w size last_block 0 some_size (ok.sizes my) ok.ordered fuel rsv
          start_block xs ys (subst (λ l. length ys < length l) (sym e) (length_tail xs rsv ys)) e
          near)
    where
      by_gap :
          (o : Option (ℕ × ℕ))
          → Gap w.at (inorder w.tree) (rsv ∷ ys) (w.at my).rsv_goal_size last_block start_block o
          → Found w start_block last_block
              (elim o [ none ↦ refused w | some (prev, cur) ↦ place_window rb w my prev cur ])
      by_gap none g = inl refl
      by_gap (some (prev, cur)) (inl (f, _)) = absurd (cc f)
      by_gap (some (prev, cur)) (inr (prev', cur', f, room)) =
          let same : prev' ≡ prev = cc f in
          let same' : cur' ≡ cur = cc f in
          let room' : Room w.at (inorder w.tree) (w.at my).rsv_goal_size last_block start_block prev
              cur =
            subst
              (λ k.
                Room w.at (inorder w.tree) (w.at my).rsv_goal_size last_block start_block prev k)
              same'
              (subst
                (λ k.
                  Room w.at (inorder w.tree) (w.at my).rsv_goal_size last_block start_block k cur')
                same room) in
          let (_, _, _, behind, from, to, _) = room' in
          inr (
            cur,
            place_window-Made rb laws head my other w last_block start_block prev cur ok some_size
                room',
            omega arith,
            from,
            to,
          )

  -- How a reservation ends: it is refused and the others stay as they are, or the window is not
  -- empty starts no earlier than `origin` and holds a free block of the group.
  abbrev pub Ended : Windows → Bitmap → ℕ → ℕ → ℕ → Reserved → Type 0
  Ended w b group_first group_end origin r =
      ((w' : Windows) × (r ≡ refused w')
        × WindowsOk head w'
        × ((k : ℕ) → k ≢ my → w'.at k ≡ w.at k))
      ⊎ ((w' : Windows) × (free : ℕ) × (r ≡ reserved w')
          × WindowsOk head w'
          × ((k : ℕ) → k ≢ my → w'.at k ≡ w.at k)
          × (rsv_is_empty (w'.at my) ≡ false)
          × (origin ≤ (w'.at my).rsv_start)
          × ((w'.at my).rsv_start ≤ free + group_first)
          × (free + group_first ≤ (w'.at my).rsv_end)
          × (free + group_first ≤ group_end)
          × (b free ≡ false)
          × (0 < (w'.at my).rsv_goal_size))

  give_up-Ended :
      (w w0 : Windows) (b : Bitmap) (group_first group_end origin : ℕ)
      → WindowsOk head w
      → ((k : ℕ) → k ≢ my → w.at k ≡ w0.at k)
      → Ended w0 b group_first group_end origin (give_up rb w my)
  unfolding give_up rsv_window_remove
  give_up-Ended w w0 b group_first group_end origin ok others =
      elim (Bool-cases (rsv_is_empty (w.at my))) [
        | inl empty ↦ inl (w, ground (arith, empty), ok, others)
        | inr full ↦ inl (
          rsv_window_remove rb w my,
          ground (arith, full),
          rsv_window_remove-WindowsOk rb laws head my other w ok full,
          λ k ne. ground (arith, ==_iff k my, others k),
        )
      ]

  module _ (next_zero : Bitmap → ℕ → ℕ → ℕ) (finds : FindsZero next_zero) (b : Bitmap)
      (group_first group_end origin : ℕ) where
    pub reserve_from-Ended :
        (fuel : ℕ) (w w0 : Windows) (rsv start_block : ℕ)
        → WindowsOk head w
        → ((k : ℕ) → k ≢ my → w.at k ≡ w0.at k)
        → 0 < (w.at my).rsv_goal_size
        → Start w (w.at my).rsv_goal_size start_block rsv
        → group_first ≤ start_block
        → origin ≤ start_block
        → start_block ≤ group_end
        → group_end < fuel + start_block
        → Ended w0 b group_first group_end origin
            (reserve_from rb next_zero fuel w (some rsv) my b group_first group_end start_block)
    unfolding reserve_from
    reserve_from-Ended zero w w0 rsv start_block ok others some_size near low after high enough =
        absurd (omega arith)
    reserve_from-Ended (suc fuel) w w0 rsv start_block ok others some_size near low after high
          enough =
        let End = Ended w0 b group_first group_end origin in
        elim (find_next-Found w rsv start_block group_end ok some_size near) [
          | inl e ↦
              subst End (ground (arith, e))
                (give_up-Ended w w0 b group_first group_end origin ok others)
          | inr (cur, (w', e, ok', mine, others'), some_cur, from, to) ↦
              let start : (w'.at my).rsv_start ≡ cur = ap (λ n. n.rsv_start) mine in
              let end : (w'.at my).rsv_end ≡ cur + (w.at my).rsv_goal_size - 1 =
                ap (λ n. n.rsv_end) mine in
              let size : (w'.at my).rsv_goal_size ≡ (w.at my).rsv_goal_size =
                ap (λ n. n.rsv_goal_size) mine in
              let full : rsv_is_empty (w'.at my) ≡ false =
                ground (arith, end, ==_iff (w'.at my).rsv_end 0) in
              let kept = λ (k : ℕ) (ne : k ≢ my). others' k ne ∙ others k ne in
              let bits = group_end - group_first + 1 in
              elim (search_next next_zero finds ((w'.at my).rsv_start - group_first) b bits) [
                | inr (none_free, _) ↦
                    subst End (ground (arith, e, none_free))
                      (give_up-Ended w' w0 b group_first group_end origin ok' kept)
                | inl (free, found, above, below, clear) ↦
                    elim (Bool-cases (leb (free + group_first) (w'.at my).rsv_end)) [
                      | inl within ↦ inr (
                        w',
                        free,
                        ground (
                          arith,
                          e,
                          found,
                          within,
                          le→leb (w'.at my).rsv_start (free + group_first),
                        ),
                        ok',
                        kept,
                        full,
                        omega (arith, start),
                        omega (arith, start),
                        leb→le (free + group_first) (w'.at my).rsv_end within,
                        omega arith,
                        clear,
                        omega (arith, size),
                      )
                      | inr outside ↦
                          let (xs, ys, f) =
                            elem_split my (inorder w'.tree) (ok'.members my other ∙ ap not full) in
                          subst End (ground (arith, e, found, outside)) (
                            reserve_from-Ended fuel w' w0 my (free + group_first) ok' kept
                              (omega (arith, size)) (xs, ys, f, omega (arith, start, size))
                              (omega arith) (omega arith) (omega arith)
                              (ground (
                                arith,
                                start,
                                end,
                                le→leb (free + group_first) (w'.at my).rsv_end,
                              )))
                    ]
              ]
        ]
