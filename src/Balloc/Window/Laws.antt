-- ===== src/Balloc/Window/Laws.antt =====
-- A file's reservation window never meets another one.
use k_rack.Common.{
  add_int_lem, ℕ, ◌+◌, ◌-◌, ◌<◌, ◌≡◌, refl, sym, ap, subst, ◌∙◌, ◌≢◌, inl, inr, true, false, not,
  List, ◌∷◌, ◌++◌, arith, ◌==◌, ==_iff, Bool-cases,
}
use k_rack.Balloc.Reserve.{
  ReserveNode, inorder, RbTree, Windows, rsv_is_empty, put_node, rsv_window_remove,
}
use k_rack.Balloc.Reserve.Order.{Ordered, Ordered-split, Below-weaken}
use k_rack.Balloc.Reserve.Place.{Clear, Clear-split}
use k_rack.Balloc.Reserve.Search.{RbLaws, remove, remove-at}
use k_rack.Balloc.Reserve.Gap.{Room}
use k_rack.Balloc.Window.{Reserved, reserved, without, place_window}
use k_rack.Balloc.Window.Members.{
  elem, elem-append, elem_split, put-Clear, Ordered-elem, Clear-join, Below-Clear, Above-Clear,
}
use k_rack.Balloc.Window.Ok.{WindowsOk, rsv_window_remove-WindowsOk, fill_ok, move_ok}

-- The room behind a window is clear of all windows.
Room-Clear :
    (at : ℕ → ReserveNode) (whole : List ℕ) (low size last_block cur prev cur' : ℕ)
    → Ordered at low whole
    → Room at whole size last_block cur prev cur'
    → Clear at cur' (cur' + size - 1) whole
Room-Clear at whole low size last_block cur prev cur' o (xs, ys, e, l, _, _, above) =
    let (_, below, _, m, _) = Ordered-split at low xs prev ys (subst (Ordered at low) e o) in
    subst (Clear at cur' (cur' + size - 1)) (sym e) (
      Clear-join at cur' (cur' + size - 1) xs (prev ∷ ys)
        (Below-Clear at cur' (cur' + size - 1) xs
          (Below-weaken at (at prev).rsv_start cur' xs (omega arith) below))
        (inl l, Above-Clear at cur' (cur' + size - 1) ys above))

-- The window of `my` that place_window makes.
abbrev pub placed_node : Windows → ℕ → ℕ → ReserveNode
placed_node w my cur = record {
  rsv_start = cur;
  rsv_end = cur + (w.at my).rsv_goal_size - 1;
  rsv_goal_size = (w.at my).rsv_goal_size;
  rsv_alloc_hit = 0;
}

module _ (rb : RbTree) (laws : RbLaws rb) (head my : ℕ) (other : my ≢ head) where
  -- The windows behind a reservation that was made.
  abbrev pub Made : Windows → Reserved → ReserveNode → Type 0
  Made w r n =
      (w' : Windows) × (r ≡ reserved w')
      × WindowsOk head w'
      × (w'.at my ≡ n)
      × ((k : ℕ) → k ≢ my → w'.at k ≡ w.at k)

  -- Before the window is filled: it is empty, and the room is still clear.
  abbrev Emptied : Windows → ℕ → ℕ → Windows → Type 0
  Emptied w s e w' =
      WindowsOk head w'
      × (rsv_is_empty (w'.at my) ≡ true)
      × Clear w'.at s e (inorder w'.tree)
      × ((k : ℕ) → k ≢ my → w'.at k ≡ w.at k)
      × ((w'.at my).rsv_goal_size ≡ (w.at my).rsv_goal_size)

  removed-Emptied :
      (w : Windows) (s e : ℕ)
      → WindowsOk head w
      → rsv_is_empty (w.at my) ≡ false
      → Clear w.at s e (inorder w.tree)
      → Emptied w s e (rsv_window_remove rb w my)
  unfolding rsv_window_remove
  removed-Emptied w s e ok full clear =
      let (xs, ys, f) = elem_split my (inorder w.tree) (ok.members my other ∙ ap not full) in
      let o : Ordered w.at 0 (xs ++ (my ∷ ys)) = subst (Ordered w.at 0) f ok.ordered in
      let (mx, my') = Ordered-elem w.at 0 my xs ys o in
      let list : inorder (rb.erase w.tree my) ≡ xs ++ ys =
        laws.erased w.tree my ∙ (ap (remove my) f ∙ remove-at w.at 0 my xs ys o) in
      let gone : elem my (xs ++ ys) ≡ false = ground (arith, elem-append my xs ys, mx, my') in
      let (cx, (_, cy)) = Clear-split w.at s e xs (my ∷ ys) (subst (Clear w.at s e) f clear) in
      (
        rsv_window_remove-WindowsOk rb laws head my other w ok full,
        ground arith,
        rw list (put-Clear w.at my _ s e (xs ++ ys) gone (Clear-join w.at s e xs ys cx cy)),
        λ k ne. ground (arith, ==_iff k my),
        ground arith,
      )

  without-Emptied :
      (w : Windows) (prev s e : ℕ)
      → WindowsOk head w
      → (prev == my) ≡ false
      → Clear w.at s e (inorder w.tree)
      → Emptied w s e (without rb w my prev)
  unfolding without
  without-Emptied w prev s e ok ne clear = elim (Bool-cases (rsv_is_empty (w.at my))) [
    | inl empty ↦
        subst (Emptied w s e) (ground (arith, ne, empty)) (ok, empty, clear, λ k _. refl, refl)
    | inr full ↦
        subst (Emptied w s e) (ground (arith, ne, full)) (removed-Emptied w s e ok full clear)
  ]

  -- In the room that was found the window is made.
  pub place_window-Made :
      (w : Windows) (last_block cur prev cur' : ℕ)
      → WindowsOk head w
      → 0 < (w.at my).rsv_goal_size
      → Room w.at (inorder w.tree) (w.at my).rsv_goal_size last_block cur prev cur'
      → Made w (place_window rb w my prev cur') (placed_node w my cur')
  unfolding place_window without
  place_window-Made w last_block cur prev cur' ok some_size (xs, ys, e, l, c, d, above) =
      elim (Bool-cases (prev == my)) [
        | inl same ↦
            let n = placed_node w my cur' in
            let here : prev ≡ my = (==_iff prev my).0 same in
            let f : inorder w.tree ≡ xs ++ (my ∷ ys) = e ∙ ap (λ k. xs ++ (k ∷ ys)) here in
            let (_, _, _, m, _) =
              Ordered-split w.at 0 xs my ys (subst (Ordered w.at 0) f ok.ordered) in
            let l' = subst (λ k. (w.at k).rsv_end < cur') here l in
            let exact = add_int_lem cur' (w.at my).rsv_goal_size (ok.sizes my) in
            (
              put_node w my n,
              ground (arith, exact, same),
              move_ok rb laws head my other w n xs ys ok f (omega arith) (omega arith) (omega arith)
                  above (ok.sizes my),
              ground arith,
              λ k ne. ground (arith, ==_iff k my),
            )
        | inr apart ↦
            let size = (w.at my).rsv_goal_size in
            let clear =
              Room-Clear w.at (inorder w.tree) 0 size last_block cur prev cur' ok.ordered
                (xs, ys, e, l, c, d, above) in
            let (ok', empty, clear', others, goal) =
              without-Emptied w prev cur' (cur' + size - 1) ok apart clear in
            let exact = add_int_lem cur' size (ok.sizes my) in
            let w' = without rb w my prev in
            let n = placed_node w my cur' in
            let (t, added, ok'') =
              fill_ok rb laws head my other w' n ok' empty (omega arith) (omega arith) clear'
                (ok.sizes my) in
            (
              record (put_node w' my n) { tree = t },
              ground (arith, exact, goal, apart, added),
              ok'',
              ground arith,
              λ k ne. ground (arith, ==_iff k my, others k),
            )
      ]
