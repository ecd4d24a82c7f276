-- ===== src/Balloc/Window/Extend.antt =====
-- try_to_extend_reservation and kr_discard_reservation (balloc.c): the windows stay in order.
use k_rack.Common.{
  ◌^◌, add_int, add_int_lem, int_le, int_le_lem, ℕ, ◌+◌, ◌-◌, ◌≤◌, ◌<◌, ◌≡◌, ap, subst, ◌∙◌, ◌≢◌,
  inl, inr, true, false, not, none, some, List, [], ◌∷◌, ◌++◌, arith, leb, if◌then◌else◌, leb→le,
  le→leb, ==_iff, Bool-cases,
}
use k_rack.Balloc.Reserve.{
  inorder, RbTree, Windows, rsv_is_empty, put_node, rsv_window_remove, discard_reservation,
}
use k_rack.Balloc.Reserve.Order.{Ordered, Above, Ordered-Above, Ordered-split}
use k_rack.Balloc.Reserve.Search.{RbLaws, head?, successor, successor-at}
use k_rack.Balloc.Window.{try_to_extend_reservation}
use k_rack.Balloc.Window.Members.{elem_split}
use k_rack.Balloc.Window.Ok.{WindowsOk, move_ok, rsv_window_remove-WindowsOk}

module _ (rb : RbTree) (laws : RbLaws rb) (head my : ℕ) (other : my ≢ head) where
  -- The window of `my` reaches further by at most `size` blocks, and the others are as they were.
  abbrev pub Extended : Windows → ℕ → Windows → Type 0
  Extended w size w' =
      WindowsOk head w'
      × ((w'.at my).rsv_start ≡ (w.at my).rsv_start)
      × ((w.at my).rsv_end ≤ (w'.at my).rsv_end)
      × ((w'.at my).rsv_end ≤ (w.at my).rsv_end + size)
      × ((k : ℕ) → k ≢ my → w'.at k ≡ w.at k)

  reach-Extended :
      (w : Windows) (size end : ℕ) (xs ys : List ℕ)
      → WindowsOk head w
      → rsv_is_empty (w.at my) ≡ false
      → inorder w.tree ≡ xs ++ (my ∷ ys)
      → (w.at my).rsv_end ≤ end
      → end ≤ (w.at my).rsv_end + size
      → Above w.at end ys
      → Extended w size (put_node w my (record (w.at my) { rsv_end = end }))
  reach-Extended w size end xs ys ok full e low high above =
      let (_, _, _, m, _) = Ordered-split w.at 0 xs my ys (subst (Ordered w.at 0) e ok.ordered) in
      (
        move_ok rb laws head my other w (record (w.at my) { rsv_end = end }) xs ys ok e
            (ground (arith, full)) (omega arith) (omega arith) above (ok.sizes my),
        ground arith,
        ground arith,
        ground arith,
        λ k ne. ground (arith, ==_iff k my),
      )

  -- With a working tree, the windows in order and a size below 2^31, a window that is not empty
  -- keeps its start, grows by at most `size` blocks and never shrinks; the other windows stay as
  -- they are, and none of them is met.
  pub try_to_extend_reservation-Extended :
      (w : Windows) (size : ℕ)
      → WindowsOk head w
      → rsv_is_empty (w.at my) ≡ false
      → size < 2 ^ 31
      → Extended w size (try_to_extend_reservation rb w my size)
  unfolding try_to_extend_reservation
  try_to_extend_reservation-Extended w size ok full small =
      let (xs, ys, e) = elem_split my (inorder w.tree) (ok.members my other ∙ ap not full) in
      let o : Ordered w.at 0 (xs ++ (my ∷ ys)) = subst (Ordered w.at 0) e ok.ordered in
      let next : rb.next w.tree my ≡ head? ys =
        laws.next_is w.tree my ∙ (ap (successor my) e ∙ successor-at w.at 0 my xs ys o) in
      by_next xs ys e o next
    where
      by_next :
          (xs ys : List ℕ)
          → inorder w.tree ≡ xs ++ (my ∷ ys)
          → Ordered w.at 0 (xs ++ (my ∷ ys))
          → rb.next w.tree my ≡ head? ys
          → Extended w size (elim (rb.next w.tree my) [
            | none ↦ put_node w my (record (w.at my) { rsv_end = add_int (w.at my).rsv_end size })
            | some next ↦
                let room = (w.at next).rsv_start - (w.at my).rsv_end - 1 in
                let end =
                  if int_le size room
                  then add_int (w.at my).rsv_end size
                  else (w.at next).rsv_start - 1 in
                put_node w my (record (w.at my) { rsv_end = end })
          ])
      by_next xs [] e o next =
          rw (next, add_int_lem (w.at my).rsv_end size small)
            (reach-Extended w size ((w.at my).rsv_end + size) xs [] ok full e (omega arith)
              (omega arith) tt)
      by_next xs (y ∷ ys) e o next =
          let (_, _, _, m, (p, q, or)) = Ordered-split w.at 0 xs my (y ∷ ys) o in
          let room = (w.at y).rsv_start - (w.at my).rsv_end - 1 in
          let end = if leb size room then (w.at my).rsv_end + size else (w.at y).rsv_start - 1 in
          let near : end < (w.at y).rsv_start = ground (arith, leb→le size room) in
          rw (next, int_le_lem size room small, add_int_lem (w.at my).rsv_end size small)
            (reach-Extended w size end xs (y ∷ ys) ok full e (ground (arith, leb→le size room))
              (ground (arith, le→leb size room))
              (near, Ordered-Above w.at end ((w.at y).rsv_end + 1) ys (omega arith) or))

  -- With a working tree and the windows in order, when a file gives its window up the windows
  -- stay in order, its own is empty and those of the other files are as they were; an empty
  -- window changes nothing.
  pub discard_reservation-WindowsOk :
      (w : Windows)
      → WindowsOk head w
      → WindowsOk head (discard_reservation rb w my)
        × (rsv_is_empty ((discard_reservation rb w my).at my) ≡ true)
        × ((k : ℕ) → k ≢ my → (discard_reservation rb w my).at k ≡ w.at k)
        × (rsv_is_empty (w.at my) ≡ true → discard_reservation rb w my ≡ w)
  unfolding discard_reservation rsv_window_remove
  discard_reservation-WindowsOk w ok = elim (Bool-cases (rsv_is_empty (w.at my))) [
    | inl empty ↦ (
      subst (WindowsOk head) (ground (arith, empty)) ok,
      ground (arith, empty),
      λ k ne. ground (arith, empty),
      λ _. ground (arith, empty),
    )
    | inr full ↦ (
      subst (WindowsOk head) (ground (arith, full))
          (rsv_window_remove-WindowsOk rb laws head my other w ok full),
      ground (arith, full),
      λ k ne. ground (arith, full, ==_iff k my),
      λ e. absurd (ground (arith, e, full)),
    )
  ]
