-- ===== src/Balloc/Window/Ok.antt =====
-- The tree of windows is in order, and it holds a file's window exactly while it is not empty.
use k_rack.Common.{
  ◌^◌, ℕ, ◌≤◌, ◌<◌, ◌≡◌, ap, subst, ◌∙◌, ◌≢◌, true, false, not, some, List, ◌∷◌, ◌++◌, arith,
  ==_iff,
}
use k_rack.Balloc.Reserve.{
  ReserveNode, Tree, inorder, RbTree, Windows, rsv_is_empty, put_node, rsv_window_add,
  rsv_window_remove,
}
use k_rack.Balloc.Reserve.Order.{Ordered, Above, Ordered-split, Ordered-between, Below-weaken}
use k_rack.Balloc.Reserve.Place.{Clear, link-Linked}
use k_rack.Balloc.Reserve.Search.{RbLaws, remove, remove-at}
use k_rack.Balloc.Window.Members.{
  elem, elem-append, elem_split, put, put-Ordered, put-Clear, put-Below, put-Above, Ordered-elem,
  Ordered-drop,
}

-- Goal sizes are `int`s that are not negative. `head` is the window of no file that the tree starts
-- with.
pub record WindowsOk (head : ℕ) (w : Windows) : Type 0 where
  pub ordered : Ordered w.at 0 (inorder w.tree)
  pub members : (k : ℕ) → k ≢ head → elem k (inorder w.tree) ≡ not (rsv_is_empty (w.at k))
  pub head_in : elem head (inorder w.tree) ≡ true
  pub head_start : (w.at head).rsv_start ≡ 0
  pub head_end : (w.at head).rsv_end ≡ 0
  pub sizes : (k : ℕ) → (w.at k).rsv_goal_size < 2 ^ 31

module _ (rb : RbTree) (laws : RbLaws rb) (head my : ℕ) (other : my ≢ head) where
  -- A window is taken out.
  pub rsv_window_remove-WindowsOk :
      (w : Windows)
      → WindowsOk head w
      → rsv_is_empty (w.at my) ≡ false
      → WindowsOk head (rsv_window_remove rb w my)
  unfolding rsv_window_remove
  rsv_window_remove-WindowsOk w ok full =
      let (xs, ys, e) = elem_split my (inorder w.tree) (ok.members my other ∙ ap not full) in
      let o : Ordered w.at 0 (xs ++ (my ∷ ys)) = subst (Ordered w.at 0) e ok.ordered in
      let (mx, my') = Ordered-elem w.at 0 my xs ys o in
      let list : inorder (rb.erase w.tree my) ≡ xs ++ ys =
        laws.erased w.tree my ∙ (ap (remove my) e ∙ remove-at w.at 0 my xs ys o) in
      let gone : elem my (xs ++ ys) ≡ false = ground (arith, elem-append my xs ys, mx, my') in
      let rest = λ (k : ℕ). ap (elem k) list ∙ elem-append k xs ys in
      let whole = λ (k : ℕ). ap (elem k) e ∙ elem-append k xs (my ∷ ys) in
      record {
        ordered =
            rw list (put-Ordered w.at my _ 0 (xs ++ ys) gone (Ordered-drop w.at 0 my xs ys o));
        members = λ k ne. ground (arith, rest k, whole k, ok.members k ne, ==_iff k my, mx, my');
        head_in = ground (arith, rest head, whole head, ok.head_in, ==_iff head my);
        head_start = ground (arith, ==_iff head my, ok.head_start);
        head_end = ground (arith, ==_iff head my, ok.head_end);
        sizes = λ k. ground (arith, ok.sizes k, ok.sizes my, ==_iff k my);
      }

  -- An empty window is filled where no other window is.
  pub fill_ok :
      (w : Windows) (n : ReserveNode)
      → WindowsOk head w
      → rsv_is_empty (w.at my) ≡ true
      → 0 < n.rsv_end
      → n.rsv_start ≤ n.rsv_end
      → Clear w.at n.rsv_start n.rsv_end (inorder w.tree)
      → n.rsv_goal_size < 2 ^ 31
      → (t : Tree) × (rsv_window_add rb (put_node w my n) my
          ≡ some (record (put_node w my n) { tree = t }))
        × WindowsOk head (record (put_node w my n) { tree = t })
  unfolding rsv_window_add
  fill_ok w n ok empty pos_end le clear small =
      let absent : elem my (inorder w.tree) ≡ false = ok.members my other ∙ ap not empty in
      let at' = put w.at my n in
      let mine : at' my ≡ n = ground arith in
      let o = put-Ordered w.at my n 0 (inorder w.tree) absent ok.ordered in
      let c = put-Clear w.at my n n.rsv_start n.rsv_end (inorder w.tree) absent clear in
      let (t, xs, ys, linked, u, v, below, above) =
        link-Linked at' n.rsv_start n.rsv_end my 0 w.tree le o c in
      let t' = rb.insert_color t my in
      let list : inorder t' ≡ xs ++ (my ∷ ys) = laws.colored t my ∙ v in
      let here = λ (k : ℕ). ap (elem k) list ∙ elem-append k xs (my ∷ ys) in
      let before = λ (k : ℕ). ap (elem k) u ∙ elem-append k xs ys in
      (
        t',
        ground (arith, linked),
        record {
          ordered = rw list (
              Ordered-between at' 0 n.rsv_start n.rsv_end my xs ys (ap (λ x. x.rsv_start) mine)
                (ap (λ x. x.rsv_end) mine) (subst (Ordered at' 0) u o) (omega arith) le below
                above);
          members = λ k ne. ground (arith, here k, before k, ok.members k ne, ==_iff k my);
          head_in = ground (arith, here head, before head, ok.head_in);
          head_start = ground (arith, ==_iff head my, ok.head_start);
          head_end = ground (arith, ==_iff head my, ok.head_end);
          sizes = λ k. ground (arith, ok.sizes k, ok.sizes my, ==_iff k my);
        },
      )

  -- A window moves on within the room behind it.
  pub move_ok :
      (w : Windows) (n : ReserveNode) (xs ys : List ℕ)
      → WindowsOk head w
      → inorder w.tree ≡ xs ++ (my ∷ ys)
      → 0 < n.rsv_end
      → n.rsv_start ≤ n.rsv_end
      → (w.at my).rsv_start ≤ n.rsv_start
      → Above w.at n.rsv_end ys
      → n.rsv_goal_size < 2 ^ 31
      → WindowsOk head (put_node w my n)
  move_ok w n xs ys ok e pos_end le later above small =
      let at' = put w.at my n in
      let mine : at' my ≡ n = ground arith in
      let o : Ordered w.at 0 (xs ++ (my ∷ ys)) = subst (Ordered w.at 0) e ok.ordered in
      let (_, below, _, _, _) = Ordered-split w.at 0 xs my ys o in
      let (mx, my') = Ordered-elem w.at 0 my xs ys o in
      let gone : elem my (xs ++ ys) ≡ false = ground (arith, elem-append my xs ys, mx, my') in
      let whole = λ (k : ℕ). ap (elem k) e ∙ elem-append k xs (my ∷ ys) in
      record {
        ordered = rw e (
            Ordered-between at' 0 n.rsv_start n.rsv_end my xs ys (ap (λ x. x.rsv_start) mine)
              (ap (λ x. x.rsv_end) mine)
              (put-Ordered w.at my n 0 (xs ++ ys) gone (Ordered-drop w.at 0 my xs ys o))
              (omega arith) le
              (Below-weaken at' (w.at my).rsv_start n.rsv_start xs later
                (put-Below w.at my n (w.at my).rsv_start xs mx below))
              (put-Above w.at my n n.rsv_end ys my' above));
        members = λ k ne. ground (arith, whole k, ok.members k ne, ==_iff k my);
        head_in = ok.head_in;
        head_start = ground (arith, ==_iff head my, ok.head_start);
        head_end = ground (arith, ==_iff head my, ok.head_end);
        sizes = λ k. ground (arith, ok.sizes k, ok.sizes my, ==_iff k my);
      }
