-- ===== src/Balloc/Window/Keep.antt =====
-- A window whose other fields change stays where it is among the windows (balloc.c).
use k_rack.Common.{
  ◌^◌, ◌<◌, ℕ, ◌+◌, ◌≡◌, sym, ap, subst, ◌∙◌, ◌≢◌, inl, inr, false, not, arith, ==_iff, Bool-cases,
}
use k_rack.Balloc.Reserve.{ReserveNode, inorder, RbTree, Windows, rsv_is_empty, put_node}
use k_rack.Balloc.Reserve.Order.{Ordered, Above, Ordered-Above, Ordered-split}
use k_rack.Balloc.Reserve.Search.{RbLaws}
use k_rack.Balloc.Window.Members.{elem, elem_split, put-Ordered}
use k_rack.Balloc.Window.Ok.{WindowsOk, move_ok}

module _ (rb : RbTree) (laws : RbLaws rb) (head my : ℕ) (other : my ≢ head) where
  pub keep_place-WindowsOk :
      (w : Windows) (n : ReserveNode)
      → WindowsOk head w
      → n.rsv_start ≡ (w.at my).rsv_start
      → n.rsv_end ≡ (w.at my).rsv_end
      → n.rsv_goal_size < 2 ^ 31
      → WindowsOk head (put_node w my n)
  keep_place-WindowsOk w n ok s t small = elim (Bool-cases (rsv_is_empty (w.at my))) [
    | inl empty ↦
        let absent : elem my (inorder w.tree) ≡ false = ok.members my other ∙ ap not empty in
        record {
          ordered = put-Ordered w.at my n 0 (inorder w.tree) absent ok.ordered;
          members = λ k ne. ground (
            arith,
            ok.members k ne,
            ==_iff k my,
            t,
            absent,
            empty,
            ap (λ x. elem x (inorder w.tree)) {x = k} {y = my},
          );
          head_in = ok.head_in;
          head_start = ground (arith, ==_iff head my, ok.head_start);
          head_end = ground (arith, ==_iff head my, ok.head_end);
          sizes = λ k. ground (arith, ok.sizes k, ==_iff k my);
        }
    | inr full ↦
        let (xs, ys, e) = elem_split my (inorder w.tree) (ok.members my other ∙ ap not full) in
        let (_, _, _, m, o) = Ordered-split w.at 0 xs my ys (subst (Ordered w.at 0) e ok.ordered) in
        move_ok rb laws head my other w n xs ys ok e (ground (arith, t, full)) (omega (arith, s, t))
          (omega (arith, s))
          (subst (λ k. Above w.at k ys) (sym t)
            (Ordered-Above w.at (w.at my).rsv_end ((w.at my).rsv_end + 1) ys (omega arith) o))
          small
  ]
