-- ===== src/Tests/Windows.antt =====
-- The theorems on reservation windows and on kr_new_blocks, applied to the group of `Blocks` with
-- another file's window on blocks 4 to 7.
use k_rack.Common.{
  ◌^◌, ℕ, zero, suc, ◌+◌, ◌≤◌, ◌<◌, ◌≡◌, refl, ap, subst, ◌∙◌, ◌≢◌, ◌⊎◌, true, false, none, some,
  List, [], ◌∷◌, arith, ltb, ◌==◌, if◌then◌else◌, lt→ltb, ==_iff, Bitmap,
}
use k_rack.Super.{GroupDesc, get_group_desc, put_group_desc, group_first_block_no}
use k_rack.Balloc.Reserve.{
  ReserveNode, Tree, leaf, node, inorder, RbTree, Windows, search_reserve_window, find_gap,
}
use k_rack.Balloc.Reserve.Order.{Ordered}
use k_rack.Balloc.Reserve.Search.{
  RbLaws, successor, predecessor, remove, Preceding, search_reserve_window-Preceding,
}
use k_rack.Balloc.Reserve.Gap.{Gap, find_gap-Gap}
use k_rack.Balloc.Window.{alloc_new_reservation, try_to_extend_reservation, goal_block}
use k_rack.Balloc.Window.Ok.{WindowsOk}
use k_rack.Balloc.Window.Retry.{Ended}
use k_rack.Balloc.Window.Alloc.{alloc_new_reservation-Ended}
use k_rack.Balloc.Window.Extend.{Extended, try_to_extend_reservation-Extended}
use k_rack.Balloc.New.{
  Caller, has_free_blocks, error, allocated, new_blocks, retry_alloc, search_all, attempt, finish,
  take_blocks,
}
use k_rack.Balloc.New.Try.{try_to_allocate_with_rsv}
use k_rack.Balloc.New.Try.Laws.{TriedOk, try_to_allocate_with_rsv-TriedOk}
use k_rack.Balloc.New.Laws.{given_sb}
use k_rack.Balloc.New.Fs.{FsOk, DataBlock}
use k_rack.Balloc.Free.{free_blocks, read_block_bitmap}
use k_rack.Balloc.Free.Used.{block_used}
use k_rack.Balloc.Allocate.{
  try_to_allocate, allocation_range, first_goal, claim_in, claim_from, claim_run,
}
use k_rack.Balloc.New.Back.{new_blocks-free_blocks}
use k_rack.Balloc.New.Outcome.{NewOk, new_blocks-NewOk}
use k_rack.BlockMap.Alloc.Laws.{AllocLaws}
use k_rack.BlockMap.Alloc.Kr.{Space, used, kr_ops, InOrder, Counted, NoWindow, kr_laws}
use k_rack.Tests.Kernel.{next_zero, next_zero-FindsZero, memscan, memscan-ScansBytes}
use k_rack.Tests.Inodes.{sb, desc}
use k_rack.Tests.Blocks.{bitmap, sb-Consistent, three}

-- A tree that leans to the right keeps the order of its nodes.
abbrev from_list : List ℕ → Tree
from_list [] = leaf
from_list (x ∷ xs) = node leaf x (from_list xs)

inorder-from_list : (xs : List ℕ) → inorder (from_list xs) ≡ xs
inorder-from_list [] = refl
inorder-from_list (x ∷ xs) = ap (λ k. x ∷ k) (inorder-from_list xs)

abbrev rb : RbTree
rb = record {
  insert_color = λ t x. t;
  erase = λ t x. from_list (remove x (inorder t));
  next = λ t x. successor x (inorder t);
  prev = λ t x. predecessor none x (inorder t);
}

rb-RbLaws : RbLaws rb
rb-RbLaws = record {
  colored = λ t x. refl;
  erased = λ t x. inorder-from_list (remove x (inorder t));
  next_is = λ t x. refl;
  prev_is = λ t x. refl;
}

abbrev nodes : ℕ → ReserveNode
nodes k =
    if k == 2
    then record { rsv_start = 4; rsv_end = 7; rsv_goal_size = 4; rsv_alloc_hit = 1 }
    else record { rsv_start = 0; rsv_end = 0; rsv_goal_size = 8; rsv_alloc_hit = 0 }

-- The window 0 is that of no file, and window 1 is empty.
abbrev windows : Windows
windows = record { tree = node leaf 0 (node leaf 2 leaf); at = nodes }

windows-Ordered : Ordered nodes 0 (0 ∷ (2 ∷ []))
windows-Ordered = (omega arith, omega arith, (omega arith, omega arith, tt))

windows-WindowsOk : WindowsOk 0 windows
windows-WindowsOk = record {
  ordered = windows-Ordered;
  members = λ k ne. ground (arith, ==_iff k 0, ==_iff k 2);
  head_in = refl;
  head_start = refl;
  head_end = refl;
  sizes = λ k. ground (arith, ==_iff k 0, ==_iff k 2);
}

not_head : (k : ℕ) → 0 < k → k ≢ 0
not_head k l e = omega arith

search_reserve_window-Preceding_example :
    Preceding nodes 9 (0 ∷ (2 ∷ [])) (search_reserve_window rb windows 9)
search_reserve_window-Preceding_example =
    search_reserve_window-Preceding rb rb-RbLaws windows 9 0 windows-Ordered

find_gap-Gap_example :
    Gap nodes (0 ∷ (2 ∷ [])) (0 ∷ (2 ∷ [])) 8 16 1 (find_gap rb 2 windows 8 16 0 1)
find_gap-Gap_example =
    find_gap-Gap rb rb-RbLaws windows 8 16 0 (omega arith) (omega arith) windows-Ordered 2 0 1 []
      (2 ∷ []) (omega arith) refl (omega arith)

goal_in : (g : ℕ) → some 9 ≡ some g → g < 16
goal_in g e = ground arith

alloc_new_reservation-Ended_example :
    Ended rb rb-RbLaws 0 1
      (not_head 1 (omega arith))
      windows
      bitmap
      (group_first_block_no sb 0)
      (group_first_block_no sb 0 + 15)
      (goal_block (group_first_block_no sb 0) (some 9))
      (alloc_new_reservation rb next_zero sb windows 1 (some 9) 0 bitmap)
alloc_new_reservation-Ended_example =
    alloc_new_reservation-Ended rb rb-RbLaws 0 1 (not_head 1 (omega arith)) next_zero
      next_zero-FindsZero sb 0 bitmap windows (some 9) windows-WindowsOk (omega arith) (omega arith)
      goal_in

try_to_extend_reservation-Extended_example :
    Extended rb rb-RbLaws 0 2
      (not_head 2 (omega arith))
      windows
      3
      (try_to_extend_reservation rb windows 2 3)
try_to_extend_reservation-Extended_example =
    try_to_extend_reservation-Extended rb rb-RbLaws 0 2 (not_head 2 (omega arith)) windows 3
      windows-WindowsOk refl (omega arith)

try_to_allocate_with_rsv-TriedOk_example :
    TriedOk rb rb-RbLaws 0 1
      (not_head 1 (omega arith))
      next_zero
      memscan
      next_zero-FindsZero
      memscan-ScansBytes
      sb
      0
      bitmap
      3
      (omega arith)
      (omega arith)
      (omega arith)
      windows
      (try_to_allocate_with_rsv rb next_zero memscan sb 0 bitmap (some 9) windows (some 1) 3)
try_to_allocate_with_rsv-TriedOk_example =
    try_to_allocate_with_rsv-TriedOk rb rb-RbLaws 0 1 (not_head 1 (omega arith)) next_zero memscan
      next_zero-FindsZero memscan-ScansBytes sb 0 bitmap 3 (omega arith) (omega arith) (omega arith)
      windows (some 9) windows-WindowsOk goal_in

-- A free block of the group holds data.
free_data :
    (group k : ℕ) (d : GroupDesc) (b : Bitmap)
    → get_group_desc sb group ≡ some d
    → sb.bitmaps d.bg_block_bitmap ≡ some b
    → k < 16
    → b k ≡ false
    → DataBlock sb d (k + group_first_block_no sb group)
unfolding get_group_desc group_first_block_no
free_data zero k d b q m l e =
    let same : desc ≡ d = cc q in
    let map : bitmap ≡ b = cc (m, ap (λ (x : GroupDesc). sb.bitmaps x.bg_block_bitmap) same) in
    let clear : ltb k 8 ≡ false = ap (λ (x : Bitmap). x k) map ∙ e in
    let high : 8 ≤ k = ground (arith, clear, lt→ltb k 8) in
    subst (λ x. DataBlock sb x (k + 1)) same
      (record {
        exists = omega arith;
        no_block_bitmap = λ f. omega arith;
        no_inode_bitmap = λ f. omega arith;
        no_inode_table = ground (arith, high);
      })
free_data (suc g) k d b q m l e = absurd (ground (arith, q))

sb-FsOk : FsOk sb
sb-FsOk = record {
  counts = sb-Consistent;
  small = omega arith;
  some_groups = omega arith;
  covers = omega arith;
  free_data = free_data;
}

abbrev who : Caller
who = record { capable = false; resuid = false; root_gid = true; in_group = false }

new_blocks-NewOk_example :
    let r = new_blocks rb next_zero memscan sb windows who none (some 1) 10 3 in
    ((has_free_blocks sb who ≡ false) × (r ≡ error sb windows 28))
    ⊎ NewOk rb rb-RbLaws 0 1
        (not_head 1 (omega arith))
        next_zero
        memscan
        next_zero-FindsZero
        memscan-ScansBytes
        sb
        sb-FsOk
        windows
        3
        r
new_blocks-NewOk_example =
    new_blocks-NewOk rb rb-RbLaws 0 1 (not_head 1 (omega arith)) next_zero memscan
      next_zero-FindsZero memscan-ScansBytes sb sb-FsOk windows who true 10 3 windows-WindowsOk
      (omega arith) (omega arith)

-- Three blocks from block 10 on are given to a file without a window.
given :
    new_blocks rb next_zero memscan sb windows who none none 10 3
    ≡ allocated (given_sb sb 0 desc three.1 3) windows 10 3
unfolding new_blocks retry_alloc search_all attempt try_to_allocate_with_rsv try_to_allocate
    allocation_range first_goal claim_in claim_from claim_run finish take_blocks put_group_desc
    has_free_blocks get_group_desc read_block_bitmap group_first_block_no
given = refl

new_blocks-free_blocks_example :
    block_used (free_blocks (given_sb sb 0 desc three.1 3) 10 3) 11 ≡ block_used sb 11
new_blocks-free_blocks_example =
    new_blocks-free_blocks rb rb-RbLaws 0 1 (not_head 1 (omega arith)) next_zero memscan
      next_zero-FindsZero memscan-ScansBytes sb sb-FsOk windows windows who false 10 3
      (given_sb sb 0 desc three.1 3) 10 3 11 windows-WindowsOk (omega arith) (omega arith) given
      (omega arith)

kr_laws_example :
    AllocLaws Space
      (kr_ops rb 1 next_zero memscan who true)
      used
      (InOrder 0)
      Counted
      (NoWindow 1)
      (2 ^ 31)
kr_laws_example =
    kr_laws rb rb-RbLaws 0 1 (not_head 1 (omega arith)) next_zero memscan next_zero-FindsZero
      memscan-ScansBytes who true
