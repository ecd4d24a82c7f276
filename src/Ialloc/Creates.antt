-- ===== src/Ialloc/Creates.antt =====
-- A new inode's number was free, and the counts agree with the bitmaps after it (ialloc.c).
use k_rack.Common.{
  ℕ, ◌≤◌, ◌<◌, ◌≡◌, refl, sym, ap, subst, true, false, some, arith, ◌==◌, if◌then◌else◌, Bitmap,
  write_bit, count_set, count_set-le, count_set-set, FindsZero,
}
use k_rack.Super.{GroupDesc, SbInfo, get_group_desc}
use k_rack.Ialloc.Groups.{Parent}
use k_rack.Ialloc.Alloc.{Env, NewInode, created, new_inode}
use k_rack.Super.Counts.{inodes, Consistent, Rewrites-Consistent, GroupOk-count, one_less}
use k_rack.Ialloc.Uses.{in_use, Rewrites-in_use, read_at, same_ino}
use k_rack.Ialloc.Created.{taken, charged_desc, taken-Rewrites, new_inode-Taken}

pub taken-Consistent :
    (sb : SbInfo) (mode group : ℕ) (desc : GroupDesc) (b : Bitmap) (bit : ℕ)
    → Consistent inodes sb
    → get_group_desc sb group ≡ some desc
    → sb.bitmaps desc.bg_inode_bitmap ≡ some b
    → bit < sb.s_inodes_per_group
    → b bit ≡ false
    → Consistent inodes (taken sb mode group desc b bit)
taken-Consistent sb mode group desc b bit c q m l z =
    Rewrites-Consistent inodes sb (taken sb mode group desc b bit) group desc
      (charged_desc desc mode) (write_bit b bit true) c q refl
      (one_less sb.s_inodes_per_group desc.bg_free_inodes_count (count_set b sb.s_inodes_per_group)
        (count_set (write_bit b bit true) sb.s_inodes_per_group) c.small
        (GroupOk-count inodes sb group desc b c q m) (count_set-set b bit sb.s_inodes_per_group l z)
        (count_set-le (write_bit b bit true) sb.s_inodes_per_group))
      (taken-Rewrites sb mode group desc b bit c q)

-- With a working bit search and counts that agree with the bitmaps, they still agree after an inode
-- is created.
pub new_inode-Consistent :
    (next_zero : Bitmap → ℕ → ℕ → ℕ)
    → FindsZero next_zero
    → (sb sb' : SbInfo) (env : Env) (dir : Parent) (mode : ℕ) (i : NewInode) → Consistent inodes sb
    → new_inode next_zero sb env dir mode ≡ (sb', created i)
    → Consistent inodes sb'
new_inode-Consistent next_zero finds sb sb' env dir mode i c e =
    let (desc, b, bit, q, m, l, z, state, number, low, high) =
      new_inode-Taken next_zero finds sb sb' env dir mode i e in
    subst (Consistent inodes) (sym state)
      (taken-Consistent sb mode i.i_block_group desc b bit c q m l z)

-- With a working bit search and counts that agree with the bitmaps, the inode that is created has a
-- number in range that was not in use and is in use after, and the use of no other number changes.
pub new_inode-in_use :
    (next_zero : Bitmap → ℕ → ℕ → ℕ)
    → FindsZero next_zero
    → (sb sb' : SbInfo) (env : Env) (dir : Parent) (mode : ℕ) (i : NewInode) → Consistent inodes sb
    → new_inode next_zero sb env dir mode ≡ (sb', created i)
    → (sb.s_first_ino ≤ i.i_ino)
      × (i.i_ino ≤ sb.s_inodes_count)
      × (in_use sb i.i_ino ≡ some false)
      × ((k : ℕ) → 0 < k → in_use sb' k ≡ (if k == i.i_ino then some true else in_use sb k))
unfolding in_use
new_inode-in_use next_zero finds sb sb' env dir mode i c e =
    let (desc, b, bit, q, m, l, z, state, number, low, high) =
      new_inode-Taken next_zero finds sb sb' env dir mode i e in
    let g = i.i_block_group in
    let n = sb.s_inodes_per_group in
    (
      low,
      high,
      ground (arith, read_at sb g desc b q m, same_ino n i.i_ino bit g (omega arith) l),
      λ k p. ground (
        arith,
        ap (λ (s : SbInfo). in_use s k) state,
        Rewrites-in_use sb (taken sb mode g desc b bit) g bit k desc (charged_desc desc mode) b true
            c q refl m l (taken-Rewrites sb mode g desc b bit c q) p,
      ),
    )
