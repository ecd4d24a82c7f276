-- ===== src/Ialloc/Uses.antt =====
-- The inode bitmaps as one map from inode numbers to use or no use (ialloc.c).
use k_rack.Common.{
  ℕ, ◌+◌, ◌-◌, ◌*◌, ◌/◌, ◌%◌, ◌<◌, ◌≡◌, ap, ◌∙◌, inl, inr, Bool, ◌&&◌, Option, none, some, arith,
  ◌==◌, if◌then◌else◌, Option-cases, Bitmap, write_bit, rem, quot,
}
use native.Mathlib.Nat.{div-add-mod'}
use native.Mathlib.Decide.{ℕ_discrete}
use k_rack.Super.{GroupDesc, SbInfo, get_group_desc}
use k_rack.Ialloc.Alloc.{read_inode_bitmap}
use k_rack.Super.Counts.{inodes, Consistent, Rewrites}

-- Whether the bit of inode `ino` is set, if its bitmap can be read.
unfoldable pub in_use : SbInfo → ℕ → Option Bool
in_use sb ino = elim (read_inode_bitmap sb ((ino - 1) / sb.s_inodes_per_group)) [
  | none ↦ none
  | some b ↦ some (b ((ino - 1) % sb.s_inodes_per_group))
]

-- Inode numbers start at 1.
pub same_ino :
    (n k bit g : ℕ)
    → 0 < k
    → bit < n
    → ((k - 1) / n == g && (k - 1) % n == bit) ≡ (k == bit + (g * n + 1))
same_ino n k bit g p l = elim (ℕ_discrete k (bit + (g * n + 1))) [
  | yes e ↦
      let before : k - 1 ≡ g * n + bit = omega (arith, e, p) in
      let q : (k - 1) / n ≡ g = ap (λ m. m / n) before ∙ quot n g bit l in
      let r : (k - 1) % n ≡ bit = ap (λ m. m % n) before ∙ rem n g bit l in ground (arith, q, r, e)
  | no ne ↦ ground (arith, split, ne)
]
  where
    split : (k - 1) / n ≡ g → (k - 1) % n ≡ bit → k ≡ bit + (g * n + 1)
    split q r = omega (arith, div-add-mod' (k - 1) n, ap (λ m. m * n) q, r, p)

Rewrites-read :
    (sb sb' : SbInfo) (g h : ℕ) (old desc : GroupDesc) (b : Bitmap)
    → Consistent inodes sb
    → get_group_desc sb g ≡ some old
    → desc.bg_inode_bitmap ≡ old.bg_inode_bitmap
    → Rewrites inodes sb sb' g desc b
    → read_inode_bitmap sb' h ≡ (if h == g then some b else read_inode_bitmap sb h)
unfolding read_inode_bitmap
Rewrites-read sb sb' g h old desc b c q same w = elim (ℕ_discrete h g) [
  | yes here ↦ ground (arith, w.descs h, w.maps desc.bg_inode_bitmap)
  | no other ↦ elim (Option-cases (get_group_desc sb h)) [
    | inl n ↦ ground (arith, w.descs h)
    | inr (d, n) ↦ ground (arith, w.descs h, w.maps d.bg_inode_bitmap, c.apart h g d old n q)
  ]
]

pub read_at :
    (sb : SbInfo) (g : ℕ) (desc : GroupDesc) (b : Bitmap)
    → get_group_desc sb g ≡ some desc
    → sb.bitmaps desc.bg_inode_bitmap ≡ some b
    → read_inode_bitmap sb g ≡ some b
unfolding read_inode_bitmap
read_at sb g desc b q m = ground arith

-- One bit of one group's bitmap is written.
pub Rewrites-in_use :
    (sb sb' : SbInfo) (g bit k : ℕ) (old desc : GroupDesc) (b : Bitmap) (v : Bool)
    → Consistent inodes sb
    → get_group_desc sb g ≡ some old
    → desc.bg_inode_bitmap ≡ old.bg_inode_bitmap
    → sb.bitmaps old.bg_inode_bitmap ≡ some b
    → bit < sb.s_inodes_per_group
    → Rewrites inodes sb sb' g desc (write_bit b bit v)
    → 0 < k
    → in_use sb' k ≡ (if k == bit + (g * sb.s_inodes_per_group + 1) then some v else in_use sb k)
unfolding in_use
Rewrites-in_use sb sb' g bit k old desc b v c q same m l w p =
    let n = sb.s_inodes_per_group in
    let here : read_inode_bitmap sb g ≡ some b = read_at sb g old b q m in
    ground (
      arith,
      w.per_group,
      Rewrites-read sb sb' g ((k - 1) / n) old desc (write_bit b bit v) c q same w,
      same_ino n k bit g p l,
      here,
    )
