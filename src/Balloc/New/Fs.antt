-- ===== src/Balloc/New/Fs.antt =====
-- A file system that is in order (balloc.c): what kr_new_blocks relies on.
use k_rack.Common.{
  ℕ, ◌+◌, ◌-◌, ◌*◌, ◌%◌, ◌^◌, ◌≤◌, ◌<◌, ◌≡◌, refl, ◌≢◌, inl, inr, true, false, some, arith, leb→le,
  Bool-cases, Bitmap,
}
use k_rack.Super.{GroupDesc, SbInfo, get_group_desc, group_first_block_no}
use k_rack.Super.Counts.{Consistent, data_blocks}
use k_rack.Balloc.Free.{in_range, in_system_zone}

-- A block that holds data: it exists, and is none of those that its group's descriptor names.
pub record DataBlock (sb : SbInfo) (desc : GroupDesc) (block : ℕ) : Type 0 where
  pub exists : block < sb.s_blocks_count
  pub no_block_bitmap : block ≢ desc.bg_block_bitmap
  pub no_inode_bitmap : block ≢ desc.bg_inode_bitmap
  pub no_inode_table : in_range block desc.bg_inode_table sb.s_itb_per_group ≡ false

-- The counts agree with the bitmaps, and only blocks that hold data are free.
pub record FsOk (sb : SbInfo) : Type 0 where
  pub counts : Consistent data_blocks sb
  pub small : sb.s_blocks_count < 2 ^ 32
  pub some_groups : 0 < sb.s_groups_count
  pub covers : sb.s_blocks_count ≤ sb.s_first_data_block + sb.s_groups_count * sb.s_blocks_per_group
  pub free_data :
      (group k : ℕ) (desc : GroupDesc) (b : Bitmap)
      → get_group_desc sb group ≡ some desc
      → sb.bitmaps desc.bg_block_bitmap ≡ some b
      → k < sb.s_blocks_per_group
      → b k ≡ false
      → DataBlock sb desc (k + group_first_block_no sb group)

pub in_range_lem :
    (x block num : ℕ)
    → 1 ≤ num
    → block + num ≤ 2 ^ 64
    → in_range x block num ≡ true
    → (block ≤ x) × (x < block + num)
in_range_lem x block num one small e =
    let m : (block + num + 2 ^ 64 - 1) % 2 ^ 64 ≡ block + num - 1 = omega arith in
    (
      ground (arith, e, leb→le block x),
      omega (arith, m, leb→le x ((block + num + 2 ^ 64 - 1) % 2 ^ 64) (ground (arith, e))),
    )

-- Free blocks lie outside the system zone.
pub no_zone :
    (sb : SbInfo) (desc : GroupDesc) (block num : ℕ)
    → 1 ≤ num
    → block + num ≤ 2 ^ 64
    → ((x : ℕ) → block ≤ x → x < block + num → DataBlock sb desc x)
    → in_system_zone sb desc block num ≡ false
no_zone sb desc block num one small holds =
    let d0 = holds block (omega arith) (omega arith) in
    let d1 = holds (block + num - 1) (omega arith) (omega arith) in
    let bb : in_range desc.bg_block_bitmap block num ≡ false =
      elim (Bool-cases (in_range desc.bg_block_bitmap block num)) [
        | inr f ↦ f
        | inl t ↦
            let (l, h) = in_range_lem desc.bg_block_bitmap block num one small t in
            absurd ((holds desc.bg_block_bitmap l h).no_block_bitmap refl)
      ] in
    let ib : in_range desc.bg_inode_bitmap block num ≡ false =
      elim (Bool-cases (in_range desc.bg_inode_bitmap block num)) [
        | inr f ↦ f
        | inl t ↦
            let (l, h) = in_range_lem desc.bg_inode_bitmap block num one small t in
            absurd ((holds desc.bg_inode_bitmap l h).no_inode_bitmap refl)
      ] in
    ground (arith, bb, ib, d0.no_inode_table, d1.no_inode_table)
