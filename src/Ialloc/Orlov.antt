-- ===== src/Ialloc/Orlov.antt =====
-- Orlov's allocator for directories: find_group_orlov (ialloc.c). Where the code compares an
-- unsigned count with a difference that may be negative, the truncated difference decides alike.
pub mod Laws
use k_rack.Common.{
  ℕ, zero, suc, ◌+◌, ◌-◌, ◌*◌, ◌/◌, ◌%◌, ◌^◌, ◌≤◌, ◌<◌, min, bit_and, ◌≡◌, refl, sym, ap, subst,
  ◌∙◌, ◌≢◌, ◌↔◌, ◌⊎◌, inl, inr, Bool, true, false, not, ◌&&◌, ◌||◌, Option, none, some, List, [],
  ◌∷◌, ◌++◌, arith, ltb, leb, ◌==◌, if◌then◌else◌, ltb→lt, lt→ltb, leb→le, le→leb, ==_iff,
  Bool-cases, Option-cases, length, get_elem?, get_or, set, take, drop, length-append, length-set,
  get_elem?-set_self, get_elem?-set_ne, sub32, sub32_lem, clear_flag, eperm, enoent, eio, eagain,
  enomem, eacces, efault, ebusy, eexist, einval, enotty, enospc, enametoolong, enotempty, ℤ, pos,
  negsuc, sub_ℕ, pos_part, neg_part, ◌+ℤ◌, Bitmap, write_bit, count_set, count_set-le,
  count_set-set, count_set-clear, FindsZero,
}
use k_rack.Super.{GroupDesc, SbInfo, get_group_desc}
use k_rack.Ialloc.Groups.{Parent, has_inodes}

abbrev pub topdir_fl : ℕ
topdir_fl = 0x20000

abbrev pub inode_cost : ℕ
inode_cost = 64

abbrev pub block_cost : ℕ
block_cost = 256

-- `percpu_counter_read_positive`
abbrev pub read_positive : ℤ → ℕ
read_positive c = pos_part c

-- `(parent_group + i) % ngroups` for the rounds from `i` on, the first group that passes a test.
unfoldable pub cycle_from : ℕ → SbInfo → (ℕ → GroupDesc → Bool) → ℕ → ℕ → Option ℕ
cycle_from zero sb test parent_group i = none
cycle_from (suc count) sb test parent_group i =
    let group = (parent_group + i) % sb.s_groups_count in
    let rest = cycle_from count sb test parent_group (i + 1) in
    elim (get_group_desc sb group) [
      | none ↦ rest
      | some desc ↦
          if not (desc.bg_free_inodes_count == 0) && test group desc then some group else rest
    ]

-- The least used of the groups that are no worse than average.
unfoldable pub spread_from : ℕ → SbInfo → ℕ → ℕ → ℕ → ℕ → Option ℕ → ℕ → Option ℕ
spread_from zero sb avefreei avefreeb parent_group best_ndir best i = best
spread_from (suc count) sb avefreei avefreeb parent_group best_ndir best i =
    let group = (parent_group + i) % sb.s_groups_count in
    let skip = spread_from count sb avefreei avefreeb parent_group best_ndir best (i + 1) in
    elim (get_group_desc sb group) [
      | none ↦ skip
      | some desc ↦
          let take_it =
            spread_from count sb avefreei avefreeb parent_group desc.bg_used_dirs_count (some group)
              (i + 1) in
          if desc.bg_free_inodes_count == 0
          then skip
          else if leb best_ndir desc.bg_used_dirs_count
          then skip
          else if ltb desc.bg_free_inodes_count avefreei
          then skip
          else if ltb desc.bg_free_blocks_count avefreeb
          then skip
          else take_it
    ]

-- The limits that a group below the top must keep.
pub record Limits : Type 0 where
  pub max_debt : ℕ
  pub max_dirs : ℕ
  pub min_inodes : ℕ
  pub min_blocks : ℕ

unfoldable pub limits : SbInfo → Limits
limits sb =
    let ngroups = sb.s_groups_count in
    let avefreei = read_positive sb.s_freeinodes_counter / ngroups in
    let free_blocks = read_positive sb.s_freeblocks_counter in
    let avefreeb = free_blocks / ngroups in
    let dirs = read_positive sb.s_dirs_counter in
    let ndirs = if dirs == 0 then 1 else dirs in
    let blocks_per_dir = sub32 sb.s_blocks_count free_blocks / ndirs in
    let debt0 =
      sb.s_blocks_per_group
      / (if ltb blocks_per_dir block_cost then block_cost else blocks_per_dir) in
    let debt1 =
      if ltb sb.s_inodes_per_group (debt0 * inode_cost)
      then sb.s_inodes_per_group / inode_cost
      else debt0 in
    let debt2 = if ltb 255 debt1 then 255 else debt1 in
    record {
      max_debt = if debt2 == 0 then 1 else debt2;
      max_dirs = ndirs / ngroups + sb.s_inodes_per_group / 16;
      min_inodes = avefreei - sb.s_inodes_per_group / 4;
      min_blocks = avefreeb - sb.s_blocks_per_group / 4;
    }

unfoldable pub keeps_limits : SbInfo → Limits → ℕ → GroupDesc → Bool
keeps_limits sb l group desc =
    ltb (sb.s_debts group) l.max_debt
    && (ltb desc.bg_used_dirs_count l.max_dirs
        && (leb l.min_inodes desc.bg_free_inodes_count
            && leb l.min_blocks desc.bg_free_blocks_count))

-- `fallback`: no fewer free inodes than average, then any.
unfoldable pub fallback : SbInfo → ℕ → ℕ → Option ℕ
fallback sb avefreei parent_group =
    elim (cycle_from sb.s_groups_count sb (λ group desc. leb avefreei desc.bg_free_inodes_count)
      parent_group 0) [
        | some group ↦ some group
        | none ↦
            if avefreei == 0
            then none
            else cycle_from sb.s_groups_count sb (λ group desc. leb 0 desc.bg_free_inodes_count)
                parent_group 0
      ]

-- `rand` is the number from `prandom_u32`.
unfoldable pub find_group_orlov : SbInfo → Parent → ℕ → Option ℕ
find_group_orlov sb parent rand =
    let ngroups = sb.s_groups_count in
    let avefreei = read_positive sb.s_freeinodes_counter / ngroups in
    let avefreeb = read_positive sb.s_freeblocks_counter / ngroups in
    let best =
      spread_from ngroups sb avefreei avefreeb (rand % ngroups) sb.s_inodes_per_group none 0 in
    let near = cycle_from ngroups sb (keeps_limits sb (limits sb)) parent.i_block_group 0 in
    if parent.is_root || not (bit_and parent.i_flags topdir_fl == 0)
    then elim best [ some group ↦ some group | none ↦ fallback sb avefreei (rand % ngroups) ]
    else elim near [ some group ↦ some group | none ↦ fallback sb avefreei parent.i_block_group ]
