-- ===== src/Ialloc/Groups.antt =====
-- Counting over the groups, and the choice of a group for a new inode: kr_count_free_inodes,
-- kr_count_dirs, find_group_dir, find_group_other (ialloc.c).
pub mod Laws
use k_rack.Common.{
  ℕ, zero, suc, ◌+◌, ◌-◌, ◌*◌, ◌/◌, ◌%◌, ◌^◌, ◌≤◌, ◌<◌, min, bit_and, ◌≡◌, refl, sym, ap, subst,
  ◌∙◌, ◌≢◌, ◌↔◌, ◌⊎◌, inl, inr, Bool, true, false, not, ◌&&◌, ◌||◌, Option, none, some, List, [],
  ◌∷◌, ◌++◌, arith, ltb, leb, ◌==◌, if◌then◌else◌, ltb→lt, lt→ltb, leb→le, le→leb, ==_iff,
  Bool-cases, Option-cases, length, get_elem?, get_or, set, take, drop, length-append, length-set,
  get_elem?-set_self, get_elem?-set_ne, sub32, sub32_lem, clear_flag, eperm, enoent, eio, eagain,
  enomem, eacces, efault, ebusy, eexist, einval, enotty, enospc, enametoolong, enotempty, ℤ, pos,
  negsuc, sub_ℕ, pos_part, neg_part, ◌+ℤ◌, Bitmap, write_bit, count_set, count_set-le,
  count_set-set, count_set-clear, FindsZero,
}
use mathlib.Core.Option
use k_rack.Super.{GroupDesc, SbInfo, get_group_desc}

-- The sum of a field over the groups from `i` on, `count` of them; a missing descriptor is skipped.
unfoldable pub count_groups : ℕ → SbInfo → (GroupDesc → ℕ) → ℕ → ℕ → ℕ
count_groups zero sb field i acc = acc
count_groups (suc count) sb field i acc = elim (get_group_desc sb i) [
  | none ↦ count_groups count sb field (i + 1) acc
  | some desc ↦ count_groups count sb field (i + 1) (acc + field desc)
]

pub count_free_inodes : SbInfo → ℕ
count_free_inodes sb = count_groups sb.s_groups_count sb (λ desc. desc.bg_free_inodes_count) 0 0

pub count_dirs : SbInfo → ℕ
count_dirs sb = count_groups sb.s_groups_count sb (λ desc. desc.bg_used_dirs_count) 0 0

-- What the choice reads of the parent directory.
pub record Parent : Type 0 where
  pub i_ino : ℕ
  pub i_flags : ℕ
  pub i_block_group : ℕ
  pub is_root : Bool

-- Whether a group can take the directory.
abbrev pub dir_fits : ℕ → GroupDesc → Bool
dir_fits avefreei desc =
    not (desc.bg_free_inodes_count == 0) && leb avefreei desc.bg_free_inodes_count

-- A group beats the best one so far, if there is one, by more free blocks.
abbrev pub beats : GroupDesc → Option (ℕ × GroupDesc) → Bool
beats desc none = true
beats desc (some (group, best)) = ltb best.bg_free_blocks_count desc.bg_free_blocks_count

unfoldable pub dir_from : ℕ → SbInfo → ℕ → ℕ → Option (ℕ × GroupDesc) → Option (ℕ × GroupDesc)
dir_from zero sb avefreei group best = best
dir_from (suc count) sb avefreei group best = elim (get_group_desc sb group) [
  | none ↦ dir_from count sb avefreei (group + 1) best
  | some desc ↦
      dir_from count sb avefreei (group + 1)
        (if dir_fits avefreei desc && beats desc best then some (group, desc) else best)
]

unfoldable pub find_group_dir : SbInfo → Option ℕ
find_group_dir sb =
    Option.map (λ (best : ℕ × GroupDesc). best.0)
      (dir_from sb.s_groups_count sb (count_free_inodes sb / sb.s_groups_count) 0 none)

abbrev pub wrap_group : ℕ → ℕ → ℕ
wrap_group ngroups group = if leb ngroups group then group - ngroups else group

-- Free inodes and free blocks.
unfoldable pub has_both : SbInfo → ℕ → Bool
has_both sb group = elim (get_group_desc sb group) [
  | none ↦ false
  | some desc ↦ not (desc.bg_free_inodes_count == 0) && not (desc.bg_free_blocks_count == 0)
]

unfoldable pub has_inodes : SbInfo → ℕ → Bool
has_inodes sb group = elim (get_group_desc sb group) [
  | none ↦ false
  | some desc ↦ not (desc.bg_free_inodes_count == 0)
]

-- The quadratic hash: steps of 1, 2, 4 and so on.
unfoldable pub hash_from : ℕ → SbInfo → ℕ → ℕ → Option ℕ
hash_from zero sb i group = none
hash_from (suc fuel) sb i group =
    let group' = wrap_group sb.s_groups_count (group + i) in
    let rest = hash_from fuel sb (i * 2) group' in
    if leb sb.s_groups_count i then none else if has_both sb group' then some group' else rest

-- The linear search.
unfoldable pub linear_from : ℕ → SbInfo → ℕ → Option ℕ
linear_from zero sb group = none
linear_from (suc count) sb group =
    let group' = if leb sb.s_groups_count (group + 1) then 0 else group + 1 in
    let rest = linear_from count sb group' in if has_inodes sb group' then some group' else rest

-- The step of the hash doubles, so that as many rounds as there are groups are enough.
unfoldable pub find_group_other : SbInfo → Parent → Option ℕ
find_group_other sb parent =
    let start = (parent.i_block_group + parent.i_ino) % sb.s_groups_count in
    let hashed = hash_from sb.s_groups_count sb 1 start in
    let linear = linear_from sb.s_groups_count sb parent.i_block_group in
    if has_both sb parent.i_block_group
    then some parent.i_block_group
    else elim hashed [ some group ↦ some group | none ↦ linear ]
