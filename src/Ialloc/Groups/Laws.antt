-- ===== src/Ialloc/Groups/Laws.antt =====
-- What the choice of a group guarantees (ialloc.c).
use k_rack.Common.{
  ℕ, zero, suc, ◌+◌, ◌*◌, ◌/◌, ◌%◌, ◌≤◌, ◌<◌, ◌≡◌, ◌≢◌, ◌↔◌, sym, ap, ◌∙◌, ◌⊎◌, inl, inr, true,
  false, ◌&&◌, Option, none, some, arith, ltb, leb, if◌then◌else◌, Bool-cases, Option-cases,
}
use native.Mathlib.Nat.{mod-lt}
use mathlib.Core.Option
use k_rack.Super.{GroupDesc, SbInfo, get_group_desc}
use k_rack.Ialloc.Groups.{
  Parent, dir_fits, beats, dir_from, find_group_dir, count_free_inodes, has_both, has_inodes,
  hash_from, linear_from, find_group_other, wrap_group,
}

-- A group that has a free inode.
has_both→has_inodes : (sb : SbInfo) (g : ℕ) → has_both sb g ≡ true → has_inodes sb g ≡ true
unfolding has_both has_inodes
has_both→has_inodes sb g h = ground arith

hash_from_sound :
    (fuel : ℕ) (sb : SbInfo) (i group g : ℕ)
    → group < sb.s_groups_count
    → hash_from fuel sb i group ≡ some g
    → (g < sb.s_groups_count) × (has_inodes sb g ≡ true)
unfolding hash_from
hash_from_sound zero sb i group g h e = absurd (cc)
hash_from_sound (suc fuel) sb i group g h e = ground (
  arith,
  has_both→has_inodes sb g,
  hash_from_sound fuel sb (i * 2) (wrap_group sb.s_groups_count (group + i)) g,
)

linear_from_sound :
    (count : ℕ) (sb : SbInfo) (group g : ℕ)
    → 0 < sb.s_groups_count
    → linear_from count sb group ≡ some g
    → (g < sb.s_groups_count) × (has_inodes sb g ≡ true)
unfolding linear_from
linear_from_sound zero sb group g h e = absurd (cc)
linear_from_sound (suc count) sb group g h e = ground (
  arith,
  linear_from_sound count sb (if leb sb.s_groups_count (group + 1) then 0 else group + 1) g,
)

-- The groups behind `group` up to the last, then those from 0 on, `count` in all.
linear_from_complete :
    (count : ℕ) (sb : SbInfo) (group g : ℕ)
    → group < sb.s_groups_count
    → g < sb.s_groups_count
    → linear_from count sb group ≡ none
    → ((group < g) × (g ≤ group + count)) ⊎ (g + sb.s_groups_count ≤ group + count)
    → has_inodes sb g ≡ false
unfolding linear_from
linear_from_complete zero sb group g h k e (inl d) = absurd (omega arith)
linear_from_complete zero sb group g h k e (inr d) = absurd (omega arith)
linear_from_complete (suc count) sb group g h k e d = ground (
  arith,
  ap (has_inodes sb) {x = g} {y = if leb sb.s_groups_count (group + 1) then 0 else group + 1},
  linear_from_complete count sb (if leb sb.s_groups_count (group + 1) then 0 else group + 1) g,
)

-- For a parent in an existing group, `find_group_other` gives an existing group that has a free
-- inode, and it gives none only if no group has one.
pub find_group_other_total :
    (sb : SbInfo) (parent : Parent)
    → parent.i_block_group < sb.s_groups_count
    → ((g : ℕ)
        → find_group_other sb parent ≡ some g
        → (g < sb.s_groups_count) × (has_inodes sb g ≡ true))
      × (find_group_other sb parent ≡ none
          → (g : ℕ) → g < sb.s_groups_count
          → has_inodes sb g ≡ false)
unfolding find_group_other
find_group_other_total sb parent h = (
  λ g e. ground (
    arith,
    has_both→has_inodes sb g,
    hash_from_sound sb.s_groups_count sb 1
        ((parent.i_block_group + parent.i_ino) % sb.s_groups_count) g,
    mod-lt (parent.i_block_group + parent.i_ino) {m = sb.s_groups_count} (omega arith),
    linear_from_sound sb.s_groups_count sb parent.i_block_group g,
  ),
  λ e g k. ground (arith, linear_from_complete sb.s_groups_count sb parent.i_block_group g h k),
)

-- The choice among the groups: at each step the best so far is one of the groups that fit.
abbrev Chosen : SbInfo → ℕ → Option (ℕ × GroupDesc) → Type 0
Chosen sb avefreei none = Unit {0}
Chosen sb avefreei (some (g, desc)) =
    (g < sb.s_groups_count) × (get_group_desc sb g ≡ some desc) × (dir_fits avefreei desc ≡ true)

-- No group below `n` that fits has more free blocks than the best.
abbrev Best : SbInfo → ℕ → ℕ → Option (ℕ × GroupDesc) → Type 0
Best sb avefreei n best =
    (g : ℕ) (desc : GroupDesc)
    → g < n
    → get_group_desc sb g ≡ some desc
    → dir_fits avefreei desc ≡ true
    → beats desc best ≡ false

abbrev next_best : ℕ → ℕ → GroupDesc → Option (ℕ × GroupDesc) → Option (ℕ × GroupDesc)
next_best avefreei group desc best =
    if dir_fits avefreei desc && beats desc best then some (group, desc) else best

next_best-Chosen :
    (sb : SbInfo) (avefreei group : ℕ) (desc : GroupDesc) (best : Option (ℕ × GroupDesc))
    → group < sb.s_groups_count
    → get_group_desc sb group ≡ some desc
    → Chosen sb avefreei best
    → Chosen sb avefreei (next_best avefreei group desc best)
next_best-Chosen sb avefreei group desc none h e c = elim (Bool-cases (dir_fits avefreei desc)) [
  | inl f ↦ rw f (h, e, f)
  | inr f ↦ rw f tt
]
next_best-Chosen sb avefreei group desc (some (g, d)) h e c =
    elim (Bool-cases (dir_fits avefreei desc)) [
      | inl f ↦ elim (Bool-cases (ltb d.bg_free_blocks_count desc.bg_free_blocks_count)) [
        | inl b ↦ rw (f, b) (h, e, f)
        | inr b ↦ rw (f, b) c
      ]
      | inr f ↦ rw f c
    ]

next_best-Best :
    (sb : SbInfo) (avefreei group : ℕ) (desc : GroupDesc) (best : Option (ℕ × GroupDesc))
    → get_group_desc sb group ≡ some desc
    → Best sb avefreei group best
    → Best sb avefreei (group + 1) (next_best avefreei group desc best)
next_best-Best sb avefreei group desc none e b g d h k f =
    ground (arith, b g d, ap (get_group_desc sb) {x = g} {y = group})
next_best-Best sb avefreei group desc (some (g', d')) e b g d h k f =
    ground (arith, b g d, ap (get_group_desc sb) {x = g} {y = group})

skip-Best :
    (sb : SbInfo) (avefreei group : ℕ) (best : Option (ℕ × GroupDesc))
    → get_group_desc sb group ≡ none
    → Best sb avefreei group best
    → Best sb avefreei (group + 1) best
skip-Best sb avefreei group best e b g d h k f =
    ground (arith, b g d, ap (get_group_desc sb) {x = g} {y = group})

dir_from-Best :
    (count : ℕ) (sb : SbInfo) (avefreei group : ℕ) (best : Option (ℕ × GroupDesc))
    → group + count ≡ sb.s_groups_count
    → Chosen sb avefreei best
    → Best sb avefreei group best
    → Chosen sb avefreei (dir_from count sb avefreei group best)
      × Best sb avefreei sb.s_groups_count (dir_from count sb avefreei group best)
unfolding dir_from
dir_from-Best zero sb avefreei group best e c b = (c, λ g desc h. b g desc (omega arith))
dir_from-Best (suc count) sb avefreei group best e c b =
    elim (Option-cases (get_group_desc sb group)) [
      | inl q ↦
          rw (q, dir_from)
            (dir_from-Best count sb avefreei (group + 1) best (omega arith) c
              (skip-Best sb avefreei group best q b))
      | inr (desc, q) ↦
          rw (q, dir_from)
            (dir_from-Best count sb avefreei (group + 1) (next_best avefreei group desc best)
              (omega arith) (next_best-Chosen sb avefreei group desc best (omega arith) q c)
              (next_best-Best sb avefreei group desc best q b))
    ]

true_ne_false : true ≡ false → ⊥
true_ne_false e = cc

read-Best :
    (sb : SbInfo) (avefreei : ℕ) (best : Option (ℕ × GroupDesc))
    → Chosen sb avefreei best
    → Best sb avefreei sb.s_groups_count best
    → ((g : ℕ)
        → Option.map (λ (b : ℕ × GroupDesc). b.0) best ≡ some g
        → (desc : GroupDesc) × (g < sb.s_groups_count)
          × (get_group_desc sb g ≡ some desc)
          × (dir_fits avefreei desc ≡ true)
          × ((h : ℕ) (other : GroupDesc)
              → h < sb.s_groups_count
              → get_group_desc sb h ≡ some other
              → dir_fits avefreei other ≡ true
              → other.bg_free_blocks_count ≤ desc.bg_free_blocks_count))
      × (Option.map (λ (b : ℕ × GroupDesc). b.0) best ≡ none
          → (h : ℕ) (other : GroupDesc) → h < sb.s_groups_count
          → get_group_desc sb h ≡ some other
          → dir_fits avefreei other ≡ false)
read-Best sb avefreei none c b = (
  λ g e. absurd (cc),
  λ e h other k q. elim (Bool-cases (dir_fits avefreei other)) [
    | inl f ↦ absurd (true_ne_false (b h other k q f))
    | inr f ↦ f
  ],
)
read-Best sb avefreei (some (g', d)) (k, q, f) b = (
  λ g e.
      let same : g' ≡ g = cc e in
      (
        d,
        omega arith,
        ap (get_group_desc sb) (sym same) ∙ q,
        f,
        λ h other k' q' f'. ground (arith, b h other k' q' f'),
      ),
  λ e. absurd (cc),
)

dir_fits_iff :
    (avefreei : ℕ) (desc : GroupDesc)
    → (dir_fits avefreei desc ≡ true)
      ↔ ((desc.bg_free_inodes_count ≢ 0) × (avefreei ≤ desc.bg_free_inodes_count))
dir_fits_iff avefreei desc = (λ f. (ground arith, ground arith), λ r. ground (arith, r))

-- `find_group_dir` gives an existing group that has a free inode and no fewer than the average, and
-- among such groups none has more free blocks; it gives none only if there is no such group.
pub find_group_dir-best :
    (sb : SbInfo)
    → let avefreei = count_free_inodes sb / sb.s_groups_count in
      ((g : ℕ)
        → find_group_dir sb ≡ some g
        → (desc : GroupDesc) × (g < sb.s_groups_count)
          × (get_group_desc sb g ≡ some desc)
          × (desc.bg_free_inodes_count ≢ 0)
          × (avefreei ≤ desc.bg_free_inodes_count)
          × ((h : ℕ) (other : GroupDesc)
              → h < sb.s_groups_count
              → get_group_desc sb h ≡ some other
              → other.bg_free_inodes_count ≢ 0
              → avefreei ≤ other.bg_free_inodes_count
              → other.bg_free_blocks_count ≤ desc.bg_free_blocks_count))
      × (find_group_dir sb ≡ none
          → (h : ℕ) (other : GroupDesc) → h < sb.s_groups_count
          → get_group_desc sb h ≡ some other
          → other.bg_free_inodes_count ≢ 0
          → other.bg_free_inodes_count < avefreei)
unfolding find_group_dir
find_group_dir-best sb =
    let avefreei = count_free_inodes sb / sb.s_groups_count in
    let (c, b) =
      dir_from-Best sb.s_groups_count sb avefreei 0 none (omega arith) tt
        (λ g desc h. absurd (omega arith)) in
    let (found, missed) =
      read-Best sb avefreei (dir_from sb.s_groups_count sb avefreei 0 none) c b in
    (
      λ g e.
          let (desc, k, q, f, most) = found g e in
          let (free, many) = (dir_fits_iff avefreei desc).0 f in
          (
            desc,
            k,
            q,
            free,
            many,
            λ h other k' q' free' many'.
                most h other k' q' ((dir_fits_iff avefreei other).1 (free', many')),
          ),
      λ e h other k q free. ground (arith, dir_fits_iff avefreei other, missed e h other k q),
    )
