-- ===== src/Ialloc/Orlov/Laws.antt =====
-- What Orlov's allocator guarantees (ialloc.c).
use k_rack.Common.{
  ℕ, zero, suc, ◌+◌, ◌/◌, ◌%◌, ◌≤◌, ◌<◌, ◌≡◌, subst, inl, inr, Bool, true, false, Option, none,
  some, arith, leb, ◌==◌, Bool-cases, Option-cases, reach_place,
}
use k_rack.Super.{GroupDesc, SbInfo, get_group_desc}
use k_rack.Ialloc.Groups.{Parent, has_inodes}
use k_rack.Ialloc.Orlov.{
  cycle_from, spread_from, limits, keeps_limits, fallback, find_group_orlov, read_positive,
}
use native.Mathlib.Decide.{ℕ_discrete}
use native.Mathlib.Nat.{mod-lt}

abbrev Usable : SbInfo → ℕ → Type 0
Usable sb g = (g < sb.s_groups_count) × (has_inodes sb g ≡ true)

cycle_from-Usable :
    (count : ℕ) (sb : SbInfo) (test : ℕ → GroupDesc → Bool) (parent_group i g : ℕ)
    → 0 < sb.s_groups_count
    → cycle_from count sb test parent_group i ≡ some g
    → Usable sb g
unfolding cycle_from has_inodes
cycle_from-Usable zero sb test parent_group i g h e = absurd (cc)
cycle_from-Usable (suc count) sb test parent_group i g h e = ground (
  arith,
  mod-lt (parent_group + i) {m = sb.s_groups_count} h,
  cycle_from-Usable count sb test parent_group (i + 1) g h,
)

-- The search goes through every group.
cycle_from_complete :
    (count : ℕ) (sb : SbInfo) (parent_group i k : ℕ)
    → cycle_from count sb (λ group desc. leb 0 desc.bg_free_inodes_count) parent_group i ≡ none
    → i ≤ k
    → k < i + count
    → has_inodes sb ((parent_group + k) % sb.s_groups_count) ≡ false
unfolding cycle_from has_inodes
cycle_from_complete zero sb parent_group i k e h h' = absurd (omega arith)
cycle_from_complete (suc count) sb parent_group i k e h h' = elim (ℕ_discrete i k) [
  | yes same ↦ rw (← same) (ground arith)
  | no other ↦
      cycle_from_complete count sb parent_group (i + 1) k (ground arith) (omega arith) (omega arith)
]

spread_from-Usable :
    (count : ℕ) (sb : SbInfo) (avefreei avefreeb parent_group best_ndir : ℕ) (best : Option ℕ)
    (i g : ℕ)
    → 0 < sb.s_groups_count
    → (best ≡ some g → Usable sb g)
    → spread_from count sb avefreei avefreeb parent_group best_ndir best i ≡ some g
    → Usable sb g
unfolding spread_from has_inodes
spread_from-Usable zero sb avefreei avefreeb parent_group best_ndir best i g h b e = b e
spread_from-Usable (suc count) sb avefreei avefreeb parent_group best_ndir best i g h b e =
    let group : ℕ = (parent_group + i) % sb.s_groups_count in
    elim (Option-cases (get_group_desc sb group)) [
      | inl q ↦
          spread_from-Usable count sb avefreei avefreeb parent_group best_ndir best (i + 1) g h b
            (ground arith)
      | inr (desc, q) ↦
          let skip =
            spread_from-Usable count sb avefreei avefreeb parent_group best_ndir best (i + 1) g h
              b in
          elim (Bool-cases (desc.bg_free_inodes_count == 0)) [
            | inl z ↦ ground (arith, skip)
            | inr z ↦
                let here : has_inodes sb group ≡ true = ground arith in
                let take_it =
                  spread_from-Usable count sb avefreei avefreeb parent_group desc.bg_used_dirs_count
                    (some group) (i + 1) g h
                    (λ same. subst (Usable sb) (cc same) (mod-lt (parent_group + i) h, here)) in
                ground (arith, skip, take_it)
          ]
    ]

fallback-total :
    (sb : SbInfo) (avefreei parent_group : ℕ)
    → 0 < sb.s_groups_count
    → ((g : ℕ) → fallback sb avefreei parent_group ≡ some g → Usable sb g)
      × (fallback sb avefreei parent_group ≡ none
          → (g : ℕ) → g < sb.s_groups_count
          → has_inodes sb g ≡ false)
unfolding fallback
fallback-total sb zero parent_group h = (
  λ g e. ground (arith, cycle_from-Usable sb.s_groups_count sb any parent_group 0 g h),
  λ e g k.
      let (n, lt, at) = reach_place parent_group sb.s_groups_count g k in
      rw at at (
        cycle_from_complete sb.s_groups_count sb parent_group 0 n (ground arith) (omega arith)
          (omega arith)),
)
  where
    any : ℕ → GroupDesc → Bool
    any group desc = leb 0 desc.bg_free_inodes_count
fallback-total sb (suc avefreei) parent_group h = (
  λ g e. ground (
    arith,
    cycle_from-Usable sb.s_groups_count sb average parent_group 0 g h,
    cycle_from-Usable sb.s_groups_count sb any parent_group 0 g h,
  ),
  λ e g k.
      let (n, lt, at) = reach_place parent_group sb.s_groups_count g k in
      rw at at (
        cycle_from_complete sb.s_groups_count sb parent_group 0 n (ground arith) (omega arith)
          (omega arith)),
)
  where
    any : ℕ → GroupDesc → Bool
    any group desc = leb 0 desc.bg_free_inodes_count

    average : ℕ → GroupDesc → Bool
    average group desc = leb (suc avefreei) desc.bg_free_inodes_count

-- On a disk with at least one group, `find_group_orlov` gives an existing group that has a free
-- inode, whatever the counters, the limits and the random number are, and it gives none only if no
-- group has a free inode.
pub find_group_orlov-total :
    (sb : SbInfo) (parent : Parent) (rand : ℕ)
    → 0 < sb.s_groups_count
    → ((g : ℕ)
        → find_group_orlov sb parent rand ≡ some g
        → (g < sb.s_groups_count) × (has_inodes sb g ≡ true))
      × (find_group_orlov sb parent rand ≡ none
          → (g : ℕ) → g < sb.s_groups_count
          → has_inodes sb g ≡ false)
unfolding find_group_orlov
find_group_orlov-total sb parent rand h =
    let n = sb.s_groups_count in
    let avefreei = read_positive sb.s_freeinodes_counter / n in
    let avefreeb = read_positive sb.s_freeblocks_counter / n in
    let top = fallback-total sb avefreei (rand % n) h in
    let low = fallback-total sb avefreei parent.i_block_group h in
    (
      λ g e. ground (
        arith,
        spread_from-Usable n sb avefreei avefreeb (rand % n) sb.s_inodes_per_group none 0 g h
            (λ no. absurd (cc no)),
        cycle_from-Usable n sb (keeps_limits sb (limits sb)) parent.i_block_group 0 g h,
        top.0 g,
        low.0 g,
      ),
      λ e g k. ground (
        arith,
        (λ (e' : fallback sb avefreei (rand % n) ≡ none). top.1 e' g k),
        (λ (e' : fallback sb avefreei parent.i_block_group ≡ none). low.1 e' g k),
      ),
    )
