-- ===== src/Balloc/New/Try/Claim.antt =====
-- kr_try_to_allocate in a window (balloc.c): it claims blocks of the window, unless all are taken.
use k_rack.Common.{
  ℕ, zero, suc, ◌+◌, ◌-◌, ◌≤◌, ◌<◌, ◌≡◌, refl, sym, ap, ◌∙◌, ◌⊎◌, inl, inr, Bool, true, false, ◌&&◌,
  Option, none, some, arith, ltb, leb, if◌then◌else◌, ltb→lt, lt→ltb, leb→le, le→leb, Bool-cases,
  Option-cases, Bitmap, write_bit, FindsZero,
}
use native.Mathlib.Decide.{ℕ_discrete}
use k_rack.Super.{SbInfo, group_first_block_no}
use k_rack.Balloc.Search.Laws.{ScansBytes, find_next_usable_block-usable}
use k_rack.Balloc.Allocate.Laws.{claim_in-Allocated, allocation_range-Within}
use k_rack.Balloc.Allocate.{
  ReserveWindow, Range, window_end, allocation_range, claim_from, claim_run, first_goal, claim_in,
  Claimed, fail, blocks, try_to_allocate,
}

claim_from-ge :
    (fuel : ℕ) (b : Bitmap) (end goal at : ℕ) → claim_from fuel b end goal ≡ some at → goal ≤ at
unfolding claim_from
claim_from-ge zero b end goal at e = absurd (cc)
claim_from-ge (suc fuel) b end goal at e = ground (arith, claim_from-ge fuel b end (goal + 1) at)

-- With enough fuel, no clear bit is passed by.
claim_from-none :
    (fuel : ℕ) (b : Bitmap) (end goal k : ℕ)
    → claim_from fuel b end goal ≡ none
    → end < fuel + goal
    → goal ≤ k
    → k < end
    → b k ≡ true
unfolding claim_from
claim_from-none zero b end goal k e l p q = absurd (omega arith)
claim_from-none (suc fuel) b end goal k e l p q = elim (Bool-cases (b goal)) [
  | inr clear ↦ absurd (ground (arith, clear))
  | inl taken ↦ elim (Bool-cases (leb end (goal + 1))) [
    | inl over ↦ ap b (omega (arith, leb→le end (goal + 1) over)) ∙ taken
    | inr more ↦ elim (ℕ_discrete k goal) [
      | yes here ↦ ap b here ∙ taken
      | no later ↦
          claim_from-none fuel b end (goal + 1) k (ground (arith, taken, more)) (omega arith)
            (omega arith) q
    ]
  ]
]

abbrev AllTaken : Bitmap → Range → Type 0
AllTaken b r = (k : ℕ) → r.start ≤ k → k < r.end → b k ≡ true

abbrev Windowed : Bitmap → Range → Claimed → Type 0
Windowed b r c =
    ((c ≡ fail) × AllTaken b r)
    ⊎ ((at : ℕ) × (num : ℕ) × (b' : Bitmap) × (c ≡ blocks at num b') × (r.start ≤ at))

module _ (next_zero scan : Bitmap → ℕ → ℕ → ℕ) (finds : FindsZero next_zero)
    (scans : ScansBytes scan) where
  from_place :
      (r : Range) (b : Bitmap) (count g : ℕ)
      → first_goal next_zero scan r b true ≡ some g
      → r.start ≤ g
      → ((claim_from (r.end + 1) b r.end g ≡ none) → AllTaken b r)
      → Windowed b r (claim_in next_zero scan r b true count)
  unfolding claim_in
  from_place r b count g e low taken = elim (Option-cases (claim_from (r.end + 1) b r.end g)) [
    | inl f ↦ inl (ground (arith, e, f), taken f)
    | inr (at, f) ↦
        let ran = claim_run (count - 1) (write_bit b at true) r.end (at + 1) 1 in
        inr (
          at,
          ran.0,
          ran.1,
          ground (arith, e, f),
          omega (arith, claim_from-ge (r.end + 1) b r.end g at f),
        )
  ]

  pub claim_in-Windowed :
      (r : Range) (b : Bitmap) (count : ℕ)
      → ((h : ℕ) → r.goal ≡ some h → h ≡ r.start)
      → Windowed b r (claim_in next_zero scan r b true count)
  unfolding claim_in first_goal
  claim_in-Windowed r b count goal = elim (Option-cases r.goal) [
    | inr (h, q) ↦ from_place r b count h (ground (arith, q)) (omega (arith, goal h q)) (λ f k p l.
        claim_from-none (r.end + 1) b r.end h k f (omega arith) (omega (arith, goal h q)) l)
    | inl q ↦ elim (find_next_usable_block-usable next_zero scan finds scans r.start b r.end) [
      | inr (f, all) ↦ inl (ground (arith, q, f), all)
      | inl (g, f, low, high, clear) ↦ from_place r b count g (ground (arith, q, f)) low (λ f'.
          absurd (
            true_false (
              sym (claim_from-none (r.end + 1) b r.end g g f' (omega arith) (omega arith) high)
              ∙ clear)))
    ]
  ]
    where
      true_false : true ≡ false → ⊥
      true_false e = cc e

-- The part of a group that lies in a window.
pub record InWindow (sb : SbInfo) (group : ℕ) (grp_goal : Option ℕ) (w : ReserveWindow) (r : Range)
    : Type 0 where
  pub from_start : w.rsv_start ≤ r.start + group_first_block_no sb group
  pub to_end : r.end + group_first_block_no sb group ≤ w.rsv_end + 1
  pub some_start : r.start ≤ sb.s_blocks_per_group
  pub goal_start : (h : ℕ) → r.goal ≡ some h → h ≡ r.start
  pub whole :
      (k : ℕ)
      → ((g : ℕ) → grp_goal ≡ some g → g ≤ k)
      → w.rsv_start ≤ k + group_first_block_no sb group
      → k + group_first_block_no sb group ≤ w.rsv_end
      → k < sb.s_blocks_per_group
      → (r.start ≤ k) × (k < r.end)

no_goal-InWindow :
    (sb : SbInfo) (group : ℕ) (w : ReserveWindow)
    → group_first_block_no sb group ≤ w.rsv_end
    → w.rsv_start < group_first_block_no sb group + sb.s_blocks_per_group
    → InWindow sb group none w (allocation_range sb group none (some w))
unfolding allocation_range
no_goal-InWindow sb group w before after =
    let first = group_first_block_no sb group in
    record {
      from_start = ground (arith, leb→le first w.rsv_start, le→leb first w.rsv_start);
      to_end = ground (
        arith,
        ltb→lt (w.rsv_end + 1) first,
        lt→ltb sb.s_blocks_per_group (w.rsv_end + 1 - first),
      );
      some_start = ground (arith, leb→le first w.rsv_start);
      goal_start = λ h e. absurd (cc e);
      whole = λ k g p q l. (
        ground (arith, leb→le first w.rsv_start),
        ground (
          arith,
          ltb→lt (w.rsv_end + 1) first,
          ltb→lt sb.s_blocks_per_group (w.rsv_end + 1 - first),
        ),
      );
    }

allocation_range-InWindow :
    (sb : SbInfo) (group : ℕ) (grp_goal : Option ℕ) (w : ReserveWindow)
    → group_first_block_no sb group ≤ w.rsv_end
    → w.rsv_start < group_first_block_no sb group + sb.s_blocks_per_group
    → ((g : ℕ) → grp_goal ≡ some g → g < sb.s_blocks_per_group)
    → InWindow sb group grp_goal w (allocation_range sb group grp_goal (some w))
unfolding allocation_range
allocation_range-InWindow sb group none w before after inside =
    no_goal-InWindow sb group w before after
allocation_range-InWindow sb group (some g) w before after inside =
    let first = group_first_block_no sb group in
    let low = if leb first w.rsv_start then w.rsv_start - first else 0 in
    let high = window_end first sb.s_blocks_per_group w.rsv_end in
    let rest = no_goal-InWindow sb group w before after in
    chosen (leb low g && ltb g high) low high rest
      (λ t. (ground (arith, leb→le low g), ground (arith, ltb→lt g high)))
  where
    chosen :
        (t : Bool) (low high : ℕ)
        → InWindow sb group none w (record { start = low; end = high; goal = none })
        → (t ≡ true → (low ≤ g) × (g < high))
        → InWindow sb group (some g) w (
            if t
            then record { start = g; end = high; goal = some g }
            else record { start = low; end = high; goal = none })
    chosen true low high c m =
        let (p, q) = m refl in
        record {
          from_start = omega (arith, c.from_start);
          to_end = c.to_end;
          some_start = omega (arith, inside g refl);
          goal_start = λ h e. cc e;
          whole = λ k h p' q' l. (h g refl, (c.whole k (λ x e. absurd (cc e)) p' q' l).1);
        }
    chosen false low high c m = record {
      from_start = c.from_start;
      to_end = c.to_end;
      some_start = c.some_start;
      goal_start = λ h e. absurd (cc e);
      whole = λ k h p' q' l. c.whole k (λ x e. absurd (cc e)) p' q' l;
    }

-- What a try in a window comes to: blocks of the window, or none of its blocks from the goal on is
-- free.
abbrev pub Tries : SbInfo → ℕ → Bitmap → Option ℕ → ReserveWindow → Claimed → Type 0
Tries sb group b grp_goal w c =
    ((c ≡ fail)
      × ((k : ℕ)
          → ((g : ℕ) → grp_goal ≡ some g → g ≤ k)
          → w.rsv_start ≤ k + group_first_block_no sb group
          → k + group_first_block_no sb group ≤ w.rsv_end
          → k < sb.s_blocks_per_group
          → b k ≡ true))
    ⊎ ((at : ℕ) × (num : ℕ) × (b' : Bitmap) × (c ≡ blocks at num b')
        × (1 ≤ num)
        × (at + num ≤ sb.s_blocks_per_group)
        × (w.rsv_start ≤ at + group_first_block_no sb group)
        × (at + num + group_first_block_no sb group ≤ w.rsv_end + 1))

module _ (next_zero scan : Bitmap → ℕ → ℕ → ℕ) (finds : FindsZero next_zero)
    (scans : ScansBytes scan) where
  pub try_to_allocate-Tries :
      (sb : SbInfo) (group : ℕ) (b : Bitmap) (grp_goal : Option ℕ) (count : ℕ) (w : ReserveWindow)
      → 0 < count
      → group_first_block_no sb group ≤ w.rsv_end
      → w.rsv_start < group_first_block_no sb group + sb.s_blocks_per_group
      → ((g : ℕ) → grp_goal ≡ some g → g < sb.s_blocks_per_group)
      → Tries sb group b grp_goal w
          (try_to_allocate next_zero scan sb group b grp_goal count (some w))
  unfolding try_to_allocate
  try_to_allocate-Tries sb group b grp_goal count w some_count before after inside =
      let r = allocation_range sb group grp_goal (some w) in
      let c = allocation_range-InWindow sb group grp_goal w before after inside in
      let no_bug : ltb sb.s_blocks_per_group r.start ≡ false =
        ground (arith, c.some_start, ltb→lt sb.s_blocks_per_group r.start) in
      elim (claim_in-Windowed next_zero scan finds scans r b count c.goal_start) [
        | inl (e, taken) ↦
            inl (
              ground (arith, no_bug, e),
              λ k g p q l. let (u, v) = c.whole k g p q l in taken k u v,
            )
        | inr (at, num, b', e, low) ↦
            let (one, _, high, _) =
              claim_in-Allocated next_zero scan finds scans r b b' true count at num
                (allocation_range-Within sb group grp_goal (some w) inside).0 some_count e in
            inr (
              at,
              num,
              b',
              ground (arith, no_bug, e),
              one,
              omega (arith, (allocation_range-Within sb group grp_goal (some w) inside).1),
              omega (arith, c.from_start),
              omega (arith, c.to_end),
            )
      ]
