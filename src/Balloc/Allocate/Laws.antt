-- ===== src/Balloc/Allocate/Laws.antt =====
-- Blocks are claimed only where the bitmap has them free.
use k_rack.Common.{
  ℕ, ◌+◌, ◌-◌, ◌≤◌, ◌<◌, ◌≡◌, refl, subst, inl, inr, Bool, true, false, ◌&&◌, Option, none, some,
  arith, ltb, leb, if◌then◌else◌, ltb→lt, lt→ltb, Option-cases, Bitmap, write_bit, FindsZero,
}
use k_rack.Super.{SbInfo, group_first_block_no}
use k_rack.Balloc.Search.Laws.{ScansBytes, find_next_usable_block-usable}
use k_rack.Balloc.Allocate.{
  ReserveWindow, Range, allocation_range, claim_from, claim_run, Claimed, bug, fail, blocks,
  first_goal, window_end, is_some, claim_in, try_to_allocate,
}
use k_rack.Balloc.Allocate.Run.{Claims, step_back-clear, claim_from-clear, goes_on, claim_run-Ran}

first_goal-lt :
    (next_zero scan : Bitmap → ℕ → ℕ → ℕ)
    → FindsZero next_zero
    → ScansBytes scan
    → (r : Range) (b : Bitmap) (windowed : Bool) (g : ℕ) → ((h : ℕ) → r.goal ≡ some h → h < r.end)
    → first_goal next_zero scan r b windowed ≡ some g
    → g < r.end
unfolding first_goal
first_goal-lt next_zero scan finds scans r b windowed g within e = elim (Option-cases r.goal) [
  | inr (h, q) ↦ ground (arith, within h)
  | inl q ↦ elim (find_next_usable_block-usable next_zero scan finds scans r.start b r.end) [
    | inl (found, f, low, high, z) ↦ ground (arith, step_back-clear 7 b r.start found)
    | inr (f, _) ↦ absurd (ground arith)
  ]
]

abbrev pub Allocated : Bitmap → ℕ → ℕ → ℕ → ℕ → Bitmap → Type 0
Allocated b end count at num b' = (1 ≤ num) × (num ≤ count) × (at + num ≤ end) × Claims b b' at num

abbrev AllocatedIn : Bitmap → ℕ → ℕ → Claimed → Type 0
AllocatedIn b end count bug = Unit {0}
AllocatedIn b end count fail = Unit {0}
AllocatedIn b end count (blocks at num b') = Allocated b end count at num b'

one_then :
    (b : Bitmap) (end count at : ℕ)
    → b at ≡ false
    → at < end
    → 0 < count
    → let r = claim_run (count - 1) (write_bit b at true) end (at + 1) 1 in
      Allocated b end count at (r.0) (r.1)
one_then b end count at z l p =
    let r = claim_run (count - 1) (write_bit b at true) end (at + 1) 1 in
    let ran = claim_run-Ran (count - 1) (write_bit b at true) end (at + 1) 1 (omega arith) in
    let (m, one, _, _, _) = ran in
    let (n, e, most, high, c) = goes_on r (count - 1) b end at 0 z ran in
    let same : n ≡ r.0 = omega arith in
    (omega arith, omega arith, omega arith, subst (Claims b r.1 at) same c)

pub claim_in-Allocated :
    (next_zero scan : Bitmap → ℕ → ℕ → ℕ)
    → FindsZero next_zero
    → ScansBytes scan
    → (r : Range) (b b' : Bitmap) (windowed : Bool) (count at num : ℕ)
    → ((h : ℕ) → r.goal ≡ some h → h < r.end)
    → 0 < count
    → claim_in next_zero scan r b windowed count ≡ blocks at num b'
    → Allocated b r.end count at num b'
unfolding claim_in
claim_in-Allocated next_zero scan finds scans r b b' windowed count at num within p e =
    by_goal (first_goal next_zero scan r b windowed) refl e
  where
    run : (at' : ℕ) → ℕ × Bitmap
    run at' = claim_run (count - 1) (write_bit b at' true) r.end (at' + 1) 1

    by_at :
        (g : ℕ) (o : Option ℕ)
        → g < r.end
        → claim_from (r.end + 1) b r.end g ≡ o
        → ◌≡◌ {A = Claimed}
            (elim o [ none ↦ fail | some at' ↦ blocks at' (run at').0 (run at').1 ])
            (blocks at num b')
        → Allocated b r.end count at num b'
    by_at g none l f e = absurd (cc e)
    by_at g (some at') l f e =
        let (clear, low) = claim_from-clear (r.end + 1) b r.end g at' f l in
        subst (AllocatedIn b r.end count) e (one_then b r.end count at' clear low p)

    by_goal :
        (o : Option ℕ)
        → first_goal next_zero scan r b windowed ≡ o
        → ◌≡◌ {A = Claimed}
            (elim o [
              | none ↦ fail
              | some g ↦ elim (claim_from (r.end + 1) b r.end g) [
                | none ↦ fail
                | some at' ↦ blocks at' (run at').0 (run at').1
              ]
            ])
            (blocks at num b')
        → Allocated b r.end count at num b'
    by_goal none f e = absurd (cc e)
    by_goal (some g) f e =
        by_at g (claim_from (r.end + 1) b r.end g)
          (first_goal-lt next_zero scan finds scans r b windowed g within f) refl e

abbrev pub Within : ℕ → Range → Type 0
Within per_group r = ((h : ℕ) → r.goal ≡ some h → h < r.end) × (r.end ≤ per_group)

chosen-Within :
    (t : Bool) (low high g per_group : ℕ)
    → (t ≡ true → g < high)
    → high ≤ per_group
    → Within per_group (
        if t
        then record { start = g; end = high; goal = some g }
        else record { start = low; end = high; goal = none })
chosen-Within true low high g per_group l m = (λ h e. ground (arith, l), m)
chosen-Within false low high g per_group l m = (λ h e. absurd (cc e), m)

window_end-le : (first per_group rsv_end : ℕ) → window_end first per_group rsv_end ≤ per_group
window_end-le first per_group rsv_end = ground (arith, lt→ltb per_group (rsv_end + 1 - first))

pub allocation_range-Within :
    (sb : SbInfo) (group : ℕ) (grp_goal : Option ℕ) (my_rsv : Option ReserveWindow)
    → ((g : ℕ) → grp_goal ≡ some g → g < sb.s_blocks_per_group)
    → Within sb.s_blocks_per_group (allocation_range sb group grp_goal my_rsv)
unfolding allocation_range
allocation_range-Within sb group grp_goal none inside = (λ h e. inside h e, omega arith)
allocation_range-Within sb group none (some w) inside = (
  λ h e. absurd (cc e),
  window_end-le (group_first_block_no sb group) sb.s_blocks_per_group w.rsv_end,
)
allocation_range-Within sb group (some g) (some w) inside =
    let first = group_first_block_no sb group in
    let high = window_end first sb.s_blocks_per_group w.rsv_end in
    let low = if leb first w.rsv_start then w.rsv_start - first else 0 in
    chosen-Within (leb low g && ltb g high) low high g sb.s_blocks_per_group
      (λ t. and_lt low g high t) (window_end-le first sb.s_blocks_per_group w.rsv_end)
  where
    and_lt : (low g high : ℕ) → (leb low g && ltb g high) ≡ true → g < high
    and_lt low g high t = ground (arith, ltb→lt g high)

-- With a working bit search and byte search, at least one block asked for and a goal (if any)
-- within the group: blocks that are claimed are at least one and at most as many as asked for, lie
-- within the group, were free, and are the only ones whose bits change.
pub try_to_allocate-Claims :
    (next_zero scan : Bitmap → ℕ → ℕ → ℕ)
    → FindsZero next_zero
    → ScansBytes scan
    → (sb : SbInfo) (group : ℕ) (b b' : Bitmap) (grp_goal : Option ℕ) (count : ℕ)
      (my_rsv : Option ReserveWindow) (at num : ℕ)
    → ((g : ℕ) → grp_goal ≡ some g → g < sb.s_blocks_per_group)
    → 0 < count
    → try_to_allocate next_zero scan sb group b grp_goal count my_rsv ≡ blocks at num b'
    → (1 ≤ num) × (num ≤ count) × (at + num ≤ sb.s_blocks_per_group) × Claims b b' at num
unfolding try_to_allocate
try_to_allocate-Claims next_zero scan finds scans sb group b b' grp_goal count my_rsv at num inside
      p e =
    let r = allocation_range sb group grp_goal my_rsv in
    let (within, fits) = allocation_range-Within sb group grp_goal my_rsv inside in
    let (one, most, high, c) =
      claim_in-Allocated next_zero scan finds scans r b b' (is_some my_rsv) count at num within p (
        past_bug (ltb sb.s_blocks_per_group r.start)
          (claim_in next_zero scan r b (is_some my_rsv) count) e) in
    (one, most, omega arith, c)
  where
    past_bug :
        (t : Bool) (c : Claimed)
        → ◌≡◌ {A = Claimed} (if t then bug else c) (blocks at num b')
        → c ≡ blocks at num b'
    past_bug true c e = absurd (cc e)
    past_bug false c e = e
