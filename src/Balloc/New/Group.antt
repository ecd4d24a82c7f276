-- ===== src/Balloc/New/Group.antt =====
-- kr_new_blocks in one group (balloc.c): the try with the file's window and the one without.
use k_rack.Common.{
  ℕ, zero, suc, ◌+◌, ◌-◌, ◌^◌, ◌≤◌, ◌<◌, ◌≡◌, refl, sym, ◌∙◌, ◌≢◌, ◌⊎◌, inl, inr, Bool, true, false,
  Option, none, some, arith, ltb, ltb→lt, Option-cases, Bitmap, write_bit, FindsZero,
}
use k_rack.Super.{SbInfo}
use k_rack.Balloc.Search.Laws.{ScansBytes, find_next_usable_block-usable}
use k_rack.Balloc.Allocate.{
  Range, Claimed, fail, blocks, step_back, claim_from, claim_run, first_goal, claim_in,
  allocation_range, try_to_allocate,
}
use k_rack.Balloc.Allocate.Run.{Claims, step_back-clear}
use k_rack.Balloc.Allocate.Laws.{try_to_allocate-Claims}
use k_rack.Balloc.Reserve.{RbTree, Windows}
use k_rack.Balloc.Reserve.Search.{RbLaws}
use k_rack.Balloc.Window.Ok.{WindowsOk}
use k_rack.Balloc.New.Try.{Tried, failed, claimed, try_to_allocate_with_rsv}
use k_rack.Balloc.New.Try.Fresh.{Kept, GoalIn}
use k_rack.Balloc.New.Try.Laws.{try_to_allocate_with_rsv-TriedOk}

-- A count of 0 asks for one block, as 1 does.
abbrev pub asked : ℕ → ℕ
asked zero = 1
asked (suc num) = suc num

pub asked-le : (n num : ℕ) → n ≤ num → n ≤ asked num
asked-le n zero l = omega arith
asked-le n (suc num) l = l

abbrev pub window_if : ℕ → Bool → Option ℕ
window_if me true = some me
window_if me false = none

-- Blocks are claimed, or all blocks are taken if there was no goal.
abbrev pub Plain : SbInfo → Bitmap → Option ℕ → Claimed → Type 0
Plain sb b grp_goal c =
    ((c ≡ fail) × (grp_goal ≡ none → (k : ℕ) → k < sb.s_blocks_per_group → b k ≡ true))
    ⊎ ((at : ℕ) × (num : ℕ) × (b' : Bitmap) × (c ≡ blocks at num b'))

module _ (next_zero scan : Bitmap → ℕ → ℕ → ℕ) (finds : FindsZero next_zero)
    (scans : ScansBytes scan) where
  claim_at :
      (r : Range) (b : Bitmap) (count g : ℕ)
      → first_goal next_zero scan r b false ≡ some g
      → (claim_in next_zero scan r b false count ≡ fail × (claim_from (r.end + 1) b r.end g ≡ none))
        ⊎ ((at : ℕ) × (num : ℕ) × (b' : Bitmap) × (claim_in next_zero scan r b false count
              ≡ blocks at num b'))
  unfolding claim_in
  claim_at r b count g e = elim (Option-cases (claim_from (r.end + 1) b r.end g)) [
    | inl f ↦ inl (ground (arith, e, f), f)
    | inr (at, f) ↦
        let ran = claim_run (count - 1) (write_bit b at true) r.end (at + 1) 1 in
        inr (at, ran.0, ran.1, ground (arith, e, f))
  ]

  claim_none :
      (r : Range) (b : Bitmap) (count : ℕ)
      → first_goal next_zero scan r b false ≡ none
      → claim_in next_zero scan r b false count ≡ fail
  unfolding claim_in
  claim_none r b count e = ground (arith, e)

  claim_here : (b : Bitmap) (end g : ℕ) → b g ≡ false → claim_from (end + 1) b end g ≡ none → ⊥
  unfolding claim_from
  claim_here b end g clear e = absurd (ground (arith, e, clear))

  pub try_to_allocate-Plain :
      (sb : SbInfo) (group : ℕ) (b : Bitmap) (grp_goal : Option ℕ) (count : ℕ)
      → GoalIn sb grp_goal
      → Plain sb b grp_goal (try_to_allocate next_zero scan sb group b grp_goal count none)
  unfolding try_to_allocate allocation_range first_goal
  try_to_allocate-Plain sb group b (some g) count inside =
      let r = allocation_range sb group (some g) none in
      let no_bug : ltb sb.s_blocks_per_group g ≡ false =
        ground (arith, inside g refl, ltb→lt sb.s_blocks_per_group g) in
      elim (claim_at r b count g refl) [
        | inl (e, _) ↦ inl (ground (arith, no_bug, e), λ f. absurd (cc f))
        | inr (at, num, b', e) ↦ inr (at, num, b', ground (arith, no_bug, e))
      ]
  try_to_allocate-Plain sb group b none count inside =
      let r = allocation_range sb group none none in
      let no_bug : ltb sb.s_blocks_per_group 0 ≡ false =
        ground (arith, ltb→lt sb.s_blocks_per_group 0) in
      elim (find_next_usable_block-usable next_zero scan finds scans 0 b sb.s_blocks_per_group) [
        | inr (f, taken) ↦ inl (
          ground (arith, no_bug, claim_none r b count (ground (arith, f))),
          λ _ k l. taken k (omega arith) l,
        )
        | inl (g, f, low, high, clear) ↦
            let back = step_back 7 b 0 g in
            elim (claim_at r b count back (ground (arith, f))) [
              | inl (_, f') ↦
                  absurd (
                    claim_here b sb.s_blocks_per_group back (step_back-clear 7 b 0 g clear low).0
                      f')
              | inr (at, num, b', e) ↦ inr (at, num, b', ground (arith, no_bug, e))
            ]
      ]

  zero_as_one :
      (sb : SbInfo) (group : ℕ) (b : Bitmap) (grp_goal : Option ℕ)
      → try_to_allocate next_zero scan sb group b grp_goal 0 none
        ≡ try_to_allocate next_zero scan sb group b grp_goal 1 none
  unfolding try_to_allocate claim_in
  zero_as_one sb group b grp_goal = refl

  plain_Claims :
      (sb : SbInfo) (group : ℕ) (b b' : Bitmap) (grp_goal : Option ℕ) (count at num : ℕ)
      → GoalIn sb grp_goal
      → try_to_allocate next_zero scan sb group b grp_goal count none ≡ blocks at num b'
      → (1 ≤ num) × (num ≤ asked count) × (at + num ≤ sb.s_blocks_per_group) × Claims b b' at num
  plain_Claims sb group b b' grp_goal zero at num inside e =
      try_to_allocate-Claims next_zero scan finds scans sb group b b' grp_goal 1 none at num inside
        (omega arith) (sym (zero_as_one sb group b grp_goal) ∙ e)
  plain_Claims sb group b b' grp_goal (suc count) at num inside e =
      try_to_allocate-Claims next_zero scan finds scans sb group b b' grp_goal (suc count) none at
        num inside (omega arith) e

module _ (rb : RbTree) (laws : RbLaws rb) (head me : ℕ) (other : me ≢ head) where
  module _ (next_zero scan : Bitmap → ℕ → ℕ → ℕ) (finds : FindsZero next_zero)
      (scans : ScansBytes scan) where
    -- A try in a group: free blocks are claimed, or else there is no window, or without one no free
    -- block.
    abbrev pub GroupTried : SbInfo → Windows → Bool → Bitmap → Option ℕ → ℕ → Tried → Type 0
    GroupTried sb w reserve b grp_goal num r =
        ((w' : Windows) × (num' : ℕ) × (r ≡ failed w' num')
          × Kept rb laws head me other w w'
          × (num' ≤ num)
          × (reserve ≡ true → num' ≡ num)
          × (reserve ≡ false → grp_goal ≡ none → (k : ℕ) → k < sb.s_blocks_per_group → b k ≡ true))
        ⊎ ((at : ℕ) × (num' : ℕ) × (b' : Bitmap) × (w' : Windows) × (r ≡ claimed at num' b' w')
            × Kept rb laws head me other w w'
            × (1 ≤ num')
            × (num' ≤ asked num)
            × (at + num' ≤ sb.s_blocks_per_group)
            × Claims b b' at num')

    pub try_to_allocate_with_rsv-GroupTried :
        (sb : SbInfo) (group : ℕ) (w : Windows) (reserve : Bool) (b : Bitmap) (grp_goal : Option ℕ)
        (num : ℕ)
        → WindowsOk head w
        → GoalIn sb grp_goal
        → (reserve ≡ true → 0 < num)
        → num < 2 ^ 31
        → 0 < sb.s_blocks_per_group
        → GroupTried sb w reserve b grp_goal num (
            try_to_allocate_with_rsv rb next_zero scan sb group b grp_goal w
              (window_if me reserve)
              num)
    unfolding try_to_allocate_with_rsv
    try_to_allocate_with_rsv-GroupTried sb group w false b grp_goal num ok inside some_num small
          some_blocks =
        elim (try_to_allocate-Plain next_zero scan finds scans sb group b grp_goal num inside) [
          | inl (e, taken) ↦ inl (
            w,
            0,
            ground (arith, e),
            (ok, λ k _. refl),
            omega arith,
            λ f. absurd (cc f),
            λ _. taken,
          )
          | inr (at, num', b', e) ↦
              let (one, most, fits, claims) =
                plain_Claims next_zero scan finds scans sb group b b' grp_goal num at num' inside
                  e in
              inr (at, num', b', w, ground (arith, e), (ok, λ k _. refl), one, most, fits, claims)
        ]
    try_to_allocate_with_rsv-GroupTried sb group w true b grp_goal num ok inside some_num small
          some_blocks =
        elim (try_to_allocate_with_rsv-TriedOk rb laws head me other next_zero scan finds scans sb
          group b num (some_num refl) small some_blocks w grp_goal ok inside) [
            | inl (w', e, kept) ↦ inl (w', num, e, kept, omega arith, λ _. refl, λ f. absurd (cc f))
            | inr (at, num', b', w', e, kept, one, most, fits, claims, _, _) ↦
                inr (at, num', b', w', e, kept, one, asked-le num' num most, fits, claims)
          ]
