-- ===== src/Balloc/New/Once.antt =====
-- One attempt of kr_new_blocks in a group, and what follows one that missed (balloc.c).
use k_rack.Common.{
  ℕ, zero, suc, ◌+◌, ◌^◌, ◌≤◌, ◌<◌, ◌≡◌, refl, subst, ◌∙◌, ◌≢◌, ◌⊎◌, inl, inr, Bool, true, false,
  Option, none, some, arith, Bitmap, count_set, FindsZero,
}
use k_rack.Super.{GroupDesc, SbInfo, get_group_desc, put_bitmap}
use k_rack.Super.Counts.{Consistent, data_blocks}
use k_rack.Balloc.Search.Laws.{ScansBytes}
use k_rack.Balloc.Allocate.Run.{Claims}
use k_rack.Balloc.Free.{read_block_bitmap}
use k_rack.Balloc.Reserve.{RbTree, Windows}
use k_rack.Balloc.Reserve.Search.{RbLaws}
use k_rack.Balloc.Window.Ok.{WindowsOk}
use k_rack.Balloc.New.{Attempt, missed, took, io_error, bug, spent, is_reserved, attempt}
use k_rack.Balloc.New.Try.Fresh.{Kept, GoalIn}
use k_rack.Balloc.New.Group.{asked, window_if, try_to_allocate_with_rsv-GroupTried}

pub asked_mono : (m n : ℕ) → m ≤ n → asked m ≤ asked n
asked_mono zero zero l = omega arith
asked_mono zero (suc n) l = omega arith
asked_mono (suc m) zero l = absurd (omega arith)
asked_mono (suc m) (suc n) l = l

count_set-all : (b : Bitmap) (n : ℕ) → ((k : ℕ) → k < n → b k ≡ true) → count_set b n ≡ n
unfolding count_set
count_set-all b zero h = refl
count_set-all b (suc n) h =
    ground (arith, h n (omega arith), count_set-all b n (λ k l. h k (omega arith)))

pub is_reserved-window_if : (me : ℕ) (reserve : Bool) → is_reserved (window_if me reserve) ≡ reserve
is_reserved-window_if me true = refl
is_reserved-window_if me false = refl

-- A group whose count of free blocks is 0, if there is such a group.
abbrev pub NoFree : SbInfo → ℕ → Type 0
NoFree sb group =
    (desc : GroupDesc) → get_group_desc sb group ≡ some desc → desc.bg_free_blocks_count ≡ 0

module _ (rb : RbTree) (laws : RbLaws rb) (head me : ℕ) (other : me ≢ head)
    (next_zero scan : Bitmap → ℕ → ℕ → ℕ) (finds : FindsZero next_zero) (scans : ScansBytes scan)
    (sb : SbInfo) (c : Consistent data_blocks sb) (reserve : Bool) where
  -- Free blocks of a group are claimed, or none are and then `Miss` holds.
  abbrev pub AttemptOk : Type 0 → Windows → ℕ → Attempt → Type 0
  AttemptOk Miss w num r =
      ((w' : Windows) × (num' : ℕ) × (r ≡ missed w' num')
        × Kept rb laws head me other w w'
        × (num' ≤ num)
        × (reserve ≡ true → num' ≡ num)
        × Miss)
      ⊎ ((group : ℕ) × (desc : GroupDesc) × (b : Bitmap) × (at : ℕ) × (num' : ℕ) × (b' : Bitmap)
          × (w' : Windows) × (r
              ≡ took (put_bitmap sb desc.bg_block_bitmap b') w' group desc at num')
          × Kept rb laws head me other w w'
          × (get_group_desc sb group ≡ some desc)
          × (sb.bitmaps desc.bg_block_bitmap ≡ some b)
          × (1 ≤ num')
          × (num' ≤ asked num)
          × (at + num' ≤ sb.s_blocks_per_group)
          × Claims b b' at num')

  -- What follows an attempt that missed.
  abbrev pub then_rest : Attempt → (Windows → ℕ → Attempt) → Attempt
  then_rest r rest = elim r [
    | missed w' num' ↦ rest w' num'
    | took sb' w' g d at num' ↦ took sb' w' g d at num'
    | io_error w' ↦ io_error w'
    | bug ↦ bug
    | spent ↦ spent
  ]

  pub then_rest-AttemptOk :
      (P Q : Type 0) (w0 w : Windows) (num0 num : ℕ) (r : Attempt) (rest : Windows → ℕ → Attempt)
      → Kept rb laws head me other w0 w
      → num ≤ num0
      → (reserve ≡ true → num ≡ num0)
      → AttemptOk P w num r
      → ((w' : Windows) (num' : ℕ)
          → Kept rb laws head me other w0 w'
          → num' ≤ num0
          → (reserve ≡ true → num' ≡ num0)
          → P
          → AttemptOk Q w0 num0 (rest w' num'))
      → AttemptOk Q w0 num0 (then_rest r rest)
  then_rest-AttemptOk P Q w0 w num0 num r rest (ok, others) le same
        (inl (w', num', e, (ok', others'), le', same', p)) more =
      subst (AttemptOk Q w0 num0) (ground (arith, e)) (
        more w' num' (ok', λ k ne. others' k ne ∙ others k ne) (omega arith) (λ t. same' t ∙ same t)
          p)
  then_rest-AttemptOk P Q w0 w num0 num r rest (ok, others) le same
        (inr (group, desc, b, at, num', b', w', e, (ok', others'), q, m, one, most, fits, claims))
        more =
      inr (
        group,
        desc,
        b,
        at,
        num',
        b',
        w',
        ground (arith, e),
        (ok', λ k ne. others' k ne ∙ others k ne),
        q,
        m,
        one,
        omega (arith, asked_mono num num0 le),
        fits,
        claims,
      )

  pub attempt-AttemptOk :
      (w : Windows) (group : ℕ) (desc : GroupDesc) (grp_goal : Option ℕ) (num : ℕ)
      → WindowsOk head w
      → group < sb.s_groups_count
      → get_group_desc sb group ≡ some desc
      → GoalIn sb grp_goal
      → (reserve ≡ true → 0 < num)
      → num < 2 ^ 31
      → AttemptOk
          (reserve ≡ false → grp_goal ≡ none → desc.bg_free_blocks_count ≡ 0)
          w
          num
          (attempt rb next_zero scan sb w (window_if me reserve) group desc grp_goal num)
  unfolding attempt read_block_bitmap
  attempt-AttemptOk w group desc grp_goal num ok l q inside some_num small =
      let (desc', b, q', m', sum) = c.groups group l in
      let same : desc' ≡ desc = cc (q, q') in
      let m : sb.bitmaps desc.bg_block_bitmap ≡ some b =
        subst (λ d. sb.bitmaps d.bg_block_bitmap ≡ some b) same m' in
      let sum' : desc.bg_free_blocks_count + count_set b sb.s_blocks_per_group
          ≡ sb.s_blocks_per_group =
        subst
          (λ d. d.bg_free_blocks_count + count_set b sb.s_blocks_per_group ≡ sb.s_blocks_per_group)
          same sum in
      elim (try_to_allocate_with_rsv-GroupTried rb laws head me other next_zero scan finds scans sb
        group w reserve b grp_goal num ok inside some_num small c.some_bits) [
          | inl (w', num', e, kept, le, same_num, taken) ↦ inl (
            w',
            num',
            ground (arith, q, m, e),
            kept,
            le,
            same_num,
            λ t n. omega (arith, sum', count_set-all b sb.s_blocks_per_group (taken t n)),
          )
          | inr (at, num', b', w', e, kept, one, most, fits, claims) ↦ inr (
            group,
            desc,
            b,
            at,
            num',
            b',
            w',
            ground (arith, q, m, e),
            kept,
            q,
            m,
            one,
            most,
            fits,
            claims,
          )
        ]
