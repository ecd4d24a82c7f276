-- ===== src/Balloc/New/Outcome.antt =====
-- The outcome of kr_new_blocks (balloc.c) as a whole.
use k_rack.Common.{
  ℕ, zero, suc, ◌+◌, ◌-◌, ◌*◌, ◌/◌, ◌%◌, ◌^◌, ◌≤◌, ◌<◌, ◌≡◌, refl, subst, ◌∙◌, ◌≢◌, ◌⊎◌, inl, inr,
  Bool, true, false, ◌&&◌, ◌||◌, Option, none, some, arith, ltb, leb, if◌then◌else◌, le→leb,
  Bool-cases, eio, enospc, Bitmap, FindsZero,
}
use native.Mathlib.Nat.{div-lt_iff_lt-mul}
use k_rack.Super.{GroupDesc, SbInfo, put_bitmap, group_first_block_no}
use k_rack.Balloc.Search.Laws.{ScansBytes}
use k_rack.Balloc.Free.{in_system_zone}
use k_rack.Balloc.Reserve.{RbTree, Windows, rsv_is_empty}
use k_rack.Balloc.Reserve.Search.{RbLaws}
use k_rack.Balloc.Window.Ok.{WindowsOk}
use k_rack.Balloc.New.{
  Attempt, missed, took, io_error, bug, spent, NewBlocks, allocated, error, Caller, has_free_blocks,
  is_reserved, keep_window, finish, search_all, retry_alloc, new_blocks,
}
use k_rack.Balloc.New.Try.Fresh.{Kept}
use k_rack.Balloc.New.Group.{asked, window_if}
use k_rack.Balloc.New.Round.{after_all}
use k_rack.Balloc.New.Once.{asked_mono, NoFree, AttemptOk, is_reserved-window_if}
use k_rack.Balloc.New.Search.{MissedRest, search_all-AttemptOk}
use k_rack.Balloc.New.Laws.{Given, given_sb, taken-Given, took_no_zone}
use k_rack.Balloc.New.Fs.{FsOk}

keep_window-if :
    (w : Windows) (me : ℕ) (reserve : Bool) (windowsz free : ℕ)
    → (r : Bool) × (keep_window w (window_if me reserve) windowsz free ≡ window_if me r)
      × (r ≡ true → reserve ≡ true)
keep_window-if w me false windowsz free = (false, refl, λ e. e)
keep_window-if w me true windowsz free =
    go (ltb free windowsz && (ltb 0 free && rsv_is_empty (w.at me)))
  where
    go :
        (t : Bool)
        → (r : Bool) × ((if t then none else some me) ≡ window_if me r) × (r ≡ true → true ≡ true)
    go true = (false, refl, λ _. refl)
    go false = (true, refl, λ _. refl)

module _ (rb : RbTree) (laws : RbLaws rb) (head me : ℕ) (other : me ≢ head)
    (next_zero scan : Bitmap → ℕ → ℕ → ℕ) (finds : FindsZero next_zero) (scans : ScansBytes scan)
    (sb : SbInfo) (fs : FsOk sb) where
  -- ENOSPC and no group has a free block, or blocks are given.
  abbrev pub NewOk : Windows → ℕ → NewBlocks → Type 0
  NewOk w count r =
      ((w' : Windows) × (r ≡ error sb w' enospc)
        × Kept rb laws head me other w w'
        × ((group : ℕ) → group < sb.s_groups_count → NoFree sb group))
      ⊎ ((sb' : SbInfo) × (w' : Windows) × (block : ℕ) × (num : ℕ) × (r
            ≡ allocated sb' w' block num)
          × Kept rb laws head me other w w'
          × Given sb sb' block num
          × (num ≤ count))

  -- What a round does with the answer of the search; `rest` is the round without a window.
  abbrev ends :
      Option ℕ
      → Attempt
      → (Windows → ℕ → NewBlocks)
      → (SbInfo → Windows → ℕ → ℕ → NewBlocks)
      → NewBlocks
  ends my r rest again = elim r [
    | bug ↦ bug
    | spent ↦ spent
    | io_error w' ↦ error sb w' eio
    | missed w' num' ↦ elim (is_reserved my) [ true ↦ rest w' num' | false ↦ error sb w' enospc ]
    | took sb' w' group' desc' at num' ↦
        let ret_block = at + group_first_block_no sb group' in
        elim (in_system_zone sb desc' ret_block num') [
          | true ↦ again sb' w' group' num'
          | false ↦ finish sb' w' group' desc' ret_block num'
        ]
  ]

  finish-allocated :
      (group : ℕ) (desc : GroupDesc) (b' : Bitmap) (w : Windows) (block num : ℕ)
      → leb sb.s_blocks_count (block + num - 1) ≡ false
      → finish (put_bitmap sb desc.bg_block_bitmap b') w group desc block num
        ≡ allocated (given_sb sb group desc b' num) w block num
  unfolding finish
  finish-allocated group desc b' w block num e = ground (arith, e)

  ends-NewOk :
      (w0 w : Windows) (reserve : Bool) (num0 num group : ℕ) (r : Attempt)
      (rest : Windows → ℕ → NewBlocks) (again : SbInfo → Windows → ℕ → ℕ → NewBlocks)
      → Kept rb laws head me other w0 w
      → num ≤ num0
      → (reserve ≡ true → num ≡ num0)
      → group < sb.s_groups_count
      → AttemptOk rb laws head me other next_zero scan finds scans sb fs.counts reserve
          (MissedRest rb laws head me other next_zero scan finds scans sb fs.counts reserve
            sb.s_groups_count group)
          w
          num
          r
      → (reserve ≡ true
          → (w' : Windows) (num' : ℕ) → Kept rb laws head me other w0 w'
          → num' ≡ num0
          → NewOk w0 (asked num0) (rest w' num'))
      → NewOk w0 (asked num0) (ends (window_if me reserve) r rest again)
  ends-NewOk w0 w reserve num0 num group r rest again (ok, others) le same l
        (inl (w', num', e, (ok', others'), le', same', none_left)) more =
      let kept : Kept rb laws head me other w0 w' = (ok', λ k ne. others' k ne ∙ others k ne) in
      elim (Bool-cases reserve) [
        | inl t ↦
            subst (NewOk w0 (asked num0)) (ground (arith, e, is_reserved-window_if me reserve, t))
              (more t w' num' kept (same' t ∙ same t))
        | inr f ↦ inl (
          w',
          ground (arith, e, is_reserved-window_if me reserve, f),
          kept,
          λ g m.
              let (i, il, ie) = after_all sb group g l m in subst (NoFree sb) ie (none_left f i il),
        )
      ]
  ends-NewOk w0 w reserve num0 num group r rest again (ok, others) le same l
        (inr (g, desc, b, at, num', b', w', e, (ok', others'), q, m, one, most, fits, claims))
        more =
      let block = at + group_first_block_no sb g in
      let (zone, last) = took_no_zone sb g desc b b' b' at num' fs q m one fits claims in
      inr (
        given_sb sb g desc b' num',
        w',
        block,
        num',
        ground (arith, e, zone, finish-allocated g desc b' w' block num' last),
        (ok', λ k ne. others' k ne ∙ others k ne),
        taken-Given sb g desc b b' at num' fs q m one fits claims,
        omega (arith, asked_mono num num0 le),
      )

  retry_alloc-NewOk :
      (fuel : ℕ) (w0 w : Windows) (reserve : Bool) (windowsz goal_group group goal num0 num : ℕ)
      → Kept rb laws head me other w0 w
      → goal_group < sb.s_groups_count
      → group < sb.s_groups_count
      → 0 < num0
      → num0 < 2 ^ 31
      → num ≤ num0
      → (reserve ≡ true → num ≡ num0)
      → 0 < fuel
      → (reserve ≡ true → 1 < fuel)
      → NewOk w0 (asked num0) (
          retry_alloc rb next_zero scan fuel sb w
            (window_if me reserve)
            windowsz
            goal_group
            group
            goal
            num)
  unfolding retry_alloc
  retry_alloc-NewOk zero w0 w reserve windowsz goal_group group goal num0 num kept gl l some_num
        small le same one two =
      absurd (omega arith)
  retry_alloc-NewOk (suc fuel) w0 w reserve windowsz goal_group group goal num0 num (ok, others) gl
        l some_num small le same one two =
      let (desc, _, q, _, _) = fs.counts.groups group l in
      let (r, my, on) = keep_window-if w me reserve windowsz desc.bg_free_blocks_count in
      let rest = λ (w' : Windows) (num' : ℕ).
        retry_alloc rb next_zero scan fuel sb w' none 0 goal_group goal_group goal num' in
      let again = λ (sb' : SbInfo) (w' : Windows) (group' num' : ℕ).
        retry_alloc rb next_zero scan fuel sb' w' (window_if me r) windowsz goal_group group' goal
          num' in
      subst (NewOk w0 (asked num0)) (ground (arith, q, my)) (
        ends-NewOk w0 w r num0 num group
          (search_all rb next_zero scan sb w (window_if me r) windowsz group desc goal num) rest
          again (ok, others) le (λ t. same (on t)) l
          (search_all-AttemptOk rb laws head me other next_zero scan finds scans sb fs.counts r w
            windowsz group desc goal num ok l q (λ t. omega (arith, same (on t))) (omega arith))
          (λ t w' num' kept' e.
            retry_alloc-NewOk fuel w0 w' false 0 goal_group goal_group goal num0 num' kept' gl gl
              some_num small (omega (arith, e)) (λ f. absurd (cc f)) (omega (arith, two (on t)))
              (λ f. absurd (cc f))))

  goal_group-lt :
      (goal : ℕ)
      → let first = sb.s_first_data_block in
        let goal' = if ltb goal first || leb sb.s_blocks_count goal then first else goal in
        (goal' - first) / sb.s_blocks_per_group < sb.s_groups_count
  goal_group-lt goal =
      let first = sb.s_first_data_block in
      let goal' = if ltb goal first || leb sb.s_blocks_count goal then first else goal in
      let inside : (goal' - first ≡ 0)
          ⊎ (goal' - first < sb.s_groups_count * sb.s_blocks_per_group) =
        ground (arith, fs.covers, le→leb sb.s_blocks_count goal) in
      (div-lt_iff_lt-mul fs.counts.some_bits).1
        (elim inside [ inl z ↦ grind (arith, z, fs.some_groups, fs.counts.some_bits) | inr h ↦ h ])

  size_window :
      (has reserve : Bool)
      → (r : Bool) × ((if has then window_if me reserve else none) ≡ window_if me r)
  size_window true reserve = (reserve, refl)
  size_window false reserve = (false, refl)

  -- With a working tree, bit search and byte search, a file system that is in order, the windows
  -- in order, no quota that refuses and a count from 1 to below 2^31, kr_new_blocks ends and
  -- never meets a BUG. It gives blocks or ENOSPC, and ENOSPC only if the caller may not have a
  -- block or no group has a free one. The blocks that it gives are at least one and at most as
  -- many as asked for, follow each other, exist, were free and are in use after; the use of no
  -- other block changes, the counts agree with the bitmaps, and the windows of other files are
  -- as they were.
  pub new_blocks-NewOk :
      (w : Windows) (who : Caller) (has_window : Bool) (goal count : ℕ)
      → WindowsOk head w
      → 0 < count
      → count < 2 ^ 31
      → let r = new_blocks rb next_zero scan sb w who none (window_if me has_window) goal count in
        ((has_free_blocks sb who ≡ false) × (r ≡ error sb w enospc)) ⊎ NewOk w count r
  unfolding new_blocks
  new_blocks-NewOk w who has_window goal count ok some_count small =
      elim (Bool-cases (has_free_blocks sb who)) [
        | inr refused ↦ inl (refused, ground (arith, refused))
        | inl allowed ↦
            let windowsz : ℕ = elim (window_if me has_window) [
              | none ↦ 0
              | some my ↦ (w.at my).rsv_goal_size % 2 ^ 16
            ] in
            let first = sb.s_first_data_block in
            let goal' = if ltb goal first || leb sb.s_blocks_count goal then first else goal in
            let group = (goal' - first) / sb.s_blocks_per_group in
            let (r, my) = size_window (ltb 0 windowsz) has_window in
            let fuel = sb.s_groups_count * sb.s_blocks_per_group + 2 in
            let Ok = NewOk w count in
            inr (
              subst Ok (ground (arith, allowed, my)) (
                exact count some_count (
                  retry_alloc-NewOk fuel w w r windowsz group group goal' count count
                    (ok, λ k _. refl) (goal_group-lt goal) (goal_group-lt goal) some_count small
                    (omega arith) (λ _. refl) (omega arith) (λ _. omega arith))))
      ]
    where
      exact : {r : NewBlocks} (n : ℕ) → 0 < n → NewOk w (asked n) r → NewOk w n r
      exact zero l h = absurd (omega arith)
      exact (suc n) l h = h
