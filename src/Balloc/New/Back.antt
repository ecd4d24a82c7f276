-- ===== src/Balloc/New/Back.antt =====
-- kr_free_blocks behind kr_new_blocks (balloc.c).
use k_rack.Common.{
  ℕ, suc, ◌+◌, ◌-◌, ◌/◌, ◌%◌, ◌^◌, ◌≤◌, ◌<◌, ◌≡◌, refl, sym, ap, subst, ◌∙◌, ◌≢◌, inl, inr, Bool,
  true, false, ◌&&◌, ◌||◌, Option, none, some, arith, ltb, leb, ◌==◌, if◌then◌else◌, ltb→lt, leb→le,
  pos, ◌+ℤ◌, Bitmap, FindsZero,
}
use k_rack.Super.{GroupDesc, SbInfo, get_group_desc}
use k_rack.Balloc.Search.Laws.{ScansBytes}
use k_rack.Balloc.Free.{
  read_block_bitmap, in_system_zone, clear_run, free_in_group, free_from, free_blocks,
}
use k_rack.Balloc.Free.Group.{adjusted}
use k_rack.Balloc.Free.Used.{block_used, free_in_group-block_used}
use k_rack.Balloc.Reserve.{RbTree, Windows}
use k_rack.Balloc.Reserve.Search.{RbLaws}
use k_rack.Balloc.Window.Ok.{WindowsOk}
use k_rack.Balloc.New.{NewBlocks, allocated, error, bug, spent, Caller, new_blocks}
use k_rack.Balloc.New.Group.{window_if}
use k_rack.Balloc.New.Take.{counter-block_used}
use k_rack.Balloc.New.Laws.{Given}
use k_rack.Balloc.New.Fs.{FsOk}
use k_rack.Balloc.New.Outcome.{new_blocks-NewOk}

-- A group outside the system zone whose bitmap can be read is freed.
free_in_group-some :
    (sb : SbInfo) (group bit block count : ℕ) (desc : GroupDesc) (b : Bitmap)
    → get_group_desc sb group ≡ some desc
    → sb.bitmaps desc.bg_block_bitmap ≡ some b
    → in_system_zone sb desc block count ≡ false
    → (sb' : SbInfo) × (n : ℕ) × (free_in_group sb group bit block count ≡ some (sb', n))
unfolding free_in_group read_block_bitmap
free_in_group-some sb group bit block count desc b q m zone =
    let r = clear_run count b bit in
    (adjusted sb group desc r.1 r.0, r.0, ground (arith, q, m, zone))

-- A run in one group is freed in one round.
free_from-one :
    (sb sb' : SbInfo) (block count n : ℕ)
    → (block - sb.s_first_data_block) % sb.s_blocks_per_group + count ≤ sb.s_blocks_per_group
    → free_in_group sb
        ((block - sb.s_first_data_block) / sb.s_blocks_per_group)
        ((block - sb.s_first_data_block) % sb.s_blocks_per_group)
        block
        count
      ≡ some (sb', n)
    → free_from (count + 1) sb block count 0 ≡ (sb', n)
unfolding free_from
free_from-one sb sb' block count n fits e =
    let group = (block - sb.s_first_data_block) / sb.s_blocks_per_group in
    let bit = (block - sb.s_first_data_block) % sb.s_blocks_per_group in
    let over : (bit + count - sb.s_blocks_per_group == 0) ≡ true = ground (arith, fits) in
    let whole : count - (bit + count - sb.s_blocks_per_group) ≡ count = omega arith in
    let here = ap (free_in_group sb group bit block) whole ∙ e in
    ap (λ fuel. free_from fuel sb block count 0) {x = count + 1} {y = suc count} (omega arith)
    ∙ after (free_in_group sb group bit block (count - (bit + count - sb.s_blocks_per_group)))
        (bit + count - sb.s_blocks_per_group == 0)
        (λ s m.
          free_from count s (block + (count - (bit + count - sb.s_blocks_per_group)))
            (bit + count - sb.s_blocks_per_group) (0 + m))
        here over
  where
    after :
        (o : Option (SbInfo × ℕ)) (t : Bool) (rest : SbInfo → ℕ → SbInfo × ℕ)
        → o ≡ some (sb', n)
        → t ≡ true
        → ◌≡◌ {A = SbInfo × ℕ}
            (elim o [ none ↦ (sb, 0) | some (s, m) ↦ if t then (s, 0 + m) else rest s m ])
            (sb', n)
    after none t rest e f = absurd (cc e)
    after (some (s, m)) false rest e f = absurd (cc f)
    after (some (s, m)) true rest e f = out (s, m) (cc e)
      where
        out : (r : SbInfo × ℕ) → r ≡ (sb', n) → ◌≡◌ {A = SbInfo × ℕ} (r.0, 0 + r.1) (sb', n)
        out r e =
            ap (λ (x : SbInfo × ℕ). (x.0, 0 + x.1)) e
            ∙ ap (λ m. (sb', m)) {x = 0 + n} {y = n} (omega arith)

free_blocks-block_used :
    (sb : SbInfo) (block count n : ℕ) (sb' : SbInfo) (k : ℕ)
    → free_from (count + 1) sb block count 0 ≡ (sb', n)
    → sb.s_first_data_block ≤ block
    → block + count ≤ sb.s_blocks_count
    → sb.s_blocks_count < 2 ^ 32
    → block_used (free_blocks sb block count) k ≡ block_used sb' k
unfolding free_blocks
free_blocks-block_used sb block count n sb' k e from exist small =
    let last : (block + count) % 2 ^ 64 ≡ block + count = omega arith in
    let fine : (ltb block sb.s_first_data_block
          || (ltb ((block + count) % 2 ^ 64) block
              || ltb sb.s_blocks_count ((block + count) % 2 ^ 64)))
        ≡ false =
      ground (
        arith,
        last,
        ltb→lt block sb.s_first_data_block,
        ltb→lt ((block + count) % 2 ^ 64) block,
        ltb→lt sb.s_blocks_count ((block + count) % 2 ^ 64),
      ) in
    go
      (ltb block sb.s_first_data_block
        || (ltb ((block + count) % 2 ^ 64) block
            || ltb sb.s_blocks_count ((block + count) % 2 ^ 64)))
      (free_from (count + 1) sb block count 0) fine e
  where
    go :
        (t : Bool) (r : SbInfo × ℕ)
        → t ≡ false
        → r ≡ (sb', n)
        → block_used
            (if t
              then sb
              else record r.0 { s_freeblocks_counter = (r.0).s_freeblocks_counter +ℤ pos r.1 })
            k
          ≡ block_used sb' k
    go true r f e = absurd (cc f)
    go false r f e =
        counter-block_used r.0 ((r.0).s_freeblocks_counter +ℤ pos r.1) k
        ∙ ap (λ (x : SbInfo × ℕ). block_used x.0 k) e

-- What was given is free again, and the use of all blocks is as it was before.
Given-free_blocks :
    (sb sb' : SbInfo) (block num k : ℕ)
    → Given sb sb' block num
    → sb.s_blocks_count < 2 ^ 32
    → sb.s_first_data_block ≤ k
    → block_used (free_blocks sb' block num) k ≡ block_used sb k
Given-free_blocks sb sb' block num k given small from =
    let bit = (block - sb'.s_first_data_block) % sb'.s_blocks_per_group in
    let group = (block - sb'.s_first_data_block) / sb'.s_blocks_per_group in
    let (desc, b, q, m, _) = given.counts.groups group given.group_exists in
    let (sb2, n, e) =
      free_in_group-some sb' group bit block num desc b q m (given.no_system desc q) in
    let one = free_from-one sb' sb2 block num n given.one_group e in
    let low : sb'.s_first_data_block ≤ block = omega (arith, given.same_first, given.from_first) in
    let freed =
      free_in_group-block_used sb' sb2 block num n k given.counts low
        (omega (arith, given.same_first)) given.one_group e in
    free_blocks-block_used sb' block num n sb2 k one low
      (omega (arith, given.same_count, given.exist)) (omega (arith, given.same_count))
    ∙ (freed ∙ back (leb block k && ltb k (block + num)) refl (given.now_used k from))
  where
    back :
        (t : Bool)
        → (leb block k && ltb k (block + num)) ≡ t
        → block_used sb' k ≡ (if t then some true else block_used sb k)
        → (if t then some false else block_used sb' k) ≡ block_used sb k
    back true e f = sym (
        given.were_free k (leb→le block k (ground (arith, e)))
          (ltb→lt k (block + num) (ground (arith, e))))
    back false e f = f

abbrev GivenIn : SbInfo → NewBlocks → Type 0
GivenIn sb (allocated sb' w block num) = Given sb sb' block num
GivenIn sb (error sb' w err) = ⊥
GivenIn sb bug = ⊥
GivenIn sb spent = ⊥

module _ (rb : RbTree) (laws : RbLaws rb) (head me : ℕ) (other : me ≢ head)
    (next_zero scan : Bitmap → ℕ → ℕ → ℕ) (finds : FindsZero next_zero) (scans : ScansBytes scan)
    (sb : SbInfo) (fs : FsOk sb) where
  -- With a working tree, bit search and byte search, a file system that is in order, the windows
  -- in order and a count from 1 to below 2^31: to free the blocks that kr_new_blocks just gave
  -- brings back the use of every block.
  pub new_blocks-free_blocks :
      (w w' : Windows) (who : Caller) (has_window : Bool) (goal count : ℕ) (sb' : SbInfo)
      (block num k : ℕ)
      → WindowsOk head w
      → 0 < count
      → count < 2 ^ 31
      → new_blocks rb next_zero scan sb w who none (window_if me has_window) goal count
        ≡ allocated sb' w' block num
      → sb.s_first_data_block ≤ k
      → block_used (free_blocks sb' block num) k ≡ block_used sb k
  new_blocks-free_blocks w w' who has_window goal count sb' block num k ok some_count small e from =
      Given-free_blocks sb sb' block num k
        (elim (new_blocks-NewOk rb laws head me other next_zero scan finds scans sb fs w who
          has_window goal count ok some_count small) [
            | inl (_, f) ↦ absurd (cc (f, e))
            | inr (inl (_, f, _, _)) ↦ absurd (cc (f, e))
            | inr (inr (sb2, w2, block2, num2, f, _, given, _)) ↦
                subst (GivenIn sb) (sym f ∙ e) given
          ])
        fs.small from
