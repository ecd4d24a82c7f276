-- ===== src/Balloc/Free/Used.antt =====
-- Which blocks are in use, before and after the blocks of one group are freed (balloc.c).
use k_rack.Common.{
  ℕ, ◌+◌, ◌-◌, ◌*◌, ◌/◌, ◌%◌, ◌≤◌, ◌<◌, ◌≡◌, sym, ap, ◌∙◌, ◌≢◌, inl, inr, Bool, true, false, ◌&&◌,
  Option, none, some, arith, ltb, leb, ◌==◌, if◌then◌else◌, ltb→lt, lt→ltb, leb→le, le→leb,
  Bool-cases, Option-cases, Bitmap, quot,
}
use native.Mathlib.Nat.{div-add-mod'}
use native.Mathlib.Decide.{ℕ_discrete}
use k_rack.Super.{GroupDesc, SbInfo, get_group_desc}
use k_rack.Super.Counts.{data_blocks, Consistent, Rewrites}
use k_rack.Balloc.Free.{read_block_bitmap, in_system_zone, clear_run, free_in_group}
use k_rack.Balloc.Free.Group.{
  clear_run-count, adjusted, adjusted_desc, adjusted_desc-same, adjusted-Rewrites,
  free_in_group-Kept,
}

abbrev pub bit_at : Option Bitmap → ℕ → Option Bool
bit_at none j = none
bit_at (some b) j = some (b j)

-- Whether the bit of a block is set, if its bitmap can be read.
unfoldable pub block_used : SbInfo → ℕ → Option Bool
block_used sb k =
    bit_at (read_block_bitmap sb ((k - sb.s_first_data_block) / sb.s_blocks_per_group))
      ((k - sb.s_first_data_block) % sb.s_blocks_per_group)

pub read_after :
    (sb sb' : SbInfo) (g h : ℕ) (old desc : GroupDesc) (b : Bitmap)
    → Consistent data_blocks sb
    → get_group_desc sb g ≡ some old
    → desc.bg_block_bitmap ≡ old.bg_block_bitmap
    → Rewrites data_blocks sb sb' g desc b
    → read_block_bitmap sb' h ≡ (if h == g then some b else read_block_bitmap sb h)
unfolding read_block_bitmap
read_after sb sb' g h old desc b c q same w = elim (ℕ_discrete h g) [
  | yes here ↦ ground (arith, w.descs h, w.maps desc.bg_block_bitmap)
  | no other ↦ elim (Option-cases (get_group_desc sb h)) [
    | inl n ↦ ground (arith, w.descs h)
    | inr (d, n) ↦ ground (arith, w.descs h, w.maps d.bg_block_bitmap, c.apart h g d old n q)
  ]
]

pub read_before :
    (sb : SbInfo) (g : ℕ) (desc : GroupDesc) (b : Bitmap)
    → get_group_desc sb g ≡ some desc
    → sb.bitmaps desc.bg_block_bitmap ≡ some b
    → read_block_bitmap sb g ≡ some b
unfolding read_block_bitmap
read_before sb g desc b q m = ground arith

-- In the group of the run, the bits of the run are those of its blocks.
same_group :
    (n first block count k : ℕ)
    → first ≤ block
    → first ≤ k
    → (k - first) / n ≡ (block - first) / n
    → (leb ((block - first) % n) ((k - first) % n)
        && ltb ((k - first) % n) ((block - first) % n + count))
      ≡ (leb block k && ltb k (block + count))
same_group n first block count k l m e =
    compare_by ((block - first) % n) ((k - first) % n)
      (omega (arith, div-add-mod' (block - first) n, div-add-mod' (k - first) n, ap (λ x. x * n) e))
  where
    compare_by :
        (i j : ℕ)
        → block + j ≡ k + i
        → (leb i j && ltb j (i + count)) ≡ (leb block k && ltb k (block + count))
    compare_by i j f = ground (
      arith,
      leb→le i j,
      ltb→lt j (i + count),
      leb→le block k,
      ltb→lt k (block + count),
      le→leb i j,
      lt→ltb j (i + count),
      le→leb block k,
      lt→ltb k (block + count),
    )

-- Outside the group of the run there is no block of it.
other_group :
    (n first block count k : ℕ)
    → first ≤ block
    → first ≤ k
    → (block - first) % n + count ≤ n
    → (k - first) / n ≢ (block - first) / n
    → (leb block k && ltb k (block + count)) ≡ false
other_group n first block count k l m fits ne =
    elim (Bool-cases (leb block k && ltb k (block + count))) [
      | inr out ↦ out
      | inl within ↦
          let low : block ≤ k = ground (arith, leb→le block k) in
          let high : k < block + count = ground (arith, ltb→lt k (block + count)) in
          absurd (
            ne (
              ap (λ x. x / n) (omega (arith, div-add-mod' (block - first) n))
              ∙ quot n ((block - first) / n) ((block - first) % n + (k - block)) (omega arith)))
    ]

pub bits_after :
    (o o' : ℕ → Option Bitmap) (b b' : Bitmap) (v : Bool) (n first block count k : ℕ)
    → first ≤ block
    → first ≤ k
    → (block - first) % n + count ≤ n
    → o' ((k - first) / n)
      ≡ (if (k - first) / n == (block - first) / n then some b' else o ((k - first) / n))
    → o ((block - first) / n) ≡ some b
    → b' ((k - first) % n) ≡ (
        if leb ((block - first) % n) ((k - first) % n)
          && ltb ((k - first) % n) ((block - first) % n + count)
        then v
        else b ((k - first) % n))
    → bit_at (o' ((k - first) / n)) ((k - first) % n) ≡ (
        if leb block k && ltb k (block + count)
        then some v
        else bit_at (o ((k - first) / n)) ((k - first) % n))
bits_after o o' b b' v n first block count k l m fits read here map =
    elim (ℕ_discrete ((k - first) / n) ((block - first) / n)) [
      | yes same ↦
          ground (arith, read, ap o same, here, map, same_group n first block count k l m same)
      | no other ↦ ground (arith, read, other_group n first block count k l m fits other)
    ]

-- The state behind a group that was freed.
abbrev Behind : SbInfo → SbInfo → ℕ → ℕ → ℕ → Type 0
Behind sb sb' group bit count =
    (desc : GroupDesc) × (b : Bitmap) × (get_group_desc sb group ≡ some desc)
    × (sb.bitmaps desc.bg_block_bitmap ≡ some b)
    × (sb' ≡ adjusted sb group desc (clear_run count b bit).1 (clear_run count b bit).0)

free_in_group-Behind :
    (sb sb' : SbInfo) (group bit block count n : ℕ)
    → free_in_group sb group bit block count ≡ some (sb', n)
    → Behind sb sb' group bit count
unfolding free_in_group read_block_bitmap
free_in_group-Behind sb sb' group bit block count n e =
    elim (Option-cases (get_group_desc sb group)) [
      | inl q ↦ absurd (ground arith)
      | inr (desc, q) ↦ elim (Option-cases (sb.bitmaps desc.bg_block_bitmap)) [
        | inl m ↦ absurd (ground arith)
        | inr (b, m) ↦
            let r = clear_run count b bit in
            (
              desc,
              b,
              q,
              m,
              sym (
                  out (in_system_zone sb desc block count) (adjusted sb group desc r.1 r.0) r.0
                    (ground arith)),
            )
      ]
    ]
  where
    out :
        (t : Bool) (s : SbInfo) (m : ℕ)
        → ◌≡◌ {A = Option (SbInfo × ℕ)} (if t then none else some (s, m)) (some (sb', n))
        → s ≡ sb'
    out true s m e = absurd (cc e)
    out false s m e = cc e

-- With counts that agree with the bitmaps, when the blocks of a run that lies in one group are
-- freed, each block of the run is out of use, and the use of no other data block changes.
pub free_in_group-block_used :
    (sb sb' : SbInfo) (block count n k : ℕ)
    → let bit = (block - sb.s_first_data_block) % sb.s_blocks_per_group in
      let group = (block - sb.s_first_data_block) / sb.s_blocks_per_group in
      Consistent data_blocks sb
      → sb.s_first_data_block ≤ block
      → sb.s_first_data_block ≤ k
      → bit + count ≤ sb.s_blocks_per_group
      → free_in_group sb group bit block count ≡ some (sb', n)
      → block_used sb' k
        ≡ (if leb block k && ltb k (block + count) then some false else block_used sb k)
unfolding block_used
free_in_group-block_used sb sb' block count n k c l m fits e =
    let bpg = sb.s_blocks_per_group in
    let first = sb.s_first_data_block in
    let g = (block - first) / bpg in
    let bit = (block - first) % bpg in
    let (desc, b, q, f, state) = free_in_group-Behind sb sb' g bit block count n e in
    let (_, per_group, same_first) = free_in_group-Kept sb sb' g bit block count n c fits e in
    let r = clear_run count b bit in
    let w = adjusted-Rewrites sb g desc r.1 r.0 c q in
    let (maps, _) = clear_run-count count b bit bpg fits in
    let read =
      read_after sb (adjusted sb g desc r.1 r.0) g ((k - first) / bpg) desc (adjusted_desc desc r.0)
        r.1 c q (adjusted_desc-same desc r.0) w in
    let h = (k - first) / bpg in
    let j = (k - first) % bpg in
    let view = λ (x y : ℕ). bit_at (read_block_bitmap sb' ((k - x) / y)) ((k - x) % y) in
    ap (λ x. view x sb'.s_blocks_per_group) same_first
    ∙ (ap (view first) per_group
        ∙ bits_after (read_block_bitmap sb) (read_block_bitmap sb') b r.1 false bpg first block
            count k l m fits (ap (λ s. read_block_bitmap s h) state ∙ read)
            (read_before sb g desc b q f) (maps j))
