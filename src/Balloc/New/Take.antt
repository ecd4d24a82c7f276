-- ===== src/Balloc/New/Take.antt =====
-- The blocks that kr_new_blocks found are counted and in use (balloc.c).
use k_rack.Common.{
  ℕ, zero, suc, ◌+◌, ◌-◌, ◌*◌, ◌/◌, ◌%◌, ◌^◌, ◌≤◌, ◌<◌, ◌≡◌, refl, sym, ap, subst, ◌∙◌, ◌⊎◌, inl,
  inr, true, false, ◌&&◌, some, arith, ltb, leb, ◌==◌, if◌then◌else◌, ltb→lt, lt→ltb, leb→le,
  le→leb, Bool-cases, ℤ, Bitmap, count_set, count_set-le, rem, quot,
}
use k_rack.Super.{
  GroupDesc, SbInfo, get_group_desc, put_group_desc, put_bitmap, group_first_block_no, sub16,
}
use k_rack.Super.Laws.{get-put}
use k_rack.Super.Counts.{Consistent, Rewrites, Rewrites-Consistent, GroupOk-count, data_blocks}
use k_rack.Balloc.Allocate.Run.{Claims}
use k_rack.Balloc.Free.{read_block_bitmap}
use k_rack.Balloc.Free.Used.{bit_at, block_used, read_after, read_before, bits_after}
use k_rack.Balloc.New.{take_blocks}

-- How many bits of a run lie below `n`.
abbrev Below : Bitmap → Bitmap → ℕ → ℕ → ℕ → Type 0
Below b b' at num n =
    (m : ℕ) × (count_set b' n ≡ count_set b n + m)
    × (n ≤ at → m ≡ 0)
    × (at ≤ n → n ≤ at + num → m + at ≡ n)
    × (at + num ≤ n → m ≡ num)

count-Below : (b b' : Bitmap) (at num n : ℕ) → Claims b b' at num → Below b b' at num n
unfolding count_set
count-Below b b' at num zero c = (0, refl, λ _. refl, λ p q. omega arith, λ p. omega arith)
count-Below b b' at num (suc n) c =
    let (m, e, before, within, behind) = count-Below b b' at num n c in
    elim (Bool-cases (leb at n && ltb n (at + num))) [
      | inl inside ↦
          let low : at ≤ n = ground (arith, inside, leb→le at n) in
          let high : n < at + num = ground (arith, inside, ltb→lt n (at + num)) in
          let on : b' n ≡ true = ground (arith, inside, c.now_set n) in
          let off = c.were_clear n low high in
          (
            m + 1,
            ground (arith, e, on, off),
            λ p. absurd (omega arith),
            λ p q. omega (arith, within low (omega arith)),
            λ p. omega (arith, within low (omega arith)),
          )
      | inr outside ↦
          let same : b' n ≡ b n = ground (arith, outside, c.now_set n) in
          let apart : (n < at) ⊎ (at + num ≤ n) =
            ground (arith, outside, le→leb at n, lt→ltb n (at + num)) in
          (
            m,
            ground (arith, e, same),
            λ p. before (omega arith),
            λ p q. elim apart [
              | inl l ↦ omega (arith, before (omega arith))
              | inr l ↦ omega (arith, behind l)
            ],
            λ p. elim apart [ inl l ↦ omega (arith, before (omega arith)) | inr l ↦ behind l ],
          )
    ]

pub Claims-count :
    (b b' : Bitmap) (at num n : ℕ)
    → Claims b b' at num
    → at + num ≤ n
    → count_set b' n ≡ count_set b n + num
Claims-count b b' at num n c l =
    let (m, e, _, _, behind) = count-Below b b' at num n c in omega (arith, e, behind l)

abbrev pub taken_desc : GroupDesc → ℕ → GroupDesc
taken_desc desc num = record desc { bg_free_blocks_count = sub16 desc.bg_free_blocks_count num }

abbrev pub taken : SbInfo → ℕ → GroupDesc → Bitmap → ℕ → SbInfo
taken sb group desc b num = take_blocks (put_bitmap sb desc.bg_block_bitmap b) group desc num

pub taken-Rewrites :
    (sb : SbInfo) (group : ℕ) (desc : GroupDesc) (b : Bitmap) (num : ℕ)
    → Consistent data_blocks sb
    → get_group_desc sb group ≡ some desc
    → Rewrites data_blocks sb (taken sb group desc b num) group (taken_desc desc num) b
unfolding take_blocks get_group_desc put_group_desc
taken-Rewrites sb group desc b num c e = record {
  groups_count = refl;
  per_group = refl;
  per_block = refl;
  bits = refl;
  descs = λ h. get-put sb group h (taken_desc desc num) desc c.power c.some_desc e;
  maps = λ k. refl;
}

fewer :
    (n free used num : ℕ)
    → n < 2 ^ 16
    → free + used ≡ n
    → used + num ≤ n
    → sub16 free num + (used + num) ≡ n
fewer n free used num h e l = omega arith

pub taken-Consistent :
    (sb : SbInfo) (group : ℕ) (desc : GroupDesc) (b b' : Bitmap) (at num : ℕ)
    → Consistent data_blocks sb
    → get_group_desc sb group ≡ some desc
    → sb.bitmaps desc.bg_block_bitmap ≡ some b
    → Claims b b' at num
    → at + num ≤ sb.s_blocks_per_group
    → Consistent data_blocks (taken sb group desc b' num)
taken-Consistent sb group desc b b' at num c q m claims l =
    let n = sb.s_blocks_per_group in
    let sum = GroupOk-count data_blocks sb group desc b c q m in
    let more = Claims-count b b' at num n claims l in
    let f =
      fewer n desc.bg_free_blocks_count (count_set b n) num c.small sum
        (omega (arith, more, count_set-le b' n)) in
    Rewrites-Consistent data_blocks sb (taken sb group desc b' num) group desc (taken_desc desc num)
      b' c q refl (omega (arith, f, more)) (taken-Rewrites sb group desc b' num c q)

-- The blocks of the run come into use, and the use of no other block changes.
pub taken-block_used :
    (sb : SbInfo) (group : ℕ) (desc : GroupDesc) (b b' : Bitmap) (at num k : ℕ)
    → Consistent data_blocks sb
    → get_group_desc sb group ≡ some desc
    → sb.bitmaps desc.bg_block_bitmap ≡ some b
    → Claims b b' at num
    → 1 ≤ num
    → at + num ≤ sb.s_blocks_per_group
    → sb.s_first_data_block ≤ k
    → let block = at + group_first_block_no sb group in
      block_used (taken sb group desc b' num) k
      ≡ (if leb block k && ltb k (block + num) then some true else block_used sb k)
unfolding block_used group_first_block_no take_blocks put_group_desc
taken-block_used sb group desc b b' at num k c q m claims one l from =
    let bpg = sb.s_blocks_per_group in
    let first = sb.s_first_data_block in
    let block = at + (group * bpg + first) in
    let g : (block - first) / bpg ≡ group =
      ap (λ x. x / bpg) (omega arith) ∙ quot bpg group at (omega arith) in
    let r : (block - first) % bpg ≡ at =
      ap (λ x. x % bpg) (omega arith) ∙ rem bpg group at (omega arith) in
    let sb' = taken sb group desc b' num in
    let h = (k - first) / bpg in
    let j = (k - first) % bpg in
    let read =
      read_after sb sb' group h desc (taken_desc desc num) b' c q refl
        (taken-Rewrites sb group desc b' num c q) in
    let Run = λ (x : ℕ). b' j ≡ (if leb x j && ltb j (x + num) then true else b j) in
    let Read =
      λ (x : ℕ). read_block_bitmap sb' h ≡ (if h == x then some b' else read_block_bitmap sb h) in
    bits_after (read_block_bitmap sb) (read_block_bitmap sb') b b' true bpg first block num k
      (omega arith) from (omega (arith, r)) (subst Read (sym g) read)
      (ap (read_block_bitmap sb) g ∙ read_before sb group desc b q m)
      (subst Run (sym r) (claims.now_set j))

-- A block is found at its place in its group.
block_place :
    (sb : SbInfo) (group at k : ℕ)
    → at < sb.s_blocks_per_group
    → k ≡ at + group_first_block_no sb group
    → block_used sb k ≡ bit_at (read_block_bitmap sb group) at
unfolding block_used group_first_block_no
block_place sb group at k l e =
    let bpg = sb.s_blocks_per_group in
    let first = sb.s_first_data_block in
    let place : k - first ≡ group * bpg + at = omega (arith, e) in
    let g : (k - first) / bpg ≡ group = ap (λ x. x / bpg) place ∙ quot bpg group at l in
    let r : (k - first) % bpg ≡ at = ap (λ x. x % bpg) place ∙ rem bpg group at l in
    ap (λ x. bit_at (read_block_bitmap sb x) ((k - first) % bpg)) g
    ∙ ap (bit_at (read_block_bitmap sb group)) r

pub taken-were_free :
    (sb : SbInfo) (group : ℕ) (desc : GroupDesc) (b b' : Bitmap) (at num k : ℕ)
    → get_group_desc sb group ≡ some desc
    → sb.bitmaps desc.bg_block_bitmap ≡ some b
    → Claims b b' at num
    → at + num ≤ sb.s_blocks_per_group
    → at + group_first_block_no sb group ≤ k
    → k < at + group_first_block_no sb group + num
    → block_used sb k ≡ some false
taken-were_free sb group desc b b' at num k q m claims l low high =
    let bit = k - group_first_block_no sb group in
    block_place sb group bit k (omega arith) (omega arith)
    ∙ (ap (λ o. bit_at o bit) (read_before sb group desc b q m)
        ∙ ap some (claims.were_clear bit (omega arith) (omega arith)))

pub counter-block_used :
    (sb : SbInfo) (z : ℤ) (k : ℕ)
    → block_used (record sb { s_freeblocks_counter = z }) k ≡ block_used sb k
unfolding block_used read_block_bitmap get_group_desc
counter-block_used sb z k = refl
