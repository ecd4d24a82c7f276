-- ===== src/Balloc/Free/Group.antt =====
-- The blocks of one group freed: the bits that are cleared and the count of them (balloc.c).
use k_rack.Common.{
  ℕ, zero, suc, ◌+◌, ◌%◌, ◌^◌, ◌≤◌, ◌<◌, ◌≡◌, refl, ap, subst, inl, inr, Bool, true, false, ◌&&◌,
  Option, none, some, arith, ltb, leb, if◌then◌else◌, ltb→lt, lt→ltb, leb→le, le→leb, Bool-cases,
  Option-cases, Bitmap, write_bit, count_set, count_set-clear, count_set-ext,
}
use k_rack.Super.{GroupDesc, SbInfo, get_group_desc, put_group_desc, put_bitmap}
use k_rack.Super.Laws.{get-put}
use k_rack.Super.Counts.{data_blocks, Consistent, Rewrites, Rewrites-Consistent, GroupOk-count}
use k_rack.Balloc.Free.{
  read_block_bitmap, in_system_zone, clear_run, group_adjust_blocks, free_in_group,
}

-- For a run within the first `n` bits, `clear_run` clears its bits and no others, and its count is
-- how many of the `n` bits became clear.
pub clear_run-count :
    (count : ℕ) (b : Bitmap) (bit n : ℕ)
    → bit + count ≤ n
    → let r = clear_run count b bit in
      ((k : ℕ) → r.1 k ≡ (if leb bit k && ltb k (bit + count) then false else b k))
      × (count_set r.1 n + r.0 ≡ count_set b n)
unfolding clear_run
clear_run-count zero b bit n l =
    (λ k. ground (arith, leb→le bit k, ltb→lt k (bit + 0)), omega arith)
clear_run-count (suc count) b bit n l =
    let (maps, sum) = clear_run-count count (write_bit b bit false) (bit + 1) n (omega arith) in
    (
      λ k. ground (
        arith,
        maps k,
        leb→le bit k,
        ltb→lt k (bit + suc count),
        leb→le (bit + 1) k,
        ltb→lt k (bit + 1 + count),
        le→leb bit k,
        lt→ltb k (bit + suc count),
        le→leb (bit + 1) k,
        lt→ltb k (bit + 1 + count),
      ),
      elim (Bool-cases (b bit)) [
        | inl set_ ↦ ground (arith, sum, count_set-clear b bit n)
        | inr clear ↦ ground (
          arith,
          sum,
          count_set-ext (write_bit b bit false) b n
              (λ k. ground (arith, clear, ap b {x = k} {y = bit})),
        )
      ],
    )

abbrev pub adjusted_desc : GroupDesc → ℕ → GroupDesc
adjusted_desc desc zero = desc
adjusted_desc desc (suc count) = record desc {
  bg_free_blocks_count = (desc.bg_free_blocks_count + suc count) % 2 ^ 16;
}

abbrev pub adjusted : SbInfo → ℕ → GroupDesc → Bitmap → ℕ → SbInfo
adjusted sb group desc b count =
    group_adjust_blocks (put_bitmap sb desc.bg_block_bitmap b) group desc count

pub adjusted-Rewrites :
    (sb : SbInfo) (group : ℕ) (desc : GroupDesc) (b : Bitmap) (count : ℕ)
    → Consistent data_blocks sb
    → get_group_desc sb group ≡ some desc
    → Rewrites data_blocks sb (adjusted sb group desc b count) group (adjusted_desc desc count) b
unfolding group_adjust_blocks get_group_desc put_group_desc
adjusted-Rewrites sb group desc b zero c e = record {
  groups_count = refl;
  per_group = refl;
  per_block = refl;
  bits = refl;
  descs = λ h. ground (arith, ap (get_group_desc sb) {x = h} {y = group});
  maps = λ k. refl;
}
adjusted-Rewrites sb group desc b (suc count) c e = record {
  groups_count = refl;
  per_group = refl;
  per_block = refl;
  bits = refl;
  descs = λ h. get-put sb group h (adjusted_desc desc (suc count)) desc c.power c.some_desc e;
  maps = λ k. refl;
}

pub more_free :
    (n free used used' count : ℕ)
    → n < 2 ^ 16
    → free + used ≡ n
    → used' + count ≡ used
    → (free + count) % 2 ^ 16 + used' ≡ n
more_free n free used used' count h e p = omega arith

pub adjusted_desc-count :
    (desc : GroupDesc) (n used used' count : ℕ)
    → n < 2 ^ 16
    → desc.bg_free_blocks_count + used ≡ n
    → used' + count ≡ used
    → (adjusted_desc desc count).bg_free_blocks_count + used' ≡ n
adjusted_desc-count desc n used used' zero h e p = omega arith
adjusted_desc-count desc n used used' (suc count) h e p =
    more_free n desc.bg_free_blocks_count used used' (suc count) h e p

pub adjusted_desc-same :
    (desc : GroupDesc) (count : ℕ)
    → (adjusted_desc desc count).bg_block_bitmap ≡ desc.bg_block_bitmap
adjusted_desc-same desc zero = refl
adjusted_desc-same desc (suc count) = refl

-- What the rest of `free_blocks` relies on after a group.
abbrev pub Kept : SbInfo → SbInfo → Type 0
Kept sb sb' =
    Consistent data_blocks sb'
    × (sb'.s_blocks_per_group ≡ sb.s_blocks_per_group)
    × (sb'.s_first_data_block ≡ sb.s_first_data_block)

pub adjusted-Kept :
    (sb : SbInfo) (group : ℕ) (desc : GroupDesc) (b b' : Bitmap) (count : ℕ)
    → Consistent data_blocks sb
    → get_group_desc sb group ≡ some desc
    → sb.bitmaps desc.bg_block_bitmap ≡ some b
    → count_set b' sb.s_blocks_per_group + count ≡ count_set b sb.s_blocks_per_group
    → Kept sb (adjusted sb group desc b' count)
unfolding group_adjust_blocks put_group_desc
adjusted-Kept sb group desc b b' count c q m e =
    let w = adjusted-Rewrites sb group desc b' count c q in
    (
      Rewrites-Consistent data_blocks sb (adjusted sb group desc b' count) group desc
          (adjusted_desc desc count) b' c q (adjusted_desc-same desc count)
          (adjusted_desc-count desc sb.s_blocks_per_group (count_set b sb.s_blocks_per_group)
            (count_set b' sb.s_blocks_per_group) count c.small
            (GroupOk-count data_blocks sb group desc b c q m) e)
          w,
      w.per_group,
      first count,
    )
  where
    first :
        (count : ℕ) → (adjusted sb group desc b' count).s_first_data_block ≡ sb.s_first_data_block
    first zero = refl
    first (suc count) = refl

pub free_in_group-Kept :
    (sb sb' : SbInfo) (group bit block count n : ℕ)
    → Consistent data_blocks sb
    → bit + count ≤ sb.s_blocks_per_group
    → free_in_group sb group bit block count ≡ some (sb', n)
    → Kept sb sb'
unfolding free_in_group read_block_bitmap
free_in_group-Kept sb sb' group bit block count n c l e =
    elim (Option-cases (get_group_desc sb group)) [
      | inl q ↦ absurd (ground arith)
      | inr (desc, q) ↦ elim (Option-cases (sb.bitmaps desc.bg_block_bitmap)) [
        | inl m ↦ absurd (ground arith)
        | inr (b, m) ↦
            let r = clear_run count b bit in
            let (maps, sum) = clear_run-count count b bit sb.s_blocks_per_group l in
            let state : adjusted sb group desc r.1 r.0 ≡ sb' =
              out (in_system_zone sb desc block count) (adjusted sb group desc r.1 r.0) r.0
                (ground arith) in
            subst (Kept sb) state (adjusted-Kept sb group desc b r.1 r.0 c q m sum)
      ]
    ]
  where
    out :
        (t : Bool) (s : SbInfo) (m : ℕ)
        → ◌≡◌ {A = Option (SbInfo × ℕ)} (if t then none else some (s, m)) (some (sb', n))
        → s ≡ sb'
    out true s m e = absurd (cc e)
    out false s m e = cc e
