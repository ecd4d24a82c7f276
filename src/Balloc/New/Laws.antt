-- ===== src/Balloc/New/Laws.antt =====
-- kr_new_blocks (balloc.c): what it gives is free and comes into use, and it gives nothing only if
-- nothing is free.
use k_rack.Common.{
  ℕ, ◌+◌, ◌-◌, ◌*◌, ◌/◌, ◌%◌, ◌≤◌, ◌<◌, ◌≡◌, refl, ap, subst, ◌∙◌, ◌≢◌, true, false, ◌&&◌, some,
  arith, ltb, leb, if◌then◌else◌, leb→le, ==_iff, sub_ℕ, ◌+ℤ◌, Bitmap, rem, quot,
}
use native.Mathlib.Decide.{ℕ_discrete}
use k_rack.Super.{
  put_group_desc, GroupDesc, SbInfo, get_group_desc, put_bitmap, group_first_block_no,
}
use k_rack.Super.Counts.{Consistent, data_blocks, get_group_desc-lt}
use k_rack.Balloc.Allocate.Run.{Claims}
use k_rack.Balloc.Free.{in_system_zone}
use k_rack.Balloc.Free.Laws.{counted}
use k_rack.Balloc.Free.Used.{block_used}
use k_rack.Balloc.New.{take_blocks}
use k_rack.Balloc.New.Take.{
  taken, taken_desc, taken-Rewrites, taken-Consistent, taken-block_used, taken-were_free,
  counter-block_used,
}
use k_rack.Balloc.New.Fs.{DataBlock, FsOk, no_zone}

-- What the blocks that were given were before, and what they are now.
pub record Given (sb sb' : SbInfo) (block num : ℕ) : Type 0 where
  pub some_blocks : 1 ≤ num
  pub from_first : sb.s_first_data_block ≤ block
  pub exist : block + num ≤ sb.s_blocks_count
  pub were_free : (k : ℕ) → block ≤ k → k < block + num → block_used sb k ≡ some false
  pub now_used :
      (k : ℕ)
      → sb.s_first_data_block ≤ k
      → block_used sb' k
        ≡ (if leb block k && ltb k (block + num) then some true else block_used sb k)
  pub counts : Consistent data_blocks sb'
  pub in_order : FsOk sb'
  pub same_first : sb'.s_first_data_block ≡ sb.s_first_data_block
  pub same_count : sb'.s_blocks_count ≡ sb.s_blocks_count
  pub one_group :
      (block - sb'.s_first_data_block) % sb'.s_blocks_per_group + num ≤ sb'.s_blocks_per_group
  pub group_exists : (block - sb'.s_first_data_block) / sb'.s_blocks_per_group < sb'.s_groups_count
  pub no_system :
      (desc : GroupDesc)
      → get_group_desc sb' ((block - sb'.s_first_data_block) / sb'.s_blocks_per_group) ≡ some desc
      → in_system_zone sb' desc block num ≡ false

-- The state behind a run of blocks that was counted.
abbrev pub given_sb : SbInfo → ℕ → GroupDesc → Bitmap → ℕ → SbInfo
given_sb sb group desc b' num =
    let sb' = taken sb group desc b' num in
    record sb' { s_freeblocks_counter = sb'.s_freeblocks_counter +ℤ sub_ℕ 0 num }

pub took_no_zone :
    (sb : SbInfo) (group : ℕ) (desc : GroupDesc) (b b' b2 : Bitmap) (at num : ℕ)
    → FsOk sb
    → get_group_desc sb group ≡ some desc
    → sb.bitmaps desc.bg_block_bitmap ≡ some b
    → 1 ≤ num
    → at + num ≤ sb.s_blocks_per_group
    → Claims b b' at num
    → (in_system_zone
          (put_bitmap sb desc.bg_block_bitmap b2)
          desc
          (at + group_first_block_no sb group)
          num
        ≡ false)
      × (leb sb.s_blocks_count (at + group_first_block_no sb group + num - 1) ≡ false)
took_no_zone sb group desc b b' b2 at num ok q m one fits claims =
    let first = group_first_block_no sb group in
    let is_data : (x : ℕ) → at + first ≤ x → x < at + first + num → DataBlock sb desc x = λ x l h.
      subst (DataBlock sb desc) (omega arith) (
        ok.free_data group (x - first) desc b q m (omega arith)
          (claims.were_clear (x - first) (omega arith) (omega arith))) in
    let last = (is_data (at + first + num - 1) (omega arith) (omega arith)).exists in
    (
      no_zone sb desc (at + first) num one (omega (arith, last, ok.small)) is_data,
      ground (arith, last, leb→le sb.s_blocks_count (at + first + num - 1)),
    )

-- The descriptor of the group behind a run that was counted names the same blocks.
after_given :
    (sb : SbInfo) (group : ℕ) (desc d : GroupDesc) (b' : Bitmap) (num : ℕ)
    → Consistent data_blocks sb
    → get_group_desc sb group ≡ some desc
    → get_group_desc (given_sb sb group desc b' num) group ≡ some d
    → taken_desc desc num ≡ d
unfolding get_group_desc
after_given sb group desc d b' num c q e =
    let w = taken-Rewrites sb group desc b' num c q in
    let here : get_group_desc (given_sb sb group desc b' num) group ≡ some (taken_desc desc num) =
      w.descs group ∙ ground (arith, ==_iff group group) in
    cc (here, e)

same_zone :
    (sb : SbInfo) (group : ℕ) (desc d : GroupDesc) (b' : Bitmap) (num block : ℕ)
    → Consistent data_blocks sb
    → get_group_desc sb group ≡ some desc
    → in_system_zone sb desc block num ≡ false
    → get_group_desc (given_sb sb group desc b' num) group ≡ some d
    → in_system_zone (given_sb sb group desc b' num) d block num ≡ false
unfolding take_blocks put_group_desc
same_zone sb group desc d b' num block c q zone e =
    subst (λ x. in_system_zone (given_sb sb group desc b' num) x block num ≡ false)
      (after_given sb group desc d b' num c q e) zone

-- The file system is still in order.
taken-FsOk :
    (sb : SbInfo) (group : ℕ) (desc : GroupDesc) (b b' : Bitmap) (at num : ℕ)
    → FsOk sb
    → get_group_desc sb group ≡ some desc
    → sb.bitmaps desc.bg_block_bitmap ≡ some b
    → at + num ≤ sb.s_blocks_per_group
    → Claims b b' at num
    → FsOk (given_sb sb group desc b' num)
unfolding get_group_desc group_first_block_no take_blocks put_group_desc
taken-FsOk sb group desc b b' at num ok q m fits claims =
    let w = taken-Rewrites sb group desc b' num ok.counts q in
    let sb' = taken sb group desc b' num in
    record {
      counts =
          counted sb' (sub_ℕ 0 num)
            (taken-Consistent sb group desc b b' at num ok.counts q m claims fits);
      small = ok.small;
      some_groups = ok.some_groups;
      covers = ok.covers;
      free_data = λ g k d b2 qd md l clear. elim (ℕ_discrete g group) [
        | no ne ↦
            let old : get_group_desc sb g ≡ some d =
              ground (arith, w.descs g, ne, ==_iff g group, qd) in
            let other : d.bg_block_bitmap ≢ desc.bg_block_bitmap =
              λ e. ne (ok.counts.apart g group d desc old q e) in
            let map : sb.bitmaps d.bg_block_bitmap ≡ some b2 = ground (
              arith,
              w.maps d.bg_block_bitmap,
              other,
              ==_iff d.bg_block_bitmap desc.bg_block_bitmap,
              md,
            ) in
            still_data (ok.free_data g k d b2 old map l clear)
        | yes e ↦
            let here : some (taken_desc desc num) ≡ some d =
              ground (arith, w.descs g, e, ==_iff g group, qd) in
            let same : taken_desc desc num ≡ d = cc here in
            let block : desc.bg_block_bitmap ≡ d.bg_block_bitmap =
              ap (λ (x : GroupDesc). x.bg_block_bitmap) same in
            let map : some b2 ≡ some b' = ground (
              arith,
              w.maps d.bg_block_bitmap,
              block,
              md,
              ==_iff d.bg_block_bitmap desc.bg_block_bitmap,
            ) in
            let bits : b2 ≡ b' = cc map in
            let was_clear : b k ≡ false =
              ground (arith, clear, ap (λ (x : Bitmap). x k) bits, claims.now_set k) in
            subst (λ x. DataBlock (given_sb sb group desc b' num) x (k + group_first_block_no sb g))
              same
              (by_desc
                (ok.free_data g k desc b (ap (λ h. get_group_desc sb h) e ∙ q) m l was_clear))
      ];
    }
  where
    still_data :
        {d : GroupDesc} {x : ℕ} → DataBlock sb d x → DataBlock (given_sb sb group desc b' num) d x
    still_data h = record {
      exists = h.exists;
      no_block_bitmap = h.no_block_bitmap;
      no_inode_bitmap = h.no_inode_bitmap;
      no_inode_table = h.no_inode_table;
    }

    by_desc :
        {x : ℕ}
        → DataBlock sb desc x
        → DataBlock (given_sb sb group desc b' num) (taken_desc desc num) x
    by_desc h = record {
      exists = h.exists;
      no_block_bitmap = h.no_block_bitmap;
      no_inode_bitmap = h.no_inode_bitmap;
      no_inode_table = h.no_inode_table;
    }

pub taken-Given :
    (sb : SbInfo) (group : ℕ) (desc : GroupDesc) (b b' : Bitmap) (at num : ℕ)
    → FsOk sb
    → get_group_desc sb group ≡ some desc
    → sb.bitmaps desc.bg_block_bitmap ≡ some b
    → 1 ≤ num
    → at + num ≤ sb.s_blocks_per_group
    → Claims b b' at num
    → Given sb (given_sb sb group desc b' num) (at + group_first_block_no sb group) num
unfolding group_first_block_no take_blocks put_group_desc
taken-Given sb group desc b b' at num ok q m one fits claims =
    let last =
      ok.free_data group (at + num - 1) desc b q m (omega arith)
        (claims.were_clear (at + num - 1) (omega arith) (omega arith)) in
    let sb' = taken sb group desc b' num in
    let bpg = sb.s_blocks_per_group in
    let block = at + group_first_block_no sb group in
    let place : block - sb.s_first_data_block ≡ group * bpg + at = omega arith in
    let g : (block - sb.s_first_data_block) / bpg ≡ group =
      ap (λ x. x / bpg) place ∙ quot bpg group at (omega arith) in
    let r : (block - sb.s_first_data_block) % bpg ≡ at =
      ap (λ x. x % bpg) place ∙ rem bpg group at (omega arith) in
    let (zone, _) = took_no_zone sb group desc b b' b' at num ok q m one fits claims in
    record {
      some_blocks = one;
      from_first = omega arith;
      exist = omega (arith, last.exists);
      were_free = λ k. taken-were_free sb group desc b b' at num k q m claims fits;
      now_used = λ k l.
          counter-block_used sb' (sb'.s_freeblocks_counter +ℤ sub_ℕ 0 num) k
          ∙ taken-block_used sb group desc b b' at num k ok.counts q m claims one fits l;
      counts =
          counted sb' (sub_ℕ 0 num)
            (taken-Consistent sb group desc b b' at num ok.counts q m claims fits);
      in_order = taken-FsOk sb group desc b b' at num ok q m fits claims;
      same_first = refl;
      same_count = refl;
      one_group = omega (arith, r);
      group_exists = omega (arith, g, get_group_desc-lt sb group desc q);
      no_system = λ d e.
          same_zone sb group desc d b' num block ok.counts q zone
            (subst (λ x. get_group_desc (given_sb sb group desc b' num) x ≡ some d) g e);
    }
