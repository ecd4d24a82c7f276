-- ===== src/Balloc/Free/Laws.antt =====
-- Freed blocks and the counts of free blocks.
use k_rack.Common.{
  ℕ, zero, suc, ◌+◌, ◌-◌, ◌/◌, ◌%◌, ◌^◌, ◌<◌, ◌≡◌, refl, Bool, true, false, ◌||◌, Option, none,
  some, arith, ltb, ◌==◌, if◌then◌else◌, ℤ, pos, ◌+ℤ◌,
}
use native.Mathlib.Nat.{mod-lt}
use k_rack.Super.{SbInfo, get_group_desc}
use k_rack.Super.Counts.{data_blocks, Consistent}
use k_rack.Balloc.Free.{free_in_group, free_from, free_blocks}
use k_rack.Balloc.Free.Group.{free_in_group-Kept}

free_from-Consistent :
    (fuel : ℕ) (sb : SbInfo) (block count freed : ℕ)
    → Consistent data_blocks sb
    → let r = free_from fuel sb block count freed in Consistent data_blocks (r.0)
unfolding free_from
free_from-Consistent zero sb block count freed c = c
free_from-Consistent (suc fuel) sb block count freed c =
    by_group (free_in_group sb group bit block here) refl
      (λ s b n f. free_from-Consistent fuel s b n f)
  where
    group : ℕ
    group = (block - sb.s_first_data_block) / sb.s_blocks_per_group

    bit : ℕ
    bit = (block - sb.s_first_data_block) % sb.s_blocks_per_group

    overflow : ℕ
    overflow = bit + count - sb.s_blocks_per_group

    here : ℕ
    here = count - overflow

    pick :
        (t : Bool) (r s : SbInfo × ℕ)
        → Consistent data_blocks r.0
        → Consistent data_blocks s.0
        → let u = if t then r else s in Consistent data_blocks (u.0)
    pick true r s p q = p
    pick false r s p q = q

    by_group :
        (o : Option (SbInfo × ℕ))
        → free_in_group sb group bit block here ≡ o
        → ((s : SbInfo) (b n f : ℕ)
            → Consistent data_blocks s
            → let r = free_from fuel s b n f in Consistent data_blocks (r.0))
        → let r : SbInfo × ℕ = elim o [
          | none ↦ (sb, freed)
          | some (sb', n) ↦
              if overflow == 0
              then (sb', freed + n)
              else free_from fuel sb' (block + here) overflow (freed + n)
        ] in
          Consistent data_blocks (r.0)
    by_group none e rest = c
    by_group (some (sb', n)) e rest =
        let l = mod-lt (block - sb.s_first_data_block) {m = sb.s_blocks_per_group} c.some_bits in
        let (kept, _, _) = free_in_group-Kept sb sb' group bit block here n c (omega arith) e in
        pick (overflow == 0) (sb', freed + n)
          (free_from fuel sb' (block + here) overflow (freed + n)) kept
          (rest sb' (block + here) overflow (freed + n) kept)

-- With counts that agree with the bitmaps and more fuel than there are blocks to free, yet more
-- fuel changes nothing: the rounds come to an end by themselves.
pub free_from-fuel :
    (fuel : ℕ) (sb : SbInfo) (block count freed : ℕ)
    → Consistent data_blocks sb
    → count < fuel
    → free_from (suc fuel) sb block count freed ≡ free_from fuel sb block count freed
unfolding free_from
free_from-fuel zero sb block count freed c l = absurd (omega arith)
free_from-fuel (suc fuel) sb block count freed c l =
    by_group (free_in_group sb group bit block here) refl (λ s b n f. free_from-fuel fuel s b n f)
  where
    group : ℕ
    group = (block - sb.s_first_data_block) / sb.s_blocks_per_group

    bit : ℕ
    bit = (block - sb.s_first_data_block) % sb.s_blocks_per_group

    overflow : ℕ
    overflow = bit + count - sb.s_blocks_per_group

    here : ℕ
    here = count - overflow

    after : ℕ → Option (SbInfo × ℕ) → SbInfo × ℕ
    after more none = (sb, freed)
    after more (some (sb', n)) =
        if overflow == 0
        then (sb', freed + n)
        else free_from more sb' (block + here) overflow (freed + n)

    same_if :
        (t : Bool) (r s s' : SbInfo × ℕ)
        → (t ≡ false → s ≡ s')
        → (if t then r else s) ≡ (if t then r else s')
    same_if true r s s' h = refl
    same_if false r s s' h = h refl

    by_group :
        (o : Option (SbInfo × ℕ))
        → free_in_group sb group bit block here ≡ o
        → ((s : SbInfo) (b n f : ℕ)
            → Consistent data_blocks s
            → n < fuel
            → free_from (suc fuel) s b n f ≡ free_from fuel s b n f)
        → after (suc fuel) o ≡ after fuel o
    by_group none e rest = refl
    by_group (some (sb', n)) e rest =
        let l' = mod-lt (block - sb.s_first_data_block) {m = sb.s_blocks_per_group} c.some_bits in
        let (kept, _, _) = free_in_group-Kept sb sb' group bit block here n c (omega arith) e in
        same_if (overflow == 0) (sb', freed + n)
          (free_from (suc fuel) sb' (block + here) overflow (freed + n))
          (free_from fuel sb' (block + here) overflow (freed + n))
          (λ t. rest sb' (block + here) overflow (freed + n) kept (ground arith))

-- The counter in memory is not among the counts.
pub counted :
    (sb : SbInfo) (freed : ℤ)
    → Consistent data_blocks sb
    → Consistent data_blocks (record sb { s_freeblocks_counter = sb.s_freeblocks_counter +ℤ freed })
unfolding get_group_desc
counted sb freed c = record {
  power = c.power;
  some_desc = c.some_desc;
  some_bits = c.some_bits;
  small = c.small;
  groups = c.groups;
  apart = c.apart;
}

-- With counts that agree with the bitmaps, they still agree after `free_blocks`, whether it frees
-- all the blocks, stops at a block of the file system's own or at a bitmap that cannot be read, or
-- refuses.
pub free_blocks-Consistent :
    (sb : SbInfo) (block count : ℕ)
    → Consistent data_blocks sb
    → Consistent data_blocks (free_blocks sb block count)
unfolding free_blocks
free_blocks-Consistent sb block count c =
    go
      (ltb block sb.s_first_data_block
        || (ltb ((block + count) % 2 ^ 64) block
            || ltb sb.s_blocks_count ((block + count) % 2 ^ 64)))
      (free_from (count + 1) sb block count 0) (free_from-Consistent (count + 1) sb block count 0 c)
  where
    go :
        (t : Bool) (r : SbInfo × ℕ)
        → Consistent data_blocks r.0
        → let sb' = r.0 in
          Consistent data_blocks (
            if t
            then sb
            else record sb' { s_freeblocks_counter = sb'.s_freeblocks_counter +ℤ pos r.1 })
    go true r p = c
    go false r p = counted r.0 (pos r.1) p
