-- ===== src/Balloc/Free/Frame.antt =====
-- kr_free_blocks (balloc.c): the blocks outside the run keep their use.
use k_rack.Common.{
  ℕ, zero, suc, ◌+◌, ◌-◌, ◌/◌, ◌%◌, ◌^◌, ◌≤◌, ◌≡◌, refl, subst, ◌∙◌, inl, inr, false, ◌&&◌, ◌||◌,
  arith, ltb, leb, ◌==◌, ltb→lt, lt→ltb, leb→le, le→leb, Bool-cases, Option-cases, ℤ, pos, ◌+ℤ◌,
}
use native.Mathlib.Nat.{mod-lt}
use k_rack.Super.{SbInfo}
use k_rack.Super.Counts.{Consistent, data_blocks}
use k_rack.Balloc.Free.{free_in_group, free_from, free_blocks}
use k_rack.Balloc.Free.Group.{free_in_group-Kept}
use k_rack.Balloc.Free.Used.{block_used, free_in_group-block_used}
use k_rack.Balloc.New.Take.{counter-block_used}

-- The first block is where it was, and a block outside the run has the use that it had.
abbrev Frame : SbInfo → ℕ → ℕ → ℕ → SbInfo → Type 0
Frame sb block count k sb' =
    (sb'.s_first_data_block ≡ sb.s_first_data_block)
    × (sb.s_first_data_block ≤ block
        → sb.s_first_data_block ≤ k
        → (leb block k && ltb k (block + count)) ≡ false
        → block_used sb' k ≡ block_used sb k)

free_from-Frame :
    (fuel : ℕ) (sb : SbInfo) (block count freed k : ℕ)
    → Consistent data_blocks sb
    → Frame sb block count k (free_from fuel sb block count freed).0
unfolding free_from
free_from-Frame zero sb block count freed k c = (refl, λ _ _ _. refl)
free_from-Frame (suc fuel) sb block count freed k c =
    let bpg = sb.s_blocks_per_group in
    let bit = (block - sb.s_first_data_block) % bpg in
    let l = mod-lt (block - sb.s_first_data_block) {m = bpg} c.some_bits in
    let overflow = bit + count - bpg in
    let here = count - overflow in
    elim (Option-cases (free_in_group sb ((block - sb.s_first_data_block) / bpg) bit block here)) [
      | inl e ↦
          let ends : (sb, freed) ≡ free_from (suc fuel) sb block count freed = ground (arith, e) in
          subst (λ r. Frame sb block count k r.0) ends (refl, λ _ _ _. refl)
      | inr ((sb', n), e) ↦
          let (kept, _, first) =
            free_in_group-Kept sb sb' ((block - sb.s_first_data_block) / bpg) bit block here n c
              (omega arith) e in
          let one : Frame sb block count k sb' = (
            first,
            λ p q out.
                free_in_group-block_used sb sb' block here n k c p q (omega arith) e
                ∙ ground
                    (arith, out, leb→le block k, lt→ltb k (block + count), ltb→lt k (block + here)),
          ) in
          elim (Bool-cases (overflow == 0)) [
            | inl z ↦
                let ends : (sb', freed + n) ≡ free_from (suc fuel) sb block count freed =
                  ground (arith, e, z) in
                subst (λ r. Frame sb block count k r.0) ends one
            | inr z ↦
                let ends : free_from fuel sb' (block + here) overflow (freed + n)
                    ≡ free_from (suc fuel) sb block count freed =
                  ground (arith, e, z) in
                let (rest, more) =
                  free_from-Frame fuel sb' (block + here) overflow (freed + n) k kept in
                subst (λ r. Frame sb block count k r.0) ends
                  (
                    rest ∙ first,
                    λ p q out.
                        more (omega (arith, p, first)) (omega (arith, q, first)) (
                          ground (
                            arith,
                            out,
                            le→leb block k,
                            lt→ltb k (block + count),
                            leb→le (block + here) k,
                            ltb→lt k (block + here + overflow),
                          ))
                        ∙ one.1 p q out,
                  )
          ]
    ]

-- Whether all blocks are freed, some, or none.
pub free_blocks-frame :
    (sb : SbInfo) (block count k : ℕ)
    → Consistent data_blocks sb
    → ((free_blocks sb block count).s_first_data_block ≡ sb.s_first_data_block)
      × (sb.s_first_data_block ≤ k
          → (leb block k && ltb k (block + count)) ≡ false
          → block_used (free_blocks sb block count) k ≡ block_used sb k)
unfolding free_blocks
free_blocks-frame sb block count k c =
    let last = (block + count) % 2 ^ 64 in
    let r = free_from (count + 1) sb block count 0 in
    let (first, frame) = free_from-Frame (count + 1) sb block count 0 k c in
    elim (Bool-cases
      (ltb block sb.s_first_data_block || (ltb last block || ltb sb.s_blocks_count last))) [
        | inl t ↦
            let same : sb ≡ free_blocks sb block count = ground (arith, t) in
            subst
              (λ s.
                (s.s_first_data_block ≡ sb.s_first_data_block)
                × (sb.s_first_data_block ≤ k
                    → (leb block k && ltb k (block + count)) ≡ false
                    → block_used s k ≡ block_used sb k))
              same (refl, λ _ _. refl)
        | inr t ↦
            let z : ℤ = r.0.s_freeblocks_counter +ℤ pos r.1 in
            let same : record (r.0) { s_freeblocks_counter = z } ≡ free_blocks sb block count =
              ground (arith, t) in
            let low : sb.s_first_data_block ≤ block =
              ground (arith, t, lt→ltb block sb.s_first_data_block) in
            subst
              (λ s.
                (s.s_first_data_block ≡ sb.s_first_data_block)
                × (sb.s_first_data_block ≤ k
                    → (leb block k && ltb k (block + count)) ≡ false
                    → block_used s k ≡ block_used sb k))
              same (first, λ q out. counter-block_used r.0 z k ∙ frame low q out)
      ]
