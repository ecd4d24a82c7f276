-- ===== src/Super/Laws.antt =====
-- The table of group descriptors read back.
use k_rack.Common.{ℕ, ◌*◌, ◌/◌, ◌%◌, ◌^◌, ◌<◌, ◌≡◌, ap, some, arith, ◌==◌, if◌then◌else◌}
use native.Mathlib.Nat.{div-add-mod'}
use k_rack.Super.{GroupDesc, SbInfo, get_group_desc, put_group_desc}

-- Two group numbers that share block and offset are one.
pub same_slot : (a b d e : ℕ) → d ≡ e → 0 < e → a / d ≡ b / d → a % e ≡ b % e → a ≡ b
same_slot a b d e h p q r = omega (
  arith,
  div-add-mod' a d,
  div-add-mod' b d,
  ap (λ n. a % n) h,
  ap (λ n. b % n) h,
  ap (λ n. n * d) q,
)

pub get-put :
    (sb : SbInfo) (g h : ℕ) (desc desc' : GroupDesc)
    → sb.s_desc_per_block ≡ 2 ^ sb.s_desc_per_block_bits
    → 0 < sb.s_desc_per_block
    → get_group_desc sb g ≡ some desc'
    → get_group_desc (put_group_desc sb g desc) h
      ≡ (if h == g then some desc else get_group_desc sb h)
unfolding get_group_desc put_group_desc
get-put sb g h desc desc' e p q =
    ground (arith, same_slot h g (2 ^ sb.s_desc_per_block_bits) sb.s_desc_per_block)
