-- ===== src/Balloc/New/Round.antt =====
-- The order in which kr_new_blocks comes to the groups (balloc.c).
use k_rack.Common.{
  ℕ, zero, suc, ◌+◌, ◌-◌, ◌≤◌, ◌<◌, ◌≡◌, ap, ◌∙◌, inl, inr, arith, ltb, leb, if◌then◌else◌, ltb→lt,
  lt→ltb, leb→le, le→leb, Bool-cases,
}
use k_rack.Super.{SbInfo}
use k_rack.Balloc.New.{next_group}

-- The group that the search comes to after a number of rounds.
unfoldable pub after : SbInfo → ℕ → ℕ → ℕ
after sb zero group = group
after sb (suc i) group = after sb i (next_group sb group)

-- The search comes to every group.
after_forward : (sb : SbInfo) (i g : ℕ) → g + i < sb.s_groups_count → after sb i g ≡ g + i
unfolding after
after_forward sb zero g l = omega arith
after_forward sb (suc i) g l =
    let next : (if leb sb.s_groups_count (g + 1) then 0 else g + 1) ≡ g + 1 =
      ground (arith, leb→le sb.s_groups_count (g + 1)) in
    ap (after sb i) next ∙ omega (arith, after_forward sb i (g + 1) (omega arith))

after_plus : (sb : SbInfo) (i j g : ℕ) → after sb (i + j) g ≡ after sb j (after sb i g)
unfolding after
after_plus sb zero j g = ap (λ x. after sb x g) {x = zero + j} {y = j} (omega arith)
after_plus sb (suc i) j g =
    ap (λ x. after sb x g) {x = suc i + j} {y = suc (i + j)} (omega arith)
    ∙ after_plus sb i j (if leb sb.s_groups_count (g + 1) then 0 else g + 1)

after_wrap : (sb : SbInfo) (g : ℕ) → g < sb.s_groups_count → after sb (sb.s_groups_count - g) g ≡ 0
unfolding after
after_wrap sb g l =
    let last = sb.s_groups_count - 1 in
    let wrap : (if leb sb.s_groups_count (last + 1) then 0 else last + 1) ≡ 0 =
      ground (arith, le→leb sb.s_groups_count (last + 1)) in
    ap (λ x. after sb x g) {x = sb.s_groups_count - g} {y = (last - g) + 1} (omega arith)
    ∙ (after_plus sb (last - g) 1 g
        ∙ (ap (after sb 1) {x = after sb (last - g) g} {y = last}
              (omega (arith, after_forward sb (last - g) g (omega arith)))
            ∙ wrap))

pub after_all :
    (sb : SbInfo) (g t : ℕ)
    → g < sb.s_groups_count
    → t < sb.s_groups_count
    → (i : ℕ) × (i < sb.s_groups_count) × (after sb (suc i) g ≡ t)
after_all sb g t l m = elim (Bool-cases (ltb g t)) [
  | inl later ↦
      let h = ltb→lt g t later in
      (
        t - g - 1,
        omega arith,
        ap (λ x. after sb x g) {x = suc (t - g - 1)} {y = t - g} (omega arith)
            ∙ omega (arith, after_forward sb (t - g) g (omega arith)),
      )
  | inr earlier ↦
      let h : t ≤ g = ground (arith, lt→ltb g t) in
      (
        sb.s_groups_count - g + t - 1,
        omega arith,
        ap (λ x. after sb x g) {x = suc (sb.s_groups_count - g + t - 1)}
              {y = (sb.s_groups_count - g) + t} (omega arith)
            ∙ (after_plus sb (sb.s_groups_count - g) t g
                ∙ (ap (after sb t) (after_wrap sb g l)
                    ∙ omega (arith, after_forward sb t 0 (omega arith)))),
      )
]
