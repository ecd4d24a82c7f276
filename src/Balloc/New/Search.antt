-- ===== src/Balloc/New/Search.antt =====
-- The search of kr_new_blocks through the groups (balloc.c).
use k_rack.Common.{
  ℕ, zero, suc, ◌+◌, ◌-◌, ◌/◌, ◌%◌, ◌^◌, ◌≤◌, ◌<◌, ◌≡◌, refl, sym, ap, subst, ◌∙◌, ◌≢◌, inl, inr,
  Bool, true, false, ◌&&◌, ◌||◌, Option, none, some, arith, ltb, leb, ◌==◌, le→leb, Bool-cases,
  Bitmap, FindsZero,
}
use native.Mathlib.Nat.{mod-lt}
use k_rack.Super.{GroupDesc, SbInfo, get_group_desc}
use k_rack.Super.Counts.{Consistent, data_blocks}
use k_rack.Balloc.Search.Laws.{ScansBytes}
use k_rack.Balloc.Reserve.{RbTree, Windows}
use k_rack.Balloc.Reserve.Search.{RbLaws}
use k_rack.Balloc.Window.Ok.{WindowsOk}
use k_rack.Balloc.New.{Attempt, is_reserved, next_group, attempt, search_rest, search_all}
use k_rack.Balloc.New.Try.Fresh.{Kept}
use k_rack.Balloc.New.Round.{after}
use k_rack.Balloc.New.Group.{window_if}
use k_rack.Balloc.New.Once.{
  NoFree, is_reserved-window_if, AttemptOk, then_rest-AttemptOk, attempt-AttemptOk,
}

module _ (rb : RbTree) (laws : RbLaws rb) (head me : ℕ) (other : me ≢ head)
    (next_zero scan : Bitmap → ℕ → ℕ → ℕ) (finds : FindsZero next_zero) (scans : ScansBytes scan)
    (sb : SbInfo) (c : Consistent data_blocks sb) (reserve : Bool) where
  abbrev pub Searched : Type 0 → Windows → ℕ → Attempt → Type 0
  Searched Miss w num r =
      AttemptOk rb laws head me other next_zero scan finds scans sb c reserve Miss w num r

  -- Without a window, the groups of the search have no free block.
  abbrev pub MissedRest : ℕ → ℕ → Type 0
  MissedRest n group = reserve ≡ false → (i : ℕ) → i < n → NoFree sb (after sb (suc i) group)

  group_exists :
      (group : ℕ)
      → group < sb.s_groups_count
      → (desc : GroupDesc) × (get_group_desc sb group ≡ some desc)
  group_exists group l = let (desc, _, q, _, _) = c.groups group l in (desc, q)

  missed_more :
      (n group : ℕ)
      → (reserve ≡ false → NoFree sb (next_group sb group))
      → MissedRest n (next_group sb group)
      → MissedRest (suc n) group
  unfolding after
  missed_more n group here rest t zero l = here t
  missed_more n group here rest t (suc i) l = rest t i (omega arith)

  same_desc :
      (group : ℕ) (desc : GroupDesc)
      → get_group_desc sb group ≡ some desc
      → desc.bg_free_blocks_count ≡ 0
      → NoFree sb group
  same_desc group desc q z d e = ap (λ x. x.bg_free_blocks_count) (out (sym e ∙ q)) ∙ z
    where
      out : {x y : GroupDesc} → ◌≡◌ {A = Option GroupDesc} (some x) (some y) → x ≡ y
      out e = cc e

  search_rest-AttemptOk :
      (n : ℕ) (w0 w : Windows) (windowsz group num0 num : ℕ)
      → Kept rb laws head me other w0 w
      → 0 < sb.s_groups_count
      → (reserve ≡ true → 0 < num)
      → num0 < 2 ^ 31
      → num ≤ num0
      → (reserve ≡ true → num ≡ num0)
      → Searched
          (MissedRest n group)
          w0
          num0
          (search_rest rb next_zero scan n sb w (window_if me reserve) windowsz group num)
  unfolding search_rest
  search_rest-AttemptOk zero w0 w windowsz group num0 num kept some_groups some_num small le same =
      inl (w, num, refl, kept, le, same, λ t i l. absurd (omega arith))
  search_rest-AttemptOk (suc n) w0 w windowsz group num0 num (ok, others) some_groups some_num small
        le same =
      let group' = next_group sb group in
      let exists : group' < sb.s_groups_count =
        ground (arith, le→leb sb.s_groups_count (group + 1)) in
      let (desc, q) = group_exists group' exists in
      let free = desc.bg_free_blocks_count in
      let skip = free == 0 || (is_reserved (window_if me reserve) && leb free (windowsz / 2)) in
      let rest = λ (w' : Windows) (num' : ℕ).
        search_rest rb next_zero scan n sb w' (window_if me reserve) windowsz group' num' in
      elim (Bool-cases skip) [
        | inl skipped ↦
            subst (Searched (MissedRest (suc n) group) w0 num0) (ground (arith, q, skipped)) (
              weaken w0 num0 (rest w num) n group
                (λ t. same_desc group' desc q (none_free free windowsz skipped t))
                (search_rest-AttemptOk n w0 w windowsz group' num0 num (ok, others) some_groups
                  some_num small le same))
        | inr tried ↦
            subst (Searched (MissedRest (suc n) group) w0 num0) (ground (arith, q, tried)) (
              then_rest-AttemptOk rb laws head me other next_zero scan finds scans sb c reserve
                (reserve ≡ false → ◌≡◌ {A = Option ℕ} none none → free ≡ 0)
                (MissedRest (suc n) group) w0 w num0 num
                (attempt rb next_zero scan sb w (window_if me reserve) group' desc none num) rest
                (ok, others) le same
                (attempt-AttemptOk rb laws head me other next_zero scan finds scans sb c reserve w
                  group' desc none num ok exists q (λ g e. absurd (cc e)) some_num (omega arith))
                (λ w' num' kept' le' same' p.
                  weaken w0 num0 (rest w' num') n group (λ t. same_desc group' desc q (p t refl))
                    (search_rest-AttemptOk n w0 w' windowsz group' num0 num' kept' some_groups
                      (λ t. omega (arith, some_num t, same t, same' t)) small le' same')))
      ]
    where
      weaken :
          (w0 : Windows) (num0 : ℕ) (r : Attempt) (n group : ℕ)
          → (reserve ≡ false → NoFree sb (next_group sb group))
          → Searched (MissedRest n (next_group sb group)) w0 num0 r
          → Searched (MissedRest (suc n) group) w0 num0 r
      weaken w0 num0 r n group here (inl (w', num', e, kept, le, same, m)) =
          inl (w', num', e, kept, le, same, missed_more n group here m)
      weaken w0 num0 r n group here (inr t) = inr t

      none_free :
          (free windowsz : ℕ)
          → (free == 0 || (is_reserved (window_if me reserve) && leb free (windowsz / 2))) ≡ true
          → reserve ≡ false
          → free ≡ 0
      none_free free windowsz e t = ground (arith, e, is_reserved-window_if me reserve, t)

  pub search_all-AttemptOk :
      (w : Windows) (windowsz group : ℕ) (desc : GroupDesc) (goal num : ℕ)
      → WindowsOk head w
      → group < sb.s_groups_count
      → get_group_desc sb group ≡ some desc
      → (reserve ≡ true → 0 < num)
      → num < 2 ^ 31
      → Searched
          (MissedRest sb.s_groups_count group)
          w
          num
          (search_all rb next_zero scan sb w (window_if me reserve) windowsz group desc goal num)
  unfolding search_all
  search_all-AttemptOk w windowsz group desc goal num ok l q some_num small =
      let target = (goal - sb.s_first_data_block) % sb.s_blocks_per_group in
      let rest = λ (w' : Windows) (num' : ℕ).
        search_rest rb next_zero scan sb.s_groups_count sb w' (window_if me reserve) windowsz group
          num' in
      let Ok = Searched (MissedRest sb.s_groups_count group) w num in
      elim (Bool-cases (ltb 0 desc.bg_free_blocks_count)) [
        | inr none_free ↦ subst Ok (ground (arith, none_free)) (
            search_rest-AttemptOk sb.s_groups_count w w windowsz group num num (ok, λ k _. refl)
              (omega arith) some_num small (omega arith) (λ _. refl))
        | inl some_free ↦ subst Ok (ground (arith, some_free)) (
            then_rest-AttemptOk rb laws head me other next_zero scan finds scans sb c reserve
              (reserve ≡ false
                → ◌≡◌ {A = Option ℕ} (some target) none
                → desc.bg_free_blocks_count ≡ 0)
              (MissedRest sb.s_groups_count group) w w num num
              (attempt rb next_zero scan sb w (window_if me reserve) group desc (some target) num)
              rest (ok, λ k _. refl) (omega arith) (λ _. refl)
              (attempt-AttemptOk rb laws head me other next_zero scan finds scans sb c reserve w
                group desc (some target) num ok l q
                (λ g e.
                  subst (λ k. k < sb.s_blocks_per_group) (out e)
                    (mod-lt (goal - sb.s_first_data_block) {m = sb.s_blocks_per_group} c.some_bits))
                some_num small)
              (λ w' num' kept le same _.
                search_rest-AttemptOk sb.s_groups_count w w' windowsz group num num' kept
                  (omega arith) (λ t. omega (arith, some_num t, same t)) small le same))
      ]
    where
      out : {x y : ℕ} → ◌≡◌ {A = Option ℕ} (some x) (some y) → x ≡ y
      out e = cc e
