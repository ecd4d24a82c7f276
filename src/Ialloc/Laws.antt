-- ===== src/Ialloc/Laws.antt =====
-- Freed inodes: their numbers are free again, and the counts agree with the bitmaps (ialloc.c).
use k_rack.Common.{
  ℕ, ◌+◌, ◌-◌, ◌*◌, ◌≤◌, ◌<◌, ◌≡◌, refl, sym, ap, subst, ◌∙◌, ◌≢◌, inl, inr, Bool, true, false,
  ◌&&◌, Option, none, some, arith, leb, ◌==◌, if◌then◌else◌, leb→le, le→leb, Bitmap, FindsZero,
}
use native.Mathlib.Nat.{mod-lt, div-add-mod'}
use native.Mathlib.Decide.{ℕ_discrete}
use k_rack.Super.{GroupDesc, SbInfo, get_group_desc, put_group_desc}
use k_rack.Ialloc.Groups.{Parent}
use k_rack.Ialloc.Alloc.{Env, NewInode, created, charge, new_inode, s_isdir}
use k_rack.Ialloc.Free.{free_inode}
use k_rack.Super.Counts.{inodes, Consistent}
use k_rack.Ialloc.Uses.{in_use, Rewrites-in_use, read_at}
use k_rack.Ialloc.Created.{new_inode-Taken}
use k_rack.Ialloc.Creates.{new_inode-Consistent, new_inode-in_use}
use k_rack.Ialloc.Freed.{
  released_desc, freed, freed-Rewrites, freed-Consistent, group_of, bit_of, free_inode-cases,
}

-- With counts that agree with the bitmaps, they still agree after any inode is freed.
pub free_inode-Consistent :
    (sb : SbInfo) (ino : ℕ) (dir : Bool)
    → Consistent inodes sb
    → Consistent inodes (free_inode sb ino dir)
free_inode-Consistent sb ino dir c = elim (free_inode-cases sb ino dir) [
  | inl (same, _) ↦ subst (Consistent inodes) (sym same) c
  | inr (desc, b, _, _, q, m, z, state) ↦ subst (Consistent inodes) (sym state) (
      freed-Consistent sb (group_of sb ino) desc b (bit_of sb ino) dir c q m
        (mod-lt (ino - 1) c.some_bits) z)
]

-- The use of an inode that is given back.
abbrev pub unset : Option Bool → Option Bool
unset none = none
unset (some _) = some false

used_at :
    (sb : SbInfo) (ino : ℕ) (desc : GroupDesc) (b : Bitmap)
    → get_group_desc sb (group_of sb ino) ≡ some desc
    → sb.bitmaps desc.bg_inode_bitmap ≡ some b
    → b (bit_of sb ino) ≡ true
    → in_use sb ino ≡ some true
unfolding in_use
used_at sb ino desc b q m z = ground (arith, read_at sb (group_of sb ino) desc b q m)

touched :
    (o : ℕ → Option Bool) (k x ino low high : ℕ)
    → ino ≡ x
    → low ≤ ino
    → ino ≤ high
    → o ino ≡ some true
    → (if k == x then some false else o k)
      ≡ (if k == ino && (leb low ino && leb ino high) then unset (o k) else o k)
touched o k x ino low high e l h u = elim (ℕ_discrete k ino) [
  | yes here ↦ ground (arith, ap o here, le→leb low ino, le→leb ino high)
  | no other ↦ ground arith
]

-- With counts that agree with the bitmaps and inode numbers from 1 on, `free_inode` puts the given
-- inode out of use if its number is in range, and changes the use of no other number.
pub free_inode-in_use :
    (sb : SbInfo) (ino k : ℕ) (dir : Bool)
    → Consistent inodes sb
    → 0 < sb.s_first_ino
    → 0 < k
    → in_use (free_inode sb ino dir) k ≡ (
        if k == ino && (leb sb.s_first_ino ino && leb ino sb.s_inodes_count)
        then unset (in_use sb k)
        else in_use sb k)
free_inode-in_use sb ino k dir c f p = elim (free_inode-cases sb ino dir) [
  | inl (same, none_to_free) ↦
      ap (λ (s : SbInfo). in_use s k) same
      ∙ untouched (in_use sb k) (k == ino) (leb sb.s_first_ino ino) (leb ino sb.s_inodes_count)
          (λ here low high used. none_to_free (
            leb→le sb.s_first_ino ino low,
            leb→le ino sb.s_inodes_count high,
            ap (in_use sb) (sym (at_ino k ino here)) ∙ used,
          ))
  | inr (desc, b, low, high, q, m, z, state) ↦
      let n = sb.s_inodes_per_group in
      let l = mod-lt (ino - 1) {m = n} c.some_bits in
      let number : ino ≡ bit_of sb ino + (group_of sb ino * n + 1) =
        omega (arith, div-add-mod' (ino - 1) n) in
      ap (λ (s : SbInfo). in_use s k) state
      ∙ (Rewrites-in_use sb (freed sb (group_of sb ino) desc b (bit_of sb ino) dir)
            (group_of sb ino) (bit_of sb ino) k desc (released_desc desc dir) b false c q refl m l
            (freed-Rewrites sb (group_of sb ino) desc b (bit_of sb ino) dir c q) p
          ∙ touched (in_use sb) k (bit_of sb ino + (group_of sb ino * n + 1)) ino sb.s_first_ino
              sb.s_inodes_count number low high (used_at sb ino desc b q m z))
]
  where
    untouched :
        (o : Option Bool) (t1 t2 t3 : Bool)
        → (t1 ≡ true → t2 ≡ true → t3 ≡ true → o ≢ some true)
        → o ≡ (if t1 && (t2 && t3) then unset o else o)
    untouched none t1 t2 t3 h = ground arith
    untouched (some false) t1 t2 t3 h = ground arith
    untouched (some true) t1 t2 t3 h = ground arith

    at_ino : (a b : ℕ) → (a == b) ≡ true → a ≡ b
    at_ino a b e = ground arith

-- With a working bit search, counts that agree with the bitmaps and inode numbers from 1 on, to
-- free the inode that was just created brings back the use of every inode number.
pub new_inode-free_inode :
    (next_zero : Bitmap → ℕ → ℕ → ℕ)
    → FindsZero next_zero
    → (sb sb' : SbInfo) (env : Env) (dir : Parent) (mode : ℕ) (i : NewInode) → Consistent inodes sb
    → 0 < sb.s_first_ino
    → new_inode next_zero sb env dir mode ≡ (sb', created i)
    → (k : ℕ) → 0 < k
    → in_use (free_inode sb' i.i_ino (s_isdir mode)) k ≡ in_use sb k
unfolding charge put_group_desc
new_inode-free_inode next_zero finds sb sb' env dir mode i c f e k p =
    let (low, high, unused, uses) = new_inode-in_use next_zero finds sb sb' env dir mode i c e in
    let (desc, b, bit, q, m, l, z, state, _, _, _) =
      new_inode-Taken next_zero finds sb sb' env dir mode i e in
    let c' = new_inode-Consistent next_zero finds sb sb' env dir mode i c e in
    let first : sb'.s_first_ino ≡ sb.s_first_ino = ap (λ (s : SbInfo). s.s_first_ino) state in
    let count : sb'.s_inodes_count ≡ sb.s_inodes_count =
      ap (λ (s : SbInfo). s.s_inodes_count) state in
    free_inode-in_use sb' i.i_ino k (s_isdir mode) c' (omega (arith, first)) p
    ∙ back (in_use sb) (in_use sb') k i.i_ino sb'.s_first_ino sb'.s_inodes_count (uses k p) unused
        (omega (arith, first)) (omega (arith, count))
  where
    back :
        (o o' : ℕ → Option Bool) (k ino low high : ℕ)
        → o' k ≡ (if k == ino then some true else o k)
        → o ino ≡ some false
        → low ≤ ino
        → ino ≤ high
        → (if k == ino && (leb low ino && leb ino high) then unset (o' k) else o' k) ≡ o k
    back o o' k ino low high u v l h = elim (ℕ_discrete k ino) [
      | yes here ↦ ground (arith, ap o here, le→leb low ino, le→leb ino high)
      | no other ↦ ground arith
    ]
