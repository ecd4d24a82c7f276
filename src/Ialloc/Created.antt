-- ===== src/Ialloc/Created.antt =====
-- What a successful kr_new_inode did (ialloc.c).
use k_rack.Common.{
  ℕ, zero, suc, ◌+◌, ◌*◌, ◌%◌, ◌^◌, ◌≤◌, ◌<◌, ◌≡◌, refl, sym, ap, ◌∙◌, inl, inr, Bool, true, false,
  not, ◌||◌, Option, none, some, arith, ltb, ◌==◌, if◌then◌else◌, ltb→lt, Option-cases, eio, enomem,
  enospc, Bitmap, write_bit, FindsZero,
}
use k_rack.Super.{GroupDesc, SbInfo, get_group_desc, put_group_desc, put_bitmap, sub16, add16}
use k_rack.Super.Laws.{get-put}
use k_rack.Ialloc.Groups.{Parent}
use k_rack.Ialloc.Alloc.{
  Env, NewInode, Outcome, created, failed, claim, Search, at, io_error, exhausted, search_groups,
  first_group, charge, take_inode, new_inode, read_inode_bitmap, s_isdir,
}
use k_rack.Super.Counts.{inodes, Consistent, Rewrites}

-- The state behind a successful `take_inode`.
abbrev pub taken : SbInfo → ℕ → ℕ → GroupDesc → Bitmap → ℕ → SbInfo
taken sb mode group desc b bit =
    record (charge (put_bitmap sb desc.bg_inode_bitmap (write_bit b bit true)) group desc mode) {
      s_next_generation = (sb.s_next_generation + 1) % 2 ^ 32;
    }

abbrev pub charged_desc : GroupDesc → ℕ → GroupDesc
charged_desc desc mode = record desc {
  bg_free_inodes_count = sub16 desc.bg_free_inodes_count 1;
  bg_used_dirs_count =
      if s_isdir mode then add16 desc.bg_used_dirs_count 1 else desc.bg_used_dirs_count;
}

pub taken-Rewrites :
    (sb : SbInfo) (mode group : ℕ) (desc : GroupDesc) (b : Bitmap) (bit : ℕ)
    → Consistent inodes sb
    → get_group_desc sb group ≡ some desc
    → Rewrites inodes sb
        (taken sb mode group desc b bit)
        group
        (charged_desc desc mode)
        (write_bit b bit true)
unfolding charge get_group_desc put_group_desc
taken-Rewrites sb mode group desc b bit c e = record {
  groups_count = refl;
  per_group = refl;
  per_block = refl;
  bits = refl;
  descs = λ h. get-put sb group h (charged_desc desc mode) desc c.power c.some_desc e;
  maps = λ k. refl;
}

gates :
    (t1 t2 t3 t4 : Bool) (m n sb' : SbInfo) (e1 e2 e3 e4 : ℕ) (i0 i : NewInode)
    → ◌≡◌ {A = SbInfo × Outcome}
        (if t1
          then (m, failed e1)
          else if t2
          then (n, failed e2)
          else if t3
          then (n, failed e3)
          else if t4
          then (n, failed e4)
          else (n, created i0))
        (sb', created i)
    → (t1 ≡ false) × (sb' ≡ n) × (i ≡ i0)
gates true t2 t3 t4 m n sb' e1 e2 e3 e4 i0 i e = absurd (cc (ap (λ (x : SbInfo × Outcome). x.1) e))
gates false true t3 t4 m n sb' e1 e2 e3 e4 i0 i e =
    absurd (cc (ap (λ (x : SbInfo × Outcome). x.1) e))
gates false false true t4 m n sb' e1 e2 e3 e4 i0 i e =
    absurd (cc (ap (λ (x : SbInfo × Outcome). x.1) e))
gates false false false true m n sb' e1 e2 e3 e4 i0 i e =
    absurd (cc (ap (λ (x : SbInfo × Outcome). x.1) e))
gates false false false false m n sb' e1 e2 e3 e4 i0 i e =
    (refl, sym (ap (λ (x : SbInfo × Outcome). x.0) e), cc (ap (λ (x : SbInfo × Outcome). x.1) e))

in_range : (low high x y : ℕ) → (ltb x low || ltb high x) ≡ false → y ≡ x → (low ≤ y) × (y ≤ high)
in_range low high x y e same = (ground (arith, ltb→lt x low), ground (arith, ltb→lt high x))

take_inode-created :
    (sb sb' : SbInfo) (env : Env) (dir : Parent) (mode group : ℕ) (desc : GroupDesc) (b : Bitmap)
    (bit : ℕ) (i : NewInode)
    → take_inode sb env dir mode group desc b bit ≡ (sb', created i)
    → (sb' ≡ taken sb mode group desc b bit)
      × (i.i_ino ≡ bit + (group * sb.s_inodes_per_group + 1))
      × (i.i_block_group ≡ group)
      × (sb.s_first_ino ≤ i.i_ino)
      × (i.i_ino ≤ sb.s_inodes_count)
unfolding take_inode
take_inode-created sb sb' env dir mode group desc b bit i e =
    let ino : ℕ = bit + (group * sb.s_inodes_per_group + 1) in
    let (range, state, same) =
      gates (ltb ino sb.s_first_ino || ltb sb.s_inodes_count ino) (not env.insert_ok)
        (not (env.quota_init_err == 0)) (not (env.quota_alloc_err == 0)) _ _ sb' eio eio
        env.quota_init_err env.quota_alloc_err _ i e in
    let number = ap (λ (x : NewInode). x.i_ino) same in
    let (low, high) = in_range sb.s_first_ino sb.s_inodes_count ino i.i_ino range number in
    (state, number, ap (λ (x : NewInode). x.i_block_group) same, low, high)

module _ (next_zero : Bitmap → ℕ → ℕ → ℕ) (finds : FindsZero next_zero) where
  -- A clear bit is found in the first round.
  claim-clear :
      (fuel per_group : ℕ) (b : Bitmap) (ino bit : ℕ)
      → claim next_zero (suc fuel) per_group b ino ≡ some bit
      → (bit < per_group) × (b bit ≡ false)
  unfolding claim
  claim-clear fuel per_group b ino bit e = ground (arith, finds.clear b per_group ino)

  search_groups-at :
      (count : ℕ) (sb : SbInfo) (group g : ℕ) (desc : GroupDesc) (b : Bitmap) (bit : ℕ)
      → search_groups next_zero count sb group ≡ at g desc b bit
      → (get_group_desc sb g ≡ some desc)
        × (sb.bitmaps desc.bg_inode_bitmap ≡ some b)
        × (bit < sb.s_inodes_per_group)
        × (b bit ≡ false)
  unfolding search_groups read_inode_bitmap
  search_groups-at zero sb group g desc b bit e = absurd (cc)
  search_groups-at (suc count) sb group g desc b bit e =
      let next = if group + 1 == sb.s_groups_count then 0 else group + 1 in
      let rest = search_groups-at count sb next g desc b bit in
      elim (Option-cases (get_group_desc sb group)) [
        | inl q ↦ ground (arith, rest)
        | inr (d, q) ↦ elim (Option-cases (sb.bitmaps d.bg_inode_bitmap)) [
          | inl m ↦ absurd (ground arith)
          | inr (b', m) ↦
              elim (Option-cases
                (claim next_zero (sb.s_inodes_per_group + 1) sb.s_inodes_per_group b' 0)) [
                  | inl n ↦ ground (arith, rest)
                  | inr (bit', n) ↦
                      ground
                        (arith, claim-clear sb.s_inodes_per_group sb.s_inodes_per_group b' 0 bit')
                ]
        ]
      ]

not_made :
    {B : Type 0} (sb sb' : SbInfo) (i : NewInode) (err : ℕ)
    → ◌≡◌ {A = SbInfo × Outcome} (sb, failed err) (sb', created i)
    → B
not_made sb sb' i err e = absurd (cc (ap (λ (x : SbInfo × Outcome). x.1) e))

-- What a successful `new_inode` took.
abbrev pub Taken : SbInfo → SbInfo → ℕ → NewInode → Type 0
Taken sb sb' mode i =
    (desc : GroupDesc) × (b : Bitmap) × (bit : ℕ) × (get_group_desc sb i.i_block_group ≡ some desc)
    × (sb.bitmaps desc.bg_inode_bitmap ≡ some b)
    × (bit < sb.s_inodes_per_group)
    × (b bit ≡ false)
    × (sb' ≡ taken sb mode i.i_block_group desc b bit)
    × (i.i_ino ≡ bit + (i.i_block_group * sb.s_inodes_per_group + 1))
    × (sb.s_first_ino ≤ i.i_ino)
    × (i.i_ino ≤ sb.s_inodes_count)

Taken-at :
    (sb sb' : SbInfo) (env : Env) (dir : Parent) (mode group : ℕ) (desc : GroupDesc) (b : Bitmap)
    (bit : ℕ) (i : NewInode)
    → get_group_desc sb group ≡ some desc
    → sb.bitmaps desc.bg_inode_bitmap ≡ some b
    → bit < sb.s_inodes_per_group
    → b bit ≡ false
    → take_inode sb env dir mode group desc b bit ≡ (sb', created i)
    → Taken sb sb' mode i
Taken-at sb sb' env dir mode group desc b bit i q m l z e =
    let (state, number, place, low, high) =
      take_inode-created sb sb' env dir mode group desc b bit i e in
    (
      desc,
      b,
      bit,
      ap (get_group_desc sb) place ∙ q,
      m,
      l,
      z,
      state ∙ ap (λ g. taken sb mode g desc b bit) (sym place),
      number ∙ ap (λ g. bit + (g * sb.s_inodes_per_group + 1)) (sym place),
      low,
      high,
    )

module _ (next_zero : Bitmap → ℕ → ℕ → ℕ) (finds : FindsZero next_zero) where
  from_search :
      (sb sb' : SbInfo) (env : Env) (dir : Parent) (mode group : ℕ) (i : NewInode) (s : Search)
      → search_groups next_zero sb.s_groups_count sb group ≡ s
      → ◌≡◌ {A = SbInfo × Outcome}
          (elim s [
            | exhausted ↦ (sb, failed enospc)
            | io_error ↦ (sb, failed eio)
            | at g desc b bit ↦ take_inode sb env dir mode g desc b bit
          ])
          (sb', created i)
      → Taken sb sb' mode i
  from_search sb sb' env dir mode group i exhausted f e = not_made sb sb' i enospc e
  from_search sb sb' env dir mode group i io_error f e = not_made sb sb' i eio e
  from_search sb sb' env dir mode group i (at g desc b bit) f e =
      let (q, m, l, z) =
        search_groups-at next_zero finds sb.s_groups_count sb group g desc b bit f in
      Taken-at sb sb' env dir mode g desc b bit i q m l z e

  from_first :
      (sb sb' : SbInfo) (env : Env) (dir : Parent) (mode : ℕ) (i : NewInode) (memory : Bool)
      (first : Option ℕ)
      → ◌≡◌ {A = SbInfo × Outcome}
          (if not memory then (sb, failed enomem) else elim first [
            | none ↦ (sb, failed enospc)
            | some group ↦ elim (search_groups next_zero sb.s_groups_count sb group) [
              | exhausted ↦ (sb, failed enospc)
              | io_error ↦ (sb, failed eio)
              | at g desc b bit ↦ take_inode sb env dir mode g desc b bit
            ]
          ])
          (sb', created i)
      → Taken sb sb' mode i
  from_first sb sb' env dir mode i false first e = not_made sb sb' i enomem e
  from_first sb sb' env dir mode i true none e = not_made sb sb' i enospc e
  from_first sb sb' env dir mode i true (some group) e =
      from_search sb sb' env dir mode group i (search_groups next_zero sb.s_groups_count sb group)
        refl e

  pub new_inode-Taken :
      (sb sb' : SbInfo) (env : Env) (dir : Parent) (mode : ℕ) (i : NewInode)
      → new_inode next_zero sb env dir mode ≡ (sb', created i)
      → Taken sb sb' mode i
  unfolding new_inode
  new_inode-Taken sb sb' env dir mode i e =
      from_first sb sb' env dir mode i env.has_memory (first_group sb env dir mode) e
