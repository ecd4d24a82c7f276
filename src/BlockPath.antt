-- ===== src/BlockPath.antt =====
-- kr_block_to_path (inode.c): from a file's block number to the offsets in its tree of indirect
-- blocks. With `ptrs` a power of two, `x & (ptrs - 1)` is `x % ptrs`, and `x >> k` is `x / 2 ^ k`.
pub mod Laws
mod Tests
use k_rack.Common.{
  ℕ, zero, suc, ◌+◌, ◌-◌, ◌*◌, ◌/◌, ◌%◌, ◌^◌, ◌≤◌, ◌<◌, min, bit_and, ◌≡◌, refl, sym, ap, subst,
  ◌∙◌, ◌≢◌, ◌↔◌, ◌⊎◌, inl, inr, Bool, true, false, not, ◌&&◌, ◌||◌, Option, none, some, List, [],
  ◌∷◌, ◌++◌, arith, ltb, leb, ◌==◌, if◌then◌else◌, ltb→lt, lt→ltb, leb→le, le→leb, ==_iff,
  Bool-cases, Option-cases, length, get_elem?, get_or, set, take, drop, length-append, length-set,
  get_elem?-set_self, get_elem?-set_ne, sub32, sub32_lem, clear_flag, eperm, enoent, eio, eagain,
  enomem, eacces, efault, ebusy, eexist, einval, enotty, enospc, enametoolong, enotempty, ℤ, pos,
  negsuc, sub_ℕ,
}

abbrev pub ndir_blocks : ℕ
ndir_blocks = 12

abbrev pub ind_block : ℕ
ind_block = ndir_blocks

abbrev pub dind_block : ℕ
dind_block = ind_block + 1

abbrev pub tind_block : ℕ
tind_block = dind_block + 1

-- What the function takes from the super block: KR_ADDR_PER_BLOCK and KR_ADDR_PER_BLOCK_BITS.
pub record Geometry : Type 0 where
  pub ptrs : ℕ
  pub ptrs_bits : ℕ

-- The offsets (their number is the result) and `*boundary`.
pub record Route : Type 0 where
  pub offsets : List ℕ
  pub boundary : ℤ

-- `i & (ptrs - 1)` in two's complement
abbrev low_bits : ℕ → ℤ → ℕ
low_bits ptrs (pos n) = n % ptrs
low_bits ptrs (negsuc n) = ptrs - 1 - n % ptrs

abbrev route : ℕ → List ℕ → ℕ → ℤ → Route
route ptrs offsets final i_block = record {
  offsets = offsets;
  boundary = sub_ℕ final (1 + low_bits ptrs i_block);
}

unfoldable pub block_to_path : Geometry → ℤ → Route
block_to_path g (negsuc i) = route g.ptrs [] 0 (negsuc i)
block_to_path g (pos i) =
    let indirect_blocks = g.ptrs in
    let double_blocks = 2 ^ (g.ptrs_bits * 2) in
    let i1 = i - ndir_blocks in
    let i2 = i1 - indirect_blocks in
    let i3 = i2 - double_blocks in
    if ltb i ndir_blocks
    then route g.ptrs (i ∷ []) ndir_blocks (pos i)
    else if ltb i1 indirect_blocks
    then route g.ptrs (ind_block ∷ i1 ∷ []) g.ptrs (pos i1)
    else if ltb i2 double_blocks
    then route g.ptrs (dind_block ∷ i2 / 2 ^ g.ptrs_bits ∷ i2 % g.ptrs ∷ []) g.ptrs (pos i2)
    else if ltb (i3 / 2 ^ (g.ptrs_bits * 2)) g.ptrs
    then route g.ptrs
        (tind_block ∷ i3 / 2 ^ (g.ptrs_bits * 2) ∷ i3 / 2 ^ g.ptrs_bits % g.ptrs ∷ i3 % g.ptrs ∷ [])
        g.ptrs (pos i3)
    else route g.ptrs [] 0 (pos i3)
