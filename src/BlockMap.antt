-- ===== src/BlockMap.antt =====
-- The tree of blocks of a file (inode.c): the fifteen pointers in the inode and the indirect
-- blocks. A chain of triples stands with its last triple first.
pub mod Follow
pub mod Alloc
pub mod Write
pub mod Lead
pub mod Position
pub mod Grow
pub mod Get
pub mod Truncate
use k_rack.Common.{
  ℕ, zero, suc, ◌+◌, ◌-◌, ◌*◌, ◌/◌, ◌%◌, ◌^◌, ◌≤◌, ◌<◌, min, bit_and, ◌≡◌, refl, sym, ap, subst,
  ◌∙◌, ◌≢◌, ◌↔◌, ◌⊎◌, inl, inr, Bool, true, false, not, ◌&&◌, ◌||◌, Option, none, some, List, [],
  ◌∷◌, ◌++◌, arith, ltb, leb, ◌==◌, if◌then◌else◌, ltb→lt, lt→ltb, leb→le, le→leb, ==_iff,
  Bool-cases, Option-cases, length, get_elem?, get_or, set, take, drop, length-append, length-set,
  get_elem?-set_self, get_elem?-set_ne, sub32, sub32_lem, clear_flag, eperm, enoent, eio, eagain,
  enomem, eacces, efault, ebusy, eexist, einval, enotty, enospc, enametoolong, enotempty, ℤ, pos,
  negsuc, sub_ℕ, pos_part, neg_part, ◌+ℤ◌, Bitmap, write_bit, count_set, count_set-le,
  count_set-set, count_set-clear, count_set-ext, FindsZero, rem, quot, reach_place,
}

-- `i_data` and the contents of the indirect blocks in the buffer cache; 0 is no block.
pub record Tree : Type 0 where
  pub i_data : ℕ → ℕ
  pub block : ℕ → ℕ → ℕ

-- The pointer at an offset in the inode (`none`) or in an indirect block.
abbrev pub read : Tree → Option ℕ → ℕ → ℕ
read d none o = d.i_data o
read d (some b) o = d.block b o

-- `bh` is the block that holds the pointer, and `p` its offset there.
pub record Indirect : Type 0 where
  pub bh : Option ℕ
  pub p : ℕ
  pub key : ℕ

abbrev pub add_chain : Tree → Option ℕ → ℕ → Indirect
add_chain d bh o = record { bh = bh; p = o; key = read d bh o }

unfoldable pub verify_chain : Tree → List Indirect → Bool
verify_chain d [] = true
verify_chain d (c ∷ cs) = c.key == read d c.bh c.p && verify_chain d cs

-- `whole` is NULL. Both have the triples above the last one, and the last one; `partial` has the
-- error, or 0 for a pointer that is 0.
pub data Branch : Type 0 where
  whole : List Indirect → Indirect → Branch
  partial : List Indirect → Indirect → ℕ → Branch

-- The loop of kr_get_branch; `broken` says which blocks cannot be read.
unfoldable pub branch_from : Tree → (ℕ → Bool) → List Indirect → Indirect → List ℕ → Branch
branch_from d broken above p [] = whole above p
branch_from d broken above p (o ∷ os) =
    let q = add_chain d (some p.key) o in
    let rest = branch_from d broken (p ∷ above) q os in
    if broken p.key
    then partial above p eio
    else if not (verify_chain d (p ∷ above))
    then partial above p eagain
    else if q.key == 0
    then partial (p ∷ above) q 0
    else rest

-- The offsets are `o` in the inode and then `os`.
unfoldable pub get_branch : Tree → (ℕ → Bool) → ℕ → List ℕ → Branch
get_branch d broken o os =
    let p = add_chain d none o in
    let rest = branch_from d broken [] p os in if p.key == 0 then partial [] p 0 else rest
