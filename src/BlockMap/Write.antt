-- ===== src/BlockMap/Write.antt =====
-- Writes to the pointers of a file (inode.c): the chain of new blocks of kr_alloc_branch and its
-- link in kr_splice_branch. Block numbers have 32 bits in the file, and balloc.c gives no larger
-- ones.
pub mod Laws
use k_rack.Common.{
  ℕ, zero, suc, ◌+◌, ◌-◌, ◌*◌, ◌/◌, ◌%◌, ◌^◌, ◌≤◌, ◌<◌, min, bit_and, ◌≡◌, refl, sym, ap, subst,
  ◌∙◌, ◌≢◌, ◌↔◌, ◌⊎◌, inl, inr, Bool, true, false, not, ◌&&◌, ◌||◌, Option, none, some, List, [],
  ◌∷◌, ◌++◌, arith, ltb, leb, ◌==◌, if◌then◌else◌, ltb→lt, lt→ltb, leb→le, le→leb, ==_iff,
  Bool-cases, Option-cases, length, get_elem?, get_or, set, take, drop, length-append, length-set,
  get_elem?-set_self, get_elem?-set_ne, sub32, sub32_lem, clear_flag, eperm, enoent, eio, eagain,
  enomem, eacces, efault, ebusy, eexist, einval, enotty, enospc, enametoolong, enotempty, ℤ, pos,
  negsuc, sub_ℕ, pos_part, neg_part, ◌+ℤ◌, Bitmap, write_bit, count_set, count_set-le,
  count_set-set, count_set-clear, count_set-ext, FindsZero, rem, quot, reach_place,
}
use k_rack.BlockMap.{Tree, read, Indirect}

unfoldable pub write : Tree → Option ℕ → ℕ → ℕ → Tree
write d none o v = record { i_data = λ j. if j == o then v else d.i_data j; block = d.block }
write d (some b) o v = record {
  i_data = d.i_data;
  block = λ c j. if c == b && j == o then v else d.block c j;
}

-- Pointers that follow one another, to blocks that follow one another.
unfoldable pub write_run : Tree → Option ℕ → ℕ → ℕ → ℕ → Tree
write_run d bh o v zero = d
write_run d bh o v (suc n) = write_run (write d bh o v) bh (o + 1) (v + 1) n

unfoldable pub wipe : Tree → ℕ → Tree
wipe d b = record { i_data = d.i_data; block = λ c j. if c == b then 0 else d.block c j }

-- The first new block, `new_blocks[0]`.
abbrev pub first_of : List ℕ → ℕ → ℕ
first_of [] first = first
first_of (b ∷ bs) first = b

-- The loop of kr_alloc_branch over the new indirect blocks, with the `offsets` from the second on;
-- `no_memory` says where sb_getblk fails, and then the buffers are forgotten.
unfoldable pub link_chain : Tree → (ℕ → Bool) → ℕ → List ℕ → ℕ → List ℕ → Option Tree
link_chain d no_memory num [] first os = some d
link_chain d no_memory num (b ∷ bs) first [] = none
link_chain d no_memory num (b ∷ []) first (o ∷ os) =
    if no_memory b
    then none
    else some (write_run (write (wipe d b) (some b) o first) (some b) (o + 1) (first + 1) (num - 1))
link_chain d no_memory num (b ∷ c ∷ bs) first (o ∷ os) =
    let rest = link_chain (write (wipe d b) (some b) o c) no_memory num (c ∷ bs) first os in
    if no_memory b then none else rest

-- The writes of kr_splice_branch; `key` is `where->key`, and `k` is `num`.
unfoldable pub splice : Tree → Option ℕ → ℕ → ℕ → ℕ → ℕ → Tree
splice d bh o key k blks =
    let d' = write d bh o key in
    if k == 0 && ltb 1 blks then write_run d' bh (o + 1) (key + 1) (blks - 1) else d'
