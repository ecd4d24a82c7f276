-- ===== src/BlockMap/Truncate.antt =====
-- kr_free_data and kr_free_branches (inode.c): the pointers that become 0, and the calls of
-- kr_free_blocks in their order. The buffer of a block that is freed keeps its zeros.
pub mod Cleared
pub mod Data
pub mod Once
pub mod Laws
use k_rack.Common.{
  ℕ, zero, suc, ◌+◌, ◌-◌, ◌*◌, ◌/◌, ◌%◌, ◌^◌, ◌≤◌, ◌<◌, min, bit_and, ◌≡◌, refl, sym, ap, subst,
  ◌∙◌, ◌≢◌, ◌↔◌, ◌⊎◌, inl, inr, Bool, true, false, not, ◌&&◌, ◌||◌, Option, none, some, List, [],
  ◌∷◌, ◌++◌, arith, ltb, leb, ◌==◌, if◌then◌else◌, ltb→lt, lt→ltb, leb→le, le→leb, ==_iff,
  Bool-cases, Option-cases, length, get_elem?, get_or, set, take, drop, length-append, length-set,
  get_elem?-set_self, get_elem?-set_ne, sub32, sub32_lem, clear_flag, eperm, enoent, eio, eagain,
  enomem, eacces, efault, ebusy, eexist, einval, enotty, enospc, enametoolong, enotempty, ℤ, pos,
  negsuc, sub_ℕ, pos_part, neg_part, ◌+ℤ◌, Bitmap, write_bit, count_set, count_set-le,
  count_set-set, count_set-clear, count_set-ext, FindsZero, rem, quot, reach_place,
}
use k_rack.BlockMap.{Tree, read}
use k_rack.BlockMap.Write.{write}

-- A call of kr_free_blocks.
pub record Call : Type 0 where
  pub block : ℕ
  pub count : ℕ

-- A call, if there are blocks to free.
abbrev pub pending : ℕ → ℕ → List Call
pending block_to_free count =
    if ltb 0 count then record { block = block_to_free; count = count } ∷ [] else []

-- The loop of kr_free_data over `n` pointers from `o` on; `nr - count` has 64 bits.
unfoldable pub data_from : Tree → Option ℕ → ℕ → ℕ → ℕ → ℕ → Tree × List Call
data_from d bh zero o block_to_free count = (d, pending block_to_free count)
data_from d bh (suc n) o block_to_free count =
    let nr = read d bh o in
    let cleared = write d bh o 0 in
    let skipped = data_from d bh n (o + 1) block_to_free count in
    let more = data_from cleared bh n (o + 1) block_to_free (count + 1) in
    let started = data_from cleared bh n (o + 1) nr 1 in
    if nr == 0
    then skipped
    else if count == 0
    then started
    else if block_to_free == (nr + 2 ^ 64 - count) % 2 ^ 64
    then more
    else (started.0, record { block = block_to_free; count = count } ∷ started.1)

unfoldable pub free_data : Tree → Option ℕ → ℕ → ℕ → Tree × List Call
free_data d bh n o = data_from d bh n o 0 0

-- One round of kr_free_branches; `below` is the call for the block's own pointers, and a block that
-- cannot be read is not freed.
unfoldable pub branch_round :
    (ℕ → Bool) → (Tree → ℕ → Tree × List Call) → Tree → Option ℕ → ℕ → Tree × List Call
branch_round broken below d bh o =
    let nr = read d bh o in
    let cleared = write d bh o 0 in
    let walked = below cleared nr in
    if nr == 0
    then (d, [])
    else if broken nr
    then (cleared, [])
    else (walked.0, walked.1 ++ (record { block = nr; count = 1 } ∷ []))

unfoldable pub branches_from :
    (ℕ → Bool) → (Tree → ℕ → Tree × List Call) → Tree → Option ℕ → ℕ → ℕ → Tree × List Call
branches_from broken below d bh zero o = (d, [])
branches_from broken below d bh (suc n) o =
    let first = branch_round broken below d bh o in
    let others = branches_from broken below first.0 bh n (o + 1) in (others.0, first.1 ++ others.1)

-- `depth` levels of indirect blocks, each of `addr_per_block` pointers, below `n` pointers.
unfoldable pub free_branches : (ℕ → Bool) → ℕ → ℕ → Tree → Option ℕ → ℕ → ℕ → Tree × List Call
free_branches broken addr_per_block zero d bh n o = free_data d bh n o
free_branches broken addr_per_block (suc depth) d bh n o =
    branches_from broken
      (λ d' nr. free_branches broken addr_per_block depth d' (some nr) addr_per_block 0) d bh n o
