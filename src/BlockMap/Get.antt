-- ===== src/BlockMap/Get.antt =====
-- kr_get_blocks and kr_get_block (inode.c). Other threads change the tree until `truncate_mutex` is
-- held: `seen` is what the first kr_get_branch read, `meanwhile count` the tree at each round of
-- the loop that maps more blocks, and the file's own tree is the one under the mutex.
pub mod Attach
pub mod Lookup
pub mod Allocated
pub mod Answers
pub mod Found
pub mod Holes
pub mod Extend
pub mod Laws
use k_rack.Common.{
  ℕ, zero, suc, ◌+◌, ◌-◌, ◌*◌, ◌/◌, ◌%◌, ◌^◌, ◌≤◌, ◌<◌, min, bit_and, ◌≡◌, refl, sym, ap, subst,
  ◌∙◌, ◌≢◌, ◌↔◌, ◌⊎◌, inl, inr, Bool, true, false, not, ◌&&◌, ◌||◌, Option, none, some, List, [],
  ◌∷◌, ◌++◌, arith, ltb, leb, ◌==◌, if◌then◌else◌, ltb→lt, lt→ltb, leb→le, le→leb, ==_iff,
  Bool-cases, Option-cases, length, get_elem?, get_or, set, take, drop, length-append, length-set,
  get_elem?-set_self, get_elem?-set_ne, sub32, sub32_lem, clear_flag, eperm, enoent, eio, eagain,
  enomem, eacces, efault, ebusy, eexist, einval, enotty, enospc, enametoolong, enotempty, ℤ, pos,
  negsuc, sub_ℕ, pos_part, neg_part, ◌+ℤ◌, Bitmap, write_bit, count_set, count_set-le,
  count_set-set, count_set-clear, count_set-ext, FindsZero, rem, quot, reach_place,
}
use k_rack.BlockPath.{Geometry, block_to_path}
use k_rack.BlockMap.{Tree, read, Indirect, verify_chain, Branch, whole, partial, get_branch}
use k_rack.BlockMap.Alloc.{
  AllocOps, AllocInfo, Place, find_goal, blks_to_allocate, NewBranch, got, lacking, halted,
  free_each, alloc_blocks,
}
use k_rack.BlockMap.Write.{first_of, link_chain, splice}

pub record File (S : Type 0) : Type 0 where
  pub tree : Tree
  pub info : Option AllocInfo
  pub space : S

-- What the code takes from the inode, the super block, the block device and the kernel: `broken`
-- are the blocks that the first reading cannot read, `broken_again` those of the second, and
-- `zeroout` is an error of sb_issue_zeroout.
pub record Setting : Type 0 where
  pub geometry : Geometry
  pub place : Place
  pub regular : Bool
  pub dax : Bool
  pub seen : Tree
  pub meanwhile : ℕ → Tree
  pub broken : ℕ → Bool
  pub broken_again : ℕ → Bool
  pub kmalloc : Bool
  pub no_memory : ℕ → Bool
  pub zeroout : ℕ → ℕ → Option ℕ

-- `mapped count bno new boundary`, 0 (`hole`), a negative `errno`, or a BUG.
pub data Answer : Type 0 where
  mapped : ℕ → ℕ → Bool → Bool → Answer
  hole : Answer
  failed : ℕ → Answer
  bug : Answer

-- The loop that maps more blocks, in at most `n` rounds; `none` is EAGAIN.
unfoldable pub map_more : (ℕ → Tree) → List Indirect → Indirect → ℕ → ℕ → Option ℕ
map_more trees above p count zero = some count
map_more trees above p count (suc n) =
    let d = trees count in
    let more = map_more trees above p (count + 1) n in
    if not (verify_chain d (p ∷ above))
    then none
    else if read d p.bh (p.p + count) == p.key + count
    then more
    else some count

-- `got_it`
unfoldable pub got_it : ℕ → ℕ → Bool → ℕ → Answer
got_it count bno new blocks_to_boundary = mapped count bno new (ltb blocks_to_boundary count)

-- What kr_get_block leaves in the buffer head.
pub record BufferHead : Type 0 where
  pub b_blocknr : Option ℕ
  pub b_size : ℕ
  pub is_new : Bool
  pub is_boundary : Bool

module _ {S : Type 0} (ops : AllocOps S) where
  -- The writes of kr_alloc_branch and kr_splice_branch for the new blocks; `os` are the offsets
  -- after that of the missing link `p`.
  unfoldable pub attach :
      Setting
      → File S
      → S
      → Option AllocInfo
      → ℕ
      → Indirect
      → List ℕ
      → ℕ
      → List ℕ
      → ℕ
      → ℕ
      → File S × Answer
  attach w f s info iblock p os blocks_to_boundary inds first count =
      let k = length inds in
      let lost = free_each ops s inds in
      elim (link_chain f.tree w.no_memory count inds first os) [
        | none ↦ (
          record { tree = f.tree; info = info; space = ops.free lost first count },
          failed enomem,
        )
        | some linked ↦
            let zeroed : Option ℕ = if w.dax then w.zeroout first count else none in
            elim zeroed [
              | some err ↦ (record { tree = linked; info = info; space = s }, failed err)
              | none ↦ (
                record {
                  tree = splice linked p.bh p.p (first_of inds first) k count;
                  info = elim info [
                    | none ↦ none
                    | some i ↦ some (record {
                      last_alloc_logical_block = (iblock + count - 1) % 2 ^ 32;
                      last_alloc_physical_block = first + count - 1;
                    })
                  ];
                  space = s;
                },
                got_it count first (not w.dax) blocks_to_boundary,
              )
            ]
      ]

  -- From kr_find_goal on, under the mutex.
  unfoldable pub extend :
      Setting
      → File S
      → S
      → Option AllocInfo
      → ℕ
      → ℕ
      → ℕ
      → List ℕ
      → List Indirect
      → Indirect
      → File S × Answer
  extend w f s info iblock maxblocks blocks_to_boundary offsets above p =
      let has : Bool = elim info [ none ↦ false | some i ↦ true ] in
      let goal = find_goal f.tree w.place info iblock p in
      let indirect_blks = length offsets - length above - 1 in
      let count = blks_to_allocate f.tree p indirect_blks maxblocks blocks_to_boundary in
      elim (alloc_blocks ops s has goal indirect_blks count) [
        | halted ↦ (record { tree = f.tree; info = info; space = s }, bug)
        | lacking s' err ↦ (record { tree = f.tree; info = info; space = s' }, failed err)
        | got s' inds first num ↦
            attach w f s' info iblock p (drop (length above + 1) offsets) blocks_to_boundary inds
              first num
      ]

  -- A regular file gets its `i_block_alloc_info` first, if there is memory for it.
  unfoldable pub allocate :
      Setting → File S → ℕ → ℕ → ℕ → List ℕ → List Indirect → Indirect → File S × Answer
  allocate w f iblock maxblocks blocks_to_boundary offsets above p =
      let starts = w.regular && (elim f.info [ none ↦ true | some i ↦ false ]) && w.kmalloc in
      let info =
        if starts
        then some (record { last_alloc_logical_block = 0; last_alloc_physical_block = 0 })
        else f.info in
      let s = if starts then ops.init f.space else f.space in
      extend w f s info iblock maxblocks blocks_to_boundary offsets above p

  -- Under the mutex, the chain is read again. The error of this reading is not looked at.
  unfoldable pub read_again : Setting → File S → ℕ → ℕ → ℕ → ℕ → List ℕ → File S × Answer
  read_again w f iblock maxblocks blocks_to_boundary o os =
      elim (get_branch f.tree w.broken_again o os) [
        | whole above p ↦ (f, got_it 1 p.key false blocks_to_boundary)
        | partial above p err ↦ allocate w f iblock maxblocks blocks_to_boundary (o ∷ os) above p
      ]

  -- After the first reading; `blocks_to_boundary` is not negative here.
  unfoldable pub after_lookup :
      Setting → File S → ℕ → ℕ → Bool → ℕ → ℕ → List ℕ → Branch → File S × Answer
  after_lookup w f iblock maxblocks create blocks_to_boundary o os (whole above p) =
      elim (map_more w.meanwhile above p 1 (min (maxblocks - 1) blocks_to_boundary)) [
        | some count ↦ (f, got_it count p.key false blocks_to_boundary)
        | none ↦ elim create [
          | true ↦ read_again w f iblock maxblocks blocks_to_boundary o os
          | false ↦ (f, failed eagain)
        ]
      ]
  after_lookup w f iblock maxblocks create blocks_to_boundary o os (partial above p err) =
      elim (not create || err == eio) [
        | true ↦ (f, if err == 0 then hole else failed err)
        | false ↦ elim (err == eagain || not (verify_chain f.tree (p ∷ above))) [
          | true ↦ read_again w f iblock maxblocks blocks_to_boundary o os
          | false ↦ allocate w f iblock maxblocks blocks_to_boundary (o ∷ os) above p
        ]
      ]

  -- `maxblocks` 0 is a BUG.
  unfoldable pub get_blocks : Setting → File S → ℕ → ℕ → Bool → File S × Answer
  get_blocks w f iblock maxblocks create =
      let path = block_to_path w.geometry (pos iblock) in
      elim (maxblocks == 0) [
        | true ↦ (f, bug)
        | false ↦ elim path.offsets [
          | [] ↦ (f, failed eio)
          | o ∷ os ↦
              after_lookup w f iblock maxblocks create (pos_part path.boundary) o os
                (get_branch w.seen w.broken o os)
        ]
      ]

  unfoldable pub get_block :
      Setting → File S → ℕ → ℕ → BufferHead → Bool → (File S × BufferHead) × Answer
  get_block w f blkbits iblock bh create =
      let (f', r) = get_blocks w f iblock (bh.b_size / 2 ^ blkbits % 2 ^ 32) create in
      elim r [
        | mapped count bno new boundary ↦ (
          (
            f',
            record {
              b_blocknr = some bno;
              b_size = count * 2 ^ blkbits;
              is_new = bh.is_new || new;
              is_boundary = bh.is_boundary || boundary;
            },
          ),
          hole,
        )
        | other ↦ ((f', bh), other)
      ]
