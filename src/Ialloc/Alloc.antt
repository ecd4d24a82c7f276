-- ===== src/Ialloc/Alloc.antt =====
-- kr_new_inode (ialloc.c): the search for a clear bit, and the inode that is set up. The threads
-- are taken one after another. `next_zero` is the kernel's `find_next_zero_bit`.
use k_rack.Common.{
  ℕ, zero, suc, ◌+◌, ◌-◌, ◌*◌, ◌/◌, ◌%◌, ◌^◌, bit_and, Bool, true, not, ◌||◌, Option, none, some,
  ltb, leb, ◌==◌, if◌then◌else◌, clear_flag, eio, enomem, enospc, pos, negsuc, ◌+ℤ◌, Bitmap,
  write_bit,
}
use k_rack.Super.{GroupDesc, SbInfo, get_group_desc, put_group_desc, put_bitmap, add16, sub16}
use k_rack.Ialloc.Groups.{Parent, find_group_dir, find_group_other}
use k_rack.Ialloc.Orlov.{find_group_orlov}

-- read_inode_bitmap
unfoldable pub read_inode_bitmap : SbInfo → ℕ → Option Bitmap
read_inode_bitmap sb group = elim (get_group_desc sb group) [
  | none ↦ none
  | some desc ↦ sb.bitmaps desc.bg_inode_bitmap
]

-- What the kernel answers: memory for the inode, the mount option OLDALLOC, a random number, the
-- inode cache (`insert_inode_locked`), and the two quota calls.
pub record Env : Type 0 where
  pub has_memory : Bool
  pub oldalloc : Bool
  pub rand : ℕ
  pub insert_ok : Bool
  pub quota_init_err : ℕ
  pub quota_alloc_err : ℕ

-- The fields of the new inode that other code of the file system reads.
pub record NewInode : Type 0 where
  pub i_ino : ℕ
  pub i_mode : ℕ
  pub i_flags : ℕ
  pub i_block_group : ℕ
  pub i_generation : ℕ

pub data Outcome : Type 0 where
  created : NewInode → Outcome
  failed : ℕ → Outcome

abbrev pub s_isdir : ℕ → Bool
s_isdir mode = mode / 4096 % 16 == 4

abbrev pub s_isreg : ℕ → Bool
s_isreg mode = mode / 4096 % 16 == 8

abbrev pub fl_inherited : ℕ
fl_inherited = 0x1c6cf

abbrev pub dir_only_fl : ℕ
dir_only_fl = 0x30000

abbrev pub other_flmask : ℕ
other_flmask = 0xc0

-- kr_mask_flags
unfoldable pub mask_flags : ℕ → ℕ → ℕ
mask_flags mode flags =
    if s_isdir mode
    then flags
    else if s_isreg mode
    then clear_flag flags dir_only_fl
    else bit_and flags other_flmask

module _ (next_zero : Bitmap → ℕ → ℕ → ℕ) where
  -- `repeat_in_this_group`; `none` is a group that has no clear bit from `ino` on.
  unfoldable pub claim : ℕ → ℕ → Bitmap → ℕ → Option ℕ
  claim zero per_group b ino = none
  claim (suc fuel) per_group b ino =
      let found = next_zero b per_group ino in
      let again = claim fuel per_group b (found + 1) in
      if leb per_group found
      then none
      else if b found
      then (if leb per_group (found + 1) then none else again)
      else some found

-- How the loop over the groups ends.
pub data Search : Type 0 where
  at : ℕ → GroupDesc → Bitmap → ℕ → Search
  io_error exhausted : Search

-- The group in which the search starts.
unfoldable pub first_group : SbInfo → Env → Parent → ℕ → Option ℕ
first_group sb env dir mode =
    if s_isdir mode
    then (if env.oldalloc then find_group_dir sb else find_group_orlov sb dir env.rand)
    else find_group_other sb dir

-- The counters, the descriptor and the debt of the group, after the bit is set.
unfoldable pub charge : SbInfo → ℕ → GroupDesc → ℕ → SbInfo
charge sb group desc mode =
    let debt = sb.s_debts group in
    let debt' =
      if s_isdir mode
      then (if ltb debt 255 then debt + 1 else debt)
      else if debt == 0
      then 0
      else debt - 1 in
    let desc' = record desc {
      bg_free_inodes_count = sub16 desc.bg_free_inodes_count 1;
      bg_used_dirs_count =
          if s_isdir mode then add16 desc.bg_used_dirs_count 1 else desc.bg_used_dirs_count;
    } in
    record (put_group_desc sb group desc') {
      s_freeinodes_counter = sb.s_freeinodes_counter +ℤ negsuc 0;
      s_dirs_counter = if s_isdir mode then sb.s_dirs_counter +ℤ pos 1 else sb.s_dirs_counter;
      s_debts = λ g. if g == group then debt' else sb.s_debts g;
    }

-- `got`, with the bit that was found.
unfoldable pub take_inode :
    SbInfo → Env → Parent → ℕ → ℕ → GroupDesc → Bitmap → ℕ → SbInfo × Outcome
take_inode sb env dir mode group desc b bit =
    let marked = put_bitmap sb desc.bg_inode_bitmap (write_bit b bit true) in
    let ino = bit + (group * sb.s_inodes_per_group + 1) in
    let charged = charge marked group desc mode in
    let numbered = record charged { s_next_generation = (sb.s_next_generation + 1) % 2 ^ 32 } in
    let inode : NewInode = record {
      i_ino = ino;
      i_mode = mode;
      i_flags = mask_flags mode (bit_and dir.i_flags fl_inherited);
      i_block_group = group;
      i_generation = sb.s_next_generation;
    } in
    if ltb ino sb.s_first_ino || ltb sb.s_inodes_count ino
    then (marked, failed eio)
    else if not env.insert_ok
    then (numbered, failed eio)
    else if not (env.quota_init_err == 0)
    then (numbered, failed env.quota_init_err)
    else if not (env.quota_alloc_err == 0)
    then (numbered, failed env.quota_alloc_err)
    else (numbered, created inode)

module _ (next_zero : Bitmap → ℕ → ℕ → ℕ) where
  unfoldable pub search_groups : ℕ → SbInfo → ℕ → Search
  search_groups zero sb group = exhausted
  search_groups (suc count) sb group =
      let next = if group + 1 == sb.s_groups_count then 0 else group + 1 in
      let rest = search_groups count sb next in
      elim (get_group_desc sb group) [
        | none ↦ rest
        | some desc ↦ elim (read_inode_bitmap sb group) [
          | none ↦ io_error
          | some b ↦ elim (claim next_zero (sb.s_inodes_per_group + 1) sb.s_inodes_per_group b 0) [
            | none ↦ rest
            | some bit ↦ at group desc b bit
          ]
        ]
      ]

  unfoldable pub new_inode : SbInfo → Env → Parent → ℕ → SbInfo × Outcome
  new_inode sb env dir mode =
      if not env.has_memory then (sb, failed enomem) else elim (first_group sb env dir mode) [
        | none ↦ (sb, failed enospc)
        | some group ↦ elim (search_groups sb.s_groups_count sb group) [
          | exhausted ↦ (sb, failed enospc)
          | io_error ↦ (sb, failed eio)
          | at g desc b bit ↦ take_inode sb env dir mode g desc b bit
        ]
      ]
