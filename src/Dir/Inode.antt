-- ===== src/Dir/Inode.antt =====
-- A directory's inode with its page cache, and kr_get_page (dir.c).
use k_rack.Common.{ℕ, Bool, true, Option, none, some, ◌==◌, if◌then◌else◌}
use k_rack.Dir.Entry.{Page}
use k_rack.Dir.Check.{valid, Layout, check_page}

-- What the code takes from the mounted super block, and `dir_pages` of the kernel's headers.
pub record Super : Type 0 where
  pub chunk_size : ℕ
  pub inodes_count : ℕ
  pub has_filetype : Bool
  pub dir_pages : ℕ → ℕ

-- A page in the cache: its entries and the flags PageChecked and PageError.
pub record Slot : Type 0 where
  pub contents : Page
  pub checked : Bool
  pub error : Bool

-- The fields of `struct inode` and `struct kr_inode_info` that dir.c reads or writes. At `none`
-- `read_mapping_page` fails.
pub record Inode : Type 0 where
  pub i_ino : ℕ
  pub i_mode : ℕ
  pub i_size : ℕ
  pub i_blocks : ℕ
  pub i_version : ℕ
  pub i_mtime : ℕ
  pub i_ctime : ℕ
  pub i_flags : ℕ
  pub i_dir_start_lookup : ℕ
  pub pages : ℕ → Option Slot

abbrev pub layout : Super → Layout
layout sb = record { chunk_size = sb.chunk_size; max_inumber = sb.inodes_count }

abbrev pub put_slot : Inode → ℕ → Slot → Inode
put_slot d n s = record d { pages = λ k. if k == n then some s else d.pages k }

-- A page that is read for the first time is checked, and the outcome is kept in its flags.
unfoldable pub check_slot : Super → Inode → ℕ → Slot → Inode × Option Page
check_slot sb d n s =
    if s.checked
    then (d, some s.contents)
    else if s.error
    then (d, none)
    else elim (check_page (layout sb) d.i_size n s.contents) [
      | valid ↦ (put_slot d n (record s { checked = true }), some s.contents)
      | _ ↦ (put_slot d n (record s { error = true }), none)
    ]

unfoldable pub get_page : Super → Inode → ℕ → Inode × Option Page
unfolding check_slot
get_page sb d n = elim (d.pages n) [ none ↦ (d, none) | some s ↦ check_slot sb d n s ]
