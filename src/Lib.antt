-- ===== src/Lib.antt =====
-- K-rack: the kr file system (Exercises/Exercise19), a file system for the Linux kernel in the manner
-- of ext2.
--
-- A disk is divided into groups of blocks. Each group has a descriptor, a bitmap of its blocks, a
-- bitmap of its inodes and a table of inodes. A directory is a file of entries, chunk after chunk. The
-- parts that are modelled, and their files:
--
-- - Super: struct kr_sb_info and struct kr_group_desc of kr.h, and kr_get_group_desc of balloc.c. The
--   buffer cache is a map from block numbers to bitmaps; a failed read is `none`. Super/Counts says
--   when the counts of the descriptors agree with the bitmaps.
-- - Ialloc: ialloc.c. Groups has find_group_dir and find_group_other, Orlov has find_group_orlov, Alloc
--   has kr_new_inode, Free has kr_free_inode. Parent and NewInode are the fields of struct inode that
--   count there.
-- - Balloc: balloc.c. Search has find_next_usable_block, Allocate has kr_try_to_allocate, Free has
--   kr_free_blocks, Sparse has the groups with a copy of the super block. Reserve has the tree of
--   reservation windows, Window has find_next_reservable_window, alloc_new_reservation and
--   try_to_extend_reservation, New has kr_new_blocks and New/Try kr_try_to_allocate_with_rsv. A window
--   is a number; the tree has the numbers and a map their contents, so a window that moves in place
--   stays where it is in the tree.
-- - Dir: dir.c. Entry has the record of an entry, Check has kr_check_page, Inode has kr_get_page, Search
--   has kr_find_entry, Insert has kr_add_link, Remove has kr_delete_entry, Empty has kr_make_empty and
--   kr_empty_dir. A page is a map from offsets to entries.
-- - BlockPath: kr_block_to_path of inode.c.
-- - BlockMap: the tree of indirect blocks of inode.c, as the pointers in the inode and a map from block
--   numbers to the pointers in a block. BlockMap has kr_get_branch, Alloc has kr_find_goal and
--   kr_alloc_blocks, Write the writes of kr_alloc_branch and kr_splice_branch, Get kr_get_blocks and
--   kr_get_block, Truncate what kr_free_data and kr_free_branches clear and free. Follow says
--   what the pointer at a position is, Position which position a file's block has, Lead and Grow what a
--   new branch changes.
-- - CharDevice: the character device of Exercises/Exercise7, which keeps one message.
-- - ProcFile: the read function of the proc files of Exercises/Exercise8 and Exercises/Exercise9. It uses
--   the loop of CharDevice; the two stand apart from the file system.
-- - Common: shared notation, lists, bitmaps, quotients and error numbers. Tests: the theorems applied to
--   concrete states.
--
-- BlockMap takes from Balloc a record of operations (AllocOps) with what they promise (AllocLaws);
-- Alloc/Kr fills it with kr_new_blocks and kr_free_blocks. A lookup
-- sees one tree; between the steps of kr_get_blocks other threads may change it, so it takes the trees
-- of those times, and the one under truncate_mutex.
--
-- The allocators (Ialloc, Balloc) work on the state of Super and give it back changed; Dir works on the
-- pages of one directory's inode.
--
-- State is passed explicitly. The code takes locks; the model takes the threads one after another, so a
-- bit that was found clear is still clear when it is set. What the kernel answers is a parameter: a
-- record `Env` of error numbers and flags, the bit search find_next_zero_bit, the byte search memscan
-- and the tree functions rb_insert_color, rb_erase, rb_next and rb_prev (RbTree), with what their
-- documentation promises as hypotheses (FindsZero, ScansBytes, RbLaws). The lock on the windows is free
-- when it is tried. Quota calls, dirty marks and messages are left out, but for the quota that refuses.
-- An error is its positive number, and 0 is success.
--
-- Numbers are natural; the widths of the code are written out where they can wrap: 16-bit counts in
-- descriptors, 32-bit differences in pages, 64-bit block ranges, and the `int`s of balloc.c: the goal
-- size in find_next_reservable_window, the size in try_to_extend_reservation and the product in
-- test_root. From 2^31 on such a number is negative, and find_next_reservable_window may then try
-- without an end, so the windows are in order (WindowsOk) only while goal sizes are below 2^31, and
-- kr_new_blocks is asked for fewer blocks than that; AllocLaws has the bound as a parameter. The
-- products of test_root stay in range for groups below 2^31 / 7. A sum of block numbers is taken to be
-- exact. The counters of find_group_orlov are below 2^31, the shifts of kr_block_to_path fit an `int`
-- (there are at most 1024 pointers in a block), and find_next_usable_block is not called with a start
-- behind the last byte of the bitmap. PAGE_SIZE is 4096.
--
-- Loops over a page have one round of fuel for each byte of the page, which is enough since a record has
-- at least 12 bytes. The rounds of kr_free_blocks have one for each block, and one more, since each
-- round frees at least one. The searches over the groups count the groups. The search for room goes
-- through at most all windows, alloc_new_reservation has one round for each block of a group, and
-- kr_try_to_allocate_with_rsv has two rounds, since a window found in a round has a free block.
-- kr_alloc_blocks has one round for each
-- indirect block and one more, since a round that does not end it fills an indirect block.
-- kr_new_blocks may claim a block of the file system's own in vain: it has a round for each block of the
-- disk, and two more; on a file system that is in order two are enough.
--
-- Not modelled: the rest of the truncation and inodes on disk (inode.c), names and links (namei.c), mounting
-- (super.c), ioctl.c, kr_readdir, file.c and symlink.c; the
-- eviction of an inode that kr_new_inode gives up after a quota error; extended attributes, which no
-- build file names; the small modules of the other exercises, and myfs.
pub mod Common
pub mod Dir
pub mod BlockPath
pub mod BlockMap
pub mod Super
pub mod CharDevice
pub mod ProcFile
pub mod Ialloc
pub mod Balloc
pub mod Tests
