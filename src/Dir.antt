-- ===== src/Dir.antt =====
-- Directories, Exercises/Exercise19/dir.c: entries, the page check, search, insertion, removal.
pub mod Entry
pub mod Check
pub mod Inode
pub mod Search
pub mod Insert
pub mod Remove
pub mod Empty
