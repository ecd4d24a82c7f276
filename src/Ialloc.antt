-- ===== src/Ialloc.antt =====
-- Inodes given out and taken back: ialloc.c. The code's threads are taken one after another; what
-- the kernel answers on the way (memory, quota, the inode cache) is in `Env`.
pub mod Groups
pub mod Orlov
pub mod Alloc
pub mod Free
pub mod Created
pub mod Uses
pub mod Creates
pub mod Freed
pub mod Laws
