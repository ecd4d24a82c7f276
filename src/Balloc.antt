-- ===== src/Balloc.antt =====
-- Blocks given out and taken back: balloc.c. The code's threads are taken one after another.
pub mod Search
pub mod Allocate
pub mod Free
pub mod Sparse
pub mod Reserve
pub mod Window
pub mod New
