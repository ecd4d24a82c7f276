-- ===== src/Tests.antt =====
-- Concrete states at which the theorems are applied.
mod Kernel
mod Inodes
mod Blocks
mod Dirs
mod Windows
mod Devices
mod Maps
