-- ===== src/Fs.antt =====
-- kernel/bio.c and kernel/fs.c: buffers, block allocation, inodes, reading and writing, paths.
pub mod Bio
pub mod Layout
pub mod Blocks
pub mod Inodes
pub mod Update
pub mod Indirect
pub mod Locking
pub mod Rw
pub mod Dirs
pub mod Tests
