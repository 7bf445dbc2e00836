-- ===== src/Fd.antt =====
-- kernel/fd.c and kernel/file.c: the table of open files and the descriptors of a process.
pub mod Alloc
pub mod Io
pub mod Laws
pub mod Tests
