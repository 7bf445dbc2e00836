-- ===== src/Exec.antt =====
-- kernel/exec.c, with include/elf.h: loading a program and laying out its first stack.
pub mod Stack
pub mod Load
pub mod Entry
pub mod Laws
pub mod Strings
pub mod Tests
