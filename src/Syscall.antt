-- ===== src/Syscall.antt =====
-- kernel/syscall.c and include/xv6_syscall.h.
pub mod Args
pub mod Files
pub mod Table
pub mod Printed
pub mod Tests
