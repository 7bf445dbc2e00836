-- ===== src/Process.antt =====
-- kernel/proc.c: making, copying, ending and awaiting processes. The addresses of `trampoline` and
-- `forkret` come from the linker, and are arguments; so is what C finds in a variable that is read
-- before it is set.
pub mod Create
pub mod KernelTable
pub mod Finish
pub mod Fork
pub mod PageCopy
pub mod Laws
pub mod Woken
pub mod ExitWait
pub mod Tests
