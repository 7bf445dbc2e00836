-- ===== src/Lib.antt =====
-- A model of the kernel of gcgos, a small operating system for AArch64 (kernel/*.c, include/*.h),
-- of the tool that makes its file system's image (mkfs/mkfs.c), and of its programs (user/*.c).
--
-- The parts, and the files that model them. A C function is a definition of the same name; its
-- loops are definitions beside it, and a run is an `Op` of Base/Running: it gives a value and a new
-- state, or it ends in `sched`, in `panic`, in a loop that nothing ends, or in undefined behaviour.
-- - Base: shared names. Base/Lists has lists by index, Base/Memory little-endian fields, Base/Words
--   the bytes of words, Base/Running the runs, Base/Total total correctness.
-- - Kmem: kernel/kalloc.c, over physical memory as 64-bit words. Kmem/FreeList, Kmem/Range,
--   Kmem/Owners, Kmem/Stack and Kmem/Count are about the free list, about `kinit`, about the pages'
--   owners in runs of the kernel, about the allocator as a stack, and about `countkmem` and double
--   frees.
-- - Vm: kernel/vm.c, three levels of page tables in the pages of Kmem. Vm/Bits is about entries,
--   Vm/Walk about tables that are there, Vm/Fresh about tables that `walk` takes from `kalloc`.
-- - Kernel: the structures of include/proc.h, fd.h, fs.h, bio.h, dev.h and kernel/pipe.c and
--   console.c, and one record for all the state.
-- - Sched: sleeping, waking, killing and scheduling of kernel/proc.c, with Sched/Wakeup,
--   Sched/Kill, Sched/Dispatch and Sched/Pass, on a whole pass of the scheduler.
-- - Process: creation (Process/Create) and exit and wait (Process/Finish) of kernel/proc.c, with
--   Process/PageCopy and Process/Fork about the copy that `fork` makes, Process/Laws about `wait`,
--   and Process/Woken and Process/ExitWait about the exit of a child; and the kernel's own table of
--   kernel/vm.c (Process/KernelTable). `forkret` is in Trap.
-- - Fs: Fs/Bio is kernel/bio.c; Fs/Layout is include/fs.h; kernel/fs.c is in Fs/Blocks (balloc,
--   bfree), Fs/Inodes (the inode table and bmap), Fs/Rw (readi, writei) and Fs/Dirs (namei, mknod).
--   Fs/Bio/Laws, Fs/Blocks/Alloc, Fs/Blocks/Bits, Fs/Blocks/Free, Fs/Blocks/Refine, Fs/Update,
--   Fs/Indirect, Fs/Rw/Copy, Fs/Rw/Contents, Fs/Rw/RoundTrip, Fs/Rw/NewBlock, Fs/Locking and
--   Fs/Dirs/Match are about them; Fs/Dirs/Entry, Fs/Dirs/Search and Fs/Dirs/Made about what `mknod`
--   enters.
-- - Pipe: kernel/pipe.c, with Pipe/Laws and Pipe/Order. Fd: kernel/fd.c (Fd/Alloc, Fd/Io) and
--   file.c, with Fd/Laws. Console: kernel/console.c and the UART's two data paths in
--   kernel/pl011_uart.c, with Console/Write and Console/Line. Printf: kernel/printf.c, with
--   Printf/Digits. Exec: kernel/exec.c (Exec/Stack has the stack page, Exec/Load the rest), with
--   Exec/Laws and Exec/Strings, and kernel/elf.c (Exec/Entry). Syscall: kernel/syscall.c
--   (Syscall/Args fetches the arguments, Syscall/Files has the calls on files, Syscall/Table the
--   others and the switch), with Syscall/Printed about `write` to the console.
-- - Trap: kernel/trap.c and timer.c over the registers that they use, with Trap/Laws, Trap/Calls
--   and Trap/Forkret.
-- - Spinlock: kernel/spinlock.c on several CPUs, as steps in any order, with Spinlock/Exclusion.
-- - Devices: the set-up of the interrupt controller (Devices/Gic, kernel/gicv2.c) and of the UARTs
--   (Devices/Uart, kernel/pl011_uart.c and mini_uart.c) as reads and writes of registers, which are
--   a parameter; Devices/Layout has the structures of include/gicv2.h and uart.h, and
--   Devices/Routing is about `gic_init`. Boot: kernel/main.c, which calls the set-up of all the
--   parts.
-- - Sd: kernel/sdhci.c and include/sdhci.h, the SD card's driver: Sd/Command has `sd_cmd`, Sd/Block
--   the transfers, Sd/Clock and Sd/Init the set-up. Sd/Returns, Sd/Transfers and Sd/Laws are about
--   them. The controller with its card is a parameter.
-- - Mkfs: mkfs/mkfs.c, with `main` in Mkfs/Make. Mkfs/Bitmap, Mkfs/Inode and Mkfs/Append relate
--   what it writes to what Fs reads.
-- - User: the programs over the system calls, which are a parameter: user/ulib.c (User/Ulib),
--   printf.c (User/Print), cat.c, echo.c, init.c, sh.c, user1.c and user2.c (User/Programs).
--   User/Puts is about `puts`.
-- - Samples has a small kernel, on which the Tests modules run and apply the theorems.
--
-- Calls go as in the code: Trap over Syscall; Syscall over Exec, Process, Fd and Fs; Fd over Pipe
-- and Fs; Fs over the buffers, the sleeping and waking of Sched, and Console as its device; all
-- over Kmem.
--
-- Integers are natural numbers with the wrap-around of their C type written out, where it can be
-- reached; a C int that can be negative is kept modulo 2^32. Pointers into a table are indices.
-- Loops with a bound are structural; the others take fuel: `freerange` a round for each page below
-- its end, a pass of `scheduler` one switch for each entry of the table and one more, `readi` and
-- `writei` a round for each byte, `namei` one for each character of the path, `printint` 64 rounds
-- for 64 bits, the loop of `puts` a bound that its theorem asks to be above the length of the
-- text, and the loops of the programs over the bytes they read a bound too. `countkmem` is given a
-- bound of the list's length. The loop of `sd_init` that has no bound in the source takes fuel, and
-- `spinning` is its end without it.
--
-- Not modelled: more than one CPU, except in Spinlock and Boot, and the locks in the other parts
-- but for `inode_table_lock`, which is held across `sleep`; the start and the vectors in assembly,
-- with the register values of include/sysregs.h that only they use; the prototypes and inline
-- assembly of include/defs.h and arm.h; what the kernel prints with `printf` for its own trace (so
-- show_invalid_entry_message of kernel/trap.c, which only prints), but for the lines about the
-- console's lock in `console_write`; the registers of the MMU; the room behind `ustack`, where `kexec`
-- writes one word too many; the memory that a system call shares with the program in User. The buffers of kernel/bio.c are read
-- from an array of sectors that always answers, and not through Sd, whose card may fail. Trapframes
-- and pipes live in pages of `kalloc`, and are kept by the page's address beside memory's words.
pub mod Base
pub mod Kmem
pub mod Spinlock
pub mod Devices
pub mod Boot
pub mod Trap
pub mod User
pub mod Vm
pub mod Kernel
pub mod Samples
pub mod Sched
pub mod Console
pub mod Fs
pub mod Pipe
pub mod Fd
pub mod Process
pub mod Printf
pub mod Exec
pub mod Syscall
pub mod Mkfs
pub mod Sd
