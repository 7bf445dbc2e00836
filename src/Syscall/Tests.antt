-- ===== src/Syscall/Tests.antt =====
-- The theorems about kernel/syscall.c on the small kernel.
use gcgos.Base.{
  ℕ, List, length, load8, ◌+◌, ◌<◌, some, [], ◌∷◌, ◌++◌, ◌≡◌, arith, ok, inl, write, get_elem?,
  refl,
}
use gcgos.Kernel.{Proc, Inode, no_device, console_device, Kernel}
use gcgos.Vm.{walkaddr}
use gcgos.Console.{acquire_line, release_line}
use gcgos.Syscall.Args.{user_address}
use gcgos.Process.Tests.{forking}
use gcgos.Samples.{sample, sample_frame, sample_inode, shared_file, zeros, first_process}
use gcgos.Syscall.Files.{sys_write}
use gcgos.Syscall.Printed.{IsWrite, IsConsole, sys_write-bytes_from}

-- Three bytes of the page at 0, to a file of the console.
abbrev terminal : Inode
terminal = record sample_inode { kind = 3; major = 1 }

abbrev writer : Proc
writer = record first_process { pagetable = 4096 }

abbrev printing : Kernel
printing = record sample {
  kmem = forking;
  procs = writer ∷ [];
  frames = λ _. record sample_frame { x = write (write zeros 1 5) 2 3 };
  inodes = terminal ∷ [];
  devsw = no_device ∷ console_device ∷ [];
}

page_mapped : walkaddr 4096 0 forking ≡ ok 16384 forking
unfolding walkaddr
page_mapped = refl

printing-IsWrite : IsWrite 0 writer 0 5 3 printing
printing-IsWrite = record { on_cpu = refl; found = refl; asked = refl; address = refl; size = refl }

printing-IsConsole : IsConsole 0 0 writer shared_file terminal printing
printing-IsConsole = record {
  is_open = refl;
  file_at = refl;
  writes = refl;
  kind = refl;
  inode_at = refl;
  special = refl;
  is_console = refl;
}

sys_write-bytes_from_example :
    (k' : Kernel) × (text : List ℕ) × (sys_write 30000 printing ≡ ok 3 k')
    × (k'.uart ≡ printing.uart ++ (acquire_line ++ (text ++ release_line)))
    × (length text ≡ 3)
    × ((x : ℕ)
        → x < 3
        → (a : ℕ) × (user_address (5 + x) printing ≡ ok a printing)
          × (get_elem? text x ≡ some (load8 forking.word a)))
    × (get_elem? k'.files 0 ≡ some (record shared_file { off = 3 }))
sys_write-bytes_from_example =
    sys_write-bytes_from 0 0 0 5 3 30000 16384 writer shared_file terminal printing printing-IsWrite
      (omega arith) page_mapped printing-IsConsole (omega arith) (omega arith) (inl (omega arith))
