-- ===== src/Syscall/Printed.antt =====
-- `write` to the console, from the program's memory to the UART (kernel/syscall.c, fd.c, fs.c, console.c).
use gcgos.Base.{
  ℕ, zero, suc, ◌+◌, ◌-◌, ◌%◌, ◌^◌, ◌≤◌, ◌<◌, ◌≡◌, ◌⊎◌, inl, ◌∙◌, ap, refl, true, some, List,
  length, ◌∷◌, ◌++◌, arith, ok, get_elem?, get_elem?-set_self, lt_of_get_elem?, load8, store8,
  load8-store8, load8-mod,
}
use gcgos.Kmem.{pg_round_down}
use gcgos.Vm.{walkaddr}
use gcgos.Kernel.{Proc, File, file_fd, Inode, Kernel, myproc, put_file}
use gcgos.Console.{rounds, acquire_line, release_line}
use gcgos.Console.Write.{bytes_from, console_write_lem}
use gcgos.Fs.Layout.{t_dev}
use gcgos.Fs.Rw.{writei, device}
use gcgos.Fd.Io.{fd_write}
use gcgos.Syscall.Args.{argraw, sign_extend, user_address, argaddr, copy_bytes}
use gcgos.Syscall.Files.{descriptor, sys_write}

copy_bytes_outside :
    (n src dst : ℕ) (w : ℕ → ℕ) (x : ℕ)
    → (x < dst) ⊎ (dst + n ≤ x)
    → load8 (copy_bytes n src dst w) x ≡ load8 w x
unfolding copy_bytes
copy_bytes_outside zero src dst w x out = refl
copy_bytes_outside (suc n) src dst w x out =
    copy_bytes_outside n (src + 1) (dst + 1) (store8 w dst (load8 w src)) x (ground (arith, out))
    ∙ load8-store8 w dst x (load8 w src)
    ∙ ground (arith, out)

bytes_from_same :
    (n b : ℕ) (w w' : ℕ → ℕ)
    → ((x : ℕ) → b ≤ x → x < b + n → load8 w' x ≡ load8 w x)
    → bytes_from n b w' ≡ bytes_from n b w
unfolding bytes_from
bytes_from_same zero b w w' same = refl
bytes_from_same (suc n) b w w' same = rw (same b (omega arith) (omega arith)) (
    ap (λ l. load8 w b ∷ l)
      (bytes_from_same n (b + 1) w w' (λ x le lt. same x (omega arith) (omega arith))))

length-bytes_from : (n b : ℕ) (w : ℕ → ℕ) → length (bytes_from n b w) ≡ n
unfolding bytes_from
length-bytes_from zero b w = refl
length-bytes_from (suc n) b w = omega (arith, length-bytes_from n (b + 1) w)

get_elem?-bytes_from :
    (n b x : ℕ) (w : ℕ → ℕ) → x < n → get_elem? (bytes_from n b w) x ≡ some (load8 w (b + x))
unfolding bytes_from
get_elem?-bytes_from zero b x w lt = absurd (omega arith)
get_elem?-bytes_from (suc n) b zero w lt = ap (λ a. some (load8 w a)) (omega arith)
get_elem?-bytes_from (suc n) b (suc x) w lt =
    get_elem?-bytes_from n (b + 1) x w (omega arith) ∙ ap (λ a. some (load8 w a)) (omega arith)

-- A copy to a place apart holds the bytes copied.
bytes_from-copy_bytes :
    (n src dst : ℕ) (w : ℕ → ℕ)
    → (src + n ≤ dst) ⊎ (dst + n ≤ src)
    → bytes_from n dst (copy_bytes n src dst w) ≡ bytes_from n src w
unfolding copy_bytes bytes_from
bytes_from-copy_bytes zero src dst w apart = refl
bytes_from-copy_bytes (suc n) src dst w apart =
    let w' = store8 w dst (load8 w src) in
    let first : load8 (copy_bytes n (src + 1) (dst + 1) w') dst ≡ load8 w src =
      copy_bytes_outside n (src + 1) (dst + 1) w' dst (inl (omega arith))
      ∙ load8-store8 w dst dst (load8 w src)
      ∙ ground (arith, load8-mod w src) in
    rw first (
      ap (λ l. load8 w src ∷ l)
        (bytes_from-copy_bytes n (src + 1) (dst + 1) w' (ground (arith, apart))
          ∙ bytes_from_same n (src + 1) w w'
              (λ x le lt. load8-store8 w dst x (load8 w src) ∙ ground (arith, apart))))

-- The running process `p` asks to write `n` bytes from its address `va` to descriptor `fd`.
pub record IsWrite (i : ℕ) (p : Proc) (fd va n : ℕ) (k : Kernel) : Type 0 where
  pub on_cpu : k.current ≡ some i
  pub found : get_elem? k.procs i ≡ some p
  pub asked : (k.frames p.tf).x 0 % 2 ^ 32 ≡ fd
  pub address : sign_extend ((k.frames p.tf).x 1 % 2 ^ 32) ≡ va
  pub size : (k.frames p.tf).x 2 % 2 ^ 32 ≡ n

-- The descriptor is entry `f` of the file table, which writes to the console by way of inode `ip`.
pub record IsConsole (fd f : ℕ) (p : Proc) (file : File) (ip : Inode) (k : Kernel) : Type 0 where
  pub is_open : get_elem? p.fds fd ≡ some (some f)
  pub file_at : get_elem? k.files f ≡ some file
  pub writes : file.writeable ≡ true
  pub kind : file.kind ≡ file_fd
  pub inode_at : get_elem? k.inodes file.ip ≡ some ip
  pub special : ip.kind ≡ t_dev
  pub is_console : device k ip.major ≡ true

module _ (i f fd va n buf pa : ℕ) (p : Proc) (file : File) (ip : Inode) (k : Kernel)
    (w : IsWrite i p fd va n k) (short : n ≤ 512)
    (mapped : walkaddr p.pagetable (pg_round_down va) k.kmem ≡ ok pa k.kmem) where
  -- The kernel with the bytes in the local array.
  copied : Kernel
  copied = record k {
    kmem = record k.kmem { word = copy_bytes n (pa + va - pg_round_down va) buf k.kmem.word };
  }

  address_lem : user_address va k ≡ ok (pa + va - pg_round_down va) k
  unfolding user_address myproc
  address_lem = ground (arith, w.on_cpu, w.found, mapped)

  argraw_lem : (m v : ℕ) → m ≤ 7 → (k.frames p.tf).x m % 2 ^ 32 ≡ v → argraw m k ≡ ok v k
  unfolding argraw myproc
  argraw_lem m v le e = ground (arith, w.on_cpu, w.found)

  argaddr-copied : argaddr 1 buf 512 n k ≡ ok tt copied
  unfolding argaddr copied
  argaddr-copied =
      let at = ap (λ v. user_address v k) w.address ∙ address_lem in
      ground (arith, argraw_lem 1 _ (omega arith) refl, at, short)

  descriptor_lem : (c : IsConsole fd f p file ip k) → descriptor 0 copied ≡ ok f copied
  unfolding descriptor argraw myproc copied
  descriptor_lem c = ground (arith, w.on_cpu, w.found, w.asked, c.is_open)

  -- The kernel with the characters sent.
  sent : Kernel
  sent = record copied {
    uart = k.uart ++ (acquire_line ++ (bytes_from n buf copied.kmem.word ++ release_line));
  }

  writei_lem :
      (c : IsConsole fd f p file ip k) (off : ℕ) → writei file.ip buf off n copied ≡ ok n sent
  unfolding writei copied sent
  writei_lem c off =
      let out = console_write_lem ip.minor buf n copied (omega (arith, short)) in
      ground (arith, c.inode_at, c.special, c.is_console, out)

  abbrev advanced : Kernel
  advanced = put_file f (record file { off = (file.off + n) % 2 ^ 32 }) sent

  fd_write_lem : (c : IsConsole fd f p file ip k) → 0 < n → fd_write f buf n copied ≡ ok n advanced
  unfolding fd_write copied sent
  fd_write_lem c some_bytes =
      ground (arith, c.file_at, c.writes, c.kind, writei_lem c file.off, short, some_bytes)

  sys_write_lem : (c : IsConsole fd f p file ip k) → 0 < n → sys_write buf k ≡ ok n advanced
  unfolding sys_write
  sys_write_lem c some_bytes =
      let all : rounds n ≡ n = ground (arith, short) in
      let into : argaddr 1 buf 512 (rounds n) k ≡ ok tt copied =
        ap (λ r. argaddr 1 buf 512 r k) all ∙ argaddr-copied in
      ground (
        arith,
        argraw_lem 2 n (omega arith) w.size,
        into,
        descriptor_lem c,
        fd_write_lem c some_bytes,
      )

  -- With the bytes in one page, each address of the program translates to the place of its byte.
  user_address_at :
      (x : ℕ)
      → x < n
      → va % 4096 + n ≤ 4096
      → user_address (va + x) k ≡ ok (pa + va - pg_round_down va + x) k
  unfolding user_address myproc
  user_address_at x lt one_page =
      let page : pg_round_down (va + x) ≡ pg_round_down va = omega arith in
      let at : walkaddr p.pagetable (pg_round_down (va + x)) k.kmem ≡ ok pa k.kmem =
        rw page mapped in
      let place : pa + (va + x) - pg_round_down (va + x) ≡ pa + va - pg_round_down va + x =
        omega arith in
      ground (arith, w.on_cpu, w.found, at, place)

  -- `write` of at least one and at most 512 bytes, which lie in one page that is mapped, to a descriptor
  -- that the process has open on the console, when the kernel's array at `buf` lies apart from the
  -- bytes: it returns the number of bytes. What the UART has sent, behind what was sent before, is the
  -- line that `acquire` prints on CPU 0, then a text, then the line that `release` prints; the text has `n`
  -- characters, and each is the byte at the program's address for it, as the page table translates it.
  -- The file's offset has moved on by `n`.
  pub sys_write-bytes_from :
      IsConsole fd f p file ip k
      → 0 < n
      → va % 4096 + n ≤ 4096
      → (pa + va - pg_round_down va + n ≤ buf) ⊎ (buf + n ≤ pa + va - pg_round_down va)
      → (k' : Kernel) × (text : List ℕ) × (sys_write buf k ≡ ok n k')
        × (k'.uart ≡ k.uart ++ (acquire_line ++ (text ++ release_line)))
        × (length text ≡ n)
        × ((x : ℕ)
            → x < n
            → (a : ℕ) × (user_address (va + x) k ≡ ok a k)
              × (get_elem? text x ≡ some (load8 k.kmem.word a)))
        × (get_elem? k'.files f ≡ some (record file { off = (file.off + n) % 2 ^ 32 }))
  unfolding sent copied
  sys_write-bytes_from c some_bytes one_page apart = (
    advanced,
    bytes_from n (pa + va - pg_round_down va) k.kmem.word,
    sys_write_lem c some_bytes,
    ap (λ l. k.uart ++ (acquire_line ++ (l ++ release_line)))
        (bytes_from-copy_bytes n (pa + va - pg_round_down va) buf k.kmem.word apart),
    length-bytes_from n (pa + va - pg_round_down va) k.kmem.word,
    λ x lt. (
      pa + va - pg_round_down va + x,
      user_address_at x lt one_page,
      get_elem?-bytes_from n (pa + va - pg_round_down va) x k.kmem.word lt,
    ),
    get_elem?-set_self k.files f _ (lt_of_get_elem? k.files f c.file_at),
  )
