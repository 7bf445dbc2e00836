-- ===== src/Fs/Layout.antt =====
-- include/fs.h: where the parts of the file system lie, and the fields of its structures.
use gcgos.Base.{ℕ, ◌^◌, ltb, if◌then◌else◌, ◌+◌, ◌*◌, ◌/◌, ◌%◌, get16, get32, put16, Bytes}

abbrev pub bsize : ℕ
bsize = 512

abbrev pub ndirect : ℕ
ndirect = 31

abbrev pub nindirect : ℕ
nindirect = 128

abbrev pub dirsiz : ℕ
dirsiz = 14

abbrev pub t_dir : ℕ
t_dir = 1

abbrev pub t_file : ℕ
t_file = 2

abbrev pub t_dev : ℕ
t_dev = 3

-- `sizeof(struct dinode)` is 140, so IPB is 3.
abbrev pub dinode_size : ℕ
dinode_size = 140

abbrev pub ipb : ℕ
ipb = 3

-- IBLOCK
abbrev pub iblock : ℕ → ℕ
iblock inum = inum / ipb + 2

-- BPB, a sector's bits, and BBLOCK
abbrev pub bpb : ℕ
bpb = 4096

abbrev pub bblock : ℕ → ℕ → ℕ
bblock b ninodes = b / bpb + ninodes / ipb + 3

-- `struct supperblock`, in sector 1. The loop of `balloc` takes the size as an int, so that a negative
-- one is as good as 0; `ninodes`, also an int there, is taken to be below 2^31.
abbrev pub sb_size : Bytes → ℕ
sb_size m = if ltb (get32 m 0) (2 ^ 31) then get32 m 0 else 0

abbrev pub sb_ninodes : Bytes → ℕ
sb_ninodes m = get32 m 8

-- The offset of inode `inum` in its sector, and of the fields of `struct dinode`.
abbrev pub dinode_at : ℕ → ℕ
dinode_at inum = inum % ipb * dinode_size

abbrev pub dip_type : Bytes → ℕ → ℕ
dip_type m o = get16 m o

abbrev pub dip_major : Bytes → ℕ → ℕ
dip_major m o = get16 m (o + 2)

abbrev pub dip_minor : Bytes → ℕ → ℕ
dip_minor m o = get16 m (o + 4)

abbrev pub dip_nlink : Bytes → ℕ → ℕ
dip_nlink m o = get16 m (o + 6)

abbrev pub dip_size : Bytes → ℕ → ℕ
dip_size m o = get32 m (o + 8)

abbrev pub dip_addr : Bytes → ℕ → ℕ → ℕ
dip_addr m o i = get32 m (o + 12 + 4 * i)

abbrev pub put_dip_type : Bytes → ℕ → ℕ → Bytes
put_dip_type m o v = put16 m o v

-- `struct dirent`: 16 bytes, the inode number first
abbrev pub dirent_size : ℕ
dirent_size = 16

abbrev pub de_inum : Bytes → ℕ → ℕ
de_inum m o = get16 m o
