-- ===== src/Fs/Dirs/Entry.antt =====
-- The bytes of the entry that `mknod` makes in a block of a directory (kernel/fs.c).
use gcgos.Base.{
  ℕ, zero, suc, ◌+◌, ◌^◌, ◌≤◌, ◌<◌, ◌≡◌, ◌≢◌, ◌∙◌, ap, refl, false, List, [], ◌∷◌, arith, length,
  ◌==◌, write, Bytes, get16, put16, All,
}
use gcgos.Fs.Layout.{dirsiz, de_inum}
use gcgos.Fs.Dirs.{put_name}
use gcgos.Fs.Dirs.Match.{component, behind, name_at, NoNul}

-- A name within a path: no character is a slash.
abbrev pub NoSlash : List ℕ → Type 0
NoSlash cp = All (λ c. c ≢ b'/') cp

pub component_name : (path : List ℕ) → NoSlash path → (component path ≡ path) × (behind path ≡ [])
unfolding component behind
component_name [] n = (refl, refl)
component_name (c ∷ path) n =
    let (e, f) = component_name path n.1 in
    let other : (c == b'/') ≡ false = ground (arith, n.0) in
    (rw other (ap (λ l. c ∷ l) e), rw other f)

-- `put_name` writes only behind `o`.
put_name_before :
    (left o : ℕ) (path : List ℕ) (m : Bytes) (a : ℕ) → a < o → put_name left o path m a ≡ m a
unfolding put_name
put_name_before zero o path m a lt = refl
put_name_before (suc left) o [] m a lt = refl
put_name_before (suc left) o (c ∷ path) m a lt =
    put_name_before left (o + 1) path (write m o c) a (omega arith) ∙ ground arith

-- And within `left` bytes.
put_name_behind :
    (left o : ℕ) (path : List ℕ) (m : Bytes) (a : ℕ) → o + left ≤ a → put_name left o path m a ≡ m a
unfolding put_name
put_name_behind zero o path m a le = refl
put_name_behind (suc left) o [] m a le = refl
put_name_behind (suc left) o (c ∷ path) m a le =
    put_name_behind left (o + 1) path (write m o c) a (omega arith) ∙ ground arith

name_at_blank :
    (left o : ℕ) (m : Bytes) → ((j : ℕ) → j < left → m (o + j) ≡ 0) → name_at left o m ≡ []
unfolding name_at
name_at_blank zero o m blank = refl
name_at_blank (suc left) o m blank =
    let e : m o ≡ 0 = ap m (omega arith) ∙ blank 0 (omega arith) in rw e refl

-- The name that is put into blank bytes is the name of the entry.
name_at-put_name :
    (left o : ℕ) (path : List ℕ) (m : Bytes)
    → NoNul path
    → length path ≤ left
    → ((j : ℕ) → j < left → m (o + j) ≡ 0)
    → name_at left o (put_name left o path m) ≡ path
unfolding name_at put_name
name_at-put_name zero o [] m n le blank = refl
name_at-put_name zero o (c ∷ path) m n le blank = absurd (omega arith)
name_at-put_name (suc left) o [] m n le blank = name_at_blank (suc left) o m blank
name_at-put_name (suc left) o (c ∷ path) m n le blank =
    let first : put_name left (o + 1) path (write m o c) o ≡ c =
      put_name_before left (o + 1) path (write m o c) o (omega arith) ∙ ground arith in
    let next : (j : ℕ) → j < left → write m o c (o + 1 + j) ≡ 0 =
      λ j lt. ground arith ∙ blank (suc j) (omega arith) in
    let other : (c == 0) ≡ false = ground (arith, n.0) in
    rw (first, other)
      (ap (λ l. c ∷ l) (name_at-put_name left (o + 1) path (write m o c) n.1 (omega arith) next))

-- The block with the entry for `path` at offset `o`.
abbrev pub with_entry : (o inum : ℕ) → List ℕ → Bytes → Bytes
with_entry o inum path m = put_name dirsiz (o + 2) path (put16 m o inum)

-- The bytes of the name at offset `o` are 0.
abbrev pub IsBlank : Bytes → ℕ → Type 0
IsBlank m o = (j : ℕ) → j < dirsiz → m (o + 2 + j) ≡ 0

pub with_entry_before :
    (o inum : ℕ) (path : List ℕ) (m : Bytes) (a : ℕ) → a < o → with_entry o inum path m a ≡ m a
unfolding put16
with_entry_before o inum path m a lt =
    put_name_before dirsiz (o + 2) path (put16 m o inum) a (omega arith) ∙ ground arith

pub with_entry_behind :
    (o inum : ℕ) (path : List ℕ) (m : Bytes) (a : ℕ) → o + 16 ≤ a → with_entry o inum path m a ≡ m a
unfolding put16
with_entry_behind o inum path m a le =
    put_name_behind dirsiz (o + 2) path (put16 m o inum) a (omega arith) ∙ ground arith

pub de_inum-with_entry :
    (o inum : ℕ) (path : List ℕ) (m : Bytes)
    → inum < 2 ^ 16
    → de_inum (with_entry o inum path m) o ≡ inum
unfolding get16 put16
de_inum-with_entry o inum path m fits = ground (
  arith,
  put_name_before dirsiz (o + 2) path (put16 m o inum) o,
  put_name_before dirsiz (o + 2) path (put16 m o inum) (o + 1),
)

pub name_at-with_entry :
    (o inum : ℕ) (path : List ℕ) (m : Bytes)
    → NoNul path
    → length path ≤ dirsiz
    → IsBlank m o
    → name_at dirsiz (o + 2) (with_entry o inum path m) ≡ path
unfolding put16
name_at-with_entry o inum path m n le blank =
    name_at-put_name dirsiz (o + 2) path (put16 m o inum) n le (λ j lt. ground arith ∙ blank j lt)
