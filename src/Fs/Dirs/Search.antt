-- ===== src/Fs/Dirs/Search.antt =====
-- The loop of `namei` over a block with the entry that `mknod` has made (kernel/fs.c).
use gcgos.Base.{
  ℕ, zero, suc, ◌+◌, ◌^◌, ◌≤◌, ◌<◌, ◌≡◌, ◌≢◌, ◌⊎◌, inl, inr, ◌∙◌, sym, ap, refl, Option, none, some,
  List, [], ◌∷◌, arith, length, ◌==◌, if◌then◌else◌, Bytes, get16, Bool-cases, Option-cases,
}
use gcgos.Fs.Layout.{dirsiz, dirent_size, de_inum}
use gcgos.Fs.Dirs.{match_name, find_in_block, free_entry}
use gcgos.Fs.Dirs.Match.{component, NoNul, match_name_iff}
use gcgos.Fs.Dirs.Entry.{
  NoSlash, IsBlank, component_name, with_entry, with_entry_before, with_entry_behind,
  de_inum-with_entry, name_at-with_entry,
}

-- What `match_name` sees of a block.
match_name_same :
    (left o : ℕ) (m m' : Bytes) (cp : List ℕ)
    → ((a : ℕ) → o ≤ a → a < o + left → m' a ≡ m a)
    → match_name left o m' cp ≡ match_name left o m cp
unfolding match_name
match_name_same zero o m m' [] same = refl
match_name_same zero o m m' (c ∷ cp) same = refl
match_name_same (suc left) o m m' [] same = rw (same o (omega arith) (omega arith)) refl
match_name_same (suc left) o m m' (c ∷ cp) same =
    let e = same o (omega arith) (omega arith) in
    let rest =
      match_name_same left (o + 1) m m' cp (λ a le lt. same a (omega arith) (omega arith)) in
    rw (e, rest) refl

-- What the loop over the entries of a block does with an entry, by its number and the comparison.
entry_with : (inum : ℕ) → Option (List ℕ) → Option (ℕ × List ℕ) → Option (ℕ × List ℕ)
entry_with inum matched rest =
    if inum == 0 then rest else elim matched [ none ↦ rest | some cp' ↦ some (inum, cp') ]

abbrev entry_at : (p : ℕ) → Bytes → List ℕ → Option (ℕ × List ℕ) → Option (ℕ × List ℕ)
entry_at p m cp = entry_with (de_inum m p) (match_name dirsiz (p + 2) m cp)

find_in_block-suc :
    (left p : ℕ) (m : Bytes) (cp : List ℕ)
    → find_in_block (suc left) p m cp ≡ entry_at p m cp (find_in_block left (p + dirent_size) m cp)
unfolding find_in_block entry_with
find_in_block-suc left p m cp = refl

de_inum_same :
    (p : ℕ) (m m' : Bytes) → m' p ≡ m p → m' (p + 1) ≡ m (p + 1) → de_inum m' p ≡ de_inum m p
unfolding get16
de_inum_same p m m' e f = omega (arith, e, f)

entry_at_same :
    (p : ℕ) (m m' : Bytes) (cp : List ℕ) (rest : Option (ℕ × List ℕ))
    → ((a : ℕ) → p ≤ a → a < p + dirent_size → m' a ≡ m a)
    → entry_at p m' cp rest ≡ entry_at p m cp rest
entry_at_same p m m' cp rest same =
    ap (λ n. entry_with n (match_name dirsiz (p + 2) m' cp) rest)
      (de_inum_same p m m' (same p (omega arith) (omega arith))
        (same (p + 1) (omega arith) (omega arith)))
    ∙ ap (λ e. entry_with (de_inum m p) e rest)
        (match_name_same dirsiz (p + 2) m m' cp (λ a le lt. same a (omega arith) (omega arith)))

entry_at-none :
    (p : ℕ) (m : Bytes) (cp : List ℕ) (rest rest' : Option (ℕ × List ℕ))
    → entry_at p m cp rest ≡ none
    → (rest ≡ none) × (entry_at p m cp rest' ≡ rest')
unfolding entry_with
entry_at-none p m cp rest rest' h = ground arith

free_entry_le : (left p o : ℕ) (m : Bytes) → free_entry left p m ≡ some o → p ≤ o
unfolding free_entry
free_entry_le zero p o m h = cc
free_entry_le (suc left) p o m h = ground (arith, free_entry_le left (p + dirent_size) o m)

free_entry-suc :
    (left p o : ℕ) (m : Bytes)
    → free_entry (suc left) p m ≡ some o
    → ((de_inum m p ≡ 0) × (o ≡ p))
      ⊎ ((de_inum m p ≢ 0) × (free_entry left (p + dirent_size) m ≡ some o))
unfolding free_entry
free_entry-suc left p o m h = elim (Bool-cases (de_inum m p == 0)) [
  | inl e ↦ inl (ground arith, ground arith)
  | inr e ↦ inr (λ z. absurd (ground arith), ground arith)
]

-- The entry for a name at the first free offset.
pub record IsNew (o inum : ℕ) (path : List ℕ) (m : Bytes) : Type 0 where
  pub fits : inum < 2 ^ 16
  pub used : inum ≢ 0
  pub no_nul : NoNul path
  pub no_slash : NoSlash path
  pub short : length path ≤ dirsiz
  pub blank : IsBlank m o

entry_at-with_entry :
    (o inum : ℕ) (path : List ℕ) (m : Bytes) (rest : Option (ℕ × List ℕ))
    → IsNew o inum path m
    → entry_at o (with_entry o inum path m) path rest ≡ some (inum, [])
unfolding entry_with
entry_at-with_entry o inum path m rest n =
    let (all, nothing_behind) = component_name path n.no_slash in
    let named = name_at-with_entry o inum path m n.no_nul n.short n.blank in
    let hit =
      (match_name_iff (o + 2) (with_entry o inum path m) path n.no_nul).1 (all ∙ sym named) in
    ground (arith, de_inum-with_entry o inum path m n.fits, hit, nothing_behind, n.used)

pub find_in_block-with_entry :
    (left p o inum : ℕ) (path : List ℕ) (m : Bytes)
    → IsNew o inum path m
    → free_entry left p m ≡ some o
    → find_in_block left p m path ≡ none
    → find_in_block left p (with_entry o inum path m) path ≡ some (inum, [])
unfolding free_entry
find_in_block-with_entry zero p o inum path m n f h = cc
find_in_block-with_entry (suc left) p o inum path m n f h =
    let m' = with_entry o inum path m in
    let rest = find_in_block left (p + dirent_size) m path in
    let rest' = find_in_block left (p + dirent_size) m' path in
    find_in_block-suc left p m' path ∙ elim (free_entry-suc left p o m f) [
      | inl (e, at) ↦
          ap (λ x. entry_at x m' path rest') (sym at) ∙ entry_at-with_entry o inum path m rest' n
      | inr (e, f') ↦
          let le = free_entry_le left (p + dirent_size) o m f' in
          let (no_rest, skip) =
            entry_at-none p m path rest rest' (sym (find_in_block-suc left p m path) ∙ h) in
          entry_at_same p m m' path rest'
            (λ a ge lt. with_entry_before o inum path m a (omega (arith, le)))
          ∙ skip
          ∙ find_in_block-with_entry left (p + dirent_size) o inum path m n f' no_rest
    ]

find_in_block_same :
    (left p : ℕ) (m m' : Bytes) (cp : List ℕ)
    → ((a : ℕ) → p ≤ a → m' a ≡ m a)
    → find_in_block left p m' cp ≡ find_in_block left p m cp
unfolding find_in_block
find_in_block_same zero p m m' cp same = refl
find_in_block_same (suc left) p m m' cp same =
    find_in_block-suc left p m' cp
    ∙ entry_at_same p m m' cp _ (λ a le lt. same a le)
    ∙ ap (entry_at p m cp)
        (find_in_block_same left (p + dirent_size) m m' cp (λ a le. same a (omega arith)))
    ∙ sym (find_in_block-suc left p m cp)

-- Another name does not meet the new entry.
entry_at-other :
    (o inum : ℕ) (path cp : List ℕ) (m : Bytes) (rest : Option (ℕ × List ℕ))
    → IsNew o inum path m
    → NoNul cp
    → component cp ≢ path
    → entry_at o (with_entry o inum path m) cp rest ≡ rest
unfolding entry_with
entry_at-other o inum path cp m rest n no_nul ne =
    let m' = with_entry o inum path m in
    let named = name_at-with_entry o inum path m n.no_nul n.short n.blank in
    elim (Option-cases (match_name dirsiz (o + 2) m' cp)) [
      | inl e ↦ ground arith
      | inr (cp', e) ↦ absurd (ne (((match_name_iff (o + 2) m' cp no_nul).0 cp' e).0 ∙ named))
    ]

pub find_in_block-other :
    (left p o inum : ℕ) (path cp : List ℕ) (m : Bytes)
    → IsNew o inum path m
    → NoNul cp
    → component cp ≢ path
    → free_entry left p m ≡ some o
    → find_in_block left p (with_entry o inum path m) cp ≡ find_in_block left p m cp
unfolding free_entry entry_with
find_in_block-other zero p o inum path cp m n no_nul ne f = cc
find_in_block-other (suc left) p o inum path cp m n no_nul ne f =
    let m' = with_entry o inum path m in
    let rest = find_in_block left (p + dirent_size) m cp in
    let rest' = find_in_block left (p + dirent_size) m' cp in
    find_in_block-suc left p m' cp
    ∙ elim (free_entry-suc left p o m f) [
      | inl (e, at) ↦
          ap (λ x. entry_at x m' cp rest') (sym at)
          ∙ entry_at-other o inum path cp m rest' n no_nul ne
          ∙ find_in_block_same left (p + dirent_size) m m' cp
              (λ a ge. with_entry_behind o inum path m a (omega (arith, at)))
          ∙ sym (ground (arith, e))
      | inr (e, f') ↦
          let le = free_entry_le left (p + dirent_size) o m f' in
          entry_at_same p m m' cp rest'
            (λ a ge lt. with_entry_before o inum path m a (omega (arith, le)))
          ∙ ap (entry_at p m cp)
              (find_in_block-other left (p + dirent_size) o inum path cp m n no_nul ne f')
    ]
    ∙ sym (find_in_block-suc left p m cp)
