-- ===== src/Fs/Dirs/Match.antt =====
-- The comparison of `namei` (kernel/fs.c) against the names as texts.
use gcgos.Base.{
  ℕ, zero, suc, ◌+◌, ◌≡◌, ◌≢◌, refl, some, List, [], ◌∷◌, arith, ◌==◌, if◌then◌else◌, Bytes, All,
}
use gcgos.Fs.Layout.{dirsiz}
use gcgos.Fs.Dirs.{match_name}

-- The first component of a path, and the path behind it.
unfoldable pub component : List ℕ → List ℕ
component [] = []
component (c ∷ cp) = let rest = component cp in if c == b'/' then [] else c ∷ rest

unfoldable pub behind : List ℕ → List ℕ
behind [] = []
behind (c ∷ cp) = let rest = behind cp in if c == b'/' then c ∷ cp else rest

-- The name of an entry: its bytes up to a NUL, or all of them.
unfoldable pub name_at : (left o : ℕ) → Bytes → List ℕ
name_at zero o m = []
name_at (suc left) o m = let rest = name_at left (o + 1) m in if m o == 0 then [] else m o ∷ rest

-- A path holds no NUL.
abbrev pub NoNul : List ℕ → Type 0
NoNul cp = All (λ c. c ≢ 0) cp

match_name_sound :
    (left o : ℕ) (m : Bytes) (cp rest : List ℕ)
    → NoNul cp
    → match_name left o m cp ≡ some rest
    → (component cp ≡ name_at left o m) × (rest ≡ behind cp)
unfolding match_name component behind name_at
match_name_sound zero o m [] rest n h = ground arith
match_name_sound zero o m (c ∷ cp) rest n h = ground arith
match_name_sound (suc left) o m [] rest n h = ground arith
match_name_sound (suc left) o m (c ∷ cp) rest n h =
    ground (arith, match_name_sound left (o + 1) m cp rest n.1)

match_name_complete :
    (left o : ℕ) (m : Bytes) (cp : List ℕ)
    → NoNul cp
    → component cp ≡ name_at left o m
    → match_name left o m cp ≡ some (behind cp)
unfolding match_name component behind name_at
match_name_complete zero o m [] n h = refl
match_name_complete zero o m (c ∷ cp) n h = ground arith
match_name_complete (suc left) o m [] n h = ground arith
match_name_complete (suc left) o m (c ∷ cp) n h =
    ground (arith, match_name_complete left (o + 1) m cp n.1)

-- For a path without NULs, the comparison succeeds exactly when the path's first component is the
-- entry's name, whose bytes end at a NUL or after all fourteen; then the search goes on behind the
-- component.
pub match_name_iff :
    (o : ℕ) (m : Bytes) (cp : List ℕ)
    → NoNul cp
    → ((rest : List ℕ)
        → match_name dirsiz o m cp ≡ some rest
        → (component cp ≡ name_at dirsiz o m) × (rest ≡ behind cp))
      × (component cp ≡ name_at dirsiz o m → match_name dirsiz o m cp ≡ some (behind cp))
match_name_iff o m cp n =
    (λ rest h. match_name_sound dirsiz o m cp rest n h, λ h. match_name_complete dirsiz o m cp n h)
