-- ===== src/Fs/Bio/Laws.antt =====
-- The buffers of kernel/bio.c: which one `bread` takes, and what is given back.
use gcgos.Base.{
  ℕ, zero, suc, ◌+◌, ◌<◌, ◌≡◌, ◌⊎◌, inl, inr, refl, true, false, none, some, List, [], ◌∷◌, arith,
  ok, spinning, if◌then◌else◌, get_elem?, set, set-set, get_elem?-set_self, lt_of_get_elem?,
  Bool-cases, Option-cases, ap, ◌∙◌, ◌>>=◌,
}
use gcgos.Kernel.{Buf, Kernel}
use gcgos.Fs.Bio.{first_free, bread, brelse, put_buf}

-- The buffers that are not busy.
unfoldable pub free_bufs : List Buf → ℕ
free_bufs [] = 0
free_bufs (b ∷ bs) = if b.busy then free_bufs bs else suc (free_bufs bs)

-- Buffer `i` is the first that is free, and holds `b`.
pub record IsFirst (bufs : List Buf) (i : ℕ) (b : Buf) : Type 0 where
  pub first : first_free 0 bufs ≡ some i
  pub found : get_elem? bufs i ≡ some b
  pub idle : b.busy ≡ false

-- `first_free`, when the head of the list has index `n`.
first_free-at :
    (n : ℕ) (bufs : List Buf) (i : ℕ)
    → first_free n bufs ≡ some i
    → (m : ℕ) × (b : Buf) × (i ≡ n + m) × (get_elem? bufs m ≡ some b) × (b.busy ≡ false)
unfolding first_free
first_free-at n [] i h = cc
first_free-at n (b ∷ bs) i h = elim (Bool-cases b.busy) [
  | inl busy ↦
      let (m, c, e, g, f) = first_free-at (n + 1) bs i (ground arith) in
      (suc m, c, omega arith, g, f)
  | inr idle ↦ (0, b, ground arith, refl, idle)
]

first_free-none : (n : ℕ) (bufs : List Buf) → first_free n bufs ≡ none → free_bufs bufs ≡ 0
unfolding first_free free_bufs
first_free-none n [] h = refl
first_free-none n (b ∷ bs) h = ground (arith, first_free-none (n + 1) bs)

first_free-some :
    (n : ℕ) (bufs : List Buf) (i : ℕ) → first_free n bufs ≡ some i → 0 < free_bufs bufs
unfolding first_free free_bufs
first_free-some n [] i h = cc
first_free-some n (b ∷ bs) i h = ground (arith, first_free-some (n + 1) bs i)

-- There is a first free buffer exactly when one is free.
pub IsFirst-cases :
    (bufs : List Buf) → (free_bufs bufs ≡ 0) ⊎ ((i : ℕ) × (b : Buf) × IsFirst bufs i b)
IsFirst-cases bufs = elim (Option-cases (first_free 0 bufs)) [
  | inl e ↦ inl (first_free-none 0 bufs e)
  | inr (i, e) ↦
      let (m, b, at, g, f) = first_free-at 0 bufs i e in
      inr (i, b, record { first = e; found = ap (get_elem? bufs) (omega arith) ∙ g; idle = f })
]

pub free_bufs-set :
    (bufs : List Buf) (i : ℕ) (b c : Buf)
    → get_elem? bufs i ≡ some b
    → b.busy ≡ false
    → c.busy ≡ true
    → free_bufs (set bufs i c) + 1 ≡ free_bufs bufs
unfolding free_bufs
free_bufs-set [] i b c h f t = cc
free_bufs-set (x ∷ bufs) zero b c h f t = ground arith
free_bufs-set (x ∷ bufs) (suc i) b c h f t = ground (arith, free_bufs-set bufs i b c h f t)

module _ (k : Kernel) (sector : ℕ) where
  -- The buffer after `bread`.
  abbrev pub filled : Buf
  filled = record { busy = true; bytes = k.card sector }

  -- With a free buffer, `bread` takes the first one and fills it from the card; nothing else
  -- changes.
  pub bread-IsFirst :
      (i : ℕ) (b : Buf) → IsFirst k.bufs i b → bread sector k ≡ ok i (put_buf i filled k)
  unfolding bread
  bread-IsFirst i b h =
      let again =
        get_elem?-set_self k.bufs i (record b { busy = true }) (lt_of_get_elem? k.bufs i h.found) in
      ground (arith, h.first, h.found, again, set-set k.bufs i (record b { busy = true }) filled)

  -- With no free buffer it spins.
  pub bread-spinning : free_bufs k.bufs ≡ 0 → bread sector k ≡ spinning
  unfolding bread
  bread-spinning h = elim (Option-cases (first_free 0 k.bufs)) [
    | inl e ↦ ground arith
    | inr (i, e) ↦ absurd (omega (arith, first_free-some 0 k.bufs i e))
  ]

-- With a free buffer, `bread` and then `brelse` leave the first free buffer free again with the
-- sector in it, and change nothing else.
brelse-bread :
    (k : Kernel) (sector i : ℕ) (b : Buf)
    → IsFirst k.bufs i b
    → (bread sector >>= brelse) k ≡ ok tt (put_buf i (record b { bytes = k.card sector }) k)
unfolding brelse
brelse-bread k sector i b h =
    let again = get_elem?-set_self k.bufs i (filled k sector) (lt_of_get_elem? k.bufs i h.found) in
    ground (
      arith,
      bread-IsFirst k sector i b h,
      again,
      h.idle,
      set-set k.bufs i (filled k sector) (record b { bytes = k.card sector }),
    )

first_free-set :
    (n m : ℕ) (bufs : List Buf) (c : Buf)
    → first_free n bufs ≡ some (n + m)
    → c.busy ≡ false
    → first_free n (set bufs m c) ≡ some (n + m)
unfolding first_free
first_free-set n m [] c h f = cc
first_free-set n zero (b ∷ bs) c h f = ground arith
first_free-set n (suc m) (b ∷ bs) c h f = ground (arith, first_free-set (n + 1) m bs c)

-- A buffer that has been taken and given back is the first free one again.
pub IsFirst-set :
    (bufs : List Buf) (i : ℕ) (b c : Buf)
    → IsFirst bufs i b
    → c.busy ≡ false
    → IsFirst (set bufs i c) i c
IsFirst-set bufs i b c h f = record {
  first = first_free-set 0 i bufs c (h.first ∙ ap some (omega arith)) f ∙ ap some (omega arith);
  found = get_elem?-set_self bufs i c (lt_of_get_elem? bufs i h.found);
  idle = f;
}
