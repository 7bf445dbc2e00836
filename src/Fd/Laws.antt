-- ===== src/Fd/Laws.antt =====
-- The open-file table of kernel/fd.c: which entry is given out, and what closing does to it.
use gcgos.Base.{
  ℕ, zero, suc, ◌+◌, ◌^◌, ◌<◌, ◌≡◌, ◌≢◌, ◌⊎◌, inl, inr, refl, true, false, none, some, List, [],
  ◌∷◌, arith, ok, get_elem?, set, set-set, get_elem?-set_self, get_elem?-set_ne, lt_of_get_elem?,
  Option-cases, Bool-cases, ap, sym, ◌∙◌, ◌>>◌,
}
use gcgos.Kernel.{File, close_fd, none_fd, Kernel, is_close, decrement, increment, put_file}
use gcgos.Fd.Alloc.{first_closed, fd_alloc, fd_incref}
use gcgos.Fd.Io.{fd_close}

-- Entry `i` is the first that is FD_CLOSE, and holds `f`.
pub record FirstClosed (files : List File) (i : ℕ) (f : File) : Type 0 where
  pub found : get_elem? files i ≡ some f
  pub closed : is_close f.kind ≡ true
  pub before : (j : ℕ) (g : File) → j < i → get_elem? files j ≡ some g → is_close g.kind ≡ false

first_closed-at :
    (n : ℕ) (files : List File) (i : ℕ)
    → first_closed n files ≡ some i
    → (m : ℕ) × (f : File) × (i ≡ n + m) × FirstClosed files m f
unfolding first_closed
first_closed-at n [] i h = cc
first_closed-at n (f ∷ fs) i h = elim (Bool-cases (is_close f.kind)) [
  | inl closed ↦ (
    0,
    f,
    ground arith,
    record { found = refl; closed = closed; before = λ j g lt e. absurd (omega arith) },
  )
  | inr taken ↦
      let (m, g, e, c) = first_closed-at (n + 1) fs i (ground arith) in
      (
        suc m,
        g,
        omega arith,
        record { found = c.found; closed = c.closed; before = earlier f fs m taken c.before },
      )
]
  where
    earlier :
        (f : File) (fs : List File) (m : ℕ)
        → is_close f.kind ≡ false
        → ((j : ℕ) (g : File) → j < m → get_elem? fs j ≡ some g → is_close g.kind ≡ false)
        → (j : ℕ) (g : File) → j < suc m
        → get_elem? (f ∷ fs) j ≡ some g
        → is_close g.kind ≡ false
    earlier f fs m taken rest zero g lt e = ground arith
    earlier f fs m taken rest (suc j) g lt e = rest j g (omega arith) e

first_closed-none :
    (n : ℕ) (files : List File)
    → first_closed n files ≡ none
    → (j : ℕ) (g : File) → get_elem? files j ≡ some g
    → is_close g.kind ≡ false
unfolding first_closed
first_closed-none n [] h j g e = cc
first_closed-none n (f ∷ fs) h zero g e = ground arith
first_closed-none n (f ∷ fs) h (suc j) g e = first_closed-none (n + 1) fs (ground arith) j g e

-- `fd_alloc` fails, changing nothing, exactly when no entry is FD_CLOSE; else it takes the first such
-- entry, with one reference, and leaves every other entry and the rest of the kernel alone.
fd_alloc_cases :
    (k : Kernel)
    → ((fd_alloc k ≡ ok none k)
        × ((j : ℕ) (g : File) → get_elem? k.files j ≡ some g → is_close g.kind ≡ false))
      ⊎ ((i : ℕ) × (f : File) × FirstClosed k.files i f
          × (fd_alloc k ≡ ok (some i) (put_file i (record f { kind = none_fd; ref = 1 }) k)))
unfolding fd_alloc
fd_alloc_cases k = elim (Option-cases (first_closed 0 k.files)) [
  | inl e ↦ inl (ground arith, first_closed-none 0 k.files e)
  | inr (i, e) ↦
      let (m, f, at, c) = first_closed-at 0 k.files i e in
      let same : i ≡ m = omega arith in inr (m, f, c, ground (arith, c.found))
]

-- Closing one of several references to a file: the entry becomes FD_CLOSE while it still has
-- references, and the pipe or inode behind it is not given back.
pub fd_close_shared :
    (k : Kernel) (i : ℕ) (f : File)
    → get_elem? k.files i ≡ some f
    → decrement 32 f.ref ≢ 0
    → fd_close i k ≡ ok tt (put_file i (record f { ref = decrement 32 f.ref; kind = close_fd }) k)
unfolding fd_close
fd_close_shared k i f at shared =
    let g : File = record f { ref = decrement 32 f.ref } in
    let lt = lt_of_get_elem? k.files i at in
    ground
      (arith, get_elem?-set_self k.files i g lt, set-set k.files i g (record g { kind = close_fd }))

first_closed-before :
    (n : ℕ) (files : List File) (m : ℕ) (f : File)
    → get_elem? files m ≡ some f
    → is_close f.kind ≡ true
    → ((j : ℕ) (g : File) → j < m → get_elem? files j ≡ some g → is_close g.kind ≡ false)
    → first_closed n files ≡ some (n + m)
unfolding first_closed
first_closed-before n [] m f at closed before = cc
first_closed-before n (x ∷ fs) zero f at closed before = ground arith
first_closed-before n (x ∷ fs) (suc m) f at closed before =
    let x_taken = before 0 x (omega arith) refl in
    let rest =
      first_closed-before (n + 1) fs m f at closed (λ j g lt e. before (suc j) g (omega arith) e) in
    ground (arith, x_taken, rest)

fd_incref_lem :
    (k : Kernel) (i : ℕ) (f : File)
    → get_elem? k.files i ≡ some f
    → fd_incref i k ≡ ok tt (put_file i (record f { ref = increment 32 f.ref }) k)
unfolding fd_incref
fd_incref_lem k i f at = ground arith

fd_alloc_first :
    (k : Kernel) (i : ℕ) (f : File)
    → get_elem? k.files i ≡ some f
    → first_closed 0 k.files ≡ some i
    → fd_alloc k ≡ ok (some i) (put_file i (record f { kind = none_fd; ref = 1 }) k)
unfolding fd_alloc
fd_alloc_first k i f at first = ground arith

-- A file of entry `i` with a positive reference count below 2^31 is shared by `fd_incref`, and one
-- of the two closes it. With no FD_CLOSE entry before it, the next `fd_alloc` gives the same entry
-- out again with one reference and the old file's pipe, inode and modes.
pub fd_alloc-fd_close_shared :
    (k : Kernel) (i : ℕ) (f : File)
    → get_elem? k.files i ≡ some f
    → 0 < f.ref
    → f.ref < 2 ^ 31
    → ((j : ℕ) (g : File) → j < i → get_elem? k.files j ≡ some g → is_close g.kind ≡ false)
    → (fd_incref i >> fd_close i >> fd_alloc) k
      ≡ ok (some i) (put_file i (record f { kind = none_fd; ref = 1 }) k)
fd_alloc-fd_close_shared k i f at pos fits before =
    let lt = lt_of_get_elem? k.files i at in
    let f1 : File = record f { ref = increment 32 f.ref } in
    let f2 : File = record f1 { ref = decrement 32 f1.ref; kind = close_fd } in
    let k1 = put_file i f1 k in
    let at1 = get_elem?-set_self k.files i f1 lt in
    let closing = fd_close_shared k1 i f1 at1 (omega arith) in
    let same = set-set k.files i f1 f2 in
    let at2 = get_elem?-set_self k.files i f2 lt in
    let first = first_closed-before 0 (set k.files i f2) i f2 at2 refl (λ j g h e.
      before j g h (sym (get_elem?-set_ne k.files i j f2 (λ q. absurd (omega arith))) ∙ e)) in
    let taking = fd_alloc_first (put_file i f2 k) i f2 at2 (first ∙ ap some (omega arith)) in
    let f3 : File = record f2 { kind = none_fd; ref = 1 } in
    rw (fd_incref_lem k i f at, closing, same, taking)
      (ap (λ l. ok (some i) (record k { files = l })) (set-set k.files i f2 f3))
