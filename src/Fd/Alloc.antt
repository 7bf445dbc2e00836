-- ===== src/Fd/Alloc.antt =====
-- `fd_alloc`, `fd_ualloc` and `fd_incref` of kernel/fd.c.
use gcgos.Base.{
  ℕ, ◌+◌, Option, none, some, List, [], ◌∷◌, if◌then◌else◌, Op, ok, pure, modify, ◌>>=◌, ◌>>◌,
}
use gcgos.Kernel.{File, none_fd, Kernel, is_close, increment, proc_at, file_at, put_file, myproc}

-- The loop of `fd_alloc`, from the entry at index `i` on.
unfoldable pub first_closed : ℕ → List File → Option ℕ
first_closed i [] = none
first_closed i (f ∷ fs) =
    let rest = first_closed (i + 1) fs in if is_close f.kind then some i else rest

-- `fd_alloc`
unfoldable pub fd_alloc : Op Kernel (Option ℕ)
unfolding first_closed
fd_alloc k = elim (first_closed 0 k.files) [
  | none ↦ ok none k
  | some i ↦
      (do f ← file_at i; modify (put_file i (record f { kind = none_fd; ref = 1 })); pure (some i))
        k
]

-- The loop of `fd_ualloc`: FD_CLOSE is 0, so the test is for a null pointer.
first_null : ℕ → List (Option ℕ) → Option ℕ
first_null i [] = none
first_null i (d ∷ ds) = let rest = first_null (i + 1) ds in elim d [ none ↦ some i | some f ↦ rest ]

-- `fd_ualloc`; `none` is the result -1.
unfoldable pub fd_ualloc : Op Kernel (Option ℕ)
unfolding first_null myproc
fd_ualloc = do i ← myproc; p ← proc_at i; pure (first_null 0 p.fds)

-- `fd_incref`
unfoldable pub fd_incref : ℕ → Op Kernel (Unit {0})
fd_incref i = do f ← file_at i; modify (put_file i (record f { ref = increment 32 f.ref }))
