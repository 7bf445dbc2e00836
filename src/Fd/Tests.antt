-- ===== src/Fd/Tests.antt =====
-- The theorems about kernel/fd.c on the small kernel.
use gcgos.Base.{◌≡◌, refl, some, arith, ok, ◌>>◌}
use gcgos.Kernel.{FdType, put_file}
use gcgos.Samples.{sample, shared_file}
use gcgos.Fd.Alloc.{fd_alloc, fd_incref}
use gcgos.Fd.Io.{fd_close}
use gcgos.Fd.Laws.{fd_alloc-fd_close_shared}

fd_alloc-fd_close_shared_example :
    (fd_incref 0 >> fd_close 0 >> fd_alloc) sample
    ≡ ok (some 0) (put_file 0 (record shared_file { kind = FdType.none_fd; ref = 1 }) sample)
fd_alloc-fd_close_shared_example =
    fd_alloc-fd_close_shared sample 0 shared_file refl (omega arith) (omega arith)
      (λ j g lt e. absurd (omega arith))
