-- ===== src/Pipe/Tests.antt =====
-- The theorems about kernel/pipe.c on the small kernel.
use gcgos.Base.{ℕ, ◌+◌, ◌-◌, ◌/◌, ◌%◌, ◌^◌, ◌≡◌, arith, refl, ok, among, load8, if◌then◌else◌}
use gcgos.Kernel.{Kernel}
use gcgos.Samples.{sample, sample_pipe}
use gcgos.Pipe.{pipe_read, pipe_write}
use gcgos.Pipe.Order.{pipe_read-pipe_write}

-- A pipe of which all is read.
abbrev empty_pipe : Kernel
empty_pipe = record sample { pipes = λ _. record sample_pipe { readp = 2 } }

pipe_read-pipe_write_example :
    (k1 k2 : Kernel) × (pipe_write 64 1027 3 empty_pipe ≡ ok 0 k1)
    × (pipe_read 64 800 2 k1 ≡ ok (2 ^ 32 - 1) k2)
    × ((x : ℕ)
        → load8 k2.kmem.word x
          ≡ (if among 800 2 x then 1027 / 256 ^ (x - 800) % 256 else load8 empty_pipe.kmem.word x))
    × ((k2.pipes 64).readp + (3 - 2) ≡ (k2.pipes 64).writep)
pipe_read-pipe_write_example =
    pipe_read-pipe_write 2 3 64 1027 800 empty_pipe (omega arith) (omega arith) (ground arith) refl
