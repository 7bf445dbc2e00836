-- ===== src/Spinlock/Tests.antt =====
-- Two CPUs at the lock of kernel/spinlock.c.
use gcgos.Spinlock.{Cpus, start, step, Reachable, begin, moves}
use gcgos.Spinlock.Exclusion.{IsExclusive, Reachable-IsExclusive}

-- CPU 0 takes the lock, CPU 1 comes and waits, CPU 0 lets it go and CPU 1 takes it.
abbrev handed_over : Cpus
handed_over = step 1 (step 0 (step 0 (step 1 (step 1 (step 0 (step 0 (step 0 start)))))))

handed_over-Reachable : Reachable handed_over
handed_over-Reachable =
    moves 1 (moves 0 (moves 0 (moves 1 (moves 1 (moves 0 (moves 0 (moves 0 begin)))))))

Reachable-IsExclusive_example : IsExclusive handed_over
Reachable-IsExclusive_example = Reachable-IsExclusive handed_over handed_over-Reachable
