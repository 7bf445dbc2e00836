-- ===== src/Sched/Tests.antt =====
-- The theorems about kernel/proc.c on the small kernel.
use gcgos.Base.{ℕ, List, ◌≡◌, ok, true, false, ◌⊎◌, ◌<◌, some, get_elem?}
use gcgos.Kernel.{Kernel, Proc, put_proc}
use gcgos.Samples.{sample}
use gcgos.Sched.{yield, scheduler_pass, proc_kill}
use gcgos.Sched.Kill.{has_pid, kill, proc_kill_cases}
use gcgos.Sched.Pass.{Ready, Increasing, Among, yield-Turn, scheduler_pass-Ready}

scheduler_pass-Ready_example :
    (order : List ℕ) × (after : Kernel) × (scheduler_pass 3 0 (λ _. yield) sample ≡ ok order after)
    × Increasing 0 order
    × ((n : ℕ) → Ready sample n → Among n order)
scheduler_pass-Ready_example =
    scheduler_pass-Ready (λ _. yield) (λ j k p c h r. yield-Turn j k p c h) sample

proc_kill_cases_example :
    ((proc_kill 2 sample ≡ ok false sample)
      × ((j : ℕ) (q : Proc) → get_elem? sample.procs j ≡ some q → has_pid 2 q ≡ false))
    ⊎ ((i : ℕ) × (p : Proc) × (get_elem? sample.procs i ≡ some p)
        × (has_pid 2 p ≡ true)
        × ((j : ℕ) (q : Proc) → j < i → get_elem? sample.procs j ≡ some q → has_pid 2 q ≡ false)
        × (proc_kill 2 sample ≡ ok true (put_proc i (kill p) sample)))
proc_kill_cases_example = proc_kill_cases 2 sample
