-- ===== src/Process/ExitWait.antt =====
-- A process that exits and its parent that waits (kernel/proc.c): `proc_exit`, the scheduler, the end
-- of `sleep` and `proc_wait`, one after the other.
use gcgos.Base.{ℕ, ◌^◌, ◌≤◌, ◌<◌, ◌≡◌, ◌≢◌, none, some, List, map, get_elem?, set}
use gcgos.Kmem.{Kmem}
use gcgos.Kernel.{ProcState, proc_slot, Chan, Proc, Kernel, nofile}
use gcgos.Process.Finish.{abandon}
use gcgos.Process.Woken.{woken}

-- The child `cp` in slot `j` runs, and its parent `p` in slot `i` sleeps in `proc_wait`.
pub record IsFamily (i j : ℕ) (p cp : Proc) (k : Kernel) : Type 0 where
  pub on_cpu : k.current ≡ some j
  pub child : get_elem? k.procs j ≡ some cp
  pub parent : get_elem? k.procs i ≡ some p
  pub apart : j ≢ i
  pub pid : cp.ppid ≡ p.pid
  pub asleep : p.state ≡ ProcState.sleeping
  pub on_itself : p.chan ≡ proc_slot i
  pub not_own : cp.ppid ≢ cp.pid
  pub no_cycle : p.ppid ≢ cp.pid

-- The descriptors that the loop of `proc_exit` looks at, from `junk` on, are all null.
pub record IsShut (junk : ℕ) (cp : Proc) : Type 0 where
  pub fits : junk < 2 ^ 31
  pub null : (n : ℕ) → junk ≤ n → n < nofile → get_elem? cp.fds n ≡ some none

abbrev zombie : Proc → Proc
zombie cp = record cp { state = ProcState.zombie }

module _ (junk i j : ℕ) (p cp : Proc) (k : Kernel) (f : IsFamily i j p cp k)
    (shut : IsShut junk cp) where
  left_table : List Proc
  left_table = set k.procs j (zombie cp)

  exited : Kernel
  exited = record k { procs = map (abandon cp.pid) (woken cp.ppid 0 left_table left_table) }

  -- The parent when the scheduler has switched to it, and when it is out of `sleep`.
  resumed : Proc
  resumed = record p { state = ProcState.running; chan = Chan.nothing }

  dispatched : Kernel
  dispatched = record exited {
    procs = set exited.procs i (record p { state = ProcState.running });
    current = some i;
  }

  awake : Kernel
  awake = record exited { procs = set exited.procs i resumed; current = some i }
