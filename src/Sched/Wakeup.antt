-- ===== src/Sched/Wakeup.antt =====
-- `sleep`, `wakeup` and `resume` of kernel/proc.c together.
use gcgos.Base.{
  ℕ, ◌≡◌, refl, true, false, ◌&&◌, some, map, arith, ap, if◌then◌else◌, get_elem?,
  get_elem?-set_self, get_elem?-map-some, lt_of_get_elem?, ok, switched, ◌∙◌,
}
use gcgos.Kernel.{
  ProcState, Chan, nothing, inode_slot, proc_slot, pipe_readp, pipe_writep, cons_r, Proc, Kernel,
  chan_eq, is_sleeping, put_proc,
}
use gcgos.Sched.{wake, wakeup, sleep}

-- `chan_eq` is equality.
pub chan_eq_self : (c : Chan) → chan_eq c c ≡ true
chan_eq_self nothing = refl
chan_eq_self (inode_slot a) = ground arith
chan_eq_self (proc_slot a) = ground arith
chan_eq_self (pipe_readp a) = ground arith
chan_eq_self (pipe_writep a) = ground arith
chan_eq_self cons_r = refl

-- The process asleep on `c`.
abbrev pub asleep : Chan → Proc → Proc
asleep c p = record p { chan = c; state = ProcState.sleeping }

-- What `wakeup d` makes of the process at an index.
pub wakeup-entry :
    (k : Kernel) (d : Chan) (i : ℕ) {p : Proc}
    → get_elem? k.procs i ≡ some p
    → get_elem? (map (wake d) k.procs) i ≡ some (wake d p)
wakeup-entry k d i h = get_elem?-map-some (wake d) k.procs i h

wake-asleep :
    (c d : Chan) (p : Proc)
    → wake d (asleep c p) ≡ record p {
      chan = c;
      state = if chan_eq c d then ProcState.runnable else ProcState.sleeping;
    }
unfolding wake
wake-asleep c d p = ground arith

module _ (k : Kernel) (i : ℕ) (p : Proc) (on_cpu : k.current ≡ some i)
    (here : get_elem? k.procs i ≡ some p) where
  pub sleep_lem : {A : Type 0} (c : Chan) → sleep {A = A} c k ≡ switched (put_proc i (asleep c p) k)
  unfolding sleep
  sleep_lem c = ground arith

  -- After a process has called `sleep(c)`, a `wakeup(d)` makes it RUNNABLE if `d` is `c` and leaves
  -- it SLEEPING if not; all else of it is as when it fell asleep, with `c` as its channel.
  wakeup-sleep :
      (c d : Chan)
      → (asleep_k woken : Kernel) × (sleep {A = Unit {0}} c k ≡ switched asleep_k)
        × (wakeup d asleep_k ≡ ok tt woken)
        × (get_elem? woken.procs i
            ≡ some (record p {
              chan = c;
              state = if chan_eq c d then ProcState.runnable else ProcState.sleeping;
            }))
  unfolding wakeup
  wakeup-sleep c d =
      let k1 = put_proc i (asleep c p) k in
      (
        k1,
        record k1 { procs = map (wake d) k1.procs },
        sleep_lem c,
        refl,
        wakeup-entry k1 d i (get_elem?-set_self k.procs i _ (lt_of_get_elem? k.procs i here))
            ∙ ap some (wake-asleep c d p),
      )

-- A process that is not asleep on `d` is not touched by `wakeup(d)`.
pub wakeup_other :
    (k : Kernel) (d : Chan) (j : ℕ) (q : Proc)
    → get_elem? k.procs j ≡ some q
    → (is_sleeping q.state && chan_eq q.chan d) ≡ false
    → (k' : Kernel) × (wakeup d k ≡ ok tt k') × (get_elem? k'.procs j ≡ some q)
unfolding wakeup wake
wakeup_other k d j q h out =
    (record k { procs = map (wake d) k.procs }, refl, wakeup-entry k d j h ∙ ap some (rw out))
