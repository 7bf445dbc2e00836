-- ===== src/Fs/Locking.antt =====
-- `inode_table_lock` of kernel/fs.c: who can go on when an inode is waited for.
use gcgos.Base.{
  ℕ, ◌≡◌, refl, true, false, some, arith, Op, ok, switched, spinning, get_elem?, set, map, ap, ◌∙◌,
  set-set, set_same, get_elem?-set_self, lt_of_get_elem?, ◌>>=◌,
}
use gcgos.Kernel.{Inode, inode_slot, Proc, Kernel, put_proc, myproc, Chan}
use gcgos.Sched.{wake, wakeup, sleep, resume, yield, dispatch, undispatch}
use gcgos.Sched.Wakeup.{asleep, sleep_lem}
use gcgos.Fs.Inodes.{iget, ilock, iunlock, iput, iincref, lock_table}

-- Every operation on the inode table, by its result's type.
pub data TableOp : Type 0 where
  get_inode : (dev inum : ℕ) → TableOp
  lock_inode unlock_inode put_inode_back count_inode : ℕ → TableOp

abbrev pub run_op : TableOp → Op Kernel (Unit {0})
run_op (get_inode dev inum) = iget dev inum >>= λ i. (λ k. ok tt k)
run_op (lock_inode i) = ilock i
run_op (unlock_inode i) = iunlock i
run_op (put_inode_back i) = iput i
run_op (count_inode i) = iincref i

-- While the lock is held, every operation on the table spins.
locked_spins : (op : TableOp) (k : Kernel) → k.inode_table_lock ≡ true → run_op op k ≡ spinning
unfolding iget ilock iunlock iput iincref lock_table
locked_spins (get_inode dev inum) k h = ground arith
locked_spins (lock_inode i) k h = ground arith
locked_spins (unlock_inode i) k h = ground arith
locked_spins (put_inode_back i) k h = ground arith
locked_spins (count_inode i) k h = ground arith

-- A step of the kernel: the running process calls an operation on the table, which returns or goes to
-- sleep, or it sleeps, wakes, yields, or goes on behind its `sched`; or the scheduler switches to a
-- process, from any position of its loop, or comes back from one.
pub data Step (k : Kernel) : Kernel → Type 0 where
  operation : (op : TableOp) (k' : Kernel) → run_op op k ≡ ok tt k' → Step k k'
  operation_sleeps : (op : TableOp) (k' : Kernel) → run_op op k ≡ switched k' → Step k k'
  switches_to : (j i : ℕ) (k' : Kernel) → dispatch j k ≡ ok (some i) k' → Step k k'
  comes_back : (k' : Kernel) → undispatch k ≡ ok tt k' → Step k k'
  goes_on : (k' : Kernel) → resume k ≡ ok tt k' → Step k k'
  wakes : (c : Chan) (k' : Kernel) → wakeup c k ≡ ok tt k' → Step k k'
  sleeps : (c : Chan) (k' : Kernel) → sleep {A = Unit {0}} c k ≡ switched k' → Step k k'
  yields : (k' : Kernel) → yield {A = Unit {0}} k ≡ switched k' → Step k k'

-- Any number of steps.
pub data Later (k : Kernel) : Kernel → Type 0 where
  now : Later k k
  after : {k1 k2 : Kernel} → Later k k1 → Step k1 k2 → Later k k2

-- The table is locked and inode `i` is `ip`.
abbrev Stuck : (i : ℕ) (ip : Inode) → Kernel → Type 0
Stuck i ip k = (k.inode_table_lock ≡ true) × (get_elem? k.inodes i ≡ some ip)

Step-Stuck : (i : ℕ) (ip : Inode) {k k' : Kernel} → Step k k' → Stuck i ip k → Stuck i ip k'
unfolding dispatch undispatch resume wakeup sleep yield myproc
Step-Stuck i ip {k} (operation op k' e) (held, at) = let spins = locked_spins op k held in cc
Step-Stuck i ip {k} (operation_sleeps op k' e) (held, at) = let spins = locked_spins op k held in cc
Step-Stuck i ip {k} (switches_to j x k' e) (held, at) =
    (ground (arith, held, e), ground (arith, at, e))
Step-Stuck i ip {k} (comes_back k' e) (held, at) = (ground (arith, held, e), ground (arith, at, e))
Step-Stuck i ip {k} (goes_on k' e) (held, at) = (ground (arith, held, e), ground (arith, at, e))
Step-Stuck i ip {k} (wakes c k' e) (held, at) = (ground (arith, held, e), ground (arith, at, e))
Step-Stuck i ip {k} (sleeps c k' e) (held, at) = (ground (arith, held, e), ground (arith, at, e))
Step-Stuck i ip {k} (yields k' e) (held, at) = (ground (arith, held, e), ground (arith, at, e))

Later-Stuck : (i : ℕ) (ip : Inode) {k k' : Kernel} → Later k k' → Stuck i ip k → Stuck i ip k'
Later-Stuck i ip now stuck = stuck
Later-Stuck i ip (after l s) stuck = Step-Stuck i ip s (Later-Stuck i ip l stuck)

-- A process that finds an inode busy in `ilock`, the table unlocked, goes to sleep with the table's
-- lock held. In the state that it leaves and in every later one that the steps of `Step` reach, other
-- processes' steps included, the inode is still busy, and every operation on the table, the `iunlock`
-- and `iput` that would end the wait included, spins.
pub ilock_deadlock :
    (k : Kernel) (c i : ℕ) (p : Proc) (ip : Inode)
    → k.current ≡ some c
    → get_elem? k.procs c ≡ some p
    → get_elem? k.inodes i ≡ some ip
    → ip.busy ≡ true
    → k.inode_table_lock ≡ false
    → (k' : Kernel) × (ilock i k ≡ switched k')
      × ((k2 : Kernel)
          → Later k' k2
          → (get_elem? k2.inodes i ≡ some ip) × ((op : TableOp) → run_op op k2 ≡ spinning))
unfolding ilock lock_table
ilock_deadlock k c i p ip on_cpu here at busy free =
    let k1 = record k { inode_table_lock = true } in
    let k' = put_proc c (asleep (inode_slot i) p) k1 in
    (
      k',
      ground (arith, sleep_lem k1 c p on_cpu here {A = Unit {0}} (inode_slot i)),
      λ k2 later.
          let (held, same) = Later-Stuck i ip later (refl, at) in
          (same, λ op. locked_spins op k2 held),
    )

-- With the table unlocked, an inode that nobody holds is taken by `ilock` and given back by
-- `iunlock`, and neither sleeps: afterwards the table of inodes is as before and unlocked.
iunlock-ilock :
    (k : Kernel) (i : ℕ) (ip : Inode)
    → get_elem? k.inodes i ≡ some ip
    → ip.busy ≡ false
    → k.inode_table_lock ≡ false
    → (k1 k2 : Kernel) × (ilock i k ≡ ok tt k1)
      × (get_elem? k1.inodes i ≡ some (record ip { busy = true }))
      × (iunlock i k1 ≡ ok tt k2)
      × (k2.inodes ≡ k.inodes)
      × (k2.inode_table_lock ≡ false)
unfolding ilock iunlock lock_table wakeup
iunlock-ilock k i ip at idle free =
    let taken = record ip { busy = true } in
    let k1 = record k { inodes = set k.inodes i taken; inode_table_lock = false } in
    let again = get_elem?-set_self k.inodes i taken (lt_of_get_elem? k.inodes i at) in
    let k2 = record k1 {
      inodes = set k1.inodes i (record taken { busy = false });
      procs = map (wake (inode_slot i)) k.procs;
    } in
    (
      k1,
      k2,
      ground arith,
      again,
      ground (arith, again),
      set-set k.inodes i _ _ ∙ set_same k.inodes i _ (at ∙ ap some (ground arith)),
      refl,
    )
