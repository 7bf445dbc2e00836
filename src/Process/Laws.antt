-- ===== src/Process/Laws.antt =====
-- `proc_wait` of kernel/proc.c: when it sleeps, and what it collects.
use gcgos.Base.{
  ℕ, zero, suc, ◌<◌, true, ok, ◌+◌, ◌≡◌, refl, Bool, false, ◌&&◌, none, some, List, [], ◌∷◌, arith,
  switched, ◌==◌, get_elem?, write, ap, sym, ◌∙◌,
}
use gcgos.Kmem.{Kmem, kfree}
use gcgos.Kmem.FreeList.{IsPage}
use gcgos.Kernel.{ProcState, proc_slot, Proc, Kernel, is_zombie, put_proc}
use gcgos.Sched.{sleep}
use gcgos.Sched.Wakeup.{asleep, sleep_lem}
use gcgos.Process.Finish.{first_zombie, collect, proc_wait}

-- A child of the process `pid` that has exited.
abbrev pub is_dead_child : ℕ → Proc → Bool
is_dead_child pid p = is_zombie p.state && p.ppid == pid

first_zombie-none :
    (pid n : ℕ) (ps : List Proc)
    → ((j : ℕ) (q : Proc) → get_elem? ps j ≡ some q → is_dead_child pid q ≡ false)
    → first_zombie pid n ps ≡ none
unfolding first_zombie
first_zombie-none pid n [] h = refl
first_zombie-none pid n (p ∷ ps) h =
    ground (arith, h 0 p refl, first_zombie-none pid (n + 1) ps (λ j q e. h (suc j) q e))

-- A process with no exited child goes to sleep on itself in `wait`, also if it has no child at all;
-- `wait` does not return -1.
proc_wait_sleeps :
    (junk : ℕ) (k : Kernel) (i : ℕ) (p : Proc)
    → k.current ≡ some i
    → get_elem? k.procs i ≡ some p
    → ((j : ℕ) (q : Proc) → get_elem? k.procs j ≡ some q → is_dead_child p.pid q ≡ false)
    → proc_wait junk k ≡ switched (put_proc i (asleep (proc_slot i) p) k)
unfolding proc_wait
proc_wait_sleeps junk k i p on_cpu at alive = wait_of k.procs refl
  where
    s : sleep {A = ℕ} (proc_slot i) k ≡ switched (put_proc i (asleep (proc_slot i) p) k)
    s = sleep_lem k i p on_cpu at {A = ℕ} (proc_slot i)

    wait_of :
        (ps : List Proc)
        → k.procs ≡ ps
        → proc_wait junk k ≡ switched (put_proc i (asleep (proc_slot i) p) k)
    wait_of [] e = absurd (ground (arith, at, e))
    wait_of (q ∷ qs) e =
        let here = ap (first_zombie p.pid 0) (sym e) ∙ first_zombie-none p.pid 0 k.procs alive in
        ground (arith, s, here, e)

first_zombie-at :
    (pid n : ℕ) (ps : List Proc) (j : ℕ) (q : Proc)
    → get_elem? ps j ≡ some q
    → is_dead_child pid q ≡ true
    → ((m : ℕ) (r : Proc) → m < j → get_elem? ps m ≡ some r → is_dead_child pid r ≡ false)
    → first_zombie pid n ps ≡ some (n + j)
unfolding first_zombie
first_zombie-at pid n [] j q at dead before = absurd (ground arith)
first_zombie-at pid n (p ∷ ps) zero q at dead before = ground arith
first_zombie-at pid n (p ∷ ps) (suc j) q at dead before = ground (
  arith,
  before 0 p (omega arith) refl,
  first_zombie-at pid (n + 1) ps j q at dead (λ m r lt e. before (suc m) r (omega arith) e),
)

-- The kernel after the zombie `q` at index `j` has been collected.
abbrev pub collected : (j : ℕ) → Proc → Kernel → Kmem → Kernel
collected j q k m = put_proc j (record q { state = ProcState.unused }) (record k { kmem = m })

collect_lem :
    (junk : ℕ) (k : Kernel) (i j : ℕ) (q : Proc) (m1 m2 : Kmem)
    → get_elem? k.procs j ≡ some q
    → kfree q.tf k.kmem ≡ ok tt m1
    → kfree q.pagetable m1 ≡ ok tt m2
    → collect junk i (some j) k ≡ ok junk (collected j q k m2)
unfolding collect
collect_lem junk k i j q m1 m2 at run1 run2 = ground arith

kfree_page :
    (m : Kmem) (pa : ℕ)
    → IsPage m.kend pa
    → kfree pa m ≡ ok tt (record m { word = write m.word pa m.freelist; freelist = pa })
unfolding kfree
kfree_page m pa page = ground (arith, page.aligned, page.above, page.below)

-- A process whose first exited child is at index `j`, with its trapframe and its top table in pages
-- of the range: `wait` returns at once, gives these two pages back by `kfree` and makes the child's
-- slot UNUSED, and changes nothing else. Its result is not the child's pid but `junk`, what C finds
-- in the variable that is never set.
pub proc_wait_collects :
    (junk : ℕ) (k : Kernel) (i j : ℕ) (p q : Proc)
    → k.current ≡ some i
    → get_elem? k.procs i ≡ some p
    → get_elem? k.procs j ≡ some q
    → is_dead_child p.pid q ≡ true
    → ((m : ℕ) (r : Proc) → m < j → get_elem? k.procs m ≡ some r → is_dead_child p.pid r ≡ false)
    → IsPage k.kmem.kend q.tf
    → IsPage k.kmem.kend q.pagetable
    → (m1 m2 : Kmem) × (kfree q.tf k.kmem ≡ ok tt m1)
      × (kfree q.pagetable m1 ≡ ok tt m2)
      × (proc_wait junk k ≡ ok junk (collected j q k m2))
unfolding proc_wait
proc_wait_collects junk k i j p q on_cpu here at dead before tf table =
    let m1 : Kmem = record k.kmem {
      word = write k.kmem.word q.tf k.kmem.freelist;
      freelist = q.tf;
    } in
    let m2 : Kmem = record m1 { word = write m1.word q.pagetable q.tf; freelist = q.pagetable } in
    let run1 = kfree_page k.kmem q.tf tf in
    let run2 = kfree_page m1 q.pagetable table in
    (m1, m2, run1, run2, wait_of m2 k.procs refl (collect_lem junk k i j q m1 m2 at run1 run2))
  where
    wait_of :
        (m2 : Kmem) (ps : List Proc)
        → k.procs ≡ ps
        → collect junk i (some j) k ≡ ok junk (collected j q k m2)
        → proc_wait junk k ≡ ok junk (collected j q k m2)
    wait_of m2 [] e run = absurd (ground (arith, here, e))
    wait_of m2 (x ∷ xs) e run =
        let first : first_zombie p.pid 0 (x ∷ xs) ≡ some j =
          ap (first_zombie p.pid 0) (sym e)
          ∙ first_zombie-at p.pid 0 k.procs j q at dead before
          ∙ ap some (omega arith) in
        ground (arith, here, first, e, run)
