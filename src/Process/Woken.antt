-- ===== src/Process/Woken.antt =====
-- The process table after the wakeups of `proc_exit` (kernel/proc.c).
use gcgos.Base.{
  ℕ, zero, suc, ◌+◌, ◌<◌, ◌≡◌, ◌≢◌, ◌∙◌, sym, ap, refl, true, false, some, List, [], ◌∷◌, map,
  arith, ◌==◌, if◌then◌else◌, ok, get_elem?, set, get_elem?-set_self, get_elem?-set_ne, length-set,
  lt_of_get_elem?, Bool, get_elem?-map-some, Bool-cases, inl, inr,
}
use gcgos.Kernel.{ProcState, proc_slot, Chan, Proc, Kernel, is_sleeping}
use gcgos.Sched.{wake, wakeup}
use gcgos.Process.Finish.{wake_parents, abandon}
use gcgos.Process.Laws.{is_dead_child}

-- The table after `wake_parents`.
pub woken : (ppid n : ℕ) → List Proc → List Proc → List Proc
woken ppid n [] qs = qs
woken ppid n (p ∷ ps) qs =
    woken ppid (n + 1) ps (if p.pid == ppid then map (wake (proc_slot n)) qs else qs)

pub wake_parents-woken :
    (ppid n : ℕ) (ps : List Proc) (k : Kernel)
    → wake_parents ppid n ps k ≡ ok tt (record k { procs = woken ppid n ps k.procs })
unfolding wake_parents wakeup woken
wake_parents-woken ppid n [] k = refl
wake_parents-woken ppid n (p ∷ ps) k =
    let qs = if p.pid == ppid then map (wake (proc_slot n)) k.procs else k.procs in
    ground (arith, wake_parents-woken ppid (n + 1) ps (record k { procs = qs }))

wake_round :
    (ppid n m : ℕ) (p x y : Proc) (qs : List Proc)
    → get_elem? qs m ≡ some x
    → (p.pid ≡ ppid → wake (proc_slot n) x ≡ y)
    → (p.pid ≢ ppid → x ≡ y)
    → get_elem? (if p.pid == ppid then map (wake (proc_slot n)) qs else qs) m ≡ some y
wake_round ppid n m p x y qs at hit miss = elim (Bool-cases (p.pid == ppid)) [
  | inl e ↦ rw e (get_elem?-map-some (wake (proc_slot n)) qs m at ∙ ap some (hit (ground arith)))
  | inr e ↦ rw e (at ∙ ap some (miss (λ z. absurd (ground arith))))
]

-- A process that does not sleep is not touched.
pub woken-awake :
    (ppid n m : ℕ) (ps qs : List Proc) (x : Proc)
    → get_elem? qs m ≡ some x
    → is_sleeping x.state ≡ false
    → get_elem? (woken ppid n ps qs) m ≡ some x
unfolding woken wake
woken-awake ppid n m [] qs x at up = at
woken-awake ppid n m (p ∷ ps) qs x at up =
    woken-awake ppid (n + 1) m ps _ x
      (wake_round ppid n m p x x qs at (λ e. ground (arith, up)) (λ ne. refl)) up

-- A parent that sleeps on itself is woken.
pub woken-parent :
    (n m : ℕ) (ps qs : List Proc) (x r : Proc)
    → get_elem? ps m ≡ some r
    → get_elem? qs (n + m) ≡ some x
    → x.state ≡ ProcState.sleeping
    → x.chan ≡ proc_slot (n + m)
    → get_elem? (woken r.pid n ps qs) (n + m) ≡ some (record x { state = ProcState.runnable })
unfolding woken wake
woken-parent n m [] qs x r here at asleep on = cc
woken-parent n zero (p ∷ ps) qs x r here at asleep on =
    woken-awake r.pid (n + 1) (n + 0) ps _ (record x { state = ProcState.runnable })
      (wake_round r.pid n (n + 0) p x (record x { state = ProcState.runnable }) qs at
        (λ e. ground (arith, asleep, on)) (λ ne. absurd (ne (ground (arith, here)))))
      refl
woken-parent n (suc m) (p ∷ ps) qs x r here at asleep on =
    let next : n + suc m ≡ n + 1 + m = omega arith in
    let still = wake_round r.pid n (n + suc m) p x x qs at (λ e. ground (arith, on)) (λ ne. refl) in
    ap (get_elem? (woken r.pid (n + 1) ps _)) next
    ∙ woken-parent (n + 1) m ps _ x r here (ap (get_elem? _) (sym next) ∙ still) asleep
        (on ∙ ap proc_slot next)

-- No exited child of `pid` stands before index `j`.
abbrev pub NoneBefore : (pid j : ℕ) → List Proc → Type 0
NoneBefore pid j qs =
    (m : ℕ) (r : Proc) → m < j → get_elem? qs m ≡ some r → is_dead_child pid r ≡ false

map-entry :
    (g : Proc → Proc) (qs : List Proc) (m : ℕ) (r : Proc)
    → get_elem? (map g qs) m ≡ some r
    → (q : Proc) × (get_elem? qs m ≡ some q) × (r ≡ g q)
map-entry g [] m r at = cc
map-entry g (q ∷ qs) zero r at = (q, refl, cc)
map-entry g (q ∷ qs) (suc m) r at = map-entry g qs m r at

pub NoneBefore-map :
    (pid j : ℕ) (g : Proc → Proc) (qs : List Proc)
    → ((q : Proc) → is_dead_child pid (g q) ≡ is_dead_child pid q)
    → NoneBefore pid j qs
    → NoneBefore pid j (map g qs)
NoneBefore-map pid j g qs keeps clear m r lt at =
    let (q, here, e) = map-entry g qs m r at in
    ap (is_dead_child pid) e ∙ keeps q ∙ clear m q lt here

wake-dead : (pid : ℕ) (c : Chan) (q : Proc) → is_dead_child pid (wake c q) ≡ is_dead_child pid q
unfolding wake
wake-dead pid c q = ground arith

pub abandon-dead :
    (pid own : ℕ) (q : Proc) → is_dead_child pid (abandon own q) ≡ is_dead_child pid q
unfolding abandon
abandon-dead pid own q = ground arith

pub NoneBefore-woken :
    (pid j ppid n : ℕ) (ps qs : List Proc)
    → NoneBefore pid j qs
    → NoneBefore pid j (woken ppid n ps qs)
unfolding woken
NoneBefore-woken pid j ppid n [] qs clear = clear
NoneBefore-woken pid j ppid n (p ∷ ps) qs clear =
    NoneBefore-woken pid j ppid (n + 1) ps _ (after (p.pid == ppid))
  where
    after : (b : Bool) → NoneBefore pid j (if b then map (wake (proc_slot n)) qs else qs)
    after true = NoneBefore-map pid j (wake (proc_slot n)) qs (wake-dead pid (proc_slot n)) clear
    after false = clear

pub NoneBefore-set :
    (pid j i : ℕ) (q : Proc) (qs : List Proc)
    → (i < j → is_dead_child pid q ≡ false)
    → NoneBefore pid j qs
    → NoneBefore pid j (set qs i q)
NoneBefore-set pid j i q qs alive clear m r lt at = elim (Bool-cases (i == m)) [
  | inl e ↦
      let same : m ≡ i = ground arith in
      let there : get_elem? (set qs i q) i ≡ some r = ap (get_elem? (set qs i q)) (sym same) ∙ at in
      let inside = lt_of_get_elem? (set qs i q) i there in
      let self = get_elem?-set_self qs i q (omega (arith, length-set qs i q, inside)) in
      let new : r ≡ q = ground (arith, there, self) in
      ap (is_dead_child pid) new ∙ alive (omega (arith, same))
  | inr e ↦ clear m r lt (sym (get_elem?-set_ne qs i m q (λ z. absurd (ground arith))) ∙ at)
]
