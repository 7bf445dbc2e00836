-- ===== src/Spinlock.antt =====
-- kernel/spinlock.c on several CPUs: `acquire` and `release` of one lock, an access to the lock at a
-- time, in any order of the CPUs. The atomic exchange is one step; `printf` is left out.
pub mod Exclusion
pub mod Tests
use gcgos.Base.{ℕ, Bool, true, false, Option, none, some, write}

-- `struct spinlock`; `p` is the CPU that holds it. `count` is not used.
pub record Lock : Type 0 where
  pub locked : Bool
  pub p : Option ℕ

-- How far a CPU is: outside both functions; in the loop of `acquire`; behind it, with `lk->p` to be set;
-- between `acquire` and `release`; in `release` with the lock to be freed, and with interrupts to be
-- enabled.
pub data Place : Type 0 where
  outside trying taken holding leaving freed : Place

pub record Cpus : Type 0 where
  pub lock : Lock
  pub place : ℕ → Place
  pub masked : ℕ → Bool

abbrev pub goes_to : ℕ → Place → Cpus → Cpus
goes_to c at s = record s { place = write s.place c at }

-- The start of `acquire`: `intr_off`.
unfoldable pub acquire_start : ℕ → Cpus → Cpus
acquire_start c s = goes_to c trying (record s { masked = write s.masked c true })

-- A round of its loop: the old value of `locked` comes back, and 1 is stored.
unfoldable pub acquire_round : ℕ → Cpus → Cpus
acquire_round c s =
    let next = record s { lock = record s.lock { locked = true } } in
    elim s.lock.locked [ true ↦ next | false ↦ goes_to c taken next ]

-- `lk->p = mycpu()`
unfoldable pub acquire_end : ℕ → Cpus → Cpus
acquire_end c s = goes_to c holding (record s { lock = record s.lock { p = some c } })

-- `release`: `lk->p = 0`, then the lock, and then `intr_on`.
unfoldable pub release_start : ℕ → Cpus → Cpus
release_start c s = goes_to c leaving (record s { lock = record s.lock { p = none } })

unfoldable pub release_lock : ℕ → Cpus → Cpus
release_lock c s = goes_to c freed (record s { lock = record s.lock { locked = false } })

unfoldable pub release_end : ℕ → Cpus → Cpus
release_end c s = goes_to c outside (record s { masked = write s.masked c false })

-- The next step of a CPU.
unfoldable pub step : ℕ → Cpus → Cpus
step c s = elim (s.place c) [
  | outside ↦ acquire_start c s
  | trying ↦ acquire_round c s
  | taken ↦ acquire_end c s
  | holding ↦ release_start c s
  | leaving ↦ release_lock c s
  | freed ↦ release_end c s
]

-- The states that steps of the CPUs lead to from a free lock with every CPU outside.
unfoldable pub start : Cpus
start = record {
  lock = record { locked = false; p = none };
  place = λ c. outside;
  masked = λ c. false;
}

pub data Reachable : Cpus → Type 0 where
  begin : Reachable start
  moves : {s : Cpus} (c : ℕ) → Reachable s → Reachable (step c s)
