-- ===== src/Spinlock/Exclusion.antt =====
-- Mutual exclusion by the lock of kernel/spinlock.c.
use gcgos.Base.{ℕ, ◌≡◌, refl, Bool, true, false, some, arith, Bool-cases, inl, inr}
use gcgos.Spinlock.{
  Place, outside, trying, taken, holding, leaving, freed, Cpus, acquire_start, acquire_round,
  acquire_end, release_start, release_lock, release_end, step, start, Reachable, begin, moves,
}

-- The CPU has the lock.
abbrev pub has_lock : Place → Bool
has_lock outside = false
has_lock trying = false
has_lock taken = true
has_lock holding = true
has_lock leaving = true
has_lock freed = false

abbrev pub is_outside : Place → Bool
is_outside outside = true
is_outside _ = false

abbrev pub is_holding : Place → Bool
is_holding holding = true
is_holding _ = false

pub record IsExclusive (s : Cpus) : Type 0 where
  pub one : (c d : ℕ) → has_lock (s.place c) ≡ true → has_lock (s.place d) ≡ true → c ≡ d
  pub locked : (c : ℕ) → has_lock (s.place c) ≡ true → s.lock.locked ≡ true
  pub holder : (c : ℕ) → is_holding (s.place c) ≡ true → s.lock.p ≡ some c
  pub masked : (c : ℕ) → is_outside (s.place c) ≡ false → s.masked c ≡ true

-- A move of one CPU keeps this, if it takes the lock only when it is free.
module _ (s : Cpus) (c : ℕ) (h : IsExclusive s) where
  acquire_start-IsExclusive : s.place c ≡ outside → IsExclusive (acquire_start c s)
  unfolding acquire_start
  acquire_start-IsExclusive at = record {
    one = λ a b x y. ground (arith, at, h.one a b);
    locked = λ a x. ground (arith, at, h.locked a);
    holder = λ a x. ground (arith, at, h.holder a);
    masked = λ a x. ground (arith, at, h.masked a);
  }

  acquire_round-taken : s.place c ≡ trying → s.lock.locked ≡ false → IsExclusive (acquire_round c s)
  unfolding acquire_round
  acquire_round-taken at free = rw free (record {
    one = λ a b x y. ground (arith, at, free, h.locked a, h.locked b);
    locked = λ a x. refl;
    holder = λ a x. ground (arith, at, h.holder a);
    masked = λ a x. ground (arith, at, h.masked a, h.masked c);
  })

  acquire_round-waits : s.lock.locked ≡ true → IsExclusive (acquire_round c s)
  unfolding acquire_round
  acquire_round-waits busy =
      rw busy (record { one = h.one; locked = λ a x. refl; holder = h.holder; masked = h.masked })

  acquire_end-IsExclusive : s.place c ≡ taken → IsExclusive (acquire_end c s)
  unfolding acquire_end
  acquire_end-IsExclusive at = record {
    one = λ a b x y. ground (arith, at, h.one a b, h.one a c, h.one c b);
    locked = λ a x. ground (arith, at, h.locked a, h.locked c);
    holder = λ a x. ground (arith, at, h.one a c);
    masked = λ a x. ground (arith, at, h.masked a, h.masked c);
  }

  release_start-IsExclusive : s.place c ≡ holding → IsExclusive (release_start c s)
  unfolding release_start
  release_start-IsExclusive at = record {
    one = λ a b x y. ground (arith, at, h.one a b, h.one a c, h.one c b);
    locked = λ a x. ground (arith, at, h.locked a, h.locked c);
    holder = λ a x. ground (arith, at, h.one a c);
    masked = λ a x. ground (arith, at, h.masked a, h.masked c);
  }

  release_lock-IsExclusive : s.place c ≡ leaving → IsExclusive (release_lock c s)
  unfolding release_lock
  release_lock-IsExclusive at = record {
    one = λ a b x y. ground (arith, at, h.one a b);
    locked = λ a x. ground (arith, at, h.one a c);
    holder = λ a x. ground (arith, at, h.holder a);
    masked = λ a x. ground (arith, at, h.masked a, h.masked c);
  }

  release_end-IsExclusive : s.place c ≡ freed → IsExclusive (release_end c s)
  unfolding release_end
  release_end-IsExclusive at = record {
    one = λ a b x y. ground (arith, at, h.one a b);
    locked = λ a x. ground (arith, at, h.locked a);
    holder = λ a x. ground (arith, at, h.holder a);
    masked = λ a x. ground (arith, at, h.masked a);
  }

  step-at : (q : Place) → s.place c ≡ q → IsExclusive (step c s)
  unfolding step
  step-at outside at = rw (step, at) (acquire_start-IsExclusive at)
  step-at trying at = elim (Bool-cases s.lock.locked) [
    | inl busy ↦ rw (step, at) (acquire_round-waits busy)
    | inr free ↦ rw (step, at) (acquire_round-taken at free)
  ]
  step-at taken at = rw (step, at) (acquire_end-IsExclusive at)
  step-at holding at = rw (step, at) (release_start-IsExclusive at)
  step-at leaving at = rw (step, at) (release_lock-IsExclusive at)
  step-at freed at = rw (step, at) (release_end-IsExclusive at)

-- However the steps of the CPUs are ordered: at most one CPU is between its exchange in `acquire` and the
-- store that frees the lock in `release`, and then the lock is marked as taken; between the
-- two functions `lk->p` names the CPU that is there; and interrupts are masked on every CPU from the
-- start of `acquire` to the end of `release`.
pub Reachable-IsExclusive : (s : Cpus) → Reachable s → IsExclusive s
unfolding start
Reachable-IsExclusive s begin = record {
  one = λ a b x y. absurd (ground (arith, x));
  locked = λ a x. absurd (ground (arith, x));
  holder = λ a x. absurd (ground (arith, x));
  masked = λ a x. absurd (ground (arith, x));
}
Reachable-IsExclusive s (moves {s = s'} c r) =
    step-at s' c (Reachable-IsExclusive s' r) (s'.place c) refl
