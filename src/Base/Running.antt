-- ===== src/Base/Running.antt =====
-- How a kernel function ends, over a state `S`, and functions in sequence.

-- The calls of `panic` that the model meets, by the function that makes them; and the two exits of
-- mkfs, of `rsect` and of `assert`.
pub data Panic : Type 0 where
  kfree walk mappages_va mappages_size mappages_zero mappages_remap kvmmap : Panic
  balloc iget writei_maxfile writei_type mknod fd_write kexec sys_unlink syscall : Panic
  kerneltrap_sync kerneltrap_irq usertrap_irq get_entry mkfs_rsect mkfs_assert : Panic

-- `switched` is a call of `sched`: the CPU is back in the scheduler, and the function goes on when
-- its process is next dispatched. `spinning` is a loop that nothing on this CPU ends. `undefined`
-- is an access outside its object, through NULL, or a read that C leaves undefined.
pub data Outcome (S A : Type 0) : Type 0 where
  ok : A → S → Outcome S A
  switched : S → Outcome S A
  panicked : Panic → Outcome S A
  spinning : Outcome S A
  undefined : Outcome S A

abbrev pub Op : Type 0 → Type 0 → Type 0
Op S A = S → Outcome S A

module _ {S A B : Type 0} where
  abbrev pub and_then : Outcome S A → (A → Op S B) → Outcome S B
  and_then (ok a s) k = k a s
  and_then (switched s) k = switched s
  and_then (panicked p) k = panicked p
  and_then spinning k = spinning
  and_then undefined k = undefined

  infixl 5 ◌>>=◌ ◌>>◌
  abbrev pub ◌>>=◌ : Op S A → (A → Op S B) → Op S B
  ◌>>=◌ m k s = and_then (m s) k

  abbrev pub ◌>>◌ : Op S A → Op S B → Op S B
  m >> k = m >>= λ _. k

module _ {S : Type 0} where
  abbrev pub pure : {A : Type 0} → A → Op S A
  pure a s = ok a s

  abbrev pub modify : (S → S) → Op S (Unit {0})
  modify f s = ok tt (f s)

  abbrev pub gets : {A : Type 0} → (S → A) → Op S A
  gets f s = ok (f s) s

  abbrev pub stop : {A : Type 0} → Panic → Op S A
  stop p s = panicked p

  abbrev pub fault : {A : Type 0} → Op S A
  fault s = undefined

-- An operation on a part of the state.
module _ {S T A : Type 0} where
  abbrev pub within : (S → T → S) → S → Outcome T A → Outcome S A
  within put s (ok a t) = ok a (put s t)
  within put s (switched t) = switched (put s t)
  within put s (panicked p) = panicked p
  within put s spinning = spinning
  within put s undefined = undefined

  abbrev pub zoom : (S → T) → (S → T → S) → Op T A → Op S A
  zoom get put m s = within put s (m (get s))
