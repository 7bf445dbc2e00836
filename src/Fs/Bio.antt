-- ===== src/Fs/Bio.antt =====
-- kernel/bio.c: ten buffers, none of them a cache. The card answers every request (the callers
-- look at no result of the driver), and `dev` is not used. `buf_talbe_lock` is taken and released
-- within each function, so it is not kept in the state.
pub mod Laws
use gcgos.Base.{
  ℕ, zero, suc, ◌+◌, Bool, true, false, Option, none, some, List, [], ◌∷◌, Op, ok, spinning,
  undefined, pure, modify, ◌>>=◌, ◌>>◌, if◌then◌else◌, set, write, get_elem?,
}
use gcgos.Kernel.{Buf, Kernel, entry}

-- The loop of `getblk`, from the buffer at index `i` on.
unfoldable pub first_free : ℕ → List Buf → Option ℕ
first_free i [] = none
first_free i (b ∷ bs) = let rest = first_free (i + 1) bs in if b.busy then rest else some i

abbrev pub buf_at : ℕ → Op Kernel Buf
buf_at = entry (λ k. k.bufs)

abbrev pub put_buf : ℕ → Buf → Kernel → Kernel
put_buf i b k = record k { bufs = set k.bufs i b }

-- `getblk`: with every buffer busy the loop goes on for ever, interrupts off and the lock held.
unfoldable pub getblk : Op Kernel ℕ
unfolding first_free
getblk k = elim (first_free 0 k.bufs) [
  | none ↦ spinning
  | some i ↦ (do b ← buf_at i; modify (put_buf i (record b { busy = true })); pure i) k
]

-- `bread`
unfoldable pub bread : ℕ → Op Kernel ℕ
unfolding getblk
bread sector = do
  i ← getblk
  b ← buf_at i
  modify (λ k. put_buf i (record b { bytes = k.card sector }) k)
  pure i

-- `bwrite`
unfoldable pub bwrite : ℕ → ℕ → Op Kernel (Unit {0})
bwrite i sector = do b ← buf_at i; modify (λ k. record k { card = write k.card sector b.bytes })

-- `brelse`
unfoldable pub brelse : ℕ → Op Kernel (Unit {0})
brelse i = do b ← buf_at i; modify (put_buf i (record b { busy = false }))
