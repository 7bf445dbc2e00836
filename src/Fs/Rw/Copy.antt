-- ===== src/Fs/Rw/Copy.antt =====
-- The byte loops of `readi` and `writei` (kernel/fs.c), between memory and a buffer.
use gcgos.Base.{
  among, among_step, ℕ, zero, suc, ◌+◌, ◌-◌, ◌%◌, ◌≡◌, ◌∙◌, if◌then◌else◌, arith, write, Bytes,
  load8, store8, load8-store8,
}
use gcgos.Fs.Rw.{copy_out, copy_in}

pub copy_in_at :
    (n src o : ℕ) (w : ℕ → ℕ) (m : Bytes) (x : ℕ)
    → copy_in n src o w m x ≡ (if among o n x then load8 w (src + (x - o)) else m x)
unfolding copy_in
copy_in_at zero src o w m x = ground arith
copy_in_at (suc n) src o w m x =
    copy_in_at n (src + 1) (o + 1) w (write m o (load8 w src)) x
    ∙ among_step n o src x _ (m x) (load8 w) (λ e. ground arith) (λ ne. ground arith)

pub copy_out_at :
    (n o dst : ℕ) (m : Bytes) (w : ℕ → ℕ) (x : ℕ)
    → load8 (copy_out n o dst m w) x
      ≡ (if among dst n x then m (o + (x - dst)) % 256 else load8 w x)
unfolding copy_out
copy_out_at zero o dst m w x = ground arith
copy_out_at (suc n) o dst m w x =
    copy_out_at n (o + 1) (dst + 1) m (store8 w dst (m o)) x
    ∙ among_step n dst o x _ (load8 w x) (λ y. m y % 256)
        (λ e. load8-store8 w dst x (m o) ∙ ground arith)
        (λ ne. load8-store8 w dst x (m o) ∙ ground arith)
