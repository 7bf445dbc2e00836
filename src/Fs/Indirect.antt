-- ===== src/Fs/Indirect.antt =====
-- `bmap` of kernel/fs.c behind the direct blocks: what it reads, and the buffer that it keeps.
use gcgos.Base.{
  ℕ, zero, suc, ◌+◌, ◌-◌, ◌*◌, ◌≤◌, ◌<◌, ◌≡◌, inl, inr, refl, some, arith, Op, ok, spinning, pure,
  get_elem?, get32, get_elem?-set_self, lt_of_get_elem?, ap, ◌∙◌, ◌>>◌,
}
use gcgos.Kernel.{Buf, Inode, Kernel}
use gcgos.Fs.Layout.{ndirect}
use gcgos.Fs.Bio.{bread, put_buf}
use gcgos.Fs.Bio.Laws.{
  free_bufs, IsFirst, IsFirst-cases, filled, bread-IsFirst, bread-spinning, free_bufs-set,
}
use gcgos.Fs.Inodes.{bmap}

module _ (k : Kernel) (i : ℕ) (ip : Inode) (at : get_elem? k.inodes i ≡ some ip) where
  -- A direct block is the inode's own entry, and nothing is read.
  pub bmap_direct : (bn : ℕ) → bn < ndirect → bmap i bn k ≡ ok (ip.addrs bn) k
  unfolding bmap
  bmap_direct bn h = ground arith

  -- With a free buffer, for block `bn` behind the first indirect one and at most `NDIRECT` + 128,
  -- `bmap` gives the entry before the one at `bn - NDIRECT` of the indirect block, and one buffer
  -- fewer is free; the inodes stay.
  bmap_indirect :
      (bn j : ℕ) (b : Buf)
      → IsFirst k.bufs j b
      → ndirect < bn
      → bn ≤ ndirect + 128
      → (k' : Kernel) × (bmap i bn k
          ≡ ok (get32 (k.card (ip.addrs ndirect)) (4 * (bn - ndirect - 1))) k')
        × (free_bufs k'.bufs + 1 ≡ free_bufs k.bufs)
        × (k'.inodes ≡ k.inodes)
  unfolding bmap
  bmap_indirect bn j b h lo hi =
      let f = filled k (ip.addrs ndirect) in
      let again = get_elem?-set_self k.bufs j f (lt_of_get_elem? k.bufs j h.found) in
      (
        put_buf j f k,
        ground (arith, bread-IsFirst k (ip.addrs ndirect) j b h, again),
        free_bufs-set k.bufs j b f h.found h.idle refl,
        refl,
      )

-- `n` reads of indirect blocks of one inode.
pub bmap_times : (n i bn : ℕ) → Op Kernel (Unit {0})
bmap_times zero i bn = pure tt
bmap_times (suc n) i bn = bmap i bn >> bmap_times n i bn

-- After as many calls of `bmap` for an indirect block as there were free buffers, `bread` spins for
-- every sector.
bmap_exhausts :
    (n : ℕ) (k : Kernel) (i : ℕ) (ip : Inode) (bn : ℕ)
    → get_elem? k.inodes i ≡ some ip
    → ndirect < bn
    → bn ≤ ndirect + 128
    → free_bufs k.bufs ≡ n
    → (sector : ℕ) → (bmap_times n i bn >> bread sector) k ≡ spinning
unfolding bmap_times
bmap_exhausts zero k i ip bn at lo hi none sector = bread-spinning k sector none
bmap_exhausts (suc n) k i ip bn at lo hi some_free sector = elim (IsFirst-cases k.bufs) [
  | inl none ↦ absurd (omega arith)
  | inr (j, b, h) ↦
      let (k', run, fewer, same) = bmap_indirect k i ip at bn j b h lo hi in
      let rest =
        bmap_exhausts n k' i ip bn (ap (λ l. get_elem? l i) same ∙ at) lo hi (omega arith) sector in
      rw run rest
]
