-- ===== src/Kmem/Count.antt =====
-- `countkmem` (kernel/kalloc.c) against the length of the free list, and a page freed twice.
use gcgos.Base.{
  ℕ, zero, suc, ◌+◌, ◌<◌, ◌≡◌, refl, List, [], ◌∷◌, arith, length, Op, ok, undefined, ◌>>=◌, ◌>>◌,
  pure, write,
}
use gcgos.Kmem.{Kmem, kfree, kalloc, count_from, countkmem}
use gcgos.Kmem.FreeList.{IsPage, Chain, nil, cons, FreeList, null_of, head_of}

count_from-Chain :
    (fuel i : ℕ) (k : Kmem) {p q : ℕ} (ps : List ℕ)
    → Chain k.kend k.word q ps
    → k.word p ≡ q
    → length ps < fuel
    → count_from fuel i p k ≡ i + length ps
unfolding count_from
count_from-Chain zero i k ps c e h = absurd (omega arith)
count_from-Chain (suc fuel) i k [] nil e h = ground arith
count_from-Chain (suc fuel) i k (q ∷ ps) (cons page fresh rest) e h =
    ground (arith, page.not_null, count_from-Chain fuel (i + 1) k {p = q} ps rest refl)

-- On a free list of pages `p ∷ ps`, with fuel above the length of `ps`, `countkmem` returns the
-- length of `ps`: one less than the list's.
countkmem-length :
    (fuel : ℕ) (k : Kmem) (p : ℕ) (ps : List ℕ)
    → FreeList k (p ∷ ps)
    → length ps < fuel
    → countkmem fuel k ≡ ok (length ps) k
unfolding countkmem
countkmem-length fuel k p ps list h =
    let (e, page, fresh, rest) = head_of list in
    rw e (ground (arith, page.not_null, count_from-Chain fuel 0 k {p = p} ps rest refl))

-- With no free page it reads `next` through NULL.
pub countkmem-nil : (fuel : ℕ) (k : Kmem) → FreeList k [] → countkmem fuel k ≡ undefined
unfolding countkmem
countkmem-nil fuel k list = ground (arith, null_of list)

-- Two calls of `kalloc` in a row.
abbrev pub kalloc_pair : Op Kmem (ℕ × ℕ)
kalloc_pair = do a ← kalloc; b ← kalloc; pure (a, b)

-- A page of the range that is freed twice is handed out by each of the next two calls of `kalloc`.
kfree_twice :
    (k : Kmem) (pa : ℕ)
    → IsPage k.kend pa
    → (k' : Kmem) × ((kfree pa >> kfree pa >> kalloc_pair) k ≡ ok (pa, pa) k')
unfolding kfree kalloc
kfree_twice k pa page = (
  record k { word = write (write k.word pa k.freelist) pa pa; freelist = pa },
  ground (arith, page.aligned, page.above, page.below, page.not_null),
)
