-- ===== src/Kmem/Stack.antt =====
-- kernel/kalloc.c as the implementation of a stack of pages.
use gcgos.Base.{ℕ, ◌≡◌, ◌∙◌, refl, false, List, [], ◌∷◌, write, Op, ok, pure, modify, ◌>>=◌, ◌>>◌}
use gcgos.Kmem.{Kmem, kfree, kalloc}
use gcgos.Kmem.FreeList.{
  has, IsPage, FreeList, FreeList-write, kfree-FreeList, kalloc-FreeList, kalloc-null,
}

-- What happens to the allocator: its calls, and the writes of words by the pages' owners.
pub data PageOp : Type 0 where
  alloc : PageOp
  free : ℕ → PageOp
  store : (a v : ℕ) → PageOp

-- The abstract allocator above `kend`: a stack of pages, from which `alloc` pops, or gives 0 when it is
-- empty, and onto which `free` pushes a page that is not there. No word that heads a page of the stack
-- is written. `Stacks kend ops ps rs qs`: from the stack `ps` the operations `ops` come to the stack
-- `qs`, with the results `rs` of the `alloc`s.
pub data Stacks (kend : ℕ) : List PageOp → List ℕ → List ℕ → List ℕ → Type 0 where
  done : {ps : List ℕ} → Stacks kend [] ps [] ps
  pop :
      {p : ℕ} {ps rs qs : List ℕ} {ops : List PageOp}
      → Stacks kend ops ps rs qs
      → Stacks kend (PageOp.alloc ∷ ops) (p ∷ ps) (p ∷ rs) qs
  pop_empty :
      {rs qs : List ℕ} {ops : List PageOp}
      → Stacks kend ops [] rs qs
      → Stacks kend (PageOp.alloc ∷ ops) [] (0 ∷ rs) qs
  push :
      {p : ℕ} {ps rs qs : List ℕ} {ops : List PageOp}
      → IsPage kend p
      → has p ps ≡ false
      → Stacks kend ops (p ∷ ps) rs qs
      → Stacks kend (PageOp.free p ∷ ops) ps rs qs
  stored :
      {a v : ℕ} {ps rs qs : List ℕ} {ops : List PageOp}
      → has a ps ≡ false
      → Stacks kend ops ps rs qs
      → Stacks kend (PageOp.store a v ∷ ops) ps rs qs

-- The operations on memory, with the results of the `kalloc`s.
unfoldable pub run_pages : List PageOp → Op Kmem (List ℕ)
run_pages [] = pure []
run_pages (PageOp.alloc ∷ ops) = do p ← kalloc; rs ← run_pages ops; pure (p ∷ rs)
run_pages (PageOp.free p ∷ ops) = kfree p >> run_pages ops
run_pages (PageOp.store a v ∷ ops) = do
  modify λ k. record k { word = write k.word a v }
  run_pages ops

-- `kalloc` and `kfree` implement the stack. From any memory whose free list is the stack `ps`, every
-- sequence of operations that leads the stack to `qs` with the results `rs` runs to its end on the
-- memory with the same results, and the free list is then `qs`.
pub run_pages-Stacks :
    (kend : ℕ) (k : Kmem) {ops : List PageOp} {ps rs qs : List ℕ}
    → Stacks kend ops ps rs qs
    → k.kend ≡ kend
    → FreeList k ps
    → (k' : Kmem) × (run_pages ops k ≡ ok rs k') × FreeList k' qs × (k'.kend ≡ kend)
unfolding run_pages
run_pages-Stacks kend k done same list = (k, refl, list, same)
run_pages-Stacks kend k (pop {p} {ps} steps) same list =
    let (k1, run, list1, page, fresh, words, kept) = kalloc-FreeList k p ps list in
    let (k', run', list', same') = run_pages-Stacks kend k1 steps (kept ∙ same) list1 in
    (k', rw (run, run') refl, list', same')
run_pages-Stacks kend k (pop_empty steps) same list =
    let (k', run', list', same') = run_pages-Stacks kend k steps same list in
    (k', rw (kalloc-null k list, run') refl, list', same')
run_pages-Stacks kend k (push {p} {ps} page fresh steps) same list =
    let (k1, run, list1, same1) = kfree-FreeList k ps p list (rw same page) fresh in
    let (k', run', list', same') = run_pages-Stacks kend k1 steps (same1 ∙ same) list1 in
    (k', rw (run, run') refl, list', same')
run_pages-Stacks kend k (stored {a} {v} out steps) same list =
    run_pages-Stacks kend (record k { word = write k.word a v }) steps same
      (FreeList-write k a v out list)
