-- ===== src/Kmem/FreeList.antt =====
-- The free list as a list of distinct pages, and what `kfree` and `kalloc` do to it.
use gcgos.Base.{
  ℕ, ◌%◌, ◌≤◌, ◌<◌, ◌≡◌, ◌≢◌, ◌⊎◌, refl, Bool, false, ◌||◌, List, [], ◌∷◌, arith, ◌==◌, write, ok,
  panicked, Panic,
}
use gcgos.Kmem.{Kmem, kfree, kalloc, phys_top, pg_size}

-- `a` is one of the pages.
abbrev pub has : ℕ → List ℕ → Bool
has a [] = false
has a (p ∷ ps) = (a == p) || has a ps

-- The test of `kfree`, and that the page is not NULL.
pub record IsPage (kend p : ℕ) : Type 0 where
  pub aligned : p % pg_size ≡ 0
  pub above : kend ≤ p
  pub below : p < phys_top
  pub not_null : p ≢ 0

-- From `p` the words lead through the distinct pages `ps` to NULL.
pub data Chain (kend : ℕ) (word : ℕ → ℕ) : ℕ → List ℕ → Type 0 where
  nil : Chain kend word 0 []
  cons :
      {p : ℕ} {ps : List ℕ}
      → IsPage kend p
      → has p ps ≡ false
      → Chain kend word (word p) ps
      → Chain kend word p (p ∷ ps)

-- The free list of `k` is `ps`, newest first.
abbrev pub FreeList : Kmem → List ℕ → Type 0
FreeList k ps = Chain k.kend k.word k.freelist ps

module _ {kend : ℕ} {word : ℕ → ℕ} where
  -- A write to a word that heads no page of the list leaves the list as it is.
  pub Chain-write :
      {p : ℕ} {ps : List ℕ} (a v : ℕ)
      → has a ps ≡ false
      → Chain kend word p ps
      → Chain kend (write word a v) p ps
  Chain-write a v out nil = nil
  Chain-write a v out (cons {p} {ps} page fresh rest) =
      let same : write word a v p ≡ word p = ground arith in
      cons page fresh (rw same (Chain-write a v (ground arith) rest))

-- A word inside a page that is not on the list may be written freely by the page's owner.
pub FreeList-write :
    (k : Kmem) {ps : List ℕ} (a v : ℕ)
    → has a ps ≡ false
    → FreeList k ps
    → FreeList (record k { word = write k.word a v }) ps
FreeList-write k a v out list = Chain-write a v out list

-- `kfree` of a page of the range that is not on the free list puts it in front of the list, which
-- stays a chain of distinct pages that ends in NULL.
pub kfree-FreeList :
    (k : Kmem) (ps : List ℕ) (pa : ℕ)
    → FreeList k ps
    → IsPage k.kend pa
    → has pa ps ≡ false
    → (k' : Kmem) × (kfree pa k ≡ ok tt k') × FreeList k' (pa ∷ ps) × (k'.kend ≡ k.kend)
unfolding kfree
kfree-FreeList k ps pa list page fresh =
    let self : write k.word pa k.freelist pa ≡ k.freelist = ground arith in
    (
      record k { word = write k.word pa k.freelist; freelist = pa },
      ground arith,
      cons page fresh (rw self (Chain-write pa k.freelist fresh list)),
      refl,
    )

-- `kfree` refuses every address that is not a page of its range.
pub kfree-panics :
    (k : Kmem) (pa : ℕ)
    → (pa % pg_size ≢ 0) ⊎ (pa < k.kend) ⊎ (phys_top ≤ pa)
    → kfree pa k ≡ panicked Panic.kfree
unfolding kfree
kfree-panics k pa h = ground arith

module _ {kend : ℕ} {word : ℕ → ℕ} where
  pub head_of :
      {p q : ℕ} {ps : List ℕ}
      → Chain kend word p (q ∷ ps)
      → (p ≡ q) × IsPage kend q × (has q ps ≡ false) × Chain kend word (word q) ps
  head_of (cons page fresh rest) = (refl, page, fresh, rest)

  pub null_of : {p : ℕ} → Chain kend word p [] → p ≡ 0
  null_of nil = refl

-- On a free list that is not empty `kalloc` returns its first page, which is a page of the range;
-- the list is then the rest, in which that page does not occur; no memory and no bound has changed.
pub kalloc-FreeList :
    (k : Kmem) (p : ℕ) (ps : List ℕ)
    → FreeList k (p ∷ ps)
    → (k' : Kmem) × (kalloc k ≡ ok p k')
      × FreeList k' ps
      × IsPage k.kend p
      × (has p ps ≡ false)
      × (k'.word ≡ k.word)
      × (k'.kend ≡ k.kend)
unfolding kalloc
kalloc-FreeList k p ps list =
    let (e, page, fresh, rest) = head_of list in
    (
      record k { freelist = k.word p },
      rw e (ground (arith, page.not_null)),
      rest,
      page,
      fresh,
      refl,
      refl,
    )

-- On an empty list `kalloc` returns NULL and changes nothing.
pub kalloc-null : (k : Kmem) → FreeList k [] → kalloc k ≡ ok 0 k
unfolding kalloc
kalloc-null k list = ground (arith, null_of list)
