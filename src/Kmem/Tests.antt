-- ===== src/Kmem/Tests.antt =====
-- Runs of kernel/kalloc.c on a small memory, and the theorems at concrete inputs.
use gcgos.Base.{
  ℕ, ◌⊎◌, ◌≡◌, refl, true, List, [], ◌∷◌, arith, length, ok, ◌>>◌, Outcome, Option, some, none,
  write, false,
}
use gcgos.Kmem.{Kmem, kalloc, kinit}
use gcgos.Kmem.FreeList.{has, IsPage, nil, cons, FreeList}
use gcgos.Kmem.Stack.{
  PageOp, Stacks, done, pop, pop_empty, push, stored, run_pages, run_pages-Stacks,
}
use gcgos.Kmem.Range.{kinit-FreeList}
use gcgos.Kmem.Owners.{Reachable, Sound, start, take, Reachable-Sound, kalloc-Reachable}
use gcgos.Kmem.Count.{kalloc_pair}

-- A kernel that ends two pages below `PHYSTOP`.
abbrev small : Kmem
small = record { word = λ _. 7; freelist = 0; kend = 134733824 }

abbrev page : ℕ
page = 134737920

abbrev freed : Kmem
freed = record small { word = write small.word page 0; freelist = page }

pub page-IsPage : IsPage 134733824 page
page-IsPage = record {
  aligned = refl;
  above = omega arith;
  below = omega arith;
  not_null = omega arith;
}

freed-FreeList : FreeList freed (page ∷ [])
freed-FreeList = cons page-IsPage refl nil

value : {S A : Type 0} → Outcome S A → Option A
value (ok a s) = some a
value _ = none

-- Both pages come back, the later one first, and then NULL.
two_pages : value ((kinit >> kalloc_pair) small) ≡ some (134737920, 134733824)
unfolding kinit kalloc value
two_pages = refl

kinit-FreeList_example :
    (n last : ℕ) × (k' : Kmem) × (ps : List ℕ) × (kinit small ≡ ok (n, last) k')
    × (k'.kend ≡ small.kend)
    × FreeList k' ps
    × (length ps ≡ n)
    × ((a : ℕ) → IsPage small.kend a → has a ps ≡ true)
kinit-FreeList_example = kinit-FreeList small refl (omega arith) (omega arith)

-- What `kinit` makes of it, and a page taken.
abbrev started : Kmem
started = record {
  word = write (write small.word 134733824 0) page 134733824;
  freelist = page;
  kend = 134733824;
}

abbrev one_taken : Kmem
one_taken = record started { freelist = 134733824 }

kinit-small : kinit small ≡ ok (2, 134742016) started
unfolding kinit
kinit-small = refl

kalloc-started : kalloc started ≡ ok page one_taken
unfolding kalloc
kalloc-started = refl

reached : Reachable 134733824 one_taken (write (λ _. false) page true)
reached =
    take started (start small refl refl (omega arith) (omega arith) kinit-small) kalloc-started
      (omega arith)

Reachable-Sound_example : Sound 134733824 one_taken (write (λ _. false) page true)
Reachable-Sound_example = Reachable-Sound reached

kalloc-Reachable_example :
    ((p : ℕ) × (k' : Kmem) × (kalloc one_taken ≡ ok p k')
      × IsPage 134733824 p
      × (write (λ _. false) page true p ≡ false))
    ⊎ ((kalloc one_taken ≡ ok 0 one_taken)
        × ((p : ℕ) → IsPage 134733824 p → write (λ _. false) page true p ≡ true))
kalloc-Reachable_example = kalloc-Reachable one_taken reached

-- The first page is freed, written by nobody, and taken; then the list is empty.
page_steps :
    Stacks 134733824
      (PageOp.free page ∷ PageOp.store 64 5 ∷ PageOp.alloc ∷ PageOp.alloc ∷ [])
      []
      (page ∷ 0 ∷ [])
      []
page_steps = push page-IsPage refl (stored refl (pop (pop_empty done)))

run_pages-Stacks_example :
    (k' : Kmem) × (run_pages
        (PageOp.free page ∷ PageOp.store 64 5 ∷ PageOp.alloc ∷ PageOp.alloc ∷ [])
        small
      ≡ ok (page ∷ 0 ∷ []) k')
    × FreeList k' []
    × (k'.kend ≡ 134733824)
run_pages-Stacks_example = run_pages-Stacks 134733824 small page_steps refl nil
