-- ===== src/Kmem/Range.antt =====
-- `freerange` and `kinit` (kernel/kalloc.c): every page of the range goes on the free list once.
use gcgos.Base.{
  ℕ, zero, suc, ◌+◌, ◌*◌, ◌/◌, ◌%◌, ◌≤◌, ◌<◌, ◌≡◌, refl, true, false, inl, inr, List, [], ◌∷◌,
  arith, leb, length, All, Bool-cases, ok, ap, ◌∙◌,
}
use gcgos.Kmem.{Kmem, kfree, free_pages, freerange, kinit, phys_top, pg_size, pg_round_up}
use gcgos.Kmem.FreeList.{has, IsPage, nil, FreeList, kfree-FreeList}

-- No page from `p` on is on the list.
has-below : (p a : ℕ) (ps : List ℕ) → All (λ q. q < p) ps → p ≤ a → has a ps ≡ false
has-below p a [] below h = refl
has-below p a (q ∷ ps) below h = ground (arith, has-below p a ps below.1 h)

All-lt : (p q : ℕ) (ps : List ℕ) → p ≤ q → All (λ x. x < p) ps → All (λ x. x < q) ps
All-lt p q [] h below = tt
All-lt p q (x ∷ ps) h below = (omega arith, All-lt p q ps h below.1)

-- What the loop leaves, from a list `ps` of pages below `p`.
record Freed (i p stop : ℕ) (k : Kmem) (ps : List ℕ) (fuel : ℕ) : Type 0 where
  count : ℕ
  final : ℕ
  after : Kmem
  free : List ℕ
  run : free_pages fuel i p stop k ≡ ok (i + count, final) after
  list : FreeList after free
  size : length free ≡ count + length ps
  same_end : after.kend ≡ k.kend
  kept : (a : ℕ) → has a ps ≡ true → has a free ≡ true
  covered : (a : ℕ) → a % pg_size ≡ 0 → p ≤ a → a + pg_size ≤ stop → has a free ≡ true

-- One round, and what the rest leaves.
Freed-step :
    (i p stop : ℕ) (k : Kmem) (ps : List ℕ) (fuel : ℕ) (k' : Kmem)
    → kfree p k ≡ ok tt k'
    → leb (p + pg_size) stop ≡ true
    → p % pg_size ≡ 0
    → k'.kend ≡ k.kend
    → Freed (i + 1) (p + pg_size) stop k' (p ∷ ps) fuel
    → Freed i p stop k ps (suc fuel)
unfolding free_pages
Freed-step i p stop k ps fuel k' freed more al same f = record {
  count = suc f.count;
  final = f.final;
  after = f.after;
  free = f.free;
  run = rw (more, freed, f.run) (ap (λ (n : ℕ). ok (n, f.final) f.after) (omega arith));
  list = f.list;
  size = omega (arith, f.size);
  same_end = f.same_end ∙ same;
  kept = λ a h. f.kept a (ground arith);
  covered = λ a al' h h'. ground (arith, f.kept a, f.covered a);
}

free_pages-Freed :
    (fuel i p stop : ℕ) (k : Kmem) (ps : List ℕ)
    → FreeList k ps
    → All (λ q. q < p) ps
    → p % pg_size ≡ 0
    → k.kend ≤ p
    → 0 < k.kend
    → stop ≤ phys_top
    → stop < p + fuel * pg_size
    → Freed i p stop k ps fuel
unfolding free_pages
free_pages-Freed zero i p stop k ps list below al lo pos hi enough = record {
  count = 0;
  final = p;
  after = k;
  free = ps;
  run = ground arith;
  list = list;
  size = omega arith;
  same_end = refl;
  kept = λ a h. h;
  covered = λ a _ h h'. absurd (omega arith);
}
free_pages-Freed (suc fuel) i p stop k ps list below al lo pos hi enough =
    elim (Bool-cases (leb (p + pg_size) stop)) [
      | inl more ↦
          let page : IsPage k.kend p = record {
            aligned = al;
            above = lo;
            below = ground arith;
            not_null = omega arith;
          } in
          let (k', freed, list', same) =
            kfree-FreeList k ps p list page (has-below p p ps below (omega arith)) in
          Freed-step i p stop k ps fuel k' freed more al same (
            free_pages-Freed fuel (i + 1) (p + pg_size) stop k' (p ∷ ps) list'
              (omega arith, All-lt p (p + pg_size) ps (omega arith) below) (omega arith)
              (omega arith) (omega arith) hi (omega arith))
      | inr done ↦ record {
        count = 0;
        final = p;
        after = k;
        free = ps;
        run = rw done (ground arith);
        list = list;
        size = omega arith;
        same_end = refl;
        kept = λ a h. h;
        covered = λ a _ h h'. ground arith;
      }
    ]

-- From an empty list, with `end` not 0 and at most `PHYSTOP`, `kinit` returns, and its free list
-- holds every page from `end` up to `PHYSTOP`, each once; the count returned is the list's length,
-- and `end` stays.
pub kinit-FreeList :
    (k : Kmem)
    → k.freelist ≡ 0
    → 0 < k.kend
    → k.kend ≤ phys_top
    → (n last : ℕ) × (k' : Kmem) × (ps : List ℕ) × (kinit k ≡ ok (n, last) k')
      × (k'.kend ≡ k.kend)
      × FreeList k' ps
      × (length ps ≡ n)
      × ((a : ℕ) → IsPage k.kend a → has a ps ≡ true)
unfolding kinit freerange
kinit-FreeList k empty pos fits =
    let f =
      free_pages-Freed (phys_top / pg_size + 1) 0 (pg_round_up k.kend) phys_top k [] (rw empty nil)
        tt (omega arith) (omega arith) pos (omega arith) (omega arith) in
    (
      f.count,
      f.final,
      f.after,
      f.free,
      f.run ∙ ap (λ (n : ℕ). ok (n, f.final) f.after) (omega arith),
      f.same_end,
      f.list,
      omega (arith, f.size),
      λ a page.
          f.covered a page.aligned (ground (arith, page.above, page.aligned))
            (ground (arith, page.below, page.aligned)),
    )
