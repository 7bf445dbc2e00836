-- ===== src/Kmem/Owners.antt =====
-- Runs of kernel/kalloc.c with the pages' owners: who holds a page that `kalloc` has given out, and
-- may write to it and give it back by `kfree`.
use gcgos.Base.{
  ℕ, ◌+◌, ◌≤◌, ◌<◌, ◌≡◌, ◌≢◌, ◌⊎◌, inl, inr, Bool, true, false, List, [], ◌∷◌, arith, ◌==◌, write,
  ok, Bool-cases, sym, ◌∙◌,
}
use gcgos.Kmem.{Kmem, kfree, kalloc, kinit, phys_top, pg_size}
use gcgos.Kmem.FreeList.{
  has, IsPage, Chain, nil, cons, FreeList, FreeList-write, kfree-FreeList, kalloc-FreeList,
  kalloc-null, head_of,
}
use gcgos.Kmem.Range.{kinit-FreeList}

-- The states that the kernel reaches from `kinit` on, with the pages that are owned: a page is owned
-- from the `kalloc` that returns it to its `kfree`, and its words are written by its owner only.
pub data Reachable (kend : ℕ) : Kmem → (ℕ → Bool) → Type 0 where
  start :
      (k : Kmem) {k' : Kmem} {r : ℕ × ℕ}
      → k.freelist ≡ 0
      → k.kend ≡ kend
      → 0 < kend
      → kend ≤ phys_top
      → kinit k ≡ ok r k'
      → Reachable kend k' (λ _. false)
  take :
      (k : Kmem) {k' : Kmem} {owned : ℕ → Bool} {p : ℕ}
      → Reachable kend k owned
      → kalloc k ≡ ok p k'
      → p ≢ 0
      → Reachable kend k' (write owned p true)
  give :
      (k : Kmem) {k' : Kmem} {owned : ℕ → Bool} {p : ℕ}
      → Reachable kend k owned
      → owned p ≡ true
      → kfree p k ≡ ok tt k'
      → Reachable kend k' (write owned p false)
  use_page :
      (k : Kmem) {owned : ℕ → Bool} (p a v : ℕ)
      → Reachable kend k owned
      → owned p ≡ true
      → p ≤ a
      → a < p + pg_size
      → Reachable kend (record k { word = write k.word a v }) owned

-- Every page of the range is free or owned, and none is both.
pub record Sound (kend : ℕ) (k : Kmem) (owned : ℕ → Bool) : Type 0 where
  pub free : List ℕ
  pub same_end : k.kend ≡ kend
  pub list : FreeList k free
  pub page : (p : ℕ) → owned p ≡ true → IsPage kend p
  pub apart : (p : ℕ) → owned p ≡ true → has p free ≡ false
  pub covered : (p : ℕ) → IsPage kend p → (owned p ≡ true) ⊎ (has p free ≡ true)

eq_of : (a b : ℕ) → (a == b) ≡ true → a ≡ b
eq_of a b h = ground arith

IsPage-end : {kend kend' p : ℕ} → kend ≡ kend' → IsPage kend p → IsPage kend' p
IsPage-end e page = rw (sym e) page

-- A page on the list is a page of the range.
pub has-IsPage :
    {kend p a : ℕ} {word : ℕ → ℕ} (ps : List ℕ)
    → Chain kend word p ps
    → has a ps ≡ true
    → IsPage kend a
has-IsPage [] nil h = absurd (ground arith)
has-IsPage {kend} {p} {a} (q ∷ qs) (cons page fresh rest) h = elim (Bool-cases (a == q)) [
  | inl e ↦ rw (eq_of a q e) page
  | inr ne ↦ has-IsPage qs rest (ground arith)
]

Sound-start :
    {kend : ℕ} (k k' : Kmem) (r : ℕ × ℕ)
    → k.freelist ≡ 0
    → k.kend ≡ kend
    → 0 < kend
    → kend ≤ phys_top
    → kinit k ≡ ok r k'
    → Sound kend k' (λ _. false)
Sound-start {kend} k k' r empty end pos fits run =
    let (n, last, k2, ps, run2, same, list, count, all) =
      kinit-FreeList k empty (omega (arith, end)) (omega (arith, end)) in
    let e : k' ≡ k2 = cc in
    rw e (record {
      free = ps;
      same_end = same ∙ end;
      list = list;
      page = λ p h. absurd (ground arith);
      apart = λ p h. absurd (ground arith);
      covered = λ p page. inr (all p (rw end page));
    })

Sound-take :
    {kend : ℕ} {owned : ℕ → Bool} (k k' : Kmem) (p : ℕ)
    → Sound kend k owned
    → kalloc k ≡ ok p k'
    → p ≢ 0
    → Sound kend k' (write owned p true)
unfolding kalloc
Sound-take {kend} {owned} k k' p s run found = take_from s.free s.list s.apart s.covered
  where
    take_from :
        (free : List ℕ)
        → FreeList k free
        → ((q : ℕ) → owned q ≡ true → has q free ≡ false)
        → ((q : ℕ) → IsPage kend q → (owned q ≡ true) ⊎ (has q free ≡ true))
        → Sound kend k' (write owned p true)
    take_from [] list apart covered = absurd (ground (arith, kalloc-null k list))
    take_from (q ∷ qs) list apart covered =
        let (at, page, fresh, rest) = head_of list in
        let e : k' ≡ record k { freelist = k.word q } = ground arith in
        let same : p ≡ q = ground arith in
        rw e (record {
          free = qs;
          same_end = s.same_end;
          list = rest;
          page = λ a h. elim (Bool-cases (a == p)) [
            | inl hit ↦ rw (eq_of a p hit ∙ same) (IsPage-end s.same_end page)
            | inr miss ↦ s.page a (ground arith)
          ];
          apart = λ a h. elim (Bool-cases (a == p)) [
            | inl hit ↦ rw (eq_of a p hit ∙ same) fresh
            | inr miss ↦ ground (arith, apart a (ground arith))
          ];
          covered = λ a h. elim (Bool-cases (a == p)) [
            | inl hit ↦ inl (ground arith)
            | inr miss ↦ elim (covered a h) [
              | inl o ↦ inl (ground arith)
              | inr f ↦ inr (ground arith)
            ]
          ];
        })

Sound-give :
    {kend : ℕ} {owned : ℕ → Bool} (k k' : Kmem) (p : ℕ)
    → Sound kend k owned
    → owned p ≡ true
    → kfree p k ≡ ok tt k'
    → Sound kend k' (write owned p false)
Sound-give {kend} {owned} k k' p s mine run =
    let page = s.page p mine in
    let (k2, run2, list, same) =
      kfree-FreeList k s.free p s.list (IsPage-end (sym s.same_end) page) (s.apart p mine) in
    let e : k' ≡ k2 = cc in
    rw e (record {
      free = p ∷ s.free;
      same_end = same ∙ s.same_end;
      list = list;
      page = λ a h. s.page a (ground arith);
      apart = λ a h. ground (arith, s.apart a (ground arith));
      covered = λ a h. elim (Bool-cases (a == p)) [
        | inl hit ↦ inr (ground arith)
        | inr miss ↦ elim (s.covered a h) [
          | inl o ↦ inl (ground arith)
          | inr f ↦ inr (ground arith)
        ]
      ];
    })

-- A word of an owned page heads no free page.
word_of_owned :
    {kend : ℕ} {k : Kmem} {owned : ℕ → Bool} (p a : ℕ) (s : Sound kend k owned)
    → owned p ≡ true
    → p ≤ a
    → a < p + pg_size
    → has a s.free ≡ false
word_of_owned p a s mine lo hi = elim (Bool-cases (has a s.free)) [
  | inl h ↦
      let f = has-IsPage s.free s.list h in
      let page = s.page p mine in
      let same : a ≡ p = omega (arith, f.aligned, page.aligned) in
      absurd (ground (arith, s.apart p mine))
  | inr out ↦ out
]

Sound-write :
    {kend : ℕ} {owned : ℕ → Bool} (k : Kmem) (p a v : ℕ)
    → Sound kend k owned
    → owned p ≡ true
    → p ≤ a
    → a < p + pg_size
    → Sound kend (record k { word = write k.word a v }) owned
Sound-write k p a v s mine lo hi = record {
  free = s.free;
  same_end = s.same_end;
  list = FreeList-write k a v (word_of_owned p a s mine lo hi) s.list;
  page = s.page;
  apart = s.apart;
  covered = s.covered;
}

-- In every state that the kernel reaches from `kinit` by `kalloc`, by `kfree` of an owned page and by
-- writes to owned pages, the free list is a chain of distinct pages that ends in NULL, every page of
-- the range is free or owned, none is both, and every owned page is a page of the range.
pub Reachable-Sound :
    {kend : ℕ} {k : Kmem} {owned : ℕ → Bool} → Reachable kend k owned → Sound kend k owned
Reachable-Sound (start k {k'} {r} empty end pos fits run) =
    Sound-start k k' r empty end pos fits run
Reachable-Sound (take k {k'} {owned} {p} r run found) =
    Sound-take k k' p (Reachable-Sound r) run found
Reachable-Sound (give k {k'} {owned} {p} r mine run) =
    Sound-give k k' p (Reachable-Sound r) mine run
Reachable-Sound (use_page k p a v r mine lo hi) = Sound-write k p a v (Reachable-Sound r) mine lo hi

-- In every state that the kernel reaches from `kinit` by `kalloc`, by `kfree` of an owned page and by
-- writes to owned pages, `kalloc` returns: either a page of the range that nobody owns, or NULL, and
-- the latter only when every page of the range is owned.
pub kalloc-Reachable :
    {kend : ℕ} {owned : ℕ → Bool} (k : Kmem)
    → Reachable kend k owned
    → ((p : ℕ) × (k' : Kmem) × (kalloc k ≡ ok p k') × IsPage kend p × (owned p ≡ false))
      ⊎ ((kalloc k ≡ ok 0 k) × ((p : ℕ) → IsPage kend p → owned p ≡ true))
kalloc-Reachable {kend} {owned} k r =
    let s = Reachable-Sound r in kalloc_from s.same_end s.free s.list s.apart s.covered
  where
    kalloc_from :
        k.kend ≡ kend
        → (free : List ℕ) → FreeList k free
        → ((q : ℕ) → owned q ≡ true → has q free ≡ false)
        → ((q : ℕ) → IsPage kend q → (owned q ≡ true) ⊎ (has q free ≡ true))
        → ((p : ℕ) × (k' : Kmem) × (kalloc k ≡ ok p k') × IsPage kend p × (owned p ≡ false))
          ⊎ ((kalloc k ≡ ok 0 k) × ((p : ℕ) → IsPage kend p → owned p ≡ true))
    kalloc_from end [] list apart covered = inr (
      kalloc-null k list,
      λ p page. elim (covered p page) [ inl o ↦ o | inr f ↦ absurd (ground arith) ],
    )
    kalloc_from end (q ∷ qs) list apart covered =
        let (k', run, list', page, fresh, same, _) = kalloc-FreeList k q qs list in
        inl (
          q,
          k',
          run,
          IsPage-end end page,
          elim (Bool-cases (owned q)) [
            | inl o ↦ absurd (ground (arith, apart q o))
            | inr free ↦ free
          ],
        )
