-- ===== src/Process/PageCopy.antt =====
-- The pages of `copyproc` (kernel/proc.c): what the new process gets of the old one's memory.
use gcgos.Base.{
  leb, write_at, write_ne, among, ◌==◌, ℕ, zero, suc, ◌+◌, ◌*◌, ◌%◌, ◌≤◌, ◌<◌, ◌≡◌, ◌≢◌, ◌⊎◌, refl,
  ◌∙◌, ap, sym, true, false, inl, inr, arith, ok, write, List, [], ◌∷◌, Bool-cases,
}
use gcgos.Kmem.{Kmem, kalloc, pg_size}
use gcgos.Kmem.FreeList.{has, Chain, nil, cons, FreeList, head_of, kalloc-FreeList}
use gcgos.Kmem.Owners.{has-IsPage}
use gcgos.Vm.{max_va, px, pte_to_pa, pte_flags, is_table, is_valid, leaf, walk, mappages, walkaddr}
use gcgos.Vm.Bits.{pte_to_pa-leaf, pte_flags-leaf}
use gcgos.Vm.Fresh.{px_bound, slots_apart}
use gcgos.Vm.Walk.{
  slot, Tables, with_leaf, walk-Tables, walkaddr-Tables, mappages-Tables, Tables-with_leaf,
}
use gcgos.Process.Create.{copy_page, copy_mapping}

copy_page_outside :
    (n src dst : ℕ) (w : ℕ → ℕ) (a : ℕ)
    → among dst (8 * n) a ≡ false
    → copy_page n src dst w a ≡ w a
unfolding copy_page
copy_page_outside zero src dst w a out = refl
copy_page_outside (suc n) src dst w a out =
    let here : write w dst (w src) a ≡ w a = ground arith in
    copy_page_outside n (src + 8) (dst + 8) (write w dst (w src)) a (ground arith) ∙ here

copy_page_at :
    (n src dst : ℕ) (w : ℕ → ℕ) (i : ℕ)
    → (src + 8 * n ≤ dst) ⊎ (dst + 8 * n ≤ src)
    → i < n
    → copy_page n src dst w (dst + 8 * i) ≡ w (src + 8 * i)
unfolding copy_page
copy_page_at zero src dst w i apart lt = absurd (omega arith)
copy_page_at (suc n) src dst w zero apart lt =
    let d : dst + 8 * 0 ≡ dst = omega arith in
    let s : src + 8 * 0 ≡ src = omega arith in
    rw (d, s)
      (copy_page_outside n (src + 8) (dst + 8) (write w dst (w src)) dst (ground arith)
        ∙ ground arith)
copy_page_at (suc n) src dst w (suc i) apart lt =
    let d : dst + 8 * suc i ≡ dst + 8 + 8 * i = omega arith in
    let s : src + 8 * suc i ≡ src + 8 + 8 * i = omega arith in
    let same : write w dst (w src) (src + 8 + 8 * i) ≡ w (src + 8 + 8 * i) = ground arith in
    rw (d, s)
      (copy_page_at n (src + 8) (dst + 8) (write w dst (w src)) i
          (elim apart [ inl l ↦ inl (omega arith) | inr r ↦ inr (omega arith) ]) (omega arith)
        ∙ same)

pages_apart :
    (p q : ℕ) → p % pg_size ≡ 0 → q % pg_size ≡ 0 → p ≢ q → (p + 8 * 512 ≤ q) ⊎ (q + 8 * 512 ≤ p)
pages_apart p q a b ne = elim (Bool-cases (leb p q)) [
  | inl le ↦ inl (ground arith)
  | inr gt ↦ inr (ground arith)
]

-- A change of words that are not first words of free pages leaves the free list as it is.
Chain-agrees :
    {kend p : ℕ} {word word' : ℕ → ℕ} (ps : List ℕ)
    → Chain kend word p ps
    → ((q : ℕ) → has q ps ≡ true → word' q ≡ word q)
    → Chain kend word' p ps
Chain-agrees [] nil same = nil
Chain-agrees {kend} {p} {word} {word'} (q ∷ ps) (cons page fresh rest) same =
    cons page fresh
      (rw (same q (ground arith)) (Chain-agrees ps rest (λ r on. same r (ground (arith, on)))))

kalloc_head :
    (k : Kmem) (np : ℕ) (ps : List ℕ)
    → FreeList k (np ∷ ps)
    → kalloc k ≡ ok np (record k { freelist = k.word np })
unfolding kalloc
kalloc_head k np ps list =
    let (e, page, fresh, rest) = head_of list in ground (arith, e, page.not_null)

copy_mapping_run :
    (from to va at np : ℕ) (k k0 k1 : Kmem)
    → walk from va false k ≡ ok at k
    → at ≢ 0
    → k.word at % 4 ≡ 3
    → kalloc k ≡ ok np k0
    → np ≢ 0
    → mappages to va np pg_size
        (pte_flags (k.word at))
        (record k0 { word = copy_page 512 (pte_to_pa (k.word at)) np k0.word })
      ≡ ok true k1
    → copy_mapping from to va k ≡ ok tt k1
unfolding copy_mapping
copy_mapping_run from to va at np k k0 k1 way set page new new_set map =
    let there : at == 0 ≡ false = ground arith in
    let valid : is_valid (k.word at) ≡ true = ground arith in
    let got : np == 0 ≡ false = ground arith in rw (way, there, valid, new, got, map) refl

-- Tables whose two entries are as they were.
Tables-agree :
    (k k' : Kmem) (table va t1 t0 : ℕ)
    → Tables k table va t1 t0
    → k'.word (slot table 2 va) ≡ k.word (slot table 2 va)
    → k'.word (slot t1 1 va) ≡ k.word (slot t1 1 va)
    → Tables k' table va t1 t0
Tables-agree k k' table va t1 t0 t e2 e1 = record {
  top = ap is_table e2 ∙ t.top;
  top_at = ap pte_to_pa e2 ∙ t.top_at;
  top_set = t.top_set;
  mid = ap is_table e1 ∙ t.mid;
  mid_at = ap pte_to_pa e1 ∙ t.mid_at;
  mid_set = t.mid_set;
}

-- The pages that a round of the loop of `copyproc` meets at `va`: from the table `from` the address
-- leads through `t1` and `t0` to the page `pa`, from `to` through `s1` and `s0` to no page yet, and `np` is
-- the first free page.
pub record Round (k : Kmem) (from to va t1 t0 s1 s0 pa np : ℕ) (ps : List ℕ) : Type 0 where
  pub free : FreeList k (np ∷ ps)
  pub source : Tables k from va t1 t0
  pub target : Tables k to va s1 s0
  pub is_page : k.word (slot t0 0 va) % 4 ≡ 3
  pub page : pte_to_pa (k.word (slot t0 0 va)) ≡ pa
  pub unmapped : is_valid (k.word (slot s0 0 va)) ≡ false
  pub own_leaf : (s0 % pg_size ≡ 0) × (s0 ≢ np) × (has s0 ps ≡ false)
  pub apart :
      (p : ℕ)
      → has p (from ∷ t1 ∷ t0 ∷ to ∷ s1 ∷ pa ∷ []) ≡ true
      → (p % pg_size ≡ 0) × (p ≢ np) × (p ≢ s0)

module _ (k : Kmem) (from to va t1 t0 s1 s0 pa np : ℕ) (ps : List ℕ)
    (r : Round k from to va t1 t0 s1 s0 pa np ps) (below : va < max_va)
    (aligned : va % pg_size ≡ 0) where
  -- The memory with the page copied, and then with it mapped.
  abbrev pub page_copied : Kmem
  page_copied = record k { freelist = k.word np; word = copy_page 512 pa np k.word }

  abbrev pub page_mapped : Kmem
  page_mapped = with_leaf (slot s0 0 va) np (pte_flags (k.word (slot t0 0 va))) page_copied

  -- Words outside the new page, and the child's entry, are kept.
  kept : (a : ℕ) → among np pg_size a ≡ false → page_copied.word a ≡ k.word a
  kept a out = copy_page_outside 512 pa np k.word a out

  slot_out : (p i : ℕ) → p % pg_size ≡ 0 → p ≢ np → i < 512 → among np pg_size (p + 8 * i) ≡ false
  slot_out p i whole ne lt =
      let (e, page, fresh, rest) = head_of r.free in ground (arith, page.aligned)

  slot_kept :
      (p level : ℕ)
      → has p (from ∷ t1 ∷ t0 ∷ to ∷ s1 ∷ s0 ∷ pa ∷ []) ≡ true
      → page_copied.word (slot p level va) ≡ k.word (slot p level va)
  slot_kept p level on = elim (Bool-cases (p == s0)) [
    | inl e ↦
        let at : p ≡ s0 = ground arith in
        kept (slot p level va) (
          slot_out p (px level va) (omega (arith, r.own_leaf.0)) (λ e. r.own_leaf.1 (sym at ∙ e))
            (px_bound level va))
    | inr ne ↦
        let (whole, other, _) = r.apart p (ground arith) in
        kept (slot p level va) (slot_out p (px level va) whole other (px_bound level va))
  ]

  copied_source : Tables page_copied from va t1 t0
  copied_source =
      Tables-agree k page_copied from va t1 t0 r.source (slot_kept from 2 (ground arith))
        (slot_kept t1 1 (ground arith))

  copied_target : Tables page_copied to va s1 s0
  copied_target =
      Tables-agree k page_copied to va s1 s0 r.target (slot_kept to 2 (ground arith))
        (slot_kept s1 1 (ground arith))

  copied_free : is_valid (page_copied.word (slot s0 0 va)) ≡ false
  copied_free = ap is_valid (slot_kept s0 0 (ground arith)) ∙ r.unmapped

  copy_mapping_lem : copy_mapping from to va k ≡ ok tt page_mapped
  unfolding copy_mapping
  copy_mapping_lem =
      let (k0, run, list, page, fresh, e, e') = kalloc-FreeList k np ps r.free in
      let entry = slot t0 0 va in
      copy_mapping_run from to va entry np k (record k { freelist = k.word np }) page_mapped
        (walk-Tables k from va t1 t0 false r.source below)
        (λ e. r.source.mid_set (omega (arith, e))) r.is_page (kalloc_head k np ps r.free)
        page.not_null
        (ap
            (λ a.
              mappages to va np pg_size (pte_flags (k.word entry))
                (record k { freelist = k.word np; word = copy_page 512 a np k.word }))
            r.page
          ∙ mappages-Tables page_copied to va s1 s0 np (pte_flags (k.word entry)) copied_target
              below aligned copied_free)

  not_leaf :
      (p level : ℕ)
      → has p (from ∷ t1 ∷ t0 ∷ to ∷ s1 ∷ pa ∷ []) ≡ true
      → slot p level va ≢ slot s0 0 va
  not_leaf p level on =
      let (whole, _, other) = r.apart p on in
      slots_apart p s0 (px level va) (px 0 va) whole r.own_leaf.0 other (px_bound level va)
        (px_bound 0 va)

  -- The leaf as entered, and the words that are neither in the new page nor the leaf.
  entered : page_mapped.word (slot s0 0 va) ≡ leaf np (pte_flags (k.word (slot t0 0 va)))
  entered = write_at page_copied.word (slot s0 0 va) _

  rest_kept :
      (a : ℕ) → among np pg_size a ≡ false → a ≢ slot s0 0 va → page_mapped.word a ≡ k.word a
  rest_kept a out ne = write_ne page_copied.word (slot s0 0 va) a _ ne ∙ kept a out

  free_kept : FreeList page_mapped ps
  free_kept =
      let (e, page, fresh, rest) = head_of r.free in
      Chain-agrees ps rest λ q on.
        let other : q ≢ np = λ e. absurd (ground arith) in
        let whole = has-IsPage ps rest on in
        let s0_other : q ≢ s0 = λ e. absurd (ground (arith, r.own_leaf.2)) in
        rest_kept q (ground (arith, whole.aligned, page.aligned)) λ e.
          slots_apart q s0 0 (px 0 va) whole.aligned r.own_leaf.0 s0_other (omega arith)
            (px_bound 0 va) (omega (arith, e))

  -- A round of the loop of `copyproc` at a page's address below MAXVA, where the old process has a page
  -- there, the new one has its tables and no page, a page is free, and the pages concerned are distinct
  -- (`Round`), succeeds. Then `walkaddr` gives the new process a page of its own and the old one the
  -- page it had; the 512 words of the new page are those of the old one; the attributes are the same;
  -- all memory but the new page and the new entry is as it was; and the free list is the rest.
  pub copy_mapping-page :
      (k' : Kmem) × (copy_mapping from to va k ≡ ok tt k')
      × (walkaddr to va k' ≡ ok np k')
      × (walkaddr from va k' ≡ ok pa k')
      × ((i : ℕ) → i < 512 → k'.word (np + 8 * i) ≡ k.word (pa + 8 * i))
      × (pte_flags (k'.word (slot s0 0 va)) ≡ pte_flags (k.word (slot t0 0 va)))
      × ((a : ℕ) → among np pg_size a ≡ false → a ≢ slot s0 0 va → k'.word a ≡ k.word a)
      × FreeList k' ps
  copy_mapping-page =
      let (e, page, fresh, rest) = head_of r.free in
      let flags = pte_flags (k.word (slot t0 0 va)) in
      let (whole, other, _) = r.apart pa (ground arith) in
      (
        page_mapped,
        copy_mapping_lem,
        walkaddr-Tables page_mapped to va s1 s0
              (Tables-with_leaf page_copied to va s1 s0 (slot s0 0 va) np flags copied_target
                (not_leaf to 2 (ground arith)) (not_leaf s1 1 (ground arith)))
              below
            ∙ ap (λ x. ok (pte_to_pa x) page_mapped) entered
            ∙ ap (λ x. ok x page_mapped)
                (pte_to_pa-leaf np flags page.aligned (omega (arith, page.below)) (omega arith)),
        walkaddr-Tables page_mapped from va t1 t0
              (Tables-with_leaf page_copied from va t1 t0 (slot s0 0 va) np flags copied_source
                (not_leaf from 2 (ground arith)) (not_leaf t1 1 (ground arith)))
              below
            ∙ ap (λ x. ok (pte_to_pa x) page_mapped)
                (write_ne page_copied.word (slot s0 0 va) (slot t0 0 va) _
                    (not_leaf t0 0 (ground arith))
                  ∙ slot_kept t0 0 (ground arith))
            ∙ ap (λ x. ok x page_mapped) r.page,
        λ i lt.
            write_ne page_copied.word (slot s0 0 va) (np + 8 * i) _ (
              slots_apart np s0 i (px 0 va) page.aligned r.own_leaf.0 (λ e. r.own_leaf.1 (sym e)) lt
                (px_bound 0 va))
            ∙ copy_page_at 512 pa np k.word i (pages_apart pa np whole page.aligned other) lt,
        ap pte_flags entered
            ∙ pte_flags-leaf np flags page.aligned (omega arith) (omega (arith, r.is_page)),
        rest_kept,
        free_kept,
      )
