-- ===== src/Vm/Fresh.antt =====
-- A new page table of kernel/vm.c: `uvmcreat` and the first `mappages`, with the pages of `kalloc`.
use gcgos.Base.{
  some, write_at, write_ne, panicked, Panic, Bool-cases, inl, inr, ℕ, ◌+◌, ◌*◌, ◌%◌, ◌^◌, ◌<◌, ◌≡◌,
  ◌≢◌, refl, true, false, arith, ap, sym, ◌∙◌, ok, write, ◌>>=◌, List, ◌∷◌,
}
use native.Mathlib.Nat.{mod-lt}
use gcgos.Kmem.Owners.{has-IsPage}
use gcgos.Kmem.{Kmem, kalloc, pg_size, phys_top}
use gcgos.Kmem.FreeList.{has, IsPage, Chain, FreeList, FreeList-write, head_of}
use gcgos.Vm.{
  max_va, px, pte_to_pa, pa_to_pte, pte_valid, pte_table, is_table, is_valid, leaf, next_table,
  walk, mappages, walkaddr, uvmcreat,
}
use gcgos.Vm.Bits.{pte_to_pa-leaf}
use gcgos.Vm.Walk.{slot, Tables, with_leaf, walkaddr-Tables, Tables-with_leaf}

-- Words of different pages.
pub slots_apart :
    (p q i j : ℕ)
    → p % pg_size ≡ 0
    → q % pg_size ≡ 0
    → p ≢ q
    → i < 512
    → j < 512
    → p + 8 * i ≢ q + 8 * j
slots_apart p q i j a b ne hi hj = λ e. absurd (omega (arith, ne))

pub px_bound : (level va : ℕ) → px level va < 512
px_bound level va = mod-lt _ (omega arith)

-- The memory after a table `p` has been entered at the word `at`.
abbrev with_table : (at p : ℕ) → Kmem → Kmem
with_table at p k = record k {
  freelist = k.word p;
  word = write k.word at (pa_to_pte p + pte_valid + pte_table);
}

pub next_table_fresh :
    (k : Kmem) (at p : ℕ) (ps : List ℕ)
    → FreeList k (p ∷ ps)
    → is_table (k.word at) ≡ false
    → has at ps ≡ false
    → (next_table at true k ≡ ok (some p) (with_table at p k)) × FreeList (with_table at p k) ps
unfolding next_table kalloc
next_table_fresh k at p ps list out apart =
    let (e, page, fresh, rest) = head_of list in
    (
      ground (arith, e, page.not_null),
      FreeList-write (record k { freelist = k.word p }) at _ apart rest,
    )

-- The entry made for a page is a table's, and leads to the page.
entry_of :
    (p : ℕ)
    → p % pg_size ≡ 0
    → p < phys_top
    → (is_table (pa_to_pte p + pte_valid + pte_table) ≡ true)
      × (pte_to_pa (pa_to_pte p + pte_valid + pte_table) ≡ p)
entry_of p aligned below = (ground arith, omega arith)

-- A word of a page that is not free is not the first word of a free page.
slot_not_free :
    {kend p : ℕ} {word : ℕ → ℕ} (q i : ℕ) (ps : List ℕ)
    → Chain kend word p ps
    → q % pg_size ≡ 0
    → i < 512
    → has q ps ≡ false
    → has (q + 8 * i) ps ≡ false
slot_not_free q i ps chain aligned h out = elim (Bool-cases (has (q + 8 * i) ps)) [
  | inl on ↦
      let page = has-IsPage ps chain on in
      let same : q + 8 * i ≡ q = omega (arith, page.aligned) in
      absurd (ground (arith, ap (λ a. has a ps) same))
  | inr off ↦ off
]

module _ (k : Kmem) (t p1 p0 va : ℕ) (ps : List ℕ) (list : FreeList k (t ∷ p1 ∷ p0 ∷ ps))
    (below : va < max_va) (clean2 : is_table (k.word (slot t 2 va)) ≡ false)
    (clean1 : is_table (k.word (slot p1 1 va)) ≡ false) where
  -- The memory after the two tables have been taken.
  abbrev with_tables : Kmem
  with_tables =
      with_table (slot p1 1 va) p0 (with_table (slot t 2 va) p1 (record k { freelist = k.word t }))

  walk_fresh :
      (walk t va true (record k { freelist = k.word t }) ≡ ok (slot p0 0 va) with_tables)
      × Tables with_tables t va p1 p0
      × FreeList with_tables ps
  unfolding walk
  walk_fresh =
      let (e, page, fresh, rest) = head_of list in
      let (e1, page1, fresh1, rest1) = head_of rest in
      let (e0, page0, fresh0, rest0) = head_of rest1 in
      let k1 : Kmem = record k { freelist = k.word t } in
      let apart21 =
        slots_apart t p1 (px 2 va) (px 1 va) page.aligned page1.aligned (ground arith)
          (px_bound 2 va) (px_bound 1 va) in
      let (run1, list1) =
        next_table_fresh k1 (slot t 2 va) p1 (p0 ∷ ps) rest clean2
          (slot_not_free t (px 2 va) (p0 ∷ ps) rest1 page.aligned (px_bound 2 va) (ground arith)) in
      let same1 =
        write_ne k.word (slot t 2 va) (slot p1 1 va) (pa_to_pte p1 + pte_valid + pte_table)
          (λ e. apart21 (sym e)) in
      let (run0, list0) =
        next_table_fresh (with_table (slot t 2 va) p1 k1) (slot p1 1 va) p0 ps list1
          (ap is_table same1 ∙ clean1)
          (slot_not_free p1 (px 1 va) ps rest0 page1.aligned (px_bound 1 va) (ground arith)) in
      let v1 = pa_to_pte p1 + pte_valid + pte_table in
      let v0 = pa_to_pte p0 + pte_valid + pte_table in
      let w2 =
        write_ne (write k.word (slot t 2 va) v1) (slot p1 1 va) (slot t 2 va) v0 apart21
        ∙ write_at k.word (slot t 2 va) v1 in
      let w1 = write_at (write k.word (slot t 2 va) v1) (slot p1 1 va) v0 in
      let (top, top_at) = entry_of p1 page1.aligned page1.below in
      let (mid, mid_at) = entry_of p0 page0.aligned page0.below in
      (
        ground (arith, run1, run0, page1.not_null, page0.not_null),
        record {
          top = ap is_table w2 ∙ top;
          top_at = ap pte_to_pa w2 ∙ top_at;
          top_set = page1.not_null;
          mid = ap is_table w1 ∙ mid;
          mid_at = ap pte_to_pa w1 ∙ mid_at;
          mid_set = page0.not_null;
        },
        list0,
      )

  -- The word of the leaf is none of the two entries, and is as it was.
  leaf_word :
      IsPage k.kend t
      → IsPage k.kend p1
      → IsPage k.kend p0
      → has t (p1 ∷ p0 ∷ ps) ≡ false
      → has p1 (p0 ∷ ps) ≡ false
      → (slot t 2 va ≢ slot p0 0 va)
        × (slot p1 1 va ≢ slot p0 0 va)
        × (with_tables.word (slot p0 0 va) ≡ k.word (slot p0 0 va))
  leaf_word page page1 page0 fresh fresh1 =
      let at = slot p0 0 va in
      let apart20 =
        slots_apart t p0 (px 2 va) (px 0 va) page.aligned page0.aligned (ground arith)
          (px_bound 2 va) (px_bound 0 va) in
      let apart10 =
        slots_apart p1 p0 (px 1 va) (px 0 va) page1.aligned page0.aligned (ground arith)
          (px_bound 1 va) (px_bound 0 va) in
      let v1 = pa_to_pte p1 + pte_valid + pte_table in
      let v0 = pa_to_pte p0 + pte_valid + pte_table in
      (
        apart20,
        apart10,
        write_ne (write k.word (slot t 2 va) v1) (slot p1 1 va) at v0 (λ e. apart10 (sym e))
            ∙ write_ne k.word (slot t 2 va) at v1 (λ e. apart20 (sym e)),
      )

  -- With three free pages, where the words that the address selects in them look like no entry:
  -- `uvmcreat` and then `mappages` of one page succeed, with the three pages as top table, middle
  -- table and leaf table; `walkaddr` gives the page mapped, and the free list is the rest.
  pub mappages-uvmcreat :
      (pa perm : ℕ)
      → is_valid (k.word (slot p0 0 va)) ≡ false
      → va % pg_size ≡ 0
      → pa % pg_size ≡ 0
      → pa < 2 ^ 48
      → perm < pg_size
      → (k' : Kmem) × ((uvmcreat >>= λ table. mappages table va pa pg_size perm) k ≡ ok true k')
        × (walkaddr t va k' ≡ ok pa k')
        × FreeList k' ps
        × (k'.kend ≡ k.kend)
  unfolding uvmcreat mappages kalloc
  mappages-uvmcreat pa perm clean0 aligned whole fits low =
      let (e, page, fresh, rest) = head_of list in
      let (e1, page1, fresh1, rest1) = head_of rest in
      let (e0, page0, fresh0, rest0) = head_of rest1 in
      let (run, tables, list3) = walk_fresh in
      let at = slot p0 0 va in
      let (apart20, apart10, same) = leaf_word page page1 page0 fresh fresh1 in
      let free : is_valid (with_tables.word at) ≡ false = ap is_valid same ∙ clean0 in
      let k' = with_leaf at pa perm with_tables in
      (
        k',
        ground (arith, e, page.not_null, run, free),
        walkaddr-Tables k' t va p1 p0
              (Tables-with_leaf with_tables t va p1 p0 at pa perm tables apart20 apart10) below
            ∙ ap (λ x. ok (pte_to_pa x) k') (write_at with_tables.word at (leaf pa perm))
            ∙ ap (λ x. ok x k') (pte_to_pa-leaf pa perm whole fits low),
        FreeList-write with_tables at (leaf pa perm)
            (slot_not_free p0 (px 0 va) ps rest0 page0.aligned (px_bound 0 va) fresh0) list3,
        refl,
      )

  -- `walk` does not clear the pages that it takes for tables. With three free pages, where the words that
  -- the address selects in the first two look like no table's entry, but the one in the third looks like
  -- a valid entry: `uvmcreat` and then `mappages` of one page at a page-aligned address below MAXVA, in a
  -- table where nothing has been mapped, panic with a remap.
  pub mappages_dirty :
      (pa perm : ℕ)
      → is_valid (k.word (slot p0 0 va)) ≡ true
      → va % pg_size ≡ 0
      → (uvmcreat >>= λ table. mappages table va pa pg_size perm) k ≡ panicked Panic.mappages_remap
  unfolding uvmcreat mappages kalloc
  mappages_dirty pa perm dirty aligned =
      let (e, page, fresh, rest) = head_of list in
      let (e1, page1, fresh1, rest1) = head_of rest in
      let (e0, page0, fresh0, rest0) = head_of rest1 in
      let (run, tables, list3) = walk_fresh in
      let taken : is_valid (with_tables.word (slot p0 0 va)) ≡ true =
        ap is_valid (leaf_word page page1 page0 fresh fresh1).2 ∙ dirty in
      ground (arith, e, page.not_null, run, taken)
