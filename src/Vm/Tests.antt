-- ===== src/Vm/Tests.antt =====
-- The theorems about kernel/vm.c on a small memory with three free pages.
use gcgos.Base.{
  panicked, Panic, ℕ, ◌≡◌, ◌≢◌, refl, true, [], ◌∷◌, arith, ok, write, ◌<◌, ◌≤◌, ◌%◌, ◌+◌, ◌>>=◌,
}
use gcgos.Kmem.{Kmem, pg_size}
use gcgos.Kmem.FreeList.{IsPage, nil, cons, FreeList}
use gcgos.Vm.{max_va, uvmcreat, mappages, walkaddr}
use gcgos.Vm.Walk.{slot, Tables, walkaddr-mappages}
use gcgos.Vm.Fresh.{mappages-uvmcreat, mappages_dirty}

abbrev page2 : ℕ
page2 = 134737920

abbrev page1 : ℕ
page1 = 134733824

abbrev page0 : ℕ
page0 = 134729728

-- The three pages are free, and every other word is `rest`.
abbrev three_pages : ℕ → Kmem
three_pages rest = record {
  word = write (write (write (λ _. rest) page2 page1) page1 page0) page0 0;
  freelist = page2;
  kend = page0;
}

is_page : (p : ℕ) → p % pg_size ≡ 0 → page0 ≤ p → p ≤ page2 → IsPage page0 p
is_page p whole low high = record {
  aligned = whole;
  above = low;
  below = omega arith;
  not_null = ground arith;
}

three_pages-FreeList : (rest : ℕ) → FreeList (three_pages rest) (page2 ∷ page1 ∷ page0 ∷ [])
three_pages-FreeList rest = cons (is_page page2 refl (omega arith) (omega arith)) refl (
    cons (is_page page1 refl (omega arith) (omega arith)) refl
      (cons (is_page page0 refl (omega arith) (omega arith)) refl nil))

-- The tables are in place, for the addresses of the first two megabytes.
abbrev with_tables : Kmem
with_tables = record {
  word = write (write (λ _. 0) page2 (page1 + 3)) page1 (page0 + 3);
  freelist = 0;
  kend = page0;
}

mapped : Tables with_tables page2 4096 page1 page0
mapped = record {
  top = refl;
  top_at = refl;
  top_set = omega arith;
  mid = refl;
  mid_at = refl;
  mid_set = omega arith;
}

walkaddr-mappages_example :
    (k' : Kmem) × (mappages page2 4096 134725632 pg_size 64 with_tables ≡ ok true k')
    × (walkaddr page2 4096 k' ≡ ok 134725632 k')
    × ((root va' s1 s0 : ℕ)
        → Tables with_tables root va' s1 s0
        → va' < max_va
        → slot root 2 va' ≢ slot page0 0 4096
        → slot s1 1 va' ≢ slot page0 0 4096
        → slot s0 0 va' ≢ slot page0 0 4096
        → (b : ℕ) × (walkaddr root va' with_tables ≡ ok b with_tables)
          × (walkaddr root va' k' ≡ ok b k'))
walkaddr-mappages_example =
    walkaddr-mappages with_tables page2 4096 page1 page0 134725632 64 mapped (omega arith) refl refl
      (omega arith) (omega arith) refl (omega arith) (omega arith)

mappages-uvmcreat_example :
    (k' : Kmem) × ((uvmcreat >>= λ table. mappages table 4096 134725632 pg_size 64) (three_pages 0)
      ≡ ok true k')
    × (walkaddr page2 4096 k' ≡ ok 134725632 k')
    × FreeList k' []
    × (k'.kend ≡ page0)
mappages-uvmcreat_example =
    mappages-uvmcreat (three_pages 0) page2 page1 page0 4096 [] (three_pages-FreeList 0)
      (omega arith) refl refl 134725632 64 refl refl refl (omega arith) (omega arith)

mappages_dirty_example :
    (uvmcreat >>= λ table. mappages table 8192 134725632 pg_size 64) (three_pages 1)
    ≡ panicked Panic.mappages_remap
mappages_dirty_example =
    mappages_dirty (three_pages 1) page2 page1 page0 8192 [] (three_pages-FreeList 1) (omega arith)
      refl refl 134725632 64 refl refl
