-- ===== src/Vm/Walk.antt =====
-- `mappages` and `walkaddr` of kernel/vm.c through tables that are there already.
use gcgos.Base.{
  panicked, Panic, ℕ, ◌+◌, ◌*◌, ◌%◌, ◌^◌, ◌<◌, ◌≡◌, ◌≢◌, Bool, true, false, arith, ap, ◌∙◌, ok,
  write,
}
use gcgos.Kmem.{Kmem, pg_size}
use gcgos.Vm.{max_va, px, pte_to_pa, is_table, is_valid, leaf, walk, mappages, walkaddr}
use gcgos.Vm.Bits.{pte_to_pa-leaf}

-- The word that stands for an address in a table of the level.
abbrev pub slot : (table level va : ℕ) → ℕ
slot table level va = table + 8 * px level va

-- From `table` the address leads through the tables `t1` and `t0`.
pub record Tables (k : Kmem) (table va t1 t0 : ℕ) : Type 0 where
  pub top : is_table (k.word (slot table 2 va)) ≡ true
  pub top_at : pte_to_pa (k.word (slot table 2 va)) ≡ t1
  pub top_set : t1 ≢ 0
  pub mid : is_table (k.word (slot t1 1 va)) ≡ true
  pub mid_at : pte_to_pa (k.word (slot t1 1 va)) ≡ t0
  pub mid_set : t0 ≢ 0

pub walk-Tables :
    (k : Kmem) (table va t1 t0 : ℕ) (alloc : Bool)
    → Tables k table va t1 t0
    → va < max_va
    → walk table va alloc k ≡ ok (slot t0 0 va) k
unfolding walk
walk-Tables k table va t1 t0 alloc t h = ground arith

pub walkaddr-Tables :
    (k : Kmem) (table va t1 t0 : ℕ)
    → Tables k table va t1 t0
    → va < max_va
    → walkaddr table va k ≡ ok (pte_to_pa (k.word (slot t0 0 va))) k
unfolding walkaddr
walkaddr-Tables k table va t1 t0 t h = ground arith

-- The memory after a leaf is entered.
abbrev pub with_leaf : (at pa perm : ℕ) → Kmem → Kmem
with_leaf at pa perm k = record k { word = write k.word at (leaf pa perm) }

-- A leaf that is none of the table entries leaves the way through the tables as it is.
pub Tables-with_leaf :
    (k : Kmem) (table va t1 t0 at pa perm : ℕ)
    → Tables k table va t1 t0
    → slot table 2 va ≢ at
    → slot t1 1 va ≢ at
    → Tables (with_leaf at pa perm k) table va t1 t0
Tables-with_leaf k table va t1 t0 at pa perm t n2 n1 =
    let e2 : write k.word at (leaf pa perm) (slot table 2 va) ≡ k.word (slot table 2 va) =
      ground arith in
    let e1 : write k.word at (leaf pa perm) (slot t1 1 va) ≡ k.word (slot t1 1 va) = ground arith in
    record {
      top = ap is_table e2 ∙ t.top;
      top_at = ap pte_to_pa e2 ∙ t.top_at;
      top_set = t.top_set;
      mid = ap is_table e1 ∙ t.mid;
      mid_at = ap pte_to_pa e1 ∙ t.mid_at;
      mid_set = t.mid_set;
    }

module _ (k : Kmem) (table va t1 t0 pa perm : ℕ) (t : Tables k table va t1 t0) (below : va < max_va)
    (aligned : va % pg_size ≡ 0) where
  pub mappages-Tables :
      is_valid (k.word (slot t0 0 va)) ≡ false
      → mappages table va pa pg_size perm k ≡ ok true (with_leaf (slot t0 0 va) pa perm k)
  unfolding mappages
  mappages-Tables free = ground (arith, walk-Tables k table va t1 t0 true t below)

  -- `mappages` of one page where the tables are there and the leaf is not valid succeeds. Then
  -- `walkaddr` gives the page for this address; and for every other address whose own tables are there
  -- and that has another leaf, it gives what it gave before.
  pub walkaddr-mappages :
      is_valid (k.word (slot t0 0 va)) ≡ false
      → slot table 2 va ≢ slot t0 0 va
      → slot t1 1 va ≢ slot t0 0 va
      → pa % pg_size ≡ 0
      → pa < 2 ^ 48
      → perm < pg_size
      → (k' : Kmem) × (mappages table va pa pg_size perm k ≡ ok true k')
        × (walkaddr table va k' ≡ ok pa k')
        × ((root va' s1 s0 : ℕ)
            → Tables k root va' s1 s0
            → va' < max_va
            → slot root 2 va' ≢ slot t0 0 va
            → slot s1 1 va' ≢ slot t0 0 va
            → slot s0 0 va' ≢ slot t0 0 va
            → (b : ℕ) × (walkaddr root va' k ≡ ok b k) × (walkaddr root va' k' ≡ ok b k'))
  walkaddr-mappages free n2 n1 whole fits low =
      let at = slot t0 0 va in
      let k' = with_leaf at pa perm k in
      let here : write k.word at (leaf pa perm) at ≡ leaf pa perm = ground arith in
      (
        k',
        mappages-Tables free,
        walkaddr-Tables k' table va t1 t0 (Tables-with_leaf k table va t1 t0 at pa perm t n2 n1)
              below
            ∙ ap (λ x. ok (pte_to_pa x) k') here
            ∙ ap (λ x. ok x k') (pte_to_pa-leaf pa perm whole fits low),
        λ root va' s1 s0 s h m2 m1 m0.
            let same : write k.word at (leaf pa perm) (slot s0 0 va') ≡ k.word (slot s0 0 va') =
              ground arith in
            (
              pte_to_pa (k.word (slot s0 0 va')),
              walkaddr-Tables k root va' s1 s0 s h,
              walkaddr-Tables k' root va' s1 s0
                    (Tables-with_leaf k root va' s1 s0 at pa perm s m2 m1) h
                  ∙ ap (λ x. ok (pte_to_pa x) k') same,
            ),
      )

  -- A page is never mapped over another.
  pub mappages_remap :
      is_valid (k.word (slot t0 0 va)) ≡ true
      → mappages table va pa pg_size perm k ≡ panicked Panic.mappages_remap
  unfolding mappages
  mappages_remap taken = ground (arith, walk-Tables k table va t1 t0 true t below)
