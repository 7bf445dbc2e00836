-- ===== src/Fs/Blocks/Refine.antt =====
-- `balloc` and `bfree` of kernel/fs.c as the implementation of a set of blocks.
use gcgos.Base.{
  ℕ, ◌<◌, ◌⊎◌, ◌≡◌, ◌∙◌, refl, ap, sym, Bool, true, false, not, ◌&&◌, ◌||◌, Option, none, some,
  List, [], ◌∷◌, arith, inl, inr, ◌==◌, Bytes, Op, Outcome, ok, panicked, Panic, pure, ◌>>=◌, ◌>>◌,
}
use gcgos.Kernel.{Buf, Kernel}
use gcgos.Fs.Layout.{bblock, sb_size, sb_ninodes}
use gcgos.Fs.Bio.Laws.{IsFirst, IsFirst-set}
use gcgos.Fs.Blocks.{balloc, bfree}
use gcgos.Fs.Blocks.Alloc.{used, marked, balloc_cases}
use gcgos.Fs.Blocks.Free.{used-marked, cleared, used-cleared, bfree_lem, write_other}

pub data BlockOp : Type 0 where
  allocate : BlockOp
  release : ℕ → BlockOp

-- A result in front of those of the operations behind, if these come to their end.
abbrev pub in_front : ℕ → Option (List ℕ) → Option (List ℕ)
in_front b none = none
in_front b (some rs) = some (b ∷ rs)

-- The abstract file system of `size` blocks: the set of those in use. `allocate` takes the lowest block
-- that is not in the set, and stops everything when there is none; `release` takes a block out. The
-- last index is the results of the `allocate`s, or nothing where one of them stops.
pub data BlockSet (size : ℕ) : List BlockOp → (ℕ → Bool) → Option (List ℕ) → Type 0 where
  done : {us : ℕ → Bool} → BlockSet size [] us (some [])
  full :
      {us : ℕ → Bool} {ops : List BlockOp}
      → ((c : ℕ) → c < size → us c ≡ true)
      → BlockSet size (BlockOp.allocate ∷ ops) us none
  took :
      {us : ℕ → Bool} {b : ℕ} {ops : List BlockOp} {r : Option (List ℕ)}
      → b < size
      → us b ≡ false
      → ((c : ℕ) → c < b → us c ≡ true)
      → BlockSet size ops (λ c. (c == b) || us c) r
      → BlockSet size (BlockOp.allocate ∷ ops) us (in_front b r)
  gave :
      {us : ℕ → Bool} {b : ℕ} {ops : List BlockOp} {r : Option (List ℕ)}
      → BlockSet size ops (λ c. not (c == b) && us c) r
      → BlockSet size (BlockOp.release b ∷ ops) us r

unfoldable pub run_blocks : List BlockOp → Op Kernel (List ℕ)
run_blocks [] = pure []
run_blocks (BlockOp.allocate ∷ ops) = do b ← balloc; rs ← run_blocks ops; pure (b ∷ rs)
run_blocks (BlockOp.release b ∷ ops) = bfree b >> run_blocks ops

-- The kernel's run gives the results, or the panic of `balloc`.
abbrev pub Answers : Option (List ℕ) → Outcome Kernel (List ℕ) → Type 0
Answers none o = o ≡ panicked Panic.balloc
Answers (some rs) o = (k' : Kernel) × (o ≡ ok rs k')

Answers-allocate :
    (k k1 : Kernel) (b : ℕ) (ops : List BlockOp) (r : Option (List ℕ))
    → balloc k ≡ ok b k1
    → Answers r (run_blocks ops k1)
    → Answers (in_front b r) (run_blocks (BlockOp.allocate ∷ ops) k)
unfolding run_blocks
Answers-allocate k k1 b ops none run rest = rw (run, rest) refl
Answers-allocate k k1 b ops (some rs) run (k', rest) = (k', rw (run, rest) refl)

Answers-release :
    (k k1 : Kernel) (b : ℕ) (ops : List BlockOp) (r : Option (List ℕ))
    → bfree b k ≡ ok tt k1
    → Answers r (run_blocks ops k1)
    → Answers r (run_blocks (BlockOp.release b ∷ ops) k)
unfolding run_blocks
Answers-release k k1 b ops none run rest = rw (run, rest) refl
Answers-release k k1 b ops (some rs) run (k', rest) = (k', rw (run, rest) refl)

-- `balloc_cases` by the super block and the set.
balloc_on :
    (k : Kernel) (us : ℕ → Bool) (sb : Bytes) (j : ℕ) (b0 : Buf)
    → IsFirst k.bufs j b0
    → k.card 1 ≡ sb
    → ((c : ℕ) → used k.card (sb_ninodes sb) c ≡ us c)
    → ((balloc k ≡ panicked Panic.balloc) × ((c : ℕ) → c < sb_size sb → us c ≡ true))
      ⊎ ((b : ℕ) × (b < sb_size sb)
          × (us b ≡ false)
          × ((c : ℕ) → c < b → us c ≡ true)
          × (balloc k ≡ ok b (marked k j b (sb_ninodes sb))))
balloc_on k us sb j b0 h super_block same =
    let of_set : (c : ℕ) → us c ≡ used k.card (sb_ninodes (k.card 1)) c =
      λ c. sym (same c) ∙ ap (λ m. used k.card (sb_ninodes m) c) (sym super_block) in
    let sizes : sb_size (k.card 1) ≡ sb_size sb = ap sb_size super_block in
    elim (balloc_cases k j b0 h) [
      | inl (stops, all) ↦ inl (stops, λ c lt. of_set c ∙ all c (omega arith))
      | inr (b, lt, free, first, run) ↦ inr (
        b,
        omega arith,
        of_set b ∙ free,
        λ c below. of_set c ∙ first c below,
        run ∙ ap (λ m. ok b (marked k j b (sb_ninodes m))) super_block,
      )
    ]

-- `balloc` and `bfree` implement the set. On a card with the super block `sb` whose bitmap shows the
-- blocks of `us` in use, and with a free buffer, every sequence of operations has the results that
-- the set gives, and `balloc` panics where, and only where, the set stops.
pub run_blocks-BlockSet :
    (ops : List BlockOp) (k : Kernel) (us : ℕ → Bool) (sb : Bytes) (j : ℕ) (b0 : Buf)
    → IsFirst k.bufs j b0
    → k.card 1 ≡ sb
    → ((c : ℕ) → used k.card (sb_ninodes sb) c ≡ us c)
    → (r : Option (List ℕ)) × BlockSet (sb_size sb) ops us r × Answers r (run_blocks ops k)
unfolding run_blocks
run_blocks-BlockSet [] k us sb j b0 h super_block same = (some [], done, (k, refl))
run_blocks-BlockSet (BlockOp.release b ∷ ops) k us sb j b0 h super_block same =
    let n = sb_ninodes sb in
    let k1 = cleared k j b n in
    let (r, spec, answer) =
      run_blocks-BlockSet ops k1 (λ c. not (c == b) && us c) sb j _
        (IsFirst-set k.bufs j b0 _ h refl)
        (write_other k.card (bblock b n) 1 _ (omega arith) ∙ super_block)
        (λ c. used-cleared k j b n c ∙ ap (λ t. not (c == b) && t) (same c)) in
    let run : bfree b k ≡ ok tt k1 =
      bfree_lem k j b b0 h ∙ ap (λ m. ok tt (cleared k j b (sb_ninodes m))) super_block in
    (r, gave spec, Answers-release k k1 b ops r run answer)
run_blocks-BlockSet (BlockOp.allocate ∷ ops) k us sb j b0 h super_block same =
    elim (balloc_on k us sb j b0 h super_block same) [
      | inl (stops, all) ↦ (none, full all, rw stops refl)
      | inr (b, lt, free, first, run) ↦
          let n = sb_ninodes sb in
          let k1 = marked k j b n in
          let (r, spec, answer) =
            run_blocks-BlockSet ops k1 (λ c. (c == b) || us c) sb j _
              (IsFirst-set k.bufs j b0 _ h refl)
              (write_other k.card (bblock b n) 1 _ (omega arith) ∙ super_block)
              (λ c. used-marked k j b n c ∙ ap (λ t. (c == b) || t) (same c)) in
          (in_front b r, took lt free first spec, Answers-allocate k k1 b ops r run answer)
    ]
