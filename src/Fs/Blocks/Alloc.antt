-- ===== src/Fs/Blocks/Alloc.antt =====
-- `balloc` of kernel/fs.c finds the first free block of the bitmap and marks it on the card.
use gcgos.Base.{
  ℕ, zero, suc, ◌+◌, ◌%◌, ◌≤◌, ◌<◌, ◌≡◌, ◌≢◌, ◌⊎◌, inl, inr, refl, Bool, true, false, some, arith,
  ok, panicked, Panic, ◌==◌, leb, write, Bytes, get_elem?, set, set-set, get_elem?-set_self,
  lt_of_get_elem?, Bool-cases, ap, ◌∙◌,
}
use native.Mathlib.Decide.{dec_lt}
use gcgos.Kernel.{Buf, Kernel}
use gcgos.Fs.Layout.{bpb, bblock, sb_size, sb_ninodes}
use gcgos.Fs.Bio.{bread, brelse, bwrite, put_buf}
use gcgos.Fs.Bio.Laws.{IsFirst, IsFirst-set, bread-IsFirst}
use gcgos.Fs.Blocks.{bit_is_set, set_bit, bitmap_for, balloc_scan, mark_block, balloc}

-- Block `b` is in use by the bitmap on the card.
abbrev pub used : (card : ℕ → Bytes) → (ninodes b : ℕ) → Bool
used card ninodes b = bit_is_set (card (bblock b ninodes)) (b % bpb)

-- The kernel after block `b` has been marked, with buffer `j` used for it.
abbrev pub marked : Kernel → (j b ninodes : ℕ) → Kernel
marked k j b ninodes =
    let m = set_bit (k.card (bblock b ninodes)) (b % bpb) in
    record k {
      card = write k.card (bblock b ninodes) m;
      bufs = set k.bufs j (record { busy = false; bytes = m });
    }

module _ (k : Kernel) (j : ℕ) (b0 : Buf) (h : IsFirst k.bufs j b0) where
  -- The kernel with the buffer taken, and with it given back.
  abbrev pub busy_with : Bytes → Kernel
  busy_with m = put_buf j (record { busy = true; bytes = m }) k

  abbrev pub idle_with : Bytes → Kernel
  idle_with m = put_buf j (record { busy = false; bytes = m }) k

  pub at_busy :
      (m : Bytes) → get_elem? (busy_with m).bufs j ≡ some (record { busy = true; bytes = m })
  at_busy m = get_elem?-set_self k.bufs j _ (lt_of_get_elem? k.bufs j h.found)

  pub brelse-busy : (m : Bytes) → brelse j (busy_with m) ≡ ok tt (idle_with m)
  unfolding brelse
  brelse-busy m = ground (
    arith,
    at_busy m,
    set-set k.bufs j (record { busy = true; bytes = m }) (record { busy = false; bytes = m }),
  )

  pub bread-idle :
      (m : Bytes) (sector : ℕ) → bread sector (idle_with m) ≡ ok j (busy_with (k.card sector))
  bread-idle m sector =
      bread-IsFirst (idle_with m) sector j _ (IsFirst-set k.bufs j b0 _ h refl)
      ∙ ap (λ l. ok j (record k { bufs = l })) (set-set k.bufs j _ _)

  -- At the head of a round the buffer has the bitmap sector of `b`, or is about to get it.
  bitmap_for-busy :
      (b ninodes : ℕ) (m : Bytes)
      → (b % bpb ≢ 0 → m ≡ k.card (bblock b ninodes))
      → bitmap_for b ninodes j (busy_with m) ≡ ok j (busy_with (k.card (bblock b ninodes)))
  unfolding bitmap_for
  bitmap_for-busy b ninodes m same = elim (Bool-cases (b % bpb == 0)) [
    | inl new ↦ ground (arith, brelse-busy m, bread-idle m (bblock b ninodes))
    | inr old ↦ rw old (ap (λ m. ok j (busy_with m)) (same (ground arith)))
  ]

  -- What the loop finds among `left` blocks from `b` on.
  record Scanned (left b ninodes : ℕ) (m : Bytes) : Type 0 where
    found : ℕ
    bytes : Bytes
    result : balloc_scan left b ninodes j (busy_with m) ≡ ok (found, j) (busy_with bytes)
    from : b ≤ found
    upto : found ≤ b + left
    taken : (c : ℕ) → b ≤ c → c < found → used k.card ninodes c ≡ true
    free : found < b + left → used k.card ninodes found ≡ false
    loaded : found < b + left → bytes ≡ k.card (bblock found ninodes)

  extend :
      (b top ninodes : ℕ)
      → used k.card ninodes b ≡ true
      → ((c : ℕ) → b + 1 ≤ c → c < top → used k.card ninodes c ≡ true)
      → (c : ℕ) → b ≤ c
      → c < top
      → used k.card ninodes c ≡ true
  extend b top ninodes here rest c lo hi = elim (dec_lt b c) [
    | yes lt ↦ rest c (omega arith) hi
    | no ge ↦ let e : c ≡ b = omega arith in ap (λ c. used k.card ninodes c) e ∙ here
  ]

  scan :
      (left b ninodes : ℕ) (m : Bytes)
      → (b % bpb ≢ 0 → m ≡ k.card (bblock b ninodes))
      → Scanned left b ninodes m
  unfolding balloc_scan
  scan zero b ninodes m same = record {
    found = b;
    bytes = m;
    result = refl;
    from = omega arith;
    upto = omega arith;
    taken = λ c lo hi. absurd (omega arith);
    free = λ lt. absurd (omega arith);
    loaded = λ lt. absurd (omega arith);
  }
  scan (suc left) b ninodes m same =
      let m1 = k.card (bblock b ninodes) in
      let next = bitmap_for-busy b ninodes m same in
      elim (Bool-cases (bit_is_set m1 (b % bpb))) [
        | inl set_ ↦
            let s = scan left (b + 1) ninodes m1 (λ ne. ap k.card (omega arith)) in
            record {
              found = s.found;
              bytes = s.bytes;
              result = ground (arith, next, at_busy m1, s.result);
              from = omega (arith, s.from);
              upto = omega (arith, s.upto);
              taken = extend b s.found ninodes set_ s.taken;
              free = λ lt. s.free (omega arith);
              loaded = λ lt. s.loaded (omega arith);
            }
        | inr clear ↦ record {
          found = b;
          bytes = m1;
          result = ground (arith, next, at_busy m1);
          from = omega arith;
          upto = omega arith;
          taken = λ c lo hi. absurd (omega arith);
          free = λ lt. clear;
          loaded = λ lt. refl;
        }
      ]

  mark :
      (b ninodes : ℕ)
      → mark_block b j ninodes (busy_with (k.card (bblock b ninodes))) ≡ ok b (marked k j b ninodes)
  unfolding mark_block brelse bwrite
  mark b ninodes =
      let m = k.card (bblock b ninodes) in
      let m' = set_bit m (b % bpb) in
      let full : Buf = record { busy = true; bytes = m' } in
      ground (
        arith,
        at_busy m,
        at_busy m',
        set-set k.bufs j (record { busy = true; bytes = m }) full,
        set-set k.bufs j full (record { busy = false; bytes = m' }),
      )

-- With a free buffer, `balloc` panics exactly when the bitmap shows every block of the file system
-- in use; else it returns the lowest block that is free and sets that block's bit on the card. The
-- buffer is free again, and apart from its bytes nothing else changes.
pub balloc_cases :
    (k : Kernel) (j : ℕ) (b0 : Buf)
    → IsFirst k.bufs j b0
    → ((balloc k ≡ panicked Panic.balloc)
        × ((c : ℕ) → c < sb_size (k.card 1) → used k.card (sb_ninodes (k.card 1)) c ≡ true))
      ⊎ ((b : ℕ) × (b < sb_size (k.card 1))
          × (used k.card (sb_ninodes (k.card 1)) b ≡ false)
          × ((c : ℕ) → c < b → used k.card (sb_ninodes (k.card 1)) c ≡ true)
          × (balloc k ≡ ok b (marked k j b (sb_ninodes (k.card 1)))))
unfolding balloc
balloc_cases k j b0 h =
    let first = bread-IsFirst k 1 j b0 h in
    let s =
      scan k j b0 h (sb_size (k.card 1)) 0 (sb_ninodes (k.card 1)) (k.card 1)
        (λ ne. absurd (ne refl)) in
    elim (Bool-cases (leb (sb_size (k.card 1)) s.found)) [
      | inl all ↦ inl (
        ground (arith, first, at_busy k j b0 h (k.card 1), s.result),
        λ c lt. s.taken c (omega arith) (ground arith),
      )
      | inr some_free ↦ inr (
        s.found,
        ground arith,
        s.free (ground arith),
        λ c lt. s.taken c (omega arith) lt,
        ground (
          arith,
          first,
          at_busy k j b0 h (k.card 1),
          s.result,
          s.loaded (ground arith),
          mark k j b0 h s.found (sb_ninodes (k.card 1)),
        ),
      )
    ]
