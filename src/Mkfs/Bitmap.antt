-- ===== src/Mkfs/Bitmap.antt =====
-- The bitmap that mkfs writes, as the kernel reads it.
use gcgos.Base.{
  ℕ, zero, suc, ◌+◌, ◌/◌, ◌%◌, ◌^◌, ◌≤◌, ◌<◌, ◌≡◌, ◌≢◌, inl, inr, Bool, true, false, ◌&&◌, ◌||◌,
  arith, ap, ◌∙◌, ok, ltb, leb, Bytes, write, if◌then◌else◌,
}
use native.Mathlib.Nat.{zero-div}
use native.Mathlib.Decide.{dec_lt}
use gcgos.Kernel.{Buf, Kernel}
use gcgos.Fs.Layout.{bpb, bblock, sb_size, sb_ninodes}
use gcgos.Fs.Bio.Laws.{IsFirst}
use gcgos.Fs.Blocks.{bit_is_set, set_bit}
use gcgos.Fs.Blocks
use gcgos.Fs.Blocks.Bits.{bit_is_set-set_bit}
use gcgos.Fs.Blocks.Alloc.{used, marked, balloc_cases}
use gcgos.Mkfs.{wsect, Image, size, ninodes, bits_from, balloc}

bit_is_set-bits_from :
    (left i : ℕ) (m : Bytes) (c : ℕ)
    → bit_is_set (bits_from left i m) c ≡ (leb i c && ltb c (i + left)) || bit_is_set m c
unfolding bits_from
bit_is_set-bits_from zero i m c = ground arith
bit_is_set-bits_from (suc left) i m c =
    bit_is_set-bits_from left (i + 1) (set_bit m i) c
    ∙ ap (λ t. (leb (i + 1) c && ltb c (i + 1 + left)) || t) (bit_is_set-set_bit m i c)
    ∙ ground arith

below : (n c : ℕ) → (leb 0 c && ltb c (0 + n)) || bit_is_set (λ _. 0) c ≡ ltb c n
below n c = ground (arith, zero-div (2 ^ (c % 8)))

-- After mkfs has entered the first `n` blocks, at most 4096, into the bitmap, the kernel finds in use
-- exactly these among the blocks of the bitmap's sector; no other sector has changed.
used-balloc :
    (n : ℕ) (s : Image)
    → n ≤ bpb
    → (s' : Image) × (balloc n s ≡ ok tt s')
      × ((c : ℕ) → c < bpb → used s'.card ninodes c ≡ ltb c n)
      × ((x : ℕ) → x ≢ bblock 0 ninodes → s'.card x ≡ s.card x)
unfolding balloc wsect
used-balloc n s h =
    let m = bits_from n 0 (λ _. 0) in
    let s' : Image = record s {
      card = write s.card (ninodes / 3 + 3) m;
      sectors = if ltb (ninodes / 3 + 3) s.sectors then s.sectors else ninodes / 3 + 3 + 1;
    } in
    (
      s',
      ground arith,
      λ c lt.
          let here : write s.card (ninodes / 3 + 3) m (bblock c ninodes) ≡ m = ground arith in
          let low : c % bpb ≡ c = omega arith in
          ap (λ m. bit_is_set m (c % bpb)) here
          ∙ ap (bit_is_set m) low
          ∙ bit_is_set-bits_from n 0 (λ _. 0) c
          ∙ below n c,
      λ x ne. ground arith,
    )

-- The block that `balloc_cases` finds, when the blocks in use are those below `n`.
lowest :
    (n b : ℕ) (in_use : ℕ → Bool)
    → n < size
    → b < size
    → ((c : ℕ) → c < bpb → in_use c ≡ ltb c n)
    → in_use b ≡ false
    → ((c : ℕ) → c < b → in_use c ≡ true)
    → b ≡ n
lowest n b in_use fits lt all free first = elim (dec_lt n b) [
  | yes h ↦ absurd (ground (arith, first n h, all n (omega arith)))
  | no ge ↦ ground (arith, all b (omega arith))
]

-- On an image whose super block has the sizes of mkfs, and into whose bitmap mkfs has entered the first
-- `n` blocks, fewer than the file system has, the kernel's `balloc` with a free buffer returns block
-- `n`: the first that mkfs has not handed out.
pub balloc-balloc :
    (n : ℕ) (s s' : Image) (k : Kernel) (j : ℕ) (b0 : Buf)
    → n < size
    → balloc n s ≡ ok tt s'
    → k.card ≡ s'.card
    → sb_size (k.card 1) ≡ size
    → sb_ninodes (k.card 1) ≡ ninodes
    → IsFirst k.bufs j b0
    → Blocks.balloc k ≡ ok n (marked k j n ninodes)
balloc-balloc n s s' k j b0 fits run same sizes inodes h =
    let (t, run', all, rest) = used-balloc n s (omega arith) in
    let e : s' ≡ t = cc in
    let card : k.card ≡ t.card = same ∙ ap (λ i. i.card) e in
    let in_use : (c : ℕ) → c < bpb → used k.card (sb_ninodes (k.card 1)) c ≡ ltb c n =
      λ c lt. ap (λ m. used k.card m c) inodes ∙ ap (λ m. used m ninodes c) card ∙ all c lt in
    elim (balloc_cases k j b0 h) [
      | inl (panics, full) ↦ absurd (ground (arith, full n (omega arith), in_use n (omega arith)))
      | inr (b, lt, free, first, run'') ↦
          let found : b ≡ n = lowest n b _ fits (omega arith) in_use free first in
          run''
          ∙ ap (λ m. ok b (marked k j b m)) inodes
          ∙ ap (λ b. ok b (marked k j b ninodes)) found
    ]
