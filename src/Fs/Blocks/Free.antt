-- ===== src/Fs/Blocks/Free.antt =====
-- `bfree` of kernel/fs.c after `balloc`.
use gcgos.Base.{
  ℕ, ◌+◌, ◌/◌, ◌%◌, ◌≡◌, ◌≢◌, ◌⊎◌, inl, inr, refl, Bool, true, false, not, ◌&&◌, ◌||◌, arith, ok,
  panicked, Panic, ◌==◌, write, Bytes, set, set-set, Bool-cases, ap, sym, ◌∙◌,
}
use gcgos.Kernel.{Buf, Kernel}
use gcgos.Fs.Layout.{bpb, bblock, sb_ninodes}
use gcgos.Fs.Bio.{brelse, bwrite}
use gcgos.Fs.Bio.Laws.{IsFirst, IsFirst-set, bread-IsFirst}
use gcgos.Fs.Blocks.{bit_is_set, set_bit, clear_bit, balloc, bfree}
use gcgos.Fs.Blocks.Bits.{bit_is_set-set_bit, bit_is_set-clear_bit, eq_of}
use gcgos.Fs.Blocks.Alloc.{used, marked, at_busy, bread-idle, balloc_cases}

write_self : (card : ℕ → Bytes) (x y : ℕ) (m : Bytes) → y ≡ x → write card x m y ≡ m
write_self card x y m e = ground arith

pub write_other : (card : ℕ → Bytes) (x y : ℕ) (m : Bytes) → y ≢ x → write card x m y ≡ card y
write_other card x y m ne = ground arith

-- Whether a block is in use after the bitmap sector of block `b` has been replaced.
used-write :
    (card : ℕ → Bytes) (ninodes b c : ℕ) (m : Bytes) (v : Bool)
    → (c / bpb ≡ b / bpb → bit_is_set m (c % bpb) ≡ v)
    → (c / bpb ≢ b / bpb → used card ninodes c ≡ v)
    → used (write card (bblock b ninodes) m) ninodes c ≡ v
used-write card ninodes b c m v near far = elim (Bool-cases (c / bpb == b / bpb)) [
  | inl h ↦
      let e = eq_of (c / bpb) (b / bpb) h in
      let s =
        write_self card (bblock b ninodes) (bblock c ninodes) m (ap (λ x. x + ninodes / 3 + 3) e) in
      ap (λ m. bit_is_set m (c % bpb)) s ∙ near e
  | inr h ↦
      let ne : c / bpb ≢ b / bpb = λ e. absurd (ground arith) in
      let s = write_other card (bblock b ninodes) (bblock c ninodes) m (λ e. ne (omega arith)) in
      ap (λ m. bit_is_set m (c % bpb)) s ∙ far ne
]

same_place : (b c : ℕ) → c / bpb ≡ b / bpb → (c % bpb == b % bpb) ≡ (c == b)
same_place b c near = elim (Bool-cases (c == b)) [ inl h ↦ ground arith | inr h ↦ ground arith ]

apart : (b c : ℕ) → c / bpb ≢ b / bpb → false ≡ (c == b)
apart b c far = elim (Bool-cases (c == b)) [ inl h ↦ absurd (far (ground arith)) | inr h ↦ sym h ]

-- Marking a block makes it used, and no other.
pub used-marked :
    (k : Kernel) (j b ninodes c : ℕ)
    → used (marked k j b ninodes).card ninodes c ≡ (c == b) || used k.card ninodes c
used-marked k j b ninodes c =
    used-write k.card ninodes b c _ _
      (λ near.
        bit_is_set-set_bit (k.card (bblock b ninodes)) (b % bpb) (c % bpb)
        ∙ ap (λ t. t || bit_is_set (k.card (bblock b ninodes)) (c % bpb)) (same_place b c near)
        ∙ ap (λ x. (c == b) || bit_is_set (k.card (x + ninodes / 3 + 3)) (c % bpb)) (sym near))
      (λ far. ap (λ t. t || used k.card ninodes c) (apart b c far))

-- The kernel after `bfree` of block `b`.
abbrev pub cleared : Kernel → (j b ninodes : ℕ) → Kernel
cleared k j b ninodes =
    let m = clear_bit (k.card (bblock b ninodes)) (b % bpb) in
    record k {
      card = write k.card (bblock b ninodes) m;
      bufs = set k.bufs j (record { busy = false; bytes = m });
    }

pub used-cleared :
    (k : Kernel) (j b ninodes c : ℕ)
    → used (cleared k j b ninodes).card ninodes c ≡ not (c == b) && used k.card ninodes c
used-cleared k j b ninodes c =
    used-write k.card ninodes b c _ _
      (λ near.
        bit_is_set-clear_bit (k.card (bblock b ninodes)) (b % bpb) (c % bpb)
        ∙ ap (λ t. not t && bit_is_set (k.card (bblock b ninodes)) (c % bpb)) (same_place b c near)
        ∙ ap (λ x. not (c == b) && bit_is_set (k.card (x + ninodes / 3 + 3)) (c % bpb)) (sym near))
      (λ far. ap (λ t. not t && used k.card ninodes c) (apart b c far))

pub bfree_lem :
    (k : Kernel) (j b : ℕ) (b0 : Buf)
    → IsFirst k.bufs j b0
    → bfree b k ≡ ok tt (cleared k j b (sb_ninodes (k.card 1)))
unfolding bfree brelse bwrite
bfree_lem k j b b0 h =
    let m = k.card (bblock b (sb_ninodes (k.card 1))) in
    let m' = clear_bit m (b % bpb) in
    let full : Buf = record { busy = true; bytes = m' } in
    ground (
      arith,
      bread-IsFirst k 1 j b0 h,
      at_busy k j b0 h (k.card 1),
      set-set k.bufs j (record { busy = true; bytes = k.card 1 })
          (record { busy = false; bytes = k.card 1 }),
      bread-idle k j b0 h (k.card 1) (bblock b (sb_ninodes (k.card 1))),
      at_busy k j b0 h m,
      at_busy k j b0 h m',
      set-set k.bufs j (record { busy = true; bytes = m }) full,
      set-set k.bufs j full (record { busy = false; bytes = m' }),
    )

freed_again :
    (b c : ℕ) (v w : Bool) → v ≡ (c == b) || w → (c ≡ b → w ≡ false) → not (c == b) && v ≡ w
freed_again b c v w e h = elim (Bool-cases (c == b)) [
  | inl hit ↦ ground arith
  | inr miss ↦ ground arith
]

-- With a free buffer, `balloc` panics, or it makes one block used and `bfree` of that block undoes
-- it: every block is in use exactly as before.
pub bfree-balloc :
    (k : Kernel) (j : ℕ) (b0 : Buf)
    → IsFirst k.bufs j b0
    → (balloc k ≡ panicked Panic.balloc)
      ⊎ ((b : ℕ) × (k1 k2 : Kernel) × (balloc k ≡ ok b k1)
          × ((c : ℕ)
              → used k1.card (sb_ninodes (k.card 1)) c
                ≡ (c == b) || used k.card (sb_ninodes (k.card 1)) c)
          × (bfree b k1 ≡ ok tt k2)
          × ((c : ℕ)
              → used k2.card (sb_ninodes (k.card 1)) c ≡ used k.card (sb_ninodes (k.card 1)) c))
bfree-balloc k j b0 h = elim (balloc_cases k j b0 h) [
  | inl (full, _) ↦ inl full
  | inr (b, lt, free, first, run) ↦
      let n = sb_ninodes (k.card 1) in
      let k1 = marked k j b n in
      let super_block =
        write_other k.card (bblock b n) 1 (set_bit (k.card (bblock b n)) (b % bpb)) (omega arith) in
      inr (
        b,
        k1,
        cleared k1 j b n,
        run,
        used-marked k j b n,
        bfree_lem k1 j b _ (IsFirst-set k.bufs j b0 _ h refl)
            ∙ ap (λ m. ok tt (cleared k1 j b (sb_ninodes m))) super_block,
        λ c.
            used-cleared k1 j b n c
            ∙ freed_again b c _ _ (used-marked k j b n c) (λ e. ap (used k.card n) e ∙ free),
      )
]
