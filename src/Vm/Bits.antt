-- ===== src/Vm/Bits.antt =====
-- The bits of a page table entry: include/arm.h's PA2PTE and PTE2PA over `|`.
use Prim.Native.Nat.{max, digits, bit_or, bit_or-bitwise}
use native.Mathlib.Nat.{div-div-eq-div-mul, pow-suc}
use gcgos.Base.{ℕ, zero, suc, ◌+◌, ◌*◌, ◌/◌, ◌%◌, ◌^◌, ◌≤◌, ◌<◌, ◌≡◌, refl, arith, ap, sym, ◌∙◌}
use gcgos.Vm.{pa_to_pte, pte_to_pa, pte_flags, pte_af, pte_v, leaf}

-- The law for the lowest bit, from the digits that the native operation stands for.
abbrev or_digits : ℕ → ℕ → ℕ → ℕ
or_digits n a b = digits (λ b. b) max n a b

or_digits_fuel : (n m a b : ℕ) → a ≤ n → a ≤ m → or_digits n a b ≡ or_digits m a b
or_digits_fuel zero zero a b p q = refl
or_digits_fuel zero (suc m) zero b p q = refl
or_digits_fuel zero (suc m) (suc a) b p q = absurd (omega arith)
or_digits_fuel (suc n) zero zero b p q = refl
or_digits_fuel (suc n) zero (suc a) b p q = absurd (omega arith)
or_digits_fuel (suc n) (suc m) zero b p q = refl
or_digits_fuel (suc n) (suc m) (suc a) b p q =
    omega (arith, or_digits_fuel n m (suc a / 2) (b / 2) (omega arith) (omega arith))

zero-bit_or : (b : ℕ) → bit_or 0 b ≡ b
zero-bit_or b = bit_or-bitwise 0 b

bit_or_step : (a b : ℕ) → bit_or a b ≡ bit_or (a / 2) (b / 2) * 2 + max (a % 2) (b % 2)
bit_or_step zero b = omega (arith, zero-bit_or b, zero-bit_or (b / 2))
bit_or_step (suc a) b = omega (
  arith,
  bit_or-bitwise (suc a) b,
  bit_or-bitwise (suc a / 2) (b / 2),
  or_digits_fuel a (suc a / 2) (suc a / 2) (b / 2) (omega arith) (omega arith),
)

bit_or-zero_fuel : (n a : ℕ) → a ≤ n → bit_or a 0 ≡ a
bit_or-zero_fuel n zero h = refl
bit_or-zero_fuel zero (suc a) h = absurd (omega arith)
bit_or-zero_fuel (suc n) (suc a) h =
    omega (arith, bit_or_step (suc a) 0, bit_or-zero_fuel n (suc a / 2) (omega arith))

bit_or-zero : (a : ℕ) → bit_or a 0 ≡ a
bit_or-zero a = bit_or-zero_fuel a a (omega arith)

bit_or-half : (a b : ℕ) → bit_or a b / 2 ≡ bit_or (a / 2) (b / 2)
bit_or-half a b = omega (arith, bit_or_step a b)

div_one : (x : ℕ) → x / 2 ^ 0 ≡ x
div_one x = omega arith

div_step : (x n : ℕ) → x / 2 ^ suc n ≡ x / 2 ^ n / 2
div_step x n = ap (λ y. x / y) (pow-suc 2 n) ∙ sym (div-div-eq-div-mul x (2 ^ n) 2)

-- The bits from `n` on.
bit_or_shift : (n a b : ℕ) → bit_or a b / 2 ^ n ≡ bit_or (a / 2 ^ n) (b / 2 ^ n)
bit_or_shift zero a b = rw (div_one (bit_or a b), div_one a, div_one b)
bit_or_shift (suc n) a b =
    div_step (bit_or a b) n
    ∙ ap (λ x. x / 2) (bit_or_shift n a b)
    ∙ bit_or-half (a / 2 ^ n) (b / 2 ^ n)
    ∙ rw (div_step a n, div_step b n)

bit_or-low : (a b : ℕ) → b < 4096 → bit_or a b / 4096 ≡ a / 4096
bit_or-low a b h =
    let zero_high : b / 4096 ≡ 0 = omega arith in
    bit_or_shift 12 a b ∙ ap (bit_or (a / 4096)) zero_high ∙ bit_or-zero (a / 4096)

-- The page that `mappages` enters, with permission bits below the address, is what PTE2PA reads.
pub pte_to_pa-leaf :
    (pa perm : ℕ) → pa % 4096 ≡ 0 → pa < 2 ^ 48 → perm < 4096 → pte_to_pa (leaf pa perm) ≡ pa
pte_to_pa-leaf pa perm aligned fits low =
    let a = pa_to_pte pa in
    omega (
      arith,
      bit_or-low (bit_or (bit_or a perm) pte_af) pte_v (omega arith),
      bit_or-low (bit_or a perm) pte_af (omega arith),
      bit_or-low a perm low,
    )

-- The two bits PTE_V of such an entry are set.
pub leaf_low : (pa perm : ℕ) → leaf pa perm % 4 ≡ 3
leaf_low pa perm =
    let x = bit_or (bit_or (pa_to_pte pa) perm) pte_af in
    omega (arith, bit_or_step x 3, bit_or_step (x / 2) 1)

-- The lowest `n` bits.
low_bits : ℕ → ℕ → ℕ
low_bits zero a = 0
low_bits (suc n) a = low_bits n (a / 2) * 2 + a % 2

low_ten : (a : ℕ) → low_bits 10 a ≡ a % 1024
unfolding low_bits
low_ten a = omega arith

-- Of two numbers, one that has none of the low bits adds none.
low_bits-bit_or : (n a b : ℕ) → low_bits n b ≡ 0 → low_bits n (bit_or a b) ≡ low_bits n a
unfolding low_bits
low_bits-bit_or zero a b none = refl
low_bits-bit_or (suc n) a b none = omega (
  arith,
  bit_or_step a b,
  ap (low_bits n) (bit_or-half a b) ∙ low_bits-bit_or n (a / 2) (b / 2) (omega arith),
)

low_bits-bit_or_left : (n a b : ℕ) → low_bits n a ≡ 0 → low_bits n (bit_or a b) ≡ low_bits n b
unfolding low_bits
low_bits-bit_or_left zero a b none = refl
low_bits-bit_or_left (suc n) a b none = omega (
  arith,
  bit_or_step a b,
  ap (low_bits n) (bit_or-half a b) ∙ low_bits-bit_or_left n (a / 2) (b / 2) (omega arith),
)

bit_or-three : (y : ℕ) → y % 4 ≡ 3 → bit_or y 3 ≡ y
bit_or-three y set = omega (arith, bit_or_step y 3, bit_or_step (y / 2) 1, bit_or-zero (y / 2 / 2))

-- The attributes that `mappages` enters for a page are what PTE_FLAGS reads, if they have both bits
-- of PTE_V.
pub pte_flags-leaf :
    (pa perm : ℕ) → pa % 4096 ≡ 0 → perm < 1024 → perm % 4 ≡ 3 → pte_flags (leaf pa perm) ≡ perm
pte_flags-leaf pa perm aligned low set =
    let a = pa_to_pte pa in
    let x = bit_or (bit_or a perm) pte_af in
    let flags : x % 1024 ≡ perm = omega (
      arith,
      low_ten x,
      low_ten (bit_or a perm),
      low_ten perm,
      low_bits-bit_or 10 (bit_or a perm) pte_af (omega (arith, low_ten pte_af)),
      low_bits-bit_or_left 10 a perm (omega (arith, low_ten a)),
    ) in
    ap pte_flags (bit_or-three x (omega arith)) ∙ flags
