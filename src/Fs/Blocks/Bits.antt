-- ===== src/Fs/Blocks/Bits.antt =====
-- The bitmap of kernel/fs.c bit by bit: what setting and clearing one bit does to the others.
use gcgos.Base.{
  ℕ, zero, suc, ◌+◌, ◌-◌, ◌*◌, ◌/◌, ◌%◌, ◌^◌, ◌<◌, ◌≡◌, ◌≢◌, inl, inr, true, not, ◌&&◌, ◌||◌, arith,
  ap, sym, ◌∙◌, ◌==◌, Bytes, Bool-cases,
}
use native.Mathlib.Decide.{dec_lt}
use native.Mathlib.Nat.{add-mul-div_left, div-div-eq-div-mul, pow-suc, div-eq_of_lt}
use gcgos.Fs.Blocks.{bit_is_set, set_bit, clear_bit}

pub eq_of : (a b : ℕ) → (a == b) ≡ true → a ≡ b
eq_of a b h = ground arith

pow_two_pos : (i : ℕ) → 0 < 2 ^ i
pow_two_pos zero = omega arith
pow_two_pos (suc i) = rw pow-suc (omega (arith, pow_two_pos i))

two_pow_add : (j d : ℕ) → 2 ^ (j + d) ≡ 2 ^ j * 2 ^ d
two_pow_add zero d = let e : zero + d ≡ d = omega arith in ap (λ y. 2 ^ y) e ∙ omega arith
two_pow_add (suc j) d =
    let e = two_pow_add j d in
    let a : suc j + d ≡ suc (j + d) = omega arith in
    ap (λ y. 2 ^ y) a ∙ pow-suc 2 (j + d) ∙ rw (e, pow-suc 2 j) (grind arith)

-- The bits of a number above bit `j`.
shift : (x j d : ℕ) → x / 2 ^ (j + suc d) ≡ x / 2 ^ j / 2 / 2 ^ d
shift x j d =
    let e : 2 ^ (j + suc d) ≡ 2 ^ j * 2 * 2 ^ d =
      two_pow_add j (suc d) ∙ ap (λ y. 2 ^ j * y) (pow-suc 2 d) ∙ grind arith in
    rw e (
      sym (div-div-eq-div-mul x (2 ^ j * 2) (2 ^ d))
      ∙ ap (λ y. y / 2 ^ d) (sym (div-div-eq-div-mul x (2 ^ j) 2)))

plus_bit : (x j : ℕ) → (x + 2 ^ j) / 2 ^ j ≡ x / 2 ^ j + 1
plus_bit x j = ap (λ y. (x + y) / 2 ^ j) (omega arith) ∙ add-mul-div_left x 1 (pow_two_pos j)

-- Adding a power leaves the bits below as they are.
plus_bit_below : (x i d : ℕ) → (x + 2 ^ (i + suc d)) / 2 ^ i % 2 ≡ x / 2 ^ i % 2
plus_bit_below x i d =
    let e : 2 ^ (i + suc d) ≡ 2 ^ i * (2 * 2 ^ d) =
      two_pow_add i (suc d) ∙ ap (λ y. 2 ^ i * y) (pow-suc 2 d ∙ omega arith) in
    rw e (rw (add-mul-div_left x (2 * 2 ^ d) (pow_two_pos i)) (omega arith))

-- Where the bit is clear, it leaves the bits above as they are.
plus_bit_above :
    (x j d : ℕ) → x / 2 ^ j % 2 ≡ 0 → (x + 2 ^ j) / 2 ^ (j + suc d) ≡ x / 2 ^ (j + suc d)
plus_bit_above x j d clear =
    let e : (x + 2 ^ j) / 2 ^ j / 2 ≡ x / 2 ^ j / 2 =
      ap (λ y. y / 2) (plus_bit x j) ∙ omega (arith, clear) in
    shift (x + 2 ^ j) j d ∙ ap (λ y. y / 2 ^ d) e ∙ sym (shift x j d)

-- A bit that is clear is set by adding its power, and no other bit changes.
plus_bit_other : (x i j : ℕ) → x / 2 ^ j % 2 ≡ 0 → i ≢ j → (x + 2 ^ j) / 2 ^ i % 2 ≡ x / 2 ^ i % 2
plus_bit_other x i j clear ne = elim (dec_lt i j) [
  | yes lt ↦
      let e : j ≡ i + suc (j - i - 1) = omega arith in
      ap (λ y. (x + 2 ^ y) / 2 ^ i % 2) e ∙ plus_bit_below x i (j - i - 1)
  | no ge ↦
      let e : i ≡ j + suc (i - j - 1) = omega arith in
      ap (λ y. (x + 2 ^ j) / 2 ^ y % 2) e
      ∙ ap (λ y. y % 2) (plus_bit_above x j (i - j - 1) clear)
      ∙ ap (λ y. x / 2 ^ y % 2) (sym e)
]

div_zero : (x y : ℕ) → x < y → x / y ≡ 0
div_zero x y h = div-eq_of_lt h

-- A bit that is set, taken away.
minus_bit : (x j : ℕ) → x / 2 ^ j % 2 ≡ 1 → (x - 2 ^ j) + 2 ^ j ≡ x
minus_bit x j one = elim (dec_lt x (2 ^ j)) [
  | yes lt ↦ absurd (omega (arith, div_zero x (2 ^ j) lt))
  | no ge ↦ omega arith
]

minus_bit_self : (x j : ℕ) → x / 2 ^ j % 2 ≡ 1 → (x - 2 ^ j) / 2 ^ j % 2 ≡ 0
minus_bit_self x j one =
    let e = ap (λ y. y / 2 ^ j) (minus_bit x j one) in omega (arith, e, plus_bit (x - 2 ^ j) j)

minus_bit_other : (x i j : ℕ) → x / 2 ^ j % 2 ≡ 1 → i ≢ j → (x - 2 ^ j) / 2 ^ i % 2 ≡ x / 2 ^ i % 2
minus_bit_other x i j one ne =
    sym (plus_bit_other (x - 2 ^ j) i j (minus_bit_self x j one) ne)
    ∙ ap (λ y. y / 2 ^ i % 2) (minus_bit x j one)

-- Two places in the bitmap are the same when byte and bit are.
bits_apart : (b c : ℕ) → c / 8 ≡ b / 8 → c ≢ b → c % 8 ≢ b % 8
bits_apart b c e ne = omega arith

plus_bit_self : (x j : ℕ) → x / 2 ^ j % 2 ≡ 0 → (x + 2 ^ j) / 2 ^ j % 2 ≡ 1
plus_bit_self x j clear = omega (arith, plus_bit x j)

-- After a bit has been set, that bit is set, and the others are as they were.
pub bit_is_set-set_bit :
    (m : Bytes) (b c : ℕ) → bit_is_set (set_bit m b) c ≡ (c == b) || bit_is_set m c
bit_is_set-set_bit m b c = elim (Bool-cases (c == b)) [
  | inl hit ↦ let e = eq_of c b hit in rw e (ground (arith, plus_bit_self (m (b / 8)) (b % 8)))
  | inr miss ↦ elim (Bool-cases (c / 8 == b / 8)) [
    | inr far ↦ ground arith
    | inl near ↦
        let e = eq_of (c / 8) (b / 8) near in
        let o = plus_bit_other (m (b / 8)) (c % 8) (b % 8) in
        let ne = bits_apart b c e (ground arith) in rw e (ground (arith, o))
  ]
]

-- After a bit has been cleared, that bit is clear, and the others are as they were.
pub bit_is_set-clear_bit :
    (m : Bytes) (b c : ℕ) → bit_is_set (clear_bit m b) c ≡ not (c == b) && bit_is_set m c
bit_is_set-clear_bit m b c = elim (Bool-cases (c == b)) [
  | inl hit ↦ let e = eq_of c b hit in rw e (ground (arith, minus_bit_self (m (b / 8)) (b % 8)))
  | inr miss ↦ elim (Bool-cases (c / 8 == b / 8)) [
    | inr far ↦ ground arith
    | inl near ↦
        let e = eq_of (c / 8) (b / 8) near in
        let ne = bits_apart b c e (ground arith) in
        let o = minus_bit_other (m (b / 8)) (c % 8) (b % 8) in rw e (ground (arith, o))
  ]
]
