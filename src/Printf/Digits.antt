-- ===== src/Printf/Digits.antt =====
-- The digits that `printint` of kernel/printf.c prints, against the number that they stand for.
use gcgos.Base.{
  ℕ, zero, suc, ◌+◌, ◌-◌, ◌*◌, ◌/◌, ◌%◌, ◌^◌, ◌≤◌, ◌<◌, ◌≡◌, Bool, false, none, some, List, [], ◌∷◌,
  arith, if◌then◌else◌, ◌==◌, leb, length, Bool-cases, inl, inr, ◌∙◌,
}
use mathlib.Core.List.{reverse, reverse_aux, reverse-reverse}
use native.Mathlib.Decide.{dec_lt}
use native.Mathlib.Nat.{div-add-mod, mod-lt, div-lt_iff_lt-mul, pow-suc, pow-zero, pow-le-pow_left}
use gcgos.Printf.{digit, digits_from, printint}

-- The value of a digit's character.
unfoldable pub digit_value : ℕ → ℕ
digit_value c = if leb b'a' c then c + 10 - b'a' else c - b'0'

-- The number that a list of digits stands for, the last one first.
unfoldable pub value_of : (base : ℕ) → List ℕ → ℕ
value_of base [] = 0
value_of base (c ∷ cs) = digit_value c + base * value_of base cs

digit_value-digit : (d : ℕ) → d < 16 → digit_value (digit d) ≡ d
unfolding digit_value
digit_value-digit d h = ground arith

pow_pos : (base n : ℕ) → 2 ≤ base → 0 < base ^ n
pow_pos base zero lo = rw pow-zero (omega arith)
pow_pos base (suc n) lo = rw pow-suc (grind (arith, pow_pos base n lo))

pow_one : (base x : ℕ) → x < base ^ 1 → x < 1 * base
pow_one base x h = let e : base ^ 1 ≡ 1 * base = pow-suc base 0 ∙ rw pow-zero in omega (arith, e)

length-reverse_aux : (xs ys : List ℕ) → length (reverse_aux xs ys) ≡ length xs + length ys
length-reverse_aux [] ys = omega arith
length-reverse_aux (x ∷ xs) ys = omega (arith, length-reverse_aux xs (x ∷ ys))

length-reverse : (xs : List ℕ) → length (reverse xs) ≡ length xs
length-reverse xs = omega (arith, length-reverse_aux xs [])

quotient_zero : (base q r x : ℕ) → q ≡ 0 → base * q + r ≡ x → r + base * 0 ≡ x
quotient_zero base q r x e split = grind arith

quotient_fits : (fuel x base : ℕ) → 2 ≤ base → x < 2 ^ suc fuel → x / base < 2 ^ fuel
quotient_fits fuel x base lo h = (div-lt_iff_lt-mul (omega arith)).1 (grind (arith, pow-suc))

-- A power of two above the number bounds the rounds of the loop.
pub digits_from-value :
    (fuel x base : ℕ)
    → 2 ≤ base
    → base ≤ 16
    → x < 2 ^ fuel
    → value_of base (digits_from fuel x base) ≡ x
unfolding digits_from value_of
digits_from-value zero x base lo hi h = omega arith
digits_from-value (suc fuel) x base lo hi h =
    let split = div-add-mod x base in
    let low = mod-lt x {m = base} (omega arith) in
    let last = digit_value-digit (x % base) (omega arith) in
    elim (Bool-cases (x / base == 0)) [
      | inl done ↦ rw (done, last) (quotient_zero base (x / base) (x % base) x (ground arith) split)
      | inr more ↦
          rw (more, last)
            (rw (digits_from-value fuel (x / base) base lo hi (quotient_fits fuel x base lo h))
              (omega (arith, split)))
    ]

quotient_lt : (x base p : ℕ) → 2 ≤ base → x < p * base → x / base < p
quotient_lt x base p lo h = (div-lt_iff_lt-mul (omega arith)).1 h

quotient_ge : (x base p : ℕ) → 2 ≤ base → p * base ≤ x → p ≤ x / base
quotient_ge x base p lo h = elim (dec_lt (x / base) p) [
  | yes lt ↦ absurd (
      let b = (div-lt_iff_lt-mul {k = base} {x = x} {y = p} (omega arith)).0 lt in omega (arith, b))
  | no ge ↦ omega arith
]

-- A number below `base ^ (n + 1)` has at most n + 1 digits, and one from `base ^ n` on more than n.
digits_from-length-le :
    (fuel x base n : ℕ) → 2 ≤ base → x < base ^ suc n → length (digits_from fuel x base) ≤ suc n
unfolding digits_from
digits_from-length-le zero x base n lo h = omega arith
digits_from-length-le (suc fuel) x base zero lo h =
    let q = quotient_lt x base 1 lo (pow_one base x h) in ground arith
digits_from-length-le (suc fuel) x base (suc n) lo h =
    let rest =
      digits_from-length-le fuel (x / base) base n lo
        (quotient_lt x base (base ^ suc n) lo (rw (← pow-suc) h)) in
    ground (arith, rest)

lt-length-digits_from :
    (fuel x base n : ℕ) → 2 ≤ base → n < fuel → base ^ n ≤ x → n < length (digits_from fuel x base)
unfolding digits_from
lt-length-digits_from zero x base n lo f h = absurd (omega arith)
lt-length-digits_from (suc fuel) x base zero lo f h = ground arith
lt-length-digits_from (suc fuel) x base (suc n) lo f h =
    let q = quotient_ge x base (base ^ n) lo (rw (← pow-suc) h) in
    let rest = lt-length-digits_from fuel (x / base) base n lo (omega arith) q in
    let pos = pow_pos base n lo in ground (arith, rest)

-- An unsigned 64-bit number printed in a base from 10 to 16 fits the buffer of `printint`, and what
-- is printed, read from its last digit up, stands for the number.
pub printint-value :
    (x base : ℕ)
    → x < 2 ^ 64
    → 10 ≤ base
    → base ≤ 16
    → (s : List ℕ) × (printint x base false ≡ some s)
      × (value_of base (reverse s) ≡ x)
      × (length s ≤ 20)
unfolding printint
printint-value x base fits lo hi =
    let mono = pow-le-pow_left lo 20 in
    let short : length (digits_from 64 x base) ≤ 20 =
      digits_from-length-le 64 x base 19 (omega arith) (omega (arith, mono)) in
    (
      reverse (digits_from 64 x base),
      ground (arith, short),
      rw reverse-reverse (digits_from-value 64 x base (omega arith) hi fits),
      rw length-reverse short,
    )

-- In base 2 a number from 2^20 to 2^63 - 1 overruns the 20 characters of the buffer of `printint`.
printint_binary : (x : ℕ) (sign : Bool) → 2 ^ 20 ≤ x → x < 2 ^ 63 → printint x 2 sign ≡ none
unfolding printint
printint_binary x sign lo hi =
    let long = lt-length-digits_from 64 x 2 20 (omega arith) (omega arith) lo in
    ground (arith, long)
