-- ===== src/Base/Words.antt =====
-- Bytes of 64-bit words: a byte that has been stored is loaded again, and the others stay.
use Prim.Native.Nat.{ℕ, zero, suc, ◌+◌, ◌-◌, ◌*◌, ◌/◌, ◌%◌, ◌^◌}
use mathlib.Core.Path.{◌≡◌, refl, sym, ap, ◌∙◌}
use mathlib.Core.Bool.{Bool, true, false, ◌&&◌}
use mathlib.Core.Logic.{◌≢◌, inl, inr}
use native.Mathlib.Numerals.{add-one}
use native.Mathlib.Omega.{arith}
use native.Mathlib.Nat.{div-div-eq-div-mul, mod-eq-sub-mul-div, mul-div-le, pow-succ', mul_assoc}
use gcgos.Base.Tests.{leb, ltb, ◌==◌, if◌then◌else◌, Bool-cases}
use gcgos.Base.Memory.{load8, store8}

-- Byte `k` of a word, and the word with that byte replaced.
byte : (w k : ℕ) → ℕ
byte w k = w / 256 ^ k % 256

put_byte : (w k v : ℕ) → ℕ
put_byte w k v = w / 256 ^ suc k * 256 ^ suc k + v % 256 * 256 ^ k + w % 256 ^ k

pow_step : (k : ℕ) → 256 ^ suc k ≡ 256 * 256 ^ k
pow_step k = pow-succ' 256 k

div_step : (w k : ℕ) → w / 256 ^ suc k ≡ w / 256 / 256 ^ k
div_step w k = ap (λ p. w / p) (pow_step k) ∙ sym (div-div-eq-div-mul w 256 (256 ^ k))

mod_step : (w k : ℕ) → w % 256 ^ suc k ≡ 256 * (w / 256 % 256 ^ k) + w % 256
mod_step w k =
    let p = 256 ^ k in
    let q = w / 256 in
    let whole = mod-eq-sub-mul-div w (256 ^ suc k) in
    let part = mod-eq-sub-mul-div q p in
    let top : 256 ^ suc k * (w / 256 ^ suc k) ≡ 256 * (p * (q / p)) =
      rw (pow_step k, sym (div-div-eq-div-mul w 256 p)) (mul_assoc 256 p (q / p)) in
    omega (arith, whole, part, top, mul-div-le q p)

put_step : (w k v : ℕ) → put_byte w (suc k) v ≡ 256 * put_byte (w / 256) k v + w % 256
unfolding put_byte
put_step w k v =
    let a = div_step w (suc k) in
    let b = mod_step w k in
    let c = pow_step (suc k) in let d = pow_step k in rw (a, b, c, d) (grind arith)

byte_step : (w j : ℕ) → byte w (suc j) ≡ byte (w / 256) j
unfolding byte
byte_step w j = ap (λ x. x % 256) (div_step w j)

put_byte_low : (w v : ℕ) → put_byte w 0 v ≡ 256 * (w / 256) + v % 256
unfolding put_byte
put_byte_low w v = omega arith

byte_low : (w : ℕ) → byte w 0 ≡ w % 256
unfolding byte
byte_low w = omega arith

byte-put_byte : (w k j v : ℕ) → byte (put_byte w k v) j ≡ (if k == j then v % 256 else byte w j)
byte-put_byte w zero zero v = byte_low _ ∙ omega (arith, put_byte_low w v)
byte-put_byte w zero (suc j) v =
    let e : put_byte w 0 v / 256 ≡ w / 256 = omega (arith, put_byte_low w v) in
    byte_step _ j ∙ ap (λ x. byte x j) e ∙ sym (byte_step w j) ∙ ground arith
byte-put_byte w (suc k) zero v =
    byte_low _ ∙ omega (arith, put_step w k v) ∙ sym (byte_low w) ∙ ground arith
byte-put_byte w (suc k) (suc j) v =
    let e : put_byte w (suc k) v / 256 ≡ put_byte (w / 256) k v = omega (arith, put_step w k v) in
    byte_step _ j
    ∙ ap (λ x. byte x j) e
    ∙ byte-put_byte (w / 256) k j v
    ∙ ap (λ b. if k == j then v % 256 else b) (sym (byte_step w j))
    ∙ ground arith

store8_at : (w : ℕ → ℕ) (a v : ℕ) → store8 w a v (a / 8 * 8) ≡ put_byte (w (a / 8 * 8)) (a % 8) v
unfolding store8 put_byte
store8_at w a v = rw add-one (ground arith)

store8_off : (w : ℕ → ℕ) (a v x : ℕ) → x ≢ a / 8 * 8 → store8 w a v x ≡ w x
unfolding store8
store8_off w a v x ne = ground arith

-- A byte that has been stored is loaded, and every other byte is as before.
pub load8-store8 :
    (w : ℕ → ℕ) (a b v : ℕ) → load8 (store8 w a v) b ≡ (if a == b then v % 256 else load8 w b)
unfolding load8 byte
load8-store8 w a b v = elim (Bool-cases (b / 8 == a / 8)) [
  | inl near ↦
      let e : b / 8 * 8 ≡ a / 8 * 8 = ground arith in
      let same : (a % 8 == b % 8) ≡ (a == b) = ground arith in
      ap (λ x. byte (store8 w a v x) (b % 8)) e
      ∙ ap (λ x. byte x (b % 8)) (store8_at w a v)
      ∙ byte-put_byte (w (a / 8 * 8)) (a % 8) (b % 8) v
      ∙ ap (λ t. if t then v % 256 else byte (w (a / 8 * 8)) (b % 8)) same
      ∙ ap (λ x. if a == b then v % 256 else byte (w x) (b % 8)) (sym e)
  | inr far ↦
      let ne : b / 8 * 8 ≢ a / 8 * 8 = λ e. absurd (ground arith) in
      let other : (a == b) ≡ false = ground arith in
      ap (λ x. byte x (b % 8)) (store8_off w a v (b / 8 * 8) ne) ∙ rw other refl
]

pub load8-mod : (w : ℕ → ℕ) (a : ℕ) → load8 w a % 256 ≡ load8 w a
unfolding load8
load8-mod w a = omega arith

-- `x` lies among the `n` places from `a` on.
abbrev pub among : (a n x : ℕ) → Bool
among a n x = leb a x && ltb x (a + n)

-- The step of a copy: the first place, and then the `n` places behind it.
pub among_step :
    (n a b x first rest : ℕ) (f : ℕ → ℕ)
    → (x ≡ a → first ≡ f b)
    → (x ≢ a → first ≡ rest)
    → (if among (a + 1) n x then f (b + 1 + (x - (a + 1))) else first)
      ≡ (if among a (suc n) x then f (b + (x - a)) else rest)
among_step n a b x first rest f here there = elim (Bool-cases (x == a)) [
  | inl e ↦
      let same : x ≡ a = ground arith in
      let zero_off : b + (x - a) ≡ b = omega arith in rw zero_off (ground (arith, here same))
  | inr ne ↦
      let other : x ≢ a = λ e. absurd (ground arith) in
      elim (Bool-cases (among (a + 1) n x)) [
        | inl behind ↦
            let off : b + 1 + (x - (a + 1)) ≡ b + (x - a) = ground arith in
            let now : among a (suc n) x ≡ true = ground arith in rw (behind, now) (ap f off)
        | inr out ↦
            let now : among a (suc n) x ≡ false = ground arith in rw (out, now) (there other)
      ]
]
