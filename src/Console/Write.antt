-- ===== src/Console/Write.antt =====
-- What `console_write` of kernel/console.c sends.
use gcgos.Base.{
  ℕ, zero, suc, ◌+◌, ◌%◌, ◌^◌, ◌<◌, ◌≡◌, refl, List, [], ◌∷◌, ◌++◌, arith, ok, load8, All, ap, sym,
  ◌∙◌, false, ◌==◌,
}
use native.Mathlib.Nat.{mod-lt}
use gcgos.Kernel.{Kernel}
use gcgos.Console.{
  send_char, consputc, rounds, put_all, console_write, backspace, print_text, acquire_line,
  release_line,
}

-- The bytes of memory from `b` on.
unfoldable pub bytes_from : (left b : ℕ) → (ℕ → ℕ) → List ℕ
bytes_from zero b w = []
bytes_from (suc left) b w = load8 w b ∷ bytes_from left (b + 1) w

load8_byte : (w : ℕ → ℕ) (b : ℕ) → load8 w b < 256
unfolding load8
load8_byte w b = mod-lt _ (omega arith)

pub append_assoc : (xs ys zs : List ℕ) → (xs ++ ys) ++ zs ≡ xs ++ (ys ++ zs)
append_assoc [] ys zs = refl
append_assoc (x ∷ xs) ys zs = ap (λ l. x ∷ l) (append_assoc xs ys zs)

pub append_nil : (xs : List ℕ) → xs ++ [] ≡ xs
append_nil [] = refl
append_nil (x ∷ xs) = ap (λ l. x ∷ l) (append_nil xs)

-- A byte is never the code of BACKSPACE, and is sent as it is.
pub consputc_byte :
    (c : ℕ) (k : Kernel) → c < 256 → consputc c k ≡ record k { uart = k.uart ++ c ∷ [] }
unfolding consputc send_char
consputc_byte c k h =
    let e : c % 256 ≡ c = omega arith in
    let n : (c == backspace) ≡ false = ground arith in rw (n, e) refl

put_all_lem :
    (left b : ℕ) (k : Kernel)
    → put_all left b k ≡ record k { uart = k.uart ++ bytes_from left b k.kmem.word }
unfolding put_all bytes_from
put_all_lem zero b k = ap (λ u. record k { uart = u }) (sym (append_nil k.uart))
put_all_lem (suc left) b k =
    let c = load8 k.kmem.word b in
    ap (put_all left (b + 1)) (consputc_byte c k (load8_byte k.kmem.word b))
    ∙ put_all_lem left (b + 1) (record k { uart = k.uart ++ c ∷ [] })
    ∙ ap (λ u. record k { uart = u })
        (append_assoc k.uart (c ∷ []) (bytes_from left (b + 1) k.kmem.word))

print_text_lem :
    (s : List ℕ) (k : Kernel)
    → All (λ c. c < 256) s
    → print_text s k ≡ record k { uart = k.uart ++ s }
unfolding print_text
print_text_lem [] k small = ap (λ u. record k { uart = u }) (sym (append_nil k.uart))
print_text_lem (c ∷ s) k small =
    ap (print_text s) (consputc_byte c k small.0)
    ∙ print_text_lem s (record k { uart = k.uart ++ c ∷ [] }) small.1
    ∙ ap (λ u. record k { uart = u }) (append_assoc k.uart (c ∷ []) s)

-- The lines have characters of one byte only.
acquire_line-All : All (λ c. c < 256) acquire_line
acquire_line-All = (
  omega arith,
  (
    omega arith,
    (
      omega arith,
      (
        omega arith,
        (
          omega arith,
          (
            omega arith,
            (
              omega arith,
              (
                omega arith,
                (
                  omega arith,
                  (
                    omega arith,
                    (omega arith, (omega arith, (omega arith, (omega arith, (omega arith, tt))))),
                  ),
                ),
              ),
            ),
          ),
        ),
      ),
    ),
  ),
)

release_line-All : All (λ c. c < 256) release_line
release_line-All = (
  omega arith,
  (
    omega arith,
    (
      omega arith,
      (
        omega arith,
        (
          omega arith,
          (
            omega arith,
            (
              omega arith,
              (
                omega arith,
                (
                  omega arith,
                  (
                    omega arith,
                    (omega arith, (omega arith, (omega arith, (omega arith, (omega arith, tt))))),
                  ),
                ),
              ),
            ),
          ),
        ),
      ),
    ),
  ),
)

-- `console_write` of `n` bytes, `n` a positive int or 0, sends exactly the bytes of memory at `buf`,
-- in order, between the lines of `acquire` and `release` and behind what has been sent before, returns
-- `n`, and changes nothing else.
pub console_write_lem :
    (minor buf n : ℕ) (k : Kernel)
    → n < 2 ^ 31
    → console_write minor buf n k
      ≡ ok n (record k {
        uart = k.uart ++ (acquire_line ++ (bytes_from n buf k.kmem.word ++ release_line));
      })
unfolding console_write
console_write_lem minor buf n k h =
    let r : rounds n ≡ n = ground arith in
    let bytes = bytes_from n buf k.kmem.word in
    let u1 = k.uart ++ acquire_line in
    let k1 = record k { uart = u1 } in
    let k2 = record k { uart = u1 ++ bytes } in
    let e =
      ap (λ x. print_text release_line (put_all n buf x))
        (print_text_lem acquire_line k acquire_line-All)
      ∙ ap (print_text release_line) (put_all_lem n buf k1)
      ∙ print_text_lem release_line k2 release_line-All
      ∙ ap (λ u. record k { uart = u })
          (append_assoc u1 bytes release_line
            ∙ append_assoc k.uart acquire_line (bytes ++ release_line)) in
    rw r (ap (ok n) e)
