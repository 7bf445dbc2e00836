-- ===== src/Console/Tests.antt =====
-- The theorems about kernel/console.c on the small kernel.
use gcgos.Base.{ℕ, ◌≡◌, List, [], ◌∷◌, ◌++◌, map, refl, false, ok, arith, among, load8}
use gcgos.Kernel.{Kernel}
use gcgos.Samples.{sample}
use gcgos.Console.{get_char, console_read, pl011_uart_intr}
use gcgos.Console.Write.{bytes_from}
use gcgos.Console.Line.{typed, AreText, console_read-pl011_uart_intr}

-- "ls" and a carriage return.
abbrev keys : List ℕ
keys = 108 ∷ 115 ∷ 13 ∷ []

keys-AreText : AreText (map typed keys)
unfolding get_char
keys-AreText = (
  λ e. absurd (omega (arith, e)),
  omega arith,
  (λ e. absurd (omega (arith, e)), omega arith, (λ e. absurd (omega (arith, e)), omega arith, tt)),
)

console_read-pl011_uart_intr_example :
    (k1 k2 : Kernel) × (pl011_uart_intr keys sample ≡ ok tt k1)
    × (console_read 0 600 3 k1 ≡ ok 3 k2)
    × (bytes_from 3 600 k2.kmem.word ≡ 108 ∷ 115 ∷ 10 ∷ [])
    × ((x : ℕ) → among 600 3 x ≡ false → load8 k2.kmem.word x ≡ load8 sample.kmem.word x)
    × (k2.uart ≡ sample.uart ++ 108 ∷ 115 ∷ 10 ∷ [])
    × (k2.cons.r ≡ k2.cons.w)
unfolding get_char
console_read-pl011_uart_intr_example =
    console_read-pl011_uart_intr keys 0 600 sample refl refl (omega arith) (omega arith)
      keys-AreText
