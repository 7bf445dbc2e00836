-- ===== src/Printf/Tests.antt =====
-- The theorems about `printint` of kernel/printf.c at concrete numbers.
use gcgos.Base.{ℕ, ◌≡◌, ◌≤◌, false, some, List, arith, length}
use mathlib.Core.List.{reverse}
use gcgos.Printf.{printint}
use gcgos.Printf.Digits.{value_of, printint-value}

printint-value_example :
    (s : List ℕ) × (printint 48879 16 false ≡ some s)
    × (value_of 16 (reverse s) ≡ 48879)
    × (length s ≤ 20)
printint-value_example = printint-value 48879 16 (omega arith) (omega arith) (omega arith)
