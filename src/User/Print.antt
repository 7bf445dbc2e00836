-- ===== src/User/Print.antt =====
-- user/printf.c, which is kernel/printf.c but for the function that takes a character.
use gcgos.Base.{ℕ, ◌%◌, Option, none, some, List, [], ◌∷◌, pure, fault, ◌>>=◌, ◌>>◌}
use gcgos.Printf.{Arg, printf_with}
use gcgos.User.{System, set_byte}
use gcgos.User.Ulib.{Run, write}

module _ (s : System) where
  -- `putc`; `c` is the address of its parameter, of which the value is a char.
  unfoldable pub putc : (c fd ch : ℕ) → Run s (Unit {0})
  putc c fd ch = do set_byte c (ch % 256); write s fd c 1 >>= λ _. pure tt

  unfoldable pub put_each : (c fd : ℕ) → List ℕ → Run s (Unit {0})
  put_each c fd [] = pure tt
  put_each c fd (ch ∷ str) = do putc c fd ch; put_each c fd str

  unfoldable pub put_chars : (c fd : ℕ) → Option (List ℕ) → Run s (Unit {0})
  put_chars c fd none = fault
  put_chars c fd (some str) = put_each c fd str

  unfoldable pub printf : (c fd : ℕ) → List ℕ → List Arg → Run s (Unit {0})
  printf c fd fmt args = put_chars c fd (printf_with (λ ch. ch % 256 ∷ []) fmt args)
