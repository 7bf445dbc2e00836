-- ===== src/User.antt =====
-- The programs in user/, over the system calls as `svc` makes them: a program sees its memory, byte by
-- byte, and a world behind the system calls, which is a parameter. Ints are kept modulo 2^32. The
-- stubs of ulib.c pass their arguments in the registers in which they get them.
pub mod Ulib
pub mod Print
pub mod Programs
pub mod Puts
pub mod Tests
use gcgos.Base.{ℕ, ◌%◌, ◌^◌, Bool, List, [], ◌∷◌, Op, ok, modify, Bytes, write, leb}
use Prim.Native.Char.{code}
use Prim.Native.String.{String}

-- A running program.
pub record User (World : Type 0) : Type 0 where
  pub mem : Bytes
  pub world : World

-- The kernel as a program sees it: what `svc` does with x8 and the arguments in x0 and the registers
-- behind it, and what it leaves in x0. It is `switched` where the program does not go on.
pub record System : Type 1 where
  pub World : Type 0
  pub svc : (x8 : ℕ) → (args : List ℕ) → Op (User World) ℕ

-- The value of a C variable of one byte at an address, and its assignment.
module _ {World : Type 0} where
  abbrev pub byte_at : ℕ → Op (User World) ℕ
  byte_at a u = ok (u.mem a) u

  abbrev pub set_byte : (a c : ℕ) → Op (User World) (Unit {0})
  set_byte a c = modify (λ u. record u { mem = write u.mem a c })

abbrev pub as_word : ℕ → ℕ
as_word x = x % 2 ^ 32

-- The test `x < 0` of an int.
abbrev pub is_negative : ℕ → Bool
is_negative x = leb (2 ^ 31) x

-- The bytes of a string literal, without the NUL.
abbrev pub codes : String → List ℕ
codes String.[] = []
codes (String.◌∷◌ c s) = code c ∷ codes s
