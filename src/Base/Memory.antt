-- ===== src/Base/Memory.antt =====
-- Memory as a function from addresses (or offsets) to values, and little-endian fields of it.
use Prim.Native.Nat.{ℕ, ◌+◌, ◌*◌, ◌/◌, ◌%◌, ◌^◌, ◌<◌}
use mathlib.Core.Path.{◌≡◌}
use mathlib.Core.Logic.{◌≢◌}
use native.Mathlib.Omega.{arith}
use gcgos.Base.Tests.{◌==◌, if◌then◌else◌}

-- A sector's or a page's bytes, by offset.
abbrev pub Bytes : Type 0
Bytes = ℕ → ℕ

abbrev pub write {ℓ} : {A : Type ℓ} → (ℕ → A) → ℕ → A → ℕ → A
write m a v b = if a == b then v else m b

pub write_at {ℓ} : {A : Type ℓ} (m : ℕ → A) (a : ℕ) (v : A) → write m a v a ≡ v
write_at m a v = ground arith

pub write_ne {ℓ} : {A : Type ℓ} (m : ℕ → A) (a b : ℕ) (v : A) → b ≢ a → write m a v b ≡ m b
write_ne m a b v ne = ground arith

-- `ushort` and `uint` fields.
unfoldable pub get16 : Bytes → ℕ → ℕ
get16 m o = m o + 256 * m (o + 1)

unfoldable pub put16 : Bytes → ℕ → ℕ → Bytes
put16 m o v = write (write m o (v % 256)) (o + 1) (v / 256 % 256)

unfoldable pub get32 : Bytes → ℕ → ℕ
get32 m o = m o + 256 * m (o + 1) + 65536 * m (o + 2) + 16777216 * m (o + 3)

unfoldable pub put32 : Bytes → ℕ → ℕ → Bytes
put32 m o v =
    write (write (write (write m o (v % 256)) (o + 1) (v / 256 % 256)) (o + 2) (v / 65536 % 256))
      (o + 3) (v / 16777216 % 256)

pub get16-put16_self : (m : Bytes) (o v : ℕ) → v < 65536 → get16 (put16 m o v) o ≡ v
unfolding get16 put16
get16-put16_self m o v h = ground arith

pub get32-put32_self : (m : Bytes) (o v : ℕ) → v < 4294967296 → get32 (put32 m o v) o ≡ v
unfolding get32 put32
get32-put32_self m o v h = ground arith

-- A byte outside the field keeps its value.
pub put16_other : (m : Bytes) (o v a : ℕ) → a ≢ o → a ≢ o + 1 → put16 m o v a ≡ m a
unfolding put16
put16_other m o v a h k = ground arith

pub put32_below : (m : Bytes) (o v a : ℕ) → a < o → put32 m o v a ≡ m a
unfolding put32
put32_below m o v a h = ground arith

pub put32_above : (m : Bytes) (o v a : ℕ) → o + 3 < a → put32 m o v a ≡ m a
unfolding put32
put32_above m o v a h = ground arith

-- A byte of a memory of 64-bit words, little-endian.
unfoldable pub load8 : (ℕ → ℕ) → ℕ → ℕ
load8 w a = w (a / 8 * 8) / 256 ^ (a % 8) % 256

unfoldable pub store8 : (ℕ → ℕ) → ℕ → ℕ → ℕ → ℕ
store8 w a v = write w (a / 8 * 8) (
    w (a / 8 * 8) / 256 ^ (a % 8 + 1) * 256 ^ (a % 8 + 1)
    + v % 256 * 256 ^ (a % 8)
    + w (a / 8 * 8) % 256 ^ (a % 8))
