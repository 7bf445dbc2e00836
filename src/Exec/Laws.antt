-- ===== src/Exec/Laws.antt =====
-- The two views of the first stack (kernel/exec.c): where they agree, and where they do not.
use gcgos.Base.{ℕ, ◌+◌, ◌-◌, ◌%◌, ◌^◌, ◌≤◌, ◌<◌, ◌≡◌, ◌≢◌, List, [], ◌∷◌, arith, length, All}
use gcgos.Exec.Stack.{Pushed, sub64, string_at, user_string_at, push_arg}

-- The place in the page `sp` that the kernel writes to is the place `a` of the user's page `sz`.
pub record Agrees (sp sz : ℕ) (p : Pushed) (room : ℕ) : Type 0 where
  pub same : p.align_sz + sp ≡ p.dsp + sz
  pub aligned : p.dsp % 16 ≡ 0
  pub in_page : sp + room ≤ p.dsp

-- Both pages are page-aligned and end below 2^64.
pub record Pages (sp sz : ℕ) : Type 0 where
  pub sp_aligned : sp % 4096 ≡ 0
  pub sz_aligned : sz % 4096 ≡ 0
  pub sp_fits : sp + 4096 < 2 ^ 64
  pub sz_fits : sz + 4096 < 2 ^ 64

-- The bytes that strings of the list may take: each its length, rounded up.
abbrev pub bytes_of : List (List ℕ) → ℕ
bytes_of [] = 0
bytes_of (s ∷ ss) = length s + 16 + bytes_of ss

-- No string's length is a multiple of 16.
abbrev pub NoSixteens : List (List ℕ) → Type 0
NoSixteens ss = All (λ s. length s % 16 ≢ 0) ss

pub sub64-eq : (a b : ℕ) → b ≤ a → a < 2 ^ 64 → sub64 a b ≡ a - b
sub64-eq a b h fits = omega arith

module _ (sp sz : ℕ) (pages : Pages sp sz) where
  pub push_arg-Agrees :
      (s : List ℕ) (p : Pushed) (room : ℕ)
      → p.dsp ≤ sp + 4096
      → length s % 16 ≢ 0
      → Agrees sp sz p (length s + 16 + room)
      → Agrees sp sz (push_arg s p) room × ((push_arg s p).dsp ≤ sp + 4096)
  unfolding push_arg
  push_arg-Agrees s p room top odd h =
      let d = sub64-eq p.dsp (length s) (omega arith) (omega arith) in
      let a = sub64-eq p.align_sz (length s + 1) (omega arith) (omega arith) in
      (
        record { same = omega (arith, d, a); aligned = omega arith; in_page = omega (arith, d) },
        omega (arith, d),
      )

  -- For a string whose length 16 divides, pushed at a 16-aligned place with room for it in the
  -- page, the pointer given to the program names the place 16 bytes below the string.
  string_at_sixteens :
      (x len : ℕ)
      → x % 16 ≡ 0
      → x ≤ 4096
      → len + 16 ≤ x
      → len % 16 ≡ 0
      → user_string_at (sz + x) len + sp + 16 ≡ string_at (sp + x) len + sz
  unfolding string_at user_string_at
  string_at_sixteens x len h fits room even =
      let d = sub64-eq (sp + x) len (omega arith) (omega arith) in
      let a = sub64-eq (sz + x) (len + 1) (omega arith) (omega arith) in omega (arith, d, a)
