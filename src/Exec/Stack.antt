-- ===== src/Exec/Stack.antt =====
-- The stack page that `kexec` builds. Each string is copied to `dsp`, an address in the kernel's
-- view of the page, and `ustack` gets `align_sz`, meant to be the same place in the user's view.
use gcgos.Base.{ℕ, ◌+◌, ◌-◌, ◌*◌, ◌/◌, ◌%◌, ◌^◌, List, [], ◌∷◌, ◌++◌, length, write, store8}

-- A difference of uint64.
abbrev pub sub64 : ℕ → ℕ → ℕ
sub64 a b = (a + 2 ^ 64 - b) % 2 ^ 64

-- `& ~0xF`
abbrev pub align16 : ℕ → ℕ
align16 n = n / 16 * 16

-- A round of the loop over the arguments, for a string of `len` characters.
unfoldable pub string_at : (dsp len : ℕ) → ℕ
string_at dsp len = align16 (sub64 dsp len)

unfoldable pub user_string_at : (align_sz len : ℕ) → ℕ
user_string_at align_sz len = align16 (sub64 align_sz (len + 1))

-- `*d_dsp++ = *arg++`, and the NUL.
unfoldable pub put_string : (d : ℕ) → List ℕ → (ℕ → ℕ) → ℕ → ℕ
put_string d [] w = store8 w d 0
put_string d (c ∷ s) w = put_string (d + 1) s (store8 w d c)

-- What the loop over the arguments leaves: memory, the two addresses, and `ustack`.
pub record Pushed : Type 0 where
  pub word : ℕ → ℕ
  pub dsp : ℕ
  pub align_sz : ℕ
  pub ustack : List ℕ

-- A round; the arguments come from the last to the first, so `ustack` grows at its front.
unfoldable pub push_arg : List ℕ → Pushed → Pushed
unfolding put_string string_at user_string_at
push_arg s p =
    let d = string_at p.dsp (length s) in
    let a = user_string_at p.align_sz (length s) in
    record { word = put_string d s p.word; dsp = d; align_sz = a; ustack = a ∷ p.ustack }

unfoldable pub push_args : List (List ℕ) → Pushed → Pushed
unfolding push_arg
push_args [] p = p
push_args (s ∷ ss) p = push_arg s (push_args ss p)

-- `d_dsp[u] = ustack[u]`
put_words : (d : ℕ) → List ℕ → (ℕ → ℕ) → ℕ → ℕ
put_words d [] w = w
put_words d (v ∷ vs) w = put_words (d + 8) vs (write w d v)

-- The vector of arguments below the strings, with the NULL that ends it. The code writes the NULL to
-- `ustack[argc]`, behind the array's `argc` entries, which is undefined; it is taken to find room.
unfoldable pub push_vector : (argc : ℕ) → Pushed → Pushed
unfolding put_words
push_vector argc p =
    let d = align16 (sub64 p.dsp (argc * 8)) in
    record p {
      word = put_words d (p.ustack ++ 0 ∷ []) p.word;
      dsp = d;
      align_sz = align16 (sub64 p.align_sz (argc * 8));
    }

-- The whole of it, for the page `sp` at the user's address `sz`.
unfoldable pub build_stack : (sp sz : ℕ) → List (List ℕ) → (ℕ → ℕ) → Pushed
unfolding push_args push_vector
build_stack sp sz args w =
    push_vector (length args)
      (push_args args (record { word = w; dsp = sp + 4096; align_sz = sz + 4096; ustack = [] }))
