-- ===== src/User/Puts.antt =====
-- What `puts` of user/ulib.c asks the kernel for.
use gcgos.Base.{
  ℕ, zero, suc, ◌+◌, ◌<◌, ◌≡◌, ◌≢◌, refl, ◌∙◌, ap, false, ◌==◌, List, [], ◌∷◌, arith, ok, All,
  length, get_elem?, some,
}
use gcgos.User.{User, System}
use gcgos.User.Ulib.{cons_puts, length_from, puts}

-- The bytes of `text` stand at `a`.
abbrev pub Holds : (ℕ → ℕ) → ℕ → List ℕ → Type 0
Holds mem a text = (x ch : ℕ) → get_elem? text x ≡ some ch → mem (a + x) ≡ ch

pub Holds-cons :
    (mem : ℕ → ℕ) (a ch : ℕ) (text : List ℕ)
    → mem a ≡ ch
    → Holds mem (a + 1) text
    → Holds mem a (ch ∷ text)
Holds-cons mem a ch text here behind zero d at = ap mem (omega arith) ∙ here ∙ ground (arith, at)
Holds-cons mem a ch text here behind (suc x) d at = ap mem (omega arith) ∙ behind x d at

abbrev pub NoNul : List ℕ → Type 0
NoNul = All (λ ch. ch ≢ 0)

-- A string: the bytes of `text`, of which none is 0, with a NUL behind them.
pub record IsString (mem : ℕ → ℕ) (a : ℕ) (text : List ℕ) : Type 0 where
  pub bytes : Holds mem a text
  pub no_nul : NoNul text
  pub ended : mem (a + length text) ≡ 0

module _ (s : System) where
  length_from_lem :
      (text : List ℕ) (fuel ss i : ℕ) (u : User s.World)
      → IsString u.mem ss text
      → length text < fuel
      → length_from s fuel ss i u ≡ ok (i + length text) u
  unfolding length_from
  length_from_lem text zero ss i u str enough = absurd (omega arith)
  length_from_lem [] (suc fuel) ss i u str enough =
      let here : u.mem ss ≡ 0 = ap u.mem (omega arith) ∙ str.ended in
      rw here (ap (λ n. ok n u) (omega arith))
  length_from_lem (ch ∷ text) (suc fuel) ss i u str enough =
      let here : u.mem ss ≡ ch = ap u.mem (omega arith) ∙ str.bytes 0 ch refl in
      let going : ch == 0 ≡ false = ground (arith, str.no_nul.0) in
      rw (here, going)
        (length_from_lem text fuel (ss + 1) (i + 1) u
            (record {
              bytes = λ x d at. ap u.mem (omega arith) ∙ str.bytes (suc x) d at;
              no_nul = str.no_nul.1;
              ended = ap u.mem (omega arith) ∙ str.ended;
            })
            (omega arith)
          ∙ ap (λ n. ok n u) (omega arith))

  -- On a string shorter than the bound, `puts` makes the call `cons_puts` with the string's address and
  -- its length.
  pub puts-IsString :
      (fuel a : ℕ) (text : List ℕ) (u : User s.World)
      → IsString u.mem a text
      → length text < fuel
      → puts s fuel a u ≡ cons_puts s a (length text) u
  unfolding puts
  puts-IsString fuel a text u str enough =
      let from_zero : 0 + length text ≡ length text = omega arith in
      rw (length_from_lem text fuel a 0 u str enough, from_zero) refl
