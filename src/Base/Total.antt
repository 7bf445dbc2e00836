-- ===== src/Base/Total.antt =====
-- Total correctness: an operation ends, with a result and a state that satisfy a predicate.
use mathlib.Core.Bool.{Bool, true, false}
use mathlib.Core.Path.{◌≡◌, refl}
use gcgos.Base.Tests.{if◌then◌else◌}
use gcgos.Base.Running.{Outcome, ok, Op, and_then}

-- The operation comes to its end, and `Q` holds there.
pub data Ends {S A : Type 0} (Q : A → S → Type 0) : Outcome S A → Type 0 where
  ends : {a : A} {s : S} → Q a s → Ends Q (ok a s)

-- The operation comes to its end.
abbrev pub Returns : {S A : Type 0} → Outcome S A → Type 0
Returns o = Ends (λ _ _. Unit {0}) o

pub returns : {S A : Type 0} {a : A} {s : S} → Returns (ok a s)
returns = ends tt

module _ {S A : Type 0} {Q : A → S → Type 0} where
  pub Ends-mono :
      {P : A → S → Type 0} {o : Outcome S A}
      → Ends P o
      → ((a : A) (s : S) → P a s → Q a s)
      → Ends Q o
  Ends-mono (ends {a} {s} h) f = ends (f a s h)

  pub Ends-if :
      (b : Bool) (m n : Op S A) (s : S)
      → (b ≡ true → Ends Q (m s))
      → (b ≡ false → Ends Q (n s))
      → Ends Q ((if b then m else n) s)
  Ends-if true m n s on off = on refl
  Ends-if false m n s on off = off refl

module _ {S A B : Type 0} {Q : B → S → Type 0} where
  pub Ends-then :
      {P : A → S → Type 0} {o : Outcome S A} (k : A → Op S B)
      → Ends P o
      → ((a : A) (s : S) → P a s → Ends Q (k a s))
      → Ends Q (and_then o k)
  Ends-then k (ends {a} {s} h) f = f a s h

  -- The rule for a call of which only the end matters.
  pub Ends-call :
      {o : Outcome S A} {k : A → Op S B}
      → Returns o
      → ((a : A) (s : S) → Ends Q (k a s))
      → Ends Q (and_then o k)
  Ends-call (ends {a} {s} h) f = f a s

-- The result and the state where an operation ends.
pub Ends-result :
    {S A : Type 0} {Q : A → S → Type 0} {o : Outcome S A}
    → Ends Q o
    → (a : A) × (s : S) × (o ≡ ok a s) × Q a s
Ends-result (ends {a} {s} h) = (a, s, refl, h)
