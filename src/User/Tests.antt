-- ===== src/User/Tests.antt =====
-- The theorem about `puts` of user/ulib.c on a system that has every call return 0.
use gcgos.Base.{ℕ, ◌+◌, ◌≡◌, refl, [], ◌∷◌, arith, ok}
use gcgos.Samples.{zeros}
use gcgos.Base.{write}
use gcgos.User.{User, System}
use gcgos.User.Ulib.{puts, cons_puts}
use gcgos.User.Puts.{Holds-cons, IsString, puts-IsString}

-- A system that counts the calls.
abbrev counting : System
counting = record { World = ℕ; svc = λ n xs u. ok 0 (record u { world = u.world + 1 }) }

-- "hi" at 64.
abbrev greeting : User ℕ
greeting = record { mem = write (write zeros 64 104) 65 105; world = 0 }

greeting-IsString : IsString greeting.mem 64 (104 ∷ 105 ∷ [])
greeting-IsString = record {
  bytes =
      Holds-cons greeting.mem 64 104 (105 ∷ []) refl
        (Holds-cons greeting.mem 65 105 [] refl (λ x ch at. absurd (ground (arith, at))));
  no_nul = (omega arith, (omega arith, tt));
  ended = refl;
}

puts-IsString_example : puts counting 100 64 greeting ≡ cons_puts counting 64 2 greeting
puts-IsString_example =
    puts-IsString counting 100 64 (104 ∷ 105 ∷ []) greeting greeting-IsString (omega arith)
