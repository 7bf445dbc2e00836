-- ===== src/Printf.antt =====
-- kernel/printf.c: what `printf` sends to the console, as a list of characters. `none` is an access
-- behind `buf[20]` of `printint` or an argument that is not there.
pub mod Digits
pub mod Tests
use gcgos.Base.{
  ℕ, zero, suc, ◌+◌, ◌-◌, ◌*◌, ◌/◌, ◌%◌, ◌^◌, ◌&&◌, ◌||◌, Bool, true, false, Option, none, some,
  List, [], ◌∷◌, ◌++◌, if◌then◌else◌, ◌==◌, ltb, leb, length,
}
use mathlib.Core.List.{reverse}

-- `digits[d]`
abbrev pub digit : ℕ → ℕ
digit d = if ltb d 10 then b'0' + d else b'a' + d - 10

-- The `do` loop of `printint`: the digits of `x`, the last one first. `x` is a 64-bit number, so 64
-- rounds are enough in every base.
unfoldable pub digits_from : (fuel x base : ℕ) → List ℕ
digits_from zero x base = []
digits_from (suc fuel) x base =
    let rest = digits_from fuel (x / base) base in
    if x / base == 0 then digit (x % base) ∷ [] else digit (x % base) ∷ rest

-- `buf` as `printint` fills it, for `xx` as a bit pattern.
unfoldable pub int_buf : (xx base : ℕ) → (sign : Bool) → List ℕ
int_buf xx base sign =
    if sign && leb (2 ^ 63) xx
    then digits_from 64 (2 ^ 64 - xx) base ++ b'-' ∷ []
    else digits_from 64 xx base

-- `printint`
unfoldable pub printint : (xx base : ℕ) → (sign : Bool) → Option (List ℕ)
unfolding int_buf
printint xx base sign =
    if leb (length (int_buf xx base sign)) 20 then some (reverse (int_buf xx base sign)) else none

-- The loop of `printptr`: the sixteen digits from the top.
unfoldable pub ptr_digits : (left x : ℕ) → List ℕ
ptr_digits zero x = []
ptr_digits (suc left) x = digit (x / 2 ^ 60) ∷ ptr_digits left (x * 16 % 2 ^ 64)

unfoldable pub printptr : ℕ → List ℕ
unfolding ptr_digits
printptr x = b'0' ∷ b'x' ∷ ptr_digits 16 x

-- An argument: a number of 64 bits, or a pointer to a text.
pub data Arg : Type 0 where
  num : ℕ → Arg
  text : Option (List ℕ) → Arg

-- `va_arg(ap, int)` as a long long, and `va_arg(ap, uint32)`.
abbrev pub as_int : ℕ → ℕ
as_int n = let w = n % 2 ^ 32 in if ltb w (2 ^ 31) then w else w + 2 ^ 64 - 2 ^ 32

abbrev pub as_uint32 : ℕ → ℕ
as_uint32 n = n % 2 ^ 32

-- What a conversion prints, with the characters of the format it takes behind the `%`.
pub data Conv : Type 0 where
  integer : (skip width base : ℕ) → (sign : Bool) → Conv
  letter : Conv
  string : Conv
  percent : Conv
  finish : Conv
  unknown : ℕ → Conv

-- The character at an index, 0 behind the end.
abbrev char_at : List ℕ → ℕ → ℕ
char_at [] i = 0
char_at (c ∷ s) zero = c
char_at (c ∷ s) (suc i) = char_at s i

-- The ladder of tests in `printf`. Its branch for `printptr` is behind that of `x` and `p`.
unfoldable pub conversion : (c0 c1 c2 : ℕ) → Conv
conversion c0 c1 c2 =
    if c0 == b'd'
    then integer 1 32 10 true
    else if c0 == b'b'
    then integer 1 64 2 true
    else if c0 == b'l' && c1 == b'd'
    then integer 2 64 10 true
    else if c0 == b'l' && c1 == b'l' && c2 == b'd'
    then integer 3 64 10 true
    else if c0 == b'u'
    then integer 1 32 10 false
    else if c0 == b'l' && c1 == b'u'
    then integer 2 64 10 false
    else if c0 == b'l' && c1 == b'l' && c2 == b'u'
    then integer 3 64 10 false
    else if c0 == b'x' || c0 == b'p'
    then integer 1 32 16 false
    else if c0 == b'l' && c1 == b'x'
    then integer 2 64 16 false
    else if c0 == b'l' && c1 == b'l' && c2 == b'x'
    then integer 3 64 16 false
    else if c0 == b'c'
    then letter
    else if c0 == b's'
    then string
    else if c0 == b'%'
    then percent
    else if c0 == 0
    then finish
    else unknown c0

-- The number that an integer conversion takes from its argument.
abbrev pub take_arg : (width : ℕ) → (sign : Bool) → ℕ → ℕ
take_arg width sign n = if width == 64 then n % 2 ^ 64 else if sign then as_int n else as_uint32 n

drop : ℕ → List ℕ → List ℕ
drop zero s = s
drop (suc n) [] = []
drop (suc n) (c ∷ s) = drop n s

infixl 65 ◌+++◌
abbrev ◌+++◌ : Option (List ℕ) → Option (List ℕ) → Option (List ℕ)
none +++ b = none
some a +++ none = none
some a +++ some b = some (a ++ b)

abbrev null_text : List ℕ
null_text = b'(' ∷ b'n' ∷ b'u' ∷ b'l' ∷ b'l' ∷ b')' ∷ []

-- `consputc` of an argument.
abbrev letter_text : ℕ → List ℕ
letter_text c = if c == 0x100 then 8 ∷ 32 ∷ 8 ∷ [] else c % 256 ∷ []

-- One conversion: what it prints, the format behind it and the arguments left. `put` is what the
-- function for one character, `consputc` here, makes of an argument.
convert :
    (put : ℕ → List ℕ)
    → Conv
    → List ℕ
    → List Arg
    → (List ℕ → List Arg → Option (List ℕ))
    → Option (List ℕ)
unfolding printint drop
convert put (integer skip width base sign) fmt (num n ∷ args) go =
    printint (take_arg width sign n) base sign +++ go (drop skip fmt) args
convert put letter fmt (num n ∷ args) go = some (put (n % 2 ^ 32)) +++ go (drop 1 fmt) args
convert put string fmt (text none ∷ args) go = some null_text +++ go (drop 1 fmt) args
convert put string fmt (text (some s) ∷ args) go = some s +++ go (drop 1 fmt) args
convert put percent fmt args go = some (b'%' ∷ []) +++ go (drop 1 fmt) args
convert put finish fmt args go = some []
convert put (unknown c) fmt args go = some (b'%' ∷ c ∷ []) +++ go (drop 1 fmt) args
convert put _ fmt args go = none

-- The loop of `printf`; every round takes a character at least.
printf_from : (put : ℕ → List ℕ) → ℕ → List ℕ → List Arg → Option (List ℕ)
unfolding convert
printf_from put zero fmt args = some []
printf_from put (suc fuel) [] args = some []
printf_from put (suc fuel) (c ∷ fmt) args =
    let plain = some (c ∷ []) +++ printf_from put fuel fmt args in
    let special =
      convert put (conversion (char_at fmt 0) (char_at fmt 1) (char_at fmt 2)) fmt args
        (printf_from put fuel) in
    if c == b'%' then special else plain

-- The text of `printf`, over the function for one character.
unfoldable pub printf_with : (put : ℕ → List ℕ) → List ℕ → List Arg → Option (List ℕ)
unfolding printf_from conversion
printf_with put fmt args = printf_from put (length fmt) fmt args

unfoldable pub printf : List ℕ → List Arg → Option (List ℕ)
unfolding printf_with
printf fmt args = printf_with letter_text fmt args
