-- ===== src/User/Programs.antt =====
-- The programs: user/cat.c, echo.c, init.c, sh.c, user1.c and user2.c. Their loops without an end are
-- given a number of rounds.
use Prim.Native.String.{String}
use gcgos.Base.{
  ℕ, zero, suc, ◌+◌, ◌/◌, ◌%◌, ◌||◌, Bool, true, false, List, [], ◌∷◌, if◌then◌else◌, ◌==◌,
  spinning, pure, ◌>>=◌, ◌>>◌,
}
use gcgos.User.{System, byte_at, set_byte, is_negative, codes}
use gcgos.User.Ulib.{
  Run, fork, wait, xv6_exit, write, read, close, exec, open_path, mknode, puts, gets,
}
use gcgos.User.Print.{printf}

-- Where the compiler and the linker have put a program's string literals and its variables: `argv` is
-- the array made for `exec`. `fuel` is a bound on the length of the strings that `puts` is given.
pub record Places : Type 0 where
  pub literal : String → ℕ
  pub buf : ℕ
  pub c : ℕ
  pub argv : ℕ
  pub fuel : ℕ

module _ (s : System) (p : Places) where
  abbrev say : String → Run s (Unit {0})
  say str = puts s p.fuel (p.literal str)

  abbrev print : (fd : ℕ) → String → Run s (Unit {0})
  print fd str = printf s p.c fd (codes str) []

  -- The bytes of a pointer, `left` of them, and an array of pointers.
  set_pointer : (left a x : ℕ) → Run s (Unit {0})
  set_pointer zero a x = pure tt
  set_pointer (suc left) a x = do set_byte a (x % 256); set_pointer left (a + 1) (x / 256)

  set_pointers : (a : ℕ) → List ℕ → Run s (Unit {0})
  set_pointers a [] = pure tt
  set_pointers a (x ∷ xs) = do set_pointer 8 a x; set_pointers (a + 8) xs

  -- `exec(path, (char*[]){path, 0})`
  unfoldable pub exec_alone : (path : ℕ) → Run s (Unit {0})
  unfolding set_pointer set_pointers
  exec_alone path = do set_pointers p.argv (path ∷ 0 ∷ []); exec s path p.argv

  repeat : ℕ → Run s (Unit {0}) → Run s (Unit {0})
  repeat zero m = pure tt
  repeat (suc n) m = do m; repeat n m

  -- The inner loop of `cat`, for at most `rounds` reads that give something.
  unfoldable pub copy_file : (rounds fd : ℕ) → Run s (Unit {0})
  copy_file zero fd = λ u. spinning
  copy_file (suc rounds) fd = do
    cc ← read s fd p.buf 512
    if is_negative cc || cc == 0
        then pure tt
        else (do set_byte (p.buf + cc) 0; puts s p.fuel p.buf; copy_file rounds fd)

  unfoldable pub cat_files : (rounds : ℕ) → List ℕ → Run s (Unit {0})
  cat_files rounds [] = pure tt
  cat_files rounds (a ∷ argv) = do
    fd ← open_path s a 0
    if is_negative fd then (do say "open file failed\n"; xv6_exit s) else pure tt
    copy_file rounds fd
    close s fd
    cat_files rounds argv

  -- `argv[1]`, `argv[2]` and so on.
  abbrev arguments : List ℕ → List ℕ
  arguments [] = []
  arguments (a ∷ argv) = argv

  abbrev too_few : List ℕ → Bool
  too_few [] = true
  too_few (a ∷ []) = true
  too_few (a ∷ b ∷ argv) = false

  unfoldable pub cat : (rounds : ℕ) → (argv : List ℕ) → Run s ℕ
  cat rounds argv = do
    if too_few argv then (do say "Usage: cat files...\n"; xv6_exit s) else pure tt
    cat_files rounds (arguments argv)
    xv6_exit s
    pure 0

  echo_words : List ℕ → Run s (Unit {0})
  echo_words [] = pure tt
  echo_words (a ∷ argv) = do puts s p.fuel a; say " "; echo_words argv

  unfoldable pub echo : (argv : List ℕ) → Run s ℕ
  unfolding echo_words
  echo argv = do say "echo running now\n"; echo_words (arguments argv); say "\n"; λ u. spinning

  -- A round of the loop of `init`.
  unfoldable pub init_round : (stdout1 : ℕ) → Run s (Unit {0})
  init_round stdout1 = do
    print stdout1 "running sh...\n"
    pid ← fork s
    if pid == 0 then (do say "pidis0\n"; exec_alone (p.literal "sh"); xv6_exit s) else pure tt
    say "pid larger 0\n"
    if is_negative pid || pid == 0 then pure tt else wait s

  unfoldable pub init : (rounds : ℕ) → Run s (Unit {0})
  unfolding repeat
  init rounds = do
    let console = p.literal "console"
    stdout ← open_path s console 0
    if is_negative stdout
        then (do mknode s console 3 1 1; open_path s console 0 >>= λ _. pure tt)
        else pure tt
    stdout1 ← open_path s console 1
    repeat rounds (init_round stdout1)

  -- A round of the loop of `sh`.
  unfoldable pub sh_round : Run s (Unit {0})
  sh_round = do
    write s 1 (p.literal "$ ") 2
    gets s p.c p.buf 128
    first ← byte_at p.buf
    if first == 0 then pure tt else (do
      write s 1 p.buf 14
      pid ← fork s
      if pid == 0 then (do exec_alone p.buf; λ u. spinning) else pure tt
      if is_negative pid || pid == 0 then pure tt else wait s)

  unfoldable pub sh : (rounds : ℕ) → Run s (Unit {0})
  unfolding repeat
  sh rounds = do write s 1 (p.literal "sh run now\n") 11; repeat rounds sh_round

  -- `if (write(fd, s, 10) != 10) printf(...)`
  write_ten : (stdout fd : ℕ) → String → Run s (Unit {0})
  write_ten stdout fd str = do
    n ← write s fd (p.literal str) 10
    if n == 10 then pure tt else print stdout "error:write new file failed\n"

  unfoldable pub user1 : Run s (Unit {0})
  unfolding repeat write_ten
  user1 = do
    n ← mknode s (p.literal "console") 3 1 1
    if is_negative n then say "mknode failed\n" else pure tt
    stdout ← open_path s (p.literal "console") 1
    print stdout "user1 running\n"
    fd ← open_path s (p.literal "doesnotexist") 514
    if is_negative fd
        then print stdout "create doesnotexist failed\n"
        else print stdout "creat doesnotexist success\n"
    repeat 100 (write_ten stdout fd "aaaaaaaaaa" >> write_ten stdout fd "bbbbbbbbbb")
    close s fd
    fd ← open_path s (p.literal "doesnotexist") 0
    if is_negative fd then print stdout "error:open doesnotexist failed\n" else pure tt
    read s fd p.buf 10000
    close s fd
    λ u. spinning

  unfoldable pub user2 : Run s (Unit {0})
  user2 = do say "user2 runing now\n"; λ u. spinning
