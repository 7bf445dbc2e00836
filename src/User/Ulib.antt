-- ===== src/User/Ulib.antt =====
-- user/ulib.c: the stubs of the system calls, `puts` and `gets`.
use gcgos.Base.{
  ℕ, zero, suc, ◌+◌, ◌-◌, ◌||◌, List, [], ◌∷◌, if◌then◌else◌, ◌==◌, Op, spinning, pure, ◌>>=◌, ◌>>◌,
}
use gcgos.User.{User, System, byte_at, set_byte, as_word, is_negative}

-- The system calls, with their numbers in include/xv6_syscall.h, which ulib.c writes out.
pub data Call : Type 0 where
  fork_call exit_call wait_call cons_putc_call pipe_call write_call read_call close_call : Call
  block_call kill_call cons_puts_call exec_call open_call mknod_call unlink_call : Call

unfoldable pub number : Call → ℕ
number fork_call = 1
number exit_call = 2
number wait_call = 3
number cons_putc_call = 4
number pipe_call = 5
number write_call = 6
number read_call = 7
number close_call = 8
number block_call = 9
number kill_call = 10
number cons_puts_call = 12
number exec_call = 13
number open_call = 14
number mknod_call = 15
number unlink_call = 16

module _ (s : System) where
  -- A program's steps.
  abbrev pub Run : Type 0 → Type 0
  Run A = Op (User s.World) A

  -- A stub with an int for its result, and one without a result.
  abbrev call_int : Call → List ℕ → Run ℕ
  call_int n args = do x ← s.svc (number n) args; pure (as_word x)

  abbrev call : Call → List ℕ → Run (Unit {0})
  call n args = do s.svc (number n) args >>= λ _. pure tt

  unfoldable pub fork : Run ℕ
  fork = call_int fork_call []

  unfoldable pub wait : Run (Unit {0})
  wait = call wait_call []

  unfoldable pub xv6_exit : Run (Unit {0})
  xv6_exit = call exit_call []

  unfoldable pub cons_putc : ℕ → Run (Unit {0})
  cons_putc c = call cons_putc_call (c ∷ [])

  unfoldable pub pipe : (fd : ℕ) → Run ℕ
  pipe fd = call_int pipe_call (fd ∷ [])

  unfoldable pub write : (fd buf n : ℕ) → Run ℕ
  write fd buf n = call_int write_call (fd ∷ buf ∷ n ∷ [])

  unfoldable pub read : (fd buf size : ℕ) → Run ℕ
  read fd buf size = call_int read_call (fd ∷ buf ∷ size ∷ [])

  unfoldable pub close : (fd : ℕ) → Run (Unit {0})
  close fd = call close_call (fd ∷ [])

  unfoldable pub block : Run ℕ
  block = call_int block_call []

  unfoldable pub kill : (pid : ℕ) → Run ℕ
  kill pid = call_int kill_call (pid ∷ [])

  unfoldable pub cons_puts : (str size : ℕ) → Run (Unit {0})
  cons_puts str size = call cons_puts_call (str ∷ size ∷ [])

  unfoldable pub exec : (path argv : ℕ) → Run (Unit {0})
  exec path argv = call exec_call (path ∷ argv ∷ [])

  unfoldable pub open_path : (str n : ℕ) → Run ℕ
  open_path str n = call_int open_call (str ∷ n ∷ [])

  unfoldable pub mknode : (str type major minor : ℕ) → Run ℕ
  mknode str type major minor = call_int mknod_call (str ∷ type ∷ major ∷ minor ∷ [])

  unfoldable pub unlink : (str : ℕ) → Run ℕ
  unlink str = call_int unlink_call (str ∷ [])

  -- The loop of `puts`: `i` when `ss` has come to the NUL. It has no bound of its own.
  unfoldable pub length_from : (fuel ss i : ℕ) → Run ℕ
  length_from zero ss i = λ u. spinning
  length_from (suc fuel) ss i = do
    c ← byte_at ss
    if c == 0 then pure i else length_from fuel (ss + 1) (i + 1)

  unfoldable pub puts : (fuel str : ℕ) → Run (Unit {0})
  puts fuel str = do i ← length_from fuel str 0; cons_puts str i

  -- The loop of `gets`, with at most `left` characters to take: the final `i`. `c` is the address of
  -- the variable of that name.
  unfoldable pub gets_from : (left c buf i : ℕ) → Run ℕ
  gets_from zero c buf i = pure i
  gets_from (suc left) c buf i = do
    cc ← read 0 c 1
    ch ← byte_at c
    if is_negative cc
        then pure i
        else if ch == 10 || ch == 13
        then pure i
        else (do set_byte (buf + i) ch; gets_from left c buf (i + 1))

  unfoldable pub gets : (c buf max : ℕ) → Run ℕ
  gets c buf max = do i ← gets_from (max - 1) c buf 0; set_byte (buf + i) 0; pure buf
