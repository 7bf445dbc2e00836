-- ===== src/Console.antt =====
-- kernel/console.c, with the send and receive sides of kernel/pl011_uart.c. `r`, `w` are uints; a
-- char is a byte. The FIFO is always ready to send; `console_lock` is taken and released within
-- `console_write`, so it is not kept in the state; what this prints, on CPU 0, is. The trace that
-- `consoleintr` prints is left out.
pub mod Write
pub mod Line
pub mod Tests
use gcgos.Base.{
  ℕ, zero, suc, ◌+◌, ◌%◌, ◌^◌, ◌||◌, List, [], ◌∷◌, ◌++◌, if◌then◌else◌, ◌==◌, leb, ltb, write,
  load8, store8, Op, pure, modify, gets, fault, ◌>>=◌, ◌>>◌, set,
}
use gcgos.Kernel.{cons_r, Kernel, console_device}
use gcgos.Sched.{sleep, wakeup}

abbrev pub input_buf_size : ℕ
input_buf_size = 128

abbrev pub backspace : ℕ
backspace = 0x100

-- The index CONSOLE of `devsw`.
abbrev pub console : ℕ
console = 1

-- `pl011_uart_send_char`
unfoldable pub send_char : ℕ → Kernel → Kernel
send_char c k = record k { uart = k.uart ++ c % 256 ∷ [] }

-- `consputc`
unfoldable pub consputc : ℕ → Kernel → Kernel
unfolding send_char
consputc c k = if c == backspace then send_char 8 (send_char 32 (send_char 8 k)) else send_char c k

-- An int that counts the rounds of a loop from 0.
abbrev pub rounds : ℕ → ℕ
rounds n = if ltb n (2 ^ 31) then n else 0

-- The loop of `console_write`.
unfoldable pub put_all : (left b : ℕ) → Kernel → Kernel
unfolding consputc
put_all zero b k = k
put_all (suc left) b k = put_all left (b + 1) (consputc (load8 k.kmem.word b) k)

-- What `acquire` and `release` of kernel/spinlock.c print on CPU 0: "acquire cpu: 0" and
-- "release cpu: 0", each with a newline.
abbrev cpu_line : List ℕ
cpu_line = b' ' ∷ b'c' ∷ b'p' ∷ b'u' ∷ b':' ∷ b' ' ∷ b'0' ∷ 10 ∷ []

abbrev pub acquire_line : List ℕ
acquire_line = b'a' ∷ b'c' ∷ b'q' ∷ b'u' ∷ b'i' ∷ b'r' ∷ b'e' ∷ cpu_line

abbrev pub release_line : List ℕ
release_line = b'r' ∷ b'e' ∷ b'l' ∷ b'e' ∷ b'a' ∷ b's' ∷ b'e' ∷ cpu_line

-- The loop of `printf` over a text.
unfoldable pub print_text : List ℕ → Kernel → Kernel
unfolding consputc
print_text [] k = k
print_text (c ∷ s) k = print_text s (consputc c k)

unfoldable pub console_write : (minor buf n : ℕ) → Op Kernel ℕ
console_write minor buf n = do
  modify (print_text acquire_line)
  modify (put_all (rounds n) buf)
  modify (print_text release_line)
  pure n

-- `cons.buf[cons.r++ % INPUT_BUF_SIZE]` goes to `*dst` and is echoed.
unfoldable pub take_char : (dst : ℕ) → Kernel → Kernel
unfolding consputc
take_char dst k =
    let c = k.cons.buf (k.cons.r % input_buf_size) in
    let r = (k.cons.r + 1) % 2 ^ 32 in
    record (consputc c k) {
      kmem = record k.kmem { word = store8 k.kmem.word dst c };
      cons = record k.cons { r = if ltb input_buf_size r then 0 else r };
    }

-- The loop of `console_read`, at round `i`. The test reads `cons.buf[i]`.
read_loop : (left i dst : ℕ) → Op Kernel (Unit {0})
unfolding take_char
read_loop zero i dst = pure tt
read_loop (suc left) i dst = do
  cons ← gets (λ k. k.cons)
  if leb input_buf_size i
      then fault
      else if cons.buf i == 0
      then pure tt
      else (modify (take_char dst) >> read_loop left (i + 1) (dst + 1))

-- `console_read`: with `r` and `w` equal it sleeps, and begins again when it runs.
unfoldable pub console_read : (minor dst n : ℕ) → Op Kernel ℕ
unfolding read_loop
console_read minor dst n = do
  cons ← gets (λ k. k.cons)
  if cons.r == cons.w then sleep cons_r else (do read_loop (rounds n) 0 dst; pure n)

-- `consoleintr`
unfoldable pub consoleintr : ℕ → Op Kernel (Unit {0})
consoleintr c = do
  modify (λ k. record k {
    cons = record k.cons {
      buf = write k.cons.buf (k.cons.w % input_buf_size) c;
      w = (k.cons.w + 1) % 2 ^ 32;
    };
  })
  if c == 10 || c == 13 then wakeup cons_r else pure tt

-- `pl011_uart_send_text`
unfoldable pub send_text : List ℕ → Kernel → Kernel
send_text [] k = k
send_text (c ∷ s) k = send_text s (send_char c (if c == 10 then send_char 13 k else k))

-- `pl011_uart_get_char`: a carriage return is read as a newline.
unfoldable pub get_char : ℕ → ℕ
get_char r = if r == 13 then 10 else r

-- `pl011_uart_intr`: the characters that wait in the FIFO, in order.
unfoldable pub pl011_uart_intr : List ℕ → Op Kernel (Unit {0})
unfolding consoleintr get_char
pl011_uart_intr [] = pure tt
pl011_uart_intr (r ∷ rs) = consoleintr (get_char r % 256) >> pl011_uart_intr rs

-- `consoleinit`: the console's two functions go into `devsw`.
unfoldable pub consoleinit : Op Kernel (Unit {0})
consoleinit = modify λ k. record k { devsw = set k.devsw console console_device }
