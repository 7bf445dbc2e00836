-- ===== src/Console/Line.antt =====
-- From the UART's FIFO through `cons` to the reader (kernel/console.c, kernel/pl011_uart.c).
use gcgos.Base.{
  ℕ, suc, ◌+◌, ◌%◌, ◌^◌, ◌≤◌, ◌<◌, ◌≡◌, ◌≢◌, ◌∙◌, ap, sym, refl, false, ◌||◌, List, [], ◌∷◌, ◌++◌,
  map, arith, ok, length, length-map, write, if◌then◌else◌, ◌==◌, leb, among, load8, store8,
  load8-store8,
}
use gcgos.Kernel.{cons_r, Kernel}
use gcgos.Sched.{wake, wakeup}
use gcgos.Console.{
  rounds, take_char, read_loop, console_read, consoleintr, get_char, pl011_uart_intr,
}
use gcgos.Console.Write.{bytes_from, append_assoc, append_nil, consputc_byte}

-- What a character of the FIFO is for the reader.
abbrev pub typed : ℕ → ℕ
typed c = get_char c % 256

-- The characters stand in a buffer from index `i` on, and none is NUL.
abbrev Buffered : ℕ → List ℕ → (ℕ → ℕ) → Type 0
Buffered i [] buf = Unit
Buffered i (c ∷ cs) buf = (buf i ≡ c) × Buffered (i + 1) cs buf

abbrev pub AreText : List ℕ → Type 0
AreText [] = Unit
AreText (c ∷ cs) = (c ≢ 0) × (c < 256) × AreText cs

-- The kernel after `consoleintr`.
entered : ℕ → Kernel → Kernel
entered c k = record k {
  cons = record k.cons { buf = write k.cons.buf (k.cons.w % 128) c; w = (k.cons.w + 1) % 2 ^ 32 };
  procs = if c == 10 || c == 13 then map (wake cons_r) k.procs else k.procs;
}

consoleintr-entered : (c : ℕ) (k : Kernel) → consoleintr c k ≡ ok tt (entered c k)
unfolding consoleintr wakeup entered
consoleintr-entered c k = ground arith

-- What the interrupts for a list of characters leave.
record Received (cs : List ℕ) (k : Kernel) : Type 0 where
  after : Kernel
  run : pl011_uart_intr cs k ≡ ok tt after
  filled : after.cons.w ≡ k.cons.w + length cs
  reader : after.cons.r ≡ k.cons.r
  held : Buffered k.cons.w (map typed cs) after.cons.buf
  kept : (a : ℕ) → a < k.cons.w → after.cons.buf a ≡ k.cons.buf a
  memory : after.kmem ≡ k.kmem
  sent : after.uart ≡ k.uart

Received-cons :
    (c : ℕ) (cs : List ℕ) (k : Kernel)
    → k.cons.w + suc (length cs) ≤ 128
    → Received cs (entered (typed c) k)
    → Received (c ∷ cs) k
unfolding pl011_uart_intr entered
Received-cons c cs k room t =
    let at : k.cons.w % 128 ≡ k.cons.w = omega arith in
    let next : (k.cons.w + 1) % 2 ^ 32 ≡ k.cons.w + 1 = omega arith in
    record {
      after = t.after;
      run = rw (consoleintr-entered (typed c) k) t.run;
      filled = omega (arith, t.filled, next);
      reader = t.reader;
      held = (t.kept k.cons.w (omega arith) ∙ ground (arith, at), rw (sym next) t.held);
      kept = λ a lt. t.kept a (omega arith) ∙ ground (arith, at);
      memory = t.memory;
      sent = t.sent;
    }

receive : (cs : List ℕ) (k : Kernel) → k.cons.w + length cs ≤ 128 → Received cs k
unfolding pl011_uart_intr entered
receive [] k room = record {
  after = k;
  run = refl;
  filled = omega arith;
  reader = refl;
  held = tt;
  kept = λ a lt. refl;
  memory = refl;
  sent = refl;
}
receive (c ∷ cs) k room = Received-cons c cs k room (receive cs (entered (typed c) k) (omega arith))

-- What the loop of `console_read` leaves.
record Delivered (cs : List ℕ) (dst : ℕ) (k : Kernel) : Type 0 where
  after : Kernel
  run : read_loop (length cs) k.cons.r dst k ≡ ok tt after
  reader : after.cons.r ≡ k.cons.r + length cs
  writer : after.cons.w ≡ k.cons.w
  text : bytes_from (length cs) dst after.kmem.word ≡ cs
  others : (x : ℕ) → among dst (length cs) x ≡ false → load8 after.kmem.word x ≡ load8 k.kmem.word x
  sent : after.uart ≡ k.uart ++ cs

-- The kernel after one round, with the character `c` at the reader's index.
given : (c dst : ℕ) → Kernel → Kernel
given c dst k = record k {
  kmem = record k.kmem { word = store8 k.kmem.word dst c };
  cons = record k.cons { r = k.cons.r + 1 };
  uart = k.uart ++ c ∷ [];
}

take_char-given :
    (c dst : ℕ) (k : Kernel)
    → k.cons.buf k.cons.r ≡ c
    → c < 256
    → k.cons.r < 128
    → take_char dst k ≡ given c dst k
unfolding take_char given
take_char-given c dst k e byte room =
    let at : k.cons.r % 128 ≡ k.cons.r = omega arith in
    let next : (k.cons.r + 1) % 2 ^ 32 ≡ k.cons.r + 1 = omega arith in
    rw (at, e, next, consputc_byte c k byte) (ground arith)

Delivered-cons :
    (c : ℕ) (cs : List ℕ) (dst : ℕ) (k : Kernel)
    → k.cons.buf k.cons.r ≡ c
    → c ≢ 0
    → c < 256
    → k.cons.r + suc (length cs) ≤ 128
    → Delivered cs (dst + 1) (given c dst k)
    → Delivered (c ∷ cs) dst k
unfolding read_loop bytes_from given
Delivered-cons c cs dst k e ne byte room t = record {
  after = t.after;
  run = rounds_run;
  reader = omega (arith, t.reader);
  writer = t.writer;
  text =
      ap (λ b. b ∷ bytes_from (length cs) (dst + 1) t.after.kmem.word) first
      ∙ ap (λ l. c ∷ l) t.text;
  others = λ x out. t.others x (ground arith) ∙ load8-store8 k.kmem.word dst x c ∙ ground arith;
  sent = t.sent ∙ append_assoc k.uart (c ∷ []) cs;
}
  where
    rounds_run : read_loop (suc (length cs)) k.cons.r dst k ≡ ok tt t.after
    rounds_run =
        let zero_test : (k.cons.buf k.cons.r == 0) ≡ false = ground (arith, e, ne) in
        let bound : leb 128 k.cons.r ≡ false = ground arith in
        rw (bound, zero_test, take_char-given c dst k e byte (omega arith)) t.run

    first : load8 t.after.kmem.word dst ≡ c
    first = t.others dst (ground arith) ∙ load8-store8 k.kmem.word dst dst c ∙ ground arith

deliver :
    (cs : List ℕ) (dst : ℕ) (k : Kernel)
    → AreText cs
    → Buffered k.cons.r cs k.cons.buf
    → k.cons.r + length cs ≤ 128
    → Delivered cs dst k
unfolding read_loop bytes_from given
deliver [] dst k text b room = record {
  after = k;
  run = refl;
  reader = omega arith;
  writer = refl;
  text = refl;
  others = λ x out. refl;
  sent = sym (append_nil k.uart);
}
deliver (c ∷ cs) dst k (ne, byte, text) (e, b) room =
    Delivered-cons c cs dst k e ne byte room
      (deliver cs (dst + 1) (given c dst k) text b (omega arith))

-- What the reader gets, when the buffer holds what has been typed.
record Line (cs : List ℕ) (minor dst : ℕ) (k k1 k2 : Kernel) : Type 0 where
  read : console_read minor dst (length cs) k1 ≡ ok (length cs) k2
  text : bytes_from (length cs) dst k2.kmem.word ≡ map typed cs
  others : (x : ℕ) → among dst (length cs) x ≡ false → load8 k2.kmem.word x ≡ load8 k.kmem.word x
  sent : k2.uart ≡ k.uart ++ map typed cs
  empty : k2.cons.r ≡ k2.cons.w

line :
    (cs : List ℕ) (minor dst : ℕ) (k : Kernel)
    → k.cons.r ≡ 0
    → k.cons.w ≡ 0
    → 1 ≤ length cs
    → length cs ≤ 128
    → (t : Received cs k) (d : Delivered (map typed cs) dst t.after)
    → Line cs minor dst k t.after d.after
unfolding console_read
line cs minor dst k r w some_typed room t d = record {
  read = rw (waiting, all) (ground (arith, reads));
  text = ap (λ l. bytes_from l dst d.after.kmem.word) (sym n) ∙ d.text;
  others =
      λ x out. d.others x (ap (λ l. among dst l x) n ∙ out) ∙ ap (λ m. load8 m.word x) t.memory;
  sent = d.sent ∙ ap (λ u. u ++ map typed cs) t.sent;
  empty = omega (arith, d.reader, d.writer, t.filled, t.reader, n, r, w);
}
  where
    n : length (map typed cs) ≡ length cs
    n = length-map cs typed

    start : 0 ≡ t.after.cons.r
    start = sym (t.reader ∙ r)

    reads : read_loop (length cs) 0 dst t.after ≡ ok tt d.after
    reads =
        ap (λ i. read_loop (length cs) i dst t.after) start
        ∙ ap (λ l. read_loop l t.after.cons.r dst t.after) (sym n)
        ∙ d.run

    waiting : (t.after.cons.r == t.after.cons.w) ≡ false
    waiting = ground (arith, start, t.filled)

    all : rounds (length cs) ≡ length cs
    all = ground arith

-- At least one and at most 128 characters typed at a console whose buffer has not been used, none of
-- them NUL, and then a `console_read` of as many: both come to an end. The reader has the characters in order at
-- `dst`, carriage returns as newlines, and all other memory is as before; they have been echoed in
-- order, and the buffer is empty.
pub console_read-pl011_uart_intr :
    (cs : List ℕ) (minor dst : ℕ) (k : Kernel)
    → k.cons.r ≡ 0
    → k.cons.w ≡ 0
    → 1 ≤ length cs
    → length cs ≤ 128
    → AreText (map typed cs)
    → (k1 k2 : Kernel) × (pl011_uart_intr cs k ≡ ok tt k1)
      × (console_read minor dst (length cs) k1 ≡ ok (length cs) k2)
      × (bytes_from (length cs) dst k2.kmem.word ≡ map typed cs)
      × ((x : ℕ) → among dst (length cs) x ≡ false → load8 k2.kmem.word x ≡ load8 k.kmem.word x)
      × (k2.uart ≡ k.uart ++ map typed cs)
      × (k2.cons.r ≡ k2.cons.w)
console_read-pl011_uart_intr cs minor dst k r w some_typed room text =
    let t = receive cs k (omega (arith, w)) in
    let n = length-map cs typed in
    let start : t.after.cons.r ≡ k.cons.w = t.reader ∙ r ∙ sym w in
    let d =
      deliver (map typed cs) dst t.after text (rw start t.held) (omega (arith, start, n, w)) in
    let l = line cs minor dst k r w some_typed room t d in
    (t.after, d.after, t.run, l.read, l.text, l.others, l.sent, l.empty)
