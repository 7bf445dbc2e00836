-- ===== src/Exec/Strings.antt =====
-- What a program finds at the pointers of its arguments (kernel/exec.c).
use gcgos.Base.{
  ℕ, zero, suc, ◌+◌, ◌%◌, ◌≤◌, ◌<◌, ◌≡◌, ◌≢◌, ◌⊎◌, inl, inr, ◌∙◌, ap, refl, some, List, [], ◌∷◌,
  arith, length, All, get_elem?, load8, store8, load8-store8,
}
use mathlib.Core.Path.{subst}
use gcgos.Exec.Stack.{Pushed, string_at, user_string_at, put_string, push_arg, push_args}
use gcgos.Exec.Laws.{Agrees, Pages, NoSixteens, bytes_of, push_arg-Agrees, sub64-eq}

-- Texts of bytes.
abbrev pub AreBytes : List (List ℕ) → Type 0
AreBytes ss = All (λ s. All (λ c. c < 256) s) ss

put_string_outside :
    (s : List ℕ) (d : ℕ) (w : ℕ → ℕ) (x : ℕ)
    → (x < d) ⊎ (d + length s < x)
    → load8 (put_string d s w) x ≡ load8 w x
unfolding put_string
put_string_outside [] d w x out = load8-store8 w d x 0 ∙ ground (arith, out)
put_string_outside (c ∷ s) d w x out =
    put_string_outside s (d + 1) (store8 w d c) x (ground (arith, out))
    ∙ load8-store8 w d x c
    ∙ ground (arith, out)

put_string_inside :
    (s : List ℕ) (d : ℕ) (w : ℕ → ℕ) (x ch : ℕ)
    → All (λ c. c < 256) s
    → get_elem? s x ≡ some ch
    → load8 (put_string d s w) (d + x) ≡ ch
unfolding put_string
put_string_inside [] d w x ch small at = absurd (ground (arith, at))
put_string_inside (c ∷ s) d w zero ch small at =
    put_string_outside s (d + 1) (store8 w d c) (d + 0) (inl (omega arith))
    ∙ load8-store8 w d (d + 0) c
    ∙ ground (arith, at, small.0)
put_string_inside (c ∷ s) d w (suc x) ch small at =
    ap (load8 (put_string (d + 1) s (store8 w d c))) (omega arith)
    ∙ put_string_inside s (d + 1) (store8 w d c) x ch small.1 at

put_string_end : (s : List ℕ) (d : ℕ) (w : ℕ → ℕ) → load8 (put_string d s w) (d + length s) ≡ 0
unfolding put_string
put_string_end [] d w = load8-store8 w d (d + 0) 0 ∙ ground arith
put_string_end (c ∷ s) d w =
    ap (load8 (put_string (d + 1) s (store8 w d c))) (omega arith)
    ∙ put_string_end s (d + 1) (store8 w d c)

-- Argument `i`, the string `str`, as the kernel has written it to `place` in the page `sp` with a NUL
-- behind it. The pointer for it in `ustack` is this place in the user's view, the page `sz`.
pub record StringAt (sp sz : ℕ) (p : Pushed) (i : ℕ) (str : List ℕ) : Type 0 where
  pub pointer : ℕ
  pub place : ℕ
  pub listed : get_elem? p.ustack i ≡ some pointer
  pub same : pointer + sp ≡ place + sz
  pub above : p.dsp ≤ place
  pub in_page : (sp ≤ place) × (place + length str < sp + 4096)
  pub text : (x ch : ℕ) → get_elem? str x ≡ some ch → load8 p.word (place + x) ≡ ch
  pub nul : load8 p.word (place + length str) ≡ 0

-- All the arguments `ss`.
pub record Strings (sp sz : ℕ) (ss : List (List ℕ)) (p : Pushed) (room : ℕ) : Type 0 where
  pub agrees : Agrees sp sz p room
  pub below_end : p.dsp ≤ sp + 4096
  pub strings : (i : ℕ) (str : List ℕ) → get_elem? ss i ≡ some str → StringAt sp sz p i str

module _ (sp sz : ℕ) (pages : Pages sp sz) where
  -- Where a string goes.
  push_arg-below :
      (s : List ℕ) (p : Pushed) (room : ℕ)
      → p.dsp ≤ sp + 4096
      → length s % 16 ≢ 0
      → Agrees sp sz p (length s + 16 + room)
      → (push_arg s p).dsp + length s < p.dsp
  unfolding push_arg
  push_arg-below s p room top odd h =
      let d = sub64-eq p.dsp (length s) (omega arith) (omega arith) in omega (arith, d)

  -- The string just pushed.
  push_arg-first :
      (s : List ℕ) (p : Pushed) (room : ℕ)
      → p.dsp ≤ sp + 4096
      → length s % 16 ≢ 0
      → All (λ c. c < 256) s
      → Agrees sp sz p (length s + 16 + room)
      → StringAt sp sz (push_arg s p) zero s
  unfolding push_arg
  push_arg-first s p room top odd small h =
      let (h', top') = push_arg-Agrees sp sz pages s p room top odd h in
      let below = push_arg-below s p room top odd h in
      let d = string_at p.dsp (length s) in
      record {
        pointer = user_string_at p.align_sz (length s);
        place = d;
        listed = refl;
        same = h'.same;
        above = omega arith;
        in_page = (omega (arith, h'.in_page), omega (arith, below));
        text = λ x ch at. put_string_inside s d p.word x ch small at;
        nul = put_string_end s d p.word;
      }

  -- A string pushed before stays.
  push_arg-later :
      (s : List ℕ) (p : Pushed) (i : ℕ) (str : List ℕ)
      → (push_arg s p).dsp + length s < p.dsp
      → StringAt sp sz p i str
      → StringAt sp sz (push_arg s p) (suc i) str
  unfolding push_arg
  push_arg-later s p i str below t =
      let d = string_at p.dsp (length s) in
      record {
        pointer = t.pointer;
        place = t.place;
        listed = t.listed;
        same = t.same;
        above = omega (arith, below, t.above);
        in_page = t.in_page;
        text = λ x ch at.
            put_string_outside s d p.word (t.place + x) (inr (omega (arith, below, t.above)))
            ∙ t.text x ch at;
        nul =
            put_string_outside s d p.word (t.place + length str)
              (inr (omega (arith, below, t.above)))
            ∙ t.nul;
      }

  push_arg-each :
      (s : List ℕ) (ss : List (List ℕ)) (p : Pushed) (room : ℕ)
      → length s % 16 ≢ 0
      → All (λ c. c < 256) s
      → Strings sp sz ss p (length s + 16 + room)
      → (i : ℕ) (str : List ℕ) → get_elem? (s ∷ ss) i ≡ some str
      → StringAt sp sz (push_arg s p) i str
  push_arg-each s ss p room odd small h zero str at =
      let e : s ≡ str = ground (arith, at) in
      subst (λ t. StringAt sp sz (push_arg s p) zero t) e
        (push_arg-first s p room h.below_end odd small h.agrees)
  push_arg-each s ss p room odd small h (suc i) str at =
      push_arg-later s p i str (push_arg-below s p room h.below_end odd h.agrees)
        (h.strings i str at)

  push_arg-Strings :
      (s : List ℕ) (ss : List (List ℕ)) (p : Pushed) (room : ℕ)
      → length s % 16 ≢ 0
      → All (λ c. c < 256) s
      → Strings sp sz ss p (length s + 16 + room)
      → Strings sp sz (s ∷ ss) (push_arg s p) room
  push_arg-Strings s ss p room odd small h =
      let (h', top') = push_arg-Agrees sp sz pages s p room h.below_end odd h.agrees in
      record { agrees = h'; below_end = top'; strings = push_arg-each s ss p room odd small h }

  push_args-from :
      (ss : List (List ℕ)) (p : Pushed) (room : ℕ)
      → NoSixteens ss
      → AreBytes ss
      → Strings sp sz [] p (bytes_of ss + room)
      → Strings sp sz ss (push_args ss p) room
  unfolding push_args
  push_args-from [] p room odd small h = record {
    agrees = record {
      same = h.agrees.same;
      aligned = h.agrees.aligned;
      in_page = omega (arith, h.agrees.in_page);
    };
    below_end = h.below_end;
    strings = h.strings;
  }
  push_args-from (s ∷ ss) p room odd small h =
      push_arg-Strings s ss (push_args ss p) room odd.0 small.0 (
        push_args-from ss p (length s + 16 + room) odd.1 small.1 (record {
          agrees = record {
            same = h.agrees.same;
            aligned = h.agrees.aligned;
            in_page = omega (arith, h.agrees.in_page);
          };
          below_end = h.below_end;
          strings = h.strings;
        }))

  -- The loop of `kexec` over the arguments, which are texts of bytes, none of a length that 16 divides,
  -- and have room in the page with the strings' padding and `room` bytes below: each argument stands in
  -- the page, with a NUL behind it, whatever was pushed after it; and its pointer in `ustack` names that
  -- place in the user's view of the page. The two stack pointers agree, are 16-aligned, and are in the
  -- page with `room` bytes below.
  pub push_args-Strings :
      (args : List (List ℕ)) (w : ℕ → ℕ) (room : ℕ)
      → NoSixteens args
      → AreBytes args
      → bytes_of args + room ≤ 4096
      → Strings sp sz args
          (push_args args (record { word = w; dsp = sp + 4096; align_sz = sz + 4096; ustack = [] }))
          room
  push_args-Strings args w room odd small fits = push_args-from args _ room odd small (record {
    agrees = record { same = omega arith; aligned = omega arith; in_page = omega (arith, fits) };
    below_end = omega arith;
    strings = λ i str at. absurd (ground (arith, at));
  })
