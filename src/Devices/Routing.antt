-- ===== src/Devices/Routing.antt =====
-- What `gic_init` (kernel/gicv2.c) makes of the priorities and the targets of the two interrupts.
use gcgos.Base.{
  Ends-result, ℕ, zero, suc, ◌+◌, ◌/◌, ◌%◌, ◌^◌, ◌<◌, ◌≡◌, ◌≢◌, refl, ◌∙◌, ap, sym, Bool, true,
  false, ◌==◌, arith, ok, write, write_ne, pure, ◌>>=◌, Ends, ends, Ends-then, Bool-cases, inl, inr,
}
use gcgos.Trap.{pl011_irq, timer_irq}
use gcgos.Devices.{Device, Board, read_reg, write_reg, byte_of, clear_byte, or_one}
use gcgos.Devices.Gic.{
  gicd_ctlr, gicd_typer, gicc_ctlr, gicc_pmr, isenabler, ipriorityr, itargetsr, change_reg,
  enable_irq, clear_priority, set_target, intr_on, gic_init,
}

-- Devices of which some registers hold what is written to them: a read gives it, and reads and writes
-- of other registers keep it.
pub record Settings (d : Device) : Type 1 where
  pub is_setting : ℕ → Bool
  pub value : ℕ → d.State → ℕ
  pub read_value : (reg : ℕ) (s : d.State) → is_setting reg ≡ true → (d.read reg s).0 ≡ value reg s
  pub read_keeps :
      (reg other : ℕ) (s : d.State)
      → is_setting reg ≡ true
      → value reg ((d.read other s).1) ≡ value reg s
  pub write_value :
      (reg v : ℕ) (s : d.State) → is_setting reg ≡ true → value reg (d.write reg v s) ≡ v
  pub write_keeps :
      (reg other v : ℕ) (s : d.State)
      → is_setting reg ≡ true
      → reg ≢ other
      → value reg (d.write other v s) ≡ value reg s

-- The words after `set_target` and `clear_priority` of an interrupt, and after all of `gic_init`.
abbrev targeted : (irq : ℕ) → (ℕ → ℕ) → ℕ → ℕ
targeted irq w =
    let reg = itargetsr (irq / 4) in
    let w1 = write w reg (clear_byte (irq % 4) (w reg)) in write w1 reg (or_one (irq % 4) (w1 reg))

abbrev cleared : (irq : ℕ) → (ℕ → ℕ) → ℕ → ℕ
cleared irq w = let reg = ipriorityr (irq / 4) in write w reg (clear_byte (irq % 4) (w reg))

abbrev initialised : (ℕ → ℕ) → ℕ → ℕ
initialised w =
    let w1 = write (write (write w gicd_ctlr 0) (isenabler 4) (2 ^ 25)) (isenabler 0) (2 ^ 30) in
    let w2 = targeted timer_irq (targeted pl011_irq (cleared timer_irq (cleared pl011_irq w1))) in
    write (write (write w2 gicc_ctlr 1) gicd_ctlr 1) gicc_pmr 0xFF

-- Of the four bytes of a word, byte `k` has become `x`, and the others are as they were.
abbrev pub ByteSet : (k x w w' : ℕ) → Type 0
ByteSet k x w w' = (byte_of k w' ≡ x) × ((n : ℕ) → n < 4 → n ≢ k → byte_of n w' ≡ byte_of n w)

-- What holds for each byte but `k`, from the four bytes.
others :
    (k : ℕ) (P : ℕ → Type 0)
    → (k ≢ 0 → P 0)
    → (k ≢ 1 → P 1)
    → (k ≢ 2 → P 2)
    → (k ≢ 3 → P 3)
    → (n : ℕ) → n < 4
    → n ≢ k
    → P n
others k P p0 p1 p2 p3 zero lt ne = p0 (λ e. ne (sym e))
others k P p0 p1 p2 p3 (suc zero) lt ne = p1 (λ e. ne (sym e))
others k P p0 p1 p2 p3 (suc (suc zero)) lt ne = p2 (λ e. ne (sym e))
others k P p0 p1 p2 p3 (suc (suc (suc zero))) lt ne = p3 (λ e. ne (sym e))
others k P p0 p1 p2 p3 (suc (suc (suc (suc n)))) lt ne = absurd (omega arith)

clear_one : (w : ℕ) → ByteSet 1 0 w (clear_byte 1 w)
clear_one w = (
  omega arith,
  others 1 (λ n. byte_of n (clear_byte 1 w) ≡ byte_of n w) (λ ne. omega arith)
      (λ ne. absurd (ne refl)) (λ ne. omega arith) (λ ne. omega arith),
)

clear_two : (w : ℕ) → ByteSet 2 0 w (clear_byte 2 w)
clear_two w = (
  omega arith,
  others 2 (λ n. byte_of n (clear_byte 2 w) ≡ byte_of n w) (λ ne. omega arith) (λ ne. omega arith)
      (λ ne. absurd (ne refl)) (λ ne. omega arith),
)

or_first : (w : ℕ) → byte_of 1 w ≡ 0 → ByteSet 1 1 w (or_one 1 w)
or_first w none = rw none (
  omega (arith, none),
  others 1 (λ n. byte_of n (w + 256) ≡ byte_of n w) (λ ne. omega (arith, none))
      (λ ne. absurd (ne refl)) (λ ne. omega (arith, none)) (λ ne. omega (arith, none)),
)

ByteSet-trans : (k x y w w' w'' : ℕ) → ByteSet k x w w' → ByteSet k y w' w'' → ByteSet k y w w''
ByteSet-trans k x y w w' w'' (b, same) (b', same') = (b', λ n lt ne. same' n lt ne ∙ same n lt ne)

module _ (d : Device) (set : Settings d) where
  -- The settings hold the words `w`.
  abbrev Sees : (ℕ → ℕ) → Board d → Type 0
  Sees w b = (reg : ℕ) → set.is_setting reg ≡ true → set.value reg b.io ≡ w reg

  -- A write of `v`, where the settings' word for the register is `v'`: the same if it is a setting.
  write_any-Sees :
      (reg v v' : ℕ) (w : ℕ → ℕ) (b : Board d)
      → (set.is_setting reg ≡ true → v ≡ v')
      → Sees w b
      → Ends (λ _ b'. Sees (write w reg v') b') (write_reg d reg v b)
  unfolding write_reg
  write_any-Sees reg v v' w b same sees = ends λ c on. elim (Bool-cases (c == reg)) [
    | inl e ↦
        let here : c ≡ reg = ground arith in
        ap (λ r. set.value c (d.write r v b.io)) (sym here)
        ∙ set.write_value c v b.io on
        ∙ same (ap set.is_setting (sym here) ∙ on)
        ∙ ground arith
    | inr ne ↦
        let other : c ≢ reg = λ e. absurd (ground arith) in
        set.write_keeps c reg v b.io on other ∙ sees c on ∙ sym (write_ne w reg c v' other)
  ]

  write-Sees :
      (reg v : ℕ) (w : ℕ → ℕ) (b : Board d)
      → Sees w b
      → Ends (λ _ b'. Sees (write w reg v) b') (write_reg d reg v b)
  write-Sees reg v w b sees = write_any-Sees reg v v w b (λ on. refl) sees

  -- A read gives what a setting holds, and keeps the settings.
  read-Sees :
      (reg : ℕ) (w : ℕ → ℕ) (b : Board d)
      → Sees w b
      → Ends (λ v b'. (set.is_setting reg ≡ true → v ≡ w reg) × Sees w b') (read_reg d reg b)
  unfolding read_reg
  read-Sees reg w b sees = ends (
    λ on. set.read_value reg b.io on ∙ sees reg on,
    λ c on. set.read_keeps c reg b.io on ∙ sees c on,
  )

  change-Sees :
      (reg : ℕ) (f : ℕ → ℕ) (w : ℕ → ℕ) (b : Board d)
      → Sees w b
      → Ends (λ _ b'. Sees (write w reg (f (w reg))) b') (change_reg d reg f b)
  unfolding change_reg
  change-Sees reg f w b sees =
      Ends-then _ (read-Sees reg w b sees)
        λ v b1 (is, sees1). write_any-Sees reg (f v) (f (w reg)) w b1 (λ on. ap f (is on)) sees1

  skip-Sees :
      (reg : ℕ) (w : ℕ → ℕ) (b : Board d)
      → Sees w b
      → Ends (λ _ b'. Sees w b') ((read_reg d reg >>= λ _. pure tt) b)
  skip-Sees reg w b sees = Ends-then _ (read-Sees reg w b sees) λ v b1 (is, sees1). ends sees1

  clear-Sees :
      (irq : ℕ) (w : ℕ → ℕ) (b : Board d)
      → Sees w b
      → Ends (λ _ b'. Sees (cleared irq w) b') (clear_priority d irq b)
  unfolding clear_priority
  clear-Sees irq w b sees = change-Sees (ipriorityr (irq / 4)) (clear_byte (irq % 4)) w b sees

  target-Sees :
      (irq : ℕ) (w : ℕ → ℕ) (b : Board d)
      → Sees w b
      → Ends (λ _ b'. Sees (targeted irq w) b') (set_target d irq b)
  unfolding set_target
  target-Sees irq w b sees =
      Ends-then _ (change-Sees (itargetsr (irq / 4)) (clear_byte (irq % 4)) w b sees) λ _ b1 s1.
        change-Sees (itargetsr (irq / 4)) (or_one (irq % 4))
          (write w (itargetsr (irq / 4)) (clear_byte (irq % 4) (w (itargetsr (irq / 4))))) b1 s1

  gic_init-Sees :
      (w : ℕ → ℕ) (b : Board d)
      → Sees w b
      → Ends (λ _ b'. (b'.masked ≡ false) × Sees (initialised w) b') (gic_init d b)
  unfolding gic_init enable_irq intr_on
  gic_init-Sees w b sees = Ends-then _ (write-Sees gicd_ctlr 0 w b sees) λ _ b s.
      Ends-then _ (skip-Sees gicd_typer _ b s) λ _ b s.
        Ends-then _ (write-Sees (isenabler 4) (2 ^ 25) _ b s) λ _ b s.
          Ends-then _ (write-Sees (isenabler 0) (2 ^ 30) _ b s) λ _ b s.
            Ends-then _ (clear-Sees pl011_irq _ b s) λ _ b s.
              Ends-then _ (clear-Sees timer_irq _ b s) λ _ b s.
                Ends-then _ (target-Sees pl011_irq _ b s) λ _ b s.
                  Ends-then _ (target-Sees timer_irq _ b s) λ _ b s.
                    Ends-then _ (write-Sees gicc_ctlr 1 _ b s) λ _ b s.
                      Ends-then _ (write-Sees gicd_ctlr 1 _ b s) λ _ b s.
                        Ends-then _ (write-Sees gicc_pmr 0xFF _ b s) λ _ b s.
                          Ends-then _ (skip-Sees gicd_ctlr _ b s)
                            λ _ b s. Ends-then _ (skip-Sees gicc_ctlr _ b s) λ _ b s. ends (refl, s)

  -- `gic_init` returns, with interrupts unmasked, on devices where GICD_IPRIORITYR 38 and 7 and
  -- GICD_ITARGETSR 38 are registers that hold what is written; GICD_ITARGETSR 7, which it writes too, may
  -- be read-only. Then the UART's interrupt and the timer's have priority 0, the UART's has the target
  -- CPU 0, and the other bytes of these three words are as they were.
  pub gic_init-ByteSet :
      (b : Board d)
      → set.is_setting (ipriorityr 38) ≡ true
      → set.is_setting (ipriorityr 7) ≡ true
      → set.is_setting (itargetsr 38) ≡ true
      → (b' : Board d) × (gic_init d b ≡ ok tt b')
        × (b'.masked ≡ false)
        × ByteSet
            (pl011_irq % 4)
            0
            (set.value (ipriorityr 38) b.io)
            (set.value (ipriorityr 38) b'.io)
        × ByteSet (pl011_irq % 4) 1 (set.value (itargetsr 38) b.io) (set.value (itargetsr 38) b'.io)
        × ByteSet (timer_irq % 4) 0 (set.value (ipriorityr 7) b.io) (set.value (ipriorityr 7) b'.io)
  gic_init-ByteSet b p1 p2 t1 =
      let w : ℕ → ℕ = λ reg. set.value reg b.io in
      let (_, b', run, (on, sees)) = Ends-result (gic_init-Sees w b (λ c on. refl)) in
      let c1 = clear_one (w (itargetsr 38)) in
      (
        b',
        run,
        on,
        rw (sees (ipriorityr 38) p1) (clear_one (w (ipriorityr 38))),
        rw (sees (itargetsr 38) t1)
            (ByteSet-trans 1 0 1 _ _ _ c1 (or_first (clear_byte 1 (w (itargetsr 38))) c1.0)),
        rw (sees (ipriorityr 7) p2) (clear_two (w (ipriorityr 7))),
      )
