-- ===== src/Sd/Transfers.antt =====
-- What a transfer of blocks by the driver of the SD card gives back.
use native.Mathlib.Omega.{arith}
use gcgos.Base.{
  ℕ, zero, suc, ◌+◌, ◌*◌, ◌%◌, ◌^◌, not, ◌&&◌, Bool, true, false, ◌==◌, ◌≡◌, refl, ◌⊎◌, inl, inr,
  List, [], ◌++◌, length, Ends, Returns, Ends-if, Ends-then, Ends-call, ends, returns, Bool-cases,
  ap, ok, length-append,
}
use gcgos.Sd.{Controller, Sd, any, sr_dat_inhibit, sd_ok, sd_timeout}
use gcgos.Sd.Returns.{sd_status-Returns, sd_int-Returns, sd_cmd-Returns}
use gcgos.Sd.Block.{
  command, await, announce, block_ready, read_words, read_blocks, end_transfer, sd_readblock,
  sr_write_available, words_behind, write_words, write_blocks, sd_writeblock, at_least_one, outcome,
  scr_supp_ccs, scr_supp_set_blkcnt, cmd_stop_trans, int_data_done, cmd_set_blockcnt,
  cmd_read_single, cmd_read_multi, cmd_write_multi, cmd_write_single, int_read_rdy, int_write_rdy,
}

module _ (c : Controller) where
  -- A step that does not let the transfer go on has left an error.
  abbrev Blames : Bool → Sd c.State → Type 0
  Blames go s = go ≡ false → (s.err == sd_ok) ≡ false

  false_of_not : (b : Bool) → not b ≡ true → b ≡ false
  false_of_not b h = ground arith

  command-Blames : (code arg : ℕ) (s : Sd c.State) → Ends Blames (command c code arg s)
  unfolding command
  command-Blames code arg s = Ends-call (sd_cmd-Returns c code arg s) (λ _ s1. ends (λ h. h))

  go_on : (s : Sd c.State) → Ends Blames (ok true s)
  go_on s = ends (λ h. ground arith)

  await-Blames : (mask : ℕ) (s : Sd c.State) → Ends Blames (await c mask s)
  unfolding await
  await-Blames mask s =
      Ends-call (sd_int-Returns c mask s)
        (λ r s1. Ends-if (not (r == 0)) _ _ s1 (λ h. ends (λ _. ground arith)) (λ _. go_on s1))

  announce-Blames :
      (single multi lba num : ℕ) (s : Sd c.State) → Ends Blames (announce c single multi lba num s)
  unfolding announce
  announce-Blames single multi lba num s =
      Ends-if (any scr_supp_ccs s.scr0) _ _ s
        (λ _.
          Ends-then _
            (Ends-if (not (num == 1) && any scr_supp_set_blkcnt s.scr0) _ _ s
              (λ _. command-Blames cmd_set_blockcnt num s) (λ _. go_on s))
            (λ go s1 h. Ends-if go _ _ s1 (λ _. command-Blames _ _ _) (λ k. ends (λ _. h k))))
        (λ _. go_on _)

  block_ready-Blames :
      (single mask lba i : ℕ) (s : Sd c.State) → Ends Blames (block_ready c single mask lba i s)
  unfolding block_ready
  block_ready-Blames single mask lba i s =
      Ends-then _
        (Ends-if (not (any scr_supp_ccs s.scr0)) _ _ s
          (λ _. command-Blames single ((lba + i) * 512 % 2 ^ 32) s) (λ _. go_on s))
        (λ go s1 h. Ends-if go _ _ s1 (λ _. await-Blames mask s1) (λ k. ends (λ _. h k)))

  read_words-length : (n : ℕ) (s : Sd c.State) → Ends (λ ws _. length ws ≡ n) (read_words c n s)
  unfolding read_words
  read_words-length zero s = ends refl
  read_words-length (suc n) s = Ends-then _ (read_words-length n _) (λ ws s1 h. ends (ap suc h))

  -- A loop that comes to its end has read every block; one that does not has left an error.
  abbrev Read : (n : ℕ) → Bool × List ℕ → Sd c.State → Type 0
  Read n (done, ws) s =
      ((done ≡ true) × (length ws ≡ 128 * n)) ⊎ ((done ≡ false) × ((s.err == sd_ok) ≡ false))

  Read-append :
      (n : ℕ) (done : Bool) (ws rest : List ℕ) (s : Sd c.State)
      → length ws ≡ 128
      → Read n (done, rest) s
      → Read (suc n) (done, ws ++ rest) s
  Read-append n done ws rest s l (inl (d, k)) = inl (d, omega (arith, length-append ws rest, k, l))
  Read-append n done ws rest s l (inr h) = inr h

  read_blocks-Read : (lba i n : ℕ) (s : Sd c.State) → Ends (Read n) (read_blocks c lba i n s)
  unfolding read_blocks
  read_blocks-Read lba i zero s = ends (inl (refl, refl))
  read_blocks-Read lba i (suc n) s =
      Ends-then _ (block_ready-Blames cmd_read_single int_read_rdy lba i s) (λ go s1 h.
        Ends-if go _ _ s1
          (λ _. Ends-then _ (read_words-length 128 s1) (λ ws s2 l.
            Ends-then _ (read_blocks-Read lba (suc i) n s2)
              (λ (done, rest) s3 r. ends (Read-append n done ws rest s3 l r))))
          (λ k. ends (inr (refl, h k))))

  -- The two ends of a transfer of `num` blocks: the count of bytes and no error, or 0 and an error.
  abbrev pub Settled : (num : ℕ) → ℕ → Sd c.State → Type 0
  Settled num r s =
      ((r ≡ num * 512 % 2 ^ 32) × ((s.err == sd_ok) ≡ true))
      ⊎ ((r ≡ 0) × ((s.err == sd_ok) ≡ false))

  settled : (num : ℕ) (s : Sd c.State) → Settled num (outcome s.err num) s
  settled num s = elim (Bool-cases (s.err == sd_ok)) [
    | inl h ↦ inl (ground arith, h)
    | inr h ↦ inr (ground arith, h)
  ]

  end_transfer-Settled : (num : ℕ) (s : Sd c.State) → Ends (Settled num) (end_transfer c num s)
  unfolding end_transfer
  end_transfer-Settled num s =
      Ends-call
        (Ends-if (not (num == 1) && not (any scr_supp_set_blkcnt s.scr0) && any scr_supp_ccs s.scr0)
          _ _ s (λ _. Ends-call (sd_cmd-Returns c cmd_stop_trans 0 s) (λ _ _. returns))
          (λ _. returns))
        (λ _ s1. ends (settled num s1))

  -- What `sd_readblock` gives back for `num` blocks.
  abbrev pub Delivered : (num : ℕ) → ℕ × List ℕ → Sd c.State → Type 0
  Delivered num (r, ws) s = Settled num r s × ((s.err == sd_ok) ≡ true → length ws ≡ 128 * num)

  failed :
      (num : ℕ) (ws : List ℕ) (s : Sd c.State) → (s.err == sd_ok) ≡ false → Delivered num (0, ws) s
  failed num ws s h = (inr (refl, h), λ k. ground arith)

  Read-done :
      (n : ℕ) (done : Bool) (ws : List ℕ) (s : Sd c.State)
      → not done ≡ false
      → Read n (done, ws) s
      → length ws ≡ 128 * n
  Read-done n done ws s k (inl (_, l)) = l
  Read-done n done ws s k (inr (d, _)) = ground arith

  Read-failed :
      (n : ℕ) (done : Bool) (ws : List ℕ) (s : Sd c.State)
      → not done ≡ true
      → Read n (done, ws) s
      → (s.err == sd_ok) ≡ false
  Read-failed n done ws s k (inl (d, _)) = ground arith
  Read-failed n done ws s k (inr (_, e)) = e

  -- For every controller, whatever it answers, `sd_readblock` returns. Either it returns the count of
  -- the bytes read (a `num` of 0 counts as 1), has put 128 words for each block into the buffer, and
  -- `sd_err` is SD_OK; or it returns 0 and `sd_err` is not SD_OK.
  pub sd_readblock-Delivered :
      (lba num : ℕ) (s : Sd c.State)
      → Ends (Delivered (at_least_one num)) (sd_readblock c lba num s)
  unfolding sd_readblock
  sd_readblock-Delivered lba num0 s =
      let num = at_least_one num0 in
      Ends-call (sd_status-Returns c sr_dat_inhibit s) (λ busy s1.
        Ends-if (not (busy == 0)) _ _ s1
          (λ _. ends (failed num [] (record s1 { err = sd_timeout }) refl))
          (λ _. Ends-then _ (announce-Blames cmd_read_single cmd_read_multi lba num s1) (λ go s2 h.
            Ends-if (not go) _ _ s2 (λ k. ends (failed num [] s2 (h (false_of_not go k))))
              (λ _. Ends-then _ (read_blocks-Read lba 0 num s2) (λ (done, ws) s3 r.
                Ends-if (not done) _ _ s3
                  (λ k. ends (failed num ws s3 (Read-failed num done ws s3 k r)))
                  (λ k.
                    Ends-then _ (end_transfer-Settled num s3)
                      (λ n s4 e. ends (e, λ _. Read-done num done ws s3 k r))))))))

  write_words-Returns : (n : ℕ) (buf : List ℕ) (s : Sd c.State) → Returns (write_words c n buf s)
  unfolding write_words
  write_words-Returns zero buf s = returns
  write_words-Returns (suc n) buf s = write_words-Returns n (words_behind buf) _

  write_blocks-Blames :
      (lba i n : ℕ) (buf : List ℕ) (s : Sd c.State) → Ends Blames (write_blocks c lba i n buf s)
  unfolding write_blocks
  write_blocks-Blames lba i zero buf s = go_on s
  write_blocks-Blames lba i (suc n) buf s =
      Ends-then _ (block_ready-Blames cmd_write_single int_write_rdy lba i s) (λ go s1 h.
        Ends-if go _ _ s1
          (λ _.
            Ends-call (write_words-Returns 128 buf s1)
              (λ rest s2. write_blocks-Blames lba (suc i) n rest s2))
          (λ k. ends (λ _. h k)))

  -- For every controller, whatever it answers, `sd_writeblock` returns. Either it returns the count of
  -- the bytes of its blocks (a `num` of 0 counts as 1) and `sd_err` is SD_OK, or it returns 0 and
  -- `sd_err` is not SD_OK.
  pub sd_writeblock-Settled :
      (buf : List ℕ) (lba num : ℕ) (s : Sd c.State)
      → Ends (Settled (at_least_one num)) (sd_writeblock c buf lba num s)
  unfolding sd_writeblock
  sd_writeblock-Settled buf lba num0 s =
      let num = at_least_one num0 in
      Ends-call (sd_status-Returns c (sr_dat_inhibit + sr_write_available) s) (λ busy s1.
        Ends-if (not (busy == 0)) _ _ s1 (λ _. ends (inr (refl, refl)))
          (λ _.
            Ends-then _ (announce-Blames cmd_write_single cmd_write_multi lba num s1) (λ go s2 h.
              Ends-if (not go) _ _ s2 (λ k. ends (inr (refl, h (false_of_not go k))))
                (λ _. Ends-then _ (write_blocks-Blames lba 0 num buf s2) (λ done s3 r.
                  Ends-if (not done) _ _ s3 (λ k. ends (inr (refl, r (false_of_not done k))))
                    (λ _. Ends-then _ (await-Blames int_data_done s3) (λ over s4 q.
                      Ends-if (not over) _ _ s4 (λ k. ends (inr (refl, q (false_of_not over k))))
                        (λ _. end_transfer-Settled num s4))))))))
