-- ===== src/Console/Uart/Output.antt =====
-- What ns16550.c sends, over a device that transmits.
use pure_usb.Prelude.{
  ℕ, zero, suc, ◌<◌, ◌≡◌, ◌==◌, refl, ◌∙◌, ap, sym, true, inl, inr, List, [], ◌∷◌, ◌++◌, some,
  if◌then◌else◌, has_bits, arith, Bool-cases, ==_iff, length, lt→ltb,
}
use mathlib.Core.List.{append_assoc, append-nil}
use pure_usb.Console.{Console, Formatter, config_sys_pbsize, c_string, printf, puts}
use pure_usb.Console.Uart.{
  Uart, lsr, thr, uart_lsr_thre, await_lsr, send, serial_putc, serial_puts, uart_port,
}

-- the text with a carriage return before each line feed
unfoldable pub crlf : List ℕ → List ℕ
crlf [] = []
crlf (c ∷ text) = if c == 10 then 13 ∷ 10 ∷ crlf text else c ∷ crlf text

module _ (u : Uart) where
  open u use {State}

  -- after that many reads of the line status
  pub after_reads : ℕ → State → State
  after_reads zero s = s
  after_reads (suc k) s = after_reads k (u.read lsr s).1

  -- The device sends what is written to its holding register, a read of the line status sends
  -- nothing, and the holding register is empty again within `fuel` reads.
  pub record Transmits (out : State → List ℕ) (fuel : ℕ) : Type 0 where
    pub sends : (c : ℕ) (s : State) → out (u.write thr c s) ≡ out s ++ c ∷ []
    pub quiet : (s : State) → out (u.read lsr s).1 ≡ out s
    pub frees :
        (s : State)
        → (k : ℕ) × (k < fuel) × (has_bits (u.read lsr (after_reads k s)).0 uart_lsr_thre ≡ true)

  module _ {out : State → List ℕ} {fuel : ℕ} (t : Transmits out fuel) where
    await_lsr-ready :
        (left k : ℕ) (s : State)
        → k < left
        → has_bits (u.read lsr (after_reads k s)).0 uart_lsr_thre ≡ true
        → (s' : State) × (await_lsr u left uart_lsr_thre s ≡ some s') × (out s' ≡ out s)
    unfolding await_lsr after_reads
    await_lsr-ready zero k s h free = absurd (omega arith)
    await_lsr-ready (suc left) zero s h free = ((u.read lsr s).1, ground (arith, free), t.quiet s)
    await_lsr-ready (suc left) (suc k) s h free =
        let (s', ready, same) = await_lsr-ready left k (u.read lsr s).1 (omega arith) free in
        elim (Bool-cases (has_bits (u.read lsr s).0 uart_lsr_thre)) [
          | inl now ↦ ((u.read lsr s).1, ground (arith, now), t.quiet s)
          | inr busy ↦ (s', ground (arith, busy, ready), same ∙ t.quiet s)
        ]

    send-out :
        (c : ℕ) (s : State)
        → (s' : State) × (send u fuel c s ≡ some s') × (out s' ≡ out s ++ c ∷ [])
    unfolding send
    send-out c s =
        let (k, within, free) = t.frees s in
        let (s', ready, same) = await_lsr-ready fuel k s within free in
        (
          u.write thr c s',
          ground (arith, ready),
          t.sends c s' ∙ ap (λ (o : List ℕ). o ++ c ∷ []) same,
        )

    serial_putc-out :
        (c : ℕ) (s : State)
        → (s' : State) × (serial_putc u fuel c s ≡ some s') × (out s' ≡ out s ++ crlf (c ∷ []))
    unfolding serial_putc crlf
    serial_putc-out c s = elim (Bool-cases (c == 10)) [
      | inl line ↦
          let (s1, first, shown1) = send-out 13 s in
          let (s2, second, shown2) = send-out c s1 in
          let is_line = (==_iff c 10).0 line in
          (
            s2,
            ground (arith, line, first, second),
            ground (arith, line, shown1, shown2, is_line, append_assoc (out s) (13 ∷ []) (c ∷ [])),
          )
      | inr char ↦
          let (s', sent, shown) = send-out c s in (s', ground (arith, char, sent), rw char shown)
    ]

    crlf-cons : (c : ℕ) (text : List ℕ) → crlf (c ∷ text) ≡ crlf (c ∷ []) ++ crlf text
    unfolding crlf
    crlf-cons c text = elim (Bool-cases (c == 10)) [ inl line ↦ rw line | inr char ↦ rw char ]

    serial_puts-out :
        (text : List ℕ) (s : State)
        → (s' : State) × (serial_puts u fuel text s ≡ some s') × (out s' ≡ out s ++ crlf text)
    unfolding serial_puts crlf
    serial_puts-out [] s = (s, refl, sym (append-nil (out s)))
    serial_puts-out (c ∷ text) s =
        let (s1, first, shown1) = serial_putc-out c s in
        let (s2, rest, shown2) = serial_puts-out text s1 in
        (
          s2,
          ground (arith, first, rest),
          shown2
              ∙ ap (λ (o : List ℕ). o ++ crlf text) shown1
              ∙ append_assoc (out s) (crlf (c ∷ [])) (crlf text)
              ∙ ap (λ (o : List ℕ). out s ++ o) (sym (crlf-cons c text)),
        )

    puts-crlf :
        (text : List ℕ) (k : Console State)
        → (k' : Console State) × (puts (uart_port u fuel) text k ≡ some (tt, k'))
          × (out k'.port ≡ out k.port ++ crlf text)
    unfolding puts
    puts-crlf text k =
        let (s', sent, shown) = serial_puts-out text k.port in
        (record k { port = s' }, ground (arith, sent), shown)

    -- `printf` of the console over ns16550.c, for a text that fits `printbuffer`, always returns what
    -- `vsprintf` has returned, and the device sends the text up to its first 0 with a carriage return
    -- before each line feed, if it transmits and is ready again within the reads that a wait may take.
    pub printf-crlf :
        (format : Formatter) (fmt : List ℕ) (args : format.Args) (k : Console State)
        → length (format.vsprintf fmt args).1 < config_sys_pbsize
        → (k' : Console State) × (printf (uart_port u fuel) format fmt args k
            ≡ some ((format.vsprintf fmt args).0, k'))
          × (out k'.port ≡ out k.port ++ crlf (c_string (format.vsprintf fmt args).1))
    unfolding printf
    printf-crlf format fmt args k fits =
        let text = (format.vsprintf fmt args).1 in
        let (k', sent, shown) = puts-crlf (c_string text) k in
        (k', rw (lt→ltb (length text) config_sys_pbsize fits) (ground (arith, sent)), shown)
