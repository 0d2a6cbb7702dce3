-- ===== src/Console/Uart.antt =====
-- ns16550.c: the serial port of the board, by its registers.
pub mod Output
use pure_usb.Prelude.{
  ℕ, zero, suc, ◌+◌, ◌*◌, ◌/◌, ◌==◌, List, [], ◌∷◌, Option, none, some, if◌then◌else◌, bit_and,
  bit_or, has_bits, shr, true, false,
}
use pure_usb.Console.{Port}

-- The device behind the registers, which any read may change. The watchdog resets of the source are
-- empty.
pub record Uart : Type 1 where
  pub State : Type 0
  pub read : ℕ → State → ℕ × State
  pub write : ℕ → ℕ → State → State

abbrev pub com1 : ℕ
com1 = 0x2002b000

abbrev pub rbr : ℕ
rbr = com1

abbrev pub thr : ℕ
thr = rbr

abbrev pub dll : ℕ
dll = rbr

abbrev pub ier : ℕ
ier = com1 + 4

abbrev pub dlm : ℕ
dlm = ier

abbrev pub fcr : ℕ
fcr = com1 + 8

abbrev pub lcr : ℕ
lcr = com1 + 12

abbrev pub mcr : ℕ
mcr = com1 + 16

abbrev pub lsr : ℕ
lsr = com1 + 20

abbrev pub uart_lsr_dr : ℕ
uart_lsr_dr = 0x01

abbrev pub uart_lsr_thre : ℕ
uart_lsr_thre = 0x20

abbrev pub uart_lcr_bkse : ℕ
uart_lcr_bkse = 0x80

abbrev pub uart_lcrval : ℕ
uart_lcrval = 0x03

abbrev pub uart_mcrval : ℕ
uart_mcrval = 0x03

abbrev pub uart_fcrval : ℕ
uart_fcrval = 0x07

abbrev pub config_sys_ns16550_clk : ℕ
config_sys_ns16550_clk = 54000000

abbrev pub config_baudrate : ℕ
config_baudrate = 38400

abbrev pub mode_x_div : ℕ
mode_x_div = 16

-- the clock over the sampling rate, rounded to the nearest number
unfoldable pub baud_divisor : ℕ
baud_divisor =
    (config_sys_ns16550_clk + config_baudrate * (mode_x_div / 2)) / (mode_x_div * config_baudrate)

module _ (u : Uart) where
  open u use {State}

  -- the registers that `serial_init` writes, in order
  pub serial_init : State → State
  unfolding baud_divisor
  serial_init s =
      let s1 = u.write ier 0x00 s in
      let s2 = u.write lcr (bit_or uart_lcr_bkse uart_lcrval) s1 in
      let s3 = u.write dll 0 s2 in
      let s4 = u.write dlm 0 s3 in
      let s5 = u.write lcr uart_lcrval s4 in
      let s6 = u.write mcr uart_mcrval s5 in
      let s7 = u.write fcr uart_fcrval s6 in
      let s8 = u.write lcr (bit_or uart_lcr_bkse uart_lcrval) s7 in
      let s9 = u.write dll (bit_and baud_divisor 0xff) s8 in
      let s10 = u.write dlm (bit_and (shr baud_divisor 8) 0xff) s9 in u.write lcr uart_lcrval s10

  -- The line status is read until it shows the bits, at most `fuel` times.
  pub await_lsr : ℕ → ℕ → State → Option State
  await_lsr zero mask s = none
  await_lsr (suc fuel) mask s =
      let (status, s') = u.read lsr s in
      elim (has_bits status mask) [ true ↦ some s' | false ↦ await_lsr fuel mask s' ]

  -- `_serial_putc`
  pub send : ℕ → ℕ → State → Option State
  unfolding await_lsr
  send fuel c s = elim (await_lsr fuel uart_lsr_thre s) [
    | none ↦ none
    | some s' ↦ some (u.write thr c s')
  ]

  pub serial_putc : ℕ → ℕ → State → Option State
  unfolding send
  serial_putc fuel c s =
      if c == 10
      then elim (send fuel 13 s) [ none ↦ none | some s' ↦ send fuel c s' ]
      else send fuel c s

  pub serial_puts : ℕ → List ℕ → State → Option State
  unfolding serial_putc
  serial_puts fuel [] s = some s
  serial_puts fuel (c ∷ text) s = elim (serial_putc fuel c s) [
    | none ↦ none
    | some s' ↦ serial_puts fuel text s'
  ]

  pub serial_getc : ℕ → State → Option (ℕ × State)
  unfolding await_lsr
  serial_getc fuel s = elim (await_lsr fuel uart_lsr_dr s) [
    | none ↦ none
    | some s' ↦ some (u.read rbr s')
  ]

  pub serial_tstc : State → ℕ × State
  serial_tstc s =
      let (status, s') = u.read lsr s in ((if has_bits status uart_lsr_dr then 1 else 0), s')

-- the port that the board's build links, with the reads that a wait may take
abbrev pub uart_port : Uart → ℕ → Port
uart_port u fuel = record {
  State = u.State;
  serial_init = serial_init u;
  serial_putc = serial_putc u fuel;
  serial_puts = serial_puts u fuel;
  serial_getc = serial_getc u fuel;
  serial_tstc = serial_tstc u;
}
