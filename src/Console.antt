-- ===== src/Console.antt =====
-- console.c: the console on top of a serial port, its formatted output, and its ctrl-c flags. A file number
-- is not negative.
pub mod Ctrlc
pub mod Uart
pub mod Tube
use pure_usb.Prelude.{
  ℕ, zero, suc, ◌+◌, ◌==◌, ltb, ℤ, pos, minus_one, List, [], ◌∷◌, Option, none, some, if◌then◌else◌,
  length,
}

-- The functions of serial.h, which the build takes from ns16550.c or tube.c. `none` is a port that is
-- still waited for.
pub record Port : Type 1 where
  pub State : Type 0
  pub serial_init : State → State
  pub serial_putc : ℕ → State → Option State
  pub serial_puts : List ℕ → State → Option State
  pub serial_getc : State → Option (ℕ × State)
  pub serial_tstc : State → ℕ × State

-- The static variables of console.c, and the port.
pub record Console (S : Type 0) : Type 0 where
  pub ctrlc_disabled : ℕ
  pub ctrlc_was_pressed : ℕ
  pub port : S

abbrev pub C : Type 0 → Type 0 → Type 0
C S A = Console S → Option (A × Console S)

abbrev pub return : {S A : Type 0} → A → C S A
return a k = some (a, k)

infixl 5 ◌>>=◌ ◌>>◌
abbrev pub ◌>>=◌ : {S A B : Type 0} → C S A → (A → C S B) → C S B
◌>>=◌ m f k = elim (m k) [ none ↦ none | some (a, k') ↦ f a k' ]

abbrev pub ◌>>◌ : {S B : Type 0} → C S (Unit {0}) → C S B → C S B
m >> k = m >>= λ _. k

-- `vsprintf`: what it returns for a format and its arguments, and the characters that it writes before
-- the terminating 0.
pub record Formatter : Type 1 where
  pub Args : Type 0
  pub vsprintf : List ℕ → Args → ℕ × List ℕ

-- CONFIG_SYS_PBSIZE: the command buffer, the prompt "UEMD # " with its 0, and 16
abbrev pub config_sys_pbsize : ℕ
config_sys_pbsize = 256 + 8 + 16

-- a string's characters, up to its first 0
unfoldable pub c_string : List ℕ → List ℕ
c_string [] = []
c_string (c ∷ text) = if c == 0 then [] else c ∷ c_string text

abbrev pub max_files : ℕ
max_files = 3

module _ {S : Type 0} where
  -- the previous state is returned
  unfoldable pub disable_ctrlc : ℕ → C S ℕ
  disable_ctrlc disable k = some (k.ctrlc_disabled, record k { ctrlc_disabled = disable })

  unfoldable pub had_ctrlc : C S ℕ
  had_ctrlc k = some (k.ctrlc_was_pressed, k)

  unfoldable pub clear_ctrlc : C S (Unit {0})
  clear_ctrlc k = some (tt, record k { ctrlc_was_pressed = 0 })

module _ (p : Port) where
  open p use {State}

  -- a function of the port that gives nothing back
  abbrev on_port : (State → Option State) → C State (Unit {0})
  on_port f k = elim (f k.port) [ none ↦ none | some s ↦ some (tt, record k { port = s }) ]

  pub console_init : C State (Unit {0})
  console_init k =
      some (tt, record k { ctrlc_disabled = 0; ctrlc_was_pressed = 0; port = p.serial_init k.port })

  pub console_getc : C State ℕ
  console_getc k = elim (p.serial_getc k.port) [
    | none ↦ none
    | some (c, s) ↦ some (c, record k { port = s })
  ]

  abbrev port_tstc : C State ℕ
  port_tstc k = let (ready, s) = p.serial_tstc k.port in some (ready, record k { port = s })

  pub console_tstc : C State ℕ
  unfolding disable_ctrlc
  console_tstc = do
    _ ← disable_ctrlc 1
    ret ← port_tstc
    if ltb 0 ret then return ret else (do _ ← disable_ctrlc 0; return 0)

  pub console_putc : ℕ → C State (Unit {0})
  console_putc c = on_port (p.serial_putc c)

  pub console_puts : List ℕ → C State (Unit {0})
  console_puts text = on_port (p.serial_puts text)

  pub fgetc : ℕ → C State ℤ
  unfolding console_getc
  fgetc file =
      if ltb file max_files then (do c ← console_getc; return (pos c)) else return minus_one

  pub ftstc : ℕ → C State ℤ
  unfolding console_tstc
  ftstc file =
      if ltb file max_files then (do r ← console_tstc; return (pos r)) else return minus_one

  pub fputc : ℕ → ℕ → C State (Unit {0})
  unfolding console_putc
  fputc file c = if ltb file max_files then console_putc c else return tt

  pub fputs : ℕ → List ℕ → C State (Unit {0})
  unfolding console_puts
  fputs file text = if ltb file max_files then console_puts text else return tt

  pub getc : C State ℕ
  unfolding console_getc
  getc = console_getc

  pub tstc : C State ℕ
  unfolding console_tstc
  tstc = console_tstc

  pub putc : ℕ → C State (Unit {0})
  unfolding console_putc
  putc c = console_putc c

  pub puts : List ℕ → C State (Unit {0})
  unfolding console_puts
  puts text = console_puts text

  module _ (format : Formatter) where
    open format use {Args}

    -- what is in `printbuffer` goes to the given output; a text that overruns it is undefined behaviour
    print_formatted : (List ℕ → C State (Unit {0})) → List ℕ → Args → C State ℕ
    unfolding c_string
    print_formatted output fmt args =
        let (i, text) = format.vsprintf fmt args in
        if ltb (length text) config_sys_pbsize
        then (do output (c_string text); return i)
        else (λ k. none)

    pub fprintf : ℕ → List ℕ → Args → C State ℕ
    unfolding print_formatted fputs
    fprintf file fmt args = print_formatted (fputs file) fmt args

    pub printf : List ℕ → Args → C State ℕ
    unfolding print_formatted puts
    printf fmt args = print_formatted puts fmt args

    pub vprintf : List ℕ → Args → C State ℕ
    unfolding print_formatted puts
    vprintf fmt args = print_formatted puts fmt args

  abbrev press : C State ℕ
  press k = some (1, record k { ctrlc_was_pressed = 1 })

  -- the rest of `ctrlc`, when none was pressed before
  pub poll_ctrlc : C State ℕ
  unfolding tstc getc
  poll_ctrlc = do
    ready ← tstc
    if ready == 0 then return 0 else (do c ← getc; if c == 0x03 then press else return 0)

  unfoldable pub ctrlc : C State ℕ
  unfolding poll_ctrlc
  ctrlc k = if k.ctrlc_was_pressed == 0 then poll_ctrlc k else some (1, k)
