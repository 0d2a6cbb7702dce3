-- ===== src/Tests/Console.antt =====
-- A key that is always pressed, a serial port that is always ready, and the console on them.
use pure_usb.Prelude.{
  ℕ, ◌+◌, ◌-◌, ◌%◌, ◌≡◌, ◌==◌, refl, List, [], ◌∷◌, ◌++◌, length, replicate, some, if◌then◌else◌,
  arith,
}
use pure_usb.Console.{Port, Console, Formatter, c_string, printf, ctrlc, disable_ctrlc, ◌>>=◌}
use pure_usb.Console.Ctrlc.{seen, disabled_ctrlc, ctrlc-disable}
use pure_usb.Console.Uart.{Uart, thr, uart_port, baud_divisor}
use pure_usb.Console.Uart.Output.{crlf, Transmits, printf-crlf}
use pure_usb.Console.Tube.{serial_puts}
use pure_usb.Console.Tube.Words.{shown_all, serial_puts-shown}

-- what was sent is the state
abbrev wire : Uart
wire = record {
  State = List ℕ;
  read = λ reg s. (0x20, s);
  write = λ reg val s. if reg == thr then s ++ val ∷ [] else s;
}

wire-Transmits : Transmits wire (λ s. s) 1
wire-Transmits = record {
  sends = λ c s. refl;
  quiet = λ s. refl;
  frees = λ s. (0, omega arith, refl);
}

abbrev quiet_console : Console (List ℕ)
quiet_console = record { ctrlc_disabled = 0; ctrlc_was_pressed = 0; port = [] }

-- a format without arguments, which is written as it is
abbrev plain : Formatter
plain = record { Args = Unit {0}; vsprintf = λ fmt args. (length fmt, fmt) }

-- "a", a line feed, "b"
abbrev lines : List ℕ
lines = 97 ∷ 10 ∷ 98 ∷ []

printf-crlf_example :
    (k' : Console (List ℕ)) × (printf (uart_port wire 1) plain lines tt quiet_console
      ≡ some (3, k'))
    × (k'.port ≡ [] ++ crlf (c_string lines))
printf-crlf_example = printf-crlf wire wire-Transmits plain lines tt quiet_console (omega arith)

four_sent : crlf (97 ∷ 10 ∷ 98 ∷ []) ≡ 97 ∷ 13 ∷ 10 ∷ 98 ∷ []
unfolding crlf
four_sent = refl

nearest_divisor : baud_divisor ≡ 88
unfolding baud_divisor
nearest_divisor = refl

abbrev hi : List ℕ
hi = 72 ∷ 105 ∷ 0 ∷ 33 ∷ []

serial_puts-shown_example :
    shown_all (serial_puts hi [])
    ≡ shown_all [] ++ (c_string hi ++ replicate (4 - length (c_string hi) % 4) 13)
serial_puts-shown_example = serial_puts-shown hi [] (omega arith)

-- ctrl-c is always there
abbrev held_key : Port
held_key = record {
  State = ℕ;
  serial_init = λ s. s;
  serial_putc = λ c s. some s;
  serial_puts = λ text s. some s;
  serial_getc = λ s. some (3, s + 1);
  serial_tstc = λ s. (1, s);
}

abbrev idle_console : Console ℕ
idle_console = record { ctrlc_disabled = 0; ctrlc_was_pressed = 0; port = 0 }

ctrlc-disable_example :
    (seen held_key (disabled_ctrlc held_key 1 idle_console)
      ≡ seen held_key (ctrlc held_key idle_console))
    × ((disable_ctrlc 1 >>= disable_ctrlc) idle_console ≡ some (1, idle_console))
ctrlc-disable_example = ctrlc-disable held_key 1 idle_console

abbrev pressed : Console ℕ
pressed = record { ctrlc_disabled = 1; ctrlc_was_pressed = 1; port = 1 }

key_seen : ctrlc held_key idle_console ≡ some (1, pressed)
unfolding ctrlc
key_seen = refl
