-- ===== src/Console/Tube.antt =====
-- tube.c: the output of the simulated machine, one word for four characters.
pub mod Words
use pure_usb.Prelude.{ℕ, ◌+◌, ◌*◌, ◌^◌, List, [], ◌∷◌, ◌++◌, some}
use pure_usb.Console.{Port, c_string}

-- `tube_word` as the little-endian processor stores it, its characters from the last byte down
unfoldable pub tube_word : ℕ → ℕ → ℕ → ℕ → ℕ
tube_word a b c d = a * 2 ^ 24 + b * 2 ^ 16 + c * 2 ^ 8 + d

-- The words that `serial_puts` writes for a text up to its terminating 0: the last one is filled up
-- with 13, and is written even if no character is left.
pub tube_words : List ℕ → List ℕ
unfolding tube_word
tube_words [] = tube_word 13 13 13 13 ∷ []
tube_words (a ∷ []) = tube_word a 13 13 13 ∷ []
tube_words (a ∷ b ∷ []) = tube_word a b 13 13 ∷ []
tube_words (a ∷ b ∷ c ∷ []) = tube_word a b c 13 ∷ []
tube_words (a ∷ b ∷ c ∷ d ∷ text) = tube_word a b c d ∷ tube_words text

-- the tube as the words written to it so far
abbrev pub Tube : Type 0
Tube = List ℕ

-- the text ends at its first 0
pub serial_puts : List ℕ → Tube → Tube
unfolding tube_words c_string
serial_puts text tube = tube ++ tube_words (c_string text)

pub serial_putc : ℕ → Tube → Tube
unfolding serial_puts
serial_putc c tube = serial_puts (c ∷ 0 ∷ []) tube

-- no character ever comes in
pub serial_tstc : Tube → ℕ × Tube
serial_tstc tube = (0, tube)

-- nothing to set up
pub serial_init : Tube → Tube
serial_init tube = tube

-- the word that stops the simulated machine
pub hang : Tube → Tube
hang tube = tube ++ 0x20202004 ∷ []

-- "serial_getc: not implemented. stopping the program.", and a line feed
abbrev not_implemented : List ℕ
not_implemented =
    115 ∷ 101 ∷ 114 ∷ 105 ∷ 97 ∷ 108 ∷ 95 ∷ 103 ∷ 101 ∷ 116 ∷ 99 ∷ 58 ∷ 32 ∷ 110 ∷ 111 ∷ 116 ∷ 32
    ∷ 105 ∷ 109 ∷ 112 ∷ 108 ∷ 101 ∷ 109 ∷ 101 ∷ 110 ∷ 116 ∷ 101 ∷ 100 ∷ 46 ∷ 32 ∷ 115 ∷ 116 ∷ 111
    ∷ 112 ∷ 112 ∷ 105 ∷ 110 ∷ 103 ∷ 32 ∷ 116 ∷ 104 ∷ 101 ∷ 32 ∷ 112 ∷ 114 ∷ 111 ∷ 103 ∷ 114 ∷ 97
    ∷ 109 ∷ 46 ∷ 10 ∷ []

-- There is no input: the machine is told so and to stop, and 0 is returned if it goes on.
pub serial_getc : Tube → ℕ × Tube
unfolding hang serial_puts
serial_getc tube = (0, hang (serial_puts not_implemented tube))

-- the port that the model's build links
abbrev pub tube_port : Port
tube_port = record {
  State = Tube;
  serial_init = serial_init;
  serial_putc = λ c tube. some (serial_putc c tube);
  serial_puts = λ text tube. some (serial_puts text tube);
  serial_getc = λ tube. some (serial_getc tube);
  serial_tstc = serial_tstc;
}
