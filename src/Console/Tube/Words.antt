-- ===== src/Console/Tube/Words.antt =====
-- The text is in the tube's words.
use pure_usb.Prelude.{
  ◌==◌, Bool-cases, inl, inr, ℕ, ◌-◌, ◌/◌, ◌%◌, ◌^◌, ◌<◌, ◌≡◌, refl, ◌∙◌, List, [], ◌∷◌, ◌++◌,
  length, replicate, arith, ap,
}
use pure_usb.Console.{c_string}
use pure_usb.Console.Tube.{tube_word, tube_words, serial_puts}

-- the characters of a word, in the order in which they are shown
abbrev pub shown : ℕ → List ℕ
shown w = w / 2 ^ 24 ∷ w / 2 ^ 16 % 256 ∷ w / 2 ^ 8 % 256 ∷ w % 256 ∷ []

pub shown_all : List ℕ → List ℕ
shown_all [] = []
shown_all (w ∷ ws) = shown w ++ shown_all ws

abbrev pub AreBytes : List ℕ → Type 0
AreBytes [] = Unit {0}
AreBytes (c ∷ text) = (c < 256) × AreBytes text

shown-tube_word :
    (a b c d : ℕ)
    → a < 256
    → b < 256
    → c < 256
    → d < 256
    → shown (tube_word a b c d) ≡ a ∷ b ∷ c ∷ d ∷ []
unfolding tube_word
shown-tube_word a b c d p q r s = ground arith

tube_words-shown :
    (text : List ℕ)
    → AreBytes text
    → shown_all (tube_words text) ≡ text ++ replicate (4 - length text % 4) 13
unfolding tube_words shown_all
tube_words-shown [] h = ground (arith, shown-tube_word 13 13 13 13)
tube_words-shown (a ∷ []) h = ground (arith, shown-tube_word a 13 13 13)
tube_words-shown (a ∷ b ∷ []) h = ground (arith, shown-tube_word a b 13 13)
tube_words-shown (a ∷ b ∷ c ∷ []) h = ground (arith, shown-tube_word a b c 13)
tube_words-shown (a ∷ b ∷ c ∷ d ∷ text) h =
    ground (arith, shown-tube_word a b c d, tube_words-shown text)

shown_all-append : (xs ys : List ℕ) → shown_all (xs ++ ys) ≡ shown_all xs ++ shown_all ys
unfolding shown_all
shown_all-append [] ys = refl
shown_all-append (x ∷ xs) ys = ap (λ (l : List ℕ). shown x ++ l) (shown_all-append xs ys)

-- the characters up to the first 0 are bytes, if all are
c_string-AreBytes : (text : List ℕ) → AreBytes text → AreBytes (c_string text)
unfolding c_string
c_string-AreBytes [] h = tt
c_string-AreBytes (c ∷ text) h = elim (Bool-cases (c == 0)) [
  | inl last ↦ rw last tt
  | inr more ↦ rw more (h.0, c_string-AreBytes text h.1)
]

-- A text of bytes is shown up to its first 0, after what was shown before, by the words that
-- `serial_puts` of the tube writes, followed by one to four carriage returns that fill up the last word.
pub serial_puts-shown :
    (text tube : List ℕ)
    → AreBytes text
    → shown_all (serial_puts text tube)
      ≡ shown_all tube ++ (c_string text ++ replicate (4 - length (c_string text) % 4) 13)
unfolding serial_puts
serial_puts-shown text tube h =
    shown_all-append tube (tube_words (c_string text))
    ∙ ap (λ (l : List ℕ). shown_all tube ++ l)
        (tube_words-shown (c_string text) (c_string-AreBytes text h))
