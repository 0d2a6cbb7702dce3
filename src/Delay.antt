-- ===== src/Delay.antt =====
-- time_board.c: the delays of the board, as the rounds of their inner loop. Nothing else happens in
-- them; Host and Controller take what passes meanwhile as a parameter.
use pure_usb.Prelude.{ℕ, zero, suc, ◌+◌, ◌*◌, ◌≡◌, arith}

abbrev pub delay_msec : ℕ
delay_msec = 3000

abbrev pub delay_usec : ℕ
delay_usec = 3

-- `do { for (i = 0; i < rounds; i++); } while (left-- > 0)`
delay : ℕ → ℕ → ℕ
delay rounds zero = rounds
delay rounds (suc left) = rounds + delay rounds left

pub mdelay : ℕ → ℕ
unfolding delay
mdelay msec = delay delay_msec msec

pub udelay : ℕ → ℕ
unfolding delay
udelay usec = delay delay_usec usec

-- The loop runs once more than the time it is given.
delay-suc : (rounds left : ℕ) → delay rounds left ≡ left * rounds + rounds
unfolding delay
delay-suc rounds zero = omega arith
delay-suc rounds (suc left) = grind (arith, delay-suc rounds left)

mdelay-suc : (msec : ℕ) → mdelay msec ≡ msec * delay_msec + delay_msec
unfolding mdelay
mdelay-suc msec = delay-suc delay_msec msec

udelay-suc : (usec : ℕ) → udelay usec ≡ usec * delay_usec + delay_usec
unfolding udelay
udelay-suc usec = delay-suc delay_usec usec
