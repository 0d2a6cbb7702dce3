-- ===== src/Console/Ctrlc.antt =====
-- The ctrl-c flags of console.c.
use pure_usb.Prelude.{ℕ, ◌≡◌, refl, Option, none, some, arith}
use pure_usb.Console.{Port, Console, C, ◌>>=◌, console_tstc, tstc, getc, ctrlc, disable_ctrlc}

module _ (p : Port) where
  open p use {State}

  -- the outcome with the flag that disables the check taken away
  abbrev pub seen : Option (ℕ × Console State) → Option (ℕ × ℕ × State)
  seen none = none
  seen (some (r, k)) = some (r, k.ctrlc_was_pressed, k.port)

  abbrev pub disabled_ctrlc : ℕ → C State ℕ
  disabled_ctrlc d = disable_ctrlc d >>= λ old. ctrlc p

  -- Disabling ctrl-c does not disable it: after a call of `disable_ctrlc`, `ctrlc` returns the same, and
  -- does the same to the port and to the record of the key, as without the call. A second call, with
  -- what the first has returned, undoes the first.
  pub ctrlc-disable :
      (d : ℕ) (k : Console State)
      → (seen (disabled_ctrlc d k) ≡ seen (ctrlc p k))
        × ((disable_ctrlc d >>= disable_ctrlc) k ≡ some (d, k))
  unfolding ctrlc tstc getc console_tstc disable_ctrlc
  ctrlc-disable d k = (ground arith, refl)
