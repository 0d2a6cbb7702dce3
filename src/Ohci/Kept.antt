-- ===== src/Ohci/Kept.antt =====
-- The scripts leave the driver's variables alone.
use pure_usb.Prelude.{ℕ, zero, suc, ◌≡◌, refl, ◌∙◌, List, [], ◌∷◌, arith}
use pure_usb.Ehci.{Controller, Ehci, E, ohci_readl}
use pure_usb.Ehci.Handshake.Kept.{variables}
use pure_usb.Ohci.{Step, check, put, await, ohci_script, play, await_value, ohci_writel, ohci_check}

module _ (c : Controller) where
  open c use {State}

  -- an access that leaves the variables alone
  abbrev KeepsVariables : {A : Type 0} → E State A → Type 0
  KeepsVariables m = (e : Ehci State) → variables (m e).1 ≡ variables e

  module _ (read : ℕ → E State ℕ) (write : ℕ → ℕ → E State (Unit {0}))
      (r : (reg : ℕ) → KeepsVariables (read reg))
      (w : (reg val : ℕ) → KeepsVariables (write reg val)) where
    await_value-variables : (reg val left : ℕ) → KeepsVariables (await_value c read reg val left)
    unfolding await_value
    await_value-variables reg val zero e = refl
    await_value-variables reg val (suc left) e =
        ground (arith, r reg e, await_value-variables reg val left (read reg e).1)

    play-variables :
        (fuel : ℕ) (script : List Step) → KeepsVariables (play c read write fuel script)
    unfolding play
    play-variables fuel [] e = refl
    play-variables fuel (check reg val ∷ rest) e =
        ground (arith, r reg e, play-variables fuel rest (read reg e).1)
    play-variables fuel (put reg val ∷ rest) e =
        play-variables fuel rest (write reg val e).1 ∙ w reg val e
    play-variables fuel (await reg val ∷ rest) e =
        let seen = await_value c read reg val fuel e in
        ground (arith, await_value-variables reg val fuel e, play-variables fuel rest seen.1)

  pub ohci_check-variables : (e : Ehci State) → variables (ohci_check c e).1 ≡ variables e
  unfolding ohci_check ohci_writel
  ohci_check-variables e =
      play-variables (ohci_readl c) (ohci_writel c) (λ reg e'. refl) (λ reg val e'. refl) 0
        ohci_script e
