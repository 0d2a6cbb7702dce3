-- ===== src/Ohci.antt =====
-- ohci-test.c: register accesses that were recorded on another system, played back. A value that
-- is read and is not the recorded one ends the script. What follows the `return` of ohci_check is never
-- run, and most of ehci_check is a comment.
pub mod Kept
use pure_usb.Prelude.{ℕ, zero, suc, ◌+◌, ◌==◌, Bool, true, false, List, [], ◌∷◌}
use pure_usb.Ehci.{Controller, Ehci, E, return, ◌>>=◌, ◌>>◌, readl_plain, writel_plain, ohci_readl}
use pure_usb.Ehci.Regs.{config_fusb20_base, ohci_regs_base}

-- One access: a value that is read and compared, one that is written, or one that is awaited.
pub data Step : Type 0 where
  check : ℕ → ℕ → Step
  put : ℕ → ℕ → Step
  await : ℕ → ℕ → Step

-- the script was played to its end, or given up at a comparison, or is still waiting
pub data Played : Type 0 where
  finished : Played
  gave_up : Played
  waiting : Played

abbrev pub ohci_script : List Step
ohci_script =
    check 0x04 0x0
    ∷ put 0x14 0x80000000
    ∷ check 0x04 0x0
    ∷ check 0x48 0x2000902
    ∷ check 0x34 0x2edf
    ∷ put 0x04 0x0
    ∷ check 0x04 0x0
    ∷ put 0x08 0x1
    ∷ check 0x08 0x0
    ∷ put 0x20 0x0
    ∷ put 0x28 0x0
    ∷ put 0x18 0x478f8000
    ∷ check 0x34 0x2edf
    ∷ put 0x34 0xa7782edf
    ∷ put 0x40 0x2a2f
    ∷ check 0x34 0xa7782edf
    ∷ check 0x40 0x2a2f
    ∷ put 0x04 0x83
    ∷ put 0x50 0x8000
    ∷ put 0x0c 0xffffffff
    ∷ put 0x10 0x8000005a
    ∷ check 0x48 0x2000902
    ∷ put 0x48 0x2000202
    ∷ put 0x50 0x10000
    ∷ put 0x4c 0x0
    ∷ check 0x04 0x83
    ∷ []

abbrev pub ehci_script : List Step
ehci_script =
    check (config_fusb20_base + 0x04) 0x1212
    ∷ check (config_fusb20_base + 0x08) 0x16
    ∷ check (config_fusb20_base + 0x04) 0x1212
    ∷ check (config_fusb20_base + 0x14) 0x1000
    ∷ put (config_fusb20_base + 0x18) 0x0
    ∷ check (config_fusb20_base + 0x08) 0x16
    ∷ check (config_fusb20_base + 0x10) 0x80b00
    ∷ put (config_fusb20_base + 0x10) 0x80b02
    ∷ check (config_fusb20_base + 0x10) 0x80b00
    ∷ check (config_fusb20_base + 0x58) 0x2000
    ∷ put (config_fusb20_base + 0x58) 0x2000
    ∷ check (config_fusb20_base + 0x10) 0x80b00
    ∷ check (config_fusb20_base + 0x54) 0x2000
    ∷ put (config_fusb20_base + 0x54) 0x2000
    ∷ check (config_fusb20_base + 0x10) 0x80b00
    ∷ check (config_fusb20_base + 0x10) 0x80b00
    ∷ check (config_fusb20_base + 0x10) 0x80b00
    ∷ put (config_fusb20_base + 0x10) 0x80b02
    ∷ check (config_fusb20_base + 0x10) 0x80b00
    ∷ put (config_fusb20_base + 0x24) 0x47989000
    ∷ put (config_fusb20_base + 0x28) 0x47987000
    ∷ check (config_fusb20_base + 0x08) 0x16
    ∷ put (config_fusb20_base + 0x10) 0x10009
    ∷ put (config_fusb20_base + 0x50) 0x1
    ∷ check (config_fusb20_base + 0x10) 0x10009
    ∷ check (config_fusb20_base + 0x00) 0x1000010
    ∷ check (config_fusb20_base + 0x54) 0x0
    ∷ put (config_fusb20_base + 0x54) 0x1000
    ∷ check (config_fusb20_base + 0x10) 0x10009
    ∷ await (config_fusb20_base + 0x14) 0xc
    ∷ put (config_fusb20_base + 0x14) 0x4
    ∷ check (config_fusb20_base + 0x10) 0x10009
    ∷ check (config_fusb20_base + 0x58) 0x0
    ∷ check (config_fusb20_base + 0x54) 0x1803
    ∷ []

module _ (c : Controller) where
  open c use {State}

  pub ohci_writel : ℕ → ℕ → E State (Unit {0})
  unfolding writel_plain
  ohci_writel reg val = writel_plain c (ohci_regs_base + reg) val

  -- `do { ret = read(reg); } while (ret != val)`, with the reads left
  pub await_value : (ℕ → E State ℕ) → ℕ → ℕ → ℕ → E State Bool
  await_value read reg val zero = return false
  await_value read reg val (suc left) = do
    ret ← read reg
    elim (ret == val) [ true ↦ return true | false ↦ await_value read reg val left ]

  pub play : (ℕ → E State ℕ) → (ℕ → ℕ → E State (Unit {0})) → ℕ → List Step → E State Played
  unfolding await_value
  play read write fuel [] = return finished
  play read write fuel (check reg val ∷ rest) = do
    ret ← read reg
    elim (ret == val) [ true ↦ play read write fuel rest | false ↦ return gave_up ]
  play read write fuel (put reg val ∷ rest) = write reg val >> play read write fuel rest
  play read write fuel (await reg val ∷ rest) = do
    seen ← await_value read reg val fuel
    elim seen [ true ↦ play read write fuel rest | false ↦ return waiting ]

  -- Nothing is returned.
  pub ohci_check : E State (Unit {0})
  unfolding play ohci_readl ohci_writel
  ohci_check = do _ ← play (ohci_readl c) ohci_writel 0 ohci_script; return tt

  -- with the reads that the wait may take
  pub ehci_check : ℕ → E State Played
  unfolding play readl_plain writel_plain
  ehci_check fuel = play (readl_plain c) (writel_plain c) fuel ehci_script
