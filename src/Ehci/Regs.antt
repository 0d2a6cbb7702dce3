-- ===== src/Ehci/Regs.antt =====
-- The registers of ehci.h: addresses in the controller's window, and the bits that the driver uses.
use pure_usb.Prelude.{ℕ, ◌+◌, ◌*◌, bit_and, has_bits, ◌==◌, Bool}

abbrev pub config_fusb20_base : ℕ
config_fusb20_base = 0x10040000

-- `hccr`, the capability registers, and `hcor`, the operational ones
abbrev pub cr_capbase : ℕ
cr_capbase = config_fusb20_base

abbrev pub cr_hcsparams : ℕ
cr_hcsparams = config_fusb20_base + 4

abbrev pub or_usbcmd : ℕ
or_usbcmd = config_fusb20_base + 0x10

abbrev pub or_usbsts : ℕ
or_usbsts = config_fusb20_base + 0x14

abbrev pub or_asynclistaddr : ℕ
or_asynclistaddr = config_fusb20_base + 0x28

abbrev pub or_configflag : ℕ
or_configflag = config_fusb20_base + 0x50

-- `hcor->or_portsc[index - 1]`, a pointer into the array of the two port registers
abbrev pub or_portsc : ℕ → ℕ
or_portsc index = config_fusb20_base + 0x50 + 4 * index

abbrev pub max_root_ports : ℕ
max_root_ports = 2

abbrev pub ohci_regs_base : ℕ
ohci_regs_base = config_fusb20_base + 0x8000

abbrev pub hcs_ppc : ℕ → Bool
hcs_ppc p = has_bits p 0x10

abbrev pub hcs_indicator : ℕ → Bool
hcs_indicator p = has_bits p 0x10000

abbrev pub hcs_n_ports : ℕ → ℕ
hcs_n_ports p = bit_and p 0xf

abbrev pub cmd_ase : ℕ
cmd_ase = 0x20

abbrev pub cmd_lreset : ℕ
cmd_lreset = 0x80

abbrev pub cmd_iaad : ℕ
cmd_iaad = 0x20

abbrev pub cmd_pse : ℕ
cmd_pse = 0x10

abbrev pub cmd_reset : ℕ
cmd_reset = 2

abbrev pub cmd_run : ℕ
cmd_run = 1

abbrev pub std_ass : ℕ
std_ass = 0x8000

abbrev pub sts_halt : ℕ
sts_halt = 0x1000

abbrev pub sts_fatal : ℕ
sts_fatal = 0x10

abbrev pub flag_cf : ℕ
flag_cf = 1

abbrev pub ehci_ps_po : ℕ
ehci_ps_po = 0x2000

abbrev pub ehci_ps_pp : ℕ
ehci_ps_pp = 0x1000

abbrev pub ehci_ps_ls : ℕ
ehci_ps_ls = 0xc00

abbrev pub ehci_ps_pr : ℕ
ehci_ps_pr = 0x100

abbrev pub ehci_ps_susp : ℕ
ehci_ps_susp = 0x80

abbrev pub ehci_ps_occ : ℕ
ehci_ps_occ = 0x20

abbrev pub ehci_ps_oca : ℕ
ehci_ps_oca = 0x10

abbrev pub ehci_ps_pec : ℕ
ehci_ps_pec = 8

abbrev pub ehci_ps_pe : ℕ
ehci_ps_pe = 4

abbrev pub ehci_ps_csc : ℕ
ehci_ps_csc = 2

abbrev pub ehci_ps_cs : ℕ
ehci_ps_cs = 1

-- `EHCI_PS_OCC | EHCI_PS_PEC | EHCI_PS_CSC`, the bits that a write of 1 clears
abbrev pub ehci_ps_clear : ℕ
ehci_ps_clear = 0x2a

abbrev pub ehci_ps_is_lowspeed : ℕ → Bool
ehci_ps_is_lowspeed x = bit_and x ehci_ps_ls == 0x400
