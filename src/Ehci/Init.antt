-- ===== src/Ehci/Init.antt =====
-- `ehci_init` and `ehci_uninit` of ehci-hcd.c, with ehci-fusb20.c.
pub mod Laws
use pure_usb.Prelude.{
  ℕ, ◌*◌, ◌==◌, ℤ, pos, minus_one, is_zero, not, Bool, true, false, if◌then◌else◌, bit_and, bit_or,
  shl, complement,
}
use pure_usb.Defs.{usb_speed_high}
use pure_usb.Ehci.{Controller, Ehci, E, return, ◌>>=◌, ◌>>◌, ehci_readl, ehci_writel, mdelay}
use pure_usb.Ehci.Handshake.{ehci_reset}
use pure_usb.Ehci.Regs.{
  cr_capbase, cr_hcsparams, or_asynclistaddr, or_usbcmd, or_configflag, hcs_n_ports, hcs_indicator,
  hcs_ppc, cmd_lreset, cmd_iaad, cmd_pse, cmd_ase, cmd_reset, cmd_run, flag_cf,
}
use pure_usb.Ehci.Schedule.{
  Qh, Statics, Memory, zeroed_qh, zeroed_qtd, qt_next_terminate, qh_link_type_qh,
}

-- the head of the reclaim list, which points to itself and whose overlay is halted
pub reclaim_head : Statics → Qh
reclaim_head s = record zeroed_qh {
  qh_link = bit_or s.qh_list_at qh_link_type_qh;
  qh_endpt1 = bit_or (shl 1 15) (shl usb_speed_high 12);
  qh_curtd = qt_next_terminate;
  qh_overlay = record zeroed_qtd {
    qt_next = qt_next_terminate;
    qt_altnext = qt_next_terminate;
    qt_token = 0x40;
  };
}

-- `wHubCharacteristics`, with the port indicators and the port power control that the controller has
pub characteristics : ℕ → ℕ → ℕ
characteristics params old =
    let indicated = if hcs_indicator params then bit_or old 0x80 else old in
    if hcs_ppc params then bit_or indicated 0x01 else indicated

-- the command word that starts the controller
pub run_command : ℕ → ℕ
run_command cmd =
    bit_or
      (bit_and cmd (
        complement
          (bit_or (bit_or (bit_or (bit_or cmd_lreset cmd_iaad) cmd_pse) cmd_ase) cmd_reset)))
      cmd_run

module _ (c : Controller) (s : Statics) where
  open c use {State}

  -- The registers' addresses are constants of the model, and nothing else is set.
  pub ehci_specific_init : E State ℤ
  ehci_specific_init = return (pos 0)

  pub ehci_specific_stop : E State (Unit {0})
  ehci_specific_stop = return tt

  abbrev set_head : E State (Unit {0})
  set_head e = (tt, record e { memory = record (e.memory) { qh_list = reclaim_head s } })

  abbrev set_hub : ℕ → E State (Unit {0})
  set_hub params e = (
    tt,
    record e {
      b_nbr_ports = hcs_n_ports params;
      w_hub_characteristics = characteristics params e.w_hub_characteristics;
    },
  )

  -- from the reclaim list to the end, after a reset that succeeded
  pub start_controller : E State ℤ
  unfolding reclaim_head characteristics run_command ehci_readl ehci_writel mdelay
  start_controller = do
    set_head
    ehci_writel c or_asynclistaddr (s.qh_list_at)
    params ← ehci_readl c cr_hcsparams
    set_hub params
    cmd ← ehci_readl c or_usbcmd
    ehci_writel c or_usbcmd (run_command cmd)
    flag ← ehci_readl c or_configflag
    ehci_writel c or_configflag (bit_or flag flag_cf)
    _ ← ehci_readl c or_usbcmd
    mdelay c 5
    _ ← ehci_readl c cr_capbase
    λ e. (pos 0, record e { rootdev = 0 })

  pub ehci_init : E State ℤ
  unfolding ehci_specific_init start_controller
  ehci_init = do
    λ e. (tt, record e { g_ehci_counter = 0 })
    ready ← ehci_specific_init
    if not (is_zero ready) then return minus_one else (do
      reset ← ehci_reset c
      if not (is_zero reset) then return minus_one else start_controller)

  pub ehci_uninit : E State (Unit {0})
  unfolding ehci_specific_stop
  ehci_uninit = ehci_specific_stop
