-- ===== src/Ehci/Async/Served.antt =====
-- A transfer over a controller that carries it out.
use pure_usb.Prelude.{
  ℕ, ◌≡◌, ◌==◌, true, false, ℤ, pos, is_negative, List, Option, some, bit_and, has_bits, arith,
}
use pure_usb.Defs.{usb_st_not_proc}
use pure_usb.Device.{Device, DevRequest, Buffer}
use pure_usb.Ehci.{Controller, Ehci, ehci_readl, ehci_writel}
use pure_usb.Ehci.Regs.{or_usbsts}
use pure_usb.Ehci.Schedule.{Memory, Statics}
use pure_usb.Ehci.Schedule.Build.Stages.{BufferFits}
use pure_usb.Ehci.Async.{
  parent_devnum, token_status, retire, look, await_td, set_schedule, finish, switched_on, link_list,
  run_schedule, ehci_submit_async,
}
use pure_usb.Ehci.Async.Run.{last_token}
use pure_usb.Ehci.Async.Submit.{Returns, ehci_submit_async-Returns}

-- The transfer that leaves this token in the overlay was carried out: the token is not active, and
-- tells status, toggle and length.
pub data Retired (token : ℕ) (dev : Device) (pipe length' : ℕ) : ℤ × Device → Type 0 where
  retired :
      has_bits token 0x80 ≡ false
      → Retired token dev pipe length' (pos 0, retire token pipe length' dev)

-- no status of a token is the mark of a transfer that is not processed
token_status-processed : (token : ℕ) → (token_status token == usb_st_not_proc) ≡ false
unfolding token_status
token_status-processed token = ground arith

retire-processed :
    (token pipe length' : ℕ) (dev : Device)
    → has_bits token 0x80 ≡ false
    → ((retire token pipe length' dev).status == usb_st_not_proc) ≡ false
unfolding retire
retire-processed token pipe length' dev over = ground (arith, over, token_status-processed token)

module _ (c : Controller) (s : Statics) (Done : c.State → Type 0) where
  open c use {State}

  -- The controller confirms that its schedule is switched on and off, and is done with the transfer when
  -- it is off. From then on the overlay has no active token.
  pub record Serves : Type 0 where
    pub switches_on : (e : Ehci State) → is_negative (set_schedule c s true e).0 ≡ false
    pub switches_off :
        (e : Ehci State)
        → (is_negative (set_schedule c s false e).0 ≡ false) × Done (set_schedule c s false e).1.hw
    pub completes :
        (m : Memory) (hw : State)
        → Done hw
        → has_bits (c.dma m hw).0.qh.qh_overlay.qt_token 0x80 ≡ false

  module _ (serves : Serves) (dev : Device) (pipe length' : ℕ) where
    finish-Retired :
        (e : Ehci State)
        → Done e.hw
        → (r : ℤ × Device) × ((finish c s dev pipe length' e).0 ≡ some r)
          × Retired (last_token (finish c s dev pipe length' e).1) dev pipe length' r
    unfolding finish look
    finish-Retired e done =
        let m : Memory = (link_list c s (s.qh_list_at) e).1.memory in
        let token = (c.dma m e.hw).0.qh.qh_overlay.qt_token in
        let over = serves.completes m e.hw done in
        let processed = retire-processed token pipe length' dev over in
        ((pos 0, retire token pipe length' dev), rw processed, retired over)

    switched_on-Retired :
        (td : ℕ) (e : Ehci State)
        → (r : ℤ × Device) × ((switched_on c s dev pipe length' td e).0 ≡ some r)
          × Retired (last_token (switched_on c s dev pipe length' td e).1) dev pipe length' r
    unfolding switched_on
    switched_on-Retired td e =
        let waited = await_td c s 1000 td (set_schedule c s true e).1 in
        let (stopped, done) = serves.switches_off waited.1 in
        rw (serves.switches_on e, stopped) (finish-Retired (set_schedule c s false waited.1).1 done)

    run_schedule-Retired :
        (td : ℕ) (e : Ehci State)
        → (r : ℤ × Device) × ((run_schedule c s dev pipe length' td e).0 ≡ some r)
          × Retired (last_token (run_schedule c s dev pipe length' td e).1) dev pipe length' r
    unfolding run_schedule
    run_schedule-Retired td e =
        let linked = (link_list c s (s.qh_at) e).1 in
        let usbsts = ehci_readl c or_usbsts linked in
        let ready = (ehci_writel c or_usbsts (bit_and usbsts.0 0x3f) usbsts.1).1 in
        switched_on-Retired td ready

  -- Over a controller that confirms the switching of its schedule and is done with the transfer when it
  -- is off, `ehci_submit_async` returns 0, and the device with the status, the toggle and the length of
  -- the token that is left in the overlay, if the device has a known parent and the bytes fit the descriptors.
  pub ehci_submit_async-Retired :
      Serves
      → (devs : List Device) (dev : Device) (pipe parent : ℕ) (buffer : Buffer) (len : ℕ)
        (req : Option DevRequest) (e : Ehci State)
      → parent_devnum devs dev ≡ some parent
      → BufferFits s (buffer.addr) len
      → Returns
          (λ token. Retired token dev pipe len)
          (ehci_submit_async c s devs dev pipe buffer len req e)
  ehci_submit_async-Retired serves devs dev pipe parent buffer len req e known fits =
      ehci_submit_async-Returns c s (λ token. Retired token dev pipe len) dev pipe buffer len req
        (λ td e' linked. run_schedule-Retired serves dev pipe len td e') fits devs parent e known
