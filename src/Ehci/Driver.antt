-- ===== src/Ehci/Driver.antt =====
-- The functions of ehci-hcd.c that usb.h declares: the three submit functions, which make the driver
-- a host controller for usb.c.
pub mod Transfers
pub mod Ports
pub mod Conforms
pub mod Returns
pub mod Hub
use pure_usb.Prelude.{
  ℕ, ◌==◌, ℤ, minus_one, not, List, Option, none, some, get_elem?, if◌then◌else◌,
}
use pure_usb.Defs.{pipe_bulk, pipe_control, usb_speed_high}
use pure_usb.Device.{Device, DevRequest, Buffer}
use pure_usb.Host.{Host, Completion}
use pure_usb.Pipe.{usb_pipetype, usb_pipedevice}
use pure_usb.Ehci.{Controller, Ehci, E, return}
use pure_usb.Ehci.RootHub.{ehci_submit_root}
use pure_usb.Ehci.Schedule.{Statics}
use pure_usb.Ehci.Async.{ehci_submit_async}

-- What a submit function gives: the return code, the device and the buffer's bytes. `none` is undefined
-- behaviour.
abbrev pub Submitted : Type 0
Submitted = Option (ℤ × Device × List ℕ)

module _ (c : Controller) (s : Statics) where
  open c use {State}

  pub submit_bulk_msg : List Device → Device → ℕ → Buffer → ℕ → E State Submitted
  submit_bulk_msg devs dev pipe buffer length' =
      if not (usb_pipetype pipe == pipe_bulk)
      then return (some (minus_one, dev, buffer.bytes))
      else ehci_submit_async c s devs dev pipe buffer length' none

  -- the device as the root hub is given it
  abbrev pub high_speed : ℕ → Device → Device
  high_speed rootdev dev = if rootdev == 0 then record dev { speed = usb_speed_high } else dev

  unfoldable pub submit_control_msg :
      List Device → Device → ℕ → Buffer → ℕ → DevRequest → E State Submitted
  submit_control_msg devs dev pipe buffer length' setup e =
      if not (usb_pipetype pipe == pipe_control)
      then (some (minus_one, dev, buffer.bytes), e)
      else if usb_pipedevice pipe == e.rootdev
      then ehci_submit_root c (high_speed e.rootdev dev) buffer length' setup e
      else ehci_submit_async c s devs dev pipe buffer length' (some setup) e

  pub submit_int_msg : List Device → Device → ℕ → Buffer → ℕ → ℕ → E State Submitted
  submit_int_msg devs dev pipe buffer length' interval =
      return (some (minus_one, dev, buffer.bytes))

  -- A device is found by its index. No device there is an invalid pointer.
  abbrev pub completion : Submitted × Ehci State → Option (Completion (Ehci State))
  completion (none, e) = none
  completion (some (ret, dev, bytes), e) =
      some (record { ret = ret; dev = dev; bytes = bytes; host = e })

  abbrev pub on_device :
      List Device → ℕ → (Device → E State Submitted) → Ehci State → Option (Completion (Ehci State))
  on_device devs dev submit e = elim (get_elem? devs dev) [
    | none ↦ none
    | some d ↦ completion (submit d e)
  ]

  abbrev pub ehci_host : Host
  ehci_host = record {
    State = Ehci State;
    submit_control_msg = λ devs dev pipe buffer length' setup.
        on_device devs dev (λ d. submit_control_msg devs d pipe buffer length' setup);
    submit_bulk_msg = λ devs dev pipe buffer length'.
        on_device devs dev (λ d. submit_bulk_msg devs d pipe buffer length');
    submit_int_msg = λ devs dev pipe buffer length' interval.
        on_device devs dev (λ d. submit_int_msg devs d pipe buffer length' interval);
    mdelay = λ ms e. record e { hw = c.mdelay ms e.hw };
    udelay = λ us e. record e { hw = c.udelay us e.hw };
  }
