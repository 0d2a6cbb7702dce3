-- ===== src/Tests/Transfer.antt =====
-- Controllers that carry transfers out.
use pure_usb.Prelude.{
  ℕ, ◌≡◌, refl, ℤ, pos, is_negative, true, false, List, [], ◌∷◌, Option, none, some, arith, ◌==◌,
  ◌&&◌, ◌/◌, ◌^◌, not, has_bits, bit_and, if◌then◌else◌, set,
}
use pure_usb.Device.{Device}
use pure_usb.Pipe.{
  usb_pipein, usb_pipeout, usb_pipeendpoint, usb_gettoggle, usb_settoggle, snd_pipe,
}
use pure_usb.Ehci.{Controller, Ehci, ehci_readl, ehci_writel, udelay}
use pure_usb.Ehci.Schedule.{qt_next_terminate, ehci_alloc}
use pure_usb.Ehci.Async.{
  parent_devnum, ehci_submit_async, retire, submit_behind, prepare, run_schedule, switched_on,
  set_schedule, await_td, look, finish,
}
use pure_usb.Ehci.Async.Served.{Serves, Retired, ehci_submit_async-Retired}
use pure_usb.Ehci.Async.Emptied.{KeepsHead, IsEmptied, ehci_submit_async-IsEmptied}
use pure_usb.Ehci.Async.Toggles.{gettoggle-retire}
use pure_usb.Ehci.Regs.{or_usbsts, or_usbcmd, cmd_ase, std_ass}
use pure_usb.Ehci.Queue.{ehci_td_buffer}
use pure_usb.Ehci.Handshake.{handshake, poll}
use pure_usb.Ehci.Schedule.Build.{build_tds, fill_qh}
use pure_usb.Ehci.Async.Submit.{Returns}
use pure_usb.Tests.Ehci.{idle}
use pure_usb.Tests.Async.{placed, hub, stick, block, to_stick, hub_above, block-BufferFits}

-- a token without an error, from toggle 1, with nothing left
abbrev clean_token : ℕ
clean_token = 0x80008d00

gettoggle-retire_example : usb_gettoggle (retire clean_token to_stick 4 stick) 1 1 ≡ (
    if (not (has_bits clean_token 0x80) && (bit_and clean_token 0xfc == 0))
      && ((1 == usb_pipeendpoint to_stick) && (1 == usb_pipeout to_stick))
    then clean_token / 2 ^ 31
    else usb_gettoggle stick 1 1)
gettoggle-retire_example =
    gettoggle-retire clean_token to_stick 4 stick 1 1 (omega arith) refl (omega arith)

-- A controller that carries out a transfer of one descriptor while the schedule is on: the state is the
-- last command.
abbrev carrying_out : Controller
carrying_out = record {
  State = ℕ;
  read = λ reg cmd.
      ((if reg == or_usbsts then (if has_bits cmd cmd_ase then std_ass else 0) else cmd), cmd);
  write = λ reg val cmd. if reg == or_usbcmd then val else cmd;
  mdelay = λ ms cmd. cmd;
  udelay = λ us cmd. cmd;
  dma = λ m cmd. (
    (if has_bits cmd cmd_ase
        then record m {
          td0 = record (m.td0) { qt_token = clean_token };
          qh = record (m.qh) {
            qh_overlay = record (m.qh.qh_overlay) {
              qt_next = qt_next_terminate;
              qt_token = clean_token;
            };
          };
        }
        else m),
    cmd,
  );
}

abbrev moved : Option (ℤ × Device × List ℕ)
moved = some (
  pos 0,
  record stick { status = 0; act_len = pos 4; toggle = set stick.toggle 1 2 },
  1 ∷ 2 ∷ 3 ∷ 4 ∷ [],
)

four_bytes_moved :
    (ehci_submit_async carrying_out placed (hub ∷ stick ∷ []) stick to_stick block 4 none idle).0
    ≡ moved
unfolding ehci_submit_async parent_devnum submit_behind prepare build_tds run_schedule switched_on
    set_schedule handshake poll await_td look finish retire ehci_alloc fill_qh ehci_readl
    ehci_writel udelay ehci_td_buffer usb_pipein usb_pipeout usb_pipeendpoint usb_gettoggle
    usb_settoggle snd_pipe
four_bytes_moved = refl

-- A controller that is done at once: its command register reads as 0, and the state is what its status
-- register shows.
abbrev serving : Controller
serving = record {
  State = ℕ;
  read = λ reg status. ((if reg == or_usbsts then status else 0), status);
  write = λ reg val status.
      if reg == or_usbcmd then (if has_bits val cmd_ase then std_ass else 0) else status;
  mdelay = λ ms status. status;
  udelay = λ us status. status;
  dma = λ m status. (
    record m {
      qh = record (m.qh) { qh_overlay = record (m.qh.qh_overlay) { qt_token = clean_token } };
    },
    status,
  );
}

serving_on : (e : Ehci ℕ) → is_negative (set_schedule serving placed true e).0 ≡ false
unfolding set_schedule handshake poll ehci_readl ehci_writel
serving_on e = refl

serving_off : (e : Ehci ℕ) → is_negative (set_schedule serving placed false e).0 ≡ false
unfolding set_schedule handshake poll ehci_readl ehci_writel
serving_off e = refl

serving-Serves : Serves serving placed (λ status. Unit {0})
serving-Serves = record {
  switches_on = serving_on;
  switches_off = λ e. (serving_off e, tt);
  completes = λ m hw done. refl;
}

ehci_submit_async-Retired_example :
    Returns
      (λ token. Retired token stick to_stick 4)
      (ehci_submit_async serving placed (hub ∷ stick ∷ []) stick to_stick block 4 none idle)
ehci_submit_async-Retired_example =
    ehci_submit_async-Retired serving placed (λ status. Unit {0}) serving-Serves (hub ∷ stick ∷ [])
      stick to_stick 1 block 4 none idle hub_above block-BufferFits

serving-head : KeepsHead serving placed
serving-head m status = refl

sent :
    Returns
      (λ token. Retired token stick to_stick 4)
      (ehci_submit_async serving placed (hub ∷ stick ∷ []) stick to_stick block 4 none idle)
sent =
    ehci_submit_async-Retired serving placed (λ status. Unit {0}) serving-Serves (hub ∷ stick ∷ [])
      stick to_stick 1 block 4 none idle hub_above block-BufferFits

Retired-fine :
    (token : ℕ) (r : ℤ × Device) → Retired token stick to_stick 4 r → is_negative r.0 ≡ false
Retired-fine token r (Retired.retired over) = refl

ehci_submit_async-IsEmptied_example :
    IsEmptied serving placed
      (ehci_submit_async serving placed (hub ∷ stick ∷ []) stick to_stick block 4 none idle).1
ehci_submit_async-IsEmptied_example =
    ehci_submit_async-IsEmptied serving placed serving-head (hub ∷ stick ∷ []) stick to_stick block
      4 none idle (sent.0.0, sent.0.1, sent.1) sent.2 (Retired-fine _ sent.0 sent.3)
