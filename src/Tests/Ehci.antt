-- ===== src/Tests/Ehci.antt =====
-- A controller whose registers read as a counter, and the driver's functions run on it.
use pure_usb.Prelude.{
  ℕ, zero, suc, ◌+◌, ◌<◌, ◌/◌, ◌%◌, ◌≡◌, refl, ℤ, pos, minus_one, List, [], ◌∷◌, none, some,
  replicate, arith,
}
use pure_usb.Device.{Device, DevRequest, Buffer, zeroed_device}
use pure_usb.Defs.{usb_port_feat_c_over_current, usb_st_stalled}
use pure_usb.Ehci.{Controller, Ehci, ehci_readl, ehci_writel}
use pure_usb.Ehci.Schedule.{Memory, zeroed_qh, zeroed_qtd}
use pure_usb.Ehci.Regs.{or_portsc}
use pure_usb.Ehci.Record.{Recorded, access-Recorded}
use pure_usb.Ehci.Handshake.{handshake, verdict, poll}
use pure_usb.Ehci.Handshake.Laws.{after_polls, polled, handshake-decided}
use pure_usb.Ehci.Queue.{Qtd, ehci_td_buffer}
use pure_usb.Ehci.Queue.Pages.{fetched, ehci_td_buffer-fetched}
use pure_usb.Ehci.RootHub.{ehci_submit_root}
use pure_usb.Ehci.RootHub.Copy.{Replies, ehci_submit_root-Replies}
use pure_usb.Ehci.RootHub.Ports.{clear_over_current-stalls}

abbrev pub counting : Controller
counting = record {
  State = ℕ;
  read = λ reg s. (s, s + 1);
  write = λ reg val s. s;
  mdelay = λ ms s. s;
  udelay = λ us s. s;
  dma = λ m s. (m, s);
}

abbrev pub blank_memory : Memory
blank_memory = record {
  qh_list = zeroed_qh;
  qh = zeroed_qh;
  td0 = zeroed_qtd;
  td1 = zeroed_qtd;
  td2 = zeroed_qtd;
  ntds = 0;
  buffer = [];
  setup = none;
}

abbrev pub idle : Ehci ℕ
idle = record {
  rootdev = 0;
  g_ehci_counter = 0;
  g_rec = replicate 300 (record { reg = 0; dir = 0; val = 0 });
  portreset = 2;
  b_nbr_ports = 2;
  w_hub_characteristics = 0;
  memory = blank_memory;
  hw = 0;
}

abbrev blank_qtd : Qtd
blank_qtd = record {
  qt_next = 1;
  qt_altnext = 1;
  qt_token = 0;
  qt_buffer = replicate 5 0;
  qt_buffer_hi = replicate 5 0;
}

-- 2000 bytes from 0x1800 on cross one page boundary
two_pages : (ehci_td_buffer blank_qtd 0x1800 2000).0 ≡ pos 0
unfolding ehci_td_buffer
two_pages = refl

ehci_td_buffer-fetched_example :
    ((0x1800 % 4096 + 1999) / 4096 < 5)
    × (fetched (ehci_td_buffer blank_qtd 0x1800 2000).1 0x1800 1999 ≡ 0x1800 + 1999)
ehci_td_buffer-fetched_example =
    ehci_td_buffer-fetched blank_qtd 0x1800 2000 1999 (omega arith) (omega arith) refl two_pages
      (omega arith)

-- the words polled are 2, 5, 8, …: the second has the low bit
first_undecided : (j : ℕ) → j < 1 → verdict 1 1 (polled counting 0x14 1 1 j idle) ≡ none
unfolding verdict poll
first_undecided zero h = refl
first_undecided (suc j) h = absurd (omega arith)

second_decides : verdict 1 1 (polled counting 0x14 1 1 1 idle) ≡ some (pos 0)
unfolding verdict poll
second_decides = refl

handshake-decided_example :
    handshake counting 0x14 1 1 10 idle ≡ (pos 0, after_polls counting 0x14 1 1 2 idle)
handshake-decided_example =
    handshake-decided counting 0x14 1 1 10 1 (pos 0) idle (omega arith) first_undecided
      second_decides

succeeded : (handshake counting 0x14 1 1 10 idle).0 ≡ pos 0
unfolding handshake poll
succeeded = refl

empty-Recorded : Recorded [] idle
empty-Recorded = record {
  counted = refl;
  room = refl;
  held = λ k small known. absurd (omega arith);
}

access-Recorded_example :
    Recorded
      (record { reg = 0x14; dir = 0; val = (ehci_readl counting 0x14 idle).0 } ∷ [])
      (ehci_readl counting 0x14 idle).1
    × Recorded (record { reg = 0x14; dir = 1; val = 7 } ∷ []) (ehci_writel counting 0x14 7 idle).1
access-Recorded_example = access-Recorded counting [] idle 0x14 7 (omega arith) empty-Recorded

abbrev room : Buffer
room = record { addr = 0x1000; bytes = replicate 8 0 }

abbrev get_hub : DevRequest
get_hub = record { requesttype = 0xa0; request = 6; value = 0x2900; index = 0; length = 4 }

hub_head :
    (ehci_submit_root counting zeroed_device room 8 get_hub idle).0
    ≡ some (pos 0, record zeroed_device { act_len = pos 4 }, 8 ∷ 0x29 ∷ 2 ∷ 0 ∷ 0 ∷ 0 ∷ 0 ∷ 0 ∷ [])
unfolding ehci_submit_root pure_usb.Device.Bytes.overlay
hub_head = refl

ehci_submit_root-Replies_example :
    (r : ℤ × Device × List ℕ) × ((ehci_submit_root counting zeroed_device room 8 get_hub idle).0
      ≡ some r)
    × Replies room 8 4 r
ehci_submit_root-Replies_example =
    ehci_submit_root-Replies counting zeroed_device room 8 get_hub idle (omega arith)

clear_over_current-stalls_example :
    ehci_submit_root counting zeroed_device room 0
      (record {
        requesttype = 0x23;
        request = 1;
        value = usb_port_feat_c_over_current;
        index = 1;
        length = 0;
      })
      idle
    ≡ (
      some (
        minus_one,
        record zeroed_device { act_len = pos 0; status = usb_st_stalled },
        room.bytes,
      ),
      (ehci_readl counting (or_portsc 1) idle).1,
    )
clear_over_current-stalls_example =
    clear_over_current-stalls counting zeroed_device room 0 1 0 idle (omega arith)
