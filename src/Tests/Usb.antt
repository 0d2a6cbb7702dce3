-- ===== src/Tests/Usb.antt =====
-- A driver that completes every transfer at once, and the functions of usb.c run over it.
use pure_usb.Prelude.{◌≡◌, refl, pos, minus_one, true, false, [], ◌∷◌, some, set, get_elem?, arith}
use pure_usb.Device.{Device, Buffer, zeroed_device, minus_one32}
use pure_usb.Host.{Host, Completion}
use pure_usb.Usb.{World}
use pure_usb.Usb.Message.{usb_control_msg, usb_bulk_msg, setup_packet_of}
use pure_usb.Usb.Message.Laws.{usb_control_msg-result, usb_bulk_msg-result}
use pure_usb.Usb.Devices.{usb_alloc_new_device}
use pure_usb.Usb.Devices.Forest.{IsForest, initial, usb_init-IsForest}
use pure_usb.Usb.Devices.Laws.{extended, allocate_root-IsForest, usb_alloc_new_device-IsForest}

abbrev pub finished : Completion (Unit {0})
finished = record {
  ret = pos 0;
  dev = record zeroed_device { act_len = pos 4 };
  bytes = 1 ∷ 2 ∷ 3 ∷ 4 ∷ [];
  host = tt;
}

-- every transfer succeeds with the same four bytes
abbrev pub obliging : Host
obliging = record {
  State = Unit {0};
  submit_control_msg = λ devs dev pipe buffer len req s. some finished;
  submit_bulk_msg = λ devs dev pipe buffer len s. some finished;
  submit_int_msg = λ devs dev pipe buffer len interval s. some finished;
  mdelay = λ ms s. s;
  udelay = λ us s. s;
}

abbrev pub start : World (Unit {0})
start = record {
  usb_dev = zeroed_device ∷ [];
  g_dev_index = 1;
  running = 0;
  asynch_allowed = false;
  usb_started = true;
  setup_packet = record { requesttype = 0; request = 0; value = 0; index = 0; length = 0 };
  host = tt;
}

abbrev four : Buffer
four = record { addr = 0x100; bytes = 0 ∷ 0 ∷ 0 ∷ 0 ∷ [] }

usb_control_msg-result_example :
    (s : Unit {0}) × (usb_control_msg obliging 0 0 6 0x80 0x100 0 four 4 100 start
      ≡ some (
        (pos 4, 1 ∷ 2 ∷ 3 ∷ 4 ∷ []),
        record start {
          usb_dev = finished.dev ∷ [];
          setup_packet = setup_packet_of 6 0x80 0x100 0 4;
          host = s;
        },
      ))
usb_control_msg-result_example =
    usb_control_msg-result obliging 0 0 6 0x80 0x100 0 four 4 100 start {d = zeroed_device}
      {c = finished} refl refl refl

usb_bulk_msg-result_example :
    (s : Unit {0}) × (usb_bulk_msg obliging 0 0 four 4 100 start
      ≡ some (
        (minus_one, some (pos 4), 1 ∷ 2 ∷ 3 ∷ 4 ∷ []),
        record start { usb_dev = finished.dev ∷ []; host = s },
      ))
usb_bulk_msg-result_example =
    usb_bulk_msg-result obliging 0 0 four 4 100 start {d = zeroed_device} {c = finished} refl refl
      refl

-- the table after `usb_init`, and after the root hub was allocated
abbrev fresh : World (Unit {0})
fresh = initial start

abbrev no_device : Device
no_device = record zeroed_device { devnum = minus_one32 }

abbrev hub : Device
hub = record no_device { devnum = 1 }

abbrev with_hub : World (Unit {0})
with_hub = extended fresh (set fresh.usb_dev 0 hub)

with_hub-IsForest : IsForest with_hub
with_hub-IsForest = allocate_root-IsForest fresh no_device (usb_init-IsForest start).1 refl

usb_alloc_new_device-IsForest_example :
    (w' : World (Unit {0})) × (usb_alloc_new_device (some 0) 3 with_hub ≡ some (some 1, w'))
    × IsForest w'
    × (w'.g_dev_index ≡ 2)
    × ((n : Device) × (get_elem? w'.usb_dev 1 ≡ some n) × (n.parent ≡ some 0))
    × ((q : Device) × (get_elem? w'.usb_dev 0 ≡ some q) × (get_elem? q.children 3 ≡ some (some 1)))
usb_alloc_new_device-IsForest_example =
    usb_alloc_new_device-IsForest with_hub 0 3 {p = hub} with_hub-IsForest (omega arith)
      (omega arith) (omega arith) refl
