-- ===== src/Ehci/Schedule/Build.antt =====
-- The schedule of one transfer: the first half of `ehci_submit_async`, up to the last descriptor.
pub mod Stages
pub mod Token
use pure_usb.Prelude.{
  ℕ, zero, suc, ◌+◌, ◌*◌, ◌==◌, ltb, ◌&&◌, ◌||◌, not, Bool, true, false, ℤ, pos, is_zero, List,
  Option, none, some, if◌then◌else◌, bit_or, shl, u32,
}
use pure_usb.Defs.{usb_speed_high}
use pure_usb.Device.{Device, DevRequest}
use pure_usb.Pipe.{
  usb_pipein, usb_pipeout, usb_pipedevice, usb_pipeendpoint, usb_pipespeed, usb_gettoggle,
}
use pure_usb.Usb.MaxPacket.{usb_maxpacket}
use pure_usb.Ehci.Queue.{Qtd, ehci_td_buffer}
use pure_usb.Ehci.Schedule.{
  Qh, Memory, Statics, Block, qh_block, td_block, ehci_alloc, qh_size, qtd_size, devrequest_size,
  qt_next_terminate, qh_link_type_qh, get_td, set_td, td_address, zeroed_qtd,
}

abbrev pub is_request : Option DevRequest → Bool
is_request none = false
is_request (some req) = true

-- 1 for a test that holds, as in `(test ? 1 : 0)`
abbrev pub bit : Bool → ℕ
bit true = 1
bit false = 0

-- the first word of the queue head's endpoint characteristics
pub endpoint_word : Device → ℕ → ℕ
endpoint_word dev pipe =
    let c = bit (not (usb_pipespeed pipe == usb_speed_high) && (usb_pipeendpoint pipe == 0)) in
    bit_or (shl 8 28) (
      bit_or (shl c 27) (
        bit_or (shl (usb_maxpacket dev pipe) 16) (
          bit_or (shl 1 14) (
            bit_or (shl (usb_pipespeed pipe) 12)
              (bit_or (shl (usb_pipeendpoint pipe) 8) (usb_pipedevice pipe))))))

-- the second, with the address of the device's hub
pub split_word : Device → ℕ → ℕ
split_word dev parent_devnum = bit_or (shl 1 30) (bit_or (shl dev.portnr 23) (shl parent_devnum 16))

unfoldable pub fill_qh : Statics → Device → ℕ → ℕ → Memory → Memory
unfolding endpoint_word split_word
fill_qh s dev parent_devnum pipe m = record m {
  qh = record (m.qh) {
    qh_link = bit_or s.qh_list_at qh_link_type_qh;
    qh_endpt1 = endpoint_word dev pipe;
    qh_endpt2 = split_word dev parent_devnum;
    qh_overlay = record (m.qh.qh_overlay) { qt_next = qt_next_terminate };
  };
}

-- The token of a descriptor: the data toggle, the number of bytes, whether the end of it is
-- signalled, and the packet's kind (0 out, 1 in, 2 setup). It has three tries and is active.
unfoldable pub token_word : ℕ → ℕ → ℕ → ℕ → ℕ
token_word toggle length' ioc pid =
    bit_or (shl toggle 31)
      (bit_or (shl length' 16) (bit_or (shl ioc 15) (bit_or (shl 3 10) (bit_or (shl pid 8) 0x80))))

-- `*tdp = td`, where `tdp` points to the `qt_next` of the descriptor `td[i]`, or of the overlay
abbrev pub link : Option ℕ → ℕ → Memory → Memory
link none addr m = record m {
  qh = record (m.qh) { qh_overlay = record (m.qh.qh_overlay) { qt_next = addr } };
}
link (some i) addr m = elim (get_td i m) [
  | none ↦ m
  | some td ↦ set_td i (record td { qt_next = addr }) m
]

-- the buffer of a descriptor, if it has one
abbrev pub attach : Option (ℕ × ℕ) → Qtd → ℤ × Qtd
attach none td = (pos 0, td)
attach (some (buf, sz)) td = ehci_td_buffer td buf sz

abbrev pub new_td : ℕ → Qtd
new_td token = record zeroed_qtd {
  qt_next = qt_next_terminate;
  qt_altnext = qt_next_terminate;
  qt_token = token;
}

-- A descriptor is filled and linked. The result is the new `tdp`, `none` for the jump to `fail`.
abbrev pub place_td : Statics → Option ℕ → ℕ → ℤ × Qtd → Memory → Option (Option ℕ) × Memory
place_td s tdp i (ret, td) m =
    if is_zero ret
    then (some (some i), link tdp (td_address s i) (set_td i td m))
    else (none, set_td i td m)

abbrev pub fill_td :
    Statics → Option ℕ → ℕ → Option (ℕ × ℕ) → Option Block → Memory → Option (Option ℕ) × Memory
fill_td s tdp token buf none m = (none, m)
fill_td s tdp token buf (some qh_block) m = (none, m)
fill_td s tdp token buf (some (td_block i)) m = place_td s tdp i (attach buf (new_td token)) m

abbrev pub add_td : Statics → Option ℕ → ℕ → Option (ℕ × ℕ) → Memory → Option (Option ℕ) × Memory
add_td s tdp token buf m = let (p, m') = ehci_alloc qtd_size m in fill_td s tdp token buf p m'

-- the SETUP descriptor, if there is a request
unfoldable pub setup_stage :
    Statics → Option DevRequest → Option ℕ → Memory → Option (Option ℕ) × Memory
unfolding token_word
setup_stage s none tdp m = (some tdp, m)
setup_stage s (some req) tdp m =
    add_td s tdp (token_word 0 devrequest_size 0 2) (some (s.setup_at, devrequest_size)) m

-- the DATA descriptor, if there are data or no request
unfoldable pub data_stage :
    Statics → ℕ → ℕ → ℕ → ℕ → Option DevRequest → Option ℕ → Memory → Option (Option ℕ) × Memory
unfolding token_word
data_stage s pipe toggle buf length' req tdp m =
    if ltb 0 length' || not (is_request req)
    then add_td s tdp
        (token_word toggle length' (bit (not (is_request req))) (bit (not (usb_pipein pipe == 0))))
        (some (buf, length')) m
    else (some tdp, m)

-- the status descriptor, if there is a request
unfoldable pub ack_stage :
    Statics → ℕ → ℕ → Option DevRequest → Option ℕ → Memory → Option (Option ℕ) × Memory
unfolding token_word
ack_stage s pipe toggle none tdp m = (some tdp, m)
ack_stage s pipe toggle (some req) tdp m =
    add_td s tdp (token_word toggle 0 1 (bit (usb_pipein pipe == 0))) none m

-- a stage, unless the one before has failed
abbrev pub after :
    Option (Option ℕ) × Memory
    → (Option ℕ → Memory → Option (Option ℕ) × Memory)
    → Option (Option ℕ) × Memory
after (none, m) next = (none, m)
after (some tdp, m) next = next tdp m

-- the toggle that the data and the status stage start from
abbrev pub first_toggle : Device → ℕ → Option DevRequest → ℕ
first_toggle dev pipe none = usb_gettoggle dev (usb_pipeendpoint pipe) (usb_pipeout pipe)
first_toggle dev pipe (some req) = 1

unfoldable pub build_tds :
    Statics → Device → ℕ → ℕ → ℕ → Option DevRequest → Memory → Option (Option ℕ) × Memory
unfolding setup_stage data_stage ack_stage
build_tds s dev pipe buf length' req m =
    let toggle = first_toggle dev pipe req in
    after
      (after (setup_stage s req none m) (λ tdp m'. data_stage s pipe toggle buf length' req tdp m'))
      (λ tdp m'. ack_stage s pipe toggle req tdp m')
