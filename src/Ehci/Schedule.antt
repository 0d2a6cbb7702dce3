-- ===== src/Ehci/Schedule.antt =====
-- The memory that the driver shares with the controller: the queue heads and transfer descriptors
-- of ehci-hcd.c, with `ehci_alloc`, and the transfer's own bytes.
pub mod Build
pub mod Chain
use pure_usb.Prelude.{
  ℕ, zero, suc, ◌+◌, ◌*◌, ◌==◌, Bool, List, Option, none, some, replicate, if◌then◌else◌,
}
use pure_usb.Device.{DevRequest}
use pure_usb.Ehci.Queue.{Qtd}

-- `struct QH`, without the fill bytes
pub record Qh : Type 0 where
  pub qh_link : ℕ
  pub qh_endpt1 : ℕ
  pub qh_endpt2 : ℕ
  pub qh_curtd : ℕ
  pub qh_overlay : Qtd

-- The static variables `qh_list`, and `qh`, `td` and `ntds` of `ehci_alloc`; the three elements of
-- `td` are fields of their own. With them stand the bytes of the caller's buffer and the setup packet
-- of the transfer in progress, which the controller reads and writes too.
pub record Memory : Type 0 where
  pub qh_list : Qh
  pub qh : Qh
  pub td0 : Qtd
  pub td1 : Qtd
  pub td2 : Qtd
  pub ntds : ℕ
  pub buffer : List ℕ
  pub setup : Option DevRequest

-- Where the linker has put them, and the setup packet of usb.c.
pub record Statics : Type 0 where
  pub qh_list_at : ℕ
  pub qh_at : ℕ
  pub td_at : ℕ
  pub setup_at : ℕ

-- sizeof(struct QH), sizeof(struct qTD), sizeof(struct devrequest)
abbrev pub qh_size : ℕ
qh_size = 96

abbrev pub qtd_size : ℕ
qtd_size = 64

abbrev pub devrequest_size : ℕ
devrequest_size = 8

abbrev pub qt_next_terminate : ℕ
qt_next_terminate = 1

abbrev pub qh_link_type_qh : ℕ
qh_link_type_qh = 2

-- what memset to zero leaves
abbrev pub zeroed_qtd : Qtd
zeroed_qtd = record {
  qt_next = 0;
  qt_altnext = 0;
  qt_token = 0;
  qt_buffer = replicate 5 0;
  qt_buffer_hi = replicate 5 0;
}

abbrev pub zeroed_qh : Qh
zeroed_qh = record {
  qh_link = 0;
  qh_endpt1 = 0;
  qh_endpt2 = 0;
  qh_curtd = 0;
  qh_overlay = zeroed_qtd;
}

-- `td[i]`, read and written; `none` is an index past its end
abbrev pub get_td : ℕ → Memory → Option Qtd
get_td zero m = some m.td0
get_td (suc zero) m = some m.td1
get_td (suc (suc zero)) m = some m.td2
get_td (suc (suc (suc i))) m = none

abbrev pub set_td : ℕ → Qtd → Memory → Memory
set_td zero td m = record m { td0 = td }
set_td (suc zero) td m = record m { td1 = td }
set_td (suc (suc zero)) td m = record m { td2 = td }
set_td (suc (suc (suc i))) td m = m

-- a pointer that `ehci_alloc` returns
pub data Block : Type 0 where
  qh_block : Block
  td_block : ℕ → Block

-- `none` is NULL.
unfoldable pub ehci_alloc : ℕ → Memory → Option Block × Memory
ehci_alloc sz m =
    if sz == qh_size
    then (some qh_block, record m { qh = zeroed_qh; ntds = 0 })
    else if sz == qtd_size
    then (if m.ntds == 3
        then (none, m)
        else (some (td_block m.ntds), record (set_td m.ntds zeroed_qtd m) { ntds = m.ntds + 1 }))
    else (none, m)

-- the address of `td[i]`
abbrev pub td_address : Statics → ℕ → ℕ
td_address s i = s.td_at + qtd_size * i
