-- ===== src/Ehci/Queue/Kept.antt =====
-- What `ehci_td_buffer` leaves alone, and when it fails, whatever else the descriptor holds.
use pure_usb.Prelude.{ℕ, zero, suc, ◌+◌, ◌^◌, ◌≡◌, refl, u32, set, ◌-◌, arith}
use pure_usb.Ehci.Queue.{Qtd, next_page, td_loop, ehci_td_buffer}

td_loop-kept :
    (left idx addr sz : ℕ) (td : Qtd)
    → ((td_loop left idx addr sz td).1.qt_next ≡ td.qt_next)
      × ((td_loop left idx addr sz td).1.qt_token ≡ td.qt_token)
unfolding td_loop
td_loop-kept zero idx addr sz td = (refl, refl)
td_loop-kept (suc left) idx addr sz td =
    let next = next_page addr in
    let delta = u32 (next + 2 ^ 32 - addr) in
    let td' : Qtd = record td {
      qt_buffer = set td.qt_buffer idx addr;
      qt_buffer_hi = set td.qt_buffer_hi idx 0;
    } in
    ground (arith, td_loop-kept left (idx + 1) next (sz - delta) td')

pub ehci_td_buffer-kept :
    (td : Qtd) (buf sz : ℕ)
    → ((ehci_td_buffer td buf sz).1.qt_next ≡ td.qt_next)
      × ((ehci_td_buffer td buf sz).1.qt_token ≡ td.qt_token)
unfolding ehci_td_buffer
ehci_td_buffer-kept td buf sz = td_loop-kept 5 0 buf sz td
