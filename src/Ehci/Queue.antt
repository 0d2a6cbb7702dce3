-- ===== src/Ehci/Queue.antt =====
-- Transfer descriptors (`struct qTD`) and their buffer pointers: `ehci_td_buffer`.
pub mod Pages
pub mod Kept
use pure_usb.Prelude.{
  ℕ, zero, suc, ◌+◌, ◌-◌, ◌^◌, leb, ℤ, pos, minus_one, List, set, if◌then◌else◌, bit_and, u32,
  complement,
}

pub record Qtd : Type 0 where
  pub qt_next : ℕ
  pub qt_altnext : ℕ
  pub qt_token : ℕ
  pub qt_buffer : List ℕ
  pub qt_buffer_hi : List ℕ

-- the start of the page after `addr`'s
pub next_page : ℕ → ℕ
next_page addr = bit_and (u32 (addr + 4096)) (complement 4095)

-- The loop at `idx`, with `left` entries to go.
pub td_loop : ℕ → ℕ → ℕ → ℕ → Qtd → ℤ × Qtd
td_loop zero idx addr sz td = (minus_one, td)
td_loop (suc left) idx addr sz td =
    let next = next_page addr in
    let delta = u32 (next + 2 ^ 32 - addr) in
    let td' : Qtd = record td {
      qt_buffer = set td.qt_buffer idx addr;
      qt_buffer_hi = set td.qt_buffer_hi idx 0;
    } in
    let rest = td_loop left (idx + 1) next (sz - delta) td' in
    if leb sz delta then (pos 0, td') else rest

unfoldable pub ehci_td_buffer : Qtd → ℕ → ℕ → ℤ × Qtd
unfolding td_loop next_page
ehci_td_buffer td buf sz = td_loop 5 0 buf sz td
