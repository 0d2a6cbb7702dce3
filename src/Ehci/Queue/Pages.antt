-- ===== src/Ehci/Queue/Pages.antt =====
-- The buffer pointers of a transfer descriptor lead the controller to the bytes of the buffer.
use pure_usb.Prelude.{
  ℕ, zero, suc, ◌+◌, ◌-◌, ◌*◌, ◌/◌, ◌%◌, ◌^◌, ◌≤◌, ◌<◌, ◌≡◌, ◌⊎◌, ◌↔◌, inr, refl, leb, pos,
  minus_one, get_or, set, get_or-set_self, get_or-set_ne, length, length-set, if◌then◌else◌,
  bit_and, u32, complement, arith,
}
use pure_usb.Prelude.Bits.{bit_and-split, bit_and-mask, bit_and-zero}
use pure_usb.Ehci.Queue.{Qtd, next_page, td_loop, ehci_td_buffer}

page_start : (x : ℕ) → x < 2 ^ 32 → bit_and x (complement 4095) ≡ x / 4096 * 4096
page_start x h = ground (
  arith,
  bit_and-split 12 (x / 4096) (x % 4096) (2 ^ 20 - 1) 0,
  bit_and-mask 20 (x / 4096),
  bit_and-zero (x % 4096),
)

next_page_lem : (addr : ℕ) → addr < 2 ^ 32 → next_page addr ≡ (addr / 4096 + 1) * 4096 % 2 ^ 32
unfolding next_page
next_page_lem addr h = omega (arith, page_start (u32 (addr + 4096)) (omega arith))

-- the distance to the next page, also across the end of the address space
delta_lem : (addr : ℕ) → addr < 2 ^ 32 → u32 (next_page addr + 2 ^ 32 - addr) ≡ 4096 - addr % 4096
delta_lem addr h = omega (arith, next_page_lem addr h)

-- what the `k`-th pointer should hold: the buffer's own address, then starts of pages
abbrev pub page_pointer : ℕ → ℕ → ℕ
page_pointer addr zero = addr
page_pointer addr (suc k) = (addr / 4096 + suc k) * 4096

page_pointer-next :
    (addr k : ℕ) → page_pointer ((addr / 4096 + 1) * 4096) k ≡ (addr / 4096 + suc k) * 4096
page_pointer-next addr zero = omega arith
page_pointer-next addr (suc k) = omega arith

page_pointer_value : (addr k : ℕ) → page_pointer addr k / 4096 ≡ addr / 4096 + k
page_pointer_value addr zero = omega arith
page_pointer_value addr (suc k) = omega arith

-- what the loop needs: it is inside the array, and the buffer inside the address space
abbrev Fits : ℕ → ℕ → ℕ → ℕ → Qtd → Type 0
Fits left idx addr sz td =
    (addr < 2 ^ 32)
    × (addr + sz ≤ 2 ^ 32)
    × (idx + left ≡ 5)
    × (length td.qt_buffer ≡ 5)
    × ((0 < sz) ⊎ (0 < left))

td_loop-result :
    (left idx addr sz : ℕ) (td : Qtd)
    → Fits left idx addr sz td
    → (td_loop left idx addr sz td).0
      ≡ (if leb (addr % 4096 + sz) (left * 4096) then pos 0 else minus_one)
unfolding td_loop
td_loop-result zero idx addr sz td h = ground arith
td_loop-result (suc left) idx addr sz td h =
    let td' : Qtd = record td {
      qt_buffer = set td.qt_buffer idx addr;
      qt_buffer_hi = set td.qt_buffer_hi idx 0;
    } in
    ground (
      arith,
      delta_lem addr,
      next_page_lem addr,
      td_loop-result left (idx + 1) (next_page addr) (sz - u32 (next_page addr + 2 ^ 32 - addr))
          td',
      length-set td.qt_buffer idx addr,
    )

-- Entries before the loop's are left alone.
td_loop-before :
    (left idx addr sz : ℕ) (td : Qtd) (j : ℕ)
    → j < idx
    → get_or (td_loop left idx addr sz td).1.qt_buffer j 0 ≡ get_or td.qt_buffer j 0
unfolding td_loop
td_loop-before zero idx addr sz td j h = refl
td_loop-before (suc left) idx addr sz td j h =
    let next = next_page addr in
    let delta = u32 (next + 2 ^ 32 - addr) in
    let td' : Qtd = record td {
      qt_buffer = set td.qt_buffer idx addr;
      qt_buffer_hi = set td.qt_buffer_hi idx 0;
    } in
    ground (
      arith,
      td_loop-before left (idx + 1) next (sz - delta) td' j,
      get_or-set_ne td.qt_buffer idx j addr 0 (omega arith),
    )

td_loop-pointers :
    (left idx addr sz : ℕ) (td : Qtd) (k : ℕ)
    → Fits left idx addr sz td
    → k < left
    → (k ≡ 0) ⊎ (k * 4096 < addr % 4096 + sz)
    → get_or (td_loop left idx addr sz td).1.qt_buffer (idx + k) 0 ≡ page_pointer addr k
unfolding td_loop
td_loop-pointers zero idx addr sz td k f h q = absurd (omega arith)
td_loop-pointers (suc left) idx addr sz td zero f h q =
    let next = next_page addr in
    let delta = u32 (next + 2 ^ 32 - addr) in
    let td' : Qtd = record td {
      qt_buffer = set td.qt_buffer idx addr;
      qt_buffer_hi = set td.qt_buffer_hi idx 0;
    } in
    ground (
      arith,
      td_loop-before left (idx + 1) next (sz - delta) td' idx,
      get_or-set_self td.qt_buffer idx addr 0 (omega arith),
    )
td_loop-pointers (suc left) idx addr sz td (suc k) f h q =
    let next = next_page addr in
    let delta = u32 (next + 2 ^ 32 - addr) in
    let td' : Qtd = record td {
      qt_buffer = set td.qt_buffer idx addr;
      qt_buffer_hi = set td.qt_buffer_hi idx 0;
    } in
    ground (
      arith,
      delta_lem addr,
      next_page_lem addr,
      td_loop-pointers left (idx + 1) next (sz - delta) td' k,
      page_pointer-next addr k,
      length-set td.qt_buffer idx addr,
    )

-- `ehci_td_buffer` succeeds exactly when the buffer touches at most five pages, for a buffer inside
-- the 32-bit address space and a descriptor with five pointers.
pub ehci_td_buffer-succeeds :
    (td : Qtd) (buf sz : ℕ)
    → buf < 2 ^ 32
    → buf + sz ≤ 2 ^ 32
    → length td.qt_buffer ≡ 5
    → ((ehci_td_buffer td buf sz).0 ≡ pos 0) ↔ (buf % 4096 + sz ≤ 5 * 4096)
unfolding ehci_td_buffer
ehci_td_buffer-succeeds td buf sz h e l =
    ground (arith, td_loop-result 5 0 buf sz td (h, e, omega arith, l, inr (omega arith)))

-- where the controller finds byte `b` of a transfer: in the page that the pointer for that part of
-- the transfer leads to, at the offset at which the transfer's own address stands
abbrev pub fetched : Qtd → ℕ → ℕ → ℕ
fetched td buf b = get_or td.qt_buffer ((buf % 4096 + b) / 4096) 0 / 4096 * 4096 + (buf + b) % 4096

-- When `ehci_td_buffer` succeeds, for a buffer inside the 32-bit address space and a descriptor with
-- five pointers, every byte of the buffer is reached through one of the five, at its own address.
pub ehci_td_buffer-fetched :
    (td : Qtd) (buf sz b : ℕ)
    → buf < 2 ^ 32
    → buf + sz ≤ 2 ^ 32
    → length td.qt_buffer ≡ 5
    → (ehci_td_buffer td buf sz).0 ≡ pos 0
    → b < sz
    → ((buf % 4096 + b) / 4096 < 5) × (fetched (ehci_td_buffer td buf sz).1 buf b ≡ buf + b)
ehci_td_buffer-fetched td buf sz b h e l done inside =
    let fits = (ehci_td_buffer-succeeds td buf sz h e l).0 done in
    let k = (buf % 4096 + b) / 4096 in
    let pointer : get_or (ehci_td_buffer td buf sz).1.qt_buffer k 0 ≡ page_pointer buf k =
      unfold ehci_td_buffer in
      ground (
        arith,
        td_loop-pointers 5 0 buf sz td k (h, e, omega arith, l, inr (omega arith)) (omega arith)
            (inr (omega arith)),
      ) in
    (omega arith, omega (arith, pointer, page_pointer_value buf k))
