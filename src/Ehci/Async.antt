-- ===== src/Ehci/Async.antt =====
-- `ehci_submit_async`: a transfer by the asynchronous schedule.
pub mod Run
pub mod Submit
pub mod Toggles
pub mod Served
pub mod Updates
pub mod Emptied
use pure_usb.Prelude.{
  ℕ, zero, suc, ◌+◌, ◌-◌, ◌*◌, ◌==◌, ◌||◌, not, Bool, true, false, ℤ, pos, minus_one, is_negative,
  sub_ℕ, List, Option, none, some, if◌then◌else◌, get_elem?, bit_and, bit_or, has_bits, shr,
  complement,
}
use pure_usb.Defs.{
  usb_st_stalled, usb_st_buf_err, usb_st_babble_det, usb_st_crc_err, usb_st_not_proc,
}
use pure_usb.Device.{Device, DevRequest, Buffer}
use pure_usb.Pipe.{usb_pipeendpoint, usb_pipeout, usb_settoggle}
use pure_usb.Ehci.{Controller, Ehci, E, return, ◌>>=◌, ◌>>◌, ehci_readl, ehci_writel, udelay}
use pure_usb.Ehci.Regs.{or_usbcmd, or_usbsts, cmd_ase, std_ass}
use pure_usb.Ehci.Handshake.{handshake}
use pure_usb.Ehci.Queue.{Qtd}
use pure_usb.Ehci.Schedule.{
  Qh, Memory, Statics, Block, qh_block, td_block, ehci_alloc, qh_size, get_td, qt_next_terminate,
  qh_link_type_qh,
}
use pure_usb.Ehci.Schedule.Build.{fill_qh, build_tds}
use pure_usb.Ehci.Schedule.Chain.{td_of}

-- the status that a token which is no longer active stands for
unfoldable pub token_status : ℕ → ℕ
token_status token =
    let bits = bit_and token 0xfc in
    if bits == 0
    then 0
    else if bits == 0x40
    then usb_st_stalled
    else if (bits == 0xa0) || (bits == 0x20)
    then usb_st_buf_err
    else if (bits == 0x50) || (bits == 0x10)
    then usb_st_babble_det
    else usb_st_crc_err

-- What the token in the overlay tells about a transfer of `length` bytes.
unfoldable pub retire : ℕ → ℕ → ℕ → Device → Device
unfolding token_status
retire token pipe length' dev =
    if has_bits token 0x80
    then record dev { act_len = pos 0 }
    else (let toggled =
          if bit_and token 0xfc == 0
          then usb_settoggle dev (usb_pipeendpoint pipe) (usb_pipeout pipe) (shr token 31)
          else dev in
        record toggled {
          status = token_status token;
          act_len = sub_ℕ length' (bit_and (shr token 16) 0x7fff);
        })

-- `dev->parent->devnum`; `none` is a null pointer followed
unfoldable pub parent_devnum : List Device → Device → Option ℕ
parent_devnum devs dev = elim dev.parent [
  | none ↦ none
  | some p ↦ elim (get_elem? devs p) [ none ↦ none | some parent ↦ some parent.devnum ]
]

module _ (c : Controller) (s : Statics) where
  open c use {State}

  -- the memory as the controller has left it
  unfoldable pub look : E State Memory
  look e = let (m, hw) = c.dma e.memory e.hw in (m, record e { memory = m; hw = hw })

  abbrev pub update_memory : (Memory → Memory) → E State (Unit {0})
  update_memory f e = (tt, record e { memory = f e.memory })

  abbrev pub link_list : ℕ → E State (Unit {0})
  link_list addr =
      update_memory
        (λ m. record m { qh_list = record (m.qh_list) { qh_link = bit_or addr qh_link_type_qh } })

  -- The descriptors are taken off the overlay, from the one it points to on. `none` is a pointer that
  -- leads to no descriptor.
  pub release : ℕ → ℕ → E State (Option (Unit {0}))
  unfolding td_of
  release zero addr e = (none, e)
  release (suc fuel) addr e =
      if addr == qt_next_terminate then (some tt, e) else elim (td_of s e.memory addr) [
        | none ↦ (none, e)
        | some td ↦ release fuel td.qt_next (record e {
          memory = record (e.memory) {
            qh = record (e.memory.qh) {
              qh_overlay = record (e.memory.qh.qh_overlay) { qt_next = td.qt_next };
            };
          };
        })
      ]

  -- the label `fail`: four steps reach the end of any chain of three descriptors
  pub fail : Device → E State (Option (ℤ × Device))
  unfolding look release
  fail dev = do
    m ← look
    released ← release 4 m.qh.qh_overlay.qt_next
    return (elim released [ none ↦ none | some u ↦ some (minus_one, dev) ])

  -- The wait for the last descriptor, with the rounds left. `td` is never null.
  unfoldable pub await_td : ℕ → ℕ → E State (Unit {0})
  unfolding look udelay
  await_td zero td = return tt
  await_td (suc left) td = do
    m ← look
    elim (get_td td m) [
      | none ↦ return tt
      | some vtd ↦ elim (has_bits vtd.qt_token 0x80) [
        | true ↦ udelay c 1000 >> await_td left td
        | false ↦ return tt
      ]
    ]

  -- the schedule is switched on or off, and the controller confirms it
  unfoldable pub set_schedule : Bool → E State ℤ
  unfolding ehci_readl ehci_writel
  set_schedule on = do
    cmd ← ehci_readl c or_usbcmd
    ehci_writel c or_usbcmd (if on then bit_or cmd cmd_ase else bit_and cmd (complement cmd_ase))
    handshake c or_usbsts std_ass (if on then std_ass else 0) 100000

  -- the list is emptied, and the overlay read
  unfoldable pub finish : Device → ℕ → ℕ → E State (Option (ℤ × Device))
  unfolding look retire
  finish dev pipe length' = do
    link_list (s.qh_list_at)
    m ← look
    let dev' = retire m.qh.qh_overlay.qt_token pipe length' dev
    return (some (if dev'.status == usb_st_not_proc then minus_one else pos 0, dev'))

  -- the schedule is switched on until the last descriptor `td` has been seen to
  unfoldable pub switched_on : Device → ℕ → ℕ → ℕ → E State (Option (ℤ × Device))
  switched_on dev pipe length' td = do
    on ← set_schedule true
    if is_negative on then fail dev else (do
      await_td 1000 td
      off ← set_schedule false
      if is_negative off then fail dev else finish dev pipe length')

  -- a built schedule, whose last descriptor is `td`
  unfoldable pub run_schedule : Device → ℕ → ℕ → ℕ → E State (Option (ℤ × Device))
  run_schedule dev pipe length' td = do
    link_list (s.qh_at)
    usbsts ← ehci_readl c or_usbsts
    ehci_writel c or_usbsts (bit_and usbsts 0x3f)
    switched_on dev pipe length' td

  -- the transfer's bytes and its setup packet, where the controller finds them
  abbrev pub expose : Buffer → Option DevRequest → E State (Unit {0})
  expose buffer req = update_memory (λ m. record m { buffer = buffer.bytes; setup = req })

  abbrev pub start_schedule : Device → ℕ → ℕ → Option (Option ℕ) → E State (Option (ℤ × Device))
  start_schedule dev pipe length' none = fail dev
  start_schedule dev pipe length' (some none) = return none
  start_schedule dev pipe length' (some (some td)) = run_schedule dev pipe length' td

  unfoldable pub prepare : Device → ℕ → ℕ → ℕ → ℕ → Option DevRequest → E State (Option (Option ℕ))
  prepare dev parent pipe buf length' req e =
      let (qh, m) = ehci_alloc qh_size e.memory in
      let (tdp, m') = build_tds s dev pipe buf length' req (fill_qh s dev parent pipe m) in
      (tdp, record e { memory = m' })

  -- what the controller has left of the buffer
  abbrev pub with_buffer : Option (ℤ × Device) → E State (Option (ℤ × Device × List ℕ))
  with_buffer none e = (none, e)
  with_buffer (some (ret, dev)) e = (some (ret, dev, e.memory.buffer), e)

  -- the rest of `ehci_submit_async`, the parent's number being known
  unfoldable pub submit_behind :
      ℕ → Device → ℕ → Buffer → ℕ → Option DevRequest → E State (Option (ℤ × Device × List ℕ))
  submit_behind parent dev pipe buffer length' req = do
    expose buffer req
    tdp ← prepare dev parent pipe (buffer.addr) length' req
    r ← start_schedule dev pipe length' tdp
    with_buffer r

  -- The result has the buffer's bytes as the controller has left them.
  unfoldable pub ehci_submit_async :
      List Device
      → Device
      → ℕ
      → Buffer
      → ℕ
      → Option DevRequest
      → E State (Option (ℤ × Device × List ℕ))
  ehci_submit_async devs dev pipe buffer length' req = elim (parent_devnum devs dev) [
    | none ↦ return none
    | some parent ↦ submit_behind parent dev pipe buffer length' req
  ]
