-- ===== src/Ehci/Async/Run.antt =====
-- How a transfer by the asynchronous schedule ends, whatever the controller does to it.
use pure_usb.Prelude.{
  ℕ, zero, suc, ◌≡◌, refl, sym, ◌==◌, Bool, true, false, Bool-cases, Option-cases, inl, inr, ℤ, pos,
  minus_one, is_negative, List, Option, some, if◌then◌else◌, has_bits, arith,
}
use mathlib.Core.Path.{subst}
use pure_usb.Defs.{usb_st_not_proc}
use pure_usb.Device.{Device}
use pure_usb.Ehci.{Controller, Ehci, ehci_readl, ehci_writel, udelay}
use pure_usb.Ehci.Regs.{or_usbsts, std_ass}
use pure_usb.Ehci.Handshake.Kept.{handshake-memory}
use pure_usb.Ehci.Queue.{Qtd}
use pure_usb.Ehci.Schedule.{Memory, Statics, get_td, qt_next_terminate}
use pure_usb.Ehci.Schedule.Chain.{chain, td_of}
use pure_usb.Ehci.Async.{
  retire, look, release, fail, await_td, set_schedule, finish, run_schedule, link_list, switched_on,
}

-- the token in the overlay, as the controller has left it
abbrev pub last_token : {S : Type 0} → Ehci S → ℕ
last_token e = e.memory.qh.qh_overlay.qt_token

-- A transfer of `length'` bytes that leaves this token in the overlay ends in one of three ways: it is
-- given up with the device as it was, or the token is still active and nothing is counted, or the token
-- is not active and tells status and length.
pub data Ended (token : ℕ) (dev : Device) (pipe length' : ℕ) : ℤ × Device → Type 0 where
  given_up : Ended token dev pipe length' (minus_one, dev)
  timed_out :
      has_bits token 0x80 ≡ true
      → Ended token dev pipe length' (minus_one, record dev { act_len = pos 0 })
  retired :
      has_bits token 0x80 ≡ false
      → Ended token dev pipe length' (pos 0, retire token pipe length' dev)

-- the overlay leads through at most three descriptors to the end mark
abbrev pub IsLinked : Statics → Memory → Type 0
IsLinked s m = (tds : List Qtd) × (chain 3 s m m.qh.qh_overlay.qt_next ≡ some tds)

module _ (c : Controller) (s : Statics) where
  open c use {State}

  -- The controller keeps the pointers that it follows: what it writes to the memory leaves the chain
  -- from the overlay to the end mark whole.
  abbrev pub KeepsLinks : Type 0
  KeepsLinks = (m : Memory) (hw : State) → IsLinked s m → IsLinked s (c.dma m hw).0

  retire-Ended :
      (dev : Device) (pipe length' token : ℕ)
      → dev.status ≡ usb_st_not_proc
      → Ended token dev pipe length' (
        (if (retire token pipe length' dev).status == usb_st_not_proc then minus_one else pos 0),
        retire token pipe length' dev,
      )
  unfolding retire
  retire-Ended dev pipe length' token fresh = elim (Bool-cases (has_bits token 0x80)) [
    | inl active ↦
        subst (λ (r : ℤ × Device). Ended token dev pipe length' r) (ground (arith, active, fresh))
          (timed_out active)
    | inr over ↦
        subst (λ (r : ℤ × Device). Ended token dev pipe length' r) (ground (arith, over))
          (retired over)
  ]

  release-ends :
      (fuel addr : ℕ) (m : Memory) (e : Ehci State) (tds : List Qtd)
      → ((a : ℕ) → td_of s e.memory a ≡ td_of s m a)
      → chain fuel s m addr ≡ some tds
      → (release c s (suc fuel) addr e).0 ≡ some tt
  unfolding release chain
  release-ends zero addr m e tds same linked = ground arith
  release-ends (suc fuel) addr m e tds same linked = elim (Bool-cases (addr == qt_next_terminate)) [
    | inl last ↦ ground (arith, last)
    | inr more ↦ elim (Option-cases (td_of s m addr)) [
      | inl nowhere ↦ ground (arith, more, nowhere)
      | inr (td, at) ↦ elim (Option-cases (chain fuel s m td.qt_next)) [
        | inl broken ↦ ground (arith, more, at, broken)
        | inr (rest, tail) ↦
            let e' : Ehci State = record e {
              memory = record (e.memory) {
                qh = record (e.memory.qh) {
                  qh_overlay = record (e.memory.qh.qh_overlay) { qt_next = td.qt_next };
                };
              };
            } in
            ground (arith, more, at, same addr, release-ends fuel td.qt_next m e' rest same tail)
      ]
    ]
  ]

  look-IsLinked :
      KeepsLinks → (e : Ehci State) → IsLinked s e.memory → IsLinked s (look c s e).1.memory
  unfolding look
  look-IsLinked keeps e l = keeps e.memory e.hw l

  fail-ends :
      KeepsLinks
      → (dev : Device) (e : Ehci State) → IsLinked s e.memory
      → (fail c s dev e).0 ≡ some (minus_one, dev)
  unfolding fail look
  fail-ends keeps dev e l =
      let (m, hw) = c.dma e.memory e.hw in
      let (tds, linked) = keeps e.memory e.hw l in
      let e' : Ehci State = record e {
        memory = (c.dma e.memory e.hw).0;
        hw = (c.dma e.memory e.hw).1;
      } in
      ground (
        arith,
        release-ends 3 (c.dma e.memory e.hw).0.qh.qh_overlay.qt_next (c.dma e.memory e.hw).0 e' tds
            (λ a. refl) linked,
      )

  await_td-IsLinked :
      KeepsLinks
      → (left td : ℕ) (e : Ehci State) → IsLinked s e.memory
      → IsLinked s (await_td c s left td e).1.memory
  unfolding await_td look udelay
  await_td-IsLinked keeps zero td e l = l
  await_td-IsLinked keeps (suc left) td e l =
      let m = (c.dma e.memory e.hw).0 in
      let e' : Ehci State = record e { memory = m; hw = (c.dma e.memory e.hw).1 } in
      let l' = keeps e.memory e.hw l in
      elim (Option-cases (get_td td m)) [
        | inl gone ↦ subst (λ x. IsLinked s x) (ground (arith, gone)) l'
        | inr (vtd, at) ↦ elim (Bool-cases (has_bits vtd.qt_token 0x80)) [
          | inl active ↦
              let slept : Ehci State = record e' { hw = c.udelay 1000 e'.hw } in
              subst (λ x. IsLinked s x) (ground (arith, at, active))
                (await_td-IsLinked keeps left td slept l')
          | inr over ↦ subst (λ x. IsLinked s x) (ground (arith, at, over)) l'
        ]
      ]

  set_schedule-memory : (on : Bool) (e : Ehci State) → (set_schedule c s on e).1.memory ≡ e.memory
  unfolding set_schedule
  set_schedule-memory on e =
      handshake-memory c or_usbsts std_ass (if on then std_ass else 0) 100000 _

  abbrev pub Comes : Device → ℕ → ℕ → Option (ℤ × Device) × Ehci State → Type 0
  Comes dev pipe length' p =
      (r : ℤ × Device) × (p.0 ≡ some r) × Ended (last_token p.1) dev pipe length' r

  finish-Ended :
      (dev : Device) (pipe length' : ℕ) (e : Ehci State)
      → dev.status ≡ usb_st_not_proc
      → Comes dev pipe length' (finish c s dev pipe length' e)
  unfolding finish
  finish-Ended dev pipe length' e fresh = (_, refl, retire-Ended dev pipe length' _ fresh)

  fail-Ended :
      KeepsLinks
      → (dev : Device) (pipe length' : ℕ) (e : Ehci State) → IsLinked s e.memory
      → Comes dev pipe length' (fail c s dev e)
  fail-Ended keeps dev pipe length' e l = (_, fail-ends keeps dev e l, given_up)

  link_list-IsLinked :
      (addr : ℕ) (e : Ehci State) → IsLinked s e.memory → IsLinked s (link_list c s addr e).1.memory
  unfolding chain
  link_list-IsLinked addr e l = l

  set_schedule-IsLinked :
      (on : Bool) (e : Ehci State)
      → IsLinked s e.memory
      → IsLinked s (set_schedule c s on e).1.memory
  set_schedule-IsLinked on e l = subst (λ x. IsLinked s x) (sym (set_schedule-memory on e)) l

  -- from the switching on of the schedule
  switched_on-Ended :
      KeepsLinks
      → (dev : Device) (pipe length' td : ℕ) (e : Ehci State) → IsLinked s e.memory
      → dev.status ≡ usb_st_not_proc
      → Comes dev pipe length' (switched_on c s dev pipe length' td e)
  unfolding switched_on
  switched_on-Ended keeps dev pipe length' td e l fresh =
      let on = set_schedule c s true e in
      let waited = await_td c s 1000 td on.1 in
      let off = set_schedule c s false waited.1 in
      let l1 = set_schedule-IsLinked true e l in
      let l2 = await_td-IsLinked keeps 1000 td on.1 l1 in
      let l3 = set_schedule-IsLinked false waited.1 l2 in
      elim (Bool-cases (is_negative on.0)) [
        | inl refused ↦ rw refused (fail-Ended keeps dev pipe length' on.1 l1)
        | inr begun ↦ elim (Bool-cases (is_negative off.0)) [
          | inl stuck ↦ rw (begun, stuck) (fail-Ended keeps dev pipe length' off.1 l3)
          | inr stopped ↦ rw (begun, stopped) (finish-Ended dev pipe length' off.1 fresh)
        ]
      ]

  -- A built schedule always comes to an end, for a controller that keeps the links and a device that
  -- is marked as not processed: the transfer is given up, timed out or retired.
  pub run_schedule-Ended :
      KeepsLinks
      → (dev : Device) (pipe length' td : ℕ) (e : Ehci State) → IsLinked s e.memory
      → dev.status ≡ usb_st_not_proc
      → Comes dev pipe length' (run_schedule c s dev pipe length' td e)
  unfolding run_schedule ehci_readl ehci_writel
  run_schedule-Ended keeps dev pipe length' td e l fresh =
      switched_on-Ended keeps dev pipe length' td _ (link_list-IsLinked (s.qh_at) e l) fresh
