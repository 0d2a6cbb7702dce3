-- ===== src/Ehci/Async/Emptied.antt =====
-- The reclaim list after a transfer.
use pure_usb.Prelude.{
  ℕ, ◌≡◌, refl, ℤ, minus_one, is_negative, false, List, Option, none, some, Option-cases, inl, inr,
  bit_or, arith,
}
use pure_usb.Device.{Device, DevRequest, Buffer}
use pure_usb.Ehci.{Controller, Ehci}
use pure_usb.Ehci.Yields.{Yields, Yields-then, Yields-return, yields_rules}
use pure_usb.Ehci.Schedule.{Statics, Memory, qh_link_type_qh}
use pure_usb.Ehci.Async.{
  parent_devnum, look, link_list, expose, release, fail, finish, switched_on, run_schedule,
  start_schedule, prepare, with_buffer, submit_behind, ehci_submit_async,
}

module _ (c : Controller) (s : Statics) where
  open c use {State}

  -- The controller does not write the link of the list's head.
  abbrev pub KeepsHead : Type 0
  KeepsHead = (m : Memory) (hw : State) → (c.dma m hw).0.qh_list.qh_link ≡ m.qh_list.qh_link

  -- the list is its head alone
  abbrev pub IsEmptied : Ehci State → Type 0
  IsEmptied e = e.memory.qh_list.qh_link ≡ bit_or s.qh_list_at qh_link_type_qh

  -- If the transfer has succeeded, the list is empty.
  record Emptied (o : Option (ℤ × Device)) (e : Ehci State) : Type 0 where
    empty : (r : ℤ × Device) → o ≡ some r → is_negative r.0 ≡ false → IsEmptied e

  Emptied-none : (e : Ehci State) → Emptied none e
  Emptied-none e = record { empty = λ r same fine. cc }

  released-Emptied :
      (d : Device) (o : Option (Unit {0})) (e : Ehci State)
      → Emptied (elim o [ none ↦ none | some u ↦ some (minus_one, d) ]) e
  released-Emptied d none e = Emptied-none e
  released-Emptied d (some u) e = record { empty = λ r same fine. ground (arith, same, fine) }

  fail-Emptied : (d : Device) → Yields (fail c s d) Emptied
  unfolding fail
  fail-Emptied d = Yields-then (look c s) _ λ m.
      Yields-then (release c s 4 m.qh.qh_overlay.qt_next) _
        λ released. Yields-return _ (released-Emptied d released)

  module _ (keeps : KeepsHead) where
    finish-Emptied : (d : Device) (pipe len : ℕ) → Yields (finish c s d pipe len) Emptied
    unfolding finish look
    finish-Emptied d pipe len = record {
      at = λ e.
          let e1 = (link_list c s (s.qh_list_at) e).1 in
          record { empty = λ r same fine. keeps (e1.memory) (e1.hw) };
    }

    run_schedule-Emptied :
        (d : Device) (pipe len td : ℕ) → Yields (run_schedule c s d pipe len td) Emptied
    unfolding run_schedule switched_on
    run_schedule-Emptied d pipe len td =
        search (yields_rules, fail-Emptied, finish-Emptied) depth 12

    start_schedule-Emptied :
        (d : Device) (pipe len : ℕ) (tdp : Option (Option ℕ))
        → Yields (start_schedule c s d pipe len tdp) Emptied
    start_schedule-Emptied d pipe len none = fail-Emptied d
    start_schedule-Emptied d pipe len (some none) = Yields-return none Emptied-none
    start_schedule-Emptied d pipe len (some (some td)) = run_schedule-Emptied d pipe len td

    with_buffer-Emptied :
        (o : Option (ℤ × Device)) (e : Ehci State) (r : ℤ × Device × List ℕ)
        → Emptied o e
        → (with_buffer c s o e).0 ≡ some r
        → is_negative r.0 ≡ false
        → IsEmptied (with_buffer c s o e).1
    with_buffer-Emptied none e r emptied same fine = cc
    with_buffer-Emptied (some (ret, d)) e r emptied same fine =
        emptied.empty (ret, d) refl (ground (arith, same, fine))

    -- When `ehci_submit_async` returns 0, the reclaim list is its head alone, which points to itself: the
    -- transfer's queue head is no longer in the schedule. The controller does not write the head's link.
    pub ehci_submit_async-IsEmptied :
        (devs : List Device) (d : Device) (pipe : ℕ) (buffer : Buffer) (len : ℕ)
        (req : Option DevRequest) (e : Ehci State) (r : ℤ × Device × List ℕ)
        → (ehci_submit_async c s devs d pipe buffer len req e).0 ≡ some r
        → is_negative r.0 ≡ false
        → IsEmptied (ehci_submit_async c s devs d pipe buffer len req e).1
    unfolding ehci_submit_async submit_behind
    ehci_submit_async-IsEmptied devs d pipe buffer len req e r same fine =
        elim (Option-cases (parent_devnum devs d)) [
          | inl lost ↦ ground (arith, lost, same)
          | inr (parent, known) ↦
              let (u, e1) = expose c s buffer req e in
              let (tdp, e2) = prepare c s d parent pipe (buffer.addr) len req e1 in
              let (q, e3) = start_schedule c s d pipe len tdp e2 in
              let emptied =
                with_buffer-Emptied q e3 r ((start_schedule-Emptied d pipe len tdp).at e2)
                  (ground (arith, known, same)) fine in
              ground (arith, known, emptied)
        ]
