-- ===== src/Ehci/Async/Submit.antt =====
-- `ehci_submit_async` as a whole: from the call to its result.
use pure_usb.Prelude.{ℕ, ◌≡◌, refl, ℤ, List, Option, none, some, map, length, ◌-◌}
use mathlib.Core.Option
use pure_usb.Defs.{usb_st_not_proc}
use pure_usb.Device.{Device, DevRequest, Buffer}
use pure_usb.Ehci.{Controller, Ehci}
use pure_usb.Ehci.Queue.{Qtd}
use pure_usb.Ehci.Schedule.{Memory, Statics, ehci_alloc, qh_size}
use pure_usb.Ehci.Schedule.Build.{fill_qh}
use pure_usb.Ehci.Schedule.Build.Stages.{BufferFits, stages, seen, build_tds-stages}
use pure_usb.Ehci.Async.{parent_devnum, run_schedule, prepare, ehci_submit_async, submit_behind}
use pure_usb.Ehci.Async.Run.{Ended, last_token, IsLinked, KeepsLinks, run_schedule-Ended}

-- a list that was seen whole is there
linked_of_seen :
    (o : Option (List Qtd)) (l : List (ℕ × List ℕ))
    → Option.map (map seen) o ≡ some l
    → (tds : List Qtd) × (o ≡ some tds)
linked_of_seen none l h = cc
linked_of_seen (some tds) l h = (tds, refl)

-- A transfer returns: with a code and a device, of which and of the token that is left in the overlay
-- `R` holds, and the buffer's bytes.
abbrev pub Returns :
    {S : Type 0} → (ℕ → ℤ × Device → Type 0) → Option (ℤ × Device × List ℕ) × Ehci S → Type 0
Returns R p =
    (r : ℤ × Device) × (bytes : List ℕ) × (p.0 ≡ some (r.0, r.1, bytes)) × R (last_token p.1) r

module _ (c : Controller) (s : Statics) where
  open c use {State}

  -- the memory that the schedule is built in
  abbrev headed : Device → ℕ → ℕ → Memory → Memory
  headed dev parent pipe m = fill_qh s dev parent pipe (ehci_alloc qh_size m).1

  prepare-found :
      (dev : Device) (parent pipe buf len : ℕ) (req : Option DevRequest) (e : Ehci State)
      → BufferFits s buf len
      → ((prepare c s dev parent pipe buf len req e).0
          ≡ some (some (length (stages s dev pipe buf len req) - 1)))
        × IsLinked s (prepare c s dev parent pipe buf len req e).1.memory
  unfolding prepare ehci_alloc fill_qh
  prepare-found dev parent pipe buf len req e fits =
      let m = headed dev parent pipe e.memory in
      let (result, seen') = build_tds-stages s dev pipe buf len m req fits in
      (result, linked_of_seen _ _ seen')

  module _ (R : ℕ → ℤ × Device → Type 0) (dev : Device) (pipe : ℕ) (buffer : Buffer) (len : ℕ)
      (req : Option DevRequest)
      (run : (td : ℕ) (e : Ehci State)
        → IsLinked s e.memory
        → (r : ℤ × Device) × ((run_schedule c s dev pipe len td e).0 ≡ some r)
          × R (last_token (run_schedule c s dev pipe len td e).1) r)
      (fits : BufferFits s (buffer.addr) len) where
    submit_behind-Returns :
        (parent : ℕ) (e : Ehci State)
        → Returns R (submit_behind c s parent dev pipe buffer len req e)
    unfolding submit_behind
    submit_behind-Returns parent e =
        let e' : Ehci State = record e {
          memory = record (e.memory) { buffer = buffer.bytes; setup = req };
        } in
        let (tdp, linked) = prepare-found dev parent pipe (buffer.addr) len req e' fits in
        let td = length (stages s dev pipe (buffer.addr) len req) - 1 in
        let prepared = prepare c s dev parent pipe (buffer.addr) len req e' in
        let (r, comes, told) = run td prepared.1 linked in
        (
          r,
          (run_schedule c s dev pipe len td prepared.1).1.memory.buffer,
          rw (tdp, comes),
          rw (tdp, comes) told,
        )

    -- What holds of every run of a linked schedule holds of the whole transfer, if the parent is known.
    pub ehci_submit_async-Returns :
        (devs : List Device) (parent : ℕ) (e : Ehci State)
        → parent_devnum devs dev ≡ some parent
        → Returns R (ehci_submit_async c s devs dev pipe buffer len req e)
    unfolding ehci_submit_async
    ehci_submit_async-Returns devs parent e known =
        rw (known, ehci_submit_async) (submit_behind-Returns parent e)

  -- `ehci_submit_async` always returns, whatever the controller does with the registers and however
  -- long it takes: a transfer that is not processed yet, to a device with a known parent, whose bytes
  -- fit the descriptors, is given up, timed out or retired, the latter two by the token that is left in
  -- the overlay. The controller must keep the links.
  pub ehci_submit_async-Ended :
      KeepsLinks c s
      → (devs : List Device) (dev : Device) (pipe parent : ℕ) (buffer : Buffer) (len : ℕ)
        (req : Option DevRequest) (e : Ehci State)
      → parent_devnum devs dev ≡ some parent
      → BufferFits s (buffer.addr) len
      → dev.status ≡ usb_st_not_proc
      → Returns
          (λ token. Ended token dev pipe len)
          (ehci_submit_async c s devs dev pipe buffer len req e)
  ehci_submit_async-Ended keeps devs dev pipe parent buffer len req e known fits fresh =
      ehci_submit_async-Returns (λ token. Ended token dev pipe len) dev pipe buffer len req
        (λ td e' linked. run_schedule-Ended c s keeps dev pipe len td e' linked fresh) fits devs
        parent e known
