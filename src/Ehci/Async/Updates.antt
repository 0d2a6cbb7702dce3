-- ===== src/Ehci/Async/Updates.antt =====
-- The device that `ehci_submit_async` gives back has the links and the array sizes of the one it was given.
use pure_usb.Prelude.{
  ℕ, ◌==◌, ◌≡◌, refl, ℤ, pos, minus_one, List, Option, none, some, length-set, Option-cases, inl,
  inr, has_bits, bit_and, shr, arith,
}
use pure_usb.Device.{Device, DevRequest, Buffer}
use pure_usb.Pipe.{usb_settoggle, usb_pipeendpoint, usb_pipeout}
use mathlib.Core.Path.{subst}
use pure_usb.Usb.Table.{Updates, Updates-refl, Updates-trans, Updates-if}
use pure_usb.Ehci.{Controller, Ehci, E}
use pure_usb.Ehci.Yields.{Yields, Yields-then, Yields-return, yields_rules}
use pure_usb.Ehci.Schedule.{Statics}
use pure_usb.Ehci.Async.{
  retire, parent_devnum, look, release, fail, finish, switched_on, run_schedule, start_schedule,
  prepare, expose, submit_behind, ehci_submit_async, with_buffer,
}

settoggle-Updates : (d : Device) (ep out bit : ℕ) → Updates d (usb_settoggle d ep out bit)
unfolding usb_settoggle
settoggle-Updates d ep out bit = record {
  parent = refl;
  children = refl;
  same_sizes = simp length-set refl;
}

transferred-Updates :
    (d : Device) (status : ℕ) (act_len : ℤ)
    → Updates d (record d { status = status; act_len = act_len })
transferred-Updates d status act_len = record { parent = refl; children = refl; same_sizes = refl }

unfinished-Updates : (d : Device) → Updates d (record d { act_len = pos 0 })
unfinished-Updates d = record { parent = refl; children = refl; same_sizes = refl }

retire-Updates : (token pipe len : ℕ) (d : Device) → Updates d (retire token pipe len d)
unfolding retire
retire-Updates token pipe len d = Updates-if (has_bits token 0x80) d _ _ (unfinished-Updates d) (
    Updates-trans
      (Updates-if (bit_and token 0xfc == 0) d _ _
        (settoggle-Updates d (usb_pipeendpoint pipe) (usb_pipeout pipe) (shr token 31))
        (Updates-refl d))
      (transferred-Updates _ _ _))

-- A device that comes back, if one does, is `d` with other contents.
pub record Back (d : Device) (o : Option (ℤ × Device)) : Type 0 where
  pub updates : (r : ℤ × Device) → o ≡ some r → Updates d r.1

Back-none : (d : Device) → Back d none
Back-none d = record { updates = λ r e. cc }

Back-some : (d : Device) (ret : ℤ) (d' : Device) → Updates d d' → Back d (some (ret, d'))
Back-some d ret d' up = record {
  updates = λ r e.
      subst (λ (x : ℤ × Device). Updates d x.1) {x = (ret, d')} {y = r} (ground (arith, e)) up;
}

released-Back :
    (d : Device) (o : Option (Unit {0}))
    → Back d (elim o [ none ↦ none | some u ↦ some (minus_one, d) ])
released-Back d none = Back-none d
released-Back d (some u) = Back-some d minus_one d (Updates-refl d)

-- an action of the driver that gives such a device, from any state
abbrev Gives : {S : Type 0} → Device → E S (Option (ℤ × Device)) → Type 0
Gives d m = Yields m (λ o e. Back d o)

ruleset gives_rules = (yields_rules, Back-some, Back-none, released-Back, retire-Updates)

module _ (c : Controller) (s : Statics) where
  open c use {State}

  fail-Gives : (d : Device) → Gives d (fail c s d)
  unfolding fail
  fail-Gives d = Yields-then (look c s) _ λ m.
      Yields-then (release c s 4 m.qh.qh_overlay.qt_next) _
        λ released. Yields-return _ (λ e. released-Back d released)

  finish-Gives : (d : Device) (pipe len : ℕ) → Gives d (finish c s d pipe len)
  unfolding finish
  finish-Gives d pipe len = search gives_rules

  run_schedule-Gives : (d : Device) (pipe len td : ℕ) → Gives d (run_schedule c s d pipe len td)
  unfolding run_schedule switched_on
  run_schedule-Gives d pipe len td = search (gives_rules, fail-Gives, finish-Gives) depth 12

  start_schedule-Gives :
      (d : Device) (pipe len : ℕ) (tdp : Option (Option ℕ))
      → Gives d (start_schedule c s d pipe len tdp)
  start_schedule-Gives d pipe len none = fail-Gives d
  start_schedule-Gives d pipe len (some none) = search gives_rules
  start_schedule-Gives d pipe len (some (some td)) = run_schedule-Gives d pipe len td

  -- the same with the buffer's bytes
  with_buffer-Updates :
      (d : Device) (o : Option (ℤ × Device)) (e : Ehci State) (r : ℤ × Device × List ℕ)
      → Back d o
      → (with_buffer c s o e).0 ≡ some r
      → Updates d r.1
  with_buffer-Updates d none e r back same = cc
  with_buffer-Updates d (some (ret, d')) e r back same =
      subst (λ (x : ℤ × Device × List ℕ). Updates d x.1) {x = (ret, d', e.memory.buffer)} {y = r}
        (ground (arith, same)) (back.updates (ret, d') refl)

  -- The device that `ehci_submit_async` gives back has other contents only.
  pub ehci_submit_async-Updates :
      (devs : List Device) (d : Device) (pipe : ℕ) (buffer : Buffer) (len : ℕ)
      (req : Option DevRequest) (e : Ehci State) (r : ℤ × Device × List ℕ)
      → (ehci_submit_async c s devs d pipe buffer len req e).0 ≡ some r
      → Updates d r.1
  unfolding ehci_submit_async submit_behind
  ehci_submit_async-Updates devs d pipe buffer len req e r same =
      elim (Option-cases (parent_devnum devs d)) [
        | inl lost ↦ ground (arith, lost, same)
        | inr (parent, known) ↦
            let (u, e1) = expose c s buffer req e in
            let (tdp, e2) = prepare c s d parent pipe (buffer.addr) len req e1 in
            let (q, e3) = start_schedule c s d pipe len tdp e2 in
            with_buffer-Updates d q e3 r ((start_schedule-Gives d pipe len tdp).at e2)
              (ground (arith, known, same))
      ]
