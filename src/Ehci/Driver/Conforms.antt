-- ===== src/Ehci/Driver/Conforms.antt =====
-- The driver is one that usb.c can keep its device table over.
use pure_usb.Prelude.{
  ℕ, ◌==◌, ◌≡◌, refl, ℤ, minus_one, List, none, some, get_elem?, Bool-cases, inl, inr, arith,
}
use mathlib.Core.Path.{subst}
use pure_usb.Defs.{pipe_bulk, pipe_control}
use pure_usb.Device.{Device, DevRequest, Buffer}
use pure_usb.Host.{Completion}
use pure_usb.Pipe.{usb_pipetype, usb_pipedevice}
use pure_usb.Usb.Table.{Updates, Updates-refl, Updates-trans, Updates-if, Conforms}
use pure_usb.Ehci.{Controller, Ehci, E}
use pure_usb.Ehci.Schedule.{Statics}
use pure_usb.Ehci.Async.Updates.{ehci_submit_async-Updates}
use pure_usb.Ehci.RootHub.Updates.{ehci_submit_root-Updates}
use pure_usb.Ehci.Driver.{
  Submitted, submit_bulk_msg, submit_control_msg, completion, on_device, high_speed, ehci_host,
}

module _ (c : Controller) (s : Statics) where
  open c use {State}

  high_speed-Updates : (rootdev : ℕ) (d : Device) → Updates d (high_speed c s rootdev d)
  high_speed-Updates rootdev d =
      Updates-if (rootdev == 0) d _ _ (record { parent = refl; children = refl; same_sizes = refl })
        (Updates-refl d)

  -- the device that is put back at its index
  completion-Updates :
      (d : Device) (p : Submitted × Ehci State) (done : Completion (Ehci State))
      → ((r : ℤ × Device × List ℕ) → p.0 ≡ some r → Updates d r.1)
      → completion c s p ≡ some done
      → Updates d done.dev
  completion-Updates d (none, e) done up same = cc
  completion-Updates d (some (ret, d', bytes), e) done up same =
      subst (λ (x : Completion (Ehci State)). Updates d x.dev)
        {x = record { ret = ret; dev = d'; bytes = bytes; host = e }} {y = done}
        (ground (arith, same)) (up (ret, d', bytes) refl)

  on_device-Updates :
      (devs : List Device) (dev : ℕ) (submit : Device → E State Submitted) (e : Ehci State)
      (d : Device) (done : Completion (Ehci State))
      → ((r : ℤ × Device × List ℕ) → (submit d e).0 ≡ some r → Updates d r.1)
      → get_elem? devs dev ≡ some d
      → on_device c s devs dev submit e ≡ some done
      → Updates d done.dev
  on_device-Updates devs dev submit e d done up here same =
      completion-Updates d (submit d e) done up (ground (arith, here, same))

  control-Updates :
      (devs : List Device) (d : Device) (pipe : ℕ) (buffer : Buffer) (len : ℕ) (setup : DevRequest)
      (e : Ehci State) (r : ℤ × Device × List ℕ)
      → (submit_control_msg c s devs d pipe buffer len setup e).0 ≡ some r
      → Updates d r.1
  unfolding submit_control_msg
  control-Updates devs d pipe buffer len setup e r same =
      elim (Bool-cases (usb_pipetype pipe == pipe_control)) [
        | inl control ↦ elim (Bool-cases (usb_pipedevice pipe == e.rootdev)) [
          | inl root ↦ Updates-trans (high_speed-Updates (e.rootdev) d) (
              ehci_submit_root-Updates c (high_speed c s (e.rootdev) d) buffer len setup e r
                (ground (arith, control, root, same)))
          | inr other ↦
              ehci_submit_async-Updates c s devs d pipe buffer len (some setup) e r
                (ground (arith, control, other, same))
        ]
        | inr wrong ↦
            subst (λ (x : ℤ × Device × List ℕ). Updates d x.1) {x = (minus_one, d, buffer.bytes)}
              {y = r} (ground (arith, wrong, same)) (Updates-refl d)
      ]

  bulk-Updates :
      (devs : List Device) (d : Device) (pipe : ℕ) (buffer : Buffer) (len : ℕ) (e : Ehci State)
      (r : ℤ × Device × List ℕ)
      → (submit_bulk_msg c s devs d pipe buffer len e).0 ≡ some r
      → Updates d r.1
  unfolding submit_bulk_msg
  bulk-Updates devs d pipe buffer len e r same =
      elim (Bool-cases (usb_pipetype pipe == pipe_bulk)) [
        | inl bulk ↦
            ehci_submit_async-Updates c s devs d pipe buffer len none e r
              (ground (arith, bulk, same))
        | inr wrong ↦
            subst (λ (x : ℤ × Device × List ℕ). Updates d x.1) {x = (minus_one, d, buffer.bytes)}
              {y = r} (ground (arith, wrong, same)) (Updates-refl d)
      ]

  -- Whatever the controller does, a device that the driver gives back after a control or bulk
  -- transfer has the parent, the children and the array sizes of the one that it was given.
  pub ehci_host-Conforms : Conforms (ehci_host c s)
  ehci_host-Conforms = record {
    after_control = λ devs dev pipe len buffer setup e d done here same.
        on_device-Updates devs dev (λ x. submit_control_msg c s devs x pipe buffer len setup) e d
          done (λ r. control-Updates devs d pipe buffer len setup e r) here same;
    after_bulk = λ devs dev pipe len buffer e d done here same.
        on_device-Updates devs dev (λ x. submit_bulk_msg c s devs x pipe buffer len) e d done
          (λ r. bulk-Updates devs d pipe buffer len e r) here same;
  }
