-- ===== src/Ehci/Driver/Hub.antt =====
-- The hub driver of usb.c over the root hub that ehci-hcd.c emulates.
use pure_usb.Prelude.{
  ℕ, zero, suc, ◌+◌, ◌*◌, ◌≡◌, ◌≤◌, refl, ℤ, is_negative, Bool, minus_one, length, arith,
}
use pure_usb.Defs.{usb_port_feat_power, usb_port_feat_reset, pipe_control}
use pure_usb.Device.{Buffer}
use pure_usb.Device.Bytes.{byte_at, le16_at}
use pure_usb.Device.Layout.{b_pwr_on_2_pwr_good}
use pure_usb.Pipe.{usb_sndctrlpipe, usb_rcvctrlpipe}
use pure_usb.Pipe.Fields.{create-decode}
use pure_usb.Usb.{M}
use pure_usb.Usb.Keeps.{Any}
use pure_usb.Usb.Runs.{Runs, Runs-done, Runs-then, Runs-bind, Runs-forget, runs_rules}
use pure_usb.Usb.Request.{null}
use pure_usb.Usb.Hub.{
  usb_get_hub_descriptor, usb_get_hub_status, usb_set_port_feature, usb_clear_port_feature,
  usb_get_port_status, power_ports, usb_hub_power_on, round_result, reset_tries, hub_port_reset,
}
use pure_usb.Ehci.{Controller, Ehci}
use pure_usb.Ehci.Schedule.{Statics}
use pure_usb.Ehci.Driver.{ehci_host}
use pure_usb.Ehci.Driver.Returns.{IsRoot, get_dev-Runs, wait_ms-Runs, usb_control_msg-Runs}

module _ (c : Controller) (s : Statics) (a dev : ℕ) where
  open c use {State}

  usb_set_port_feature-Runs :
      (port feature : ℕ)
      → Runs (IsRoot c s a dev) (usb_set_port_feature (ehci_host c s) dev port feature) Any
  unfolding usb_set_port_feature
  usb_set_port_feature-Runs port feature = Runs-bind _ _ (get_dev-Runs c s a dev) λ d i.
      let decodes = (create-decode pipe_control (omega arith) i.fits).0 in
      Runs-forget (
        usb_control_msg-Runs c s a dev (usb_sndctrlpipe d 0) 3 0x23 feature port null 0 100
          decodes.pipetype (omega (arith, decodes.pipedevice, i.number)) (omega arith) refl)

  usb_clear_port_feature-Runs :
      (port feature : ℕ)
      → Runs (IsRoot c s a dev) (usb_clear_port_feature (ehci_host c s) dev port feature) Any
  unfolding usb_clear_port_feature
  usb_clear_port_feature-Runs port feature = Runs-bind _ _ (get_dev-Runs c s a dev) λ d i.
      let decodes = (create-decode pipe_control (omega arith) i.fits).0 in
      Runs-forget (
        usb_control_msg-Runs c s a dev (usb_sndctrlpipe d 0) 1 0x23 feature port null 0 100
          decodes.pipetype (omega (arith, decodes.pipedevice, i.number)) (omega arith) refl)

  usb_get_port_status-Runs :
      (port : ℕ) (buffer : Buffer)
      → 4 ≤ length buffer.bytes
      → Runs
          (IsRoot c s a dev)
          (usb_get_port_status (ehci_host c s) dev port buffer)
          (λ r. length r.1 ≡ length buffer.bytes)
  unfolding usb_get_port_status
  usb_get_port_status-Runs port buffer room = Runs-bind _ _ (get_dev-Runs c s a dev) λ d i.
      let decodes = (create-decode pipe_control (omega arith) i.fits).1 in
      usb_control_msg-Runs c s a dev (usb_rcvctrlpipe d 0) 0 0xa3 0 port buffer 4 100
        decodes.pipetype (omega (arith, decodes.pipedevice, i.number)) (omega (arith, room)) refl

  usb_get_hub_descriptor-Runs :
      (buffer : Buffer) (size : ℕ)
      → size ≤ length buffer.bytes
      → Runs
          (IsRoot c s a dev)
          (usb_get_hub_descriptor (ehci_host c s) dev buffer size)
          (λ r. length r.1 ≡ length buffer.bytes)
  unfolding usb_get_hub_descriptor
  usb_get_hub_descriptor-Runs buffer size room = Runs-bind _ _ (get_dev-Runs c s a dev) λ d i.
      let decodes = (create-decode pipe_control (omega arith) i.fits).1 in
      usb_control_msg-Runs c s a dev (usb_rcvctrlpipe d 0) 6 0xa0 0x2900 0 buffer size 100
        decodes.pipetype (omega (arith, decodes.pipedevice, i.number)) (omega (arith, room)) refl

  usb_get_hub_status-Runs :
      (buffer : Buffer)
      → 4 ≤ length buffer.bytes
      → Runs
          (IsRoot c s a dev)
          (usb_get_hub_status (ehci_host c s) dev buffer)
          (λ r. length r.1 ≡ length buffer.bytes)
  unfolding usb_get_hub_status
  usb_get_hub_status-Runs buffer room = Runs-bind _ _ (get_dev-Runs c s a dev) λ d i.
      let decodes = (create-decode pipe_control (omega arith) i.fits).1 in
      usb_control_msg-Runs c s a dev (usb_rcvctrlpipe d 0) 0 0xa0 0 0 buffer 4 100 decodes.pipetype
        (omega (arith, decodes.pipedevice, i.number)) (omega (arith, room)) refl

  power_ports-Runs :
      (left i : ℕ) → Runs (IsRoot c s a dev) (power_ports (ehci_host c s) left i dev) Any
  unfolding usb_hub_power_on
  power_ports-Runs zero i = Runs-done tt
  power_ports-Runs (suc left) i =
      Runs-then _ _ (usb_set_port_feature-Runs (i + 1) usb_port_feat_power) λ r.
        Runs-then _ _ (Runs-forget (get_dev-Runs c s a dev)) λ d.
          Runs-then _ _ (wait_ms-Runs c s a dev (byte_at d.hubdescriptor b_pwr_on_2_pwr_good * 2))
            λ u. power_ports-Runs left (i + 1)

  usb_hub_power_on-Runs : Runs (IsRoot c s a dev) (usb_hub_power_on (ehci_host c s) dev) Any
  unfolding usb_hub_power_on
  usb_hub_power_on-Runs =
      Runs-then _ _ (Runs-forget (get_dev-Runs c s a dev)) λ d. power_ports-Runs d.maxchild 0

  round_result-Runs :
      (again : M (Ehci State) (ℤ × ℕ)) (port portstatus portchange : ℕ) (refused : Bool)
      → Runs (IsRoot c s a dev) again Any
      → Runs
          (IsRoot c s a dev)
          (round_result (ehci_host c s) again dev port portstatus portchange refused)
          Any
  unfolding hub_port_reset
  round_result-Runs again port portstatus portchange refused k =
      search (runs_rules, usb_clear_port_feature-Runs, wait_ms-Runs)

  reset_tries-Runs :
      (left port : ℕ) (portsts : Buffer)
      → 4 ≤ length portsts.bytes
      → Runs (IsRoot c s a dev) (reset_tries (ehci_host c s) left dev port portsts) Any
  unfolding hub_port_reset
  reset_tries-Runs zero port portsts room = Runs-done (minus_one, 0)
  reset_tries-Runs (suc left) port portsts room =
      Runs-then _ _ (usb_set_port_feature-Runs (port + 1) usb_port_feat_reset) λ r.
        Runs-then _ _ (wait_ms-Runs c s a dev 200) λ u.
          Runs-bind _ _ (usb_get_port_status-Runs (port + 1) portsts room) λ st same.
            round_result-Runs
              (reset_tries (ehci_host c s) left dev port (record portsts { bytes = st.1 })) port
              (le16_at st.1 0) (le16_at st.1 2) (is_negative st.0)
              (reset_tries-Runs left port (record portsts { bytes = st.1 })
                (omega (arith, room, same)))

  -- Over any controller, the request for the hub's descriptor into a buffer that is large enough, the
  -- request for its status into four bytes at least, the power-on of the root hub's ports, and the reset
  -- of any of its ports, with a status buffer of at least four bytes, always return. The requests leave
  -- the buffer's length as it is, and all leave the root hub at the address where the driver answers.
  -- The device's fields fit a pipe.
  pub hub_driver-Runs :
      (port size : ℕ) (buffer portsts : Buffer)
      → size ≤ length buffer.bytes
      → 4 ≤ length buffer.bytes
      → 4 ≤ length portsts.bytes
      → Runs
          (IsRoot c s a dev)
          (usb_get_hub_descriptor (ehci_host c s) dev buffer size)
          (λ r. length r.1 ≡ length buffer.bytes)
        × Runs
            (IsRoot c s a dev)
            (usb_get_hub_status (ehci_host c s) dev buffer)
            (λ r. length r.1 ≡ length buffer.bytes)
        × Runs (IsRoot c s a dev) (usb_hub_power_on (ehci_host c s) dev) Any
        × Runs (IsRoot c s a dev) (hub_port_reset (ehci_host c s) portsts dev port) Any
  unfolding hub_port_reset
  hub_driver-Runs port size buffer portsts fits room room' = (
    usb_get_hub_descriptor-Runs buffer size fits,
    usb_get_hub_status-Runs buffer room,
    usb_hub_power_on-Runs,
    reset_tries-Runs 5 port portsts room',
  )
