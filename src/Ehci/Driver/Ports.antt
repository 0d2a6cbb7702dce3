-- ===== src/Ehci/Driver/Ports.antt =====
-- The port status requests of the hub driver in usb.c, answered by the root hub that ehci-hcd.c
-- emulates.
use pure_usb.Prelude.{
  ℕ, ◌≡◌, ◌∙◌, ◌≤◌, ◌==◌, refl, pos, true, List, some, length, set, get_elem?, arith,
  get_elem?-set_here,
}
use pure_usb.Defs.{usb_st_not_proc, pipe_control}
use pure_usb.Device.{Device, DevRequest, Buffer}
use pure_usb.Device.Bytes.{overlay_whole}
use pure_usb.Pipe.{usb_rcvctrlpipe, usb_pipetype, usb_pipedevice}
use pure_usb.Pipe.Fields.{PipeFits, create-decode}
use pure_usb.Usb.{World, get_dev}
use pure_usb.Usb.Hub.{usb_get_port_status}
use pure_usb.Usb.Message.{usb_control_msg, setup_packet_of}
use pure_usb.Usb.Message.Laws.{usb_control_msg-result}
use pure_usb.Ehci.{Controller, Ehci, ehci_readl, mdelay}
use pure_usb.Ehci.Regs.{or_portsc}
use pure_usb.Ehci.RootHub.{port_status}
use pure_usb.Ehci.RootHub.Answer.{
  status_request, port_register, answered, ehci_submit_root-port_status,
}
use pure_usb.Ehci.RootHub.Status.{Reports, port_status-Reports, length-port_status}
use pure_usb.Ehci.Schedule.{Statics}
use pure_usb.Ehci.Driver.{submit_control_msg, ehci_host, high_speed}

module _ (c : Controller) (s : Statics) where
  open c use {State}

  -- a control transfer to the root hub
  root_submit :
      (devs : List Device) (pipe port : ℕ) (buffer : Buffer) (setup : DevRequest) (e : Ehci State)
      (d : Device)
      → usb_pipetype pipe ≡ pipe_control
      → usb_pipedevice pipe ≡ e.rootdev
      → port ≤ 2
      → length buffer.bytes ≡ 4
      → setup ≡ status_request c port
      → (e' : Ehci State) × (submit_control_msg c s devs d pipe buffer 4 setup e ≡ (
        some (
          pos 0,
          answered c (high_speed c s e.rootdev d),
          port_status (port_register c port e) e.portreset port,
        ),
        e',
      ))
  unfolding submit_control_msg
  root_submit devs pipe port buffer setup e d control root h four asked =
      let reg = port_register c port e in
      let answer =
        ehci_submit_root-port_status c port (high_speed c s e.rootdev d) buffer e h (omega arith) in
      let whole =
        overlay_whole buffer.bytes (port_status reg e.portreset port)
          (omega (arith, length-port_status reg e.portreset port)) in
      let is_root : (usb_pipedevice pipe == e.rootdev) ≡ true = ground arith in
      (
        (mdelay c 1 (ehci_readl c (or_portsc port) e).1).1,
        ground (arith, control, is_root, asked, answer, whole),
      )

  -- the same in the host interface
  root_completion :
      (devs : List Device) (dev pipe port : ℕ) (buffer : Buffer) (setup : DevRequest)
      (e : Ehci State) {d : Device}
      → get_elem? devs dev ≡ some d
      → usb_pipetype pipe ≡ pipe_control
      → usb_pipedevice pipe ≡ e.rootdev
      → port ≤ 2
      → length buffer.bytes ≡ 4
      → setup ≡ status_request c port
      → (e' : Ehci State) × ((ehci_host c s).submit_control_msg devs dev pipe buffer 4 setup e
          ≡ some (record {
            ret = pos 0;
            dev = answered c (high_speed c s e.rootdev d);
            bytes = port_status (port_register c port e) e.portreset port;
            host = e';
          }))
  root_completion devs dev pipe port buffer setup e {d} at control root h four asked =
      let (e', submitted) = root_submit devs pipe port buffer setup e d control root h four asked in
      (e', ground (arith, at, submitted))

  usb_get_port_status-message :
      (dev port : ℕ) (buffer : Buffer) (w : World (Ehci State)) {d : Device}
      → get_elem? w.usb_dev dev ≡ some d
      → usb_get_port_status (ehci_host c s) dev port buffer w
        ≡ usb_control_msg (ehci_host c s) dev (usb_rcvctrlpipe d 0) 0 0xa3 0 port buffer 4 100 w
  unfolding usb_get_port_status get_dev
  usb_get_port_status-message dev port buffer w at = ground (arith, at)

  -- A port status request of the hub driver to the root hub, for a port up to 2 and into four bytes,
  -- returns 4 and bytes that report the port register as it reads then and the recorded resets. The
  -- root hub is the device whose number the driver was given; its fields fit a pipe.
  pub usb_get_port_status-Reports :
      (dev port : ℕ) (buffer : Buffer) (w : World (Ehci State)) {d : Device}
      → get_elem? w.usb_dev dev ≡ some d
      → PipeFits d 0
      → d.devnum ≡ w.host.rootdev
      → port ≤ 2
      → length buffer.bytes ≡ 4
      → (bytes : List ℕ) × (w' : World (Ehci State)) × (usb_get_port_status
            (ehci_host c s)
            dev
            port
            buffer
            w
          ≡ some ((pos 4, bytes), w'))
        × Reports bytes (port_register c port w.host) w.host.portreset port
  usb_get_port_status-Reports dev port buffer w {d} at fits root h four =
      let pipe = usb_rcvctrlpipe d 0 in
      let decodes = (create-decode pipe_control (omega arith) fits).1 in
      let d' : Device = record d { status = usb_st_not_proc } in
      let here = get_elem?-set_here w.usb_dev dev d' at in
      let (e', sub) =
        root_completion (set w.usb_dev dev d') dev pipe port buffer
          (setup_packet_of 0 0xa3 0 port 4) w.host here decodes.pipetype
          (omega (arith, decodes.pipedevice)) h four (ground arith) in
      let (host, done) =
        usb_control_msg-result (ehci_host c s) dev pipe 0 0xa3 0 port buffer 4 100 w at refl sub in
      (
        _,
        _,
        usb_get_port_status-message dev port buffer w at ∙ done,
        port_status-Reports (port_register c port w.host) w.host.portreset port,
      )
