-- ===== src/Ehci/Driver/Returns.antt =====
-- The messages of usb.c to the root hub that ehci-hcd.c emulates always return.
use pure_usb.Prelude.{
  ℕ, zero, suc, ◌==◌, ◌≡◌, ◌≤◌, refl, ℤ, pos, is_negative, minus_one, true, false, not, ◌&&◌, List,
  some, length, set, get_elem?, get_elem?-set_here, u16, Bool-cases, inl, inr, if◌then◌else◌, arith,
}
use pure_usb.Defs.{usb_st_not_proc, pipe_control}
use pure_usb.Device.{Device, DevRequest, Buffer}
use pure_usb.Pipe.{usb_pipetype, usb_pipedevice}
use pure_usb.Usb.{World, M, get_dev, mdelay, udelay, wait_ms}
use pure_usb.Usb.Keeps.{Any}
use pure_usb.Usb.Runs.{Runs, Runs-done, Runs-if, Runs-then, Runs-bind, Runs-pure, Runs-forget}
use pure_usb.Usb.Message.{
  setup_packet_of, wait_processed, control_finish, control_submitted, usb_control_msg,
}
use pure_usb.Ehci.{Controller, Ehci}
use pure_usb.Ehci.Schedule.{Statics}
use pure_usb.Ehci.RootHub.Address.{HasAddress, request_type}
use pure_usb.Ehci.RootHub.Reply.{IsAt, replied-IsAt, Replied, ehci_submit_root-Replied}
use pure_usb.Ehci.Driver.{submit_control_msg, high_speed, ehci_host}

module _ (c : Controller) (s : Statics) (a dev : ℕ) where
  open c use {State}

  -- The device is the root hub, at the address where the driver answers.
  pub record IsRoot (w : World (Ehci State)) : Type 0 where
    pub device : Device
    pub there : get_elem? w.usb_dev dev ≡ some device
    pub at_address : IsAt a device
    pub answers : HasAddress c a w.host

  high_speed-IsAt : (rootdev : ℕ) (d : Device) → IsAt a d → IsAt a (high_speed c s rootdev d)
  high_speed-IsAt rootdev d i = elim (Bool-cases (rootdev == 0)) [
    | inl unaddressed ↦ rw unaddressed (record {
      fits = record {
        devnum_fits = i.fits.devnum_fits;
        endpoint_fits = i.fits.endpoint_fits;
        speed_fits = omega arith;
        size_fits = i.fits.size_fits;
      };
      number = i.number;
    })
    | inr addressed ↦ rw addressed i
  ]

  status-IsAt : (d : Device) (status : ℕ) → IsAt a d → IsAt a (record d { status = status })
  status-IsAt d status i = replied-IsAt a d d.act_len status i

  -- the control transfer itself
  submit-Replied :
      (devs : List Device) (d : Device) (pipe : ℕ) (buffer : Buffer) (len : ℕ) (setup : DevRequest)
      (e : Ehci State)
      → usb_pipetype pipe ≡ pipe_control
      → usb_pipedevice pipe ≡ a
      → IsAt a d
      → len ≤ length buffer.bytes
      → HasAddress c a e
      → (request_type setup == 0x0005) ≡ false
      → Replied c a buffer (submit_control_msg c s devs d pipe buffer len setup e)
  unfolding submit_control_msg
  submit-Replied devs d pipe buffer len setup e control to_root i h p other =
      let (r, returns, at, size, kept) =
        ehci_submit_root-Replied c a (high_speed c s e.rootdev d) buffer len setup e
          (high_speed-IsAt e.rootdev d i) h p other in
      let is_control : (usb_pipetype pipe == pipe_control) ≡ true = ground (arith, control) in
      let is_root : (usb_pipedevice pipe == e.rootdev) ≡ true = ground (arith, to_root, p) in
      rw is_control (rw is_root (r, returns, at, size, kept))

  pub get_dev-Runs : Runs IsRoot (get_dev dev) (λ d. IsAt a d)
  unfolding get_dev
  get_dev-Runs = record { at = λ w i. (i.device, w, ground (arith, i.there), i, i.at_address) }

  mdelay-Runs : (ms : ℕ) → Runs IsRoot (mdelay (ehci_host c s) ms) Any
  unfolding mdelay
  mdelay-Runs ms = record {
    at = λ w i. (
      tt,
      _,
      refl,
      record { device = i.device; there = i.there; at_address = i.at_address; answers = i.answers },
      tt,
    );
  }

  udelay-Runs : (us : ℕ) → Runs IsRoot (udelay (ehci_host c s) us) Any
  unfolding udelay
  udelay-Runs us = record {
    at = λ w i. (
      tt,
      _,
      refl,
      record { device = i.device; there = i.there; at_address = i.at_address; answers = i.answers },
      tt,
    );
  }

  pub wait_ms-Runs : (ms : ℕ) → Runs IsRoot (wait_ms (ehci_host c s) ms) Any
  unfolding wait_ms
  wait_ms-Runs zero = Runs-done tt
  wait_ms-Runs (suc ms) = Runs-then _ _ (udelay-Runs 1000) λ u. wait_ms-Runs ms

  wait_processed-Runs :
      (pause : M (Ehci State) (Unit {0})) (timeout : ℕ)
      → Runs IsRoot pause Any
      → Runs IsRoot (wait_processed (ehci_host c s) pause dev timeout) Any
  unfolding control_finish
  wait_processed-Runs pause zero k = Runs-done tt
  wait_processed-Runs pause (suc timeout) k =
      Runs-then _ _ (Runs-forget get_dev-Runs)
        λ d. Runs-if _ _ _ (Runs-then _ _ k λ u. wait_processed-Runs pause timeout k) (Runs-done tt)

  control_finish-Runs :
      (timeout n : ℕ) (bytes : List ℕ)
      → length bytes ≡ n
      → Runs IsRoot (control_finish (ehci_host c s) dev timeout bytes) (λ x. length x.1 ≡ n)
  unfolding control_finish
  control_finish-Runs timeout n bytes same =
      Runs-then _ _ (wait_processed-Runs (mdelay (ehci_host c s) 1) timeout (mdelay-Runs 1)) λ u.
        Runs-bind _ _ get_dev-Runs
          λ d i. Runs-pure ((if d.status == 0 then d.act_len else minus_one), bytes) same

  control_submitted-Runs :
      (size timeout n : ℕ) (r : ℤ × List ℕ)
      → length r.1 ≡ n
      → Runs IsRoot (control_submitted (ehci_host c s) dev size timeout r) (λ x. length x.1 ≡ n)
  unfolding usb_control_msg
  control_submitted-Runs size timeout n (ret, bytes) same =
      Runs-if (is_negative ret) _ _ (Runs-pure (ret, bytes) same) (
        Runs-if (timeout == 0) _ _ (Runs-pure (pos (u16 size), bytes) same)
          (control_finish-Runs timeout n bytes same))

  -- A control message on the root hub's control pipe, other than SET_ADDRESS.
  pub usb_control_msg-Runs :
      (pipe request requesttype value index : ℕ) (buffer : Buffer) (size timeout : ℕ)
      → usb_pipetype pipe ≡ pipe_control
      → usb_pipedevice pipe ≡ a
      → u16 size ≤ length buffer.bytes
      → (request_type (setup_packet_of request requesttype value index size) == 0x0005) ≡ false
      → Runs IsRoot
          (usb_control_msg
            (ehci_host c s)
            dev
            pipe
            request
            requesttype
            value
            index
            buffer
            size
            timeout)
          (λ x. length x.1 ≡ length buffer.bytes)
  unfolding usb_control_msg
  usb_control_msg-Runs pipe request requesttype value index buffer size timeout control to_root room
        other =
      record {
        at = λ w i. elim (Bool-cases ((timeout == 0) && not w.asynch_allowed)) [
          | inl refused ↦ ((minus_one, buffer.bytes), w, ground (arith, refused), i, refl)
          | inr allowed ↦
              let setup = setup_packet_of request requesttype value index size in
              let d : Device = record (i.device) { status = usb_st_not_proc } in
              let devs = set w.usb_dev dev d in
              let here : get_elem? devs dev ≡ some d = get_elem?-set_here w.usb_dev dev d i.there in
              let p = submit_control_msg c s devs d pipe buffer (u16 size) setup w.host in
              let (r, returns, at, same, kept) =
                submit-Replied devs d pipe buffer (u16 size) setup w.host control to_root
                  (status-IsAt i.device usb_st_not_proc i.at_address) room i.answers other in
              let w1 : World (Ehci State) = record w {
                usb_dev = set devs dev r.1;
                setup_packet = setup;
                host = p.1;
              } in
              let i1 : IsRoot w1 = record {
                device = r.1;
                there = get_elem?-set_here devs dev r.1 here;
                at_address = at;
                answers = kept;
              } in
              let (x, w2, done, i2, q) =
                (control_submitted-Runs size timeout (length buffer.bytes) (r.0, r.2) same).at w1
                  i1 in
              (x, w2, ground (arith, allowed, i.there, here, returns, done), i2, q)
        ];
      }
