-- ===== src/Ehci/Driver/Transfers.antt =====
-- usb_bulk_msg and usb_control_msg of usb.c on top of the driver: from the message to its result.
use pure_usb.Prelude.{
  ℕ, ◌≡◌, ◌≢◌, ◌==◌, refl, ℤ, pos, minus_one, is_negative, sub_ℕ, false, not, ◌&&◌, true, ◌⊎◌, inl,
  inr, List, Option, none, some, set, get_elem?, if◌then◌else◌, bit_and, has_bits, shr, u16, arith,
  get_elem?-set_here,
}
use mathlib.Core.Path.{subst}
use pure_usb.Defs.{usb_st_not_proc, pipe_bulk, pipe_control}
use pure_usb.Device.{Device, DevRequest, Buffer}
use pure_usb.Host.{Completion}
use pure_usb.Pipe.{usb_pipetype, usb_pipedevice}
use pure_usb.Usb.{World}
use pure_usb.Usb.Message.{usb_bulk_msg, usb_control_msg, setup_packet_of}
use pure_usb.Usb.Message.Laws.{usb_bulk_msg-result, usb_bulk_msg-failed, usb_control_msg-result}
use pure_usb.Ehci.{Controller, Ehci}
use pure_usb.Ehci.Schedule.{Statics}
use pure_usb.Ehci.Schedule.Build.Stages.{BufferFits}
use pure_usb.Ehci.Async.{parent_devnum, token_status, retire, ehci_submit_async}
use pure_usb.Ehci.Async.Run.{Ended, last_token, given_up, timed_out, retired, KeepsLinks}
use pure_usb.Ehci.Async.Submit.{ehci_submit_async-Ended}
use pure_usb.Ehci.Driver.{submit_bulk_msg, submit_control_msg, ehci_host, completion, Submitted}

-- How a bulk message of `len` bytes ends that leaves this token in the overlay: it fails, with no length
-- told, or the token is not active and tells both.
pub data BulkEnds (token len : ℕ) : ℤ × Option ℤ × List ℕ → Type 0 where
  failed : (bytes : List ℕ) → BulkEnds token len (minus_one, none, bytes)
  transferred :
      (bytes : List ℕ)
      → has_bits token 0x80 ≡ false
      → BulkEnds token len (
        (if token_status token == 0 then minus_one else pos 0),
        some (sub_ℕ len (bit_and (shr token 16) 0x7fff)),
        bytes,
      )

-- How a control message of `len` bytes ends that waits and leaves this token in the overlay: it fails, or
-- the token is not active and has no error and tells the length, or has one.
pub data ControlEnds (token len : ℕ) : ℤ × List ℕ → Type 0 where
  failed : (bytes : List ℕ) → ControlEnds token len (minus_one, bytes)
  transferred :
      (bytes : List ℕ)
      → has_bits token 0x80 ≡ false
      → ControlEnds token len (
        (if token_status token == 0 then sub_ℕ len (bit_and (shr token 16) 0x7fff) else minus_one),
        bytes,
      )

abbrev pub unprocessed : Device → Device
unprocessed d = record d { status = usb_st_not_proc }

-- the driver's state after the transfer of a message to the device `d` at `dev`
abbrev pub submitted :
    (c : Controller)
    → Statics
    → ℕ
    → ℕ
    → Buffer
    → ℕ
    → Option DevRequest
    → Device
    → World (Ehci c.State)
    → Ehci c.State
submitted c s dev pipe buffer len req d w =
    (ehci_submit_async c s (set w.usb_dev dev (unprocessed d)) (unprocessed d) pipe buffer len req
      w.host).1

retire-status :
    (token pipe len : ℕ) (d : Device)
    → has_bits token 0x80 ≡ false
    → (retire token pipe len d).status ≡ token_status token
unfolding retire
retire-status token pipe len d over = ground (arith, over)

retire-act_len :
    (token pipe len : ℕ) (d : Device)
    → has_bits token 0x80 ≡ false
    → (retire token pipe len d).act_len ≡ sub_ℕ len (bit_and (shr token 16) 0x7fff)
unfolding retire
retire-act_len token pipe len d over = ground (arith, over)

-- what a transfer that is retired, timed out or given up is to `usb_bulk_msg`
bulk_result-Ended :
    (token : ℕ) (d : Device) (pipe len : ℕ) (r : ℤ × Device) (bytes : List ℕ)
    → Ended token d pipe len r
    → ((is_negative r.0 ≡ true) × BulkEnds token len (r.0, none, bytes))
      ⊎ ((is_negative r.0 ≡ false)
          × BulkEnds token len
              ((if r.1.status == 0 then minus_one else pos 0), some r.1.act_len, bytes))
bulk_result-Ended token d pipe len r bytes given_up = inl (refl, BulkEnds.failed bytes)
bulk_result-Ended token d pipe len r bytes (timed_out active) = inl (refl, BulkEnds.failed bytes)
bulk_result-Ended token d pipe len r bytes (retired over) =
    let told = retire-status token pipe len d over in
    let counted = retire-act_len token pipe len d over in
    inr (
      refl,
      subst (λ (x : ℤ × Option ℤ × List ℕ). BulkEnds token len x) (cc)
          (BulkEnds.transferred bytes over),
    )

-- and to `usb_control_msg`
control_result-Ended :
    (token : ℕ) (d : Device) (pipe len : ℕ) (r : ℤ × Device) (bytes : List ℕ)
    → Ended token d pipe len r
    → ControlEnds token len (
      (if is_negative r.0 then r.0 else if r.1.status == 0 then r.1.act_len else minus_one),
      bytes,
    )
control_result-Ended token d pipe len r bytes given_up = ControlEnds.failed bytes
control_result-Ended token d pipe len r bytes (timed_out active) = ControlEnds.failed bytes
control_result-Ended token d pipe len r bytes (retired over) =
    let told = retire-status token pipe len d over in
    let counted = retire-act_len token pipe len d over in
    subst (λ (x : ℤ × List ℕ). ControlEnds token len x) (cc) (ControlEnds.transferred bytes over)

module _ (c : Controller) (s : Statics) (keeps : KeepsLinks c s) where
  open c use {State}

  abbrev completed : ℤ × Device → List ℕ → Ehci State → Completion (Ehci State)
  completed r bytes e = record { ret = r.0; dev = r.1; bytes = bytes; host = e }

  completion-some :
      (p : Submitted × Ehci State) (r : ℤ × Device) (bytes : List ℕ)
      → p.0 ≡ some (r.0, r.1, bytes)
      → completion c s p ≡ some (completed r bytes p.1)
  completion-some (none, e) r bytes h = cc
  completion-some (some (ret, dev, left), e) r bytes h = ground (arith, h)

  -- a bulk transfer that the driver is given for the device at `dev`
  bulk_completion :
      (devs : List Device) (dev pipe len : ℕ) (buffer : Buffer) (e : Ehci State) {d : Device}
      (r : ℤ × Device) (bytes : List ℕ)
      → get_elem? devs dev ≡ some d
      → usb_pipetype pipe ≡ pipe_bulk
      → (ehci_submit_async c s devs d pipe buffer len none e).0 ≡ some (r.0, r.1, bytes)
      → (e' : Ehci State) × ((ehci_host c s).submit_bulk_msg devs dev pipe buffer len e
          ≡ some (completed r bytes e'))
  unfolding submit_bulk_msg
  bulk_completion devs dev pipe len buffer e {d} r bytes at bulk comes =
      let p = ehci_submit_async c s devs d pipe buffer len none e in
      let h = completion-some p r bytes comes in (p.1, ground (arith, at, bulk, h))

  -- A bulk message over this driver always returns, if the controller keeps the links, the device is
  -- there and has a known parent, the pipe is a bulk pipe and the bytes fit the descriptors. It fails
  -- with -1 and no length, or the token that the transfer has left in the overlay is not active and tells
  -- the length, and a token without an error gives -1 and one with an error 0.
  pub usb_bulk_msg-ends :
      (dev pipe len timeout : ℕ) (buffer : Buffer) (w : World (Ehci State)) {d : Device}
      {parent : ℕ}
      → get_elem? w.usb_dev dev ≡ some d
      → parent_devnum (set w.usb_dev dev (unprocessed d)) (unprocessed d) ≡ some parent
      → usb_pipetype pipe ≡ pipe_bulk
      → BufferFits s (buffer.addr) len
      → (r : ℤ × Option ℤ × List ℕ) × (w' : World (Ehci State)) × (usb_bulk_msg
            (ehci_host c s)
            dev
            pipe
            buffer
            len
            timeout
            w
          ≡ some (r, w'))
        × BulkEnds (last_token (submitted c s dev pipe buffer len none d w)) len r
  usb_bulk_msg-ends dev pipe len timeout buffer w {d} {parent} at known bulk fits =
      let (r, bytes, comes, ended) =
        ehci_submit_async-Ended c s keeps _ (unprocessed d) pipe parent buffer len none w.host known
          fits refl in
      let here = get_elem?-set_here w.usb_dev dev (unprocessed d) at in
      let (e', sub) = bulk_completion _ dev pipe len buffer w.host r bytes here bulk comes in
      elim (bulk_result-Ended _ (unprocessed d) pipe len r bytes ended) [
        | inl (bad, ends) ↦ (
          _,
          _,
          usb_bulk_msg-failed (ehci_host c s) dev pipe buffer len timeout w at sub bad,
          ends,
        )
        | inr (fine, ends) ↦
            let (host, done) =
              usb_bulk_msg-result (ehci_host c s) dev pipe buffer len timeout w at sub fine in
            (_, _, done, ends)
      ]

  -- a control transfer to another device than the root hub
  control_completion :
      (devs : List Device) (dev pipe len : ℕ) (buffer : Buffer) (setup : DevRequest)
      (e : Ehci State) {d : Device} (r : ℤ × Device) (bytes : List ℕ)
      → get_elem? devs dev ≡ some d
      → usb_pipetype pipe ≡ pipe_control
      → usb_pipedevice pipe ≢ e.rootdev
      → (ehci_submit_async c s devs d pipe buffer len (some setup) e).0 ≡ some (r.0, r.1, bytes)
      → (e' : Ehci State) × ((ehci_host c s).submit_control_msg devs dev pipe buffer len setup e
          ≡ some (completed r bytes e'))
  unfolding submit_control_msg
  control_completion devs dev pipe len buffer setup e {d} r bytes at control other comes =
      let p = ehci_submit_async c s devs d pipe buffer len (some setup) e in
      let h = completion-some p r bytes comes in (p.1, ground (arith, at, control, other, h))

  -- A control message with a time-out over this driver always returns, if the controller keeps the
  -- links, the device is there, has a known parent and is not the root hub, the pipe is a control pipe
  -- and the bytes fit the descriptors. It fails with -1, or the token that the transfer has left in the
  -- overlay is not active, and it returns the length that the token tells if that has no error, and -1
  -- otherwise.
  pub usb_control_msg-ends :
      (dev pipe request requesttype value index size timeout : ℕ) (buffer : Buffer)
      (w : World (Ehci State)) {d : Device} {parent : ℕ}
      → get_elem? w.usb_dev dev ≡ some d
      → parent_devnum (set w.usb_dev dev (unprocessed d)) (unprocessed d) ≡ some parent
      → usb_pipetype pipe ≡ pipe_control
      → usb_pipedevice pipe ≢ w.host.rootdev
      → BufferFits s (buffer.addr) (u16 size)
      → (timeout == 0) ≡ false
      → (r : ℤ × List ℕ) × (w' : World (Ehci State)) × (usb_control_msg
            (ehci_host c s)
            dev
            pipe
            request
            requesttype
            value
            index
            buffer
            size
            timeout
            w
          ≡ some (r, w'))
        × ControlEnds
            (last_token (
              submitted c s dev pipe buffer
                (u16 size)
                (some (setup_packet_of request requesttype value index size))
                d
                w))
            (u16 size)
            r
  usb_control_msg-ends dev pipe request requesttype value index size timeout buffer w {d} {parent}
        at known control other fits waits =
      let setup = setup_packet_of request requesttype value index size in
      let (r, bytes, comes, ended) =
        ehci_submit_async-Ended c s keeps _ (unprocessed d) pipe parent buffer (u16 size)
          (some setup) w.host known fits refl in
      let here = get_elem?-set_here w.usb_dev dev (unprocessed d) at in
      let (e', sub) =
        control_completion _ dev pipe (u16 size) buffer setup w.host r bytes here control other
          comes in
      let allowed : ((timeout == 0) && not w.asynch_allowed) ≡ false = rw waits in
      let (host, done) =
        usb_control_msg-result (ehci_host c s) dev pipe request requesttype value index buffer size
          timeout w at allowed sub in
      (_, _, done, rw waits (control_result-Ended _ (unprocessed d) pipe (u16 size) r bytes ended))
