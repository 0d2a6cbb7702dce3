-- ===== src/Usb/Message/Laws.antt =====
-- What the message functions return, in terms of how the driver completed the transfer.
use pure_usb.Prelude.{
  ℕ, zero, suc, ◌≡◌, refl, ◌==◌, ℤ, pos, minus_one, is_negative, true, false, not, ◌&&◌, inl, inr,
  List, none, some, set, get_elem?, if◌then◌else◌, has_bits, u16, arith, Bool-cases,
  get_elem?-set_here, set-set,
}
use pure_usb.Defs.{usb_st_not_proc}
use pure_usb.Device.{Device, Buffer}
use pure_usb.Host.{Host, Completion}
use pure_usb.Usb.{World, M, mdelay, wait_ms}
use pure_usb.Usb.Message.{
  setup_packet_of, wait_processed, control_finish, control_submitted, usb_control_msg, usb_bulk_msg,
  bulk_finish,
}

module _ (h : Host) where
  open h use {State}

  -- A pause that only lets time pass.
  abbrev pub Pauses : M State (Unit {0}) → Type 0
  Pauses pause = (w : World State) → (s : State) × (pause w ≡ some (tt, record w { host = s }))

  pub mdelay-Pauses : (ms : ℕ) → Pauses (mdelay h ms)
  unfolding mdelay
  mdelay-Pauses ms w = (h.mdelay ms w.host, refl)

  pub wait_ms-Pauses : (ms : ℕ) → Pauses (wait_ms h ms)
  unfolding wait_ms
  wait_ms-Pauses zero w = (w.host, refl)
  wait_ms-Pauses (suc ms) w = wait_ms-Pauses ms (record w { host = h.udelay 1000 w.host })

  -- Waiting ends whatever the status is, and changes no device.
  pub wait_processed-Pauses :
      (pause : M State (Unit {0}))
      → Pauses pause
      → (dev timeout : ℕ) (d : Device) (w : World State) → get_elem? w.usb_dev dev ≡ some d
      → (s : State) × (wait_processed h pause dev timeout w ≡ some (tt, record w { host = s }))
  unfolding wait_processed
  wait_processed-Pauses pause p dev zero d w e = (w.host, refl)
  wait_processed-Pauses pause p dev (suc timeout) d w e =
      let (s, paused) = p w in
      let (s', rest) = wait_processed-Pauses pause p dev timeout d (record w { host = s }) e in
      elim (Bool-cases (has_bits d.status usb_st_not_proc)) [
        | inl busy ↦ (s', ground (arith, e, busy, paused, rest))
        | inr done ↦ (w.host, ground (arith, e, done))
      ]

  -- what `usb_control_msg` returns for a transfer that the driver completed as `c`
  abbrev pub control_result : ℕ → ℕ → Completion State → ℤ
  control_result size timeout c =
      if is_negative c.ret
      then c.ret
      else if timeout == 0
      then pos (u16 size)
      else if c.dev.status == 0
      then c.dev.act_len
      else minus_one

  control_finish_lem :
      (dev timeout : ℕ) (bytes : List ℕ) (d : Device) (w : World State)
      → get_elem? w.usb_dev dev ≡ some d
      → (s : State) × (control_finish h dev timeout bytes w
          ≡ some (((if d.status == 0 then d.act_len else minus_one), bytes), record w { host = s }))
  unfolding control_finish
  control_finish_lem dev timeout bytes d w e =
      let (s, waited) = wait_processed-Pauses (mdelay h 1) (mdelay-Pauses 1) dev timeout d w e in
      (s, ground (arith, e, waited))

  control_submitted_lem :
      (dev size timeout : ℕ) (c : Completion State) (w : World State)
      → get_elem? w.usb_dev dev ≡ some c.dev
      → (s : State) × (control_submitted h dev size timeout (c.ret, c.bytes) w
          ≡ some ((control_result size timeout c, c.bytes), record w { host = s }))
  unfolding control_submitted
  control_submitted_lem dev size timeout c w e = elim (Bool-cases (is_negative c.ret)) [
    | inl failed ↦ (w.host, rw failed)
    | inr fine ↦ elim (Bool-cases (timeout == 0)) [
      | inl now ↦ (w.host, rw (fine, now))
      | inr later ↦
          let (s, finished) = control_finish_lem dev timeout c.bytes c.dev w e in
          (s, rw (fine, later) finished)
    ]
  ]

  -- `usb_control_msg` stores the completed transfer's device and buffer and returns the driver's
  -- error, or the size asked for if it does not wait, or the transferred length if the device's
  -- status is clear, and -1 otherwise; nothing else changes but the setup packet and the driver's
  -- own state. This needs a device at `dev`, and that a call with no timeout is allowed.
  pub usb_control_msg-result :
      (dev pipe request requesttype value index : ℕ) (buffer : Buffer) (size timeout : ℕ)
      (w : World State) {d : Device} {c : Completion State}
      → get_elem? w.usb_dev dev ≡ some d
      → ((timeout == 0) && not w.asynch_allowed) ≡ false
      → h.submit_control_msg
          (set w.usb_dev dev (record d { status = usb_st_not_proc }))
          dev
          pipe
          buffer
          (u16 size)
          (setup_packet_of request requesttype value index size)
          w.host
        ≡ some c
      → (s : State) × (usb_control_msg h dev pipe request requesttype value index buffer size
            timeout w
          ≡ some (
            (control_result size timeout c, c.bytes),
            record w {
              usb_dev = set w.usb_dev dev c.dev;
              setup_packet = setup_packet_of request requesttype value index size;
              host = s;
            },
          ))
  unfolding usb_control_msg
  usb_control_msg-result dev pipe request requesttype value index buffer size timeout w {d} {c} e ok
        sub =
      let packet = setup_packet_of request requesttype value index size in
      let w' : World State = record w {
        usb_dev = set w.usb_dev dev c.dev;
        setup_packet = packet;
        host = c.host;
      } in
      let (s, done) =
        control_submitted_lem dev size timeout c w' (get_elem?-set_here w.usb_dev dev c.dev e) in
      (
        s,
        ground (
          arith,
          e,
          ok,
          sub,
          done,
          set-set w.usb_dev dev (record d { status = usb_st_not_proc }) c.dev,
        ),
      )

  bulk_finish_lem :
      (dev timeout : ℕ) (bytes : List ℕ) (d : Device) (w : World State)
      → get_elem? w.usb_dev dev ≡ some d
      → (s : State) × (bulk_finish h dev timeout bytes w
          ≡ some (
            ((if d.status == 0 then minus_one else pos 0), some d.act_len, bytes),
            record w { host = s },
          ))
  unfolding bulk_finish
  bulk_finish_lem dev timeout bytes d w e =
      let (s, waited) = wait_processed-Pauses (wait_ms h 1) (wait_ms-Pauses 1) dev timeout d w e in
      (s, ground (arith, e, waited))

  -- When the driver completes a bulk transfer without an error of its own, `usb_bulk_msg` delivers
  -- the transferred length, and returns -1 if the device's status is clear and 0 if it reports an
  -- error.
  pub usb_bulk_msg-result :
      (dev pipe : ℕ) (buffer : Buffer) (len timeout : ℕ) (w : World State) {d : Device}
      {c : Completion State}
      → get_elem? w.usb_dev dev ≡ some d
      → h.submit_bulk_msg
          (set w.usb_dev dev (record d { status = usb_st_not_proc }))
          dev
          pipe
          buffer
          len
          w.host
        ≡ some c
      → is_negative c.ret ≡ false
      → (s : State) × (usb_bulk_msg h dev pipe buffer len timeout w
          ≡ some (
            ((if c.dev.status == 0 then minus_one else pos 0), some c.dev.act_len, c.bytes),
            record w { usb_dev = set w.usb_dev dev c.dev; host = s },
          ))
  unfolding usb_bulk_msg
  usb_bulk_msg-result dev pipe buffer len timeout w {d} {c} e sub fine =
      let w' : World State = record w { usb_dev = set w.usb_dev dev c.dev; host = c.host } in
      let (s, done) =
        bulk_finish_lem dev timeout c.bytes c.dev w' (get_elem?-set_here w.usb_dev dev c.dev e) in
      (
        s,
        ground (
          arith,
          e,
          sub,
          fine,
          done,
          set-set w.usb_dev dev (record d { status = usb_st_not_proc }) c.dev,
        ),
      )

  -- the driver's error, passed on
  pub usb_bulk_msg-failed :
      (dev pipe : ℕ) (buffer : Buffer) (len timeout : ℕ) (w : World State) {d : Device}
      {c : Completion State}
      → get_elem? w.usb_dev dev ≡ some d
      → h.submit_bulk_msg
          (set w.usb_dev dev (record d { status = usb_st_not_proc }))
          dev
          pipe
          buffer
          len
          w.host
        ≡ some c
      → is_negative c.ret ≡ true
      → usb_bulk_msg h dev pipe buffer len timeout w
        ≡ some
            ((c.ret, none, c.bytes), record w { usb_dev = set w.usb_dev dev c.dev; host = c.host })
  unfolding usb_bulk_msg
  usb_bulk_msg-failed dev pipe buffer len timeout w {d} {c} e sub bad =
      ground
        (arith, e, sub, bad, set-set w.usb_dev dev (record d { status = usb_st_not_proc }) c.dev)
