-- ===== src/Usb/Message.antt =====
-- The message functions of usb.c: control and bulk transfers, submitted and awaited.
pub mod Laws
pub mod Table
use pure_usb.Prelude.{
  ℕ, zero, suc, ◌==◌, ℤ, pos, minus_one, is_negative, Bool, not, ◌&&◌, List, Option, none, some,
  set, if◌then◌else◌, has_bits, u8, u16,
}
use pure_usb.Defs.{usb_st_not_proc}
use pure_usb.Device.{Device, DevRequest, Buffer}
use pure_usb.Host.{Host, Completion}
use pure_usb.Usb.{World, M, pure, ◌>>=◌, ◌>>◌, get_dev, put_dev, mdelay, wait_ms}

-- the setup packet; the casts are those of the C function's parameter types
abbrev pub setup_packet_of : ℕ → ℕ → ℕ → ℕ → ℕ → DevRequest
setup_packet_of request requesttype value index size = record {
  requesttype = u8 requesttype;
  request = u8 request;
  value = u16 value;
  index = u16 index;
  length = u16 size;
}

module _ (h : Host) where
  open h use {State}

  -- what the driver leaves behind, stored where the pointers lead
  abbrev pub complete :
      ℕ → Option (Completion State) → World State → Option ((ℤ × List ℕ) × World State)
  complete dev none w = none
  complete dev (some c) w =
      some ((c.ret, c.bytes), record w { usb_dev = set w.usb_dev dev c.dev; host = c.host })

  pub submit_control_msg : ℕ → ℕ → Buffer → ℕ → M State (ℤ × List ℕ)
  submit_control_msg dev pipe buffer size w =
      complete dev (h.submit_control_msg w.usb_dev dev pipe buffer size w.setup_packet w.host) w

  pub submit_bulk_msg : ℕ → ℕ → Buffer → ℕ → M State (ℤ × List ℕ)
  submit_bulk_msg dev pipe buffer size w =
      complete dev (h.submit_bulk_msg w.usb_dev dev pipe buffer size w.host) w

  pub usb_submit_int_msg : ℕ → ℕ → Buffer → ℕ → ℕ → M State (ℤ × List ℕ)
  usb_submit_int_msg dev pipe buffer size interval w =
      complete dev (h.submit_int_msg w.usb_dev dev pipe buffer size interval w.host) w

  -- `while (timeout--) { if (!(dev->status & USB_ST_NOT_PROC)) break; … }`, with what it does
  -- in a round that does not end it
  pub wait_processed : M State (Unit {0}) → ℕ → ℕ → M State (Unit {0})
  unfolding get_dev
  wait_processed pause dev zero = pure tt
  wait_processed pause dev (suc timeout) =
      let rest = wait_processed pause dev timeout in
      do d ← get_dev dev; if has_bits d.status usb_st_not_proc then (pause >> rest) else pure tt

  abbrev pub set_setup_packet : DevRequest → M State (Unit {0})
  set_setup_packet packet w = some (tt, record w { setup_packet = packet })

  abbrev pub set_status : ℕ → ℕ → M State (Unit {0})
  set_status dev status = do d ← get_dev dev; put_dev dev (record d { status = status })

  -- `usb_control_msg` after the submit: wait, and judge by the device's status
  unfoldable pub control_finish : ℕ → ℕ → List ℕ → M State (ℤ × List ℕ)
  unfolding get_dev wait_processed mdelay
  control_finish dev timeout bytes = do
    wait_processed (mdelay h 1) dev timeout
    d ← get_dev dev
    pure ((if d.status == 0 then d.act_len else minus_one), bytes)

  pub control_submitted : ℕ → ℕ → ℕ → ℤ × List ℕ → M State (ℤ × List ℕ)
  control_submitted dev size timeout (ret, bytes) =
      if is_negative ret
      then pure (ret, bytes)
      else if timeout == 0
      then pure (pos (u16 size), bytes)
      else control_finish dev timeout bytes

  unfoldable pub usb_control_msg : ℕ → ℕ → ℕ → ℕ → ℕ → ℕ → Buffer → ℕ → ℕ → M State (ℤ × List ℕ)
  unfolding get_dev put_dev submit_control_msg control_submitted
  usb_control_msg dev pipe request requesttype value index buffer size timeout w =
      if (timeout == 0) && not w.asynch_allowed
      then some ((minus_one, buffer.bytes), w)
      else (do
        set_setup_packet (setup_packet_of request requesttype value index size)
        set_status dev usb_st_not_proc
        r ← submit_control_msg dev pipe buffer (u16 size)
        control_submitted dev size timeout r)
          w

  pub bulk_finish : ℕ → ℕ → List ℕ → M State (ℤ × Option ℤ × List ℕ)
  unfolding get_dev wait_processed wait_ms
  bulk_finish dev timeout bytes = do
    wait_processed (wait_ms h 1) dev timeout
    d ← get_dev dev
    pure ((if d.status == 0 then minus_one else pos 0), some d.act_len, bytes)

  -- The first part of the result is the return code, the second what `actual_length` receives, if
  -- it is written. The test `len < 0` does not arise for a natural length.
  pub usb_bulk_msg : ℕ → ℕ → Buffer → ℕ → ℕ → M State (ℤ × Option ℤ × List ℕ)
  unfolding get_dev put_dev submit_bulk_msg
  usb_bulk_msg dev pipe buffer len timeout = do
    set_status dev usb_st_not_proc
    (ret, bytes) ← submit_bulk_msg dev pipe buffer len
    if is_negative ret then pure (ret, none, bytes) else bulk_finish dev timeout bytes
