-- ===== src/Usb/Hub/Change/Laws.antt =====
-- How usb_hub_scan judges the clearing of a change.
use pure_usb.Prelude.{
  ℤ, pos, minus_one, none, List, has_bits, if◌then◌else◌, ℕ, ◌+◌, ◌≡◌, refl, not, true, false,
  is_negative, is_zero, some, get_elem?, set, arith,
}
use pure_usb.Device.Bytes.{le16_at}
use pure_usb.Defs.{
  usb_port_feat_c_reset, usb_port_stat_suspend, usb_port_stat_c_connection, usb_port_stat_c_enable,
  usb_port_stat_c_overcurrent, usb_port_stat_c_reset, usb_st_not_proc, usb_cntl_timeout,
  usb_req_clear_feature, usb_rt_port,
}
use pure_usb.Device.{Device}
use pure_usb.Host.{Host, Completion}
use pure_usb.Pipe.{usb_sndctrlpipe}
use pure_usb.Usb.{World, get_dev}
use pure_usb.Usb.Message.{setup_packet_of}
use pure_usb.Usb.Message.Laws.{usb_control_msg-result}
use pure_usb.Usb.Request.{null}
use pure_usb.Usb.Hub.{Storage, usb_clear_port_feature, usb_get_port_status}
use pure_usb.Usb.Hub.Change.{clear_change, usb_hub_scan}

-- a port's status and changes of which only the end of a reset calls for anything
pub record OnlyReset (bytes : List ℕ) : Type 0 where
  pub suspended : has_bits (le16_at bytes 0) usb_port_stat_suspend ≡ false
  pub connection : has_bits (le16_at bytes 2) usb_port_stat_c_connection ≡ false
  pub enable : has_bits (le16_at bytes 2) usb_port_stat_c_enable ≡ false
  pub overcurrent : has_bits (le16_at bytes 2) usb_port_stat_c_overcurrent ≡ false
  pub reset : has_bits (le16_at bytes 2) usb_port_stat_c_reset ≡ true

module _ (h : Host) (storage : Storage) where
  open h use {State}

  -- when the driver clears the feature without an error: were any bytes transferred?
  clear_change-cleared :
      (dev i feature : ℕ) (w : World State) {d : Device} {c : Completion State}
      → get_elem? w.usb_dev dev ≡ some d
      → h.submit_control_msg
          (set w.usb_dev dev (record d { status = usb_st_not_proc }))
          dev
          (usb_sndctrlpipe d 0)
          null
          0
          (setup_packet_of usb_req_clear_feature usb_rt_port feature (i + 1) 0)
          w.host
        ≡ some c
      → is_negative c.ret ≡ false
      → c.dev.status ≡ 0
      → (w' : World State) × (clear_change h storage dev i feature true w
          ≡ some (not (is_zero c.dev.act_len), w'))
  unfolding clear_change usb_clear_port_feature get_dev
  clear_change-cleared dev i feature w {d} {c} found sent fine clear =
      let (s, e) =
        usb_control_msg-result h dev (usb_sndctrlpipe d 0) usb_req_clear_feature usb_rt_port feature
          (i + 1) null 0 usb_cntl_timeout w {d = d} {c = c} found refl sent in
      let w' : World State = record w {
        usb_dev = set w.usb_dev dev c.dev;
        setup_packet = setup_packet_of usb_req_clear_feature usb_rt_port feature (i + 1) 0;
        host = s;
      } in
      (w', ground (arith, found, e, fine, clear))

  -- At a port of which only the end of a reset is reported, in a status of some bytes, and that change being
  -- cleared by the driver without an error, `usb_hub_scan` returns 0 and no device if the clearing has
  -- transferred some bytes, and gives up with -1 if it has transferred none.
  pub usb_hub_scan-reset :
      (dev i : ℕ) (w w1 : World State) (ret : ℤ) (bytes : List ℕ) {d : Device}
      {c : Completion State}
      → usb_get_port_status h dev (i + 1) (storage.portsts) w ≡ some ((ret, bytes), w1)
      → is_zero ret ≡ false
      → OnlyReset bytes
      → get_elem? w1.usb_dev dev ≡ some d
      → h.submit_control_msg
          (set w1.usb_dev dev (record d { status = usb_st_not_proc }))
          dev
          (usb_sndctrlpipe d 0)
          null
          0
          (setup_packet_of usb_req_clear_feature usb_rt_port usb_port_feat_c_reset (i + 1) 0)
          w1.host
        ≡ some c
      → is_negative c.ret ≡ false
      → c.dev.status ≡ 0
      → (w' : World State) × (usb_hub_scan h storage dev i w
          ≡ some (((if is_zero c.dev.act_len then minus_one else pos 0), none), w'))
  unfolding usb_hub_scan clear_change
  usb_hub_scan-reset dev i w w1 ret bytes {d} {c} got some_bytes port found sent fine clear =
      let (w', cleared) =
        clear_change-cleared dev i usb_port_feat_c_reset w1 {d = d} {c = c} found sent fine clear in
      (
        w',
        ground (
          arith, got, some_bytes, port.suspended, port.connection, port.enable, port.overcurrent,
          port.reset, cleared,
        ),
      )
