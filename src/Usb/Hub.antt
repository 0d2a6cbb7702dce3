-- ===== src/Usb/Hub.antt =====
-- The hub driver of usb.c: the hub requests, port power and port reset.
pub mod Init
pub mod Change
pub mod Reset
pub mod Table
use pure_usb.Prelude.{
  ℕ, zero, suc, ◌+◌, ◌*◌, ◌==◌, ltb, ◌&&◌, ◌||◌, not, Bool, ℤ, pos, minus_one, is_negative, List,
  Option, none, some, get_elem?, if◌then◌else◌, bit_or, has_bits, shl,
}
use pure_usb.Defs.{
  usb_cntl_timeout, usb_dir_in, usb_rt_hub, usb_rt_port, usb_req_get_descriptor,
  usb_req_clear_feature, usb_req_set_feature, usb_req_get_status, usb_dt_hub, usb_port_feat_reset,
  usb_port_feat_power, usb_port_feat_c_reset, usb_port_stat_connection, usb_port_stat_enable,
  usb_port_stat_c_connection,
}
use pure_usb.Device.{Device, Buffer}
use pure_usb.Device.Bytes.{byte_at, le16_at}
use pure_usb.Device.Layout.{b_pwr_on_2_pwr_good}
use pure_usb.Host.{Host}
use pure_usb.Usb.{M, pure, ◌>>=◌, ◌>>◌, get_dev, put_dev, wait_ms}
use pure_usb.Usb.Request.{null, send_control, receive_control}

-- What C leaves open: where the local buffers and the device descriptors lie, and what the buffers
-- hold before they are written.
pub record Storage : Type 0 where
  pub tmpbuf : Buffer
  pub mybuf : Buffer
  pub portsts : Buffer
  pub descriptor_at : ℕ → ℕ

-- the entry of `children`; `none` is a read past its end
pub child_of : {S : Type 0} → ℕ → ℕ → M S (Option ℕ)
unfolding get_dev
child_of dev port = do
  d ← get_dev dev
  λ w. elim (get_elem? d.children port) [ none ↦ none | some c ↦ some (c, w) ]

module _ (h : Host) where
  open h use {State}

  unfoldable pub usb_get_hub_descriptor : ℕ → Buffer → ℕ → M State (ℤ × List ℕ)
  usb_get_hub_descriptor dev buffer size =
      receive_control h dev usb_req_get_descriptor (bit_or usb_dir_in usb_rt_hub) (shl usb_dt_hub 8)
        0 buffer size usb_cntl_timeout

  pub usb_clear_hub_feature : ℕ → ℕ → M State (ℤ × List ℕ)
  usb_clear_hub_feature dev feature =
      send_control h dev usb_req_clear_feature usb_rt_hub feature 0 null 0 usb_cntl_timeout

  unfoldable pub usb_clear_port_feature : ℕ → ℕ → ℕ → M State (ℤ × List ℕ)
  usb_clear_port_feature dev port feature =
      send_control h dev usb_req_clear_feature usb_rt_port feature port null 0 usb_cntl_timeout

  unfoldable pub usb_set_port_feature : ℕ → ℕ → ℕ → M State (ℤ × List ℕ)
  usb_set_port_feature dev port feature =
      send_control h dev usb_req_set_feature usb_rt_port feature port null 0 usb_cntl_timeout

  unfoldable pub usb_get_hub_status : ℕ → Buffer → M State (ℤ × List ℕ)
  usb_get_hub_status dev buffer =
      receive_control h dev usb_req_get_status (bit_or usb_dir_in usb_rt_hub) 0 0 buffer 4
        usb_cntl_timeout

  unfoldable pub usb_get_port_status : ℕ → ℕ → Buffer → M State (ℤ × List ℕ)
  usb_get_port_status dev port buffer =
      receive_control h dev usb_req_get_status (bit_or usb_dir_in usb_rt_port) 0 port buffer 4
        usb_cntl_timeout

  -- `left` ports from number `i` on
  pub power_ports : ℕ → ℕ → ℕ → M State (Unit {0})
  unfolding get_dev wait_ms
  power_ports zero i dev = pure tt
  power_ports (suc left) i dev = do
    _ ← usb_set_port_feature dev (i + 1) usb_port_feat_power
    d ← get_dev dev
    wait_ms h (byte_at d.hubdescriptor b_pwr_on_2_pwr_good * 2)
    power_ports left (i + 1) dev

  unfoldable pub usb_hub_power_on : ℕ → M State (Unit {0})
  unfolding get_dev power_ports
  usb_hub_power_on dev = do d ← get_dev dev; power_ports d.maxchild 0 dev

  -- How a try ends, by the port's status: it failed, it enabled the port, or another one follows.
  pub round_result : M State (ℤ × ℕ) → ℕ → ℕ → ℕ → ℕ → Bool → M State (ℤ × ℕ)
  round_result again dev port portstatus portchange refused =
      if refused
        || (has_bits portchange usb_port_stat_c_connection
            || not (has_bits portstatus usb_port_stat_connection))
      then pure (minus_one, 0)
      else if has_bits portstatus usb_port_stat_enable
      then (do
        _ ← usb_clear_port_feature dev (port + 1) usb_port_feat_c_reset
        pure (pos 0, portstatus))
      else (wait_ms h 200 >> again)

  -- `left` of the MAX_TRIES tries; the second part of the result is the port's status
  pub reset_tries : ℕ → ℕ → ℕ → Buffer → M State (ℤ × ℕ)
  unfolding round_result
  reset_tries zero dev port portsts = pure (minus_one, 0)
  reset_tries (suc left) dev port portsts = do
    _ ← usb_set_port_feature dev (port + 1) usb_port_feat_reset
    wait_ms h 200
    (ret, bytes) ← usb_get_port_status dev (port + 1) portsts
    round_result (reset_tries left dev port (record portsts { bytes = bytes })) dev port
        (le16_at bytes 0) (le16_at bytes 2) (is_negative ret)

  unfoldable pub hub_port_reset : Buffer → ℕ → ℕ → M State (ℤ × ℕ)
  unfolding reset_tries
  hub_port_reset portsts dev port = reset_tries 5 dev port portsts
