-- ===== src/Usb/Hub/Change.antt =====
-- A change at a hub's port: usb_hub_port_connect_change and usb_hub_scan of usb.c.
pub mod Laws
pub mod Table
use pure_usb.Prelude.{
  ℕ, zero, suc, ◌+◌, ◌==◌, ◌&&◌, ◌||◌, not, Bool, true, false, ℤ, pos, minus_one, is_negative,
  is_zero, List, Option, none, some, if◌then◌else◌, has_bits,
}
use pure_usb.Defs.{
  usb_speed_full, usb_speed_low, usb_speed_high, usb_port_feat_suspend, usb_port_feat_c_connection,
  usb_port_feat_c_enable, usb_port_feat_c_over_current, usb_port_feat_c_reset,
  usb_port_stat_connection, usb_port_stat_enable, usb_port_stat_suspend, usb_port_stat_low_speed,
  usb_port_stat_high_speed, usb_port_stat_c_connection, usb_port_stat_c_enable,
  usb_port_stat_c_overcurrent, usb_port_stat_c_reset,
}
use pure_usb.Device.{Device, Buffer}
use pure_usb.Device.Bytes.{le16_at}
use pure_usb.Host.{Host}
use pure_usb.Usb.{M, pure, ◌>>=◌, ◌>>◌, get_dev, put_dev, wait_ms}
use pure_usb.Usb.Devices.{usb_alloc_new_device}
use pure_usb.Usb.Hub.{
  Storage, child_of, usb_get_port_status, usb_clear_port_feature, hub_port_reset, usb_hub_power_on,
}
use pure_usb.Usb.Scan.{usb_scan_device}

abbrev pub is_device : Option ℕ → Bool
is_device none = false
is_device (some dev) = true

abbrev pub port_speed : ℕ → ℕ
port_speed portstatus =
    if has_bits portstatus usb_port_stat_high_speed
    then usb_speed_high
    else if has_bits portstatus usb_port_stat_low_speed
    then usb_speed_low
    else usb_speed_full

module _ (h : Host) (storage : Storage) where
  open h use {State}

  -- is there a device at the port, or neither a connection nor an enabled port?
  pub disconnects : ℕ → ℕ → ℕ → M State Bool
  unfolding child_of
  disconnects dev port portstatus =
      if not (has_bits portstatus usb_port_stat_connection)
        && not (has_bits portstatus usb_port_stat_enable)
      then pure true
      else (do child ← child_of dev port; pure (is_device child))

  -- the device at a port that was reset, with the port's status after the reset
  pub attach_device : ℕ → ℕ → ℕ → M State (ℤ × Option ℕ)
  unfolding get_dev put_dev
  attach_device dev port portstatus = do
    usb ← usb_alloc_new_device (some dev) port
    elim usb [
      | none ↦ pure (minus_one, none)
      | some new ↦ (do
        d ← get_dev new
        put_dev new (record d { speed = port_speed portstatus })
        ret ← usb_scan_device h storage new
        pure (if is_negative ret then (ret, none) else (pos 1, some new)))
    ]

  pub reset_and_attach : ℕ → ℕ → M State (ℤ × Option ℕ)
  unfolding wait_ms attach_device
  reset_and_attach dev port = do
    wait_ms h 200
    (ret, portstatus) ← hub_port_reset h (storage.portsts) dev port
    if is_negative ret
        then pure (ret, none)
        else (do wait_ms h 200; attach_device dev port portstatus)

  pub usb_hub_port_connect_change : ℕ → ℕ → M State (ℤ × Option ℕ)
  unfolding disconnects reset_and_attach
  usb_hub_port_connect_change dev port = do
    (ret, bytes) ← usb_get_port_status h dev (port + 1) (storage.portsts)
    if is_negative ret then pure (ret, none) else (do
      let portstatus = le16_at bytes 0
      _ ← usb_clear_port_feature h dev (port + 1) usb_port_feat_c_connection
      gone ← disconnects dev port portstatus
      if gone && not (has_bits portstatus usb_port_stat_connection)
          then pure (pos 0, none)
          else reset_and_attach dev port)

  -- A connection change: the new device, if any. The outer `none` is `goto out`.
  pub scan_connection : ℕ → ℕ → Bool → Option ℕ → M State (Option (Option ℕ))
  unfolding usb_hub_port_connect_change
  scan_connection dev i changed new = if not changed then pure (some new) else (do
    (ret, child) ← usb_hub_port_connect_change dev i
    pure (if is_negative ret then none else some child))

  -- an enable change: a connected device whose port was disabled is connected again
  pub scan_enable : ℕ → ℕ → ℕ → Bool → Option ℕ → M State (Option (Option ℕ))
  unfolding child_of scan_connection
  scan_enable dev i portstatus changed new = if not changed then pure (some new) else (do
    _ ← usb_clear_port_feature h dev (i + 1) usb_port_feat_c_enable
    if has_bits portstatus usb_port_stat_enable
          || not (has_bits portstatus usb_port_stat_connection)
        then pure (some new)
        else (do child ← child_of dev i; scan_connection dev i (is_device child) new))

  -- `if (flagged) { ret = usb_clear_port_feature(…); if (!ret) goto out; }`: does the scan go on?
  pub clear_change : ℕ → ℕ → ℕ → Bool → M State Bool
  clear_change dev i feature flagged = if not flagged then pure true else (do
    (ret, bytes) ← usb_clear_port_feature h dev (i + 1) feature
    pure (not (is_zero ret)))

  pub power_after : ℕ → Bool → M State (Unit {0})
  power_after dev flagged = if flagged then usb_hub_power_on h dev else pure tt

  -- the changes of suspend, over-current and reset
  pub scan_changes : ℕ → ℕ → ℕ → ℕ → Option ℕ → M State (ℤ × Option ℕ)
  unfolding clear_change power_after
  scan_changes dev i portstatus portchange new = do
    s ← clear_change dev i usb_port_feat_suspend (has_bits portstatus usb_port_stat_suspend)
    if not s then pure (minus_one, none) else (do
      o ←
          clear_change dev i usb_port_feat_c_over_current
            (has_bits portchange usb_port_stat_c_overcurrent)
      if not o then pure (minus_one, none) else (do
        power_after dev (has_bits portchange usb_port_stat_c_overcurrent)
        r ← clear_change dev i usb_port_feat_c_reset (has_bits portchange usb_port_stat_c_reset)
        pure (
            if not r
            then (minus_one, none)
            else if is_device new
            then (pos 1, new)
            else (pos 0, none))))

  -- the rest of a scan, if it goes on
  pub scan_on : Option (Option ℕ) → (Option ℕ → M State (ℤ × Option ℕ)) → M State (ℤ × Option ℕ)
  scan_on none rest = pure (minus_one, none)
  scan_on (some new) rest = rest new

  -- A status request that returns 0 ends the scan; any other result is read as a status.
  pub usb_hub_scan : ℕ → ℕ → M State (ℤ × Option ℕ)
  unfolding scan_connection scan_enable scan_changes scan_on
  usb_hub_scan dev i = do
    (ret, bytes) ← usb_get_port_status h dev (i + 1) (storage.portsts)
    if is_zero ret then pure (minus_one, none) else (do
      let portstatus = le16_at bytes 0
      let portchange = le16_at bytes 2
      a ← scan_connection dev i (has_bits portchange usb_port_stat_c_connection) none
      scan_on a (λ new. (do
        b ← scan_enable dev i portstatus (has_bits portchange usb_port_stat_c_enable) new
        scan_on b (λ new'. scan_changes dev i portstatus portchange new'))))
