-- ===== src/Usb/Hub/Reset.antt =====
-- What a successful port reset has seen.
use pure_usb.Prelude.{
  ℕ, zero, suc, ◌+◌, ◌≡◌, ◌||◌, not, Bool, true, Bool-cases, Option-cases, pos, is_negative, inl,
  inr, some, has_bits, arith,
}
use pure_usb.Defs.{
  usb_port_feat_reset, usb_port_feat_c_reset, usb_port_stat_connection, usb_port_stat_enable,
  usb_port_stat_c_connection,
}
use pure_usb.Device.{Buffer}
use pure_usb.Device.Bytes.{le16_at}
use pure_usb.Host.{Host}
use pure_usb.Usb.{World, wait_ms}
use pure_usb.Usb.Hub.{
  usb_set_port_feature, usb_get_port_status, usb_clear_port_feature, round_result, reset_tries,
  hub_port_reset,
}

-- a port status with a connected device and an enabled port
abbrev pub Enabled : ℕ → Type 0
Enabled st =
    (has_bits st usb_port_stat_enable ≡ true) × (has_bits st usb_port_stat_connection ≡ true)

module _ (h : Host) where
  open h use {State}

  -- the end of a round, with the status that it read
  round-Enabled :
      (left dev port portstatus portchange : ℕ) (refused : Bool) (next : Buffer) (w : World State)
      {st : ℕ} {w' : World State}
      → ((v : World State)
          → reset_tries h left dev port next v ≡ some ((pos 0, st), w')
          → Enabled st)
      → round_result h (reset_tries h left dev port next) dev port portstatus portchange refused w
        ≡ some ((pos 0, st), w')
      → Enabled st
  unfolding round_result
  round-Enabled left dev port portstatus portchange refused next w tail e =
      elim (Bool-cases (
        refused
        || (has_bits portchange usb_port_stat_c_connection
            || not (has_bits portstatus usb_port_stat_connection)))) [
              | inl bad ↦ ground arith
              | inr fine ↦ elim (Bool-cases (has_bits portstatus usb_port_stat_enable)) [
                | inl on ↦
                    elim (Option-cases
                      (usb_clear_port_feature h dev (port + 1) usb_port_feat_c_reset w)) [
                        | inl gone ↦ ground arith
                        | inr (c, e1) ↦ ground arith
                      ]
                | inr off ↦ elim (Option-cases (wait_ms h 200 w)) [
                  | inl gone ↦ ground arith
                  | inr ((u, w4), e4) ↦ tail w4 (ground arith)
                ]
              ]
            ]

  reset_tries-Enabled :
      (left dev port : ℕ) (portsts : Buffer) (w : World State) {st : ℕ} {w' : World State}
      → reset_tries h left dev port portsts w ≡ some ((pos 0, st), w')
      → Enabled st
  unfolding reset_tries round_result
  reset_tries-Enabled zero dev port portsts w e = ground arith
  reset_tries-Enabled (suc left) dev port portsts w {st} {w'} e =
      elim (Option-cases (usb_set_port_feature h dev (port + 1) usb_port_feat_reset w)) [
        | inl gone ↦ ground arith
        | inr ((ret, w1), e1) ↦ elim (Option-cases (wait_ms h 200 w1)) [
          | inl gone ↦ ground arith
          | inr ((u, w2), e2) ↦
              elim (Option-cases (usb_get_port_status h dev (port + 1) portsts w2)) [
                | inl gone ↦ ground arith
                | inr (((ret', bytes), w3), e3) ↦
                    round-Enabled left dev port (le16_at bytes 0) (le16_at bytes 2)
                      (is_negative ret') (record portsts { bytes = bytes }) w3 {st = st} {w' = w'}
                      (λ v f.
                        reset_tries-Enabled left dev port (record portsts { bytes = bytes }) v
                          {st = st} {w' = w'} f)
                      (ground arith)
              ]
        ]
      ]

  -- When `hub_port_reset` returns 0, the port status it delivers has a connected device and an
  -- enabled port.
  pub hub_port_reset-Enabled :
      (dev port : ℕ) (portsts : Buffer) (w : World State) {st : ℕ} {w' : World State}
      → hub_port_reset h portsts dev port w ≡ some ((pos 0, st), w')
      → Enabled st
  unfolding hub_port_reset
  hub_port_reset-Enabled dev port portsts w e = reset_tries-Enabled 5 dev port portsts w e
