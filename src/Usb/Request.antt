-- ===== src/Usb/Request.antt =====
-- The standard requests of usb.c, each a control message with its own setup packet.
pub mod Table
use pure_usb.Prelude.{
  ℕ, zero, suc, ◌+◌, ◌*◌, ◌==◌, ltb, ℤ, pos, minus_one, is_negative, is_zero, less_than, not, ◌&&◌,
  List, [], Option, none, some, set, if◌then◌else◌, bit_or, shl, u8, u16,
}
use pure_usb.Defs.{
  usb_cntl_timeout, usb_dir_in, usb_type_class, usb_recip_interface, usb_recip_endpoint,
  usb_req_clear_feature, usb_req_get_descriptor, usb_req_set_address, usb_req_set_interface,
  usb_req_set_configuration, usb_req_set_protocol, usb_req_set_idle, usb_req_get_report,
  usb_dt_config, usb_dt_string, usb_bufsiz,
}
use pure_usb.Device.{Buffer}
use pure_usb.Device.Bytes.{byte_at, le16_at, read_byte}
use pure_usb.Device.Layout.{
  w_total_length, b_num_interfaces, if_desc, b_interface_number, num_altsetting,
}
use pure_usb.Pipe.{
  usb_sndctrlpipe, usb_rcvctrlpipe, usb_snddefctrl, usb_pipeendpoint, usb_pipein, usb_pipeout,
  usb_endpoint_running, usb_settoggle,
}
use pure_usb.Host.{Host}
use pure_usb.Usb.{M, pure, ◌>>=◌, ◌>>◌, get_dev, put_dev}
use pure_usb.Usb.Message.{usb_control_msg}

-- NULL, with no byte behind it
abbrev pub null : Buffer
null = record { addr = 0; bytes = [] }

module _ (h : Host) where
  open h use {State}

  -- a message on the device's outgoing or incoming control pipe
  abbrev pub send_control : ℕ → ℕ → ℕ → ℕ → ℕ → Buffer → ℕ → ℕ → M State (ℤ × List ℕ)
  send_control dev request requesttype value index buffer size timeout = do
    d ← get_dev dev
    usb_control_msg h dev (usb_sndctrlpipe d 0) request requesttype value index buffer size timeout

  abbrev pub receive_control : ℕ → ℕ → ℕ → ℕ → ℕ → Buffer → ℕ → ℕ → M State (ℤ × List ℕ)
  receive_control dev request requesttype value index buffer size timeout = do
    d ← get_dev dev
    usb_control_msg h dev (usb_rcvctrlpipe d 0) request requesttype value index buffer size timeout

  pub usb_get_descriptor : ℕ → ℕ → ℕ → Buffer → ℕ → M State (ℤ × List ℕ)
  usb_get_descriptor dev type index buffer size =
      receive_control dev usb_req_get_descriptor usb_dir_in (u8 type * 256 + u8 index) 0 buffer size
        usb_cntl_timeout

  configuration_header : ℕ → ℕ → Buffer → ℤ × List ℕ → M State (ℤ × List ℕ)
  configuration_header dev cfgno buffer (result, bytes) =
      let tmp = le16_at bytes w_total_length in
      if less_than result 9
      then pure (minus_one, bytes)
      else if ltb usb_bufsiz tmp
      then pure (minus_one, bytes)
      else usb_get_descriptor dev usb_dt_config cfgno (record buffer { bytes = bytes }) tmp

  unfoldable pub usb_get_configuration_no : ℕ → Buffer → ℕ → M State (ℤ × List ℕ)
  unfolding configuration_header usb_get_descriptor
  usb_get_configuration_no dev buffer cfgno =
      usb_get_descriptor dev usb_dt_config cfgno buffer 9 >>= configuration_header dev cfgno buffer

  unfoldable pub usb_set_address : ℕ → M State ℤ
  usb_set_address dev = do
    d ← get_dev dev
    (res, bytes) ←
        usb_control_msg h dev (usb_snddefctrl d) usb_req_set_address 0 d.devnum 0 null 0
          usb_cntl_timeout
    pure res

  -- The first interface of that number among `left` from the `i`-th on, by its index. The outer
  -- `none` is a read outside `struct usb_config`.
  pub find_interface : List ℕ → ℕ → ℕ → ℕ → Option (Option ℕ)
  find_interface config interface zero i = some none
  find_interface config interface (suc left) i =
      let rest = find_interface config interface left (i + 1) in
      elim (read_byte config (if_desc i + b_interface_number)) [
        | none ↦ none
        | some number ↦ if number == interface then some (some i) else rest
      ]

  set_interface_of : ℕ → ℕ → ℕ → Option (Option ℕ) → M State ℤ
  unfolding get_dev
  set_interface_of dev interface alternate none w = none
  set_interface_of dev interface alternate (some none) w = some (minus_one, w)
  set_interface_of dev interface alternate (some (some i)) w =
      (do
        d ← get_dev dev
        if byte_at d.config (if_desc i + num_altsetting) == 1 then pure (pos 0) else (do
          (ret, bytes) ←
              send_control dev usb_req_set_interface usb_recip_interface alternate interface null 0
                (usb_cntl_timeout * 5)
          if is_negative ret then pure ret else pure (pos 0)))
        w

  pub usb_set_interface : ℕ → ℕ → ℕ → M State ℤ
  unfolding find_interface set_interface_of get_dev
  usb_set_interface dev interface alternate = do
    d ← get_dev dev
    set_interface_of dev interface alternate
        (find_interface d.config interface (byte_at d.config b_num_interfaces) 0)

  unfoldable pub usb_set_configuration : ℕ → ℕ → M State ℤ
  unfolding get_dev put_dev
  usb_set_configuration dev configuration = do
    (ret, bytes) ←
        send_control dev usb_req_set_configuration 0 configuration 0 null 0 usb_cntl_timeout
    if not (is_zero ret) then pure minus_one else (do
      d ← get_dev dev
      put_dev dev (record d { toggle = set (set d.toggle 0 0) 1 0 })
      pure (pos 0))

  pub usb_clear_halt : ℕ → ℕ → M State ℤ
  unfolding get_dev put_dev
  usb_clear_halt dev pipe = do
    (result, bytes) ←
        send_control dev usb_req_clear_feature usb_recip_endpoint 0
          (bit_or (usb_pipeendpoint pipe) (shl (usb_pipein pipe) 7)) null 0 (usb_cntl_timeout * 3)
    if is_negative result then pure result else (do
      d ← get_dev dev
      put_dev dev (
          usb_settoggle (usb_endpoint_running d (usb_pipeendpoint pipe) (usb_pipeout pipe))
            (usb_pipeendpoint pipe) (usb_pipeout pipe) 0)
      pure (pos 0))

  pub usb_set_protocol : ℕ → ℕ → ℕ → M State (ℤ × List ℕ)
  usb_set_protocol dev ifnum protocol =
      send_control dev usb_req_set_protocol (bit_or usb_type_class usb_recip_interface) protocol
        ifnum null 0 usb_cntl_timeout

  pub usb_set_idle : ℕ → ℕ → ℕ → ℕ → M State (ℤ × List ℕ)
  usb_set_idle dev ifnum duration report_id =
      send_control dev usb_req_set_idle (bit_or usb_type_class usb_recip_interface)
        (bit_or (shl duration 8) report_id) ifnum null 0 usb_cntl_timeout

  pub usb_get_report : ℕ → ℕ → ℕ → ℕ → Buffer → ℕ → M State (ℤ × List ℕ)
  usb_get_report dev ifnum type id buffer size =
      receive_control dev usb_req_get_report
        (bit_or (bit_or usb_dir_in usb_type_class) usb_recip_interface) (u8 type * 256 + u8 id)
        ifnum buffer size usb_cntl_timeout

  pub usb_get_class_descriptor : ℕ → ℕ → ℕ → ℕ → Buffer → ℕ → M State (ℤ × List ℕ)
  usb_get_class_descriptor dev ifnum type id buffer size =
      receive_control dev usb_req_get_descriptor (bit_or usb_recip_interface usb_dir_in)
        (u8 type * 256 + u8 id) ifnum buffer size usb_cntl_timeout

  -- `left` of the three tries
  string_tries : ℕ → ℕ → ℕ → ℕ → Buffer → ℕ → M State (ℤ × List ℕ)
  unfolding get_dev
  string_tries zero dev langid index buffer size = pure (pos 0, buffer.bytes)
  string_tries (suc left) dev langid index buffer size = do
    r ←
        receive_control dev usb_req_get_descriptor usb_dir_in (usb_dt_string * 256 + u8 index)
          langid buffer size usb_cntl_timeout
    let again = string_tries left dev langid index (record buffer { bytes = r.1 }) size
    if less_than r.0 1 && not (left == 0) then again else pure r

  unfoldable pub usb_get_string : ℕ → ℕ → ℕ → Buffer → ℕ → M State (ℤ × List ℕ)
  unfolding string_tries
  usb_get_string dev langid index buffer size = string_tries 3 dev (u16 langid) index buffer size
