-- ===== src/Usb/Config.antt =====
-- The configuration descriptor: usb_parse_config and usb_is_hub of usb.c. `struct usb_config` is the
-- 1002 bytes of Device.Layout; an access is in range if it lies in them.
pub mod Loop
pub mod Size
use pure_usb.Prelude.{
  ℕ, zero, suc, ◌+◌, ◌==◌, ltb, leb, ◌&&◌, ◌||◌, not, ℤ, pos, minus_one, List, [], ◌∷◌, Option,
  none, some, if◌then◌else◌, bit_and, u8,
}
use pure_usb.Defs.{usb_dt_config, usb_dt_interface, usb_dt_endpoint, usb_class_hub, usb_dir_in}
use mathlib.Core.Option
use pure_usb.Device.{Device}
use pure_usb.Device.Bytes.{byte_at, le16_at, read_byte, read_bytes, write_bytes}
use pure_usb.Device.Layout.{
  w_total_length, no_of_if, if_desc, b_interface_number, b_num_endpoints, b_interface_class,
  b_interface_sub_class, no_of_ep, num_altsetting, ep_desc, b_endpoint_address, bm_attributes,
}

-- the locals of usb_parse_config that a round of its loop leaves to the next: `none` is their -1
pub record Parser : Type 0 where
  pub config : List ℕ
  pub ifno : Option ℕ
  pub curr_if_num : Option ℕ

-- How the loop ends: with a configuration, by an access outside of the configuration or the buffer,
-- or not within its fuel.
pub data Parsed : Type 0 where
  complete : List ℕ → Parsed
  outside : Parsed
  unfinished : Parsed

-- `memcpy(to, &buffer[index], buffer[index])`
pub copy_descriptor : List ℕ → ℕ → List ℕ → ℕ → Option (List ℕ)
copy_descriptor config to buffer index = elim (read_bytes buffer index (byte_at buffer index)) [
  | none ↦ none
  | some descriptor ↦ write_bytes config to descriptor
]

-- one byte of the configuration is replaced
abbrev pub write_byte : List ℕ → ℕ → ℕ → Option (List ℕ)
write_byte config i b = write_bytes config i (u8 b ∷ [])

-- an interface whose number differs from the current one
pub new_interface : Parser → List ℕ → ℕ → Option Parser
unfolding copy_descriptor
new_interface p buffer index =
    let ifno = byte_at p.config no_of_if in
    elim (write_byte p.config no_of_if (ifno + 1)) [
      | none ↦ none
      | some c1 ↦ elim (copy_descriptor c1 (if_desc ifno) buffer index) [
        | none ↦ none
        | some c2 ↦ elim (write_bytes c2 (if_desc ifno + no_of_ep) (0 ∷ 1 ∷ [])) [
          | none ↦ none
          | some c3 ↦ some (record {
            config = c3;
            ifno = some ifno;
            curr_if_num = some (byte_at c3 (if_desc ifno + b_interface_number));
          })
        ]
      ]
    ]

-- an alternate setting of the current interface
pub alternate_setting : Parser → Option Parser
alternate_setting p = elim p.ifno [
  | none ↦ none
  | some i ↦
      elim (write_byte p.config (if_desc i + num_altsetting)
        (byte_at p.config (if_desc i + num_altsetting) + 1)) [
          | none ↦ none
          | some c ↦ some (record p { config = c })
        ]
]

pub parse_interface : Parser → List ℕ → ℕ → Option Parser
unfolding new_interface alternate_setting
parse_interface p buffer index = elim (read_byte buffer (index + b_interface_number)) [
  | none ↦ none
  | some number ↦ elim p.curr_if_num [
    | none ↦ new_interface p buffer index
    | some current ↦ if number == current then alternate_setting p else new_interface p buffer index
  ]
]

pub parse_endpoint : Parser → List ℕ → ℕ → Option Parser
unfolding copy_descriptor
parse_endpoint p buffer index = elim p.ifno [
  | none ↦ none
  | some i ↦
      let epno = byte_at p.config (if_desc i + no_of_ep) in
      elim (write_byte p.config (if_desc i + no_of_ep) (epno + 1)) [
        | none ↦ none
        | some c1 ↦ elim (copy_descriptor c1 (if_desc i + ep_desc epno) buffer index) [
          | none ↦ none
          | some c2 ↦ some (record p { config = c2 })
        ]
      ]
]

-- what one descriptor does: leave the buffers, end the loop, or go on
pub parse_descriptor : Parser → List ℕ → ℕ → ℕ → Option (Option Parser)
unfolding parse_interface parse_endpoint
parse_descriptor p buffer index type =
    if type == usb_dt_interface
    then Option.map some (parse_interface p buffer index)
    else if type == usb_dt_endpoint
    then Option.map some (parse_endpoint p buffer index)
    else if byte_at buffer index == 0
    then some none
    else some (some p)

-- the loop `while (index + 1 < wTotalLength)`, with fuel
pub parse_from : ℕ → Parser → List ℕ → ℕ → Parsed
unfolding parse_descriptor
parse_from zero p buffer index =
    if ltb (index + 1) (le16_at p.config w_total_length) then unfinished else complete p.config
parse_from (suc fuel) p buffer index =
    if ltb (index + 1) (le16_at p.config w_total_length)
    then elim (read_byte buffer (index + 1)) [
      | none ↦ outside
      | some type ↦ elim (parse_descriptor p buffer index type) [
        | none ↦ outside
        | some none ↦ complete p.config
        | some (some p') ↦ parse_from fuel p' buffer (index + byte_at buffer index)
      ]
    ]
    else complete p.config

-- The descriptors in the buffer are copied over those of `config`: the configuration's own first,
-- then the loop. The fuel is the total length, which the loop's index passes in as many rounds.
unfoldable pub parse_config : List ℕ → List ℕ → Parsed
unfolding copy_descriptor parse_from
parse_config config buffer = elim (copy_descriptor config 0 buffer 0) [
  | none ↦ outside
  | some c1 ↦ elim (write_byte c1 no_of_if 0) [
    | none ↦ outside
    | some c2 ↦
        parse_from (le16_at c2 w_total_length)
          (record { config = c2; ifno = none; curr_if_num = none }) buffer (byte_at c2 0)
  ]
]

-- the return code and the device
pub parsed_device : Device → Parsed → Option (ℤ × Device)
parsed_device dev (complete c) = some (pos 1, record dev { config = c })
parsed_device dev outside = none
parsed_device dev unfinished = none

-- `none` is an access outside the buffers, or a loop that does not end.
unfoldable pub usb_parse_config : Device → List ℕ → ℕ → Option (ℤ × Device)
unfolding parse_config parsed_device
usb_parse_config dev buffer cfgno =
    if byte_at buffer 1 == usb_dt_config
    then parsed_device (record dev { configno = cfgno }) (parse_config dev.config buffer)
    else some (minus_one, record dev { configno = cfgno })

-- 1 if interface `ifnum` of the device is a hub's, and 0 otherwise
unfoldable pub usb_is_hub : Device → ℕ → ℕ
usb_is_hub dev ifnum =
    let iface = if_desc ifnum in
    let subclass = byte_at dev.config (iface + b_interface_sub_class) in
    let ep = iface + ep_desc 0 in
    if not (byte_at dev.config (iface + b_interface_class) == usb_class_hub)
    then 0
    else if not (subclass == 0) && not (subclass == 1)
    then 0
    else if not (byte_at dev.config (iface + b_num_endpoints) == 1)
    then 0
    else if bit_and (byte_at dev.config (ep + b_endpoint_address)) usb_dir_in == 0
    then 0
    else if not (bit_and (byte_at dev.config (ep + bm_attributes)) 3 == 3)
    then 0
    else 1
