-- ===== src/Usb/Config/Size.antt =====
-- usb_parse_config and usb_set_maxpacket change the contents of a device's arrays, not their sizes.
use pure_usb.Prelude.{
  ℕ, zero, suc, ◌+◌, ◌≡◌, refl, ◌∙◌, ap, Bool-cases, Option-cases, inl, inr, List, [], ◌∷◌, none,
  some, length, u8, ℤ, arith, ◌==◌,
}
use pure_usb.Defs.{usb_dt_config}
use pure_usb.Device.{Device}
use pure_usb.Device.Bytes.{byte_at, le16_at, read_byte, read_bytes, write_bytes, length-write_bytes}
use pure_usb.Device.Layout.{w_total_length, no_of_if, if_desc, no_of_ep, num_altsetting, ep_desc}
use pure_usb.Usb.Table.{Updates, sizes}
use pure_usb.Usb.Config.{
  Parser, Parsed, complete, outside, unfinished, copy_descriptor, write_byte, new_interface,
  alternate_setting, parse_interface, parse_endpoint, parse_descriptor, parse_from, parse_config,
  parsed_device, usb_parse_config,
}

length-copy_descriptor :
    (config : List ℕ) (to : ℕ) (buffer : List ℕ) (index : ℕ) {ys : List ℕ}
    → copy_descriptor config to buffer index ≡ some ys
    → length ys ≡ length config
unfolding copy_descriptor
length-copy_descriptor config to buffer index {ys} e =
    elim (Option-cases (read_bytes buffer index (byte_at buffer index))) [
      | inl gone ↦ ground arith
      | inr (src, r) ↦ length-write_bytes config to src {ys = ys} (ground arith)
    ]

length-new_interface :
    (p : Parser) (buffer : List ℕ) (index : ℕ) {p' : Parser}
    → new_interface p buffer index ≡ some p'
    → length p'.config ≡ length p.config
unfolding new_interface
length-new_interface p buffer index e =
    let n = byte_at p.config no_of_if in
    elim (Option-cases (write_byte p.config no_of_if (n + 1))) [
      | inl gone ↦ ground arith
      | inr (c1, e1) ↦ elim (Option-cases (copy_descriptor c1 (if_desc n) buffer index)) [
        | inl gone ↦ ground arith
        | inr (c2, e2) ↦ elim (Option-cases (write_bytes c2 (if_desc n + no_of_ep) (0 ∷ 1 ∷ []))) [
          | inl gone ↦ ground arith
          | inr (c3, e3) ↦ ground (
            arith,
            length-write_bytes p.config no_of_if (u8 (n + 1) ∷ []) e1,
            length-copy_descriptor c1 (if_desc n) buffer index e2,
            length-write_bytes c2 (if_desc n + no_of_ep) (0 ∷ 1 ∷ []) e3,
          )
        ]
      ]
    ]

length-alternate_setting :
    (p : Parser) {p' : Parser} → alternate_setting p ≡ some p' → length p'.config ≡ length p.config
unfolding alternate_setting
length-alternate_setting p e = elim (Option-cases p.ifno) [
  | inl gone ↦ ground arith
  | inr (i, e0) ↦
      let at = if_desc i + num_altsetting in
      elim (Option-cases (write_byte p.config at (byte_at p.config at + 1))) [
        | inl gone ↦ ground arith
        | inr (c1, e1) ↦
            ground (arith, length-write_bytes p.config at (u8 (byte_at p.config at + 1) ∷ []) e1)
      ]
]

length-parse_endpoint :
    (p : Parser) (buffer : List ℕ) (index : ℕ) {p' : Parser}
    → parse_endpoint p buffer index ≡ some p'
    → length p'.config ≡ length p.config
unfolding parse_endpoint
length-parse_endpoint p buffer index e = elim (Option-cases p.ifno) [
  | inl gone ↦ ground arith
  | inr (i, e0) ↦
      let at = if_desc i + no_of_ep in
      let to = if_desc i + ep_desc (byte_at p.config at) in
      elim (Option-cases (write_byte p.config at (byte_at p.config at + 1))) [
        | inl gone ↦ ground arith
        | inr (c1, e1) ↦ elim (Option-cases (copy_descriptor c1 to buffer index)) [
          | inl gone ↦ ground arith
          | inr (c2, e2) ↦ ground (
            arith,
            length-write_bytes p.config at (u8 (byte_at p.config at + 1) ∷ []) e1,
            length-copy_descriptor c1 to buffer index e2,
          )
        ]
      ]
]

length-parse_descriptor :
    (p : Parser) (buffer : List ℕ) (index type : ℕ) {p' : Parser}
    → parse_descriptor p buffer index type ≡ some (some p')
    → length p'.config ≡ length p.config
unfolding parse_descriptor parse_interface
length-parse_descriptor p buffer index type {p'} e = ground (
  arith,
  length-new_interface p buffer index {p' = p'},
  length-alternate_setting p {p' = p'},
  length-parse_endpoint p buffer index {p' = p'},
)

length-parse_from :
    (fuel : ℕ) (p : Parser) (buffer : List ℕ) (index : ℕ) {c : List ℕ}
    → parse_from fuel p buffer index ≡ complete c
    → length c ≡ length p.config
unfolding parse_from
length-parse_from zero p buffer index e = ground arith
length-parse_from (suc fuel) p buffer index {c} e =
    elim (Option-cases (read_byte buffer (index + 1))) [
      | inl gone ↦ ground (arith, gone)
      | inr (type, r) ↦ elim (Option-cases (parse_descriptor p buffer index type)) [
        | inl gone ↦ ground (arith, gone, r)
        | inr (none, r') ↦ ground (arith, r, r')
        | inr (some p', r') ↦ ground (
          arith,
          r,
          r',
          length-parse_descriptor p buffer index type r',
          length-parse_from fuel p' buffer (index + byte_at buffer index) {c = c},
        )
      ]
    ]

length-parse_config :
    (config buffer : List ℕ) {c : List ℕ}
    → parse_config config buffer ≡ complete c
    → length c ≡ length config
unfolding parse_config
length-parse_config config buffer {c} e = elim (Option-cases (copy_descriptor config 0 buffer 0)) [
  | inl gone ↦ ground arith
  | inr (c1, e1) ↦ elim (Option-cases (write_byte c1 no_of_if 0)) [
    | inl gone ↦ ground arith
    | inr (c2, e2) ↦ ground (
      arith,
      length-copy_descriptor config 0 buffer 0 e1,
      length-write_bytes c1 no_of_if (u8 0 ∷ []) e2,
      length-parse_from (le16_at c2 w_total_length)
          (record { config = c2; ifno = none; curr_if_num = none }) buffer (byte_at c2 0) {c = c},
    )
  ]
]

parsed_device-Updates :
    (d : Device) (p : Parsed) (ret : ℤ) (d' : Device)
    → ((c : List ℕ) → p ≡ complete c → length c ≡ length d.config)
    → parsed_device d p ≡ some (ret, d')
    → Updates d d'
unfolding parsed_device
parsed_device-Updates d (complete c) ret d' kept e =
    let same : d' ≡ record d { config = c } = ground (arith, e) in
    record {
      parent = ap (λ (x : Device). x.parent) same;
      children = ap (λ (x : Device). x.children) same;
      same_sizes = ap sizes same ∙ simp (kept c refl) refl;
    }
parsed_device-Updates d outside ret d' kept e = cc
parsed_device-Updates d unfinished ret d' kept e = cc

pub usb_parse_config-Updates :
    (d : Device) (buffer : List ℕ) (cfgno : ℕ) (ret : ℤ) (d' : Device)
    → usb_parse_config d buffer cfgno ≡ some (ret, d')
    → Updates d d'
unfolding usb_parse_config
usb_parse_config-Updates d buffer cfgno ret d' e =
    elim (Bool-cases (byte_at buffer 1 == usb_dt_config)) [
      | inl configuration ↦
          let up =
            parsed_device-Updates (record d { configno = cfgno }) (parse_config d.config buffer) ret
              d' (λ c done. length-parse_config d.config buffer {c = c} done)
              (ground (arith, configuration, e)) in
          record { parent = up.parent; children = up.children; same_sizes = up.same_sizes }
      | inr other ↦
          let same : d' ≡ record d { configno = cfgno } = ground (arith, other, e) in
          record {
            parent = ap (λ (x : Device). x.parent) same;
            children = ap (λ (x : Device). x.children) same;
            same_sizes = ap sizes same;
          }
    ]
