-- ===== src/Usb/Config/Loop.antt =====
-- When the loop of usb_parse_config ends.
use pure_usb.Prelude.{
  ℕ, zero, suc, ◌+◌, ◌<◌, ◌≤◌, ◌≡◌, sym, ◌∙◌, take, length-take, get_or-take, ◌⊎◌, inl, inr, ◌==◌,
  ltb, Bool-cases, Option-cases, List, [], ◌∷◌, none, some, u8, arith,
}
use mathlib.Core.Path.{subst}
use pure_usb.Defs.{usb_dt_interface, usb_dt_endpoint}
use pure_usb.Device.Bytes.{
  byte_at, le16_at, read_byte, read_bytes, write_bytes, byte_at-overlay_outside,
  byte_at-overlay_inside,
}
use pure_usb.Device.Layout.{w_total_length, no_of_if, if_desc, no_of_ep, num_altsetting, ep_desc}
use pure_usb.Usb.Config.{
  Parser, unfinished, copy_descriptor, write_byte, new_interface, alternate_setting,
  parse_interface, parse_endpoint, parse_descriptor, parse_from, parse_config,
}

-- a write behind the configuration descriptor leaves the total length
total-write_bytes :
    (xs : List ℕ) (i : ℕ) (src : List ℕ) {ys : List ℕ}
    → 4 ≤ i
    → write_bytes xs i src ≡ some ys
    → le16_at ys w_total_length ≡ le16_at xs w_total_length
total-write_bytes xs i src far e = ground (
  arith,
  byte_at-overlay_outside xs i src 2 (inl (omega arith)),
  byte_at-overlay_outside xs i src 3 (inl (omega arith)),
)

total-copy_descriptor :
    (config : List ℕ) (to : ℕ) (buffer : List ℕ) (index : ℕ) {ys : List ℕ}
    → 4 ≤ to
    → copy_descriptor config to buffer index ≡ some ys
    → le16_at ys w_total_length ≡ le16_at config w_total_length
unfolding copy_descriptor
total-copy_descriptor config to buffer index {ys} far e =
    elim (Option-cases (read_bytes buffer index (byte_at buffer index))) [
      | inl gone ↦ ground arith
      | inr (src, r) ↦ total-write_bytes config to src {ys = ys} far (ground arith)
    ]

total-new_interface :
    (p : Parser) (buffer : List ℕ) (index : ℕ) {p' : Parser}
    → new_interface p buffer index ≡ some p'
    → le16_at p'.config w_total_length ≡ le16_at p.config w_total_length
unfolding new_interface
total-new_interface p buffer index e =
    let n = byte_at p.config no_of_if in
    elim (Option-cases (write_byte p.config no_of_if (n + 1))) [
      | inl gone ↦ ground arith
      | inr (c1, e1) ↦ elim (Option-cases (copy_descriptor c1 (if_desc n) buffer index)) [
        | inl gone ↦ ground arith
        | inr (c2, e2) ↦ elim (Option-cases (write_bytes c2 (if_desc n + no_of_ep) (0 ∷ 1 ∷ []))) [
          | inl gone ↦ ground arith
          | inr (c3, e3) ↦ ground (
            arith,
            total-write_bytes p.config no_of_if (u8 (n + 1) ∷ []) (omega arith) e1,
            total-copy_descriptor c1 (if_desc n) buffer index (omega arith) e2,
            total-write_bytes c2 (if_desc n + no_of_ep) (0 ∷ 1 ∷ []) (omega arith) e3,
          )
        ]
      ]
    ]

total-alternate_setting :
    (p : Parser) {p' : Parser}
    → alternate_setting p ≡ some p'
    → le16_at p'.config w_total_length ≡ le16_at p.config w_total_length
unfolding alternate_setting
total-alternate_setting p e = elim (Option-cases p.ifno) [
  | inl gone ↦ ground arith
  | inr (i, e0) ↦
      let at = if_desc i + num_altsetting in
      elim (Option-cases (write_byte p.config at (byte_at p.config at + 1))) [
        | inl gone ↦ ground arith
        | inr (c1, e1) ↦ ground (
          arith,
          total-write_bytes p.config at (u8 (byte_at p.config at + 1) ∷ []) (omega arith) e1,
        )
      ]
]

total-parse_endpoint :
    (p : Parser) (buffer : List ℕ) (index : ℕ) {p' : Parser}
    → parse_endpoint p buffer index ≡ some p'
    → le16_at p'.config w_total_length ≡ le16_at p.config w_total_length
unfolding parse_endpoint
total-parse_endpoint p buffer index e = elim (Option-cases p.ifno) [
  | inl gone ↦ ground arith
  | inr (i, e0) ↦
      let at = if_desc i + no_of_ep in
      let to = if_desc i + ep_desc (byte_at p.config at) in
      elim (Option-cases (write_byte p.config at (byte_at p.config at + 1))) [
        | inl gone ↦ ground arith
        | inr (c1, e1) ↦ elim (Option-cases (copy_descriptor c1 to buffer index)) [
          | inl gone ↦ ground arith
          | inr (c2, e2) ↦ ground (
            arith,
            total-write_bytes p.config at (u8 (byte_at p.config at + 1) ∷ []) (omega arith) e1,
            total-copy_descriptor c1 to buffer index (omega arith) e2,
          )
        ]
      ]
]

total-parse_descriptor :
    (p : Parser) (buffer : List ℕ) (index type : ℕ) {p' : Parser}
    → parse_descriptor p buffer index type ≡ some (some p')
    → le16_at p'.config w_total_length ≡ le16_at p.config w_total_length
unfolding parse_descriptor parse_interface
total-parse_descriptor p buffer index type {p'} e = ground (
  arith,
  total-new_interface p buffer index {p' = p'},
  total-alternate_setting p {p' = p'},
  total-parse_endpoint p buffer index {p' = p'},
)

-- The indices at which a descriptor starts: the first is behind the configuration's own, each next one
-- is behind the one before it.
pub data Starts (buffer : List ℕ) : ℕ → Type 0 where
  first : Starts buffer (byte_at buffer 0)
  next : (i : ℕ) → Starts buffer i → Starts buffer (i + byte_at buffer i)

-- an interface or endpoint descriptor whose length byte is 0, before the end of the configuration
pub Stuck : List ℕ → ℕ → Type 0
Stuck buffer total =
    (i : ℕ) × Starts buffer i
    × (i + 1 < total)
    × (byte_at buffer i ≡ 0)
    × ((byte_at buffer (i + 1) ≡ usb_dt_interface) ⊎ (byte_at buffer (i + 1) ≡ usb_dt_endpoint))

-- a round that goes on reads a descriptor that has a length or is one that gets stuck
round-Stuck :
    (p : Parser) (buffer : List ℕ) (index : ℕ) {p' : Parser}
    → Starts buffer index
    → index + 1 < le16_at p.config w_total_length
    → parse_descriptor p buffer index (byte_at buffer (index + 1)) ≡ some (some p')
    → (0 < byte_at buffer index) ⊎ Stuck buffer (le16_at p.config w_total_length)
unfolding Stuck parse_descriptor
round-Stuck p buffer index start small e = elim (Bool-cases (byte_at buffer index == 0)) [
  | inr long ↦ inl (ground arith)
  | inl empty ↦ inr (index, start, small, ground arith, ground arith)
]

pub parse_from-unfinished :
    (fuel : ℕ) (p : Parser) (buffer : List ℕ) (index : ℕ)
    → Starts buffer index
    → le16_at p.config w_total_length ≤ fuel + index
    → parse_from fuel p buffer index ≡ unfinished
    → Stuck buffer (le16_at p.config w_total_length)
unfolding parse_from
parse_from-unfinished zero p buffer index start enough e = ground arith
parse_from-unfinished (suc fuel) p buffer index start enough e =
    elim (Bool-cases (ltb (index + 1) (le16_at p.config w_total_length))) [
      | inr over ↦ ground arith
      | inl more ↦ elim (Option-cases (read_byte buffer (index + 1))) [
        | inl gone ↦ ground arith
        | inr (type, r) ↦ elim (Option-cases (parse_descriptor p buffer index type)) [
          | inl gone ↦ ground arith
          | inr (none, d) ↦ ground arith
          | inr (some p', d) ↦
              let same = total-parse_descriptor p buffer index type d in
              elim (round-Stuck p buffer index {p' = p'} start (ground arith) (ground arith)) [
                | inr stuck ↦ stuck
                | inl long ↦ rw (sym same) (
                    parse_from-unfinished fuel p' buffer (index + byte_at buffer index)
                      (Starts.next index start) (omega arith) (ground arith))
              ]
        ]
      ]
    ]

-- the total length and the length are the buffer's, if the descriptor is long enough to have both
total-header :
    (config buffer : List ℕ) {ys : List ℕ}
    → 4 ≤ byte_at buffer 0
    → copy_descriptor config 0 buffer 0 ≡ some ys
    → (le16_at ys w_total_length ≡ le16_at buffer w_total_length)
      × (byte_at ys 0 ≡ byte_at buffer 0)
unfolding copy_descriptor
total-header config buffer long e =
    let n = byte_at buffer 0 in
    let src = take n buffer in
    (
      ground (
        arith,
        length-take n buffer,
        get_or-take n buffer 2 0,
        get_or-take n buffer 3 0,
        byte_at-overlay_inside config 0 src 2,
        byte_at-overlay_inside config 0 src 3,
      ),
      ground (
        arith,
        length-take n buffer,
        get_or-take n buffer 0 0,
        byte_at-overlay_inside config 0 src 0,
      ),
    )

-- For a buffer whose first descriptor has at least 4 bytes, the loop of `usb_parse_config` ends, by
-- the end of the configuration or an access outside the buffers, unless there is an interface or
-- endpoint descriptor whose length byte is 0 before the end of the configuration: one that starts where the
-- lengths of the descriptors before it lead.
pub parse_config-unfinished :
    (config buffer : List ℕ)
    → 4 ≤ byte_at buffer 0
    → parse_config config buffer ≡ unfinished
    → Stuck buffer (le16_at buffer w_total_length)
unfolding parse_config
parse_config-unfinished config buffer long e =
    elim (Option-cases (copy_descriptor config 0 buffer 0)) [
      | inl gone ↦ ground arith
      | inr (c1, e1) ↦ elim (Option-cases (write_byte c1 no_of_if 0)) [
        | inl gone ↦ ground arith
        | inr (c2, e2) ↦
            let p : Parser = record { config = c2; ifno = none; curr_if_num = none } in
            let n = le16_at c2 w_total_length in
            let (total, header) = total-header config buffer long e1 in
            let at_first : byte_at c2 0 ≡ byte_at buffer 0 =
              ground (
                arith,
                header,
                byte_at-overlay_outside c1 no_of_if (0 ∷ []) 0 (inl (omega arith)),
              ) in
            let same = total-write_bytes c1 no_of_if (0 ∷ []) (omega arith) e2 ∙ total in
            rw (sym same) (
              parse_from-unfinished n p buffer (byte_at c2 0)
                (subst (λ (i : ℕ). Starts buffer i) (sym at_first) Starts.first) (omega arith)
                (ground arith))
      ]
    ]
