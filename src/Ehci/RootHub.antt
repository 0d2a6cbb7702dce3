-- ===== src/Ehci/RootHub.antt =====
-- `ehci_submit_root`: the root hub, a hub that the driver emulates over the port registers.
pub mod Descriptor
pub mod Status
pub mod Copy
pub mod Ports
pub mod Answer
pub mod Updates
pub mod Address
pub mod Reply
use pure_usb.Prelude.{
  ℕ, zero, suc, ◌+◌, ◌*◌, ◌/◌, ◌%◌, ◌-◌, ◌<◌, ◌^◌, ◌==◌, ltb, ℤ, pos, minus_one, is_zero, Bool,
  true, false, not, ◌&&◌, List, [], ◌∷◌, Option, none, some, length, take, if◌then◌else◌, bit_and,
  bit_or, has_bits, shl, shr, complement, u16, min,
}
use pure_usb.Defs.{
  usb_dt_device, usb_dt_config, usb_dt_string, usb_dt_hub, usb_port_feat_enable,
  usb_port_feat_power, usb_port_feat_reset, usb_port_feat_c_enable, usb_port_feat_c_connection,
  usb_port_feat_over_current, usb_port_feat_c_reset, usb_port_stat_connection, usb_port_stat_enable,
  usb_port_stat_suspend, usb_port_stat_overcurrent, usb_port_stat_reset, usb_port_stat_power,
  usb_port_stat_high_speed, usb_port_stat_c_connection, usb_port_stat_c_enable,
  usb_port_stat_c_overcurrent, usb_port_stat_c_reset, usb_st_stalled,
}
use pure_usb.Device.{Device, DevRequest, Buffer}
use pure_usb.Device.Bytes.{write_bytes}
use pure_usb.Ehci.{Controller, Ehci, E, return, ◌>>=◌, ◌>>◌, ehci_readl, ehci_writel, mdelay}
use pure_usb.Ehci.Handshake.{handshake}
use pure_usb.Ehci.Regs.{
  or_portsc, or_usbcmd, or_configflag, cr_hcsparams, hcs_ppc, max_root_ports, ehci_ps_po,
  ehci_ps_pp, ehci_ps_pr, ehci_ps_susp, ehci_ps_occ, ehci_ps_oca, ehci_ps_pec, ehci_ps_pe,
  ehci_ps_csc, ehci_ps_cs, ehci_ps_clear, ehci_ps_is_lowspeed,
}
use mathlib.Core.Option
use Descriptor.{hub_descriptor, device_descriptor, config_descriptors, string_descriptor}

-- What the switch leaves in `srcptr` and `srclen`: the bytes to copy, none if `srcptr` is null.
-- The outer `none` is the jump to `unknown`.
abbrev pub Answer : Type 0
Answer = Option (Option (List ℕ))

-- the bit, if the register shows it
abbrev flag : ℕ → ℕ → ℕ → ℕ
flag reg seen stat = if has_bits reg seen then stat else 0

-- the four bytes of the port's status for the register `reg`
pub port_status : ℕ → ℕ → ℕ → List ℕ
port_status reg portreset index =
    bit_or
      (bit_or
        (bit_or
          (bit_or (flag reg ehci_ps_cs usb_port_stat_connection)
            (flag reg ehci_ps_pe usb_port_stat_enable))
          (flag reg ehci_ps_susp usb_port_stat_suspend))
        (flag reg ehci_ps_oca usb_port_stat_overcurrent))
      (flag reg ehci_ps_pr usb_port_stat_reset)
    ∷ bit_or (flag reg ehci_ps_pp (shr usb_port_stat_power 8)) (shr usb_port_stat_high_speed 8)
    ∷ bit_or
        (bit_or
          (bit_or (flag reg ehci_ps_csc usb_port_stat_c_connection)
            (flag reg ehci_ps_pec usb_port_stat_c_enable))
          (flag reg ehci_ps_occ usb_port_stat_c_overcurrent))
        (flag portreset (shl 1 index) usb_port_stat_c_reset)
    ∷ 0
    ∷ []

module _ (c : Controller) where
  open c use {State}

  pub get_descriptor : ℕ → E State Answer
  unfolding device_descriptor config_descriptors string_descriptor
  get_descriptor value =
      let type = shr value 8 in
      if type == usb_dt_device
      then return (some (some device_descriptor))
      else if type == usb_dt_config
      then return (some (some config_descriptors))
      else if type == usb_dt_string
      then return (Option.map some (string_descriptor (bit_and value 0xff)))
      else return none

  pub get_hub_descriptor : ℕ → E State Answer
  unfolding hub_descriptor
  get_hub_descriptor value e =
      if shr value 8 == usb_dt_hub
      then (some (some (hub_descriptor e.b_nbr_ports e.w_hub_characteristics)), e)
      else (none, e)

  pub set_address : ℕ → E State Answer
  set_address value e = (some none, record e { rootdev = value })

  pub get_port_status : ℕ → E State Answer
  unfolding ehci_readl
  get_port_status index = do
    reg ← ehci_readl c (or_portsc index)
    λ e. (some (some (port_status reg e.portreset index)), e)

  abbrev unblock_posted_write : Answer → E State Answer
  unblock_posted_write answer = do _ ← ehci_readl c or_usbcmd; return answer

  -- the reset of a port, from its register with the change bits masked out
  pub reset_port : ℕ → ℕ → E State (Unit {0})
  unfolding ehci_writel mdelay
  reset_port index reg =
      let reset = bit_and (bit_or reg ehci_ps_pr) (complement ehci_ps_pe) in
      do
        ehci_writel c (or_portsc index) reset
        mdelay c 50
        ehci_writel c (or_portsc index) (bit_and reset (complement ehci_ps_pr))
        ret ← handshake c (or_portsc index) ehci_ps_pr 0 2000
        λ e. (
          tt,
          if is_zero ret
              then record e { portreset = u16 (bit_or e.portreset (shl 1 index)) }
              else e,
        )

  -- the inner switch of SET_FEATURE, and whether it knows the feature
  pub set_feature : ℕ → ℕ → ℕ → E State Bool
  unfolding ehci_readl ehci_writel reset_port
  set_feature value index reg =
      let status_reg = or_portsc index in
      if value == usb_port_feat_enable
      then ehci_writel c status_reg (bit_or reg ehci_ps_pe) >> return true
      else if value == usb_port_feat_power
      then (do
        params ← ehci_readl c cr_hcsparams
        (if hcs_ppc params
            then ehci_writel c status_reg (bit_or reg ehci_ps_pp) >> ehci_writel c or_configflag 1
            else return tt)
        return true)
      else if value == usb_port_feat_reset
      then (if (bit_and reg (bit_or ehci_ps_pe ehci_ps_cs) == ehci_ps_cs) && ehci_ps_is_lowspeed reg
          then ehci_writel c status_reg (bit_or reg ehci_ps_po)
          else reset_port index reg)
        >> return true
      else return false

  pub set_port_feature : ℕ → ℕ → E State Answer
  unfolding ehci_readl set_feature
  set_port_feature value index = do
    reg ← ehci_readl c (or_portsc index)
    known ← set_feature value index (bit_and reg (complement ehci_ps_clear))
    if known then unblock_posted_write (some none) else return none

  -- the word that CLEAR_FEATURE writes back, for each feature that it knows
  abbrev pub cleared : ℕ → ℕ → ℕ → Option ℕ
  cleared value reg params =
      let masked = bit_and reg (complement ehci_ps_clear) in
      if value == usb_port_feat_enable
      then some (bit_and reg (complement ehci_ps_pe))
      else if value == usb_port_feat_c_enable
      then some (bit_or masked ehci_ps_pe)
      else if value == usb_port_feat_power
      then (let powered =
            if hcs_ppc params
            then bit_and reg (complement (bit_or ehci_ps_clear ehci_ps_pp))
            else reg in
          some (bit_or (bit_and powered (complement ehci_ps_clear)) ehci_ps_csc))
      else if value == usb_port_feat_c_connection
      then some (bit_or masked ehci_ps_csc)
      else if value == usb_port_feat_over_current
      then some (bit_or masked ehci_ps_occ)
      else if value == usb_port_feat_c_reset
      then some reg
      else none

  abbrev forget_reset : ℕ → ℕ → E State (Unit {0})
  forget_reset value index e = (
    tt,
    if value == usb_port_feat_c_reset
        then record e { portreset = bit_and e.portreset (complement (shl 1 index)) }
        else e,
  )

  write_back : ℕ → Option ℕ → E State Answer
  unfolding ehci_writel ehci_readl
  write_back index none = return none
  write_back index (some reg) = do
    ehci_writel c (or_portsc index) reg
    unblock_posted_write (some none)

  pub clear_port_feature : ℕ → ℕ → E State Answer
  unfolding ehci_readl write_back
  clear_port_feature value index = do
    reg ← ehci_readl c (or_portsc index)
    params ← (if value == usb_port_feat_power then ehci_readl c cr_hcsparams else return 0)
    forget_reset value index
    write_back index (cleared value reg params)

  -- the switch on `typeReq`: the request in the low byte, its type in the high one. The cases are,
  -- in order: GET_DESCRIPTOR of the device and of the hub, SET_ADDRESS, SET_CONFIGURATION, GET_STATUS
  -- of the hub and of a port, SET_FEATURE and CLEAR_FEATURE of a port.
  pub root_request : DevRequest → E State Answer
  unfolding get_descriptor get_hub_descriptor set_address get_port_status set_port_feature
      clear_port_feature
  root_request req =
      let type_req = u16 (bit_or req.request (shl req.requesttype 8)) in
      if type_req == 0x8006
      then get_descriptor req.value
      else if type_req == 0xa006
      then get_hub_descriptor req.value
      else if type_req == 0x0005
      then set_address req.value
      else if type_req == 0x0009
      then return (some none)
      else if type_req == 0xa000
      then return (some (some (1 ∷ 0 ∷ [])))
      else if type_req == 0xa300
      then get_port_status req.index
      else if type_req == 0x2303
      then set_port_feature req.value req.index
      else if type_req == 0x2301
      then clear_port_feature req.value req.index
      else return none

  -- The answer is copied as far as the answer itself, `wLength` and the buffer's length go. The inner
  -- `none` is a copy past the buffer's end.
  pub root_copy : Device → Buffer → ℕ → ℕ → Answer → E State (Option (ℤ × Device × List ℕ))
  unfolding mdelay
  root_copy dev buffer len_req length' none =
      return
        (some (minus_one, record dev { act_len = pos 0; status = usb_st_stalled }, buffer.bytes))
  root_copy dev buffer len_req length' (some none) = do
    mdelay c 1
    return (some (pos 0, record dev { act_len = pos 0; status = 0 }, buffer.bytes))
  root_copy dev buffer len_req length' (some (some src)) =
      let len = min (min (length src) len_req) length' in
      do
        mdelay c 1
        return (
            Option.map (λ bytes. (pos 0, record dev { act_len = pos len; status = 0 }, bytes))
              (write_bytes buffer.bytes 0 (take len src)))

  unfoldable pub ehci_submit_root :
      Device → Buffer → ℕ → DevRequest → E State (Option (ℤ × Device × List ℕ))
  unfolding root_request root_copy
  ehci_submit_root dev buffer len req =
      if ltb max_root_ports req.index
      then return (some (minus_one, dev, buffer.bytes))
      else (do answer ← root_request req; root_copy dev buffer req.length len answer)
