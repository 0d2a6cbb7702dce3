-- ===== src/Device.antt =====
-- `struct usb_device` of usb.h. Structs that arrive over the bus (the descriptors) are kept as the
-- bytes that C overlays them on, since the driver fills them by memcpy; the module `Layout` names
-- their fields. An `int` that may be negative but takes part in bit operations is its 32-bit
-- pattern. The fields that no modelled code reads (irq_*, privptr) are left out.
pub mod Layout
pub mod Bytes
use pure_usb.Prelude.{ℕ, ◌-◌, ◌^◌, ℤ, pos, Bool, false, List, Option, none, replicate}

pub record Device : Type 0 where
  pub devnum : ℕ
  pub speed : ℕ
  pub mf : List ℕ
  pub prod : List ℕ
  pub serial : List ℕ
  pub maxpacketsize : ℕ
  pub toggle : List ℕ
  pub halted : List ℕ
  pub epmaxpacketin : List ℕ
  pub epmaxpacketout : List ℕ
  pub configno : ℕ
  pub descriptor : List ℕ
  pub config : List ℕ
  pub have_langid : Bool
  pub string_langid : ℕ
  pub status : ℕ
  pub act_len : ℤ
  pub maxchild : ℕ
  pub portnr : ℕ
  pub parent : Option ℕ
  pub children : List (Option ℕ)
  pub hubdescriptor : List ℕ

-- `struct devrequest`, the setup packet
pub record DevRequest : Type 0 where
  pub requesttype : ℕ
  pub request : ℕ
  pub value : ℕ
  pub index : ℕ
  pub length : ℕ

-- A buffer that a call passes by pointer: where it lies and the bytes that it holds.
pub record Buffer : Type 0 where
  pub addr : ℕ
  pub bytes : List ℕ

-- the bit pattern of -1
abbrev pub minus_one32 : ℕ
minus_one32 = 2 ^ 32 - 1

-- what memset to zero leaves
abbrev pub zeroed_device : Device
zeroed_device = record {
  devnum = 0;
  speed = 0;
  mf = replicate 32 0;
  prod = replicate 32 0;
  serial = replicate 32 0;
  maxpacketsize = 0;
  toggle = replicate 2 0;
  halted = replicate 2 0;
  epmaxpacketin = replicate 16 0;
  epmaxpacketout = replicate 16 0;
  configno = 0;
  descriptor = replicate 18 0;
  config = replicate 1002 0;
  have_langid = false;
  string_langid = 0;
  status = 0;
  act_len = pos 0;
  maxchild = 0;
  portnr = 0;
  parent = none;
  children = replicate 8 none;
  hubdescriptor = replicate 11 0;
}
