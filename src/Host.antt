-- ===== src/Host.antt =====
-- What usb.c takes from the host controller driver below it: the three submit functions that usb.h
-- declares, and the delays of common.h. ehci-hcd.c is one such driver.
use pure_usb.Prelude.{ℕ, ℤ, List, Option}
use pure_usb.Device.{Device, DevRequest, Buffer}

-- A submitted transfer's end: the return code, the device and the buffer as the driver left them,
-- and the driver's state.
pub record Completion (S : Type 0) : Type 0 where
  pub ret : ℤ
  pub dev : Device
  pub bytes : List ℕ
  pub host : S

-- A device is named by its index in `usb_dev`, which the driver reads whole since a device points
-- to its parent. `none` is undefined behaviour, such as a null pointer followed.
pub record Host : Type 1 where
  pub State : Type 0
  pub submit_control_msg :
      List Device → ℕ → ℕ → Buffer → ℕ → DevRequest → State → Option (Completion State)
  pub submit_bulk_msg : List Device → ℕ → ℕ → Buffer → ℕ → State → Option (Completion State)
  pub submit_int_msg : List Device → ℕ → ℕ → Buffer → ℕ → ℕ → State → Option (Completion State)
  pub mdelay : ℕ → State → State
  pub udelay : ℕ → State → State
