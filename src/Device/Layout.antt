-- ===== src/Device/Layout.antt =====
-- Offsets of the packed structs of usb.h and usbdescriptors.h.
use pure_usb.Prelude.{ℕ, ◌+◌, ◌*◌}

-- `struct usb_config`: the configuration descriptor (9 bytes), `no_of_if`, and 8 times
-- `struct usb_interface`: the interface descriptor (9 bytes), `no_of_ep`, `num_altsetting`,
-- `act_altsetting` and 16 endpoint descriptors of 7 bytes.
abbrev pub interface_size : ℕ
interface_size = 124

abbrev pub config_size : ℕ
config_size = 1002

abbrev pub w_total_length : ℕ
w_total_length = 2

abbrev pub b_num_interfaces : ℕ
b_num_interfaces = 4

abbrev pub b_configuration_value : ℕ
b_configuration_value = 5

abbrev pub no_of_if : ℕ
no_of_if = 9

abbrev pub if_desc : ℕ → ℕ
if_desc i = 10 + interface_size * i

abbrev pub b_interface_number : ℕ
b_interface_number = 2

abbrev pub b_num_endpoints : ℕ
b_num_endpoints = 4

abbrev pub b_interface_class : ℕ
b_interface_class = 5

abbrev pub b_interface_sub_class : ℕ
b_interface_sub_class = 6

abbrev pub no_of_ep : ℕ
no_of_ep = 9

abbrev pub num_altsetting : ℕ
num_altsetting = 10

abbrev pub ep_desc : ℕ → ℕ
ep_desc e = 12 + 7 * e

abbrev pub b_endpoint_address : ℕ
b_endpoint_address = 2

abbrev pub bm_attributes : ℕ
bm_attributes = 3

abbrev pub w_max_packet_size : ℕ
w_max_packet_size = 4

-- `struct usb_device_descriptor`
abbrev pub device_descriptor_size : ℕ
device_descriptor_size = 18

abbrev pub b_max_packet_size0 : ℕ
b_max_packet_size0 = 7

abbrev pub i_manufacturer : ℕ
i_manufacturer = 14

abbrev pub i_product : ℕ
i_product = 15

abbrev pub i_serial_number : ℕ
i_serial_number = 16

-- `struct usb_hub_descriptor`
abbrev pub hub_descriptor_size : ℕ
hub_descriptor_size = 11

abbrev pub b_nbr_ports : ℕ
b_nbr_ports = 2

abbrev pub w_hub_characteristics : ℕ
w_hub_characteristics = 3

abbrev pub b_pwr_on_2_pwr_good : ℕ
b_pwr_on_2_pwr_good = 5

abbrev pub device_removable : ℕ
device_removable = 7

abbrev pub port_power_ctrl_mask : ℕ
port_power_ctrl_mask = 9
