-- ===== src/Defs.antt =====
-- The constants of usb_defs.h, and the limits of usb.h and usb.c, under the names of the source.
use pure_usb.Prelude.{ℕ}

abbrev pub usb_class_hub : ℕ
usb_class_hub = 9

abbrev pub usb_type_standard : ℕ
usb_type_standard = 0

abbrev pub usb_type_class : ℕ
usb_type_class = 0x20

abbrev pub usb_recip_device : ℕ
usb_recip_device = 0

abbrev pub usb_recip_interface : ℕ
usb_recip_interface = 1

abbrev pub usb_recip_endpoint : ℕ
usb_recip_endpoint = 2

abbrev pub usb_recip_other : ℕ
usb_recip_other = 3

abbrev pub usb_dir_out : ℕ
usb_dir_out = 0

abbrev pub usb_dir_in : ℕ
usb_dir_in = 0x80

abbrev pub usb_speed_full : ℕ
usb_speed_full = 0

abbrev pub usb_speed_low : ℕ
usb_speed_low = 1

abbrev pub usb_speed_high : ℕ
usb_speed_high = 2

abbrev pub usb_dt_device : ℕ
usb_dt_device = 1

abbrev pub usb_dt_config : ℕ
usb_dt_config = 2

abbrev pub usb_dt_string : ℕ
usb_dt_string = 3

abbrev pub usb_dt_interface : ℕ
usb_dt_interface = 4

abbrev pub usb_dt_endpoint : ℕ
usb_dt_endpoint = 5

abbrev pub usb_dt_hub : ℕ
usb_dt_hub = 0x29

abbrev pub usb_endpoint_number_mask : ℕ
usb_endpoint_number_mask = 0xf

abbrev pub usb_endpoint_xfertype_mask : ℕ
usb_endpoint_xfertype_mask = 3

abbrev pub usb_endpoint_xfer_control : ℕ
usb_endpoint_xfer_control = 0

abbrev pub usb_req_get_status : ℕ
usb_req_get_status = 0

abbrev pub usb_req_clear_feature : ℕ
usb_req_clear_feature = 1

abbrev pub usb_req_set_feature : ℕ
usb_req_set_feature = 3

abbrev pub usb_req_set_address : ℕ
usb_req_set_address = 5

abbrev pub usb_req_get_descriptor : ℕ
usb_req_get_descriptor = 6

abbrev pub usb_req_set_configuration : ℕ
usb_req_set_configuration = 9

abbrev pub usb_req_set_interface : ℕ
usb_req_set_interface = 0xb

abbrev pub usb_req_get_report : ℕ
usb_req_get_report = 1

abbrev pub usb_req_set_idle : ℕ
usb_req_set_idle = 0xa

abbrev pub usb_req_set_protocol : ℕ
usb_req_set_protocol = 0xb

abbrev pub pipe_isochronous : ℕ
pipe_isochronous = 0

abbrev pub pipe_interrupt : ℕ
pipe_interrupt = 1

abbrev pub pipe_control : ℕ
pipe_control = 2

abbrev pub pipe_bulk : ℕ
pipe_bulk = 3

abbrev pub usb_st_stalled : ℕ
usb_st_stalled = 2

abbrev pub usb_st_buf_err : ℕ
usb_st_buf_err = 4

abbrev pub usb_st_babble_det : ℕ
usb_st_babble_det = 8

abbrev pub usb_st_crc_err : ℕ
usb_st_crc_err = 0x20

abbrev pub usb_st_not_proc : ℕ
usb_st_not_proc = 0x80000000

abbrev pub usb_rt_hub : ℕ
usb_rt_hub = 0x20

abbrev pub usb_rt_port : ℕ
usb_rt_port = 0x23

abbrev pub usb_port_feat_enable : ℕ
usb_port_feat_enable = 1

abbrev pub usb_port_feat_suspend : ℕ
usb_port_feat_suspend = 2

abbrev pub usb_port_feat_over_current : ℕ
usb_port_feat_over_current = 3

abbrev pub usb_port_feat_reset : ℕ
usb_port_feat_reset = 4

abbrev pub usb_port_feat_power : ℕ
usb_port_feat_power = 8

abbrev pub usb_port_feat_c_connection : ℕ
usb_port_feat_c_connection = 0x10

abbrev pub usb_port_feat_c_enable : ℕ
usb_port_feat_c_enable = 0x11

abbrev pub usb_port_feat_c_over_current : ℕ
usb_port_feat_c_over_current = 0x13

abbrev pub usb_port_feat_c_reset : ℕ
usb_port_feat_c_reset = 0x14

abbrev pub usb_port_stat_connection : ℕ
usb_port_stat_connection = 1

abbrev pub usb_port_stat_enable : ℕ
usb_port_stat_enable = 2

abbrev pub usb_port_stat_suspend : ℕ
usb_port_stat_suspend = 4

abbrev pub usb_port_stat_overcurrent : ℕ
usb_port_stat_overcurrent = 8

abbrev pub usb_port_stat_reset : ℕ
usb_port_stat_reset = 0x10

abbrev pub usb_port_stat_power : ℕ
usb_port_stat_power = 0x100

abbrev pub usb_port_stat_low_speed : ℕ
usb_port_stat_low_speed = 0x200

abbrev pub usb_port_stat_high_speed : ℕ
usb_port_stat_high_speed = 0x400

abbrev pub usb_port_stat_c_connection : ℕ
usb_port_stat_c_connection = 1

abbrev pub usb_port_stat_c_enable : ℕ
usb_port_stat_c_enable = 2

abbrev pub usb_port_stat_c_overcurrent : ℕ
usb_port_stat_c_overcurrent = 8

abbrev pub usb_port_stat_c_reset : ℕ
usb_port_stat_c_reset = 0x10

abbrev pub usb_max_device : ℕ
usb_max_device = 32

abbrev pub usb_maxinterfaces : ℕ
usb_maxinterfaces = 8

abbrev pub usb_maxendpoints : ℕ
usb_maxendpoints = 16

abbrev pub usb_maxchildren : ℕ
usb_maxchildren = 8

abbrev pub usb_cntl_timeout : ℕ
usb_cntl_timeout = 100

abbrev pub usb_bufsiz : ℕ
usb_bufsiz = 512

abbrev pub max_tries : ℕ
max_tries = 5
