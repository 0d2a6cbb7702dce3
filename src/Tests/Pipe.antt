-- ===== src/Tests/Pipe.antt =====
-- Pipes and toggles of a concrete device.
use pure_usb.Prelude.{◌≡◌, arith}
use pure_usb.Device.{Device, zeroed_device}
use pure_usb.Pipe.{snd_pipe, rcv_pipe, usb_gettoggle, usb_settoggle}
use pure_usb.Pipe.Fields.{Decodes, PipeFits, create-decode}
use pure_usb.Pipe.Toggle.{gettoggle-settoggle}

abbrev pub stick : Device
stick = record zeroed_device { devnum = 5; speed = 2; maxpacketsize = 3 }

stick-PipeFits : PipeFits stick 2
stick-PipeFits = record {
  devnum_fits = omega arith;
  endpoint_fits = omega arith;
  speed_fits = omega arith;
  size_fits = omega arith;
}

create-decode_example :
    Decodes (snd_pipe 3 stick 2) 3 2 0 stick × Decodes (rcv_pipe 3 stick 2) 3 2 1 stick
create-decode_example = create-decode 3 (omega arith) stick-PipeFits

gettoggle-settoggle_example : usb_gettoggle (usb_settoggle stick 2 1 1) 2 1 ≡ 1
gettoggle-settoggle_example =
    gettoggle-settoggle stick 2 1 1 2 1 (omega arith) (omega arith) (omega arith) (omega arith)
