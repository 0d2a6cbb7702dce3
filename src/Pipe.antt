-- ===== src/Pipe.antt =====
-- The pipe macros of usb.h: the word that names a transfer's device, endpoint, direction, speed
-- and type, and the data toggle and halt bits that a device keeps for each endpoint.
pub mod Fields
pub mod Toggle
use pure_usb.Prelude.{ℕ, ◌-◌, List, bit_and, bit_or, bit_xor, get_or, set, shl, shr, complement}
use pure_usb.Defs.{pipe_isochronous, pipe_interrupt, pipe_control, pipe_bulk, usb_dir_in}
use pure_usb.Device.{Device}

unfoldable pub create_pipe : Device → ℕ → ℕ
create_pipe d endpoint =
    bit_or (bit_or (bit_or (shl d.devnum 8) (shl endpoint 15)) (shl d.speed 26)) d.maxpacketsize

pub default_pipe : Device → ℕ
default_pipe d = shl d.speed 26

-- the common form of the eight macros `usb_snd…pipe` and `usb_rcv…pipe`
unfoldable pub snd_pipe : ℕ → Device → ℕ → ℕ
unfolding create_pipe
snd_pipe type d endpoint = bit_or (shl type 30) (create_pipe d endpoint)

unfoldable pub rcv_pipe : ℕ → Device → ℕ → ℕ
unfolding create_pipe
rcv_pipe type d endpoint = bit_or (bit_or (shl type 30) (create_pipe d endpoint)) usb_dir_in

abbrev pub usb_sndctrlpipe : Device → ℕ → ℕ
usb_sndctrlpipe = snd_pipe pipe_control

abbrev pub usb_rcvctrlpipe : Device → ℕ → ℕ
usb_rcvctrlpipe = rcv_pipe pipe_control

abbrev pub usb_sndisocpipe : Device → ℕ → ℕ
usb_sndisocpipe = snd_pipe pipe_isochronous

abbrev pub usb_rcvisocpipe : Device → ℕ → ℕ
usb_rcvisocpipe = rcv_pipe pipe_isochronous

abbrev pub usb_sndbulkpipe : Device → ℕ → ℕ
usb_sndbulkpipe = snd_pipe pipe_bulk

abbrev pub usb_rcvbulkpipe : Device → ℕ → ℕ
usb_rcvbulkpipe = rcv_pipe pipe_bulk

abbrev pub usb_sndintpipe : Device → ℕ → ℕ
usb_sndintpipe = snd_pipe pipe_interrupt

abbrev pub usb_rcvintpipe : Device → ℕ → ℕ
usb_rcvintpipe = rcv_pipe pipe_interrupt

unfoldable pub usb_snddefctrl : Device → ℕ
unfolding default_pipe
usb_snddefctrl d = bit_or (shl pipe_control 30) (default_pipe d)

unfoldable pub usb_pipein : ℕ → ℕ
usb_pipein pipe = bit_and (shr pipe 7) 1

unfoldable pub usb_pipeout : ℕ → ℕ
usb_pipeout pipe = bit_xor (bit_and (shr pipe 7) 1) 1

unfoldable pub usb_pipedevice : ℕ → ℕ
usb_pipedevice pipe = bit_and (shr pipe 8) 0x7f

unfoldable pub usb_pipeendpoint : ℕ → ℕ
usb_pipeendpoint pipe = bit_and (shr pipe 15) 0xf

pub usb_pipespeed : ℕ → ℕ
usb_pipespeed pipe = bit_and (shr pipe 26) 3

unfoldable pub usb_pipetype : ℕ → ℕ
usb_pipetype pipe = bit_and (shr pipe 30) 3

unfoldable pub usb_gettoggle : Device → ℕ → ℕ → ℕ
usb_gettoggle d ep out = bit_and (shr (get_or d.toggle out 0) ep) 1

unfoldable pub usb_settoggle : Device → ℕ → ℕ → ℕ → Device
usb_settoggle d ep out bit = record d {
  toggle =
      set d.toggle out
        (bit_or (bit_and (get_or d.toggle out 0) (complement (shl 1 ep))) (shl bit ep));
}

unfoldable pub usb_endpoint_running : Device → ℕ → ℕ → Device
usb_endpoint_running d ep out = record d {
  halted = set d.halted out (bit_and (get_or d.halted out 0) (complement (shl 1 ep)));
}
