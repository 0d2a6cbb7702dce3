-- ===== src/Tests/Config.antt =====
-- Descriptors as a device may send them.
use pure_usb.Prelude.{ℕ, ◌≡◌, refl, List, [], ◌∷◌, ◌++◌, replicate, get_or, arith}
use pure_usb.Device.{Device, zeroed_device}
use pure_usb.Usb.Config.{unfinished, parse_config}
use pure_usb.Usb.Config.Loop.{Stuck, parse_config-unfinished}
use pure_usb.Usb.MaxPacket.{usb_set_maxpacket_ep}
use pure_usb.Usb.MaxPacket.Laws.{usb_set_maxpacket_ep-sizes}

-- a configuration of 12 bytes, the last three of an interface descriptor without a length
abbrev endless : List ℕ
endless = 9 ∷ 2 ∷ 12 ∷ 0 ∷ 1 ∷ 1 ∷ 0 ∷ 0 ∷ 0 ∷ 0 ∷ 4 ∷ 0 ∷ []

abbrev blank : List ℕ
blank = replicate 1002 0

endless-unfinished : parse_config blank endless ≡ unfinished
unfolding parse_config pure_usb.Device.Bytes.overlay
endless-unfinished = refl

parse_config-unfinished_example : Stuck endless 12
parse_config-unfinished_example =
    parse_config-unfinished blank endless (omega arith) endless-unfinished

-- "H" and a character that is not Latin
abbrev greeting : List ℕ
greeting = 6 ∷ 3 ∷ 0x48 ∷ 0 ∷ 1 ∷ 2 ∷ []

-- the endpoint descriptor is the first of the first interface: number 1, inwards, bulk, 512 bytes
abbrev disk : Device
disk = record zeroed_device {
  config = replicate 22 0 ++ (7 ∷ 5 ∷ 0x81 ∷ 2 ∷ 0 ∷ 2 ∷ 0 ∷ []) ++ replicate 973 0;
}

usb_set_maxpacket_ep-sizes_example :
    (get_or (usb_set_maxpacket_ep disk 22).epmaxpacketout 1 0 ≡ 0)
    × (get_or (usb_set_maxpacket_ep disk 22).epmaxpacketin 1 0 ≡ 512)
usb_set_maxpacket_ep-sizes_example =
    usb_set_maxpacket_ep-sizes disk 22 1 (omega arith) (omega arith)
