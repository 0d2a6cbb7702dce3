-- ===== src/Ehci/RootHub/Descriptor.antt =====
-- The root hub's descriptors, the static `descriptor` of ehci-hcd.c, and its three strings.
use pure_usb.Prelude.{ℕ, ◌/◌, ◌%◌, ◌==◌, List, [], ◌∷◌, Option, none, some, if◌then◌else◌}

-- `descriptor.hub`, with the two fields that `ehci_init` sets; the answer to a request is its
-- first eight bytes
unfoldable pub hub_descriptor : ℕ → ℕ → List ℕ
hub_descriptor ports characteristics =
    0x8 ∷ 0x29 ∷ ports ∷ characteristics % 256 ∷ characteristics / 256 ∷ 0xff ∷ 0 ∷ 0 ∷ []

unfoldable pub device_descriptor : List ℕ
device_descriptor = 0x12 ∷ 1 ∷ 0 ∷ 2 ∷ 9 ∷ 0 ∷ 1 ∷ 64 ∷ 0 ∷ 0 ∷ 0 ∷ 0 ∷ 0 ∷ 1 ∷ 1 ∷ 2 ∷ 0 ∷ 1 ∷ []

-- `descriptor.config`, `.interface` and `.endpoint`, which follow one another in the packed struct
-- and are sent together
unfoldable pub config_descriptors : List ℕ
config_descriptors =
    0x9 ∷ 2 ∷ 0x19 ∷ 0 ∷ 1 ∷ 1 ∷ 0 ∷ 0x40 ∷ 0 ∷ 0x9 ∷ 4 ∷ 0 ∷ 0 ∷ 1 ∷ 9 ∷ 0 ∷ 0 ∷ 0 ∷ 0x7 ∷ 5 ∷ 0x81
    ∷ 3 ∷ 8 ∷ 0 ∷ 255 ∷ []

-- language, "u-boot" and "EHCI Host Controller"
unfoldable pub string_descriptor : ℕ → Option (List ℕ)
string_descriptor index =
    if index == 0
    then some (4 ∷ 3 ∷ 1 ∷ 0 ∷ [])
    else if index == 1
    then some (14 ∷ 3 ∷ 117 ∷ 0 ∷ 45 ∷ 0 ∷ 98 ∷ 0 ∷ 111 ∷ 0 ∷ 111 ∷ 0 ∷ 116 ∷ 0 ∷ [])
    else if index == 2
    then some (
        42 ∷ 3 ∷ 69 ∷ 0 ∷ 72 ∷ 0 ∷ 67 ∷ 0 ∷ 73 ∷ 0 ∷ 32 ∷ 0 ∷ 72 ∷ 0 ∷ 111 ∷ 0 ∷ 115 ∷ 0 ∷ 116 ∷ 0
        ∷ 32 ∷ 0 ∷ 67 ∷ 0 ∷ 111 ∷ 0 ∷ 110 ∷ 0 ∷ 116 ∷ 0 ∷ 114 ∷ 0 ∷ 111 ∷ 0 ∷ 108 ∷ 0 ∷ 108 ∷ 0
        ∷ 101 ∷ 0 ∷ 114 ∷ 0 ∷ [])
    else none
