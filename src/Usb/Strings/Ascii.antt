-- ===== src/Usb/Strings/Ascii.antt =====
-- The text that usb_string makes of a string descriptor.
use pure_usb.Prelude.{ℕ, ◌+◌, ◌*◌, ◌==◌, List, if◌then◌else◌}
use pure_usb.Device.Bytes.{byte_at}

-- the character at `k`: the low byte of a UTF-16 unit below 256, and a question mark for any other
abbrev pub character : List ℕ → ℕ → ℕ
character tbuf k = if byte_at tbuf (2 * k + 3) == 0 then byte_at tbuf (2 * k + 2) else 0x3f
