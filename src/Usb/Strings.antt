-- ===== src/Usb/Strings.antt =====
-- String descriptors: usb_string and the functions below it in usb.c, with isprint of ctype.h.
pub mod Ascii
pub mod Table
use pure_usb.Prelude.{
  ℕ, zero, suc, ◌+◌, ◌-◌, ◌%◌, ◌*◌, ◌==◌, ltb, leb, ◌&&◌, ◌||◌, not, min, Bool, ℤ, pos, negsuc,
  minus_one, is_negative, less_than, equals, List, [], ◌∷◌, Option, none, some, set, if◌then◌else◌,
  bit_or, shl, true, false,
}
use pure_usb.Device.{Buffer}
use pure_usb.Device.Bytes.{byte_at, overlay}
use pure_usb.Host.{Host}
use pure_usb.Usb.{M, pure, ◌>>=◌, ◌>>◌, get_dev, put_dev}
use pure_usb.Usb.Request.{usb_get_string}

-- the characters that `_ctype` marks as punctuation, letter, digit or hard space
abbrev pub isprint : ℕ → Bool
isprint c = (leb 32 c && leb c 126) || leb 160 c

-- The loop of usb_try_string_workarounds, with `fuel` rounds: the first even index, from `newlength`
-- on, at which there is no printable character of one byte.
pub workaround_length : ℕ → ℕ → ℕ → List ℕ → ℕ
workaround_length zero newlength oldlength buf = newlength
workaround_length (suc fuel) newlength oldlength buf =
    let rest = workaround_length fuel (newlength + 2) oldlength buf in
    if ltb (newlength + 1) oldlength
      && (isprint (byte_at buf newlength) && (byte_at buf (newlength + 1) == 0))
    then rest
    else newlength

-- the buffer and the length that the workaround leaves
pub usb_try_string_workarounds : List ℕ → ℕ → List ℕ × ℕ
unfolding workaround_length
usb_try_string_workarounds buf oldlength =
    let newlength = workaround_length oldlength 2 oldlength buf in
    if ltb 2 newlength then (set buf 0 (newlength % 256), newlength) else (buf, oldlength)

-- a descriptor of `rc` bytes is cut to the length that it gives, and to a multiple of two
pub trim_string : List ℕ → ℕ → ℤ × List ℕ
unfolding usb_try_string_workarounds
trim_string buf rc =
    let fixed =
      (if (byte_at buf 0 == 0) && (byte_at buf 1 == 0)
        then usb_try_string_workarounds buf rc
        else (buf, rc)) in
    let cut = min (byte_at fixed.0 0) fixed.1 in
    let even = cut - cut % 2 in (if ltb even 2 then minus_one else pos even, fixed.0)

pub string_result : ℤ × List ℕ → ℤ × List ℕ
unfolding trim_string
string_result (pos rc, buf) = if ltb rc 2 then (minus_one, buf) else trim_string buf rc
string_result (negsuc n, buf) = (minus_one, buf)

-- The conversion loop of usb_string: from `tbuf[u]` to `buf[idx]`, with `fuel` rounds; the result is
-- the string's length and the buffer.
pub to_ascii : ℕ → ℕ → ℕ → ℕ → ℕ → List ℕ → List ℕ → ℕ × List ℕ
to_ascii zero idx u err size tbuf buf = (idx, buf)
to_ascii (suc fuel) idx u err size tbuf buf =
    let char = (if byte_at tbuf (u + 1) == 0 then byte_at tbuf u else 0x3f) in
    let rest = to_ascii fuel (idx + 1) (u + 2) err size tbuf (set buf idx char) in
    if ltb u err && ltb idx size then rest else (idx, buf)

-- the terminated string
pub ascii_result : ℤ → ℕ → List ℕ → List ℕ → ℤ × List ℕ
unfolding to_ascii
ascii_result (negsuc n) size tbuf buf = (negsuc n, buf)
ascii_result (pos err) size tbuf buf =
    let copied = to_ascii err 0 2 err (size - 1) tbuf buf in (pos copied.0, set copied.1 copied.0 0)

module _ (h : Host) where
  open h use {State}

  -- a second try asks for the length first, then for that many bytes
  pub string_retry : ℕ → ℕ → ℕ → Buffer → ℤ × List ℕ → M State (ℤ × List ℕ)
  string_retry dev langid index buf (rc, bytes) =
      if less_than rc 2
      then (do
        (rc', bytes') ← usb_get_string h dev langid index (record buf { bytes = bytes }) 2
        let full =
            usb_get_string h dev langid index (record buf { bytes = bytes' }) (byte_at bytes' 0)
        if equals rc' 2 then full else pure (rc', bytes'))
      else pure (rc, bytes)

  pub usb_string_sub : ℕ → ℕ → ℕ → Buffer → M State (ℤ × List ℕ)
  unfolding string_retry string_result
  usb_string_sub dev langid index buf = do
    r ← usb_get_string h dev langid index buf 255
    r' ← string_retry dev langid index buf r
    pure (string_result r')

  -- The language is asked for once. The result tells whether it is known, and has the temporary
  -- buffer.
  pub find_langid : ℕ → Buffer → M State (Bool × Buffer)
  unfolding get_dev put_dev usb_string_sub
  find_langid dev tbuf = do
    d ← get_dev dev
    if d.have_langid then pure (true, tbuf) else (do
      (err, bytes) ← usb_string_sub dev 0 0 tbuf
      if is_negative err || ltb (byte_at bytes 0) 4
          then pure (false, record tbuf { bytes = bytes })
          else (do
            d' ← get_dev dev
            put_dev dev (record d' {
              have_langid = true;
              string_langid = bit_or (byte_at bytes 2) (shl (byte_at bytes 3) 8);
            })
            pure (true, record tbuf { bytes = bytes })))

  -- `tbuf` is the function's own buffer. `buf` is never null.
  unfoldable pub usb_string : Buffer → ℕ → ℕ → List ℕ → ℕ → M State (ℤ × List ℕ)
  unfolding get_dev find_langid usb_string_sub ascii_result
  usb_string tbuf dev index buf size =
      if (size == 0) || (index == 0) then pure (minus_one, buf) else (do
        (known, tbuf') ← find_langid dev tbuf
        if not known then pure (minus_one, set buf 0 0) else (do
          d ← get_dev dev
          (err, bytes) ← usb_string_sub dev d.string_langid index tbuf'
          pure (ascii_result err size bytes (set buf 0 0))))
