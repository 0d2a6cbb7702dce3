-- ===== src/Usb/Strings/Table.antt =====
-- The strings of a device, and the device table.
use pure_usb.Prelude.{
  ℕ, zero, suc, ◌+◌, ◌-◌, ◌==◌, minus_one, pos, negsuc, ℤ, ◌≡◌, refl, ◌∙◌, List, set, length,
  length-set, true, if◌then◌else◌, arith,
}
use pure_usb.Device.{Device, Buffer}
use pure_usb.Device.Bytes.{byte_at}
use pure_usb.Host.{Host}
use pure_usb.Usb.Keeps.{Keeps, Any, Keeps-pure, Keeps-if, Keeps-then, keeps_rules}
use pure_usb.Usb.Table.{Updates, Tabled, Conforms, get_dev-Keeps, update_then-Keeps}
use pure_usb.Usb.Request.Table.{usb_get_string-Keeps}
use pure_usb.Usb.Strings.{
  to_ascii, ascii_result, string_retry, usb_string_sub, find_langid, usb_string,
}

length-to_ascii :
    (fuel idx u err size : ℕ) (tbuf buf : List ℕ)
    → length (to_ascii fuel idx u err size tbuf buf).1 ≡ length buf
unfolding to_ascii
length-to_ascii zero idx u err size tbuf buf = refl
length-to_ascii (suc fuel) idx u err size tbuf buf =
    let char = (if byte_at tbuf (u + 1) == 0 then byte_at tbuf u else 0x3f) in
    ground (
      arith,
      length-to_ascii fuel (idx + 1) (u + 2) err size tbuf (set buf idx char),
      length-set buf idx char,
    )

length-ascii_result :
    (err : ℤ) (size : ℕ) (tbuf buf : List ℕ)
    → length (ascii_result err size tbuf buf).1 ≡ length buf
unfolding ascii_result
length-ascii_result (negsuc n) size tbuf buf = refl
length-ascii_result (pos err) size tbuf buf =
    simp length-set (length-to_ascii err 0 2 err (size - 1) tbuf buf)

langid-Updates :
    (d : Device) (id : ℕ) → Updates d (record d { have_langid = true; string_langid = id })
langid-Updates d id = record { parent = refl; children = refl; same_sizes = refl }

module _ (h : Host) (conforms : Conforms h) (used : ℕ) where
  open h use {State}

  string_retry-Keeps :
      (dev langid index : ℕ) (buf : Buffer) (r : ℤ × List ℕ)
      → Keeps (Tabled used) (string_retry h dev langid index buf r) Any
  unfolding string_retry
  string_retry-Keeps dev langid index buf (rc, bytes) =
      search (keeps_rules, usb_get_string-Keeps h conforms used)

  usb_string_sub-Keeps :
      (dev langid index : ℕ) (buf : Buffer)
      → Keeps (Tabled used) (usb_string_sub h dev langid index buf) Any
  unfolding usb_string_sub
  usb_string_sub-Keeps dev langid index buf =
      search (keeps_rules, usb_get_string-Keeps h conforms used, string_retry-Keeps)

  find_langid-Keeps : (dev : ℕ) (tbuf : Buffer) → Keeps (Tabled used) (find_langid h dev tbuf) Any
  unfolding find_langid
  find_langid-Keeps dev tbuf =
      search (update_then-Keeps, langid-Updates, keeps_rules, get_dev-Keeps, usb_string_sub-Keeps)
        depth 12

  -- The result's buffer is as long as the buffer it was written to.
  pub usb_string-Keeps :
      (tbuf : Buffer) (dev index : ℕ) (buf : List ℕ) (size : ℕ)
      → Keeps (Tabled used) (usb_string h tbuf dev index buf size) (λ r. length r.1 ≡ length buf)
  unfolding usb_string
  usb_string-Keeps tbuf dev index buf size = Keeps-if _ _ _ (Keeps-pure (minus_one, buf) refl) (
      Keeps-then _ _ (find_langid-Keeps dev tbuf) λ r.
        Keeps-if _ _ _ (Keeps-pure (minus_one, set buf 0 0) (length-set buf 0 0)) (
          Keeps-then _ _ (get_dev-Keeps used dev) λ d.
            Keeps-then _ _ (usb_string_sub-Keeps dev _ index _) λ s.
              Keeps-pure (ascii_result s.0 size s.1 (set buf 0 0))
                (length-ascii_result s.0 size s.1 (set buf 0 0) ∙ length-set buf 0 0)))
