-- ===== src/Usb/Scan/Table.antt =====
-- Enumeration keeps the device table.
use pure_usb.Prelude.{
  ℕ, ℤ, pos, minus_one, is_negative, ◌==◌, ◌≡◌, refl, List, Option, none, some, set, length, arith,
  Option-cases, inl, inr, get_elem?, ◌∙◌, if◌then◌else◌, ap, not, is_zero, Bool, true, false, ◌⊎◌,
}
use pure_usb.Device.{Device, Buffer}
use pure_usb.Device.Bytes.{byte_at}
use pure_usb.Device.Layout.{i_manufacturer, i_product, i_serial_number, b_configuration_value}
use pure_usb.Host.{Host}
use pure_usb.Usb.{World, M, pure, ◌>>=◌, ◌>>◌, get_dev, put_dev}
use pure_usb.Usb.Keeps.{
  Keeps, Any, Keeps-pure, Keeps-bind, Keeps-if, Keeps-then, Keeps-done, keeps_rules,
}
use pure_usb.Usb.Table.{
  set-IsTable, Updates-trans, Tabled, Conforms, get_dev-sized, get_dev-Keeps, update-sized,
  update-Keeps, update_then-Keeps,
}
use pure_usb.Usb.Message.Table.{wait_ms-Keeps}
use pure_usb.Usb.Request.Table.{
  usb_get_descriptor-Keeps, usb_get_configuration_no-Keeps, usb_set_address-Keeps,
  usb_set_configuration-Keeps,
}
use pure_usb.Usb.Request.{usb_set_configuration}
use pure_usb.Usb.Config.Size.{usb_parse_config-Updates}
use pure_usb.Usb.MaxPacket.Size.{usb_set_maxpacket-Updates}
use pure_usb.Usb.Config.{usb_parse_config, usb_is_hub}
use pure_usb.Usb.Devices.Table.{usb_alloc_new_device-first}
use pure_usb.Usb.MaxPacket.{usb_set_maxpacket}
use pure_usb.Usb.Strings.Table.{usb_string-Keeps}
use pure_usb.Usb.Hub.{Storage, hub_port_reset}
use pure_usb.Usb.Hub.Table.{hub_port_reset-Keeps}
use pure_usb.Usb.Scan.Updates.{
  unaddressed-Updates, addressed-Updates, descriptor-Updates, text_size, mf-Updates, prod-Updates,
  serial-Updates, strings-Updates,
}
use pure_usb.Usb.Scan.{
  known, find_port, reset_again, scan_string, scan_strings, scan_configuration, scan_addressed,
  usb_scan_device, usb_scan_roothub,
}

-- what the scan of the root hub finds: nothing, or the device that it has added
abbrev pub Root : ℕ → ℤ × Option ℕ → Type 0
Root dev r = (r.1 ≡ none) ⊎ (r.1 ≡ some dev)

Root-if : (ret : ℤ) (dev : ℕ) (b : Bool) → Root dev (ret, if b then some dev else none)
Root-if ret dev true = inr refl
Root-if ret dev false = inl refl

known-Keeps : {S A : Type 0} (used : ℕ) (o : Option A) → Keeps {S = S} (Tabled used) (known o) Any
known-Keeps used none = record { at = λ w a w' t e. cc }
known-Keeps used (some a) = Keeps-done a

-- The configuration is parsed, the packet sizes are set, and the device is written back.
configure_then-Keeps :
    {S B : Type 0} (used dev : ℕ) (bytes : List ℕ) (g : Device → M S B)
    → ((d : Device) → Keeps (Tabled used) (g d) Any)
    → Keeps
        (Tabled used)
        (do
          d ← get_dev dev
          (ret, parsed) ← known (usb_parse_config d bytes 0)
          sized ← known (usb_set_maxpacket parsed)
          put_dev dev sized
          g sized)
        Any
unfolding get_dev put_dev
configure_then-Keeps used dev bytes g rest = record {
  at = λ w a w' t e. elim (Option-cases (get_elem? w.usb_dev dev)) [
    | inl gone ↦ ground (arith, gone)
    | inr (d, here) ↦ elim (Option-cases (usb_parse_config d bytes 0)) [
      | inl outside ↦ ground (arith, here, outside)
      | inr ((ret, parsed), p) ↦ elim (Option-cases (usb_set_maxpacket parsed)) [
        | inl outside ↦ ground (arith, here, p, outside)
        | inr (sized, q) ↦
            (rest sized).at (record w { usb_dev = set w.usb_dev dev sized }) a w'
              (set-IsTable used (w.usb_dev) (w.g_dev_index) dev d sized t here (
                Updates-trans (usb_parse_config-Updates d bytes 0 ret parsed p)
                  (usb_set_maxpacket-Updates parsed sized q)))
              (ground (arith, here, p, q, e))
      ]
    ]
  ];
}

module _ (h : Host) (conforms : Conforms h) (storage : Storage) (used : ℕ) where
  open h use {State}

  reset_again-Keeps :
      (dev : ℕ) (parent : Option ℕ) → Keeps (Tabled used) (reset_again h storage dev parent) Any
  unfolding reset_again
  reset_again-Keeps dev none = search keeps_rules
  reset_again-Keeps dev (some parent) = Keeps-then _ _ (get_dev-Keeps used parent) λ p.
      Keeps-then _ _ (known-Keeps used (find_port p.maxchild 0 p.children dev))
        λ port. port_reset port
    where
      port_reset :
          (port : Option ℕ)
          → Keeps {S = State}
              (Tabled used)
              (elim port [
                | none ↦ pure minus_one
                | some j ↦ (do
                  (err, portstatus) ← hub_port_reset h (storage.portsts) parent j
                  pure (if is_negative err then minus_one else pos 0))
              ])
              Any
      port_reset none = Keeps-done minus_one
      port_reset (some j) = search (keeps_rules, hub_port_reset-Keeps h conforms used)

  scan_string-Keeps :
      (dev index : ℕ) (text : List ℕ)
      → Keeps (Tabled used) (scan_string h storage dev index text) (λ t. length t ≡ length text)
  unfolding scan_string
  scan_string-Keeps dev index text = Keeps-if _ _ _ (Keeps-pure text refl) (
      Keeps-bind _ _ (usb_string-Keeps h conforms used (storage.mybuf) dev index text 32)
        λ r same. Keeps-pure r.1 same)

  scan_strings-Keeps : (dev : ℕ) → Keeps (Tabled used) (scan_strings h storage dev) Any
  unfolding scan_strings
  scan_strings-Keeps dev = Keeps-then _ _ (update-sized used dev _ strings-Updates) λ _.
      Keeps-bind _ _ (get_dev-sized used dev) λ d s.
        Keeps-bind _ _ (scan_string-Keeps dev (byte_at d.descriptor i_manufacturer) d.mf) λ mf l.
          Keeps-then _ _
            (update-sized used dev (λ d. record d { mf = mf })
              λ d'. mf-Updates mf d' (l ∙ ap (λ (x : List ℕ). text_size x 0) s))
            λ _. Keeps-bind _ _ (get_dev-sized used dev) λ d s.
              Keeps-bind _ _ (scan_string-Keeps dev (byte_at d.descriptor i_product) d.prod)
                λ prod l.
                  Keeps-then _ _
                    (update-sized used dev (λ d. record d { prod = prod })
                      λ d'. prod-Updates prod d' (l ∙ ap (λ (x : List ℕ). text_size x 1) s))
                    λ _. Keeps-bind _ _ (get_dev-sized used dev) λ d s.
                      Keeps-bind _ _
                        (scan_string-Keeps dev (byte_at d.descriptor i_serial_number) d.serial)
                        λ serial l.
                          update-sized used dev (λ d. record d { serial = serial })
                            λ d'.
                              serial-Updates serial d' (l ∙ ap (λ (x : List ℕ). text_size x 2) s)

  scan_configuration-Keeps :
      (dev : ℕ) (tmpbuf : Buffer)
      → Keeps (Tabled used) (scan_configuration h storage dev tmpbuf) Any
  unfolding scan_configuration
  scan_configuration-Keeps dev tmpbuf =
      Keeps-then _ _ (usb_get_configuration_no-Keeps h conforms used dev tmpbuf 0) λ r.
        configure_then-Keeps used dev r.1
          (λ sized. (do
            failed ← usb_set_configuration h dev (byte_at sized.config b_configuration_value)
            if not (is_zero failed)
                then pure minus_one
                else (do scan_strings h storage dev; pure (pos 0))))
          (λ sized.
            search (keeps_rules, usb_set_configuration-Keeps h conforms used, scan_strings-Keeps))

  scan_addressed-Keeps :
      (dev : ℕ) (tmpbuf : Buffer) → Keeps (Tabled used) (scan_addressed h storage dev tmpbuf) Any
  unfolding scan_addressed
  scan_addressed-Keeps dev tmpbuf =
      search
        (
          update-Keeps,
          descriptor-Updates,
          keeps_rules,
          get_dev-Keeps,
          usb_set_address-Keeps h conforms used,
          wait_ms-Keeps h conforms used,
          usb_get_descriptor-Keeps h conforms used,
          scan_configuration-Keeps,
        )
        depth 12

  pub usb_scan_device-Keeps : (dev : ℕ) → Keeps (Tabled used) (usb_scan_device h storage dev) Any
  unfolding usb_scan_device
  usb_scan_device-Keeps dev =
      search
        (
          update_then-Keeps,
          update-Keeps,
          descriptor-Updates,
          unaddressed-Updates,
          addressed-Updates,
          keeps_rules,
          usb_get_descriptor-Keeps h conforms used,
          reset_again-Keeps,
          scan_addressed-Keeps,
        )
        depth 14

module _ (h : Host) (conforms : Conforms h) (storage : Storage) where
  open h use {State}

  scanned-Keeps :
      (dev : ℕ)
      → Keeps
          (Tabled 1)
          (do
            ret ← usb_scan_device h storage dev
            if is_negative ret then pure (ret, none) else (do
              d ← get_dev dev
              pure (ret, if usb_is_hub d 0 == 1 then some dev else none)))
          (Root dev)
  scanned-Keeps dev = Keeps-then _ _ (usb_scan_device-Keeps h conforms storage 1 dev) λ ret.
      Keeps-if _ _ _ (Keeps-pure (ret, none) (inl refl)) (
        Keeps-then _ _ (get_dev-Keeps 1 dev) λ d.
          Keeps-pure (ret, if usb_is_hub d 0 == 1 then some dev else none)
            (Root-if ret dev (usb_is_hub d 0 == 1)))

  -- In a table that is not full, the scan of the root hub leaves a table with a device, and gives that device or none.
  pub usb_scan_roothub-Tabled :
      (w : World State) (r : ℤ × Option ℕ) (w' : World State)
      → Tabled 0 w
      → (w.g_dev_index == 32) ≡ false
      → usb_scan_roothub h storage w ≡ some (r, w')
      → Tabled 1 w' × Root (w.g_dev_index) r
  unfolding usb_scan_roothub
  usb_scan_roothub-Tabled w r w' t room e =
      let (w1, done, kept) = usb_alloc_new_device-first 0 w t room in
      (scanned-Keeps (w.g_dev_index)).at w1 r w' kept (ground (arith, done, e))
