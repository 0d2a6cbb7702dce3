-- ===== src/Usb/Message/Table.antt =====
-- The messages of usb.c leave the links of the device table as they are.
use pure_usb.Prelude.{
  ℕ, zero, suc, ◌==◌, ◌≡◌, refl, ℤ, not, ◌&&◌, List, Option, none, some, get_elem?, arith,
  Option-cases, inl, inr, Bool-cases, u16, set_missing, minus_one,
}
use pure_usb.Defs.{usb_st_not_proc}
use pure_usb.Device.{Device, DevRequest, Buffer}
use pure_usb.Host.{Host, Completion}
use pure_usb.Usb.{World, M, ◌>>=◌, ◌>>◌, mdelay, udelay, wait_ms}
use pure_usb.Usb.Keeps.{Keeps, Any, returned, Keeps-done, Keeps-if, Keeps-then, keeps_rules}
use pure_usb.Usb.Table.{set-IsTable, Updates, Tabled, Conforms, get_dev-Keeps, update-Keeps}
use pure_usb.Usb.Message.{
  complete, submit_control_msg, submit_bulk_msg, wait_processed, set_setup_packet, set_status,
  setup_packet_of, control_finish, control_submitted, usb_control_msg, bulk_finish, usb_bulk_msg,
}

module _ (h : Host) (conforms : Conforms h) (used : ℕ) where
  open h use {State}

  mdelay-Keeps : (ms : ℕ) → Keeps (Tabled used) (mdelay h ms) Any
  unfolding mdelay
  mdelay-Keeps ms = record { at = λ w a w' t e. returned (Tabled used) Any e t tt }

  udelay-Keeps : (us : ℕ) → Keeps (Tabled used) (udelay h us) Any
  unfolding udelay
  udelay-Keeps us = record { at = λ w a w' t e. returned (Tabled used) Any e t tt }

  pub wait_ms-Keeps : (ms : ℕ) → Keeps (Tabled used) (wait_ms h ms) Any
  unfolding wait_ms
  wait_ms-Keeps zero = search keeps_rules
  wait_ms-Keeps (suc ms) = Keeps-then _ _ (udelay-Keeps 1000) λ u. wait_ms-Keeps ms

  wait_processed-Keeps :
      (pause : M State (Unit {0})) (dev timeout : ℕ)
      → Keeps (Tabled used) pause Any
      → Keeps (Tabled used) (wait_processed h pause dev timeout) Any
  unfolding wait_processed
  wait_processed-Keeps pause dev zero k = search keeps_rules
  wait_processed-Keeps pause dev (suc timeout) k = Keeps-then _ _ (get_dev-Keeps used dev) λ d.
      Keeps-if _ _ _ (Keeps-then _ _ k λ u. wait_processed-Keeps pause dev timeout k)
        (Keeps-done tt)

  set_status-Keeps : (dev status : ℕ) → Keeps (Tabled used) (set_status h dev status) Any
  set_status-Keeps dev status =
      update-Keeps used dev _ λ d. record { parent = refl; children = refl; same_sizes = refl }

  set_setup_packet-Keeps :
      (packet : DevRequest) → Keeps (Tabled used) (set_setup_packet h packet) Any
  set_setup_packet-Keeps packet = record { at = λ w a w' t e. returned (Tabled used) Any e t tt }

  -- the end of a transfer
  complete-Tabled :
      (dev : ℕ) (o : Option (Completion State)) (w : World State) (a : ℤ × List ℕ)
      (w' : World State)
      → ((d : Device) (c : Completion State)
          → get_elem? w.usb_dev dev ≡ some d
          → o ≡ some c
          → Updates d c.dev)
      → Tabled used w
      → complete h dev o w ≡ some (a, w')
      → Tabled used w'
  complete-Tabled dev none w a w' up t e = cc
  complete-Tabled dev (some c) w a w' up t e = elim (Option-cases (get_elem? w.usb_dev dev)) [
    | inl gone ↦
        (returned (Tabled used) Any {b = (c.ret, c.bytes)} {a = a} {v = record w { host = c.host }}
          {w' = w'} (ground (arith, e, set_missing w.usb_dev dev c.dev gone)) t tt).0
    | inr (d, here) ↦
        (returned (Tabled used) Any e
          (set-IsTable used (w.usb_dev) (w.g_dev_index) dev d (c.dev) t here (up d c here refl))
          tt).0
  ]

  submit_control_msg-Keeps :
      (dev pipe : ℕ) (buffer : Buffer) (size : ℕ)
      → Keeps (Tabled used) (submit_control_msg h dev pipe buffer size) Any
  unfolding submit_control_msg
  submit_control_msg-Keeps dev pipe buffer size = record {
    at = λ w a w' t e. (
      complete-Tabled dev
          (h.submit_control_msg w.usb_dev dev pipe buffer size w.setup_packet w.host) w a w'
          (λ d c.
            conforms.after_control (w.usb_dev) dev pipe size buffer (w.setup_packet) (w.host) d c)
          t e,
      tt,
    );
  }

  submit_bulk_msg-Keeps :
      (dev pipe : ℕ) (buffer : Buffer) (size : ℕ)
      → Keeps (Tabled used) (submit_bulk_msg h dev pipe buffer size) Any
  unfolding submit_bulk_msg
  submit_bulk_msg-Keeps dev pipe buffer size = record {
    at = λ w a w' t e. (
      complete-Tabled dev (h.submit_bulk_msg w.usb_dev dev pipe buffer size w.host) w a w'
          (λ d c. conforms.after_bulk (w.usb_dev) dev pipe size buffer (w.host) d c) t e,
      tt,
    );
  }

  control_finish-Keeps :
      (dev timeout : ℕ) (bytes : List ℕ)
      → Keeps (Tabled used) (control_finish h dev timeout bytes) Any
  unfolding control_finish
  control_finish-Keeps dev timeout bytes =
      search (keeps_rules, get_dev-Keeps, wait_processed-Keeps, mdelay-Keeps)

  control_submitted-Keeps :
      (dev size timeout : ℕ) (r : ℤ × List ℕ)
      → Keeps (Tabled used) (control_submitted h dev size timeout r) Any
  unfolding control_submitted
  control_submitted-Keeps dev size timeout (ret, bytes) = search (keeps_rules, control_finish-Keeps)

  pub usb_control_msg-Keeps :
      (dev pipe request requesttype value index : ℕ) (buffer : Buffer) (size timeout : ℕ)
      → Keeps
          (Tabled used)
          (usb_control_msg h dev pipe request requesttype value index buffer size timeout)
          Any
  unfolding usb_control_msg
  usb_control_msg-Keeps dev pipe request requesttype value index buffer size timeout = record {
    at = λ w a w' t e. elim (Bool-cases ((timeout == 0) && not w.asynch_allowed)) [
      | inl refused ↦
          returned (Tabled used) (Any {A = ℤ × List ℕ}) {b = (minus_one, buffer.bytes)} {a = a}
            {v = w} {w' = w'} (ground (arith, refused, e)) t tt
      | inr allowed ↦ sent.at w a w' t (ground (arith, allowed, e))
    ];
  }
    where
      sent :
          Keeps
            (Tabled used)
            (do
              set_setup_packet h (setup_packet_of request requesttype value index size)
              set_status h dev usb_st_not_proc
              r ← submit_control_msg h dev pipe buffer (u16 size)
              control_submitted h dev size timeout r)
            Any
      sent = search (
        keeps_rules, set_setup_packet-Keeps, set_status-Keeps, submit_control_msg-Keeps,
        control_submitted-Keeps,
      )

  bulk_finish-Keeps :
      (dev timeout : ℕ) (bytes : List ℕ) → Keeps (Tabled used) (bulk_finish h dev timeout bytes) Any
  unfolding bulk_finish
  bulk_finish-Keeps dev timeout bytes =
      search (keeps_rules, get_dev-Keeps, wait_processed-Keeps, wait_ms-Keeps)

  pub usb_bulk_msg-Keeps :
      (dev pipe : ℕ) (buffer : Buffer) (len timeout : ℕ)
      → Keeps (Tabled used) (usb_bulk_msg h dev pipe buffer len timeout) Any
  unfolding usb_bulk_msg
  usb_bulk_msg-Keeps dev pipe buffer len timeout =
      search (keeps_rules, set_status-Keeps, submit_bulk_msg-Keeps, bulk_finish-Keeps)
