-- ===== src/Ehci/Schedule/Build/Stages.antt =====
-- The built schedule against the stages of a USB transfer.
use pure_usb.Prelude.{
  ℕ, ◌+◌, ◌*◌, ◌-◌, ◌%◌, ◌^◌, ◌≤◌, ◌<◌, ◌≡◌, refl, ◌==◌, ltb, not, Bool-cases, inl, inr, pos, List,
  [], ◌∷◌, ◌++◌, map, Option, none, some, length, if◌then◌else◌, arith,
}
use mathlib.Core.Option
use pure_usb.Device.{Device, DevRequest}
use pure_usb.Pipe.{usb_pipein}
use pure_usb.Ehci.Queue.{Qtd, ehci_td_buffer}
use pure_usb.Ehci.Queue.Kept.{ehci_td_buffer-kept}
use pure_usb.Ehci.Queue.Pages.{ehci_td_buffer-succeeds}
use pure_usb.Ehci.Schedule.{Memory, Statics, ehci_alloc, devrequest_size}
use pure_usb.Ehci.Schedule.Chain.{chain}
use pure_usb.Ehci.Schedule.Build.{token_word, build_tds, bit, first_toggle, new_td, attach}

-- One stage of a transfer: the toggle it starts with, its bytes, whether its end is signalled, its
-- direction (0 out, 1 in, 2 setup), and where its bytes lie.
pub record Stage : Type 0 where
  pub toggle : ℕ
  pub length' : ℕ
  pub ioc : ℕ
  pub pid : ℕ
  pub buf : Option (ℕ × ℕ)

-- the direction of the data, and that of the status that answers it
abbrev pub data_pid : ℕ → ℕ
data_pid pipe = bit (not (usb_pipein pipe == 0))

abbrev pub ack_pid : ℕ → ℕ
ack_pid pipe = bit (usb_pipein pipe == 0)

-- A transfer without a request is one data stage that starts from the endpoint's toggle. A request
-- has a SETUP stage, its data if there are any, and a status stage the other way, both from toggle 1.
-- The last stage alone signals its end.
unfoldable pub stages : Statics → Device → ℕ → ℕ → ℕ → Option DevRequest → List Stage
stages s dev pipe addr len none =
    record {
      toggle = first_toggle dev pipe none;
      length' = len;
      ioc = 1;
      pid = data_pid pipe;
      buf = some (addr, len);
    }
    ∷ []
stages s dev pipe addr len (some req) =
    record {
      toggle = 0;
      length' = devrequest_size;
      ioc = 0;
      pid = 2;
      buf = some (s.setup_at, devrequest_size);
    }
      ∷ (if ltb 0 len
          then record {
            toggle = 1;
            length' = len;
            ioc = 0;
            pid = data_pid pipe;
            buf = some (addr, len);
          }
            ∷ []
          else [])
    ++ record { toggle = 1; length' = 0; ioc = 1; pid = ack_pid pipe; buf = none } ∷ []

-- what the controller reads of a descriptor: its token and its page pointers
abbrev pub seen : Qtd → ℕ × List ℕ
seen td = (td.qt_token, td.qt_buffer)

abbrev pub stage_token : Stage → ℕ
stage_token st = token_word st.toggle st.length' st.ioc st.pid

abbrev pub stage_seen : Stage → ℕ × List ℕ
stage_seen st = (stage_token st, (attach st.buf (new_td (stage_token st))).1.qt_buffer)

-- The statics are aligned, and the transfer's bytes and the setup packet lie in the address space and
-- on as many pages as a descriptor can point to.
pub record BufferFits (s : Statics) (addr len : ℕ) : Type 0 where
  pub aligned : s.td_at % 32 ≡ 0
  pub setup_in : s.setup_at + 8 ≤ 2 ^ 32
  pub buffer_in : addr + len ≤ 2 ^ 32
  pub address : addr < 2 ^ 32
  pub pages : addr % 4096 + len ≤ 5 * 4096

buffer-attached :
    (token addr len : ℕ)
    → addr < 2 ^ 32
    → addr + len ≤ 2 ^ 32
    → addr % 4096 + len ≤ 5 * 4096
    → (ehci_td_buffer (new_td token) addr len).0 ≡ pos 0
buffer-attached token addr len low high pages =
    (ehci_td_buffer-succeeds (new_td token) addr len low high refl).1 pages

module _ (s : Statics) (dev : Device) (pipe addr len : ℕ) (m : Memory) where
  -- what the controller finds from the overlay on
  abbrev pub found : Memory → Option (List (ℕ × List ℕ))
  found m' = Option.map (map seen) (chain 3 s m' m'.qh.qh_overlay.qt_next)

  -- a list of descriptors that starts with those of the queue head's allocation
  abbrev pub built : Option DevRequest → Option (Option ℕ) × Memory
  built req = build_tds s dev pipe addr len req (record m { ntds = 0 })

  bulk-stages :
      BufferFits s addr len
      → ((built none).0 ≡ some (some 0))
        × (found (built none).1 ≡ some (map stage_seen (stages s dev pipe addr len none)))
  unfolding build_tds chain stages ehci_alloc
  bulk-stages fits =
      let token = token_word (first_toggle dev pipe none) len 1 (data_pid pipe) in
      let ok = buffer-attached token addr len fits.address fits.buffer_in fits.pages in
      let kept = ehci_td_buffer-kept (new_td token) addr len in
      (ground (arith, ok), ground (arith, ok, kept))

  abbrev pub setup_token : ℕ
  setup_token = token_word 0 devrequest_size 0 2

  control-stages :
      (req : DevRequest)
      → BufferFits s addr len
      → ((built (some req)).0 ≡ some (some (if ltb 0 len then 2 else 1)))
        × (found (built (some req)).1
            ≡ some (map stage_seen (stages s dev pipe addr len (some req))))
  unfolding build_tds chain stages ehci_alloc
  control-stages req fits =
      let token = token_word 1 len 0 (data_pid pipe) in
      let ok = buffer-attached token addr len fits.address fits.buffer_in fits.pages in
      let kept = ehci_td_buffer-kept (new_td token) addr len in
      let setup_ok =
        buffer-attached setup_token s.setup_at 8 (omega (arith, fits.setup_in)) fits.setup_in
          (omega arith) in
      let setup_kept = ehci_td_buffer-kept (new_td setup_token) s.setup_at 8 in
      elim (Bool-cases (ltb 0 len)) [
        | inl more ↦ (
          ground (arith, ok, setup_ok, more),
          ground (arith, ok, kept, setup_ok, setup_kept, more),
        )
        | inr less ↦ (ground (arith, setup_ok, less), ground (arith, setup_ok, setup_kept, less))
      ]

  -- For aligned descriptors and a transfer that fits, `ehci_submit_async` never runs out of
  -- descriptors or pages: it builds one for each stage of the transfer, and from the overlay on the
  -- controller finds exactly these, in order, with each stage's token and pages.
  pub build_tds-stages :
      (req : Option DevRequest)
      → BufferFits s addr len
      → ((built req).0 ≡ some (some (length (stages s dev pipe addr len req) - 1)))
        × (found (built req).1 ≡ some (map stage_seen (stages s dev pipe addr len req)))
  unfolding stages
  build_tds-stages none fits = bulk-stages fits
  build_tds-stages (some req) fits = elim (Bool-cases (ltb 0 len)) [
    | inl more ↦ (ground (arith, (control-stages req fits).0, more), (control-stages req fits).1)
    | inr less ↦ (ground (arith, (control-stages req fits).0, less), (control-stages req fits).1)
  ]
