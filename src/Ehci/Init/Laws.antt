-- ===== src/Ehci/Init/Laws.antt =====
-- What `ehci_init` sets up.
use pure_usb.Prelude.{
  ℕ, ◌+◌, ◌*◌, ◌/◌, ◌%◌, ◌^◌, ◌<◌, ◌≡◌, ◌==◌, refl, ap, ◌||◌, ◌⊎◌, true, inl, inr, pos, minus_one,
  is_zero, bit_or, has_bits, arith, Bool-cases,
}
use mathlib.Core.Path.{subst}
use pure_usb.Prelude.Bits.{bit_or-disjoint, bit_and-mask}
use pure_usb.Prelude.Testbit.{test_bit-bit_or, test_bit-lt, test_bit-shl, has_bits-one_bit}
use pure_usb.Ehci.{Controller, Ehci, ehci_readl, ehci_writel}
use pure_usb.Ehci.Handshake.{ehci_reset}
use pure_usb.Ehci.Handshake.Kept.{variables, ehci_reset-variables}
use pure_usb.Ehci.Regs.{cr_hcsparams, or_asynclistaddr, hcs_n_ports, hcs_indicator, hcs_ppc}
use pure_usb.Ehci.Schedule.{Statics, Memory, qt_next_terminate}
use pure_usb.Ehci.Init.{reclaim_head, characteristics, start_controller, ehci_init}

-- The hub descriptor says what one word of the structural parameters says.
abbrev pub Describes : ℕ → ℕ → ℕ → ℕ → Type 0
Describes params old ports flags =
    (ports ≡ hcs_n_ports params)
    × (has_bits flags 0x80 ≡ (hcs_indicator params || has_bits old 0x80))
    × (has_bits flags 0x01 ≡ (hcs_ppc params || has_bits old 0x01))

-- The reclaim list is its head alone, which the controller will not execute, and the root hub has at
-- most 15 ports, answers at address 0, and is described by what the register of the structural
-- parameters gives in the state `hw` of the machine.
pub record IsReady (c : Controller) (s : Statics) (old : ℕ) (hw : c.State) (e : Ehci c.State)
    : Type 0 where
  pub head_link : e.memory.qh_list.qh_link ≡ s.qh_list_at + 2
  pub head_marked : has_bits e.memory.qh_list.qh_endpt1 0x8000 ≡ true
  pub head_halted : has_bits e.memory.qh_list.qh_overlay.qt_token 0x40 ≡ true
  pub head_empty : e.memory.qh_list.qh_overlay.qt_next ≡ qt_next_terminate
  pub address : e.rootdev ≡ 0
  pub ports : e.b_nbr_ports < 16
  pub described : Describes (c.read cr_hcsparams hw).0 old e.b_nbr_ports e.w_hub_characteristics

-- a bit of a word that another bit is set in
kept_bit : (k n x : ℕ) → has_bits (bit_or x (2 ^ n)) (2 ^ k) ≡ ((k == n) || has_bits x (2 ^ k))
kept_bit k n x = ground (
  arith,
  has_bits-one_bit k (bit_or x (2 ^ n)),
  has_bits-one_bit k x,
  test_bit-bit_or k x (2 ^ n),
  test_bit-shl n k 1,
  test_bit-lt k x,
)

characteristics-Describes :
    (params old : ℕ) → Describes params old (hcs_n_ports params) (characteristics params old)
unfolding characteristics
characteristics-Describes params old =
    let high = kept_bit 7 7 old in
    let high_kept = kept_bit 7 0 old in
    let low = kept_bit 0 0 old in
    let low_kept = kept_bit 0 7 old in
    let both = kept_bit 7 0 (bit_or old 0x80) in
    let both' = kept_bit 0 0 (bit_or old 0x80) in
    (refl, ground (arith, high, high_kept, both), ground (arith, low, low_kept, both'))

module _ (c : Controller) (s : Statics) where
  open c use {State}

  -- the machine when the address of the list's head has been written
  abbrev listed : Ehci State → State
  listed e = c.write or_asynclistaddr s.qh_list_at e.hw

  -- the same in `ehci_init`, after the reset
  abbrev pub reset_and_listed : Ehci State → State
  reset_and_listed e = listed (ehci_reset c (record e { g_ehci_counter = 0 })).1

  start_controller-IsReady :
      (e : Ehci State)
      → s.qh_list_at % 32 ≡ 0
      → ((start_controller c s e).0 ≡ pos 0)
        × IsReady c s e.w_hub_characteristics (listed e) (start_controller c s e).1
  unfolding start_controller reclaim_head ehci_readl ehci_writel
  start_controller-IsReady e aligned =
      let whole : s.qh_list_at / 32 * 2 ^ 5 ≡ s.qh_list_at = omega arith in
      let linked : bit_or s.qh_list_at 2 ≡ s.qh_list_at + 2 =
        rw (← whole) (bit_or-disjoint 5 (s.qh_list_at / 32) 2 (omega arith)) in
      (
        refl,
        record {
          head_link = linked;
          head_marked = refl;
          head_halted = refl;
          head_empty = refl;
          address = refl;
          ports = omega (arith, bit_and-mask 4 _);
          described = characteristics-Describes _ e.w_hub_characteristics;
        },
      )

  -- If `ehci_init` returns 0, the reclaim list is its head alone, halted and pointing to itself, the
  -- root hub answers at address 0, and the hub descriptor has the number of ports and the two flags of
  -- what the register HCSPARAMS gives when the controller is reset and the list's address is written. It returns -1 otherwise, with all variables as they were
  -- but for the recorded accesses. The head must be aligned.
  pub ehci_init-IsReady :
      (e : Ehci State)
      → s.qh_list_at % 32 ≡ 0
      → (((ehci_init c s e).0 ≡ pos 0)
          × IsReady c s e.w_hub_characteristics (reset_and_listed e) (ehci_init c s e).1)
        ⊎ (((ehci_init c s e).0 ≡ minus_one) × (variables (ehci_init c s e).1 ≡ variables e))
  unfolding ehci_init
  ehci_init-IsReady e aligned =
      let begun : Ehci State = record e { g_ehci_counter = 0 } in
      let reset = ehci_reset c begun in
      let kept = ehci_reset-variables c begun in
      let old : reset.1.w_hub_characteristics ≡ e.w_hub_characteristics =
        ap (λ (v : ℕ × ℕ × ℕ × ℕ × Memory). v.3) kept in
      elim (Bool-cases (is_zero reset.0)) [
        | inl done ↦
            let (zero', ready) = start_controller-IsReady reset.1 aligned in
            let ready' =
              subst (λ (o : ℕ). IsReady c s o (listed reset.1) (start_controller c s reset.1).1) old
                ready in
            inl (rw done (zero', ready'))
        | inr refused ↦ inr (rw refused (refl, kept))
      ]
