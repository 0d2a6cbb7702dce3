-- ===== src/Ehci/Record.antt =====
-- The ring that records the last register accesses.
use pure_usb.Prelude.{
  ◌^◌, ℕ, zero, suc, ◌-◌, ◌%◌, ◌<◌, ◌≡◌, List, ◌∷◌, length, get_elem?, set, arith, length-set,
  get_elem?-set_self, get_elem?-set_ne,
}
use pure_usb.Ehci.{
  Controller, Ehci, EhciRec, next_count, put_rec, record_access, ehci_readl, ehci_writel,
}

-- The ring holds the newest 300 entries of `history`, which has the newest access first.
pub record Recorded {S : Type 0} (history : List EhciRec) (e : Ehci S) : Type 0 where
  pub counted : e.g_ehci_counter ≡ length history
  pub room : length e.g_rec ≡ 300
  pub held :
      (k : ℕ)
      → k < 300
      → k < length history
      → get_elem? e.g_rec ((length history - suc k) % 300) ≡ get_elem? history k

-- below 2 ^ 31 the counter is its own value, and counts on
counts :
    (counter : ℕ) (r : EhciRec) (ring : List EhciRec)
    → counter < 2 ^ 31
    → (next_count counter ≡ suc counter) × (put_rec counter r ring ≡ set ring (counter % 300) r)
unfolding next_count put_rec
counts counter r ring few = (ground (arith, few), ground (arith, few))

record_access-Recorded :
    {S : Type 0} (history : List EhciRec) (e : Ehci S) (r : EhciRec)
    → length history < 2 ^ 31
    → Recorded history e
    → Recorded (r ∷ history) (record_access r e)
record_access-Recorded history e r few v =
    let (next, put) = counts e.g_ehci_counter r e.g_rec (omega (arith, few, v.counted)) in
    record {
      counted = omega (arith, next, v.counted);
      room = rw put (omega (arith, v.room, length-set e.g_rec (e.g_ehci_counter % 300) r));
      held = rw put held;
    }
  where
    held :
        (k : ℕ)
        → k < 300
        → k < length (r ∷ history)
        → get_elem? (set e.g_rec (e.g_ehci_counter % 300) r) ((length (r ∷ history) - suc k) % 300)
          ≡ get_elem? (r ∷ history) k
    held zero small known =
        ground (arith, v.counted, v.room, get_elem?-set_self e.g_rec (length history % 300) r)
    held (suc k) small known = ground (
      arith,
      v.counted,
      v.held k (omega arith) (omega arith),
      get_elem?-set_ne e.g_rec {i = length history % 300} {j = (length history - suc k) % 300} r
          (omega arith),
    )

-- Each of the first 2 ^ 31 recorded accesses, read or write, keeps the ring the record of the newest 300
-- accesses, and adds itself: what a read returned, or what was written.
pub access-Recorded :
    (c : Controller) (history : List EhciRec) (e : Ehci c.State) (reg val : ℕ)
    → length history < 2 ^ 31
    → Recorded history e
    → Recorded
        (record { reg = reg; dir = 0; val = (ehci_readl c reg e).0 } ∷ history)
        (ehci_readl c reg e).1
      × Recorded (record { reg = reg; dir = 1; val = val } ∷ history) (ehci_writel c reg val e).1
unfolding ehci_readl ehci_writel
access-Recorded c history e reg val few v = (
  record_access-Recorded history (record e { hw = (c.read reg e.hw).1 })
      (record { reg = reg; dir = 0; val = (c.read reg e.hw).0 }) few
      (record { counted = v.counted; room = v.room; held = v.held }),
  record_access-Recorded history (record e { hw = c.write reg val e.hw })
      (record { reg = reg; dir = 1; val = val }) few
      (record { counted = v.counted; room = v.room; held = v.held }),
)
