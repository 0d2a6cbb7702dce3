-- ===== src/Ehci/Handshake/Laws.antt =====
-- `handshake` against the sequence of words that polling yields.
use pure_usb.Prelude.{
  ℕ, zero, suc, ◌<◌, ◌^◌, ◌-◌, ◌≡◌, ◌≢◌, refl, ℤ, pos, negsuc, false, Option, none, some, max,
  bit_and, has_bits, arith,
}
use pure_usb.Ehci.{Controller, Ehci}
use pure_usb.Ehci.Regs.{sts_fatal}
use pure_usb.Ehci.Handshake.{verdict, poll, rounds, handshake}

module _ (c : Controller) (ptr mask done : ℕ) where
  open c use {State}

  -- the driver's state after `k` polls, and the word that the next one reads
  abbrev pub after_polls : ℕ → Ehci State → Ehci State
  after_polls zero e = e
  after_polls (suc k) e = after_polls k (poll c ptr e).1

  abbrev pub polled : ℕ → Ehci State → ℕ
  polled k e = (poll c ptr (after_polls k e)).0

  rounds-decided :
      (n i : ℕ) (v : ℤ) (e : Ehci State)
      → i < n
      → ((j : ℕ) → j < i → verdict mask done (polled j e) ≡ none)
      → verdict mask done (polled i e) ≡ some v
      → rounds c ptr mask done n e ≡ (v, after_polls (suc i) e)
  unfolding rounds
  rounds-decided zero i v e h before now = absurd (omega arith)
  rounds-decided (suc n) zero v e h before now = ground (arith, now)
  rounds-decided (suc n) (suc i) v e h before now = ground (
    arith,
    before 0 (omega arith),
    rounds-decided n i v (poll c ptr e).1 (omega arith) (λ j q. before (suc j) (omega arith)) now,
  )

  rounds-undecided :
      (n : ℕ) (e : Ehci State)
      → ((j : ℕ) → j < n → verdict mask done (polled j e) ≡ none)
      → rounds c ptr mask done n e ≡ (negsuc 1, after_polls n e)
  unfolding rounds
  rounds-undecided zero e before = refl
  rounds-undecided (suc n) e before = ground (
    arith,
    before 0 (omega arith),
    rounds-undecided n (poll c ptr e).1 (λ j q. before (suc j) (omega arith)),
  )

  -- `handshake` polls up to the first word that decides, if that comes within its rounds, returns
  -- what the word decides, and polls no further.
  pub handshake-decided :
      (usec i : ℕ) (v : ℤ) (e : Ehci State)
      → i < max 1 usec
      → ((j : ℕ) → j < i → verdict mask done (polled j e) ≡ none)
      → verdict mask done (polled i e) ≡ some v
      → handshake c ptr mask done usec e ≡ (v, after_polls (suc i) e)
  unfolding handshake
  handshake-decided usec i v e h before now = rounds-decided (max 1 usec) i v e h before now

  -- If no word of its rounds decides, `handshake` polls in all of them and returns -2.
  handshake-undecided :
      (usec : ℕ) (e : Ehci State)
      → ((j : ℕ) → j < max 1 usec → verdict mask done (polled j e) ≡ none)
      → handshake c ptr mask done usec e ≡ (negsuc 1, after_polls (max 1 usec) e)
  unfolding handshake
  handshake-undecided usec e before = rounds-undecided (max 1 usec) e before

  verdict-zero :
      (w : ℕ)
      → verdict mask done w ≡ some (pos 0)
      → (w ≢ 2 ^ 32 - 1) × (has_bits w sts_fatal ≡ false) × (bit_and w mask ≡ done)
  unfolding verdict
  verdict-zero w e = ground arith

  rounds-zero :
      (n : ℕ) (e : Ehci State)
      → (rounds c ptr mask done n e).0 ≡ pos 0
      → (i : ℕ) × (i < n)
        × (verdict mask done (polled i e) ≡ some (pos 0))
        × ((rounds c ptr mask done n e).1 ≡ after_polls (suc i) e)
  unfolding rounds
  rounds-zero zero e h = cc
  rounds-zero (suc n) e h =
      go (rounds-zero n (poll c ptr e).1) (verdict mask done (polled 0 e)) refl
    where
      go :
          ((rounds c ptr mask done n (poll c ptr e).1).0 ≡ pos 0
            → (i : ℕ) × (i < n)
              × (verdict mask done (polled i (poll c ptr e).1) ≡ some (pos 0))
              × ((rounds c ptr mask done n (poll c ptr e).1).1
                  ≡ after_polls (suc i) (poll c ptr e).1))
          → (v : Option ℤ) → verdict mask done (polled 0 e) ≡ v
          → (i : ℕ) × (i < suc n)
            × (verdict mask done (polled i e) ≡ some (pos 0))
            × ((rounds c ptr mask done (suc n) e).1 ≡ after_polls (suc i) e)
      go later none q =
          let (i, lt, decides, state) = later (ground (arith, q, h)) in
          (suc i, omega arith, decides, ground (arith, q, state))
      go later (some v) q = (0, omega arith, ground (arith, q, h), ground (arith, q))
