-- ===== src/Usb/Scan/Port.antt =====
-- The search for a device's port at its parent.
use pure_usb.Prelude.{
  ℕ, zero, suc, ◌+◌, ◌<◌, ◌≤◌, ◌≡◌, ◌≢◌, refl, ◌==◌, Bool-cases, inl, inr, List, Option, none, some,
  get_elem?, length, arith, get_elem?_below,
}
use pure_usb.Usb.Scan.{find_port}

-- The first of `left` entries from `j` on that is the device: none of them is it, or the one at the
-- port is and no earlier one.
pub data FirstPort (j left : ℕ) (children : List (Option ℕ)) (dev : ℕ) : Option ℕ → Type 0 where
  absent :
      ((k : ℕ) → j ≤ k → k < j + left → get_elem? children k ≢ some (some dev))
      → FirstPort j left children dev none
  present :
      (port : ℕ)
      → port < j + left
      → get_elem? children port ≡ some (some dev)
      → ((k : ℕ) → j ≤ k → k < port → get_elem? children k ≢ some (some dev))
      → FirstPort j left children dev (some port)

-- entry `j` is not the device, so the search goes on behind it
later-FirstPort :
    (j left : ℕ) (children : List (Option ℕ)) (dev : ℕ) (r : Option ℕ)
    → get_elem? children j ≢ some (some dev)
    → FirstPort (j + 1) left children dev r
    → FirstPort j (suc left) children dev r
later-FirstPort j left children dev none other (absent no_port) = absent (λ k low high.
    elim (Bool-cases (k == j)) [
      | inl here ↦ λ e. other (ground (arith, e))
      | inr there ↦ no_port k (ground arith) (omega arith)
    ])
later-FirstPort j left children dev (some port) other (present _ below found earlier) =
    present port (omega arith) found (λ k low high. elim (Bool-cases (k == j)) [
      | inl here ↦ λ e. other (ground (arith, e))
      | inr there ↦ earlier k (ground arith) high
    ])

-- one step of the search, by what entry `j` is
step-FirstPort :
    (left j : ℕ) (children : List (Option ℕ)) (dev : ℕ) (child r : Option ℕ)
    → get_elem? children j ≡ some child
    → find_port left (j + 1) children dev ≡ some r
    → FirstPort (j + 1) left children dev r
    → (r' : Option ℕ) × (find_port (suc left) j children dev ≡ some r')
      × FirstPort j (suc left) children dev r'
unfolding find_port
step-FirstPort left j children dev none r e found first = (
  r,
  ground (arith, e, found),
  later-FirstPort j left children dev r (λ f. ground (arith, e, f)) first,
)
step-FirstPort left j children dev (some child) r e found first = elim (Bool-cases (child == dev)) [
  | inl same ↦ (
    some j,
    ground (arith, e, same),
    present j (omega arith) (ground (arith, e, same)) (λ k low high. absurd (omega arith)),
  )
  | inr differs ↦ (
    r,
    ground (arith, e, differs, found),
    later-FirstPort j left children dev r (λ f. ground (arith, e, f, differs)) first,
  )
]

-- The search of a device's port at its parent, if the ports it looks at lie in the table of children,
-- ends with the first of them that has the device, or with none if no port has it.
pub find_port-FirstPort :
    (left j : ℕ) (children : List (Option ℕ)) (dev : ℕ)
    → j + left ≤ length children
    → (r : Option ℕ) × (find_port left j children dev ≡ some r) × FirstPort j left children dev r
unfolding find_port
find_port-FirstPort zero j children dev room =
    (none, refl, absent (λ k low high. absurd (omega arith)))
find_port-FirstPort (suc left) j children dev room =
    let (r, found, first) = find_port-FirstPort left (j + 1) children dev (omega arith) in
    let (child, e) = get_elem?_below children j (omega arith) in
    step-FirstPort left j children dev child r e found first
