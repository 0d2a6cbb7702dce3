-- ===== src/Ehci/Schedule/Chain.antt =====
-- The descriptors that the controller finds by following the `qt_next` pointers.
use pure_usb.Prelude.{ℕ, zero, suc, ◌==◌, List, [], ◌∷◌, Option, none, some, if◌then◌else◌}
use pure_usb.Ehci.Queue.{Qtd}
use pure_usb.Ehci.Schedule.{Memory, Statics, qt_next_terminate, td_address}

-- the descriptor at an address; `none` if there is none
unfoldable pub td_of : Statics → Memory → ℕ → Option Qtd
td_of s m addr =
    if addr == td_address s 0
    then some m.td0
    else if addr == td_address s 1
    then some m.td1
    else if addr == td_address s 2
    then some m.td2
    else none

-- the descriptors from `addr` on, up to the end mark, at most `fuel` of them
unfoldable pub chain : ℕ → Statics → Memory → ℕ → Option (List Qtd)
unfolding td_of
chain zero s m addr = if addr == qt_next_terminate then some [] else none
chain (suc fuel) s m addr = if addr == qt_next_terminate then some [] else elim (td_of s m addr) [
  | none ↦ none
  | some td ↦ elim (chain fuel s m td.qt_next) [ none ↦ none | some tds ↦ some (td ∷ tds) ]
]
