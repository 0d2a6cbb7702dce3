-- ===== src/Ehci/Yields.antt =====
-- What the actions of the driver yield, from any state: a rule for each way to build an action.
use pure_usb.Prelude.{Bool, true, false, if◌then◌else◌}
use pure_usb.Ehci.{Ehci, E, return, ◌>>=◌}

-- From any state, the value of `m` and the state after it satisfy `Q`.
pub record Yields {S A : Type 0} (m : E S A) (Q : A → Ehci S → Type 0) : Type 0 where
  pub at : (e : Ehci S) → Q (m e).0 (m e).1

module _ {S A : Type 0} {Q : A → Ehci S → Type 0} where
  pub Yields-return : (a : A) → ((e : Ehci S) → Q a e) → Yields {S = S} (return a) Q
  Yields-return a q = record { at = q }

  pub Yields-if : (b : Bool) (m n : E S A) → Yields m Q → Yields n Q → Yields (if b then m else n) Q
  Yields-if true m n km kn = km
  Yields-if false m n km kn = kn

  pub Yields-then :
      {B : Type 0} (m : E S B) (f : B → E S A) → ((b : B) → Yields (f b) Q) → Yields (m >>= f) Q
  Yields-then m f k = record { at = λ e. let (b, e') = m e in (k b).at e' }

pub ruleset yields_rules = (Yields-return, Yields-if, Yields-then)

-- `m` leaves a state that satisfies `P` from one that does.
pub record Preserves {S A : Type 0} (P : Ehci S → Type 0) (m : E S A) : Type 0 where
  pub at : (e : Ehci S) → P e → P (m e).1

module _ {S A : Type 0} {P : Ehci S → Type 0} where
  pub Preserves-return : (a : A) → Preserves {S = S} P (return a)
  Preserves-return a = record { at = λ e p. p }

  pub Preserves-if :
      (b : Bool) (m n : E S A) → Preserves P m → Preserves P n → Preserves P (if b then m else n)
  Preserves-if true m n km kn = km
  Preserves-if false m n km kn = kn

module _ {S A B : Type 0} {P : Ehci S → Type 0} where
  pub Preserves-then :
      (m : E S A) (f : A → E S B)
      → Preserves P m
      → ((a : A) → Preserves P (f a))
      → Preserves P (m >>= f)
  Preserves-then m f km kf = record { at = λ e p. let (a, e') = m e in (kf a).at e' (km.at e p) }

pub ruleset preserves_rules = (Preserves-return, Preserves-if, Preserves-then)
