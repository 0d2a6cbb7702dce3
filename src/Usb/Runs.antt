-- ===== src/Usb/Runs.antt =====
-- Actions of usb.c that always return: a rule for each way to build an action.
use pure_usb.Prelude.{◌≡◌, refl, Bool, true, false, some, if◌then◌else◌, arith}
use pure_usb.Usb.{World, M, pure, ◌>>=◌}
use pure_usb.Usb.Keeps.{Any}

-- From a state that satisfies `I`, `m` returns; so does the state after it, and the value satisfies `Q`.
pub record Runs {S A : Type 0} (I : World S → Type 0) (m : M S A) (Q : A → Type 0) : Type 0 where
  pub at : (w : World S) → I w → (a : A) × (w' : World S) × (m w ≡ some (a, w')) × I w' × Q a

module _ {S A : Type 0} {I : World S → Type 0} where
  pub Runs-pure : {Q : A → Type 0} (a : A) → Q a → Runs I (pure a) Q
  Runs-pure a q = record { at = λ w i. (a, w, refl, i, q) }

  pub Runs-done : (a : A) → Runs I (pure a) Any
  Runs-done a = Runs-pure a tt

  pub Runs-if :
      {Q : A → Type 0} (b : Bool) (m n : M S A)
      → Runs I m Q
      → Runs I n Q
      → Runs I (if b then m else n) Q
  Runs-if true m n rm rn = rm
  Runs-if false m n rm rn = rn

  pub Runs-forget : {Q : A → Type 0} {m : M S A} → Runs I m Q → Runs I m Any
  Runs-forget rm = record { at = λ w i. let (a, w', e, i', q) = rm.at w i in (a, w', e, i', tt) }

module _ {S A B : Type 0} {I : World S → Type 0} where
  pub Runs-bind :
      {R : A → Type 0} {Q : B → Type 0} (m : M S A) (f : A → M S B)
      → Runs I m R
      → ((a : A) → R a → Runs I (f a) Q)
      → Runs I (m >>= f) Q
  Runs-bind m f rm rf = record {
    at = λ w i.
        let (a, w1, e1, i1, r) = rm.at w i in
        let (b, w2, e2, i2, q) = (rf a r).at w1 i1 in (b, w2, ground (arith, e1, e2), i2, q);
  }

  pub Runs-then :
      {Q : B → Type 0} (m : M S A) (f : A → M S B)
      → Runs I m Any
      → ((a : A) → Runs I (f a) Q)
      → Runs I (m >>= f) Q
  Runs-then m f rm rf = Runs-bind m f rm (λ a u. rf a)

pub ruleset runs_rules = (Runs-done, Runs-if, Runs-then)
