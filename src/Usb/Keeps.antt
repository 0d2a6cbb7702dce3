-- ===== src/Usb/Keeps.antt =====
-- Invariants of the actions of usb.c, with what their results satisfy: a rule for each way to build
-- an action.
use pure_usb.Prelude.{
  ◌≡◌, Bool, true, false, Option, some, if◌then◌else◌, Option-cases, inl, inr, arith,
}
use mathlib.Core.Path.{subst}
use pure_usb.Usb.{World, M, pure, ◌>>=◌}

-- a value of which nothing is said
abbrev pub Any : {A : Type 0} → A → Type 0
Any a = Unit {0}

module _ {S : Type 0} where
  -- Where `m` returns from a state that satisfies `I`, so does the state after it, and the value
  -- satisfies `Q`.
  pub record Keeps {A : Type 0} (I : World S → Type 0) (m : M S A) (Q : A → Type 0) : Type 0 where
    pub at : (w : World S) (a : A) (w' : World S) → I w → m w ≡ some (a, w') → I w' × Q a

  -- Where `m` returns, from any state, the value and the state after it satisfy `Q`.
  pub record Leaves {A : Type 0} (m : M S A) (Q : A → World S → Type 0) : Type 0 where
    pub at : (w : World S) (a : A) (w' : World S) → m w ≡ some (a, w') → Q a w'

module _ {S A : Type 0} (I : World S → Type 0) (Q : A → Type 0) where
  -- what an action that has returned `b` in the state `v` leaves
  pub returned :
      {b a : A} {v w' : World S}
      → ◌≡◌ {A = Option (A × World S)} (some (b, v)) (some (a, w'))
      → I v
      → Q b
      → I w' × Q a
  returned e i q = (subst I (ground (arith, e)) i, subst Q (ground (arith, e)) q)

module _ {S A : Type 0} {I : World S → Type 0} where
  pub Keeps-pure : {Q : A → Type 0} (a : A) → Q a → Keeps I (pure a) Q
  Keeps-pure {Q} a q = record { at = λ w b w' i e. returned I Q e i q }

  pub Keeps-if :
      {Q : A → Type 0} (b : Bool) (m n : M S A)
      → Keeps I m Q
      → Keeps I n Q
      → Keeps I (if b then m else n) Q
  Keeps-if true m n km kn = km
  Keeps-if false m n km kn = kn

module _ {S A B : Type 0} {I : World S → Type 0} where
  pub Keeps-bind :
      {R : A → Type 0} {Q : B → Type 0} (m : M S A) (f : A → M S B)
      → Keeps I m R
      → ((a : A) → R a → Keeps I (f a) Q)
      → Keeps I (m >>= f) Q
  Keeps-bind m f km kf = record {
    at = λ w b w' i e. elim (Option-cases (m w)) [
      | inl gone ↦ ground (arith, gone)
      | inr ((a, v), q) ↦
          let kept = km.at w a v i q in (kf a kept.1).at v b w' kept.0 (ground (arith, q))
    ];
  }

-- the rules where nothing is said of the values
module _ {S A : Type 0} {I : World S → Type 0} where
  pub Keeps-done : (a : A) → Keeps I (pure a) Any
  Keeps-done a = Keeps-pure a tt

  pub Keeps-forget : {Q : A → Type 0} {m : M S A} → Keeps I m Q → Keeps I m Any
  Keeps-forget km = record { at = λ w a w' i e. ((km.at w a w' i e).0, tt) }

module _ {S A B : Type 0} {I : World S → Type 0} where
  pub Keeps-then :
      {Q : B → Type 0} (m : M S A) (f : A → M S B)
      → Keeps I m Any
      → ((a : A) → Keeps I (f a) Q)
      → Keeps I (m >>= f) Q
  Keeps-then m f km kf = Keeps-bind m f km (λ a u. kf a)

pub ruleset keeps_rules = (Keeps-done, Keeps-if, Keeps-then)
