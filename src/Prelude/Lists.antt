-- ===== src/Prelude/Lists.antt =====
-- Lists measured and indexed by native numbers, under the library's names.
use Prim.Native.Nat.{ℕ, zero, suc, ◌+◌, ◌-◌, ◌<◌, min}
use mathlib.Core.Path.{◌≡◌, refl, ap}
use mathlib.Core.Logic.{◌≢◌, ◌⊎◌, inl, inr}
use mathlib.Core.List.{List, [], ◌∷◌, ◌++◌, map}
use mathlib.Core.Option.{Option, none, some}
use native.Mathlib.Omega.{arith}
use pure_usb.Prelude.Tests.{◌==◌, if◌then◌else◌}

module _ {ℓ} {A : Type ℓ} where
  abbrev pub length : List A → ℕ
  length [] = 0
  length (x ∷ xs) = suc (length xs)

  abbrev pub get_elem? : List A → ℕ → Option A
  get_elem? [] i = none
  get_elem? (x ∷ xs) zero = some x
  get_elem? (x ∷ xs) (suc i) = get_elem? xs i

  -- A write out of bounds changes nothing.
  abbrev pub set : List A → ℕ → A → List A
  set [] i v = []
  set (x ∷ xs) zero v = v ∷ xs
  set (x ∷ xs) (suc i) v = x ∷ set xs i v

  pub length-append : (xs ys : List A) → length (xs ++ ys) ≡ length xs + length ys
  length-append [] ys = omega arith
  length-append (x ∷ xs) ys = omega (arith, length-append xs ys)

module _ {ℓ} {A : Type ℓ} where
  pub length-set : (xs : List A) (i : ℕ) (v : A) → length (set xs i v) ≡ length xs
  length-set [] i v = refl
  length-set (x ∷ xs) zero v = refl
  length-set (x ∷ xs) (suc i) v = ap suc (length-set xs i v)

  pub get_elem?-set_self :
      (xs : List A) (i : ℕ) (v : A) → i < length xs → get_elem? (set xs i v) i ≡ some v
  get_elem?-set_self [] i v h = elim h [ ]
  get_elem?-set_self (x ∷ xs) zero v h = refl
  get_elem?-set_self (x ∷ xs) (suc i) v h = get_elem?-set_self xs i v (omega arith)

  pub get_elem?-set_ne :
      (xs : List A) {i j : ℕ} (v : A) → i ≢ j → get_elem? (set xs i v) j ≡ get_elem? xs j
  get_elem?-set_ne [] v h = refl
  get_elem?-set_ne (x ∷ xs) {i = zero} {j = zero} v h = absurd (h refl)
  get_elem?-set_ne (x ∷ xs) {i = zero} {j = suc j} v h = refl
  get_elem?-set_ne (x ∷ xs) {i = suc i} {j = zero} v h = refl
  get_elem?-set_ne (x ∷ xs) {i = suc i} {j = suc j} v h = get_elem?-set_ne xs v (λ e. h (ap suc e))

module _ {ℓ} {A : Type ℓ} where
  abbrev pub get_or : List A → ℕ → A → A
  get_or [] i d = d
  get_or (x ∷ xs) zero d = x
  get_or (x ∷ xs) (suc i) d = get_or xs i d

  abbrev pub take : ℕ → List A → List A
  take zero xs = []
  take (suc n) [] = []
  take (suc n) (x ∷ xs) = x ∷ take n xs

  abbrev pub drop : ℕ → List A → List A
  drop zero xs = xs
  drop (suc n) [] = []
  drop (suc n) (x ∷ xs) = drop n xs

  abbrev pub replicate : ℕ → A → List A
  replicate zero a = []
  replicate (suc n) a = a ∷ replicate n a

  pub take-append-drop : (n : ℕ) (xs : List A) → take n xs ++ drop n xs ≡ xs
  take-append-drop zero xs = refl
  take-append-drop (suc n) [] = refl
  take-append-drop (suc n) (x ∷ xs) = rw (take-append-drop n xs)

  pub length-take : (n : ℕ) (xs : List A) → length (take n xs) ≡ min n (length xs)
  length-take zero xs = omega arith
  length-take (suc n) [] = omega arith
  length-take (suc n) (x ∷ xs) = omega (arith, length-take n xs)

  pub length-drop : (n : ℕ) (xs : List A) → length (drop n xs) ≡ length xs - n
  length-drop zero xs = omega arith
  length-drop (suc n) [] = omega arith
  length-drop (suc n) (x ∷ xs) = omega (arith, length-drop n xs)

  pub length-replicate : (n : ℕ) (a : A) → length (replicate n a) ≡ n
  length-replicate zero a = refl
  length-replicate (suc n) a = ap suc (length-replicate n a)

  pub length-map {κ} : {B : Type κ} (xs : List A) (f : A → B) → length (map f xs) ≡ length xs
  length-map [] f = refl
  length-map (x ∷ xs) f = ap suc (length-map xs f)

module _ {ℓ} {A : Type ℓ} where
  pub set-set : (xs : List A) (i : ℕ) (v u : A) → set (set xs i v) i u ≡ set xs i u
  set-set [] i v u = refl
  set-set (x ∷ xs) zero v u = refl
  set-set (x ∷ xs) (suc i) v u = ap (λ t. x ∷ t) (set-set xs i v u)

  pub set_missing : (xs : List A) (i : ℕ) (v : A) → get_elem? xs i ≡ none → set xs i v ≡ xs
  set_missing [] i v e = refl
  set_missing (x ∷ xs) zero v e = cc
  set_missing (x ∷ xs) (suc i) v e = ap (λ t. x ∷ t) (set_missing xs i v e)

  -- A write to an entry that is there is read back.
  pub get_elem?-set_here :
      (xs : List A) (i : ℕ) (v : A) {u : A}
      → get_elem? xs i ≡ some u
      → get_elem? (set xs i v) i ≡ some v
  get_elem?-set_here [] i v e = cc
  get_elem?-set_here (x ∷ xs) zero v e = refl
  get_elem?-set_here (x ∷ xs) (suc i) v e = get_elem?-set_here xs i v e

  pub get_elem?-replicate :
      (n i : ℕ) (a b : A) → get_elem? (replicate n a) i ≡ some b → (a ≡ b) × (i < n)
  get_elem?-replicate zero i a b e = cc
  get_elem?-replicate (suc n) zero a b e = ground arith
  get_elem?-replicate (suc n) (suc i) a b e = ground (arith, get_elem?-replicate n i a b e)

  pub get_elem?_below : (xs : List A) (i : ℕ) → i < length xs → (a : A) × (get_elem? xs i ≡ some a)
  get_elem?_below [] i h = absurd (omega arith)
  get_elem?_below (x ∷ xs) zero h = (x, refl)
  get_elem?_below (x ∷ xs) (suc i) h = get_elem?_below xs i (omega arith)

  pub lt-length : (xs : List A) (i : ℕ) {a : A} → get_elem? xs i ≡ some a → i < length xs
  lt-length [] i e = cc
  lt-length (x ∷ xs) zero e = omega arith
  lt-length (x ∷ xs) (suc i) e = omega (arith, lt-length xs i e)

  pub get_elem?-set :
      (xs : List A) (i j : ℕ) (v : A) {u : A}
      → get_elem? xs i ≡ some u
      → get_elem? (set xs i v) j ≡ (if i == j then some v else get_elem? xs j)
  get_elem?-set [] i j v e = cc
  get_elem?-set (x ∷ xs) zero zero v e = refl
  get_elem?-set (x ∷ xs) zero (suc j) v e = ground arith
  get_elem?-set (x ∷ xs) (suc i) zero v e = ground arith
  get_elem?-set (x ∷ xs) (suc i) (suc j) v e = ground (arith, get_elem?-set xs i j v e)

  -- The same for an entry that need not be there.
  pub get_elem?-set-some :
      (xs : List A) (i j : ℕ) (v u : A)
      → get_elem? (set xs i v) j ≡ some u
      → ((i ≡ j) × (u ≡ v)) ⊎ (get_elem? xs j ≡ some u)
  get_elem?-set-some [] i j v u e = cc
  get_elem?-set-some (x ∷ xs) zero zero v u e = inl (refl, ground arith)
  get_elem?-set-some (x ∷ xs) zero (suc j) v u e = inr e
  get_elem?-set-some (x ∷ xs) (suc i) zero v u e = inr e
  get_elem?-set-some (x ∷ xs) (suc i) (suc j) v u e = elim (get_elem?-set-some xs i j v u e) [
    | inl h ↦ inl (ap suc h.0, h.1)
    | inr h ↦ inr h
  ]

module _ {ℓ} {A : Type ℓ} where
  pub get_or-set_self :
      (xs : List A) (i : ℕ) (v d : A) → i < length xs → get_or (set xs i v) i d ≡ v
  get_or-set_self [] i v d h = absurd (omega arith)
  get_or-set_self (x ∷ xs) zero v d h = refl
  get_or-set_self (x ∷ xs) (suc i) v d h = get_or-set_self xs i v d (omega arith)

  pub get_or-set_ne :
      (xs : List A) (i j : ℕ) (v d : A) → i ≢ j → get_or (set xs i v) j d ≡ get_or xs j d
  get_or-set_ne [] i j v d h = refl
  get_or-set_ne (x ∷ xs) zero zero v d h = absurd (h refl)
  get_or-set_ne (x ∷ xs) zero (suc j) v d h = refl
  get_or-set_ne (x ∷ xs) (suc i) zero v d h = refl
  get_or-set_ne (x ∷ xs) (suc i) (suc j) v d h = get_or-set_ne xs i j v d (λ e. h (ap suc e))

  pub get_or-take :
      (n : ℕ) (xs : List A) (k : ℕ) (d : A) → k < n → get_or (take n xs) k d ≡ get_or xs k d
  get_or-take zero xs k d h = absurd (omega arith)
  get_or-take (suc n) [] k d h = refl
  get_or-take (suc n) (x ∷ xs) zero d h = refl
  get_or-take (suc n) (x ∷ xs) (suc k) d h = get_or-take n xs k d (omega arith)
