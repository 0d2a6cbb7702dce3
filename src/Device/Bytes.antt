-- ===== src/Device/Bytes.antt =====
-- Reading and copying the bytes of a struct.
use pure_usb.Prelude.{
  ℕ, zero, suc, ◌+◌, ◌*◌, ◌≤◌, ◌<◌, ◌≡◌, refl, ap, ◌⊎◌, List, [], ◌∷◌, Option, none, some, length,
  get_or, take, drop, arith, leb, if◌then◌else◌,
}

abbrev pub byte_at : List ℕ → ℕ → ℕ
byte_at xs i = get_or xs i 0

-- a little-endian 16-bit field, as the little-endian processor reads it
abbrev pub le16_at : List ℕ → ℕ → ℕ
le16_at xs i = byte_at xs i + 256 * byte_at xs (i + 1)

-- the bytes of `xs` with `src` written over those from index `i` on
unfoldable pub overlay : List ℕ → ℕ → List ℕ → List ℕ
overlay [] i src = []
overlay (x ∷ xs) (suc i) src = x ∷ overlay xs i src
overlay (x ∷ xs) zero [] = x ∷ xs
overlay (x ∷ xs) zero (b ∷ src) = b ∷ overlay xs zero src

-- memcpy into an object: a write past its end is undefined behaviour
abbrev pub write_bytes : List ℕ → ℕ → List ℕ → Option (List ℕ)
write_bytes xs i src = if leb (i + length src) (length xs) then some (overlay xs i src) else none

-- the `n` bytes from index `i` on; a read past the end of the object is undefined behaviour
abbrev pub read_bytes : List ℕ → ℕ → ℕ → Option (List ℕ)
read_bytes xs i n = if leb (i + n) (length xs) then some (take n (drop i xs)) else none

abbrev pub read_byte : List ℕ → ℕ → Option ℕ
read_byte xs i = if leb (suc i) (length xs) then some (byte_at xs i) else none

pub length-overlay : (xs : List ℕ) (i : ℕ) (src : List ℕ) → length (overlay xs i src) ≡ length xs
unfolding overlay
length-overlay [] i src = refl
length-overlay (x ∷ xs) (suc i) src = ap suc (length-overlay xs i src)
length-overlay (x ∷ xs) zero [] = refl
length-overlay (x ∷ xs) zero (b ∷ src) = ap suc (length-overlay xs zero src)

pub length-write_bytes :
    (xs : List ℕ) (i : ℕ) (src : List ℕ) {ys : List ℕ}
    → write_bytes xs i src ≡ some ys
    → length ys ≡ length xs
length-write_bytes xs i src e = ground (arith, length-overlay xs i src)

-- A byte inside the written range is the source's, a byte outside is as before.
pub byte_at-overlay_inside :
    (xs : List ℕ) (i : ℕ) (src : List ℕ) (k : ℕ)
    → i + length src ≤ length xs
    → k < length src
    → byte_at (overlay xs i src) (i + k) ≡ byte_at src k
unfolding overlay
byte_at-overlay_inside [] i src k h q = absurd (omega arith)
byte_at-overlay_inside (x ∷ xs) (suc i) src k h q =
    ground (arith, byte_at-overlay_inside xs i src k (omega arith) q)
byte_at-overlay_inside (x ∷ xs) zero [] k h q = absurd (omega arith)
byte_at-overlay_inside (x ∷ xs) zero (b ∷ src) zero h q = refl
byte_at-overlay_inside (x ∷ xs) zero (b ∷ src) (suc k) h q =
    ground (arith, byte_at-overlay_inside xs zero src k (omega arith) (omega arith))

pub byte_at-overlay_outside :
    (xs : List ℕ) (i : ℕ) (src : List ℕ) (j : ℕ)
    → (j < i) ⊎ (i + length src ≤ j)
    → byte_at (overlay xs i src) j ≡ byte_at xs j
unfolding overlay
byte_at-overlay_outside [] i src j h = refl
byte_at-overlay_outside (x ∷ xs) (suc i) src zero h = refl
byte_at-overlay_outside (x ∷ xs) (suc i) src (suc j) h =
    byte_at-overlay_outside xs i src j (omega arith)
byte_at-overlay_outside (x ∷ xs) zero [] j h = refl
byte_at-overlay_outside (x ∷ xs) zero (b ∷ src) zero h = absurd (omega arith)
byte_at-overlay_outside (x ∷ xs) zero (b ∷ src) (suc j) h =
    byte_at-overlay_outside xs zero src j (omega arith)

-- Bytes written over all of the object replace them.
pub overlay_whole : (xs src : List ℕ) → length xs ≡ length src → overlay xs 0 src ≡ src
unfolding overlay
overlay_whole [] [] h = refl
overlay_whole [] (b ∷ src) h = absurd (omega arith)
overlay_whole (x ∷ xs) [] h = absurd (omega arith)
overlay_whole (x ∷ xs) (b ∷ src) h = ap (λ r. b ∷ r) (overlay_whole xs src (omega arith))
