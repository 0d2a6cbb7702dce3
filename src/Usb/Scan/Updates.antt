-- ===== src/Usb/Scan/Updates.antt =====
-- The changes that enumeration makes to a device leave its links and the sizes of its arrays.
use pure_usb.Prelude.{ℕ, ◌≡◌, refl, List, length, length-set, replicate, get_or, ap}
use pure_usb.Device.{Device}
use pure_usb.Usb.Table.{Updates, sizes, declared}
use pure_usb.Usb.Scan.{unaddressed, addressed}

pub unaddressed-Updates : (d : Device) → Updates d (unaddressed d)
unfolding unaddressed
unaddressed-Updates d = record { parent = refl; children = refl; same_sizes = simp length-set refl }

pub addressed-Updates : (addr : ℕ) (d : Device) → Updates d (addressed addr d)
unfolding addressed
addressed-Updates addr d = record {
  parent = refl;
  children = refl;
  same_sizes = simp length-set refl;
}

pub descriptor-Updates :
    (descriptor : Device → List ℕ) (d : Device) → Updates d (record d { descriptor = descriptor d })
descriptor-Updates descriptor d = record { parent = refl; children = refl; same_sizes = refl }

pub speed-Updates : (speed : ℕ) (d : Device) → Updates d (record d { speed = speed })
speed-Updates speed d = record { parent = refl; children = refl; same_sizes = refl }

-- the first string's 32 bytes, the second's and the third's
abbrev pub text_size : List ℕ → ℕ → ℕ
text_size xs i = get_or xs i 0

pub mf-Updates :
    (mf : List ℕ) (d : Device)
    → length mf ≡ 32
    → sizes d ≡ declared
    → Updates d (record d { mf = mf })
mf-Updates mf d l s = record {
  parent = refl;
  children = refl;
  same_sizes = rw (l, ap (λ (x : List ℕ). text_size x 0) s) refl;
}

pub prod-Updates :
    (prod : List ℕ) (d : Device)
    → length prod ≡ 32
    → sizes d ≡ declared
    → Updates d (record d { prod = prod })
prod-Updates prod d l s = record {
  parent = refl;
  children = refl;
  same_sizes = rw (l, ap (λ (x : List ℕ). text_size x 1) s) refl;
}

pub serial-Updates :
    (serial : List ℕ) (d : Device)
    → length serial ≡ 32
    → sizes d ≡ declared
    → Updates d (record d { serial = serial })
serial-Updates serial d l s = record {
  parent = refl;
  children = refl;
  same_sizes = rw (l, ap (λ (x : List ℕ). text_size x 2) s) refl;
}

pub strings-Updates :
    (d : Device)
    → sizes d ≡ declared
    → Updates d (record d { mf = replicate 32 0; prod = replicate 32 0; serial = replicate 32 0 })
strings-Updates d s = record {
  parent = refl;
  children = refl;
  same_sizes =
      rw
        (
          ap (λ (x : List ℕ). text_size x 0) s,
          ap (λ (x : List ℕ). text_size x 1) s,
          ap (λ (x : List ℕ). text_size x 2) s,
        )
        refl;
}
