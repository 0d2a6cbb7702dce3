-- ===== src/Usb/Devices/Forest.antt =====
-- The device table stays a forest: numbered from 1 without gaps, each parent before its children, and
-- each child pointing back to its parent.
use pure_usb.Prelude.{
  ℕ, ◌+◌, ◌≤◌, ◌<◌, ◌≡◌, refl, ltb, true, List, none, some, get_elem?, length, replicate, pos,
  if◌then◌else◌, arith, get_elem?-replicate,
}
use pure_usb.Defs.{usb_max_device}
use pure_usb.Device.{Device, zeroed_device, minus_one32}
use pure_usb.Usb.{World}
use pure_usb.Usb.Devices.{usb_init}

abbrev pub unassigned : Device
unassigned = record zeroed_device { devnum = minus_one32 }

-- The links of a table of which `assigned` devices are handed out.
pub record IsLinked (devs : List Device) (assigned : ℕ) : Type 0 where
  pub full : length devs ≡ 32
  pub within : assigned ≤ 32
  pub parent_before :
      (i : ℕ) (d : Device) (p : ℕ)
      → get_elem? devs i ≡ some d
      → d.parent ≡ some p
      → (p < i) × (i < assigned)
  pub children_after :
      (i : ℕ) (d : Device) (k c : ℕ)
      → get_elem? devs i ≡ some d
      → get_elem? d.children k ≡ some (some c)
      → (i < c) × (c < assigned)
  pub children_back :
      (i : ℕ) (d : Device) (k c : ℕ) (n : Device)
      → get_elem? devs i ≡ some d
      → get_elem? d.children k ≡ some (some c)
      → get_elem? devs c ≡ some n
      → n.parent ≡ some i
  pub eight_ports : (i : ℕ) (d : Device) → get_elem? devs i ≡ some d → length d.children ≡ 8

pub unassigned-IsLinked : IsLinked (replicate 32 unassigned) 0
unassigned-IsLinked = record {
  full = refl;
  within = omega arith;
  parent_before = λ i d p e f. ground (arith, get_elem?-replicate 32 i unassigned d e);
  children_after = λ i d k c e f.
      ground
        (arith, get_elem?-replicate 32 i unassigned d e, get_elem?-replicate 8 k none (some c));
  children_back = λ i d k c n e f g.
      ground
        (arith, get_elem?-replicate 32 i unassigned d e, get_elem?-replicate 8 k none (some c));
  eight_ports = λ i d e. ground (arith, get_elem?-replicate 32 i unassigned d e);
}

module _ {S : Type 0} where
  pub record IsForest (w : World S) : Type 0 where
    pub linked : IsLinked (w.usb_dev) (w.g_dev_index)
    pub numbered :
        (i : ℕ) (d : Device)
        → get_elem? w.usb_dev i ≡ some d
        → d.devnum ≡ (if ltb i w.g_dev_index then i + 1 else minus_one32)

  -- the state that `usb_init` leaves
  abbrev pub initial : World S → World S
  initial w = record w {
    usb_dev = replicate usb_max_device (record zeroed_device { devnum = minus_one32 });
    running = 0;
    g_dev_index = 0;
    asynch_allowed = true;
    usb_started = true;
  }

  -- `usb_init` returns 0 and leaves a table of 32 unassigned devices, linked to nothing, whatever was
  -- there before.
  pub usb_init-IsForest :
      (w : World S) → (usb_init w ≡ some (pos 0, initial w)) × IsForest (initial w)
  unfolding usb_init
  usb_init-IsForest w = (
    refl,
    record {
      linked = unassigned-IsLinked;
      numbered = λ i d e. ground (arith, get_elem?-replicate 32 i unassigned d e);
    },
  )
