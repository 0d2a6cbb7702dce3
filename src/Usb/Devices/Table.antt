-- ===== src/Usb/Devices/Table.antt =====
-- usb_alloc_new_device and the device table.
use pure_usb.Prelude.{
  ℕ, suc, ◌+◌, ◌<◌, ◌==◌, leb, false, ◌≡◌, refl, Option, none, some, get_elem?, arith, Bool-cases,
  inl, inr, get_elem?_below, get_elem?-set,
}
use pure_usb.Device.{Device}
use pure_usb.Usb.{World}
use pure_usb.Usb.Keeps.{Keeps, Any, returned}
use pure_usb.Usb.Table.{IsTable, Tabled}
use pure_usb.Usb.Devices.Links.{
  with_root, with_child, with_child-entry, allocate_root-IsLinked, allocate_child-IsLinked,
}
use pure_usb.Usb.Devices.Laws.{allocate_root, allocate_child}
use pure_usb.Usb.Devices.{usb_alloc_new_device, allocate, fresh_device}

-- what a parent must be for a device to get it
abbrev pub ParentFits : ℕ → Option ℕ → Type 0
ParentFits used none = Unit {0}
ParentFits used (some parent) = parent < used

module _ {S : Type 0} where
  root-IsTable :
      (used : ℕ) (w : World S) (new : Device)
      → Tabled used w
      → get_elem? w.usb_dev w.g_dev_index ≡ some new
      → IsTable (suc used) (with_root (w.usb_dev) (w.g_dev_index) new) (w.g_dev_index + 1)
  root-IsTable used w new t e = record {
    linked = allocate_root-IsLinked w new t.linked e;
    sized = λ i d q. ground (
      arith,
      get_elem?-set w.usb_dev w.g_dev_index i
          (record (fresh_device (w.g_dev_index) new) { parent = none }) e,
      t.sized i d,
      t.sized w.g_dev_index new e,
    );
    enough = omega (arith, t.enough);
  }

  child-IsTable :
      (used : ℕ) (w : World S) (parent port : ℕ) (new p : Device)
      → Tabled used w
      → parent < w.g_dev_index
      → get_elem? w.usb_dev w.g_dev_index ≡ some new
      → get_elem? w.usb_dev parent ≡ some p
      → IsTable
          (suc used)
          (with_child (w.usb_dev) (w.g_dev_index) parent port new p)
          (w.g_dev_index + 1)
  child-IsTable used w parent port new p t lt e f = record {
    linked = allocate_child-IsLinked w parent port new p t.linked lt e f;
    sized = λ i d q. ground (
      arith,
      with_child-entry w parent port new p lt e f i,
      t.sized i d,
      t.sized w.g_dev_index new e,
      t.sized parent p f,
    );
    enough = omega (arith, t.enough);
  }

  -- A device is added to a table that is not full.
  allocate-Tabled :
      (used : ℕ) (w : World S) (parent : Option ℕ) (port : ℕ)
      → Tabled used w
      → ParentFits used parent
      → (w.g_dev_index == 32) ≡ false
      → (w1 : World S) × (allocate w.g_dev_index parent port w ≡ some (some w.g_dev_index, w1))
        × Tabled (suc used) w1
        × (w1.g_dev_index ≡ w.g_dev_index + 1)
  allocate-Tabled used w none port t fits room =
      let (new, e) =
        get_elem?_below w.usb_dev w.g_dev_index
          (ground (arith, t.linked.full, t.linked.within, room)) in
      (_, allocate_root w port e, root-IsTable used w new t e, refl)
  allocate-Tabled used w (some parent) port t fits room =
      let (new, e) =
        get_elem?_below w.usb_dev w.g_dev_index
          (ground (arith, t.linked.full, t.linked.within, room)) in
      let (p, f) =
        get_elem?_below w.usb_dev parent
          (omega (arith, t.linked.full, t.linked.within, t.enough)) in
      let lt : parent < w.g_dev_index = omega (arith, t.enough) in
      (
        _,
        allocate_child w parent port lt e f,
        child-IsTable used w parent port new p t lt e f,
        refl,
      )

  pub usb_alloc_new_device-Keeps :
      (used : ℕ) (parent : Option ℕ) (port : ℕ)
      → ParentFits used parent
      → Keeps {S = S} (Tabled used) (usb_alloc_new_device parent port) Any
  unfolding usb_alloc_new_device
  usb_alloc_new_device-Keeps used parent port fits = record {
    at = λ w a w' t e. elim (Bool-cases (w.g_dev_index == 32)) [
      | inl full ↦
          returned (Tabled used) (Any {A = Option ℕ}) {b = none} {a = a} {v = w} {w' = w'}
            (ground (arith, full, e)) t tt
      | inr room ↦ elim (Bool-cases (leb 8 port)) [
        | inl big ↦
            returned (Tabled used) (Any {A = Option ℕ}) {b = none} {a = a} {v = w} {w' = w'}
              (ground (arith, room, big, e)) t tt
        | inr small ↦
            let (w1, done, kept, next) = allocate-Tabled used w parent port t fits room in
            returned (Tabled used) (Any {A = Option ℕ}) {b = some w.g_dev_index} {a = a} {v = w1}
              {w' = w'} (ground (arith, room, small, done, e))
              (record {
                linked = kept.linked;
                sized = kept.sized;
                enough = omega (arith, kept.enough);
              })
              tt
      ]
    ];
  }

  -- In a table that is not full, a device without a parent is the first free one.
  pub usb_alloc_new_device-first :
      (used : ℕ) (w : World S)
      → Tabled used w
      → (w.g_dev_index == 32) ≡ false
      → (w1 : World S) × (usb_alloc_new_device none 0 w ≡ some (some w.g_dev_index, w1))
        × Tabled (suc used) w1
  unfolding usb_alloc_new_device
  usb_alloc_new_device-first used w t room =
      let (w1, done, kept, next) = allocate-Tabled used w none 0 t tt room in
      (w1, ground (arith, room, done), kept)
