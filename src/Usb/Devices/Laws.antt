-- ===== src/Usb/Devices/Laws.antt =====
-- What `usb_alloc_new_device` does to the device table.
use pure_usb.Prelude.{
  ℕ, ◌+◌, ◌<◌, ◌≡◌, refl, List, none, some, get_elem?, set, arith, get_elem?-set_self,
  get_elem?-set_ne, get_elem?-set_here, get_elem?-set, get_elem?_below, set-set,
}
use pure_usb.Device.{Device}
use pure_usb.Usb.{World}
use pure_usb.Usb.Devices.Forest.{IsForest}
use pure_usb.Usb.Devices.Links.{
  linked_parent, with_root, with_child, with_child-entry, allocate_root-IsLinked,
  allocate_child-IsLinked,
}
use pure_usb.Usb.Devices.{usb_alloc_new_device, allocate, fresh_device}

module _ {S : Type 0} where
  pub allocate_root :
      (w : World S) (port : ℕ) {new : Device}
      → get_elem? w.usb_dev w.g_dev_index ≡ some new
      → allocate w.g_dev_index none port w
        ≡ some (
          some w.g_dev_index,
          record w {
            usb_dev = with_root (w.usb_dev) (w.g_dev_index) new;
            g_dev_index = w.g_dev_index + 1;
          },
        )
  unfolding allocate
  allocate_root w port {new} e = ground (
    arith,
    e,
    get_elem?-set_here w.usb_dev w.g_dev_index (fresh_device w.g_dev_index new) e,
    set-set w.usb_dev w.g_dev_index (fresh_device w.g_dev_index new)
        (record (fresh_device w.g_dev_index new) { parent = none }),
  )

  pub allocate_child :
      (w : World S) (parent port : ℕ) {new p : Device}
      → parent < w.g_dev_index
      → get_elem? w.usb_dev w.g_dev_index ≡ some new
      → get_elem? w.usb_dev parent ≡ some p
      → allocate w.g_dev_index (some parent) port w
        ≡ some (
          some w.g_dev_index,
          record w {
            usb_dev = with_child (w.usb_dev) (w.g_dev_index) parent port new p;
            g_dev_index = w.g_dev_index + 1;
          },
        )
  unfolding allocate
  allocate_child w parent port {new} {p} lt e f =
      let g = w.g_dev_index in
      let one_set = set w.usb_dev g (fresh_device g new) in
      ground (
        arith,
        e,
        f,
        get_elem?-set_here w.usb_dev g (fresh_device g new) e,
        get_elem?-set_ne w.usb_dev {i = g} {j = parent} (fresh_device g new) (omega arith),
        get_elem?-set_ne one_set {i = parent} {j = g} (linked_parent p port g) (omega arith),
      )

  -- the world after `usb_alloc_new_device`, with the new device `n` at the first free index
  abbrev pub extended : World S → List Device → World S
  extended w table = record w { usb_dev = table; g_dev_index = w.g_dev_index + 1 }

  pub allocate_root-IsForest :
      (w : World S) (new : Device)
      → IsForest w
      → get_elem? w.usb_dev w.g_dev_index ≡ some new
      → IsForest (extended w (with_root (w.usb_dev) (w.g_dev_index) new))
  allocate_root-IsForest w new v e = record {
    linked = allocate_root-IsLinked w new v.linked e;
    numbered = λ i d q. ground (
      arith,
      get_elem?-set w.usb_dev w.g_dev_index i
          (record (fresh_device (w.g_dev_index) new) { parent = none }) e,
      v.numbered i d,
    );
  }

  allocate_child-IsForest :
      (w : World S) (parent port : ℕ) (new p : Device)
      → IsForest w
      → parent < w.g_dev_index
      → get_elem? w.usb_dev w.g_dev_index ≡ some new
      → get_elem? w.usb_dev parent ≡ some p
      → IsForest (extended w (with_child (w.usb_dev) (w.g_dev_index) parent port new p))
  allocate_child-IsForest w parent port new p v lt e f = record {
    linked = allocate_child-IsLinked w parent port new p v.linked lt e f;
    numbered = λ i d r.
        ground (
          arith,
          with_child-entry w parent port new p lt e f i,
          v.numbered i d,
          v.numbered parent p,
        );
  }

  -- In a forest that is not full, for an assigned parent and a port below 8, `usb_alloc_new_device` returns the first
  -- free device, keeps the table a forest with one more device, gives the new one the parent, and
  -- has the parent's port point to it.
  pub usb_alloc_new_device-IsForest :
      (w : World S) (parent port : ℕ) {p : Device}
      → IsForest w
      → w.g_dev_index < 32
      → port < 8
      → parent < w.g_dev_index
      → get_elem? w.usb_dev parent ≡ some p
      → (w' : World S) × (usb_alloc_new_device (some parent) port w ≡ some (some w.g_dev_index, w'))
        × IsForest w'
        × (w'.g_dev_index ≡ w.g_dev_index + 1)
        × ((n : Device) × (get_elem? w'.usb_dev w.g_dev_index ≡ some n) × (n.parent ≡ some parent))
        × ((q : Device) × (get_elem? w'.usb_dev parent ≡ some q)
            × (get_elem? q.children port ≡ some (some w.g_dev_index)))
  unfolding usb_alloc_new_device
  usb_alloc_new_device-IsForest w parent port {p} v room small lt f =
      let g = w.g_dev_index in
      let (new, e) = get_elem?_below w.usb_dev g (omega (arith, v.linked.full)) in
      let n : Device = record (fresh_device g new) { parent = some parent } in
      let q = linked_parent p port g in
      let entry = with_child-entry w parent port new p lt e f in
      (
        extended w (with_child (w.usb_dev) g parent port new p),
        ground (arith, allocate_child w parent port lt e f),
        allocate_child-IsForest w parent port new p v lt e f,
        refl,
        (n, ground (arith, entry g), refl),
        (
          q,
          ground (arith, entry parent),
          get_elem?-set_self p.children port (some g)
              (omega (arith, v.linked.eight_ports parent p f)),
        ),
      )
