-- ===== src/Usb/Devices/Links.antt =====
-- The links of the device table, when a device is added to it.
use pure_usb.Prelude.{
  ℕ, ◌+◌, ◌<◌, ◌==◌, ◌≡◌, List, none, some, get_elem?, set, if◌then◌else◌, arith, length-set,
  get_elem?-set, get_elem?-set-some, get_elem?-replicate, lt-length,
}
use pure_usb.Device.{Device}
use pure_usb.Usb.{World}
use pure_usb.Usb.Devices.Forest.{IsLinked}
use pure_usb.Usb.Devices.{fresh_device}

abbrev pub linked_parent : Device → ℕ → ℕ → Device
linked_parent p port index = record p { children = set p.children port (some index) }

-- the table with a new root at the first free index, and with a new child
abbrev pub with_root : List Device → ℕ → Device → List Device
with_root devs g new = set devs g (record (fresh_device g new) { parent = none })

abbrev pub with_child : List Device → ℕ → ℕ → ℕ → Device → Device → List Device
with_child devs g parent port new p =
    set (set (set devs g (fresh_device g new)) parent (linked_parent p port g)) g
      (record (fresh_device g new) { parent = some parent })

module _ {S : Type 0} where
  pub allocate_root-IsLinked :
      (w : World S) (new : Device)
      → IsLinked (w.usb_dev) (w.g_dev_index)
      → get_elem? w.usb_dev w.g_dev_index ≡ some new
      → IsLinked (with_root (w.usb_dev) (w.g_dev_index) new) (w.g_dev_index + 1)
  allocate_root-IsLinked w new v e = record {
    full = ground (arith, v.full, length-set w.usb_dev g n);
    within = omega (arith, v.full, lt-length w.usb_dev g e);
    parent_before = λ i d p q r. ground (arith, entry i, v.parent_before i d p);
    children_after = λ i d k c q r.
        ground (arith, entry i, v.children_after i d k c, get_elem?-replicate 8 k none (some c));
    children_back = λ i d k c m q r t. ground (
      arith,
      entry i,
      entry c,
      v.children_after i d k c,
      v.children_back i d k c m,
      get_elem?-replicate 8 k none (some c),
    );
    eight_ports = λ i d q. ground (arith, entry i, v.eight_ports i d);
  }
    where
      g : ℕ
      g = w.g_dev_index

      n : Device
      n = record (fresh_device g new) { parent = none }

      entry :
          (i : ℕ)
          → get_elem? (set w.usb_dev g n) i ≡ (if g == i then some n else get_elem? w.usb_dev i)
      entry i = get_elem?-set w.usb_dev g i n e

  -- an entry of the table with a new child
  pub with_child-entry :
      (w : World S) (parent port : ℕ) (new p : Device)
      → parent < w.g_dev_index
      → get_elem? w.usb_dev w.g_dev_index ≡ some new
      → get_elem? w.usb_dev parent ≡ some p
      → (i : ℕ)
      → get_elem? (with_child (w.usb_dev) (w.g_dev_index) parent port new p) i ≡ (
          if w.g_dev_index == i
          then some (record (fresh_device (w.g_dev_index) new) { parent = some parent })
          else if parent == i
          then some (linked_parent p port (w.g_dev_index))
          else get_elem? w.usb_dev i)
  with_child-entry w parent port new p lt e f i =
      let g = w.g_dev_index in
      let q = linked_parent p port g in
      let one = set w.usb_dev g (fresh_device g new) in
      let at_parent : get_elem? one parent ≡ some p =
        ground (arith, f, get_elem?-set w.usb_dev g parent (fresh_device g new) e) in
      let at_new : get_elem? (set one parent q) g ≡ some (fresh_device g new) = ground (
        arith,
        get_elem?-set one parent g q at_parent,
        get_elem?-set w.usb_dev g g (fresh_device g new) e,
      ) in
      ground (
        arith,
        get_elem?-set (set one parent q) g i (record (fresh_device g new) { parent = some parent })
            at_new,
        get_elem?-set one parent i q at_parent,
        get_elem?-set w.usb_dev g i (fresh_device g new) e,
      )

  pub allocate_child-IsLinked :
      (w : World S) (parent port : ℕ) (new p : Device)
      → IsLinked (w.usb_dev) (w.g_dev_index)
      → parent < w.g_dev_index
      → get_elem? w.usb_dev w.g_dev_index ≡ some new
      → get_elem? w.usb_dev parent ≡ some p
      → IsLinked (with_child (w.usb_dev) (w.g_dev_index) parent port new p) (w.g_dev_index + 1)
  allocate_child-IsLinked w parent port new p v lt e f = record {
    full = ground (
      arith,
      v.full,
      length-set (set (set w.usb_dev g (fresh_device g new)) parent q) g n,
      length-set (set w.usb_dev g (fresh_device g new)) parent q,
      length-set w.usb_dev g (fresh_device g new),
    );
    within = omega (arith, v.full, lt-length w.usb_dev g e);
    parent_before =
        λ i d k r t. ground (arith, entry i, v.parent_before i d k, v.parent_before parent p k);
    children_after = λ i d k c r t. ground (
      arith,
      entry i,
      v.children_after i d k c,
      v.children_after parent p k c,
      get_elem?-replicate 8 k none (some c),
      get_elem?-set-some p.children port k (some g) (some c),
    );
    children_back = λ i d k c m r t u. ground (
      arith,
      entry i,
      entry c,
      v.children_after i d k c,
      v.children_after parent p k c,
      v.children_back i d k c m,
      v.children_back i d k c p,
      v.children_back parent p k c m,
      get_elem?-replicate 8 k none (some c),
      get_elem?-set-some p.children port k (some g) (some c),
    );
    eight_ports = λ i d r. ground (
      arith,
      entry i,
      v.eight_ports i d,
      v.eight_ports parent p,
      length-set p.children port (some g),
    );
  }
    where
      g : ℕ
      g = w.g_dev_index

      n : Device
      n = record (fresh_device g new) { parent = some parent }

      q : Device
      q = linked_parent p port g

      entry :
          (i : ℕ)
          → get_elem? (with_child (w.usb_dev) g parent port new p) i
            ≡ (if g == i then some n else if parent == i then some q else get_elem? w.usb_dev i)
      entry i = with_child-entry w parent port new p lt e f i
