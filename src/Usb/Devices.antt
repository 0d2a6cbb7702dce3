-- ===== src/Usb/Devices.antt =====
-- The device table of usb.c: initialisation, lookup and allocation.
pub mod Forest
pub mod Links
pub mod Laws
pub mod Table
use pure_usb.Prelude.{
  ℕ, zero, suc, ◌+◌, ◌==◌, leb, ◌||◌, Bool, true, false, not, List, Option, none, some, get_elem?,
  set, replicate, if◌then◌else◌, ℤ, pos,
}
use pure_usb.Defs.{usb_max_device, usb_maxchildren}
use pure_usb.Device.{Device, zeroed_device, minus_one32}
use pure_usb.Usb.{World, M, pure, ◌>>=◌, ◌>>◌, get_dev, put_dev}

-- the new device before it is linked to its parent
abbrev pub fresh_device : ℕ → Device → Device
fresh_device index new = record new {
  devnum = index + 1;
  maxchild = 0;
  children = replicate usb_maxchildren none;
}

module _ {S : Type 0} where
  unfoldable pub usb_init : M S ℤ
  usb_init w = some (
    pos 0,
    record w {
      usb_dev = replicate usb_max_device (record zeroed_device { devnum = minus_one32 });
      running = 0;
      g_dev_index = 0;
      asynch_allowed = true;
      usb_started = true;
    },
  )

  pub usb_stop : M S ℤ
  usb_stop w =
      some (
        pos 0,
        if w.usb_started then record w { asynch_allowed = true; usb_started = false } else w,
      )

  pub usb_disable_asynch : Bool → M S (Unit {0})
  usb_disable_asynch disable w = some (tt, record w { asynch_allowed = not disable })

  pub usb_get_dev_index : ℕ → M S (Option ℕ)
  unfolding get_dev
  usb_get_dev_index index = do
    d ← get_dev index
    pure (if d.devnum == minus_one32 then none else some index)

  -- `parent->children[port] = new`, for a parent that is no null pointer
  pub link_child : Option ℕ → ℕ → ℕ → M S (Unit {0})
  unfolding get_dev put_dev
  link_child none port new = pure tt
  link_child (some parent) port new = do
    p ← get_dev parent
    put_dev parent (record p { children = set p.children port (some new) })

  pub allocate : ℕ → Option ℕ → ℕ → M S (Option ℕ)
  unfolding get_dev put_dev link_child
  allocate index parent port = do
    new ← get_dev index
    put_dev index (fresh_device index new)
    link_child parent port index
    d ← get_dev index
    put_dev index (record d { parent = parent })
    λ w. some (some index, record w { g_dev_index = index + 1 })

  -- The result is the index of the new device.
  unfoldable pub usb_alloc_new_device : Option ℕ → ℕ → M S (Option ℕ)
  unfolding allocate
  usb_alloc_new_device parent port w =
      if w.g_dev_index == usb_max_device
      then some (none, w)
      else if leb usb_maxchildren port
      then some (none, w)
      else allocate w.g_dev_index parent port w
