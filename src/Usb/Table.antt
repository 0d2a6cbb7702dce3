-- ===== src/Usb/Table.antt =====
-- The device table of usb.c while the functions that talk to devices run: its links, and the sizes of
-- each device's arrays.
pub mod Calls
use pure_usb.Prelude.{
  ℕ, ◌+◌, ◌≤◌, ◌==◌, ◌≡◌, refl, Bool, true, false, List, [], ◌∷◌, Option, none, some, get_elem?,
  set, length, if◌then◌else◌, ◌⊎◌, inl, inr, arith, Option-cases, length-set, get_elem?-set, ap,
  ◌∙◌, get_elem?-set-some,
}
use pure_usb.Device.{Device, DevRequest, Buffer}
use pure_usb.Host.{Host, Completion}
use pure_usb.Usb.{World, M, pure, ◌>>=◌, ◌>>◌, get_dev, put_dev}
use pure_usb.Usb.Devices.Forest.{IsLinked}
use pure_usb.Usb.Keeps.{Keeps, Any, Keeps-forget, returned}

-- the sizes of the arrays that usb.c indexes or copies into
abbrev pub sizes : Device → List ℕ
sizes d =
    length d.mf
    ∷ length d.prod
    ∷ length d.serial
    ∷ length d.toggle
    ∷ length d.halted
    ∷ length d.epmaxpacketin
    ∷ length d.epmaxpacketout
    ∷ length d.config
    ∷ length d.hubdescriptor
    ∷ []

-- the sizes that `struct usb_device` declares
abbrev pub declared : List ℕ
declared = 32 ∷ 32 ∷ 32 ∷ 2 ∷ 2 ∷ 16 ∷ 16 ∷ 1002 ∷ 11 ∷ []

-- `d'` is `d` with other contents, but the same links and array sizes.
pub record Updates (d d' : Device) : Type 0 where
  pub parent : d'.parent ≡ d.parent
  pub children : d'.children ≡ d.children
  pub same_sizes : sizes d' ≡ sizes d

pub Updates-refl : (d : Device) → Updates d d
Updates-refl d = record { parent = refl; children = refl; same_sizes = refl }

pub Updates-trans : {a b c : Device} → Updates a b → Updates b c → Updates a c
Updates-trans u v = record {
  parent = v.parent ∙ u.parent;
  children = v.children ∙ u.children;
  same_sizes = v.same_sizes ∙ u.same_sizes;
}

pub Updates-if :
    (b : Bool) (d x y : Device) → Updates d x → Updates d y → Updates d (if b then x else y)
Updates-if true d x y u v = u
Updates-if false d x y u v = v

-- A table with at least `used` devices, linked as a forest, with the arrays of the declared sizes.
pub record IsTable (used : ℕ) (devs : List Device) (assigned : ℕ) : Type 0 where
  pub linked : IsLinked devs assigned
  pub sized : (i : ℕ) (d : Device) → get_elem? devs i ≡ some d → sizes d ≡ declared
  pub enough : used ≤ assigned

pub set-IsTable :
    (used : ℕ) (devs : List Device) (assigned dev : ℕ) (d d' : Device)
    → IsTable used devs assigned
    → get_elem? devs dev ≡ some d
    → Updates d d'
    → IsTable used (set devs dev d') assigned
set-IsTable used devs assigned dev d d' t at u = record {
  linked = record {
    full = ground (arith, t.linked.full, length-set devs dev d');
    within = t.linked.within;
    parent_before = λ i x p e f.
        ground
          (arith, entry i, u.parent, t.linked.parent_before i x p, t.linked.parent_before i d p);
    children_after = λ i x k c e f. ground (
      arith,
      entry i,
      u.children,
      t.linked.children_after i x k c,
      t.linked.children_after i d k c,
    );
    children_back = λ i x k c n e f g. ground (
      arith,
      entry i,
      entry c,
      u.parent,
      u.children,
      t.linked.children_back i x k c n,
      t.linked.children_back i d k c n,
      t.linked.children_back i x k c d,
      t.linked.children_back i d k c d,
    );
    eight_ports = λ i x e.
        ground (arith, entry i, u.children, t.linked.eight_ports i x, t.linked.eight_ports i d);
  };
  sized = λ i x e. elim (get_elem?-set-some devs dev i d' x e) [
    | inl here ↦ ap sizes here.1 ∙ u.same_sizes ∙ t.sized dev d at
    | inr other ↦ t.sized i x other
  ];
  enough = t.enough;
}
  where
    entry :
        (i : ℕ) → get_elem? (set devs dev d') i ≡ (if dev == i then some d' else get_elem? devs i)
    entry i = get_elem?-set devs dev i d' at

module _ {S : Type 0} where
  -- the invariant of usb.c's state
  abbrev pub Tabled : ℕ → World S → Type 0
  Tabled used w = IsTable used (w.usb_dev) (w.g_dev_index)

  pub get_dev-sized : (used dev : ℕ) → Keeps (Tabled used) (get_dev dev) (λ d. sizes d ≡ declared)
  unfolding get_dev
  get_dev-sized used dev = record {
    at = λ w a w' t e. elim (Option-cases (get_elem? w.usb_dev dev)) [
      | inl gone ↦ ground (arith, gone)
      | inr (d, here) ↦
          returned (Tabled used) (λ x. sizes x ≡ declared) {b = d} {a = a} {v = w} {w' = w'}
            (ground (arith, here, e)) t (t.sized dev d here)
    ];
  }

  pub get_dev-Keeps : (used dev : ℕ) → Keeps (Tabled used) (get_dev dev) Any
  get_dev-Keeps used dev = Keeps-forget (get_dev-sized used dev)

  -- a device is read, and written back with other contents
  pub update-sized :
      (used dev : ℕ) (f : Device → Device)
      → ((d : Device) → sizes d ≡ declared → Updates d (f d))
      → Keeps (Tabled used) (do d ← get_dev dev; put_dev dev (f d)) Any
  unfolding get_dev put_dev
  update-sized used dev f up = record {
    at = λ w a w' t e. elim (Option-cases (get_elem? w.usb_dev dev)) [
      | inl gone ↦ ground (arith, gone)
      | inr (d, here) ↦
          returned (Tabled used) Any {b = tt} {a = a}
            {v = record w { usb_dev = set w.usb_dev dev (f d) }} {w' = w'} (ground (arith, here, e))
            (set-IsTable used (w.usb_dev) (w.g_dev_index) dev d (f d) t here
              (up d (t.sized dev d here)))
            tt
    ];
  }

  pub update-Keeps :
      (used dev : ℕ) (f : Device → Device)
      → ((d : Device) → Updates d (f d))
      → Keeps (Tabled used) (do d ← get_dev dev; put_dev dev (f d)) Any
  update-Keeps used dev f up = update-sized used dev f (λ d _. up d)

  -- the same before the rest of an action, which uses what was read
  pub update_then-Keeps :
      {B : Type 0} {Q : B → Type 0} (used dev : ℕ) (f : Device → Device) (g : Device → M S B)
      → ((d : Device) → Updates d (f d))
      → ((d : Device) → Keeps (Tabled used) (g d) Q)
      → Keeps (Tabled used) (do d ← get_dev dev; put_dev dev (f d); g d) Q
  unfolding get_dev put_dev
  update_then-Keeps used dev f g up rest = record {
    at = λ w a w' t e. elim (Option-cases (get_elem? w.usb_dev dev)) [
      | inl gone ↦ ground (arith, gone)
      | inr (d, here) ↦
          (rest d).at (record w { usb_dev = set w.usb_dev dev (f d) }) a w'
            (set-IsTable used (w.usb_dev) (w.g_dev_index) dev d (f d) t here (up d))
            (ground (arith, here, e))
    ];
  }

  -- the same for contents that may be undefined
  pub compute_then-Keeps :
      {A B : Type 0} {Q : B → Type 0} (used dev : ℕ) (f : Device → Option A)
      (out : Device → A → Device) (g : Device → A → M S B)
      → ((d : Device) (x : A) → f d ≡ some x → Updates d (out d x))
      → ((d : Device) (x : A) → Keeps (Tabled used) (g d x) Q)
      → Keeps
          (Tabled used)
          (get_dev dev >>= λ d. elim (f d) [
            | none ↦ λ w. none
            | some x ↦ put_dev dev (out d x) >> g d x
          ])
          Q
  unfolding get_dev put_dev
  compute_then-Keeps used dev f out g up rest = record {
    at = λ w a w' t e. elim (Option-cases (get_elem? w.usb_dev dev)) [
      | inl gone ↦ ground (arith, gone)
      | inr (d, here) ↦ elim (Option-cases (f d)) [
        | inl undefined ↦ ground (arith, here, undefined)
        | inr (x, made) ↦
            (rest d x).at (record w { usb_dev = set w.usb_dev dev (out d x) }) a w'
              (set-IsTable used (w.usb_dev) (w.g_dev_index) dev d (out d x) t here (up d x made))
              (ground (arith, here, made, e))
      ]
    ];
  }

-- A driver that gives a device back with other contents only.
pub record Conforms (h : Host) : Type 0 where
  pub after_control :
      (devs : List Device) (dev pipe len : ℕ) (buffer : Buffer) (setup : DevRequest) (s : h.State)
      (d : Device) (c : Completion (h.State))
      → get_elem? devs dev ≡ some d
      → h.submit_control_msg devs dev pipe buffer len setup s ≡ some c
      → Updates d c.dev
  pub after_bulk :
      (devs : List Device) (dev pipe len : ℕ) (buffer : Buffer) (s : h.State) (d : Device)
      (c : Completion (h.State))
      → get_elem? devs dev ≡ some d
      → h.submit_bulk_msg devs dev pipe buffer len s ≡ some c
      → Updates d c.dev
