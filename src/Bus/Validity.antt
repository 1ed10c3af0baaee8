-- ===== src/Bus/Validity.antt =====
-- The invariant of the bus in src/device/bus.rs, and what `Bus::add` accepts.
use usbvfiod.Prelude.{
  subst, sym, ℕ, ◌+◌, ◌≤◌, ◌<◌, ◌≡◌, refl, ◌↔◌, false, none, List, [], ◌∷◌, ◌++◌, All, arith,
}
use usbvfiod.Interval.{Range, overlaps}
use usbvfiod.Bus.Request.{u64_mod}
use usbvfiod.Bus.Device.{Device}
use usbvfiod.Bus.Routing.{DeviceEntry, Bus, bus_size, ok, new_with_default, find_overlap, add}

module _ {S : Type 0} where
  -- No two entries overlap.
  abbrev pub Separate : List (DeviceEntry S) → Type 0
  Separate [] = Unit {0}
  Separate (e ∷ es) = All (λ f. overlaps e.range f.range ≡ false) es × Separate es

  -- An entry is an interval inside the bus.
  pub record Fits (size : ℕ) (e : DeviceEntry S) : Type 0 where
    pub ordered : e.range.start ≤ e.range.end
    pub inside : e.range.end ≤ size

  pub record IsValid (b : Bus S) : Type 0 where
    pub word : bus_size b < u64_mod
    pub fits : All (Fits (bus_size b)) b.devices
    pub separate : Separate b.devices

  -- A new bus is valid, and has the size of its default device.
  pub new_with_default-IsValid :
      (d : Device S)
      → d.size < u64_mod
      → IsValid (new_with_default d) × (bus_size (new_with_default d) ≡ d.size)
  unfolding new_with_default
  new_with_default-IsValid d h = (record { word = h; fits = tt; separate = tt }, refl)

  All-snoc :
      (P : DeviceEntry S → Type 0) (es : List (DeviceEntry S)) (e : DeviceEntry S)
      → All P es
      → P e
      → All P (es ++ e ∷ [])
  All-snoc P [] e h k = (k, tt)
  All-snoc P (f ∷ es) e h k = (h.0, All-snoc P es e h.1 k)

  Separate-snoc :
      (es : List (DeviceEntry S)) (e : DeviceEntry S)
      → Separate es
      → find_overlap es e.range ≡ none
      → Separate (es ++ e ∷ [])
  unfolding find_overlap
  Separate-snoc [] e h k = (tt, tt)
  Separate-snoc (f ∷ es) e h k =
      (All-snoc _ es e h.0 (ground arith), Separate-snoc es e h.1 (ground arith))

  -- The interval that a device would claim.
  abbrev pub claimed : ℕ → Device S → Range
  claimed start_addr device = record { start = start_addr; end = start_addr + device.size }

  abbrev pub with_device : Bus S → ℕ → Device S → Bus S
  with_device b start_addr device = record b {
    devices = b.devices ++ record { range = claimed start_addr device; device = device } ∷ [];
  }

  -- On a bus that is smaller than 2 ^ 64, `add` accepts a device exactly when its interval ends inside the bus and overlaps no entry, and
  -- then appends just that interval.
  pub add-ok_iff :
      (b : Bus S) (start_addr : ℕ) (device : Device S)
      → bus_size b < u64_mod
      → ((add b start_addr device ≡ ok (with_device b start_addr device)) ↔ (
          (start_addr + device.size ≤ bus_size b)
          × (find_overlap b.devices (claimed start_addr device) ≡ none)))
  unfolding add
  add-ok_iff b start_addr device h = (λ p. ground arith, λ p. ground arith)

  -- What a successful call of `add` shows.
  pub add_inv :
      (b : Bus S) (start_addr : ℕ) (device : Device S) (c : Bus S)
      → add b start_addr device ≡ ok c
      → (c ≡ with_device b start_addr device)
        × (start_addr + device.size ≤ bus_size b)
        × (find_overlap b.devices (claimed start_addr device) ≡ none)
  unfolding add
  add_inv b start_addr device c h = ground arith

  -- A device that `add` accepts leaves a valid bus valid.
  pub add-IsValid :
      (b : Bus S) (start_addr : ℕ) (device : Device S) (c : Bus S)
      → IsValid b
      → add b start_addr device ≡ ok c
      → IsValid c
  add-IsValid b start_addr device c v h =
      let (e, inside, free) = add_inv b start_addr device c h in
      subst IsValid (sym e) (record {
        word = v.word;
        fits = All-snoc _ b.devices _ v.fits (record { ordered = omega arith; inside = inside });
        separate = Separate-snoc b.devices _ v.separate free;
      })
