-- ===== src/Bus/Dispatch.antt =====
-- Which device a request reaches: `Bus::to_device_request` of src/device/bus.rs.
use usbvfiod.Prelude.{
  ◌+◌, ◌-◌, ◌≤◌, ◌<◌, ◌≡◌, refl, true, false, none, some, List, [], ◌∷◌, All, arith, subst, sym,
  ◌∙◌, ◌⊎◌, inl, inr,
}
use mathlib.Core.List.{Memᴰ}
use usbvfiod.Interval.{Range, overlaps, contains_interval}
use usbvfiod.Interval.Laws.{contains_interval_iff}
use usbvfiod.Bus.Request.{bytes, bytes-pos, Request, u64_mod, try_into_range}
use usbvfiod.Bus.Device.{DefaultDevice, default_device}
use usbvfiod.Bus.Routing.{DeviceEntry, Bus, bus_size, claim, to_device_request}
use usbvfiod.Bus.Validity.{Fits, Separate, IsValid}

-- The addresses that a request covers.
abbrev pub span : Request → Range
span req = record { start = req.addr; end = req.addr + bytes req.size }

try_into_range-some :
    (req : Request) → req.addr + bytes req.size < u64_mod → try_into_range req ≡ some (span req)
unfolding try_into_range
try_into_range-some req h = ground arith

-- A request overlaps no interval that is apart from one that contains it.
overlaps_apart :
    (a b r : Range)
    → r.start < r.end
    → overlaps a b ≡ false
    → contains_interval b r ≡ true
    → (overlaps a r ≡ false) × (contains_interval a r ≡ false)
unfolding overlaps contains_interval
overlaps_apart a b r h k c = ground arith

-- No interval apart from one that a request overlaps contains the request.
not_contained :
    (a b r : Range) → overlaps a b ≡ false → overlaps b r ≡ true → contains_interval a r ≡ false
unfolding overlaps contains_interval
not_contained a b r h o = ground arith

module _ {S : Type 0} where
  All-mem :
      (P : DeviceEntry S → Type 0) (e : DeviceEntry S) (es : List (DeviceEntry S))
      → All P es
      → Memᴰ e es
      → P e
  All-mem P e [] h m = elim m [ ]
  All-mem P e (f ∷ es) h (Memᴰ.head p) = subst P (sym p) h.0
  All-mem P e (f ∷ es) h (Memᴰ.tail m) = All-mem P e es h.1 m

  module _ (error_device : DefaultDevice) (req : Request) (r : Range) (e : DeviceEntry S) where
    -- The scan reaches an entry that contains the request: no entry before it overlaps the request.
    claim-contained :
        (es : List (DeviceEntry S))
        → r.start < r.end
        → Separate es
        → contains_interval e.range r ≡ true
        → Memᴰ e es
        → claim es error_device req r
          ≡ some (record req { addr = req.addr - e.range.start }, e.device)
    unfolding claim
    claim-contained [] h sep c m = elim m [ ]
    claim-contained (f ∷ es) h sep c (Memᴰ.head p) = ground arith
    claim-contained (f ∷ es) h sep c (Memᴰ.tail m) =
        let apart = overlaps_apart f.range e.range r h (All-mem _ e es sep.0 m) c in
        rw (apart.1, apart.0) (claim-contained es h sep.1 c m)

    -- A request that overlaps an entry and does not lie in it goes to the error device.
    claim-overlapping :
        (es : List (DeviceEntry S))
        → Separate es
        → overlaps e.range r ≡ true
        → contains_interval e.range r ≡ false
        → Memᴰ e es
        → claim es error_device req r ≡ some (req, default_device error_device)
    unfolding claim
    claim-overlapping [] sep o c m = elim m [ ]
    claim-overlapping (f ∷ es) sep o c (Memᴰ.head p) = ground arith
    claim-overlapping (f ∷ es) sep o c (Memᴰ.tail m) = ground (
      arith,
      not_contained f.range e.range r (All-mem _ e es sep.0 m) o,
      claim-overlapping es sep.1 o c m,
    )

  claim-apart :
      (error_device : DefaultDevice) (req : Request) (r : Range) (es : List (DeviceEntry S))
      → All
          (λ (f : DeviceEntry S).
            (overlaps f.range r ≡ false) × (contains_interval f.range r ≡ false))
          es
      → claim es error_device req r ≡ none
  unfolding claim
  claim-apart d req r [] h = refl
  claim-apart d req r (f ∷ es) h = ground (arith, claim-apart d req r es h.1)

  to_device_request-claim :
      (b : Bus S) (req : Request)
      → req.addr + bytes req.size < u64_mod
      → to_device_request b req ≡ claim b.devices b.error_device req (span req)
  unfolding to_device_request
  to_device_request-claim b req h = rw (try_into_range-some req h)

  -- On a valid bus, a request inside the interval of a device reaches that device at its relative address, which
  -- with the request's size stays inside the device.
  pub to_device_request-contained :
      (b : Bus S) (e : DeviceEntry S) (req : Request)
      → IsValid b
      → Memᴰ e b.devices
      → e.range.start ≤ req.addr
      → req.addr + bytes req.size ≤ e.range.end
      → (to_device_request b req ≡ some (record req { addr = req.addr - e.range.start }, e.device))
        × (req.addr - e.range.start + bytes req.size ≤ e.range.end - e.range.start)
  to_device_request-contained b e req v m lo hi =
      let fits = All-mem (Fits (bus_size b)) e b.devices v.fits m in
      (
        to_device_request-claim b req (omega (arith, fits.inside, v.word))
            ∙ claim-contained b.error_device req (span req) e b.devices
                (omega (arith, bytes-pos req.size)) v.separate
                ((contains_interval_iff e.range (span req)).1 (lo, hi)) m,
        omega arith,
      )

  -- On a valid bus, a request that does not wrap, and that overlaps the interval of a device without
  -- lying in it, reaches the error device, unchanged.
  pub to_device_request-overlapping :
      (b : Bus S) (e : DeviceEntry S) (req : Request)
      → IsValid b
      → Memᴰ e b.devices
      → req.addr + bytes req.size < u64_mod
      → overlaps e.range (span req) ≡ true
      → contains_interval e.range (span req) ≡ false
      → to_device_request b req ≡ some (req, default_device b.error_device)
  to_device_request-overlapping b e req v m h o c =
      to_device_request-claim b req h
      ∙ claim-overlapping b.error_device req (span req) e b.devices v.separate o c m

  -- A request that wraps, or that touches no device, is left to the default device.
  pub to_device_request-unclaimed :
      (b : Bus S) (req : Request)
      → ((u64_mod ≤ req.addr + bytes req.size)
          ⊎ All
              (λ (f : DeviceEntry S).
                (overlaps f.range (span req) ≡ false)
                × (contains_interval f.range (span req) ≡ false))
              b.devices)
      → to_device_request b req ≡ none
  unfolding to_device_request try_into_range
  to_device_request-unclaimed b req (inl wraps) = ground arith
  to_device_request-unclaimed b req (inr apart) =
      ground (arith, claim-apart b.error_device req (span req) b.devices apart)
