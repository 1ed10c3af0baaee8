-- ===== src/Bus/Coverage.antt =====
-- The chunks of a bulk request: src/device/bus.rs, `BulkRequestIterator`.
use mathlib.Core.List.{Memᴰ}
use usbvfiod.Prelude.{
  ℕ, zero, suc, ◌+◌, ◌-◌, ◌≤◌, ◌<◌, ◌≡◌, refl, false, Option, none, some, List, [], ◌∷◌, All, arith,
  Bool-cases, inl, inr, sym, ap, subst,
}
use usbvfiod.Interval.{contains, overlaps, contains_interval}
use usbvfiod.Bus.Request.{size1, Request, u64_mod}
use usbvfiod.Bus.Device.{Device, byte_request}
use usbvfiod.Bus.Routing.{DeviceEntry, Bus, to_device_request}
use usbvfiod.Bus.Validity.{IsValid}
use usbvfiod.Bus.Dispatch.{to_device_request-contained, to_device_request-unclaimed}
use usbvfiod.Bus.Bulk.{
  BulkRequestChunk, BulkRequestIterator, exhausted, yields, new_iterator, find_containing,
  chunk_size, make_chunk, next, collect, iter_bulk_request,
}

byte_request-lem :
    (o k a : ℕ) → a < u64_mod → o + k ≡ a → byte_request o k ≡ record { addr = a; size = size1 }
byte_request-lem o k a h e = ground arith

module _ {S : Type 0} where
  -- The device that a request reaches, with the request that it sees.
  abbrev or_default : Bus S → Request → Option (Request × Device S) → Request × Device S
  or_default b req none = (req, b.default)
  or_default b req (some p) = p

  abbrev pub route : Bus S → Request → Request × Device S
  route b req = or_default b req (to_device_request b req)

  -- The chunks split the `n` bytes from position `k` on, in order and without gap or overlap, and
  -- each byte of a chunk goes where the bus sends a request for that byte alone.
  abbrev pub Covers : Bus S → ℕ → ℕ → ℕ → List (BulkRequestChunk S) → Type 0
  Covers b offset k n [] = n ≡ 0
  Covers b offset k n (c ∷ cs) =
      (c.data_range.start ≡ k)
      × (0 < chunk_size c)
      × (chunk_size c ≤ n)
      × ((j : ℕ)
          → j < chunk_size c
          → route b (byte_request offset (k + j)) ≡ (byte_request c.device_offset j, c.device))
      × Covers b offset (k + chunk_size c) (n - chunk_size c) cs

  find_containing-some :
      (es : List (DeviceEntry S)) (a : ℕ) (e : DeviceEntry S)
      → find_containing es a ≡ some e
      → Memᴰ e es × (e.range.start ≤ a) × (a < e.range.end)
  unfolding find_containing
  find_containing-some [] a e h = cc
  find_containing-some (f ∷ es) a e h = elim (Bool-cases (contains f.range a)) [
    | inl hit ↦ let p : f ≡ e = ground arith in (Memᴰ.head (sym p), ground arith, ground arith)
    | inr miss ↦
        let (m, lo, hi) = find_containing-some es a e (ground arith) in (Memᴰ.tail m, lo, hi)
  ]

  find_containing-none :
      (es : List (DeviceEntry S)) (a : ℕ)
      → find_containing es a ≡ none
      → All
          (λ (f : DeviceEntry S).
            (overlaps f.range (record { start = a; end = a + 1 }) ≡ false)
            × (contains_interval f.range (record { start = a; end = a + 1 }) ≡ false))
          es
  unfolding find_containing overlaps contains_interval
  find_containing-none [] a h = tt
  find_containing-none (f ∷ es) a h = ground (arith, find_containing-none es a)

  -- The iterator at an address of the request.
  abbrev iterator_at : Bus S → ℕ → ℕ → ℕ → BulkRequestIterator S
  iterator_at b offset len cur = record {
    bus = b;
    request_start = offset;
    request_end = offset + len;
    cur_offset = cur;
  }

  module _ (b : Bus S) (v : IsValid b) (offset len k : ℕ) (inside : offset + len < u64_mod) where
    -- The chunk that `next` makes at position `k`.
    abbrev chunk_at : Option (DeviceEntry S) → BulkRequestChunk S
    chunk_at = make_chunk b (offset + k) k (len - k)

    route_claimed :
        (e : DeviceEntry S) (j : ℕ)
        → Memᴰ e b.devices
        → e.range.start ≤ offset + k
        → offset + k + j < e.range.end
        → k + j < len
        → route b (byte_request offset (k + j))
          ≡ (byte_request (offset + k - e.range.start) j, e.device)
    route_claimed e j m lo hi h =
        let here : byte_request offset (k + j) ≡ record { addr = offset + k + j; size = size1 } =
          byte_request-lem offset (k + j) (offset + k + j) (omega arith) (omega arith) in
        let there : byte_request (offset + k - e.range.start) j
            ≡ record { addr = offset + k + j - e.range.start; size = size1 } =
          byte_request-lem _ j _ (omega arith) (omega arith) in
        rw (here, there)
          (ap (or_default b _)
            (to_device_request-contained b e (record { addr = offset + k + j; size = size1 }) v m
              (omega arith) (omega arith)).0)

    route_unclaimed :
        find_containing b.devices (offset + k) ≡ none
        → k < len
        → route b (byte_request offset k) ≡ (byte_request (offset + k) 0, b.default)
    route_unclaimed f h =
        let here : byte_request offset k ≡ record { addr = offset + k; size = size1 } =
          byte_request-lem offset k (offset + k) (omega arith) refl in
        let there : byte_request (offset + k) 0 ≡ record { addr = offset + k; size = size1 } =
          byte_request-lem (offset + k) 0 (offset + k) (omega arith) (omega arith) in
        rw (here, there)
          (ap (or_default b _) (
            to_device_request-unclaimed b (record { addr = offset + k; size = size1 })
              (inr (find_containing-none b.devices (offset + k) f))))

    -- A chunk is a good step at position `k`.
    record IsStep (c : BulkRequestChunk S) : Type 0 where
      at : c.data_range.start ≡ k
      some_byte : 0 < chunk_size c
      no_more : chunk_size c ≤ len - k
      serves :
          (j : ℕ)
          → j < chunk_size c
          → route b (byte_request offset (k + j)) ≡ (byte_request c.device_offset j, c.device)

    chunk_at-IsStep :
        (o : Option (DeviceEntry S))
        → find_containing b.devices (offset + k) ≡ o
        → k < len
        → IsStep (chunk_at o)
    unfolding make_chunk
    chunk_at-IsStep none f h = record {
      at = refl;
      some_byte = omega arith;
      no_more = omega arith;
      serves = λ j hj.
          let z : j ≡ 0 = omega arith in
          let e : k + j ≡ k = omega arith in rw (e, z) (route_unclaimed f h);
    }
    chunk_at-IsStep (some e) f h =
        let (m, lo, hi) = find_containing-some b.devices (offset + k) e f in
        record {
          at = refl;
          some_byte = omega arith;
          no_more = omega arith;
          serves = λ j hj. route_claimed e j m lo (omega arith) (omega arith);
        }

    next-yields :
        (c : BulkRequestChunk S)
        → chunk_at (find_containing b.devices (offset + k)) ≡ c
        → k < len
        → IsStep c
        → next (iterator_at b offset len (offset + k))
          ≡ some (yields c (iterator_at b offset len (offset + k + chunk_size c)))
    unfolding next
    next-yields c e h s =
        let p : offset + k - offset ≡ k = omega arith in
        let q : offset + len - offset - (offset + k - offset) ≡ len - k = omega arith in
        ground arith

  next-exhausted :
      (b : Bus S) (offset len : ℕ) → next (iterator_at b offset len (offset + len)) ≡ some exhausted
  unfolding next
  next-exhausted b offset len = ground arith

  collect-exhausted :
      (fuel : ℕ) (it : BulkRequestIterator S)
      → next it ≡ some exhausted
      → collect (suc fuel) it ≡ some []
  unfolding collect
  collect-exhausted fuel it h = ground arith

  -- What a run of the iterator is, in terms of its first step.
  collect-yields :
      (fuel : ℕ) (it it' : BulkRequestIterator S) (c : BulkRequestChunk S)
      (cs : List (BulkRequestChunk S))
      → next it ≡ some (yields c it')
      → collect fuel it' ≡ some cs
      → collect (suc fuel) it ≡ some (c ∷ cs)
  unfolding collect
  collect-yields fuel it it' c cs h k = ground arith

  collect-Covers :
      (b : Bus S) (v : IsValid b) (offset len : ℕ) (inside : offset + len < u64_mod)
      (fuel k n a : ℕ)
      → k + n ≡ len
      → offset + k ≡ a
      → n < fuel
      → (cs : List (BulkRequestChunk S)) × (collect fuel (iterator_at b offset len a) ≡ some cs)
        × Covers b offset k n cs
  collect-Covers b v offset len inside zero k n a e ea f = absurd (omega arith)
  collect-Covers b v offset len inside (suc fuel) k zero a e ea f =
      let done : offset + len ≡ a = omega arith in
      ([], rw (← done) (collect-exhausted fuel _ (next-exhausted b offset len)), refl)
  collect-Covers b v offset len inside (suc fuel) k (suc n) a e ea f =
      let c = make_chunk b (offset + k) k (len - k) (find_containing b.devices (offset + k)) in
      let s = chunk_at-IsStep b v offset len k inside _ refl (omega arith) in
      let z = chunk_size c in
      let left : z ≤ suc n = omega (arith, s.no_more) in
      let (cs, run, covers) =
        collect-Covers b v offset len inside fuel (k + z) (suc n - z) (offset + k + z) (omega arith)
          (omega arith) (omega (arith, s.some_byte)) in
      let first = next-yields b v offset len k inside c refl (omega arith) s in
      (
        c ∷ cs,
        subst (λ t. collect (suc fuel) (iterator_at b offset len t) ≡ some (c ∷ cs)) ea
            (collect-yields fuel _ _ c cs first run),
        (s.at, s.some_byte, left, s.serves, covers),
      )

  new_iterator-some :
      (b : Bus S) (offset len : ℕ)
      → offset + len < u64_mod
      → new_iterator b offset len ≡ some (iterator_at b offset len offset)
  unfolding new_iterator
  new_iterator-some b offset len h = ground arith

  -- A bulk request that does not wrap is split by `iter_bulk_request`, without a panic, into chunks
  -- that cover it.
  pub iter_bulk_request-Covers :
      (b : Bus S) (offset len : ℕ)
      → IsValid b
      → offset + len < u64_mod
      → (cs : List (BulkRequestChunk S)) × (iter_bulk_request b offset len ≡ some cs)
        × Covers b offset 0 len cs
  unfolding iter_bulk_request
  iter_bulk_request-Covers b offset len v inside =
      let (cs, run, covers) =
        collect-Covers b v offset len inside (suc len) 0 len offset (omega arith) (omega arith)
          (omega arith) in
      (cs, rw (new_iterator-some b offset len inside, iter_bulk_request) run, covers)
