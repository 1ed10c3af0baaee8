-- ===== src/EventRing/Slots.antt =====
-- The operations of src/device/xhci/event_ring.rs on the slots of the ring.
use usbvfiod.Prelude.{
  ℕ, ◌+◌, ◌-◌, ◌%◌, ◌^◌, ◌<◌, ◌≡◌, ◌≢◌, refl, ◌==◌, ==_refl, ◌⊎◌, ap₂, ==_iff, ltb, ltb→lt, lt→ltb,
  Bool, true, false, not, none, some, List, arith, ap, ◌∙◌, sym, subst, ◌>>=◌, bit_and, Bool-cases,
  inl, inr,
}
use native.Mathlib.Nat.{mod-eq_of_lt, mod_self, sub-zero}
use usbvfiod.Bus.Request.{u64_mod}
use usbvfiod.Bus.Device.{Device}
use usbvfiod.Trb.Event.{EventTrb, to_bytes}
use usbvfiod.EventRing.{
  EventRing, reset, entry_addr, segment_base, segment_size, trb_size, configure,
  check_event_ring_full, next_segment, load_segment, advance_segment_or_wrap,
  advance_enqueue_pointer, enqueue,
}
use usbvfiod.EventRing.Segments.{
  Segment, Position, start, IsTable, InTable, address, next, ring_of, Holds,
}

module _ (n : ℕ) (segments : ℕ → Segment) where
  -- The next slot, by where a slot is: inside its segment, at the end of one that another follows,
  -- and at the end of the last.
  pub data Next (p : Position) : Position → Type 0 where
    inside : p.offset + 1 < (segments p.segment).size → Next p (record p { offset = p.offset + 1 })
    over :
        p.offset + 1 ≡ (segments p.segment).size
        → p.segment + 1 < n
        → Next p (record { segment = p.segment + 1; offset = 0; cycle = p.cycle })
    wrap :
        p.offset + 1 ≡ (segments p.segment).size
        → p.segment + 1 ≡ n
        → Next p (record { segment = 0; offset = 0; cycle = not p.cycle })

  pub next-Next : (p : Position) → InTable n segments p → Next p (next n segments p)
  unfolding next
  next-Next p h = elim (Bool-cases (ltb (p.offset + 1) (segments p.segment).size)) [
    | inl a ↦ rw a (inside (ltb→lt _ _ a))
    | inr a ↦ elim (Bool-cases (p.segment + 1 == n)) [
      | inl b ↦ rw (a, b) (wrap (ground arith) ((==_iff _ _).0 b))
      | inr b ↦ rw (a, b) (over (ground arith) (ground arith))
    ]
  ]

  address-base :
      (i : ℕ) (cycle : Bool)
      → IsTable n segments
      → i < n
      → address n segments (record { segment = i; offset = 0; cycle = cycle }) ≡ (segments i).base
  unfolding address
  address-base i cycle t h = omega (arith, t.bases i h)

  address-inside :
      (p : Position)
      → address n segments (record p { offset = p.offset + 1 })
        ≡ (address n segments p + trb_size) % u64_mod
  unfolding address
  address-inside p = omega arith

not_equal : (a b : ℕ) → a ≢ b → (a == b) ≡ false
not_equal a b h = ground arith

module _ {S : Type 0} (dma : Device S) (ring : EventRing) (base_address n : ℕ) (s : S) where
  check-one :
      (d v : ℕ)
      → ring.trb_count ≡ 1
      → ring.erst_count + 1 < 2 ^ 32
      → 0 < n
      → dma.read (segment_base (entry_addr base_address ((ring.erst_count + 1) % n))) s
        ≡ some (v, s)
      → check_event_ring_full dma ring base_address n d s ≡ some ((d == v), s)
  unfolding check_event_ring_full
  check-one d v one few pos r =
      rw (check_event_ring_full, one, ◌>>=◌, lt→ltb _ _ few, lt→ltb _ _ pos, r) refl

  check-many :
      (d : ℕ)
      → ring.trb_count ≢ 1
      → check_event_ring_full dma ring base_address n d s
        ≡ some ((d == (ring.enqueue_pointer + trb_size) % u64_mod), s)
  unfolding check_event_ring_full
  check-many d many = ground arith

  advance-inside :
      ring.trb_count ≢ 0
      → advance_enqueue_pointer dma ring base_address n s
        ≡ some (record ring { enqueue_pointer = (ring.enqueue_pointer + trb_size) % u64_mod }, s)
  unfolding advance_enqueue_pointer
  advance-inside h = ground arith

  advance-end :
      ring.trb_count ≡ 0
      → advance_enqueue_pointer dma ring base_address n s
        ≡ advance_segment_or_wrap dma ring base_address n s
  unfolding advance_enqueue_pointer
  advance-end z = rw (advance_enqueue_pointer, z) refl

  advance-over :
      ring.trb_count ≡ 0
      → ring.erst_count + 1 < 2 ^ 32
      → ring.erst_count + 1 ≢ n
      → advance_enqueue_pointer dma ring base_address n s
        ≡ load_segment dma (record ring { erst_count = ring.erst_count + 1 }) base_address s
  unfolding advance_segment_or_wrap next_segment
  advance-over z few h =
      advance-end z
      ∙ rw
          (
            advance_segment_or_wrap,
            ◌>>=◌,
            lt→ltb _ _ few,
            next_segment,
            not_equal (ring.erst_count + 1) n h,
          )
          refl

  advance-wrap :
      ring.trb_count ≡ 0
      → ring.erst_count + 1 < 2 ^ 32
      → ring.erst_count + 1 ≡ n
      → advance_enqueue_pointer dma ring base_address n s
        ≡ load_segment dma
            (record ring { erst_count = 0; cycle_state = not ring.cycle_state })
            base_address
            s
  unfolding advance_segment_or_wrap next_segment
  advance-wrap z few h =
      advance-end z
      ∙ rw (advance_segment_or_wrap, ◌>>=◌, lt→ltb _ _ few, next_segment, (==_iff _ _).1 h) refl

module _ {S : Type 0} (dma : Device S) (n : ℕ) (segments : ℕ → Segment) (base_address : ℕ)
    (put : ℕ → List ℕ → S → S) (I : S → Type 0) where
  check-Next :
      (p q : Position) (d : ℕ) (s : S)
      → Next n segments p q
      → IsTable n segments
      → Holds n segments dma base_address put I
      → I s
      → InTable n segments p
      → check_event_ring_full dma (ring_of n segments p) base_address n d s
        ≡ some ((d == address n segments q), s)
  unfolding ring_of
  check-Next p _ d s (inside h) t m i k =
      check-many dma (ring_of n segments p) base_address n s d (omega arith)
      ∙ ap (λ a. some ((d == a), s)) (sym (address-inside n segments p))
  check-Next p _ d s (over h lt) t m i k =
      check-one dma (ring_of n segments p) base_address n s d (segments (p.segment + 1)).base
        (omega arith) (omega (arith, t.few)) (omega arith)
        (rw (mod-eq_of_lt lt) (m.reads_base s (p.segment + 1) i lt))
      ∙ ap (λ a. some ((d == a), s)) (sym (address-base n segments (p.segment + 1) p.cycle t lt))
  check-Next p _ d s (wrap h e) t m i k =
      check-one dma (ring_of n segments p) base_address n s d (segments 0).base (omega arith)
        (omega (arith, t.few)) (omega arith) (rw (e, mod_self n) (m.reads_base s 0 i t.not_empty))
      ∙ ap (λ a. some ((d == a), s)) (sym (address-base n segments 0 (not p.cycle) t t.not_empty))

  -- The ring, with its table in guest memory, counts as full exactly where the dequeue pointer is the
  -- address of the next slot, across the ends of segments too.
  pub check_event_ring_full-next :
      (p : Position) (dequeue_pointer : ℕ) (s : S)
      → IsTable n segments
      → Holds n segments dma base_address put I
      → I s
      → InTable n segments p
      → check_event_ring_full dma (ring_of n segments p) base_address n dequeue_pointer s
        ≡ some ((dequeue_pointer == address n segments (next n segments p)), s)
  check_event_ring_full-next p d s t m i k =
      check-Next p (next n segments p) d s (next-Next n segments p k) t m i k

  load_segment-lem :
      (j : ℕ) (cycle : Bool) (ep c : ℕ) (s : S)
      → IsTable n segments
      → Holds n segments dma base_address put I
      → I s
      → j < n
      → load_segment dma
          (record { enqueue_pointer = ep; trb_count = c; erst_count = j; cycle_state = cycle })
          base_address
          s
        ≡ some (ring_of n segments (record { segment = j; offset = 0; cycle = cycle }), s)
  unfolding load_segment ring_of
  load_segment-lem j cycle ep c s t m i h =
      rw
        (
          load_segment,
          ◌>>=◌,
          m.reads_base s j i h,
          m.reads_size s j i h,
          address-base n segments j cycle t h,
          mod-eq_of_lt (t.sizes j h),
          sub-zero (segments j).size,
        )
        refl

  advance-Next :
      (p q : Position) (s : S)
      → Next n segments p q
      → IsTable n segments
      → Holds n segments dma base_address put I
      → I s
      → InTable n segments p
      → advance_enqueue_pointer dma
          (record (ring_of n segments p) { trb_count = (ring_of n segments p).trb_count - 1 })
          base_address
          n
          s
        ≡ some (ring_of n segments q, s)
  unfolding ring_of
  advance-Next p _ s (inside h) t m i k =
      advance-inside dma _ base_address n s (omega arith)
      ∙ ap₂ (λ a c. some (record (ring_of n segments p) { enqueue_pointer = a; trb_count = c }, s))
          (sym (address-inside n segments p)) (omega arith)
  advance-Next p _ s (over h lt) t m i k =
      advance-over dma _ base_address n s (omega arith) (omega (arith, t.few)) (omega arith)
      ∙ load_segment-lem (p.segment + 1) p.cycle _ _ s t m i lt
  advance-Next p _ s (wrap h e) t m i k =
      advance-wrap dma _ base_address n s (omega arith) (omega (arith, t.few)) e
      ∙ load_segment-lem 0 (not p.cycle) _ _ s t m i t.not_empty

  enqueue-Next :
      (p q : Position) (trb : EventTrb) (d : ℕ) (s : S)
      → Next n segments p q
      → IsTable n segments
      → Holds n segments dma base_address put I
      → I s
      → InTable n segments p
      → d ≢ address n segments q
      → enqueue dma (ring_of n segments p) trb base_address n d s
        ≡ some (ring_of n segments q, put (address n segments p) (to_bytes trb p.cycle) s)
  unfolding enqueue ring_of
  enqueue-Next p q trb d s x t m i k free =
      let bs = to_bytes trb p.cycle in
      rw
        (
          enqueue,
          ◌>>=◌,
          check-Next p q d s x t m i k,
          not_equal d (address n segments q) free,
          m.writes s p bs i k,
          lt→ltb 0 ((segments p.segment).size - p.offset) (omega arith),
        )
        (advance-Next p q (put (address n segments p) bs s) x t m (m.keeps s p bs i k) k)

  -- An event goes to the slot that the ring is about to fill, with the ring's cycle bit, and the ring
  -- is then about to fill the next slot, where the ring is not full and its table is in guest
  -- memory.
  pub enqueue-next :
      (p : Position) (trb : EventTrb) (dequeue_pointer : ℕ) (s : S)
      → IsTable n segments
      → Holds n segments dma base_address put I
      → I s
      → InTable n segments p
      → dequeue_pointer ≢ address n segments (next n segments p)
      → enqueue dma (ring_of n segments p) trb base_address n dequeue_pointer s
        ≡ some (
          ring_of n segments (next n segments p),
          put (address n segments p) (to_bytes trb p.cycle) s,
        )
  enqueue-next p trb d s t m i k free =
      enqueue-Next p (next n segments p) trb d s (next-Next n segments p k) t m i k free

  -- An event for a ring whose dequeue pointer is the address of the next slot panics.
  pub enqueue-full :
      (p : Position) (trb : EventTrb) (s : S)
      → IsTable n segments
      → Holds n segments dma base_address put I
      → I s
      → InTable n segments p
      → enqueue dma
          (ring_of n segments p)
          trb
          base_address
          n
          (address n segments (next n segments p))
          s
        ≡ none
  unfolding enqueue
  enqueue-full p trb s t m i k =
      let a = address n segments (next n segments p) in
      rw (enqueue, ◌>>=◌, check_event_ring_full-next p a s t m i k, ==_refl a) refl

  -- A table in guest memory that is aligned to 64 bytes puts a ring that has been reset before its
  -- first slot, with the cycle bit set.
  pub configure-start :
      (ring : EventRing) (s : S)
      → IsTable n segments
      → Holds n segments dma base_address put I
      → I s
      → base_address < u64_mod
      → bit_and base_address 0x3f ≡ 0
      → configure dma (reset ring) base_address n s ≡ some (ring_of n segments start, s)
  unfolding configure ring_of reset
  configure-start ring s t m i w a =
      let e : entry_addr base_address 0 ≡ base_address = omega arith in
      rw
        (
          configure,
          ◌>>=◌,
          a,
          lt→ltb 0 n t.not_empty,
          subst (λ b. dma.read (segment_base b) s ≡ some ((segments 0).base, s)) e
              (m.reads_base s 0 i t.not_empty),
          subst (λ b. dma.read (segment_size b) s ≡ some ((segments 0).size, s)) e
              (m.reads_size s 0 i t.not_empty),
          address-base n segments 0 true t t.not_empty,
          mod-eq_of_lt (t.sizes 0 t.not_empty),
          sub-zero (segments 0).size,
        )
        refl

-- A table that is not aligned to 64 bytes, or of no segment, panics.
pub configure-none :
    {S : Type 0} (dma : Device S) (ring : EventRing) (base_address erst_size : ℕ) (s : S)
    → ((bit_and base_address 0x3f ≢ 0) ⊎ (erst_size ≡ 0))
    → configure dma ring base_address erst_size s ≡ none
unfolding configure
configure-none dma ring base_address erst_size s h = ground arith
