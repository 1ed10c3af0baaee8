-- ===== src/EventRing/Laps.antt =====
-- Many events in a row on the ring of src/device/xhci/event_ring.rs, and a whole pass over its
-- segments.
use usbvfiod.Prelude.{
  ℕ, zero, suc, ◌+◌, ◌-◌, ◌<◌, ◌≡◌, ◌≢◌, refl, Bool, not, some, List, [], ◌∷◌, length, arith, ap,
  ◌∙◌, sym, M, pure, ◌>>=◌,
}
use usbvfiod.Bus.Device.{Device}
use usbvfiod.Trb.Event.{EventTrb, to_bytes}
use usbvfiod.EventRing.{EventRing, enqueue}
use usbvfiod.EventRing.Segments.{
  Segment, Position, IsTable, InTable, address, next, next-InTable, ring_of, Holds,
}
use usbvfiod.EventRing.Slots.{enqueue-next}

-- An event, with the dequeue pointer that the driver has published when it is sent.
abbrev pub Sent : Type 0
Sent = EventTrb × ℕ

-- Calls of `enqueue` one after another.
unfoldable pub enqueue_all : {S : Type 0} → Device S → ℕ → ℕ → EventRing → List Sent → M S EventRing
enqueue_all dma base_address n ring [] = pure ring
enqueue_all dma base_address n ring (e ∷ es) =
    enqueue dma ring e.0 base_address n e.1 >>= λ next_ring.
    enqueue_all dma base_address n next_ring es

-- The first slot of segment `i`.
abbrev pub at_start : ℕ → Bool → Position
at_start i c = record { segment = i; offset = 0; cycle = c }

module _ (n : ℕ) (segments : ℕ → Segment) where
  abbrev pub after : ℕ → Position → Position
  after zero p = p
  after (suc k) p = after k (next n segments p)

  -- Each event with its own slot and cycle bit, in the order of the slots.
  abbrev pub place : {S : Type 0} → (ℕ → List ℕ → S → S) → Position → List Sent → S → S
  place put p [] s = s
  place put p (e ∷ es) s =
      place put (next n segments p) es (put (address n segments p) (to_bytes e.0 p.cycle) s)

  -- The driver's pointer is never the slot that the ring would point to next.
  abbrev pub NeverFull : Position → List Sent → Type 0
  NeverFull p [] = Unit {0}
  NeverFull p (e ∷ es) =
      (e.1 ≢ address n segments (next n segments p)) × NeverFull (next n segments p) es

  -- The number of slots in the first `m` segments.
  abbrev pub slots_below : ℕ → ℕ
  slots_below zero = 0
  slots_below (suc m) = slots_below m + (segments m).size

  after-add : (a b : ℕ) (p : Position) → after (a + b) p ≡ after b (after a p)
  after-add zero b p = ap (λ t. after t p) {x = 0 + b} {y = b} (omega arith)
  after-add (suc a) b p =
      ap (λ t. after t p) {x = suc a + b} {y = suc (a + b)} (omega arith)
      ∙ after-add a b (next n segments p)

  next-inside :
      (p : Position)
      → p.offset + 1 < (segments p.segment).size
      → next n segments p ≡ record p { offset = p.offset + 1 }
  unfolding next
  next-inside p h = ground arith

  after-inside :
      (k : ℕ) (p : Position)
      → p.offset + k < (segments p.segment).size
      → after k p ≡ record p { offset = p.offset + k }
  after-inside zero p h = ap (λ o. record p { offset = o }) (omega arith)
  after-inside (suc k) p h =
      ap (after k) (next-inside p (omega arith))
      ∙ after-inside k (record p { offset = p.offset + 1 }) (omega arith)
      ∙ ap (λ o. record p { offset = o }) (omega arith)

  next-over :
      (p : Position)
      → p.offset + 1 ≡ (segments p.segment).size
      → p.segment + 1 < n
      → next n segments p ≡ at_start (p.segment + 1) p.cycle
  unfolding next
  next-over p h lt = ground arith

  next-wrap :
      (p : Position)
      → p.offset + 1 ≡ (segments p.segment).size
      → p.segment + 1 ≡ n
      → next n segments p ≡ at_start 0 (not p.cycle)
  unfolding next
  next-wrap p h e = ground arith

  abbrev last_slot : ℕ → Bool → Position
  last_slot i c = record { segment = i; offset = (segments i).size - 1; cycle = c }

  after-segment :
      (i : ℕ) (c : Bool)
      → 0 < (segments i).size
      → after (segments i).size (at_start i c) ≡ next n segments (last_slot i c)
  after-segment i c h =
      let k = (segments i).size - 1 in
      ap (λ t. after t (at_start i c)) {x = (segments i).size} {y = k + 1} (omega arith)
      ∙ after-add k 1 (at_start i c)
      ∙ ap (next n segments) (
          after-inside k (at_start i c) (omega arith)
          ∙ ap (λ o. record { segment = i; offset = o; cycle = c }) {x = 0 + k} {y = k}
              (omega arith))

  after-slots_below :
      (m : ℕ) (c : Bool)
      → IsTable n segments
      → m < n
      → after (slots_below m) (at_start 0 c) ≡ at_start m c
  after-slots_below zero c t h = refl
  after-slots_below (suc m) c t h =
      after-add (slots_below m) (segments m).size (at_start 0 c)
      ∙ ap (after (segments m).size) (after-slots_below m c t (omega arith))
      ∙ after-segment m c (t.sizes_pos m (omega arith))
      ∙ next-over (last_slot m c) (omega (arith, t.sizes_pos m (omega arith))) (omega arith)
      ∙ ap (λ i. at_start i c) {x = m + 1} {y = suc m} (omega arith)

  after-lap_suc :
      (m : ℕ) (c : Bool)
      → IsTable n segments
      → suc m ≡ n
      → after (slots_below (suc m)) (at_start 0 c) ≡ at_start 0 (not c)
  after-lap_suc m c t h =
      after-add (slots_below m) (segments m).size (at_start 0 c)
      ∙ ap (after (segments m).size) (after-slots_below m c t (omega arith))
      ∙ after-segment m c (t.sizes_pos m (omega arith))
      ∙ next-wrap (last_slot m c) (omega (arith, t.sizes_pos m (omega arith))) (omega arith)

  pub after-lap :
      (c : Bool) → IsTable n segments → after (slots_below n) (at_start 0 c) ≡ at_start 0 (not c)
  after-lap c t =
      let e : suc (n - 1) ≡ n = omega (arith, t.not_empty) in
      ap (λ k. after (slots_below k) (at_start 0 c)) (sym e) ∙ after-lap_suc (n - 1) c t e

module _ {S : Type 0} (dma : Device S) (n : ℕ) (segments : ℕ → Segment) (base_address : ℕ)
    (put : ℕ → List ℕ → S → S) (I : S → Type 0) where
  -- Events that are sent one after another go to one slot after another, each with the cycle bit of
  -- its slot, and the ring is then about to fill the slot after the last. The table is in guest
  -- memory, and no event finds the driver's pointer on the slot after its own.
  pub enqueue_all-place :
      (es : List Sent) (p : Position) (s : S)
      → IsTable n segments
      → Holds n segments dma base_address put I
      → I s
      → InTable n segments p
      → NeverFull n segments p es
      → enqueue_all dma base_address n (ring_of n segments p) es s
        ≡ some (ring_of n segments (after n segments (length es) p), place n segments put p es s)
  unfolding enqueue_all
  enqueue_all-place [] p s t m i k h = refl
  enqueue_all-place (e ∷ es) p s t m i k h =
      rw
        (enqueue_all, ◌>>=◌, enqueue-next dma n segments base_address put I p e.0 e.1 s t m i k h.0)
        (enqueue_all-place es (next n segments p) _ t m (m.keeps s p _ i k)
          (next-InTable n segments p t k) h.1)

  -- As many events as the segments have slots, sent from the first slot on, bring the ring back to
  -- the first slot, with the other cycle bit. The table is in guest memory, and no event finds the
  -- driver's pointer on the slot after its own.
  pub enqueue_all-lap :
      (es : List Sent) (cycle : Bool) (s : S)
      → IsTable n segments
      → Holds n segments dma base_address put I
      → I s
      → NeverFull n segments (at_start 0 cycle) es
      → length es ≡ slots_below n segments n
      → enqueue_all dma base_address n (ring_of n segments (at_start 0 cycle)) es s
        ≡ some (
          ring_of n segments (at_start 0 (not cycle)),
          place n segments put (at_start 0 cycle) es s,
        )
  enqueue_all-lap es cycle s t m i h len =
      enqueue_all-place es (at_start 0 cycle) s t m i (t.not_empty, t.sizes_pos 0 t.not_empty) h
      ∙ ap (λ q. some (ring_of n segments q, place n segments put (at_start 0 cycle) es s))
          (ap (λ k. after n segments k (at_start 0 cycle)) len ∙ after-lap n segments cycle t)
