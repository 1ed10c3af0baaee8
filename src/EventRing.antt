-- ===== src/EventRing.antt =====
-- src/device/xhci/event_ring.rs: the ring in guest memory on which the controller sends events.
-- The struct keeps a reference to the bus; here `dma` is that bus, as a parameter. What is only
-- logged is left out. A checked overflow, and a remainder by zero, panics.
use usbvfiod.Prelude.{
  ℕ, ◌+◌, ◌-◌, ◌*◌, ◌%◌, ◌^◌, ◌==◌, ltb, if◌then◌else◌, Bool, true, false, not, M, pure, panic,
  assert, ◌>>=◌, ◌>>◌, bit_and,
}
use usbvfiod.Bus.Request.{Request, RequestSize, size4, size8, u64_mod}
use usbvfiod.Bus.Device.{Device}
use usbvfiod.Trb.Event.{EventTrb, to_bytes}
pub mod Segments
pub mod Slots
pub mod Laps
mod Tests

pub record EventRing : Type 0 where
  pub enqueue_pointer : ℕ
  pub trb_count : ℕ
  pub erst_count : ℕ
  pub cycle_state : Bool

-- `EventRing::new`, which leaves the ring as `reset` does.
abbrev pub new : EventRing
new = record { enqueue_pointer = 0; trb_count = 0; erst_count = 0; cycle_state = false }

-- `EventRing::reset`
unfoldable pub reset : EventRing → EventRing
reset ring = record ring { enqueue_pointer = 0; trb_count = 0; erst_count = 0; cycle_state = false }

abbrev pub trb_size : ℕ
trb_size = 16

-- The requests for the base and for the size of entry `i` of the segment table.
abbrev pub entry_addr : ℕ → ℕ → ℕ
entry_addr base_address i = (base_address + i * 16) % u64_mod

abbrev pub segment_base : ℕ → Request
segment_base entry = record { addr = (entry + 0) % u64_mod; size = size8 }

abbrev pub segment_size : ℕ → Request
segment_size entry = record { addr = (entry + 8) % u64_mod; size = size4 }

-- The index and the cycle state of `advance_segment_or_wrap`.
unfoldable pub next_segment : EventRing → ℕ → EventRing
next_segment ring erst_size =
    if ring.erst_count + 1 == erst_size
    then record ring { erst_count = 0; cycle_state = not ring.cycle_state }
    else record ring { erst_count = ring.erst_count + 1 }

module _ {S : Type 0} (dma : Device S) where
  -- `EventRing::configure`
  unfoldable pub configure : EventRing → ℕ → ℕ → M S EventRing
  configure ring base_address erst_size = do
    assert (bit_and base_address 0x3f == 0)
    assert (ltb 0 erst_size)
    base ← dma.read (segment_base base_address)
    size ← dma.read (segment_size base_address)
    pure (record ring { enqueue_pointer = base; trb_count = size % 2 ^ 32; cycle_state = true })

  -- `EventRing::check_event_ring_full`
  unfoldable pub check_event_ring_full : EventRing → ℕ → ℕ → ℕ → M S Bool
  check_event_ring_full ring base_address erst_size dequeue_pointer =
      if ring.trb_count == 1
      then (do
        assert (ltb (ring.erst_count + 1) (2 ^ 32))
        assert (ltb 0 erst_size)
        next_seg_pointer ←
            dma.read (segment_base (entry_addr base_address ((ring.erst_count + 1) % erst_size)))
        pure (dequeue_pointer == next_seg_pointer))
      else pure (dequeue_pointer == (ring.enqueue_pointer + trb_size) % u64_mod)

  -- The reads of the segment table in `advance_segment_or_wrap`.
  unfoldable pub load_segment : EventRing → ℕ → M S EventRing
  load_segment ring base_address = do
    base ← dma.read (segment_base (entry_addr base_address ring.erst_count))
    size ← dma.read (segment_size (entry_addr base_address ring.erst_count))
    pure (record ring { enqueue_pointer = base; trb_count = size % 2 ^ 32 })

  -- `EventRing::advance_segment_or_wrap`
  unfoldable pub advance_segment_or_wrap : EventRing → ℕ → ℕ → M S EventRing
  advance_segment_or_wrap ring base_address erst_size = do
    assert (ltb (ring.erst_count + 1) (2 ^ 32))
    load_segment (next_segment ring erst_size) base_address

  -- `EventRing::advance_enqueue_pointer`
  unfoldable pub advance_enqueue_pointer : EventRing → ℕ → ℕ → M S EventRing
  advance_enqueue_pointer ring base_address erst_size =
      if ring.trb_count == 0
      then advance_segment_or_wrap ring base_address erst_size
      else pure (record ring { enqueue_pointer = (ring.enqueue_pointer + trb_size) % u64_mod })

  -- `EventRing::enqueue`; a full ring is a `todo!`, which panics.
  unfoldable pub enqueue : EventRing → EventTrb → ℕ → ℕ → ℕ → M S EventRing
  enqueue ring trb base_address erst_size dequeue_pointer = do
    full ← check_event_ring_full ring base_address erst_size dequeue_pointer
    if full then panic else (do
      dma.write_bulk ring.enqueue_pointer (to_bytes trb ring.cycle_state)
      assert (ltb 0 ring.trb_count)
      advance_enqueue_pointer (record ring { trb_count = ring.trb_count - 1 }) base_address
          erst_size)
