-- ===== src/LinkedRing.antt =====
-- src/device/xhci/linked_ring.rs: a ring of blocks in guest memory that the controller reads.
-- The struct keeps a reference to the bus; here `dma` is that bus, as a parameter, and the state `S`
-- is what the bus works on. What is only logged is left out.
use usbvfiod.Prelude.{
  ℕ, zero, suc, ◌+◌, ◌%◌, if◌then◌else◌, Bool, true, false, not, Option, none, some, M, pure, ◌>>=◌,
}
use usbvfiod.Bus.Request.{u64_mod}
use usbvfiod.Bus.Device.{Device}
use usbvfiod.Trb.Types.{RawTrbBuffer, flag}
use usbvfiod.Trb.Link
use usbvfiod.Trb.Link.{LinkTrb}
pub mod Walk
pub mod Freshness
mod Tests

-- `RawTrb` of src/device/xhci/trb.rs.
pub record RawTrb : Type 0 where
  pub address : ℕ
  pub buffer : RawTrbBuffer

pub record LinkedRing : Type 0 where
  pub dequeue_pointer : ℕ
  pub cycle_state : Bool

-- `LinkedRing::new`
unfoldable pub new : ℕ → Bool → LinkedRing
new dequeue_pointer cycle_state = record {
  dequeue_pointer = dequeue_pointer;
  cycle_state = cycle_state;
}

-- `TRB_SIZE`
abbrev pub trb_size : ℕ
trb_size = 16

-- `a == b` of two `bool`s.
abbrev pub same : Bool → Bool → Bool
same true b = b
same false b = not b

-- The number of links in a row that `next_trb` follows.
abbrev pub link_limit : ℕ
link_limit = 256

-- What the loop does to the ring on a link.
unfoldable pub follow : LinkedRing → LinkTrb → LinkedRing
follow ring link = record {
  dequeue_pointer = link.ring_segment_pointer;
  cycle_state = if link.toggle_cycle then not ring.cycle_state else ring.cycle_state;
}

-- The check of the cycle bit in `next_trb_raw`.
unfoldable pub fresh : LinkedRing → RawTrbBuffer → Option RawTrbBuffer
fresh ring buffer = if same (flag buffer 12 0x1) ring.cycle_state then some buffer else none

-- What `next_trb` returns where the loop ends on a block.
abbrev pub found : LinkedRing → RawTrbBuffer → Option RawTrb × LinkedRing
found ring buffer = (some (record { address = ring.dequeue_pointer; buffer = buffer }), ring)

module _ {S : Type 0} (dma : Device S) where
  -- `LinkedRing::next_trb_raw`
  unfoldable pub next_trb_raw : LinkedRing → M S (Option RawTrbBuffer)
  next_trb_raw ring = do
    trb_buffer ← dma.read_bulk ring.dequeue_pointer trb_size
    pure (fresh ring trb_buffer)

  -- The loop of `next_trb`, with `n` more links to follow, on what `next_trb_raw` has returned.
  unfoldable pub follow_links :
      ℕ → LinkedRing → Option RawTrbBuffer → M S (Option RawTrb × LinkedRing)
  follow_links n ring none = pure (none, ring)
  follow_links zero ring (some buffer) = elim (Link.parse buffer) [
    | none ↦ pure (found ring buffer)
    | some link ↦ pure (none, ring)
  ]
  follow_links (suc n) ring (some buffer) = elim (Link.parse buffer) [
    | none ↦ pure (found ring buffer)
    | some link ↦ next_trb_raw (follow ring link) >>= follow_links n (follow ring link)
  ]

  -- `LinkedRing::next_trb`
  unfoldable pub next_trb : LinkedRing → M S (Option RawTrb × LinkedRing)
  next_trb ring = do buffer ← next_trb_raw ring; follow_links link_limit ring buffer

-- `LinkedRing::advance`
unfoldable pub advance : LinkedRing → LinkedRing
advance ring = record ring { dequeue_pointer = (ring.dequeue_pointer + trb_size) % u64_mod }

-- `LinkedRing::set_dequeue_pointer`
unfoldable pub set_dequeue_pointer : LinkedRing → ℕ → Bool → LinkedRing
set_dequeue_pointer ring dequeue_pointer cycle_state = record ring {
  dequeue_pointer = dequeue_pointer;
  cycle_state = cycle_state;
}

-- `LinkedRing::get_dequeue_pointer`
unfoldable pub get_dequeue_pointer : LinkedRing → ℕ × Bool
get_dequeue_pointer ring = (ring.dequeue_pointer, ring.cycle_state)
