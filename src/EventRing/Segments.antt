-- ===== src/EventRing/Segments.antt =====
-- The slots of an event ring: positions in the segments of its table, in the order in which
-- src/device/xhci/event_ring.rs has to fill them (xHCI specification, section 4.9.4).
use usbvfiod.Prelude.{
  ℕ, ◌+◌, ◌-◌, ◌*◌, ◌%◌, ◌^◌, ◌<◌, ◌≡◌, ◌==◌, ltb, if◌then◌else◌, Bool, true, not, some, List,
  arith,
}
use usbvfiod.Bus.Request.{u64_mod}
use usbvfiod.Bus.Device.{Device}
use usbvfiod.EventRing.{EventRing, entry_addr, segment_base, segment_size, trb_size}

pub record Segment : Type 0 where
  pub base : ℕ
  pub size : ℕ

-- A slot, and the cycle bit that its next event gets.
pub record Position : Type 0 where
  pub segment : ℕ
  pub offset : ℕ
  pub cycle : Bool

abbrev pub start : Position
start = record { segment = 0; offset = 0; cycle = true }

module _ (n : ℕ) (segments : ℕ → Segment) where
  -- The table has a segment, and its entries hold words and sizes that are not zero.
  pub record IsTable : Type 0 where
    pub not_empty : 0 < n
    pub few : n < 2 ^ 32
    pub bases : (i : ℕ) → i < n → (segments i).base < u64_mod
    pub sizes_pos : (i : ℕ) → i < n → 0 < (segments i).size
    pub sizes : (i : ℕ) → i < n → (segments i).size < 2 ^ 32

  abbrev pub InTable : Position → Type 0
  InTable p = (p.segment < n) × (p.offset < (segments p.segment).size)

  unfoldable pub address : Position → ℕ
  address p = ((segments p.segment).base + p.offset * trb_size) % u64_mod

  -- The slot after a slot. The cycle bit flips where the last segment ends.
  unfoldable pub next : Position → Position
  next p =
      if ltb (p.offset + 1) (segments p.segment).size
      then record p { offset = p.offset + 1 }
      else if p.segment + 1 == n
      then record { segment = 0; offset = 0; cycle = not p.cycle }
      else record { segment = p.segment + 1; offset = 0; cycle = p.cycle }

  -- The state of the code's ring that is about to fill a slot.
  unfoldable pub ring_of : Position → EventRing
  unfolding address
  ring_of p = record {
    enqueue_pointer = address p;
    trb_count = (segments p.segment).size - p.offset;
    erst_count = p.segment;
    cycle_state = p.cycle;
  }

  pub next-InTable : (p : Position) → IsTable → InTable p → InTable (next p)
  unfolding next
  next-InTable p t h = ground (arith, t.sizes_pos 0 t.not_empty, t.sizes_pos (p.segment + 1))

  -- Guest memory in the states of `I`: the table's entries are read as they are, and a write to a
  -- slot succeeds, is the change `put`, and leaves the table.
  pub record Holds {S : Type 0} (dma : Device S) (base_address : ℕ) (put : ℕ → List ℕ → S → S)
      (I : S → Type 0) : Type 0 where
    pub reads_base :
        (s : S) (i : ℕ)
        → I s
        → i < n
        → dma.read (segment_base (entry_addr base_address i)) s ≡ some ((segments i).base, s)
    pub reads_size :
        (s : S) (i : ℕ)
        → I s
        → i < n
        → dma.read (segment_size (entry_addr base_address i)) s ≡ some ((segments i).size, s)
    pub writes :
        (s : S) (p : Position) (bs : List ℕ)
        → I s
        → InTable p
        → dma.write_bulk (address p) bs s ≡ some (tt, put (address p) bs s)
    pub keeps : (s : S) (p : Position) (bs : List ℕ) → I s → InTable p → I (put (address p) bs s)
