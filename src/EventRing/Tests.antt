-- ===== src/EventRing/Tests.antt =====
-- src/device/xhci/event_ring.rs at a table of two segments, with two slots and one.
use usbvfiod.Prelude.{
  ℕ, zero, suc, ◌==◌, ◌<◌, ◌≡◌, refl, Bool, true, false, some, List, [], ◌∷◌, if◌then◌else◌, arith,
  ap,
}
use usbvfiod.Bus.Device.{Device}
use usbvfiod.Trb.Event.{EventTrb, port_status_change, to_bytes}
use usbvfiod.EventRing.{configure, segment_base, segment_size, entry_addr}
use usbvfiod.EventRing.Segments.{Segment, Position, start, IsTable, Holds, address, next, ring_of}
use usbvfiod.EventRing.Laps.{
  Sent, enqueue_all, place, at_start, enqueue_all-place, enqueue_all-lap, after,
}

-- The state is the list of what has been written.
abbrev Log : Type 0
Log = List (ℕ × List ℕ)

abbrev table : ℕ → ℕ
table a =
    if a == 0x40
    then 0x1000
    else if a == 0x48
    then 2
    else if a == 0x50
    then 0x2000
    else if a == 0x58
    then 1
    else 0

abbrev segments : ℕ → Segment
segments i =
    if i == 0 then record { base = 0x1000; size = 2 } else record { base = 0x2000; size = 1 }

abbrev put : ℕ → List ℕ → Log → Log
put a bs s = (a, bs) ∷ s

abbrev dma : Device Log
dma = record {
  size = 0x10000;
  read = λ req s. some (table req.addr, s);
  write = λ req v s. some (tt, s);
  read_bulk = λ a n s. some ([], s);
  write_bulk = λ a bs s. some (tt, put a bs s);
}

abbrev Any : Log → Type 0
Any s = Unit {0}

two_segments : IsTable 2 segments
two_segments = record {
  not_empty = omega arith;
  few = omega arith;
  bases = λ i h. ground arith;
  sizes_pos = λ i h. ground arith;
  sizes = λ i h. ground arith;
}

table_base : (i : ℕ) → i < 2 → table (segment_base (entry_addr 0x40 i)).addr ≡ (segments i).base
table_base zero h = refl
table_base (suc zero) h = refl
table_base (suc (suc i)) h = absurd (omega arith)

table_size : (i : ℕ) → i < 2 → table (segment_size (entry_addr 0x40 i)).addr ≡ (segments i).size
table_size zero h = refl
table_size (suc zero) h = refl
table_size (suc (suc i)) h = absurd (omega arith)

in_memory : Holds 2 segments dma 0x40 put Any
in_memory = record {
  reads_base = λ s i _ h. ap (λ v. some (v, s)) (table_base i h);
  reads_size = λ s i _ h. ap (λ v. some (v, s)) (table_size i h);
  writes = λ s p bs _ h. refl;
  keeps = λ s p bs _ h. tt;
}

abbrev port_event : EventTrb
port_event = port_status_change (record { port_id = 1 })

abbrev second_slot : Position
second_slot = record { segment = 0; offset = 1; cycle = true }

abbrev last_slot : Position
last_slot = record { segment = 1; offset = 0; cycle = true }

abbrev written : ℕ → Bool → ℕ × List ℕ
written a c = (a, to_bytes port_event c)

-- The table's index stays where it was.
configure_test :
    configure dma (ring_of 2 segments last_slot) 0x40 2 []
    ≡ some
        (record { enqueue_pointer = 0x1000; trb_count = 2; erst_count = 1; cycle_state = true }, [])
unfolding configure ring_of
configure_test = refl

abbrev three_events : List Sent
three_events = (port_event, 0x1000) ∷ (port_event, 0x1000) ∷ (port_event, 0x2000) ∷ []

enqueue_all-place_example :
    enqueue_all dma 0x40 2 (ring_of 2 segments start) three_events []
    ≡ some
        (ring_of 2 segments (after 2 segments 3 start), place 2 segments put start three_events [])
unfolding next address
enqueue_all-place_example =
    enqueue_all-place dma 2 segments 0x40 put Any three_events start [] two_segments in_memory tt
      (omega arith, omega arith) (omega arith, (omega arith, (omega arith, tt)))

enqueue_all-lap_example :
    enqueue_all dma 0x40 2 (ring_of 2 segments start) three_events []
    ≡ some (ring_of 2 segments (at_start 0 false), place 2 segments put start three_events [])
unfolding next address
enqueue_all-lap_example =
    enqueue_all-lap dma 2 segments 0x40 put Any three_events true [] two_segments in_memory tt
      (omega arith, (omega arith, (omega arith, tt))) refl
