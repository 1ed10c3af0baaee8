-- ===== src/Interrupter/Tests.antt =====
-- src/device/xhci/interrupter.rs with a table of one segment, and a hand-over from line 1 to line 2.
use usbvfiod.Prelude.{
  ℕ, zero, suc, ◌==◌, ◌<◌, ◌≡◌, refl, true, false, some, List, [], ◌∷◌, arith, if◌then◌else◌,
}
use usbvfiod.Bus.Device.{Device}
use usbvfiod.Trb.Event.{EventTrb, port_status_change}
use usbvfiod.EventRing.{segment_base, segment_size, entry_addr}
use usbvfiod.EventRing.Segments.{Segment, start, IsTable, Holds, address, next, ring_of}
use usbvfiod.Registers.Operational.{erstba}
use usbvfiod.SlotManager.{done}
use usbvfiod.Interrupter.{EventWorker, reset, completed}
use usbvfiod.Interrupter.Worker.{default, round, reset_all}
use usbvfiod.Interrupter.Delivery.{Arrival, event, line, Running, Delivered, arrive_all-Delivered}

abbrev Log : Type 0
Log = List (ℕ × List ℕ)

abbrev put : ℕ → List ℕ → Log → Log
put a bs s = (a, bs) ∷ s

abbrev dma : Device Log
dma = record {
  size = 0x10000;
  read = λ req s. some (if req.addr == 0x40 then 0x1000 else 8, s);
  write = λ req v s. some (tt, s);
  read_bulk = λ a n s. some ([], s);
  write_bulk = λ a bs s. some (tt, put a bs s);
}

abbrev segments : ℕ → Segment
segments i = record { base = 0x1000; size = 8 }

abbrev Any : Log → Type 0
Any s = Unit {0}

one_segment : IsTable 1 segments
one_segment = record {
  not_empty = omega arith;
  few = omega arith;
  bases = λ i h. omega arith;
  sizes_pos = λ i h. omega arith;
  sizes = λ i h. omega arith;
}

reads_first :
    (i : ℕ) (s : Log)
    → i < 1
    → (dma.read (segment_base (entry_addr 0x40 i)) s ≡ some (0x1000, s))
      × (dma.read (segment_size (entry_addr 0x40 i)) s ≡ some (8, s))
reads_first zero s h = (refl, refl)
reads_first (suc i) s h = absurd (omega arith)

in_memory : Holds 1 segments dma 0x40 put Any
in_memory = record {
  reads_base = λ s i _ h. (reads_first i s h).0;
  reads_size = λ s i _ h. (reads_first i s h).1;
  writes = λ s p bs _ h. refl;
  keeps = λ s p bs _ h. tt;
}

abbrev worker : EventWorker
worker = record {
  registers = record default { erst_base_address = 0x40; erst_size = 1 };
  interrupt_line = some 1;
  event_ring = ring_of 1 segments start;
  configured = true;
  suppressed = false;
}

runs : Running dma 1 segments 0x40 put Any worker start
unfolding erstba
runs = record { configured = refl; kicks = refl; base = refl; size = refl; ring = refl }

abbrev attached : EventTrb
attached = port_status_change (record { port_id = 1 })

abbrev arrivals : List Arrival
arrivals = event attached 0x1000 ∷ line 2 ∷ event attached 0x1000 ∷ []

arrive_all-Delivered_example : Delivered dma 1 segments 0x40 put Any worker start arrivals []
unfolding next address
arrive_all-Delivered_example =
    arrive_all-Delivered dma 1 segments 0x40 put Any worker start arrivals [] one_segment in_memory
      tt (omega arith, omega arith) (omega arith, (omega arith, tt)) runs

reset_line : round dma worker (reset true) [] ≡ some (done (reset_all worker, completed ∷ []), [])
unfolding round
reset_line = refl
