-- ===== src/Bus/Tests.antt =====
-- src/device/bus.rs at a bus with two devices over one memory.
use mathlib.Core.List.{Memᴰ}
use usbvfiod.Prelude.{
  ℕ, ◌+◌, ◌*◌, ◌≤◌, ◌≡◌, refl, none, some, List, [], ◌∷◌, M, arith, set, take, drop,
}
use usbvfiod.Prelude.Bytes.{from_le_bytes}
use usbvfiod.Interval.{overlaps, contains_interval, intersection}
use usbvfiod.Bus.Request.{RequestSize, size2, size4, bytes, Request, try_from, try_into_range}
use usbvfiod.Bus.Device.{Device, default_read_bulk, default_write_bulk}
use usbvfiod.Bus.Routing.{
  DeviceEntry, Bus, err, overlaps_existing_device, add, find_overlap, claim, to_device_request,
  read, write,
}
use usbvfiod.Bus.Bulk.{
  BulkRequestChunk, bus_read_bulk, bus_write_bulk, iter_bulk_request, new_iterator, collect, next,
  make_chunk, find_containing, read_chunks,
}
use usbvfiod.Bus.Validity.{IsValid, with_device, add-IsValid}
use usbvfiod.Bus.Dispatch.{to_device_request-contained}
use usbvfiod.Bus.Coverage.{Covers, iter_bulk_request-Covers}
use usbvfiod.Bus.BulkAccess.{
  IsBytewise, AllBytewise, bus_read_bulk-bytewise, bus_write_bulk-bytewise,
}

-- Memory from `base` on; a write stores its lowest byte.
abbrev memory_read : ℕ → Request → M (List ℕ) ℕ
memory_read base req s = some (from_le_bytes (take (bytes req.size) (drop (base + req.addr) s)), s)

abbrev memory_write : ℕ → Request → ℕ → M (List ℕ) (Unit {0})
memory_write base req value s = some (tt, set s (base + req.addr) value)

abbrev memory : ℕ → ℕ → Device (List ℕ)
memory base size = record {
  size = size;
  read = memory_read base;
  write = memory_write base;
  read_bulk = default_read_bulk (memory_read base);
  write_bulk = default_write_bulk (memory_write base);
}

abbrev entry : ℕ → ℕ → ℕ → DeviceEntry (List ℕ)
entry start base size = record {
  range = record { start = start; end = start + size };
  device = memory base size;
}

-- Four bytes at 2 and two bytes at 6, on a bus of 16.
abbrev two_devices : Bus (List ℕ)
two_devices = record {
  devices = entry 2 0 4 ∷ entry 6 4 2 ∷ [];
  error_device = record { size = 16 };
  default = memory 6 16;
}

abbrev cells : List ℕ
cells = 10 ∷ 11 ∷ 12 ∷ 13 ∷ 14 ∷ 15 ∷ 90 ∷ 91 ∷ 92 ∷ []

abbrev at : ℕ → RequestSize → Request
at addr size = record { addr = addr; size = size }

two_devices-IsValid : IsValid two_devices
unfolding overlaps intersection
two_devices-IsValid = record {
  word = omega arith;
  fits = (omega arith, (omega arith, tt));
  separate = ((refl, tt), (tt, tt));
}

memory-IsBytewise : (base size : ℕ) → IsBytewise (memory base size)
memory-IsBytewise base size = record { reads = λ o n. refl; writes = λ o bs. refl }

two_devices-AllBytewise : AllBytewise two_devices
two_devices-AllBytewise = record {
  devices = (memory-IsBytewise 0 4, (memory-IsBytewise 4 2, tt));
  default = memory-IsBytewise 6 16;
}

sizes_test : (try_from 4 ≡ some size4) × (try_from 3 ≡ none)
unfolding try_from
sizes_test = (refl, refl)

read_test : read two_devices (at 3 size2) cells ≡ some (11 + 12 * 256, cells)
unfolding read to_device_request try_into_range claim overlaps contains_interval
read_test = refl

bulk_read_test :
    bus_read_bulk two_devices 1 (0 ∷ 0 ∷ 0 ∷ 0 ∷ 0 ∷ 0 ∷ 0 ∷ []) cells
    ≡ some (91 ∷ 10 ∷ 11 ∷ 12 ∷ 13 ∷ 14 ∷ 15 ∷ [], cells)
unfolding bus_read_bulk iter_bulk_request new_iterator collect next make_chunk find_containing
    read_chunks default_read_bulk
bulk_read_test = refl

overlap_test :
    add two_devices 5 (memory 0 2)
    ≡ err (overlaps_existing_device (record { start = 2; end = 6 }) (record { start = 5; end = 7 }))
unfolding add find_overlap overlaps
overlap_test = refl

add-IsValid_example : IsValid (with_device two_devices 8 (memory 0 2))
unfolding add find_overlap overlaps
add-IsValid_example =
    add-IsValid two_devices 8 (memory 0 2) (with_device two_devices 8 (memory 0 2))
      two_devices-IsValid refl

to_device_request-contained_example :
    (to_device_request two_devices (at 6 size2) ≡ some (at 0 size2, memory 4 2)) × (0 + 2 ≤ 2)
to_device_request-contained_example =
    to_device_request-contained two_devices (entry 6 4 2) (at 6 size2) two_devices-IsValid
      (Memᴰ.tail (Memᴰ.head refl)) (omega arith) (omega arith)

iter_bulk_request-Covers_example :
    (cs : List (BulkRequestChunk (List ℕ))) × (iter_bulk_request two_devices 1 7 ≡ some cs)
    × Covers two_devices 1 0 7 cs
iter_bulk_request-Covers_example =
    iter_bulk_request-Covers two_devices 1 7 two_devices-IsValid (omega arith)

bus_read_bulk-bytewise_example :
    bus_read_bulk two_devices 1 (0 ∷ 0 ∷ 0 ∷ []) ≡ default_read_bulk (read two_devices) 1 3
bus_read_bulk-bytewise_example =
    bus_read_bulk-bytewise two_devices 1 (0 ∷ 0 ∷ 0 ∷ []) two_devices-IsValid
      two_devices-AllBytewise (omega arith)

bus_write_bulk-bytewise_example :
    bus_write_bulk two_devices 1 (7 ∷ 8 ∷ 9 ∷ [])
    ≡ default_write_bulk (write two_devices) 1 (7 ∷ 8 ∷ 9 ∷ [])
bus_write_bulk-bytewise_example =
    bus_write_bulk-bytewise two_devices 1 (7 ∷ 8 ∷ 9 ∷ []) two_devices-IsValid
      two_devices-AllBytewise (omega arith)
