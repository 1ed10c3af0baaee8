-- ===== src/Bus/Bulk.antt =====
-- Bulk accesses of src/device/bus.rs: `BulkRequestIterator`, and `read_bulk` and `write_bulk` of `Bus`.
use usbvfiod.Prelude.{
  ℕ, zero, suc, ◌+◌, ◌-◌, ◌&&◌, min, ltb, leb, if◌then◌else◌, Option, none, some, List, [], ◌∷◌, M,
  pure, panic, ◌>>=◌, ◌>>◌, length, take, drop, replicate, copy_at,
}
use usbvfiod.Interval.{Range, contains}
use usbvfiod.Bus.Request.{checked_add}
use usbvfiod.Bus.Device.{Device}
use usbvfiod.Bus.Routing.{DeviceEntry, Bus, bus_size, read, write}

module _ (S : Type 0) where
  pub record BulkRequestChunk : Type 0 where
    pub device : Device S
    pub device_offset : ℕ
    pub data_range : Range

  pub record BulkRequestIterator : Type 0 where
    pub bus : Bus S
    pub request_start : ℕ
    pub request_end : ℕ
    pub cur_offset : ℕ

-- What `next` returns; a panic is outside.
pub data Next (S : Type 0) : Type 0 where
  exhausted : Next S
  yields : BulkRequestChunk S → BulkRequestIterator S → Next S

module _ {S : Type 0} where
  abbrev iterator_ending : Bus S → ℕ → Option ℕ → Option (BulkRequestIterator S)
  iterator_ending bus offset none = none
  iterator_ending bus offset (some end) =
      some (record { bus = bus; request_start = offset; request_end = end; cur_offset = offset })

  -- `BulkRequestIterator::new` for a slice of `len` bytes; `none` is the overflow of the sum.
  unfoldable pub new_iterator : Bus S → ℕ → ℕ → Option (BulkRequestIterator S)
  new_iterator bus offset len = iterator_ending bus offset (checked_add offset len)

  -- `devices.iter().find(|entry| entry.range.contains(&cur_offset))`
  unfoldable pub find_containing : List (DeviceEntry S) → ℕ → Option (DeviceEntry S)
  find_containing [] a = none
  find_containing (e ∷ es) a = if contains e.range a then some e else find_containing es a

  abbrev pub chunk_size : BulkRequestChunk S → ℕ
  chunk_size c = c.data_range.end - c.data_range.start

  -- The chunk of the entry that was found, or one byte of the default device.
  unfoldable pub make_chunk : Bus S → ℕ → ℕ → ℕ → Option (DeviceEntry S) → BulkRequestChunk S
  make_chunk bus cur_offset data_offset remaining (some entry) =
      let device_offset = cur_offset - entry.range.start in
      let size = min remaining (entry.range.end - entry.range.start - device_offset) in
      record {
        device = entry.device;
        device_offset = device_offset;
        data_range = record { start = data_offset; end = data_offset + size };
      }
  make_chunk bus cur_offset data_offset remaining none = record {
    device = bus.default;
    device_offset = cur_offset;
    data_range = record { start = data_offset; end = data_offset + 1 };
  }

  -- The rest of `next` below the chunk: `assert!(chunk_size > 0)` and the step forward.
  abbrev pub advance : BulkRequestIterator S → BulkRequestChunk S → Option (Next S)
  advance it chunk =
      if ltb 0 (chunk_size chunk)
      then some (yields chunk (record it { cur_offset = it.cur_offset + chunk_size chunk }))
      else none

  -- The body of the closure in `next`, from `assert!(remaining_data_size > 0)` on.
  abbrev pub next_chunk : BulkRequestIterator S → ℕ → ℕ → Option (Next S)
  next_chunk it data_offset remaining =
      if ltb 0 remaining
      then advance it (
          make_chunk it.bus it.cur_offset data_offset remaining
            (find_containing it.bus.devices it.cur_offset))
      else none

  -- `BulkRequestIterator::next`; `none` is a failed `assert!`.
  unfoldable pub next : BulkRequestIterator S → Option (Next S)
  next it =
      if leb it.request_start it.cur_offset && leb it.cur_offset it.request_end
      then (if ltb it.cur_offset it.request_end
          then next_chunk it (it.cur_offset - it.request_start)
              (it.request_end - it.request_start - (it.cur_offset - it.request_start))
          else some exhausted)
      else none

  -- `Bus::iter_bulk_request` run to its end, on fuel; `none` is a panic or the end of the fuel.
  unfoldable pub collect : ℕ → BulkRequestIterator S → Option (List (BulkRequestChunk S))
  collect zero it = none
  collect (suc fuel) it = elim (next it) [
    | none ↦ none
    | some exhausted ↦ some []
    | some (yields chunk it') ↦ elim (collect fuel it') [
      | none ↦ none
      | some chunks ↦ some (chunk ∷ chunks)
    ]
  ]

  -- Each chunk has a byte at least: `len` chunks and the final call of `next`.
  unfoldable pub iter_bulk_request : Bus S → ℕ → ℕ → Option (List (BulkRequestChunk S))
  iter_bulk_request bus offset len = elim (new_iterator bus offset len) [
    | none ↦ none
    | some it ↦ collect (suc len) it
  ]

  unfoldable pub read_chunks : List (BulkRequestChunk S) → List ℕ → M S (List ℕ)
  read_chunks [] bytes = pure bytes
  read_chunks (c ∷ cs) bytes = do
    bs ← c.device.read_bulk c.device_offset (chunk_size c)
    read_chunks cs (copy_at c.data_range.start bs bytes)

  unfoldable pub write_chunks : List (BulkRequestChunk S) → List ℕ → M S (Unit {0})
  write_chunks [] bytes = pure tt
  write_chunks (c ∷ cs) bytes = do
    c.device.write_bulk c.device_offset (take (chunk_size c) (drop c.data_range.start bytes))
    write_chunks cs bytes

  -- `<Bus as BusDevice>::read_bulk` into the slice `bytes`.
  unfoldable pub bus_read_bulk : Bus S → ℕ → List ℕ → M S (List ℕ)
  bus_read_bulk bus offset bytes = elim (iter_bulk_request bus offset (length bytes)) [
    | none ↦ panic
    | some chunks ↦ read_chunks chunks bytes
  ]

  -- `<Bus as BusDevice>::write_bulk`
  unfoldable pub bus_write_bulk : Bus S → ℕ → List ℕ → M S (Unit {0})
  bus_write_bulk bus offset bytes = elim (iter_bulk_request bus offset (length bytes)) [
    | none ↦ panic
    | some chunks ↦ write_chunks chunks bytes
  ]

  -- `impl BusDevice for Bus`, so that buses can be stacked. The slice that is read into is zeroed.
  unfoldable pub as_device : Bus S → Device S
  unfolding bus_read_bulk bus_write_bulk read write
  as_device bus = record {
    size = bus_size bus;
    read = read bus;
    write = write bus;
    read_bulk = λ offset len. bus_read_bulk bus offset (replicate len 0);
    write_bulk = bus_write_bulk bus;
  }
