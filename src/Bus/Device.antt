-- ===== src/Bus/Device.antt =====
-- `BusDevice` of src/device/bus.rs with its default methods, and `DefaultDevice`.
-- A device works on a state `S` that holds all that devices share, such as guest memory.
use usbvfiod.Prelude.{
  ℕ, zero, suc, ◌+◌, ◌-◌, ◌*◌, ◌/◌, ◌%◌, ◌^◌, ◌==◌, if◌then◌else◌, List, [], ◌∷◌, M, pure, ◌>>=◌,
  ◌>>◌, ◌⊎◌, inl, inr,
}
use usbvfiod.Bus.Request.{RequestSize, size1, bytes, Request, u64_mod}

-- `read_bulk` is given the length of its slice and returns what it fills it with.
pub record Device (S : Type 0) : Type 0 where
  pub size : ℕ
  pub read : Request → M S ℕ
  pub write : Request → ℕ → M S (Unit {0})
  pub read_bulk : ℕ → ℕ → M S (List ℕ)
  pub write_bulk : ℕ → List ℕ → M S (Unit {0})

-- The request for the byte at `offset + cur`, by `overflowing_add`.
abbrev pub byte_request : ℕ → ℕ → Request
byte_request offset cur = record { addr = (offset + cur) % u64_mod; size = size1 }

module _ {S : Type 0} where
  -- The loop of the default `read_bulk`, from position `cur` on with `n` bytes left.
  unfoldable pub read_bulk_from : (Request → M S ℕ) → ℕ → ℕ → ℕ → M S (List ℕ)
  read_bulk_from read offset cur zero = pure []
  read_bulk_from read offset cur (suc n) = do
    value ← read (byte_request offset cur)
    rest ← read_bulk_from read offset (cur + 1) n
    pure ((value % 256) ∷ rest)

  -- `BusDevice::read_bulk`
  unfoldable pub default_read_bulk : (Request → M S ℕ) → ℕ → ℕ → M S (List ℕ)
  unfolding read_bulk_from
  default_read_bulk read offset len = read_bulk_from read offset 0 len

  unfoldable pub write_bulk_from : (Request → ℕ → M S (Unit {0})) → ℕ → ℕ → List ℕ → M S (Unit {0})
  write_bulk_from write offset cur [] = pure tt
  write_bulk_from write offset cur (value ∷ rest) = do
    write (byte_request offset cur) value
    write_bulk_from write offset (cur + 1) rest

  -- `BusDevice::write_bulk`
  unfoldable pub default_write_bulk : (Request → ℕ → M S (Unit {0})) → ℕ → List ℕ → M S (Unit {0})
  unfolding write_bulk_from
  default_write_bulk write offset bs = write_bulk_from write offset 0 bs

  -- `BusDevice::compare_exchange_request`; `inl` is `Ok` and `inr` is `Err`.
  unfoldable pub compare_exchange_request : Device S → Request → ℕ → ℕ → M S (ℕ ⊎ ℕ)
  compare_exchange_request d req current new = do
    old ← d.read req
    if old == current then (d.write req new >> pure (inl current)) else pure (inr old)

-- `DefaultDevice`, without the name that it logs.
pub record DefaultDevice : Type 0 where
  pub size : ℕ

-- `DefaultDevice::read`: `!0 >> empty_bits`.
abbrev pub all_bits_set : RequestSize → ℕ
all_bits_set size = (2 ^ 64 - 1) / 2 ^ (64 - 8 * bytes size)

module _ {S : Type 0} where
  abbrev pub read_ones : Request → M S ℕ
  read_ones req = pure (all_bits_set req.size)

  abbrev pub ignore_write : Request → ℕ → M S (Unit {0})
  ignore_write req v = pure tt

  -- `impl BusDevice for DefaultDevice`
  unfoldable pub default_device : DefaultDevice → Device S
  default_device d = record {
    size = d.size;
    read = read_ones;
    write = ignore_write;
    read_bulk = default_read_bulk read_ones;
    write_bulk = default_write_bulk ignore_write;
  }
