-- ===== src/Bus/Request.antt =====
-- The requests of src/device/bus.rs.
use usbvfiod.Prelude.{
  ℕ, zero, suc, ◌+◌, ◌^◌, ◌≤◌, ◌<◌, arith, ltb, ◌==◌, if◌then◌else◌, Option, none, some, List, [],
  ◌∷◌,
}
use usbvfiod.Interval.{Range}

pub data RequestSize : Type 0 where
  size1 size2 size4 size8 : RequestSize

-- `u64::from(RequestSize)`
abbrev pub bytes : RequestSize → ℕ
bytes size1 = 1
bytes size2 = 2
bytes size4 = 4
bytes size8 = 8

pub bytes-pos : (s : RequestSize) → 0 < bytes s
bytes-pos size1 = omega arith
bytes-pos size2 = omega arith
bytes-pos size4 = omega arith
bytes-pos size8 = omega arith

pub bytes-le : (s : RequestSize) → bytes s ≤ 8
bytes-le size1 = omega arith
bytes-le size2 = omega arith
bytes-le size4 = omega arith
bytes-le size8 = omega arith

-- `RequestSize::try_from(u64)`; `none` is `IllegalRequestSize`.
unfoldable pub try_from : ℕ → Option RequestSize
try_from value =
    if value == 1
    then some size1
    else if value == 2
    then some size2
    else if value == 4
    then some size4
    else if value == 8
    then some size8
    else none

pub record Request : Type 0 where
  pub addr : ℕ
  pub size : RequestSize

-- The number of values of a `u64`.
abbrev pub u64_mod : ℕ
u64_mod = 2 ^ 64

-- `u64::checked_add`
abbrev pub checked_add : ℕ → ℕ → Option ℕ
checked_add a b = if ltb (a + b) u64_mod then some (a + b) else none

-- `TryInto<Range<u64>>`; `none` is `WrappingRequestError`.
abbrev pub range_ending : ℕ → Option ℕ → Option Range
range_ending start none = none
range_ending start (some end) = some (record { start = start; end = end })

unfoldable pub try_into_range : Request → Option Range
try_into_range req = range_ending req.addr (checked_add req.addr (bytes req.size))

-- The one-byte requests at the `n` addresses from `addr` on.
abbrev pub bytes_from : ℕ → ℕ → List Request
bytes_from addr zero = []
bytes_from addr (suc n) = record { addr = addr; size = size1 } ∷ bytes_from (addr + 1) n

-- `Request::iter_bytes`; `none` is the overflow of `addr + size`.
unfoldable pub iter_bytes : Request → Option (List Request)
iter_bytes req =
    if ltb (req.addr + bytes req.size) u64_mod
    then some (bytes_from req.addr (bytes req.size))
    else none
