-- ===== src/RegisterSet/Tests.antt =====
-- src/device/register_set.rs at a set of four registers: read-only, writable, W1C and mixed.
use usbvfiod.Prelude.{
  ℕ, ◌+◌, ◌<◌, ◌≤◌, ◌⊎◌, get_or, length, ◌≡◌, refl, not, ◌&&◌, if◌then◌else◌, some, [], ◌∷◌, arith,
}
use usbvfiod.Prelude.Bits.{test_bit}
use usbvfiod.Prelude.Bytes.{to_le_bytes}
use usbvfiod.Bus.Request.{RequestSize, size2, size4, Request, iter_bytes}
use usbvfiod.RegisterSet.{RegisterSet, for_bytes, write_byte, write, collect, fold_iter_le, read}
use usbvfiod.RegisterSet.Builder
use usbvfiod.RegisterSet.Builder.{RegisterSetBuilder, init_le, le_ro_at, build}
use usbvfiod.RegisterSet.Building.{IsSized, built}
use usbvfiod.RegisterSet.Guests.{le_ro_at-stays}
use usbvfiod.RegisterSet.Writes.{write-bits}

abbrev registers : RegisterSet
registers = record {
  bytes = 0x12 ∷ 0x34 ∷ 0xff ∷ 0xf0 ∷ [];
  rw_mask = 0 ∷ 0xff ∷ 0 ∷ 0x0f ∷ [];
  w1c_mask = 0 ∷ 0 ∷ 0xff ∷ 0xf0 ∷ [];
}

abbrev at : ℕ → RequestSize → Request
at addr size = record { addr = addr; size = size }

write_test :
    write registers (at 0 size4) 0x5a0faaee
    ≡ some (record registers { bytes = 0x12 ∷ 0xaa ∷ 0xf0 ∷ 0xaa ∷ [] })
unfolding write write_byte iter_bytes for_bytes
write_test = refl

read_test : read registers (at 0 size4) ≡ some 0xf0ff3412
unfolding read collect fold_iter_le iter_bytes
read_test = refl

write-bits_example :
    (r' : RegisterSet) × (write registers (at 1 size2) 0xbeef ≡ some r')
    × ((j k : ℕ)
        → j < 2
        → k < 8
        → test_bit (get_or r'.bytes (1 + j) 0) k ≡ (
            (if test_bit (get_or registers.rw_mask (1 + j) 0) k
              then test_bit (get_or (to_le_bytes 8 0xbeef) j 0) k
              else test_bit (get_or registers.bytes (1 + j) 0) k)
            && not (
                test_bit (get_or (to_le_bytes 8 0xbeef) j 0) k
                && test_bit (get_or registers.w1c_mask (1 + j) 0) k)))
    × ((i : ℕ) → (i < 1) ⊎ (3 ≤ i) → get_or r'.bytes i 0 ≡ get_or registers.bytes i 0)
    × (length r'.bytes ≡ 4)
    × (r'.rw_mask ≡ registers.rw_mask)
    × (r'.w1c_mask ≡ registers.w1c_mask)
write-bits_example = write-bits registers (at 1 size2) 0xbeef (omega arith) (omega arith)

abbrev four_bytes : RegisterSetBuilder
four_bytes = record {
  bytes = 0xff ∷ 0xff ∷ 0xff ∷ 0xff ∷ [];
  rw_mask = 0 ∷ 0 ∷ 0 ∷ 0 ∷ [];
  w1c_mask = 0 ∷ 0 ∷ 0 ∷ 0 ∷ [];
}

four_bytes-IsSized : IsSized four_bytes
four_bytes-IsSized = record { rw_size = refl; w1c_size = refl }

new_test : Builder.new 4 ≡ four_bytes
unfolding Builder.new
new_test = refl

le_ro_at-stays_example :
    (c : RegisterSetBuilder) × (r : RegisterSet) × (le_ro_at 2 four_bytes 1 0xcafe ≡ some c)
    × (write (built c) (at 0 size4) 0x12345678 ≡ some r)
    × (read r (at 1 size2) ≡ some 0xcafe)
le_ro_at-stays_example =
    le_ro_at-stays size2 four_bytes 1 0xcafe (at 0 size4) 0x12345678 four_bytes-IsSized
      (omega arith) (omega arith) (omega arith)
