-- ===== src/RegisterSet/Builder.antt =====
-- `RegisterSetBuilder` of src/device/register_set.rs.
use usbvfiod.Prelude.{
  ℕ, ◌+◌, ◌-◌, ◌^◌, ◌==◌, ◌&&◌, Bool, true, ltb, leb, if◌then◌else◌, Option, none, some, List, [],
  ◌∷◌, length, set, replicate, copy_at, bit_and,
}
use usbvfiod.Prelude.Bytes.{to_le_bytes}
use usbvfiod.RegisterSet.{RegisterSet}

-- `RegisterSetBuilder<SIZE>`; the lists have `SIZE` bytes.
pub record RegisterSetBuilder : Type 0 where
  pub bytes : List ℕ
  pub rw_mask : List ℕ
  pub w1c_mask : List ℕ

-- `RegisterSetBuilder::new` and `default`: every bit is set and read-only.
unfoldable pub new : ℕ → RegisterSetBuilder
new size = record {
  bytes = replicate size 0xff;
  rw_mask = replicate size 0;
  w1c_mask = replicate size 0;
}

-- `init_u8`; `none` is its failed assertion.
unfoldable pub init_u8 : RegisterSetBuilder → ℕ → ℕ → ℕ → ℕ → Option RegisterSetBuilder
init_u8 b pos value write_mask w1c_mask =
    if ltb pos (length b.bytes)
    then some (record b {
      bytes = set b.bytes pos value;
      rw_mask = set b.rw_mask pos write_mask;
      w1c_mask = set b.w1c_mask pos w1c_mask;
    })
    else none

-- The loop of `init_u8_slice`.
unfoldable pub init_bytes :
    RegisterSetBuilder → ℕ → List ℕ → List ℕ → List ℕ → Option RegisterSetBuilder
init_bytes b pos [] ms cs = some b
init_bytes b pos (v ∷ vs) [] cs = none
init_bytes b pos (v ∷ vs) (m ∷ ms) [] = none
init_bytes b pos (v ∷ vs) (m ∷ ms) (c ∷ cs) = elim (init_u8 b pos v m c) [
  | none ↦ none
  | some next ↦ init_bytes next (pos + 1) vs ms cs
]

unfoldable pub init_u8_slice :
    RegisterSetBuilder → ℕ → List ℕ → List ℕ → List ℕ → Option RegisterSetBuilder
unfolding init_bytes
init_u8_slice b pos vs ms cs =
    if (length vs == length ms) && (length vs == length cs) then init_bytes b pos vs ms cs else none

-- `init_u16_le`, `init_u32_le` and `init_u64_le`, for a number of `w` bytes.
unfoldable pub init_le : ℕ → RegisterSetBuilder → ℕ → ℕ → ℕ → ℕ → Option RegisterSetBuilder
unfolding init_u8_slice
init_le w b pos value write_mask w1c_mask =
    init_u8_slice b pos (to_le_bytes w value) (to_le_bytes w write_mask) (to_le_bytes w w1c_mask)

unfoldable pub u8_at : RegisterSetBuilder → ℕ → ℕ → ℕ → Option RegisterSetBuilder
unfolding init_u8
u8_at b pos value write_mask = init_u8 b pos value write_mask 0

unfoldable pub u8_ro_at : RegisterSetBuilder → ℕ → ℕ → Option RegisterSetBuilder
unfolding u8_at
u8_ro_at b pos value = u8_at b pos value 0

unfoldable pub u8_rw_at : RegisterSetBuilder → ℕ → ℕ → Option RegisterSetBuilder
unfolding u8_at
u8_rw_at b pos value = u8_at b pos value 0xff

unfoldable pub u8_w1c_at : RegisterSetBuilder → ℕ → ℕ → Option RegisterSetBuilder
unfolding init_u8
u8_w1c_at b pos value = init_u8 b pos value 0 0xff

-- `u16_le_at`, `u32_le_at` and `u64_le_at`
unfoldable pub le_at : ℕ → RegisterSetBuilder → ℕ → ℕ → ℕ → Option RegisterSetBuilder
unfolding init_le
le_at w b pos value write_mask = init_le w b pos value write_mask 0

-- `u16_le_ro_at`, `u32_le_ro_at` and `u64_le_ro_at`
unfoldable pub le_ro_at : ℕ → RegisterSetBuilder → ℕ → ℕ → Option RegisterSetBuilder
unfolding le_at
le_ro_at w b pos value = le_at w b pos value 0

-- `u16_le_rw_at`, `u32_le_rw_at` and `u64_le_rw_at`
unfoldable pub le_rw_at : ℕ → RegisterSetBuilder → ℕ → ℕ → Option RegisterSetBuilder
unfolding le_at
le_rw_at w b pos value = le_at w b pos value (256 ^ w - 1)

-- `u16_le_w1c_at`, `u32_le_w1c_at` and `u64_le_w1c_at`
unfoldable pub le_w1c_at : ℕ → RegisterSetBuilder → ℕ → ℕ → Option RegisterSetBuilder
unfolding init_le
le_w1c_at w b pos value = init_le w b pos value 0 (256 ^ w - 1)

-- `register_set_at`; `none` is a failed assertion.
unfoldable pub register_set_at : RegisterSetBuilder → ℕ → RegisterSet → Option RegisterSetBuilder
register_set_at b pos regs =
    if leb (length regs.bytes) (length b.bytes) && leb (pos + length regs.bytes) (length b.bytes)
    then some (record b {
      bytes = copy_at pos regs.bytes b.bytes;
      rw_mask = copy_at pos regs.rw_mask b.rw_mask;
      w1c_mask = copy_at pos regs.w1c_mask b.w1c_mask;
    })
    else none

-- The assertions of `build`, for each byte of the two masks.
unfoldable pub masks_apart : List ℕ → List ℕ → Bool
masks_apart [] cs = true
masks_apart (m ∷ ms) [] = true
masks_apart (m ∷ ms) (c ∷ cs) = (bit_and m c == 0) && masks_apart ms cs

-- `build`; `none` is a bit that is writable and W1C.
unfoldable pub build : RegisterSetBuilder → Option RegisterSet
unfolding masks_apart
build b =
    if masks_apart b.rw_mask b.w1c_mask
    then some (record { bytes = b.bytes; rw_mask = b.rw_mask; w1c_mask = b.w1c_mask })
    else none
