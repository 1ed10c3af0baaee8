-- ===== src/RegisterSet/Guests.antt =====
-- What a guest sees of a register that RegisterSetBuilder of src/device/register_set.rs has placed.
use usbvfiod.Prelude.{
  ℕ, zero, suc, ◌+◌, ◌-◌, ◌/◌, ◌^◌, ◌%◌, ◌≤◌, ◌<◌, ◌≡◌, ◌⊎◌, inl, inr, refl, some, List, length,
  get_or, bit_and, bit_or, arith, ap, ◌∙◌,
}
use usbvfiod.Prelude.Bits.{bit_and-zero, bit_and_255, bit_or_shifted}
use usbvfiod.Prelude.Bytes.{to_le_bytes, to_le_bytes-IsByte}
use usbvfiod.Bus.Request.{RequestSize, Request, bytes, u64_mod}
use usbvfiod.RegisterSet.{RegisterSet, written, read, write}
use usbvfiod.RegisterSet.Writes.{Wrote, write-Wrote}
use usbvfiod.RegisterSet.ReadBack.{read-bytes, slice-eq, low_bytes}
use usbvfiod.RegisterSet.Builder.{RegisterSetBuilder, init_le, le_ro_at}
use usbvfiod.RegisterSet.Building.{IsSized, built, init_le-Placed}

-- A register that has been placed reads as the value that it was placed with, cut to its size.
pub read-init_le :
    (s : RequestSize) (b : RegisterSetBuilder) (pos value write_mask w1c_mask : ℕ)
    → IsSized b
    → pos + bytes s ≤ length b.bytes
    → length b.bytes < u64_mod
    → (c : RegisterSetBuilder) × (init_le (bytes s) b pos value write_mask w1c_mask ≡ some c)
      × (read (built c) (record { addr = pos; size = s }) ≡ some (value % 256 ^ bytes s))
read-init_le s b pos value write_mask w1c_mask z h k =
    let (c, run, p) = init_le-Placed (bytes s) b pos value write_mask w1c_mask z h in
    (
      c,
      run,
      read-bytes (built c) (record { addr = pos; size = s }) (to_le_bytes (bytes s) value)
            (slice-eq (bytes s) (bytes s) pos value c.bytes (omega arith) p.value_inside)
            (to_le_bytes-IsByte (bytes s) value) (omega (arith, p.size)) (omega (arith, p.size))
          ∙ ap some (low_bytes s value),
    )

-- A byte with no mask bit set keeps its value.
written-read_only : (old byte : ℕ) → old < 256 → written old byte 0 0 ≡ old
written-read_only old byte h =
    let low : bit_and old 255 ≡ old = omega (arith, bit_and_255 old) in
    let or_zero : bit_or old 0 ≡ old = omega (arith, bit_or_shifted 8 old 0 h) in
    rw (bit_and-zero byte, low, or_zero, low) refl

zero_bytes : (w j : ℕ) → get_or (to_le_bytes w 0) j 0 ≡ 0
zero_bytes zero j = refl
zero_bytes (suc w) zero = refl
zero_bytes (suc w) (suc j) = zero_bytes w j

get_or-IsByte : (w v j : ℕ) → get_or (to_le_bytes w v) j 0 < 256
get_or-IsByte zero v j = omega arith
get_or-IsByte (suc w) v zero = omega arith
get_or-IsByte (suc w) v (suc j) = get_or-IsByte w (v / 256) j

inside_or_outside : (a n i : ℕ) → ((i < a) ⊎ (a + n ≤ i)) ⊎ ((a ≤ i) × (i < a + n))
inside_or_outside a n i = ground arith

module _ (r r' : RegisterSet) (addr n : ℕ) (bs : List ℕ) (w : Wrote written r r' addr n bs) where
  -- A byte without a mask bit is not changed by a write.
  read_only_byte :
      (i old : ℕ)
      → old < 256
      → get_or r.bytes i 0 ≡ old
      → get_or r.rw_mask i 0 ≡ 0
      → get_or r.w1c_mask i 0 ≡ 0
      → get_or r'.bytes i 0 ≡ old
  read_only_byte i old h e m c = elim (inside_or_outside addr n i) [
    | inl o ↦ w.outside i o ∙ e
    | inr q ↦
        w.inside (i - addr) i (omega arith) (omega arith)
        ∙ rw (e, m, c) (written-read_only old (get_or bs (i - addr) 0) h)
  ]

-- No write of a guest changes what it reads from a register that has been placed as read-only,
-- wherever the write is inside the register set, whatever its size and its value.
pub le_ro_at-stays :
    (s : RequestSize) (b : RegisterSetBuilder) (pos value : ℕ) (req : Request) (val : ℕ)
    → IsSized b
    → pos + bytes s ≤ length b.bytes
    → length b.bytes < u64_mod
    → req.addr + bytes req.size ≤ length b.bytes
    → (c : RegisterSetBuilder) × (r : RegisterSet) × (le_ro_at (bytes s) b pos value ≡ some c)
      × (write (built c) req val ≡ some r)
      × (read r (record { addr = pos; size = s }) ≡ some (value % 256 ^ bytes s))
unfolding le_ro_at
le_ro_at-stays s b pos value req val z h k q =
    let n = bytes s in
    let (c, run, p) = init_le-Placed n b pos value 0 0 z h in
    let (r, wrote, w) =
      write-Wrote (built c) req val (omega (arith, p.size)) (omega (arith, p.size)) in
    let same : (j i : ℕ)
        → j < n
        → pos + j ≡ i
        → get_or r.bytes i 0 ≡ get_or (to_le_bytes n value) j 0 =
      λ j i hj e.
        read_only_byte (built c) r req.addr (bytes req.size) (to_le_bytes 8 val) w i
          (get_or (to_le_bytes n value) j 0) (get_or-IsByte n value j) (p.value_inside j i hj e)
          (p.rw_inside j i hj e ∙ zero_bytes n j) (p.w1c_inside j i hj e ∙ zero_bytes n j) in
    (
      c,
      r,
      run,
      wrote,
      read-bytes r (record { addr = pos; size = s }) (to_le_bytes n value)
            (slice-eq n n pos value r.bytes (omega arith) same) (to_le_bytes-IsByte n value)
            (omega (arith, p.size, w.size_same)) (omega (arith, p.size, w.size_same))
          ∙ ap some (low_bytes s value),
    )
