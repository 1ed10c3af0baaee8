-- ===== src/RegisterSet/Writes.antt =====
-- What a write does to each bit of a register: src/device/register_set.rs.
use usbvfiod.Prelude.{
  ℕ, zero, suc, ◌+◌, ◌≤◌, ◌<◌, ◌≡◌, refl, not, ◌&&◌, Option, none, some, List, [], ◌∷◌, arith,
  length, get_or, set, ltb, length-set, get_or-set_self, get_or-set_ne, subst, ◌≢◌, ◌⊎◌, inl, ap,
  ◌∙◌, if◌then◌else◌, bit_and, bit_or,
}
use usbvfiod.Prelude.Bits.{test_bit, test_bit-bit_and, test_bit-bit_or, test_bit-not_u8, not_u8}
use usbvfiod.Prelude.Bytes.{to_le_bytes}
use usbvfiod.Bus.Request.{Request, bytes, bytes-le, bytes_from, iter_bytes, u64_mod}
use usbvfiod.RegisterSet.{
  RegisterSet, written, write_byte, write_direct_byte, for_bytes, write, write_direct,
}

-- Each bit of a written byte: a writable bit takes the new value, a W1C bit is cleared by a 1, and
-- any other bit stays.
pub test_bit-written :
    (old byte rw w1c i : ℕ)
    → i < 8
    → test_bit (written old byte rw w1c) i ≡ (
        (if test_bit rw i then test_bit byte i else test_bit old i)
        && not (test_bit byte i && test_bit w1c i))
test_bit-written old byte rw w1c i h = ground (
  arith,
  test_bit-bit_and (bit_or (bit_and old (not_u8 rw)) (bit_and byte rw)) (not_u8 (bit_and byte w1c))
      i,
  test_bit-bit_or (bit_and old (not_u8 rw)) (bit_and byte rw) i,
  test_bit-bit_and old (not_u8 rw) i,
  test_bit-bit_and byte rw i,
  test_bit-bit_and byte w1c i,
  test_bit-not_u8 rw i h,
  test_bit-not_u8 (bit_and byte w1c) i h,
)

-- One round of the loop of `write` or `write_direct`, for a byte function `new`.
abbrev update_byte : (ℕ → ℕ → ℕ → ℕ → ℕ) → RegisterSet → ℕ → ℕ → Option RegisterSet
update_byte new r off byte =
    if ltb off (length r.bytes)
    then some (record r {
      bytes =
          set r.bytes off
            (new (get_or r.bytes off 0) byte (get_or r.rw_mask off 0) (get_or r.w1c_mask off 0));
    })
    else none

-- What a write of `n` bytes from `addr` on leaves.
pub record Wrote (new : ℕ → ℕ → ℕ → ℕ → ℕ) (r r' : RegisterSet) (addr n : ℕ) (bs : List ℕ)
    : Type 0 where
  pub rw_same : r'.rw_mask ≡ r.rw_mask
  pub w1c_same : r'.w1c_mask ≡ r.w1c_mask
  pub size_same : length r'.bytes ≡ length r.bytes
  pub inside :
      (j i : ℕ)
      → j < n
      → addr + j ≡ i
      → get_or r'.bytes i 0
        ≡ new (get_or r.bytes i 0) (get_or bs j 0) (get_or r.rw_mask i 0) (get_or r.w1c_mask i 0)
  pub outside : (i : ℕ) → (i < addr) ⊎ (addr + n ≤ i) → get_or r'.bytes i 0 ≡ get_or r.bytes i 0

module _ (new : ℕ → ℕ → ℕ → ℕ → ℕ) where
  for_bytes-Wrote :
      (n addr : ℕ) (r : RegisterSet) (bs : List ℕ)
      → addr + n ≤ length r.bytes
      → n ≤ length bs
      → (r' : RegisterSet) × (for_bytes (update_byte new) r (bytes_from addr n) bs ≡ some r')
        × Wrote new r r' addr n bs
  unfolding for_bytes
  for_bytes-Wrote zero addr r bs h k = (
    r,
    refl,
    record {
      rw_same = refl;
      w1c_same = refl;
      size_same = refl;
      inside = λ j i hj e. absurd (omega arith);
      outside = λ i o. refl;
    },
  )
  for_bytes-Wrote (suc n) addr r [] h k = absurd (omega arith)
  for_bytes-Wrote (suc n) addr r (b ∷ bs) h k =
      let v = new (get_or r.bytes addr 0) b (get_or r.rw_mask addr 0) (get_or r.w1c_mask addr 0) in
      let r1 : RegisterSet = record r { bytes = set r.bytes addr v } in
      let size = length-set r.bytes addr v in
      let (r', run, w) = for_bytes-Wrote n (addr + 1) r1 bs (omega (arith, size)) (omega arith) in
      (
        r',
        ground arith,
        record {
          rw_same = w.rw_same;
          w1c_same = w.w1c_same;
          size_same = w.size_same ∙ size;
          inside = elim [
            | zero ↦ λ i hj e.
                let same : addr ≡ i = omega arith in
                w.outside i (inl (omega arith))
                ∙ subst
                    (λ t.
                      get_or (set r.bytes addr v) t 0
                      ≡ new (get_or r.bytes t 0) b (get_or r.rw_mask t 0) (get_or r.w1c_mask t 0))
                    same (get_or-set_self r.bytes addr v 0 (omega arith))
            | suc j ↦ λ i hj e.
                w.inside j i (omega arith) (omega arith)
                ∙ ap (λ old. new old (get_or bs j 0) (get_or r.rw_mask i 0) (get_or r.w1c_mask i 0))
                    (get_or-set_ne r.bytes v 0 (omega arith))
          ];
          outside =
              λ i o. w.outside i (next_outside i o) ∙ get_or-set_ne r.bytes v 0 (not_here i o);
        },
      )
    where
      next_outside : (i : ℕ) → (i < addr) ⊎ (addr + suc n ≤ i) → (i < addr + 1) ⊎ (addr + 1 + n ≤ i)
      next_outside i o = omega arith

      not_here : (i : ℕ) → (i < addr) ⊎ (addr + suc n ≤ i) → addr ≢ i
      not_here i o = omega arith

pub iter_bytes-some :
    (req : Request)
    → req.addr + bytes req.size < u64_mod
    → iter_bytes req ≡ some (bytes_from req.addr (bytes req.size))
unfolding iter_bytes
iter_bytes-some req h = ground arith

-- A write inside the register set succeeds: each byte of the request is combined with the byte of
-- the value by `written`, and no other byte and no mask changes.
pub write-Wrote :
    (r : RegisterSet) (req : Request) (val : ℕ)
    → req.addr + bytes req.size ≤ length r.bytes
    → length r.bytes < u64_mod
    → (r' : RegisterSet) × (write r req val ≡ some r')
      × Wrote written r r' req.addr (bytes req.size) (to_le_bytes 8 val)
unfolding write write_byte
write-Wrote r req val h k =
    rw (iter_bytes-some req (omega arith), write)
      (for_bytes-Wrote written (bytes req.size) req.addr r (to_le_bytes 8 val) h
        (bytes-le req.size))

-- A write inside the register set, whose size is below 2 ^ 64, succeeds and leaves each bit of the
-- request's bytes so: a bit that is writable is the written one, another bit stays, and a bit that is
-- written as 1 where a one clears it is 0. No other byte and no mask changes.
pub write-bits :
    (r : RegisterSet) (req : Request) (val : ℕ)
    → req.addr + bytes req.size ≤ length r.bytes
    → length r.bytes < u64_mod
    → (r' : RegisterSet) × (write r req val ≡ some r')
      × ((j k : ℕ)
          → j < bytes req.size
          → k < 8
          → test_bit (get_or r'.bytes (req.addr + j) 0) k ≡ (
              (if test_bit (get_or r.rw_mask (req.addr + j) 0) k
                then test_bit (get_or (to_le_bytes 8 val) j 0) k
                else test_bit (get_or r.bytes (req.addr + j) 0) k)
              && not (
                  test_bit (get_or (to_le_bytes 8 val) j 0) k
                  && test_bit (get_or r.w1c_mask (req.addr + j) 0) k)))
      × ((i : ℕ)
          → (i < req.addr) ⊎ (req.addr + bytes req.size ≤ i)
          → get_or r'.bytes i 0 ≡ get_or r.bytes i 0)
      × (length r'.bytes ≡ length r.bytes)
      × (r'.rw_mask ≡ r.rw_mask)
      × (r'.w1c_mask ≡ r.w1c_mask)
write-bits r req val h size =
    let (r', run, w) = write-Wrote r req val h size in
    (
      r',
      run,
      λ j k hj hk.
          ap (λ b. test_bit b k) (w.inside j (req.addr + j) hj refl)
          ∙ test_bit-written (get_or r.bytes (req.addr + j) 0) (get_or (to_le_bytes 8 val) j 0)
              (get_or r.rw_mask (req.addr + j) 0) (get_or r.w1c_mask (req.addr + j) 0) k hk,
      w.outside,
      w.size_same,
      w.rw_same,
      w.w1c_same,
    )

-- A direct write inside the register set succeeds: each byte of the request is the byte of the
-- value, whatever the masks are, and no other byte and no mask changes.
pub write_direct-Wrote :
    (r : RegisterSet) (req : Request) (val : ℕ)
    → req.addr + bytes req.size ≤ length r.bytes
    → length r.bytes < u64_mod
    → (r' : RegisterSet) × (write_direct r req val ≡ some r')
      × Wrote (λ old byte rw w1c. byte) r r' req.addr (bytes req.size) (to_le_bytes 8 val)
unfolding write_direct write_direct_byte
write_direct-Wrote r req val h k =
    rw (iter_bytes-some req (omega arith), write_direct)
      (for_bytes-Wrote (λ old byte rw w1c. byte) (bytes req.size) req.addr r (to_le_bytes 8 val) h
        (bytes-le req.size))
