-- ===== src/Registers/Resets.antt =====
-- A reset of the controller in USBCMD, over the writes of a guest.
use usbvfiod.Prelude.{
  ℕ, ◌-◌, ◌^◌, ◌<◌, ◌≡◌, ◌∙◌, ap, ap₂, Bool, true, false, not, ◌&&◌, ◌||◌, List, [], ◌∷◌, arith,
  bit_and, bit_xor,
}
use usbvfiod.Prelude.Bits.{test_bit, test_bit-bit_and, test_bit-bit_or, test_bit_complement}
use usbvfiod.Registers.Operational.{hcrst, usbcmd_write, clear_hcrst}

-- The value after several writes.
abbrev pub usbcmd_writes : ℕ → List ℕ → ℕ
usbcmd_writes current [] = current
usbcmd_writes current (value ∷ values) = usbcmd_writes (usbcmd_write current value).0 values

usbcmd_write_bits :
    (current value i : ℕ)
    → test_bit (usbcmd_write current value).0 i
      ≡ (test_bit value i && test_bit 7 i || test_bit current i && test_bit 2 i)
unfolding usbcmd_write
usbcmd_write_bits current value i =
    test_bit-bit_or (bit_and value 7) (bit_and current 2) i
    ∙ ap₂ (λ a b. a || b) (test_bit-bit_and value 7 i) (test_bit-bit_and current 2 i)

kept : (value current : Bool) → current ≡ true → (value && true || current && true) ≡ true
kept value current h = ground arith

sets : (value current : Bool) → value ≡ true → (value && true || current && true) ≡ true
sets value current h = ground arith

usbcmd_writes-kept :
    (current : ℕ) (values : List ℕ)
    → test_bit current 1 ≡ true
    → test_bit (usbcmd_writes current values) 1 ≡ true
usbcmd_writes-kept current [] h = h
usbcmd_writes-kept current (value ∷ values) h =
    usbcmd_writes-kept (usbcmd_write current value).0 values
      (usbcmd_write_bits current value 1 ∙ kept (test_bit value 1) (test_bit current 1) h)

clear_hcrst_bits :
    (current i : ℕ)
    → i < 32
    → test_bit (clear_hcrst current) i ≡ (test_bit current i && not (test_bit 2 i))
unfolding clear_hcrst
clear_hcrst_bits current i h =
    test_bit-bit_and current (bit_xor hcrst (2 ^ 32 - 1)) i
    ∙ ap (λ b. test_bit current i && b) (test_bit_complement 32 hcrst i h)

forced : (b : Bool) → (b && false) ≡ false
forced b = ground arith

untouched : (b m : Bool) → m ≡ false → (b && not m) ≡ b
untouched b m h = ground arith

-- Once a guest has written HCRST, it stays set over all further writes, until `clear_hcrst` clears it,
-- which changes no other bit.
pub usbcmd_writes-hcrst :
    (current value : ℕ) (values : List ℕ)
    → test_bit value 1 ≡ true
    → let after = usbcmd_writes (usbcmd_write current value).0 values in
      (test_bit after 1 ≡ true)
      × (test_bit (clear_hcrst after) 1 ≡ false)
      × ((i : ℕ)
          → i < 32
          → test_bit 2 i ≡ false
          → test_bit (clear_hcrst after) i ≡ test_bit after i)
usbcmd_writes-hcrst current value values h =
    let after = usbcmd_writes (usbcmd_write current value).0 values in
    (
      usbcmd_writes-kept (usbcmd_write current value).0 values
          (usbcmd_write_bits current value 1 ∙ sets (test_bit value 1) (test_bit current 1) h),
      clear_hcrst_bits after 1 (omega arith) ∙ forced (test_bit after 1),
      λ i lt other. clear_hcrst_bits after i lt ∙ untouched (test_bit after i) (test_bit 2 i) other,
    )
