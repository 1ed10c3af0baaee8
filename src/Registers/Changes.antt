-- ===== src/Registers/Changes.antt =====
-- What a write of the guest to PORTSC changes, bit by bit.
use usbvfiod.Prelude.{
  ℕ, ◌-◌, ◌^◌, ◌<◌, ◌≡◌, ◌∙◌, ap, ap₂, inl, inr, if◌then◌else◌, Bool, false, not, ◌&&◌, ◌||◌, arith,
  bit_and, bit_xor, Bool-cases,
}
use usbvfiod.Prelude.Bits.{test_bit, test_bit-bit_and, test_bit-bit_or, test_bit_complement}
use usbvfiod.Registers.Portsc.{
  UsbVersion, usb2, usb3, PortscRegister, bitmask_rw1c, update_with_mask, port_reset, resets, write,
}

-- The bits that a port reset sets and clears, and those of them that it sets: PED, PLS and PRC on a
-- USB 2 port, PRC on a USB 3 port.
abbrev pub reset_mask : UsbVersion → ℕ
reset_mask usb2 = 0x2001e2
reset_mask usb3 = 0x200000

abbrev pub reset_value : UsbVersion → ℕ
reset_value usb2 = 0x200002
reset_value usb3 = 0x200000

update_with_mask_bits :
    (register value mask i : ℕ)
    → i < 64
    → test_bit (update_with_mask register value mask) i
      ≡ ((test_bit value i && test_bit mask i) || (test_bit register i && not (test_bit mask i)))
unfolding update_with_mask
update_with_mask_bits register value mask i h =
    test_bit-bit_or (bit_and value mask) (bit_and register (bit_xor mask (2 ^ 64 - 1))) i
    ∙ ap₂ (λ a b. a || b) (test_bit-bit_and value mask i)
        (test_bit-bit_and register (bit_xor mask (2 ^ 64 - 1)) i
          ∙ ap (λ b. test_bit register i && b) (test_bit_complement 64 mask i h))

merged : (v m r : Bool) → (v && m || r && not m) ≡ (if m then v else r)
merged v m r = ground arith

port_reset_bits :
    (register i : ℕ) (version : UsbVersion)
    → i < 64
    → test_bit (port_reset register version) i ≡ (
        if test_bit (reset_mask version) i
        then test_bit (reset_value version) i
        else test_bit register i)
unfolding port_reset
port_reset_bits register i usb2 h =
    update_with_mask_bits register 0x200002 0x2001e2 i h
    ∙ merged (test_bit 0x200002 i) (test_bit 0x2001e2 i) (test_bit register i)
port_reset_bits register i usb3 h =
    update_with_mask_bits register 0x200000 0x200000 i h
    ∙ merged (test_bit 0x200000 i) (test_bit 0x200000 i) (test_bit register i)

cleared_bits :
    (value new_value i : ℕ)
    → i < 64
    → test_bit (bit_and value (bit_xor (bit_and new_value bitmask_rw1c) (2 ^ 64 - 1))) i
      ≡ (test_bit value i && not (test_bit new_value i && test_bit bitmask_rw1c i))
cleared_bits value new_value i h =
    test_bit-bit_and value (bit_xor (bit_and new_value bitmask_rw1c) (2 ^ 64 - 1)) i
    ∙ ap (λ b. test_bit value i && b)
        (test_bit_complement 64 (bit_and new_value bitmask_rw1c) i h
          ∙ ap not (test_bit-bit_and new_value bitmask_rw1c i))

-- A write of the guest clears those of CSC, PEC and PRC that it has set, and changes no other bit; with
-- PR set, it then leaves PED set, PLS clear and PRC set on a USB 2 port, and PRC set on a USB 3 port.
pub write-test_bit :
    (r : PortscRegister) (new_value i : ℕ)
    → i < 64
    → test_bit (write r new_value).0.value i ≡ (
        if resets new_value && test_bit (reset_mask r.usb_version) i
        then test_bit (reset_value r.usb_version) i
        else test_bit r.value i && not (test_bit new_value i && test_bit 0x260000 i))
unfolding write
write-test_bit r new_value i h = elim (Bool-cases (resets new_value)) [
  | inl reset ↦ rw reset (
      port_reset_bits _ i r.usb_version h
      ∙ ap
          (λ b.
            if test_bit (reset_mask r.usb_version) i
            then test_bit (reset_value r.usb_version) i
            else b)
          (cleared_bits r.value new_value i h))
  | inr no_reset ↦ rw no_reset (cleared_bits r.value new_value i h)
]

unmasked :
    (version : UsbVersion) (reset v r : Bool)
    → (if reset && test_bit (reset_mask version) 0
        then test_bit (reset_value version) 0
        else r && not (v && false))
      ≡ r
unmasked usb2 reset v r = ground arith
unmasked usb3 reset v r = ground arith

-- No write of the guest changes CCS.
pub write-ccs :
    (r : PortscRegister) (new_value : ℕ)
    → test_bit (write r new_value).0.value 0 ≡ test_bit r.value 0
write-ccs r new_value =
    write-test_bit r new_value 0 (omega arith)
    ∙ unmasked r.usb_version (resets new_value) (test_bit new_value 0) (test_bit r.value 0)
