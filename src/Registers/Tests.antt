-- ===== src/Registers/Tests.antt =====
-- src/device/xhci/registers.rs at concrete values.
use usbvfiod.Prelude.{ℕ, ◌<◌, ◌≡◌, refl, if◌then◌else◌, true, false, not, ◌&&◌, [], ◌∷◌, arith}
use usbvfiod.Prelude.Bits.{test_bit}
use usbvfiod.Registers.Portsc.{usb2, PortscRegister, resets, write}
use usbvfiod.Registers.Changes.{reset_mask, reset_value, write-test_bit}
use usbvfiod.Registers.Operational.{usbcmd_write, clear_hcrst, usbsts_read}
use usbvfiod.Registers.Resets.{usbcmd_writes, usbcmd_writes-hcrst}

abbrev polling : PortscRegister
polling = record { value = 0x202e1; usb_version = usb2; port_id = 5 }

reset_port : (write polling 0x20010).0.value ≡ 0x200203
unfolding write
reset_port = refl

write-test_bit_example : test_bit (write polling 0x20010).0.value 17 ≡ (
    if resets 0x20010 && test_bit (reset_mask usb2) 17
    then test_bit (reset_value usb2) 17
    else test_bit 0x202e1 17 && not (test_bit 0x20010 17 && test_bit 0x260000 17))
write-test_bit_example = write-test_bit polling 0x20010 17 (omega arith)

stopped_reads : usbsts_read 0x4 ≡ 0x19
unfolding usbsts_read
stopped_reads = refl

abbrev further : ℕ
further = usbcmd_writes (usbcmd_write 0x1 0x3).0 (0x4 ∷ 0 ∷ [])

usbcmd_writes-hcrst_example :
    (test_bit further 1 ≡ true)
    × (test_bit (clear_hcrst further) 1 ≡ false)
    × ((i : ℕ)
        → i < 32
        → test_bit 2 i ≡ false
        → test_bit (clear_hcrst further) i ≡ test_bit further i)
usbcmd_writes-hcrst_example = usbcmd_writes-hcrst 0x1 0x3 (0x4 ∷ 0 ∷ []) refl
