-- ===== src/Registers/Operational.antt =====
-- The other registers of src/device/xhci/registers.rs, and the constants `usbcmd` and `usbsts` of
-- src/device/pci/constants.rs.
use usbvfiod.Prelude.{
  ℕ, ◌^◌, ◌==◌, leb, if◌then◌else◌, Bool, Option, none, some, bit_and, bit_or, bit_xor, ◌-◌,
}
use usbvfiod.SlotManager.Table.{max_slots}
use usbvfiod.Registers.{not_u64}

abbrev pub rs : ℕ
rs = 0x1

abbrev pub hcrst : ℕ
hcrst = 0x2

abbrev pub inte : ℕ
inte = 0x4

abbrev pub hch : ℕ
hch = 0x1

abbrev pub eint : ℕ
eint = 0x8

abbrev pub pcd : ℕ
pcd = 0x10

-- `ConfigureRegister::write`; `none` is the failed assertion.
unfoldable pub configure_write : ℕ → Option ℕ
configure_write value = if leb (bit_and value 0xff) max_slots then some value else none

-- `DcbaapRegister::write`
unfoldable pub dcbaap_write : ℕ → ℕ
dcbaap_write value = bit_and value (not_u64 0x1f)

-- `ErstbaRegister::erstba`
unfoldable pub erstba : ℕ → ℕ
erstba value = bit_and value (not_u64 0x1f)

abbrev pub bitmask_preserved : ℕ
bitmask_preserved = bit_or (bit_or rs inte) hcrst

-- `UsbcmdRegister::write`: the value after it, and whether it asks for a reset.
unfoldable pub usbcmd_write : ℕ → ℕ → ℕ × Bool
usbcmd_write current value =
    (bit_or (bit_and value bitmask_preserved) (bit_and current hcrst), bit_and value hcrst == hcrst)

-- `UsbcmdRegister::clear_hcrst`, on 32 bits.
unfoldable pub clear_hcrst : ℕ → ℕ
clear_hcrst current = bit_and current (bit_xor hcrst (2 ^ 32 - 1))

-- `UsbstsRegister::read`, with the value of USBCMD.
unfoldable pub usbsts_read : ℕ → ℕ
usbsts_read usbcmd = bit_or (bit_or (if bit_and usbcmd rs == rs then 0 else hch) eint) pcd
