-- ===== src/Registers/Portsc.antt =====
-- `PortscRegister` of src/device/xhci/registers.rs, `UsbVersion` of src/device/xhci/port.rs, and the
-- constants `portsc` of src/device/pci/constants.rs.
use usbvfiod.Prelude.{ℕ, ◌==◌, if◌then◌else◌, Bool, not, Option, none, some, bit_and, bit_or}
use usbvfiod.Trb.Event.{EventTrb, port_status_change}
use usbvfiod.Registers.{not_u64}

abbrev pub ccs : ℕ
ccs = 0x1

abbrev pub ped : ℕ
ped = 0x2

abbrev pub pr : ℕ
pr = 0x10

abbrev pub pls : ℕ
pls = 0x1e0

abbrev pub pp : ℕ
pp = 0x200

abbrev pub csc : ℕ
csc = 0x20000

abbrev pub pec : ℕ
pec = 0x40000

abbrev pub prc : ℕ
prc = 0x200000

abbrev pub pls_u0 : ℕ
pls_u0 = 0x0

abbrev pub pls_rxdetect : ℕ
pls_rxdetect = 0xa0

abbrev pub pls_polling : ℕ
pls_polling = 0xe0

abbrev pub bitmask_rw1c : ℕ
bitmask_rw1c = 0x00260000

pub data UsbVersion : Type 0 where
  usb2 usb3 : UsbVersion

pub record PortscRegister : Type 0 where
  pub value : ℕ
  pub usb_version : UsbVersion
  pub port_id : ℕ

-- `EventTrb::new_port_status_change_event_trb`
abbrev pub new_port_status_change_event_trb : ℕ → EventTrb
new_port_status_change_event_trb id = port_status_change (record { port_id = id })

unfoldable pub new : UsbVersion → ℕ → PortscRegister
new version id = record { value = bit_or pp pls_rxdetect; usb_version = version; port_id = id }

unfoldable pub set : PortscRegister → ℕ → PortscRegister
set r value = record r { value = value }

unfoldable pub update_with_mask : ℕ → ℕ → ℕ → ℕ
update_with_mask register value mask = bit_or (bit_and value mask) (bit_and register (not_u64 mask))

unfoldable pub port_reset : ℕ → UsbVersion → ℕ
unfolding update_with_mask
port_reset register usb2 =
    update_with_mask register (bit_or (bit_or pls_u0 ped) prc) (bit_or (bit_or prc ped) pls)
port_reset register usb3 = update_with_mask register prc prc

-- `new_value & portsc::PR != 0`
abbrev pub resets : ℕ → Bool
resets new_value = not (bit_and new_value pr == 0)

-- `write`: the register after it, and the event that it sends.
unfoldable pub write : PortscRegister → ℕ → PortscRegister × Option EventTrb
unfolding port_reset
write r new_value =
    let cleared = bit_and r.value (not_u64 (bit_and new_value bitmask_rw1c)) in
    if resets new_value
    then (
      record r { value = port_reset cleared r.usb_version },
      some (new_port_status_change_event_trb r.port_id),
    )
    else (record r { value = cleared }, none)
