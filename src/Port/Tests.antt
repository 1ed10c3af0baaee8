-- ===== src/Port/Tests.antt =====
-- src/device/xhci/port.rs with a mouse and a disk.
use usbvfiod.Prelude.{◌≡◌, ◌↔◌, refl, true, false, none, some}
use usbvfiod.Registers.Portsc
use usbvfiod.SlotManager.{done}
use usbvfiod.Port.{
  full, super, Device, PortWorker, successful_operation, attach, detach, list_attached,
}
use usbvfiod.Port.Array.{
  modify, new, send, write_portsc, get_portsc_id, get_portpmsc_id, get_portli_id,
}
use usbvfiod.Port.Worker.{attached_devices, contains, find_free, handle, occupied, plug, replug}
use usbvfiod.Port.Validity.{IsValid, new-IsValid}
use usbvfiod.Port.Runs.{here, next, message, portsc, Runs-IsValid}
use usbvfiod.Port.Attaching.{Attached, replug-Attached}
use usbvfiod.Port.Addresses.{PortAt, get_ids_iff}

abbrev mouse : Device
mouse = record { identifier = (1, 2); speed = some full; detach_token = 10 }

abbrev disk : Device
disk = record { identifier = (1, 3); speed = some super; detach_token = 11 }

abbrev empty : PortWorker
empty = new true

abbrev with_mouse : PortWorker
with_mouse = (handle empty (attach mouse) true).1

-- The guest resets the port of the mouse, which is number 5.
abbrev after_reset : PortWorker
after_reset = elim (write_portsc with_mouse 5 0x10) [ none ↦ with_mouse | some (a, w) ↦ w ]

mouse_reset : write_portsc with_mouse 5 0x10 ≡ some (done tt, after_reset)
unfolding write_portsc Portsc.write Portsc.port_reset Portsc.update_with_mask Portsc.new Portsc.set
    modify send handle replug plug find_free occupied attached_devices contains new
mouse_reset = refl

abbrev final : PortWorker
final = (handle after_reset (detach (1, 2) none) true).1

Runs-IsValid_example : IsValid final.ports
unfolding write_portsc handle
Runs-IsValid_example = Runs-IsValid (new-IsValid true) (
    next
      (next (next (next here (message (attach mouse) true)) (portsc 5 0x10 mouse_reset))
        (message list_attached false))
      (message (detach (1, 2) none) true))

plugged : (replug empty disk).0 ≡ done successful_operation
unfolding replug plug find_free occupied attached_devices contains new send modify Portsc.new
plugged = refl

replug-Attached_example : Attached disk (replug empty disk).1
replug-Attached_example = replug-Attached empty disk (new-IsValid true) plugged

get_ids_iff_example :
    ((get_portsc_id 0x490 ≡ some 6) ↔ PortAt 0x490 0 6)
    × ((get_portpmsc_id 0x490 ≡ some 6) ↔ PortAt 0x490 4 6)
    × ((get_portli_id 0x490 ≡ some 6) ↔ PortAt 0x490 8 6)
get_ids_iff_example = get_ids_iff 0x490 6
